-- ===== src/Control/Applied.antt =====
-- What a change has passed when it was made.
use bbdd.Base.{◌≡◌, ◌≢◌, ◌⊎◌, inl, inr, refl, false, Option, none, some, arith, Option-cases}
use bbdd.Session.{DSession, SockAddr}
use bbdd.Control.State.{CSession, CVrf, Libs}
use bbdd.Control.Validate.{Checked, refused, fine, and_then, validate_vrf}
use bbdd.Control.Apply.{
  apply_c, apply_parsed, apply_c_addr, apply_fields, mandatory, new_dst_af, new_src_af,
  changes_discr, vrf_view,
}

pub and_then-fine {ℓ} :
    {A B : Type ℓ} (m : Checked A) (f : A → Checked B) (b : B)
    → and_then m f ≡ fine b
    → (a : A) × (m ≡ fine a) × (f a ≡ fine b)
unfolding and_then
and_then-fine (refused x) f b h = cc
and_then-fine (fine a) f b h = (a, refl, h)

pub record Applied (l : Libs) (d : DSession) (c : CSession) (d' : DSession) : Type 0 where
  pub src : Option SockAddr
  pub dst : Option SockAddr
  pub vrf : CVrf
  pub src_read : apply_c_addr l c.src ≡ fine src
  pub dst_read : apply_c_addr l c.dst ≡ fine dst
  pub vrf_read : validate_vrf l (vrf_view l d c) ≡ fine vrf
  pub values : mandatory d c ≡ none
  pub same_discr : changes_discr d c ≡ false
  pub dst_set : c.dst.unset ≡ false
  pub dst_family : new_dst_af d c ≢ 0
  pub src_family : (new_src_af d c ≡ 0) ⊎ (new_src_af d c ≡ new_dst_af d c)
  pub result : d' ≡ apply_fields d c src dst

-- The checks before the addresses are read.
passes :
    (l : Libs) (d : DSession) (c : CSession) (d' : DSession)
    → apply_c l d c ≡ some (fine d')
    → (apply_parsed l d c ≡ fine d')
      × (changes_discr d c ≡ false)
      × (c.dst.unset ≡ false)
      × (new_dst_af d c ≢ 0)
      × ((new_src_af d c ≡ 0) ⊎ (new_src_af d c ≡ new_dst_af d c))
unfolding apply_c
passes l d c d' h = ground arith

pub apply_c-Applied :
    (l : Libs) (d : DSession) (c : CSession) (d' : DSession)
    → apply_c l d c ≡ some (fine d')
    → Applied l d c d'
unfolding apply_parsed
apply_c-Applied l d c d' h =
    let (parsed, same, set, dst_af, src_af) = passes l d c d' h in
    let (src, src_q, h₁) = and_then-fine _ _ d' parsed in
    let (dst, dst_q, h₂) = and_then-fine _ _ d' h₁ in
    let (vrf, vrf_q, h₃) = and_then-fine _ _ d' h₂ in
    elim (Option-cases (mandatory d c)) [
      | inr (x, q) ↦ let h₄ : refused x ≡ fine d' = rw q at h₃ in absurd (ground arith)
      | inl n ↦
          let h₄ : fine (apply_fields d c src dst) ≡ fine d' = rw n at h₃ in
          record {
            src = src;
            dst = dst;
            vrf = vrf;
            src_read = src_q;
            dst_read = dst_q;
            vrf_read = vrf_q;
            values = n;
            same_discr = same;
            dst_set = set;
            dst_family = dst_af;
            src_family = src_af;
            result = ground arith;
          }
    ]

pub apply_c-ne-none :
    (l : Libs) (dsess : DSession) (c : CSession) → c.dst.unset ≡ false → apply_c l dsess c ≢ none
unfolding apply_c
apply_c-ne-none l dsess c q = ground arith
