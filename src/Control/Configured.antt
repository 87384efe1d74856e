-- ===== src/Control/Configured.antt =====
-- The sessions that changes leave.
use bbdd.Base.{
  ℕ, ◌≡◌, ◌≢◌, ◌⊎◌, inl, inr, refl, sym, ◌∙◌, not, true, false, Option, none, some, arith, ◌==◌,
  if◌then◌else◌, Bool-cases, Option-cases,
}
use bbdd.Wire.{hton16}
use bbdd.Session.{DSession, SockAddr}
use bbdd.Prog.Packet.{bfd_single_hop_port, bfd_multi_hop_port}
use bbdd.Control.State.{CSession, Libs, CAddr}
use bbdd.Control.Validate.{fine, and_then}
use bbdd.Control.Apply.{
  apply_c, apply_c_addr, apply_fields, apply_flags, mandatory, new_dst_af, new_src_af,
  changes_discr, parse_addrstr, no_addr, given,
}
use bbdd.Control.Applied.{apply_c-Applied, and_then-fine}

-- A session that the dataplane can run.
pub record IsConfigured (d : DSession) : Type 0 where
  pub discr_set : d.local.discr ≢ 0
  pub mult_set : d.local.timing.detect_mult ≢ 0
  pub min_tx_set : d.local.timing.min_tx_us ≢ 0
  pub min_rx_set : d.local.timing.min_rx_us ≢ 0
  pub has_dst : d.dst.family ≢ 0
  pub same_family : (d.src.family ≡ 0) ⊎ (d.src.family ≡ d.dst.family)
  pub dst_port :
      d.dst.port
      ≡ (if d.local.flags.multihop then hton16 bfd_multi_hop_port else hton16 bfd_single_hop_port)

-- What a change leaves alone.
pub record IsKin (d d' : DSession) : Type 0 where
  pub src_port : d'.src.port ≡ d.src.port
  pub discr : (d.local.discr ≡ 0) ⊎ (d'.local.discr ≡ d.local.discr)
  pub local_end : d'.local.end ≡ d.local.end
  pub remote_end : d'.remote.end ≡ d.remote.end
  pub remote_timing : d'.remote.timing ≡ d.remote.timing

-- The family of an address that was read.
parse-family :
    (l : Libs) (af : ℕ) (str : _) (a : SockAddr) → parse_addrstr l af str ≡ fine a → a.family ≡ af
unfolding parse_addrstr
parse-family l af str a h = ground arith

-- What is read of an address: the one that is to be set, or nothing.
pub read_cases :
    (l : Libs) (c : CAddr) (r : Option SockAddr)
    → apply_c_addr l c ≡ fine r
    → ((c.unset ≡ true) × (r ≡ some no_addr))
      ⊎ (((c.unset ≡ false) × (c.af ≡ 0) × (r ≡ none))
          ⊎ ((a : SockAddr) × (c.unset ≡ false)
              × (c.af ≢ 0)
              × (parse_addrstr l c.af c.str ≡ fine a)
              × (r ≡ some a)))
unfolding apply_c_addr
read_cases l c r h = elim (Bool-cases c.unset) [
  | inl q ↦ inl (q, ground arith)
  | inr q ↦ elim (Bool-cases (c.af == 0)) [
    | inl z ↦ inr (inl (q, ground arith, ground arith))
    | inr z ↦
        let h₁ : and_then (parse_addrstr l c.af c.str) (λ a. fine (some a)) ≡ fine r =
          rw (q, z) at h in
        let (a, p, e) = and_then-fine _ _ r h₁ in inr (inr (a, q, ground arith, p, ground arith))
  ]
]

read-family :
    (l : Libs) (c : CAddr) (r : Option SockAddr) (old : SockAddr)
    → apply_c_addr l c ≡ fine r
    → (given r old).family ≡ (if c.unset then 0 else if not (c.af == 0) then c.af else old.family)
read-family l c r old h = elim (read_cases l c r h) [
  | inl (u, e) ↦ ground arith
  | inr (inl (u, z, e)) ↦ ground arith
  | inr (inr (a, u, z, p, e)) ↦ ground (arith, parse-family l c.af c.str a p)
]

mandatory-set :
    (d : DSession) (c : CSession)
    → mandatory d c ≡ none
    → (given c.discr d.local.discr ≢ 0)
      × (given c.min_rx_us d.local.timing.min_rx_us ≢ 0)
      × (given c.min_tx_us d.local.timing.min_tx_us ≢ 0)
      × (given c.detect_mult d.local.timing.detect_mult ≢ 0)
unfolding mandatory
mandatory-set d c h = ground arith

kept_discr :
    (d : DSession) (c : CSession)
    → changes_discr d c ≡ false
    → (d.local.discr ≡ 0) ⊎ (given c.discr d.local.discr ≡ d.local.discr)
unfolding changes_discr
kept_discr d c h = elim (Option-cases c.discr) [
  | inl n ↦ rw n (inr refl)
  | inr (x, q) ↦ elim (Bool-cases (d.local.discr == 0)) [
    | inl z ↦ inl (ground arith)
    | inr z ↦ rw q (inr (ground arith))
  ]
]

-- A change that is made leaves a session that can be run, whatever it was before: its discriminator,
-- multiplier and intervals are not 0, it has a destination, of the source's family if it has a
-- source, and the destination port of its kind. The source port, the state and diagnostic of both
-- ends and the timing of the remote end are as they were, and so is the discriminator, unless it was
-- 0, that is, not set yet.
pub apply_c-IsConfigured :
    (l : Libs) (d : DSession) (c : CSession) (d' : DSession)
    → apply_c l d c ≡ some (fine d')
    → IsConfigured d' × IsKin d d'
unfolding apply_fields new_dst_af new_src_af changes_discr apply_flags
apply_c-IsConfigured l d c d' h =
    let v = apply_c-Applied l d c d' h in
    let (discr, rx, tx, mult) = mandatory-set d c v.values in
    let src_f = read-family l c.src v.src d.src v.src_read in
    let dst_f = read-family l c.dst v.dst d.dst v.dst_read in
    let dst_f' : (given v.dst d.dst).family ≡ new_dst_af d c = dst_f ∙ rw v.dst_set refl in
    let src_f' : (given v.src d.src).family ≡ new_src_af d c = src_f in
    rw v.result (
      record {
        discr_set = discr;
        mult_set = mult;
        min_tx_set = tx;
        min_rx_set = rx;
        has_dst = λ z. v.dst_family (sym dst_f' ∙ z);
        same_family = elim v.src_family [
          | inl z ↦ inl (src_f' ∙ z)
          | inr e ↦ inr (src_f' ∙ e ∙ sym dst_f')
        ];
        dst_port = refl;
      },
      record {
        src_port = refl;
        discr = kept_discr d c v.same_discr;
        local_end = refl;
        remote_end = refl;
        remote_timing = refl;
      },
    )
