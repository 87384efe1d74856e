-- ===== src/Bfdd/Arriving.antt =====
-- A session that is sent to bfdd's dataplane arrives.
use bbdd.Base.{
  ◌/◌, ◌*◌, ◌≤◌, ◌≡◌, ◌≢◌, ◌⊎◌, inl, inr, refl, sym, ◌∙◌, Bool, true, false, some, Option, [], ◌==◌,
  ltb, arith, Bool-cases, length,
}
use bbdd.Session.{DSession, SockAddr, af_inet, af_inet6}
use bbdd.Bpf.Discr0.{BpfAddr}
use bbdd.Control.State.{Str, CAddr, Libs}
use bbdd.Control.Validate.{Checked, fine, and_then}
use bbdd.Control.Apply.{apply_c_addr, parse_addrstr, no_addr, given}
use bbdd.Bfdd.Message.{no_in6}
use bbdd.Bfdd.Convert.{is_zero, wire_af, src_to_c, session_to_c_addr}
use bbdd.Bfdd.Send.{addrbuf, src_buf}
use bbdd.Bfdd.Wire.{IsInet, bytes_of}

-- The same address: the family, and the bytes that the family has.
abbrev pub SameAddr : SockAddr → SockAddr → Type 0
SameAddr a b =
    (b.family ≡ a.family)
    × (a.family ≢ 0 → b.w0 ≡ a.w0)
    × (a.family ≡ af_inet6 → (b.w1 ≡ a.w1) × (b.w2 ≡ a.w2) × (b.w3 ≡ a.w3))

-- What is asked for is read as an address of the family with the bytes that were printed.
abbrev pub IsRead : Libs → CAddr → Bool → BpfAddr → Type 0
IsRead l c v6 a =
    (r : Option SockAddr)
    → apply_c_addr l c ≡ fine r
    → (x : SockAddr) × (r ≡ some x)
      × (x.family ≡ wire_af v6)
      × (x.w0 ≡ a.w0)
      × (v6 ≡ true → (x.w1 ≡ a.w1) × (x.w2 ≡ a.w2) × (x.w3 ≡ a.w3))

fine_inj :
    {r r' : Option SockAddr} (m : Checked (Option SockAddr)) → m ≡ fine r → m ≡ fine r' → r ≡ r'
fine_inj m p q = ground (arith, p, q)

read_inet :
    (l : Libs) (s : Str) (b : BpfAddr)
    → length s ≤ 45
    → l.inet_pton af_inet s ≡ some b
    → apply_c_addr l (record { unset = false; str = s; af = af_inet })
      ≡ fine (some (record no_addr { family = af_inet; w0 = b.w0 }))
unfolding apply_c_addr parse_addrstr and_then
read_inet l s b short read =
    let fits : ltb 67 (length s) ≡ false = ground (arith, short) in rw (fits, read) refl

read_inet6 :
    (l : Libs) (s : Str) (b : BpfAddr)
    → l.inet_pton af_inet6 s ≡ some b
    → apply_c_addr l (record { unset = false; str = s; af = af_inet6 })
      ≡ fine
          (some (record no_addr { family = af_inet6; w0 = b.w0; w1 = b.w1; w2 = b.w2; w3 = b.w3 }))
unfolding apply_c_addr parse_addrstr and_then
read_inet6 l s b read = rw read refl

pub addr-IsRead :
    (l : Libs) (v6 : Bool) (a : BpfAddr)
    → IsInet l
    → (c : CAddr) × (session_to_c_addr l a (wire_af v6) ≡ fine c)
      × (c.unset ≡ false)
      × IsRead l c v6 a
unfolding session_to_c_addr
addr-IsRead l false a inet =
    let (s, b, printed, short, read, w0, rest) = inet.prints false a in
    let c : CAddr = record { unset = false; str = s; af = wire_af false } in
    (
      c,
      rw (printed, session_to_c_addr) refl,
      refl,
      λ r q. (_, fine_inj (apply_c_addr l c) q (read_inet l s b short read), refl, w0, λ z. cc),
    )
addr-IsRead l true a inet =
    let (s, b, printed, short, read, w0, rest) = inet.prints true a in
    let (w1, w2, w3) = rest refl in
    let c : CAddr = record { unset = false; str = s; af = wire_af true } in
    (
      c,
      rw (printed, session_to_c_addr) refl,
      refl,
      λ r q.
          (_, fine_inj (apply_c_addr l c) q (read_inet6 l s b read), refl, w0, λ z. (w1, w2, w3)),
    )

-- The copy of an address that has one of the two families.
copied :
    (buf : BpfAddr) (sa : SockAddr) (a : BpfAddr)
    → addrbuf buf sa ≡ fine a
    → (sa.family ≡ wire_af (sa.family == af_inet6))
      × (a.w0 ≡ sa.w0)
      × ((sa.family == af_inet6) ≡ true → (a.w1 ≡ sa.w1) × (a.w2 ≡ sa.w2) × (a.w3 ≡ sa.w3))
unfolding addrbuf
copied buf sa a q = ground (arith, q)

-- An address that was copied into a message, printed and read is what it was.
pub copied_arrives :
    (l : Libs) (buf : BpfAddr) (sa : SockAddr) (a : BpfAddr) (c : CAddr)
    → addrbuf buf sa ≡ fine a
    → IsRead l c (sa.family == af_inet6) a
    → (old : SockAddr) (r : Option SockAddr) → apply_c_addr l c ≡ fine r
    → SameAddr sa (given r old)
copied_arrives l buf sa a c q read old r h =
    let (family, w0, rest) = copied buf sa a q in
    let (x, e, fx, x0, xr) = read r h in
    rw e (
      fx ∙ sym family,
      λ z. x0 ∙ w0,
      λ z.
          let v6 : (sa.family == af_inet6) ≡ true = ground arith in
          let (a1, a2, a3) = rest v6 in let (b1, b2, b3) = xr v6 in (b1 ∙ a1, b2 ∙ a2, b3 ∙ a3),
    )

zero_in6 : (v6 : Bool) → is_zero v6 no_in6 ≡ true
zero_in6 true = refl
zero_in6 false = refl

same_zero :
    (v6 : Bool) (a b : BpfAddr)
    → a.w0 ≡ b.w0
    → (v6 ≡ true → (a.w1 ≡ b.w1) × (a.w2 ≡ b.w2) × (a.w3 ≡ b.w3))
    → is_zero v6 a ≡ is_zero v6 b
same_zero true a b w0 rest = let (w1, w2, w3) = rest refl in rw (w0, w1, w2, w3) refl
same_zero false a b w0 rest = rw w0 refl

-- A source that is not set arrives as one that is not.
pub src_arrives :
    (l : Libs) (v6 : Bool) (sa : SockAddr) (a : BpfAddr)
    → IsInet l
    → src_buf sa ≡ fine a
    → ((sa.family ≡ 0) ⊎ ((sa.family == af_inet6) ≡ v6))
    → (sa.family ≢ 0 → is_zero (sa.family == af_inet6) (bytes_of sa) ≡ false)
    → (c : CAddr) × (src_to_c l v6 (wire_af v6) a ≡ fine c)
      × ((old : SockAddr) (r : Option SockAddr)
          → apply_c_addr l c ≡ fine r
          → SameAddr sa (given r old))
unfolding src_to_c src_buf apply_c_addr
src_arrives l v6 sa a inet q f set = elim (Bool-cases (sa.family == 0)) [
  | inl z ↦
      let e : a ≡ no_in6 = ground (arith, q) in
      let c : CAddr = record { unset = true; str = []; af = 0 } in
      (
        c,
        rw (e, zero_in6 v6) refl,
        λ old r h.
            let got : r ≡ some no_addr = fine_inj (apply_c_addr l c) h refl in
            rw got (ground (arith, z), λ nz. absurd (ground arith), λ i. absurd (ground arith)),
      )
  | inr nz ↦
      let copy : addrbuf no_in6 sa ≡ fine a = ground (arith, q) in
      let same : v6 ≡ (sa.family == af_inet6) = elim f [
        | inl z ↦ absurd (ground arith)
        | inr e ↦ sym e
      ] in
      let (family, w0, rest) = copied no_in6 sa a copy in
      let (c, read, is_set, is_read) = addr-IsRead l (sa.family == af_inet6) a inet in
      let some_set : is_zero (sa.family == af_inet6) a ≡ false =
        same_zero (sa.family == af_inet6) a (bytes_of sa) w0 rest ∙ set (ground arith) in
      rw same (c, rw some_set read, copied_arrives l no_in6 sa a c copy is_read)
]

pub record IsCarried (d d' : DSession) : Type 0 where
  pub flags : d'.local.flags ≡ d.local.flags
  pub discr : d'.local.discr ≡ d.local.discr
  pub timing : d'.local.timing ≡ d.local.timing
  pub ttl : d'.ttl ≡ d.ttl
  pub hold_time : d'.hold_time_us ≡ d.hold_time_us / 1000 * 1000
  pub dst : SameAddr d.dst d'.dst
  pub src : SameAddr d.src d'.src
  pub ifindex : d'.ifindex ≡ d.ifindex
  pub vrf_table : d'.vrf_table ≡ d.vrf_table
