-- ===== src/Control/Matching.antt =====
-- Changes of a session and the choice of sessions by the same description.
use bbdd.Base.{
  ℕ, ◌≡◌, ◌≢◌, inl, inr, refl, ap, ◌∙◌, Bool, true, false, not, ◌&&◌, Option, none, some, [], ◌∷◌,
  arith, ◌==◌, if◌then◌else◌, Bool-cases, Option-cases,
}
use bbdd.Session.{DSession, SockAddr}
use bbdd.Control.State.{CSession, Libs, CAddr, CFlags, CStr, Str}
use bbdd.Control.Validate.{fine, and_then, str_eq}
use bbdd.Control.Apply.{apply_c, apply_c_addr, apply_fields, apply_flags, parse_addrstr, given}
use bbdd.Control.Applied.{apply_c-Applied}
use bbdd.Control.Configured.{read_cases}
use bbdd.Control.Select.{
  addr_matches, same_bytes, flags_match, name_matches, fields_match, session_matches, asks,
}

-- A description that does not ask for two things of one field.
pub record IsPlain (c : CSession) : Type 0 where
  pub src : c.src.unset ≡ true → c.src.af ≡ 0
  pub netif : c.netif.unset ≡ true → c.netif.ifindex ≡ none
  pub vrf : c.vrf.netif.unset ≡ true → c.vrf.netif.ifindex ≡ none
  pub name : c.name.unset ≡ true → c.name.val ≡ none

str_eq_refl : (s : Str) → str_eq s s ≡ true
unfolding str_eq
str_eq_refl [] = refl
str_eq_refl (a ∷ s) = ground (arith, str_eq_refl s)

parsed-matches :
    (l : Libs) (c : CAddr) (a b : SockAddr)
    → parse_addrstr l c.af c.str ≡ fine a
    → c.af ≢ 0
    → b ≡ record a { port = b.port }
    → addr_matches l c b ≡ fine true
unfolding parse_addrstr addr_matches same_bytes
parsed-matches l c a b h z e = ground arith

applied_addr-matches :
    (l : Libs) (c : CAddr) (r : Option SockAddr) (old b : SockAddr)
    → (c.unset ≡ true → c.af ≡ 0)
    → apply_c_addr l c ≡ fine r
    → b ≡ record (given r old) { port = b.port }
    → addr_matches l c b ≡ fine true
unfolding addr_matches
applied_addr-matches l c r old b plain h q = elim (read_cases l c r h) [
  | inl (u, e) ↦ rw (plain u) refl
  | inr (inl (u, z, e)) ↦ rw z refl
  | inr (inr (a, u, z, p, e)) ↦
      parsed-matches l c a b p z (q ∙ ap (λ x. record (given x old) { port = b.port }) e)
]

flags-match :
    (c : CFlags) (d d' : DSession)
    → d'.local.flags ≡ apply_flags c d.local.flags
    → flags_match c d' ≡ true
unfolding flags_match apply_flags
flags-match c d d' h = ground arith

asks_given : (q : Option ℕ) (old : ℕ) → asks q (given q old) ≡ true
asks_given none old = refl
asks_given (some x) old = ground arith

-- An interface that is asked for and set, or not asked for and removed.
unset-match :
    (u : Bool) (q : Option ℕ) (old : ℕ)
    → (u ≡ true → q ≡ none)
    → let i = if u then 0 else given q old in (not (u && not (i == 0)) ≡ true) × (asks q i ≡ true)
unset-match true q old p = (refl, rw (p refl) refl)
unset-match false q old p = (refl, asks_given q old)

name-matches :
    (c : CStr) (old : Str)
    → (c.unset ≡ true → c.val ≡ none)
    → name_matches c (if c.unset then [] else given c.val old) ≡ true
unfolding name_matches
name-matches c old p = elim (Bool-cases c.unset) [
  | inl u ↦ rw (u, p u) (ground (arith, str_eq_refl []))
  | inr u ↦ elim (Option-cases c.val) [
    | inl n ↦ rw (u, n) refl
    | inr (x, q) ↦ rw (u, q) (ground (arith, str_eq_refl x))
  ]
]

fields-match :
    (c : CSession) (d : DSession) (src dst : Option SockAddr)
    → IsPlain c
    → fields_match c (apply_fields d c src dst) ≡ true
unfolding fields_match apply_fields
fields-match c d src dst p =
    let (n₁, n₂) = unset-match c.netif.unset c.netif.ifindex d.ifindex p.netif in
    let (v₁, v₂) = unset-match c.vrf.netif.unset c.vrf.netif.ifindex d.vrf_ifindex p.vrf in
    rw
      (
        n₁,
        v₁,
        n₂,
        v₂,
        asks_given c.discr d.local.discr,
        asks_given c.detect_mult d.local.timing.detect_mult,
        asks_given c.min_tx_us d.local.timing.min_tx_us,
        asks_given c.min_rx_us d.local.timing.min_rx_us,
        asks_given c.hold_time_us d.hold_time_us,
        asks_given c.ttl d.ttl,
        asks_given c.vrf.table (if c.vrf.netif.unset then 0 else d.vrf_table),
        asks_given c.remote_discr d.remote.discr,
      )
      (name-matches c.name d.name p.name)

-- A session that a change was made to matches the same description when sessions are chosen by it, if
-- the description does not give a value for what it asks to remove.
pub apply_c-matches :
    (l : Libs) (d : DSession) (c : CSession) (d' : DSession)
    → IsPlain c
    → apply_c l d c ≡ some (fine d')
    → session_matches l c d' ≡ fine true
unfolding session_matches and_then apply_fields
apply_c-matches l d c d' p h =
    let v = apply_c-Applied l d c d' h in
    let src =
      applied_addr-matches l c.src v.src d.src (apply_fields d c v.src v.dst).src p.src v.src_read
        refl in
    let dst =
      applied_addr-matches l c.dst v.dst d.dst (apply_fields d c v.src v.dst).dst
        (λ u. absurd (ground arith)) v.dst_read refl in
    rw
      (
        v.result,
        flags-match c.flags d (apply_fields d c v.src v.dst) refl,
        src,
        dst,
        fields-match c d v.src v.dst p,
      )
      refl
