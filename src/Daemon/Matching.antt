-- ===== src/Daemon/Matching.antt =====
-- Which sessions a packet matches, told apart from the loop that looks for them.
use bbdd.Base.{
  ℕ, suc, ◌≤◌, ◌≡◌, ◌≢◌, ◌⊎◌, ◌↔◌, inl, inr, refl, Option, none, some, List, [], ◌∷◌, arith,
}
use bbdd.Session.{DSession, SockAddr, af_inet, af_inet6}
use bbdd.Daemon.Match.{
  MatchDigest, failed, skip, match, unsupported, same, sockaddr_eq, match_dst, match_src, match_one,
  match_loop, match_session,
}

-- The addresses of a digest are those of an IPv4 or an IPv6 packet.
pub record IsDigest (g : MatchDigest) : Type 0 where
  pub src_family : (g.src.family ≡ af_inet) ⊎ (g.src.family ≡ af_inet6)
  pub dst_family : (g.dst.family ≡ af_inet) ⊎ (g.dst.family ≡ af_inet6)

-- Two addresses of the same family that are the same address; the port plays no part.
pub record SameAddr (a b : SockAddr) : Type 0 where
  pub family : a.family ≡ b.family
  pub first : a.w0 ≡ b.w0
  pub rest : a.family ≡ af_inet6 → (a.w1 ≡ b.w1) × (a.w2 ≡ b.w2) × (a.w3 ≡ b.w3)

-- What the session configures, where it configures it, is what the packet has.
pub record IsMatch (g : MatchDigest) (d : DSession) : Type 0 where
  pub multihop : g.multihop ≡ d.local.flags.multihop
  pub ifindex : (d.ifindex ≡ 0) ⊎ ((g.ifindex ≡ 0) ⊎ (d.ifindex ≡ g.ifindex))
  pub table : d.vrf_table ≡ g.table
  pub ttl : d.ttl ≤ g.ttl
  pub discr : (d.user_remote_discr ≡ 0) ⊎ (g.my_disc ≡ d.user_remote_discr)
  pub src : (d.src.family ≡ 0) ⊎ SameAddr d.src g.dst
  pub dst : (d.dst.family ≡ 0) ⊎ SameAddr d.dst g.src

sockaddr_eq_iff :
    (a b : SockAddr)
    → (b.family ≡ af_inet) ⊎ (b.family ≡ af_inet6)
    → (sockaddr_eq a b ≡ same) ↔ SameAddr a b
unfolding sockaddr_eq
sockaddr_eq_iff a b f = (
  λ h. record { family = ground arith; first = ground arith; rest = λ six. ground arith },
  λ h. ground arith,
)

sockaddr_eq-supported :
    (a b : SockAddr) → (b.family ≡ af_inet) ⊎ (b.family ≡ af_inet6) → sockaddr_eq a b ≢ unsupported
unfolding sockaddr_eq
sockaddr_eq-supported a b f = ground arith

match_dst_iff :
    (g : MatchDigest) (d : DSession)
    → IsDigest g
    → (match_dst g d ≡ match) ↔ ((d.dst.family ≡ 0) ⊎ SameAddr d.dst g.src)
unfolding match_dst
match_dst_iff g d v =
    let (to, from) = sockaddr_eq_iff d.dst g.src v.src_family in
    (λ h. ground (arith, to), λ h. ground (arith, from))

match_one_iff :
    (g : MatchDigest) (d : DSession) → IsDigest g → (match_one g d ≡ match) ↔ IsMatch g d
unfolding match_one match_src
match_one_iff g d v =
    let (to, from) = sockaddr_eq_iff d.src g.dst v.dst_family in
    let (to', from') = match_dst_iff g d v in
    (
      λ h. record {
        multihop = ground arith;
        ifindex = ground arith;
        table = ground arith;
        ttl = ground arith;
        discr = ground arith;
        src = ground (arith, to);
        dst = ground (arith, to');
      },
      λ h. ground (arith, from, from'),
    )

match_one-ne-failed : (g : MatchDigest) (d : DSession) → IsDigest g → match_one g d ≢ failed
unfolding match_one match_src match_dst
match_one-ne-failed g d v = ground (
  arith,
  sockaddr_eq-supported d.src g.dst v.dst_family,
  sockaddr_eq-supported d.dst g.src v.src_family,
)

-- None of the sessions matches.
pub data NoMatch (g : MatchDigest) : List DSession → Type 0 where
  none_left : NoMatch g []
  another :
      {d : DSession} {ds : List DSession} → (IsMatch g d → ⊥) → NoMatch g ds → NoMatch g (d ∷ ds)

-- The session `d` matches, and no other of the list does.
pub data OnlyMatch (g : MatchDigest) (d : DSession) : List DSession → Type 0 where
  here : {ds : List DSession} → IsMatch g d → NoMatch g ds → OnlyMatch g d (d ∷ ds)
  there :
      {x : DSession} {ds : List DSession}
      → (IsMatch g x → ⊥)
      → OnlyMatch g d ds
      → OnlyMatch g d (x ∷ ds)

match_one-skip :
    (g : MatchDigest) (d : DSession) → IsDigest g → (IsMatch g d → ⊥) → match_one g d ≡ skip
match_one-skip g d v off =
    let (to, from) = match_one_iff g d v in ground (arith, to, match_one-ne-failed g d v)

match_one-cases :
    (g : MatchDigest) (d : DSession)
    → IsDigest g
    → ((match_one g d ≡ skip) × (IsMatch g d → ⊥)) ⊎ ((match_one g d ≡ match) × IsMatch g d)
match_one-cases g d v =
    let (to, from) = match_one_iff g d v in ground (arith, to, from, match_one-ne-failed g d v)

match_loop-NoMatch :
    (g : MatchDigest) (ds : List DSession) (n : ℕ) (last : Option DSession)
    → IsDigest g
    → NoMatch g ds
    → match_loop g ds n last ≡ some (n, last)
unfolding match_loop
match_loop-NoMatch g [] n last v none_left = refl
match_loop-NoMatch g (d ∷ ds) n last v (another off rest) =
    rw (match_one-skip g d v off, match_loop) (match_loop-NoMatch g ds n last v rest)

match_loop-OnlyMatch :
    (g : MatchDigest) (d : DSession) (ds : List DSession) (n : ℕ) (last : Option DSession)
    → IsDigest g
    → OnlyMatch g d ds
    → match_loop g ds n last ≡ some (suc n, some d)
unfolding match_loop
match_loop-OnlyMatch g d [] n last v o = elim o [ ]
match_loop-OnlyMatch g d (x ∷ ds) n last v (here fits rest) =
    let (to, from) = match_one_iff g d v in
    rw (from fits, match_loop) (match_loop-NoMatch g ds (suc n) (some d) v rest)
match_loop-OnlyMatch g d (x ∷ ds) n last v (there off rest) =
    rw (match_one-skip g x v off, match_loop) (match_loop-OnlyMatch g d ds n last v rest)

-- What the result of the loop tells of the sessions that it went through.
match_loop_sound :
    (g : MatchDigest) (ds : List DSession) (n m : ℕ) (last last' : Option DSession)
    → IsDigest g
    → match_loop g ds n last ≡ some (m, last')
    → (n ≤ m)
      × (m ≡ n → NoMatch g ds)
      × ((d : DSession) → m ≡ suc n → last' ≡ some d → OnlyMatch g d ds)
unfolding match_loop
match_loop_sound g [] n m last last' v h =
    (ground arith, λ q. none_left, λ d q r. absurd (ground arith))
match_loop_sound g (x ∷ ds) n m last last' v h = elim (match_one-cases g x v) [
  | inl (q, off) ↦
      let (le, zero_more, one_more) =
        match_loop_sound g ds n m last last' v (rw (q, match_loop) at h) in
      (le, λ e. another off (zero_more e), λ d e f. there off (one_more d e f))
  | inr (q, fits) ↦
      let h' : match_loop g ds (suc n) (some x) ≡ some (m, last') = rw (q, match_loop) at h in
      let (le, zero_more, one_more) = match_loop_sound g ds (suc n) m (some x) last' v h' in
      (
        omega arith,
        λ e. absurd (ground arith),
        λ d e f.
            let end = match_loop-NoMatch g ds (suc n) (some x) v (zero_more e) in
            let same : d ≡ x = ground arith in rw same (here fits (zero_more e)),
      )
]

-- A packet is given to a session exactly when that session matches it and no other does, whatever
-- the order in which the sessions are looked at.
pub match_session_unique :
    (g : MatchDigest) (ds : List DSession) (d : DSession)
    → IsDigest g
    → (match_session ds g ≡ some (1, some d)) ↔ OnlyMatch g d ds
unfolding match_session
match_session_unique g ds d v = (
  λ h.
      let (le, zero_more, one_more) = match_loop_sound g ds 0 1 none (some d) v h in
      one_more d refl refl,
  λ h. match_loop-OnlyMatch g d ds 0 none v h,
)
