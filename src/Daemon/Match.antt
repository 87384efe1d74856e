-- ===== src/Daemon/Match.antt =====
-- src/bbdd-d.c: to which session a packet belongs that carries no discriminator of ours.
use bbdd.Base.{
  ℕ, suc, Bool, true, false, not, ◌&&◌, Option, none, some, List, [], ◌∷◌, ltb, ◌==◌, if◌then◌else◌,
}
use bbdd.Session.{DSession, SockAddr, af_inet, af_inet6}

-- struct bbdd_bpf_match_digest
pub record MatchDigest : Type 0 where
  pub ifindex : ℕ
  pub ttl : ℕ
  pub multihop : Bool
  pub table : ℕ
  pub my_disc : ℕ
  pub src : SockAddr
  pub dst : SockAddr

-- The answers of `bbdd_sockaddr_eq`.
pub data EqResult : Type 0 where
  unsupported different same : EqResult

unfoldable pub sockaddr_eq : SockAddr → SockAddr → EqResult
sockaddr_eq sa sb =
    if not (sa.family == sb.family)
    then different
    else if sa.family == af_inet
    then (if sa.w0 == sb.w0 then same else different)
    else if sa.family == af_inet6
    then (if sa.w0 == sb.w0 && sa.w1 == sb.w1 && sa.w2 == sb.w2 && sa.w3 == sb.w3
        then same
        else different)
    else unsupported

-- One round of the loop.
pub data Verdict : Type 0 where
  failed skip match : Verdict

abbrev eq_bool : Bool → Bool → Bool
eq_bool true b = b
eq_bool false b = not b

-- From the label `src` on.
unfoldable pub match_dst : MatchDigest → DSession → Verdict
match_dst digest dsess =
    if dsess.dst.family == 0
    then match
    else if not (dsess.dst.family == digest.src.family)
    then skip
    else elim (sockaddr_eq dsess.dst digest.src) [
      | unsupported ↦ failed
      | different ↦ skip
      | same ↦ match
    ]

unfoldable pub match_src : MatchDigest → DSession → Verdict
match_src digest dsess =
    if dsess.src.family == 0
    then match_dst digest dsess
    else if not (dsess.src.family == digest.dst.family)
    then skip
    else elim (sockaddr_eq dsess.src digest.dst) [
      | unsupported ↦ failed
      | different ↦ skip
      | same ↦ match_dst digest dsess
    ]

unfoldable pub match_one : MatchDigest → DSession → Verdict
match_one digest dsess =
    if not (eq_bool digest.multihop dsess.local.flags.multihop)
    then skip
    else if not (dsess.ifindex == 0)
        && not (digest.ifindex == 0)
        && not (dsess.ifindex == digest.ifindex)
    then skip
    else if not (dsess.vrf_table == digest.table)
    then skip
    else if ltb digest.ttl dsess.ttl
    then skip
    else if not (dsess.user_remote_discr == 0) && not (digest.my_disc == dsess.user_remote_discr)
    then skip
    else match_src digest dsess

-- The number of matches and the last match, `none` for an error.
unfoldable pub match_loop :
    MatchDigest → List DSession → ℕ → Option DSession → Option (ℕ × Option DSession)
match_loop digest [] nmatch last = some (nmatch, last)
match_loop digest (dsess ∷ rest) nmatch last = elim (match_one digest dsess) [
  | failed ↦ none
  | skip ↦ match_loop digest rest nmatch last
  | match ↦ match_loop digest rest (suc nmatch) (some dsess)
]

unfoldable pub match_session : List DSession → MatchDigest → Option (ℕ × Option DSession)
match_session sessions digest = match_loop digest sessions 0 none
