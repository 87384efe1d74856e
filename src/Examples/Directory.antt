-- ===== src/Examples/Directory.antt =====
-- The directory of sessions, the drain and the match at concrete sessions.
use bbdd.Base.{ℕ, ◌≡◌, ◌↔◌, inl, inr, refl, false, some, [], ◌∷◌, count, ◌≤◌, arith}
use bbdd.Wire.Packet.{down, up}
use bbdd.Bpf.State.{stable}
use bbdd.Bpf.Directory.{World, tx_drain}
use bbdd.Bpf.Members.{session_add, session_del}
use bbdd.Bpf.Membership.{IsAdded, session_add-IsAdded}
use bbdd.Bpf.Deletion.{IsDeleted, session_del-IsDeleted}
use bbdd.Bpf.Drain.{CanServe}
use bbdd.Bpf.Drained.{IsDrainResult, tx_drain-ends}
use bbdd.Daemon.Match.{MatchDigest, match_session}
use bbdd.Daemon.Matching.{IsMatch, OnlyMatch, match_session_unique}
use bbdd.Examples.Lists.{KeyList, list_hash, empty_keys}
use bbdd.Examples.Inputs.{
  willing, daemon, dsession, bsession, timing_300ms, session-IsValid, addr_a, addr_b,
}
use bbdd.Examples.Queue.{two_slots, two_slots-IsLinked}

-- Nobody is there.
abbrev pub no_sessions : World list_hash
no_sessions = record {
  bpf = daemon 0;
  sdir = empty_keys;
  bsess = λ k. bsession stable timing_300ms;
  sessions = empty_keys;
  dsess = λ k. dsession up up;
}

once_7_8 : (k : ℕ) → count k (8 ∷ 7 ∷ []) ≤ 1
once_7_8 k = ground arith

abbrev keys_7_8 : KeyList
keys_7_8 = record { keys = 8 ∷ 7 ∷ []; once = once_7_8 }

-- The sessions 7 and 8 are there, and both have a packet that waits.
abbrev two_sessions : World list_hash
two_sessions = record {
  bpf = record (daemon 8) { tx = two_slots };
  sdir = keys_7_8;
  bsess = λ k. bsession stable timing_300ms;
  sessions = keys_7_8;
  dsess = λ k. dsession up up;
}

session_add-IsAdded_example :
    IsAdded list_hash willing no_sessions
      (dsession down down)
      (session_add list_hash willing no_sessions (dsession down down) 100 101)
session_add-IsAdded_example =
    session_add-IsAdded list_hash willing no_sessions (dsession down down) 100 101 refl

session_del-IsDeleted_example :
    IsDeleted list_hash two_sessions 7
      (bsession stable timing_300ms)
      (session_del list_hash willing two_sessions 7)
session_del-IsDeleted_example =
    session_del-IsDeleted list_hash willing two_sessions 7 refl two_slots-IsLinked

two_sessions-CanServe : CanServe list_hash two_sessions
two_sessions-CanServe = record {
  linked = two_slots-IsLinked;
  known = λ a l. (ground arith, ground arith);
  ready = λ a l. (session-IsValid up up stable, λ h. cc);
}

tx_drain-ends_example :
    IsDrainResult list_hash willing two_sessions (tx_drain list_hash 3 willing two_sessions)
tx_drain-ends_example =
    tx_drain-ends list_hash 3 willing two_sessions two_sessions-CanServe (omega arith)

-- A packet from the other end of the session.
abbrev digest : MatchDigest
digest = record {
  ifindex = 3;
  ttl = 255;
  multihop = false;
  table = 0;
  my_disc = 9;
  src = addr_b;
  dst = addr_a;
}

digest-IsMatch : IsMatch digest (dsession up up)
digest-IsMatch = record {
  multihop = refl;
  ifindex = inl refl;
  table = refl;
  ttl = omega arith;
  discr = inl refl;
  src = inr (record { family = refl; first = refl; rest = λ h. (refl, refl, refl) });
  dst = inr (record { family = refl; first = refl; rest = λ h. (refl, refl, refl) });
}

match_session_unique_example :
    (match_session (dsession up up ∷ []) digest ≡ some (1, some (dsession up up)))
    ↔ OnlyMatch digest (dsession up up) (dsession up up ∷ [])
match_session_unique_example =
    match_session_unique digest (dsession up up ∷ []) (dsession up up)
      (record { src_family = inl refl; dst_family = inl refl })
