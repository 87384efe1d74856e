-- ===== src/Examples/Runs.antt =====
-- A session from its start through some events.
use bbdd.Base.{◌≡◌, refl, true, some, Option, none, arith}
use bbdd.Wire.Packet.{init, down}
use bbdd.Session.{DSession}
use bbdd.Bpf.State.{Bpf, BSession, ok}
use bbdd.Bpf.Config.{hold_start}
use bbdd.Bpf.Members.{fresh_bsess, zero_bdata}
use bbdd.Bpf.Safety.{IsFine}
use bbdd.Bpf.Reachable.{
  got_packet, hold_ended, handle_event, Reachable, added, after, Reachable-IsOutcome,
}
use bbdd.Examples.Inputs.{willing, daemon, dsession, packet}

abbrev fresh : BSession
fresh = record (fresh_bsess 7 zero_bdata 100 101) { hold = true }

abbrev newborn : Bpf
newborn = (hold_start willing (daemon 8) (dsession down down) (fresh_bsess 7 zero_bdata 100 101)).0

starts :
    hold_start willing (daemon 8) (dsession down down) (fresh_bsess 7 zero_bdata 100 101)
    ≡ (newborn, fresh, ok)
unfolding hold_start
starts = refl

start : Reachable willing newborn (dsession down down) fresh
start =
    added (daemon 8) newborn (dsession down down) fresh 7 100 101 (ground arith) (ground arith)
      starts

-- What an event left, which did not abort.
abbrev result : Option (Bpf × DSession × BSession) → Bpf × DSession × BSession
result none = (newborn, dsession down down, fresh)
result (some r) = r

IsFine-result : (m : Option (Bpf × DSession × BSession)) → IsFine m → m ≡ some (result m)
IsFine-result none k = absurd k
IsFine-result (some r) k = refl

-- The end of the hold, and a packet that says down.
abbrev held : Option (Bpf × DSession × BSession)
held = handle_event hold_ended willing newborn (dsession down down) fresh

abbrev heard : Option (Bpf × DSession × BSession)
heard =
    handle_event (got_packet (packet down 0) 66 255) willing (result held).0 (result held).1
      (result held).2

after_hold : Reachable willing (result held).0 (result held).1 (result held).2
after_hold = after hold_ended _ _ _ _ _ _ start refl (
    IsFine-result held
      (Reachable-IsOutcome willing newborn (dsession down down) fresh hold_ended start refl))

after_packet : Reachable willing (result heard).0 (result heard).1 (result heard).2
after_packet = after (got_packet (packet down 0) 66 255) _ _ _ _ _ _ after_hold tt (
    IsFine-result heard (
      Reachable-IsOutcome willing (result held).0 (result held).1 (result held).2
        (got_packet (packet down 0) 66 255) after_hold tt))

Reachable-IsOutcome_example : IsFine (
    handle_event
      (got_packet (packet init 0) 66 255)
      willing
      (result heard).0
      (result heard).1
      (result heard).2)
Reachable-IsOutcome_example =
    Reachable-IsOutcome willing (result heard).0 (result heard).1 (result heard).2
      (got_packet (packet init 0) 66 255) after_packet tt
