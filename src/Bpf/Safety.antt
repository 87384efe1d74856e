-- ===== src/Bpf/Safety.antt =====
-- The handler of packets, its invariant and its assertions.
use bbdd.Base.{
  ℕ, ◌≡◌, ◌≢◌, ◌⊎◌, inl, inr, refl, Bool, true, false, Option, none, some, arith, ◌>>=◌,
  Option-cases, Bool-cases,
}
use bbdd.Wire.Packet.{BfdPkt}
use bbdd.Session.{DSession, SessData}
use bbdd.Bpf.State.{Env, Bpf, BSession, DiagStats, on_hold}
use bbdd.Bpf.Packet.{Parsed, parsed, dropped, parse_packet}
use bbdd.Bpf.Inject.{inject_rearm_packet}
use bbdd.Bpf.Receive.{
  answer_poll, advance_poll, notify_change, process_packet, is_receiving, count_rx, take_packet,
  handle_packet,
}
use bbdd.Bpf.Frame.{IsReady, SameBut, inject-ne-none, rearm-ne-none}
use bbdd.Bpf.Invariant.{IsValid, IsValid-IsReady}
use bbdd.Bpf.Handlers.{
  IsKept, SameBut-IsValid, state_changed-ne-none, state_changed-frame, advance_poll-IsKept,
}

answer_poll-ne-none :
    (e : Env) (bpf : Bpf) (d : DSession) (b : BSession) (poll : Bool)
    → IsReady d b
    → answer_poll e bpf d b poll ≢ none
unfolding answer_poll
answer_poll-ne-none e bpf d b true v =
    ground (arith, inject-ne-none e bpf d b bpf.veth_tx_ifindex 16 v)
answer_poll-ne-none e bpf d b false v = λ h. cc

notify_change-ne-none :
    (e : Env) (bpf : Bpf) (d : DSession) (b : BSession) (l r : SessData)
    → IsReady d b
    → notify_change e bpf d b l r ≢ none
unfolding notify_change
notify_change-ne-none e bpf d b l r v = ground (arith, state_changed-ne-none e bpf d b v)

pub notify_change-frame :
    (e : Env) (bpf bpf' : Bpf) (d : DSession) (b b' : BSession) (l r : SessData)
    → notify_change e bpf d b l r ≡ some (bpf', b')
    → SameBut b b'
unfolding notify_change
notify_change-frame e bpf bpf' d b b' l r h = ground (arith, state_changed-frame e bpf bpf' d b b')

-- The parts of `process_packet` behind the timer.
process_rest-IsKept :
    (e : Env) (bpf : Bpf) (d : DSession) (b : BSession) (l r : SessData) (poll final : Bool)
    → IsValid d b
    → b.bstate ≢ on_hold
    → IsKept (
        notify_change e bpf d b l r >>= λ s.
        answer_poll e s.0 d s.1 poll >>= λ bpf₃. advance_poll (s.1).bstate e bpf₃ d s.1 final)
process_rest-IsKept e bpf d b l r poll final v off =
    elim (Option-cases (notify_change e bpf d b l r)) [
      | inl n ↦ absurd (notify_change-ne-none e bpf d b l r (IsValid-IsReady d b v off) n)
      | inr (s, q) ↦
          let v₁ = SameBut-IsValid d b s.1 v (notify_change-frame e bpf s.0 d b s.1 l r q) in
          let same = notify_change-frame e bpf s.0 d b s.1 l r q in
          let off₁ : (s.1).bstate ≢ on_hold = ground arith in
          rw q (elim (Option-cases (answer_poll e s.0 d s.1 poll)) [
            | inl n ↦
                absurd (answer_poll-ne-none e s.0 d s.1 poll (IsValid-IsReady d s.1 v₁ off₁) n)
            | inr (bpf₃, t) ↦
                rw t (advance_poll-IsKept (s.1).bstate e bpf₃ d s.1 final refl v₁ off₁)
          ])
    ]

process_packet-IsKept :
    (e : Env) (bpf : Bpf) (d : DSession) (b : BSession) (remote : SessData) (poll final : Bool)
    → IsValid d b
    → b.bstate ≢ on_hold
    → remote.timing.detect_mult ≢ 0
    → IsKept (process_packet e bpf d b remote poll final)
unfolding process_packet
process_packet-IsKept e bpf d b remote poll final v off mult =
    let d₁ = record d { remote = remote } in
    let v₁ : IsValid d₁ b = record {
      has_shwait = v.has_shwait;
      has_hold = v.has_hold;
      queued = v.queued;
      eff_mult = v.eff_mult;
      dfr_mult = v.dfr_mult;
      waits = v.waits;
      local_mult = v.local_mult;
      remote_mult = mult;
    } in
    elim (Option-cases (inject_rearm_packet e bpf d₁ b)) [
      | inl n ↦ absurd (rearm-ne-none e bpf d₁ b (IsValid-IsReady d₁ b v₁ off) n)
      | inr (r, q) ↦ rw q (
          process_rest-IsKept e _ _ b d.local d.remote poll final
            (record {
              has_shwait = v.has_shwait;
              has_hold = v.has_hold;
              queued = v.queued;
              eff_mult = v.eff_mult;
              dfr_mult = v.dfr_mult;
              waits = v.waits;
              local_mult = v.local_mult;
              remote_mult = mult;
            })
            off)
    ]

parsed_mult :
    (stats : DiagStats) (packet : BfdPkt) (d r : SessData) (poll final : Bool)
    → parse_packet stats packet d ≡ parsed r poll final
    → r.timing.detect_mult ≢ 0
unfolding parse_packet
parsed_mult stats packet d r poll final h = ground arith

Parsed-cases :
    (p : Parsed)
    → ((s : DiagStats) × (p ≡ dropped s))
      ⊎ ((r : SessData) × (poll : Bool) × (final : Bool) × (p ≡ parsed r poll final))
Parsed-cases (dropped s) = inl (s, refl)
Parsed-cases (parsed r poll final) = inr (r, poll, final, refl)

take_packet-IsKept :
    (e : Env) (bpf : Bpf) (d : DSession) (b : BSession) (packet : BfdPkt)
    → IsValid d b
    → b.bstate ≢ on_hold
    → IsKept (take_packet e bpf d b packet)
unfolding take_packet
take_packet-IsKept e bpf d b packet v off =
    elim (Parsed-cases (parse_packet b.diag_stats packet d.remote)) [
      | inl (s, q) ↦ rw (q, take_packet) (ground arith)
      | inr (r, poll, final, q) ↦
          rw (q, take_packet)
            (process_packet-IsKept e bpf d b r poll final v off
              (parsed_mult b.diag_stats packet d.remote r poll final q))
    ]

-- A handler did not abort, and left a valid session.
abbrev pub IsFine : Option (Bpf × DSession × BSession) → Type 0
IsFine none = ⊥
IsFine (some (bpf, d, b)) = IsValid d b

pub IsKept-IsFine : (m : Option (Bpf × DSession × BSession)) → IsKept m → IsFine m
IsKept-IsFine none k = k
IsKept-IsFine (some (bpf, d, b)) k = k.0

count_rx-IsValid :
    (d : DSession) (b : BSession) (n : ℕ) (stats : DiagStats)
    → IsValid d b
    → IsValid d (record (count_rx b n) { diag_stats = stats })
count_rx-IsValid d b n stats v = ground arith

-- A packet never makes the daemon abort, in any state of a valid session, and leaves it valid.
pub handle_packet-IsFine :
    (e : Env) (bpf : Bpf) (d : DSession) (b : BSession) (packet : BfdPkt) (wire_len ttl : ℕ)
    → IsValid d b
    → IsFine (handle_packet e bpf d b packet wire_len ttl)
unfolding handle_packet
handle_packet-IsFine e bpf d b packet wire_len ttl v = elim (Bool-cases (is_receiving b.bstate)) [
  | inr q ↦ rw q v
  | inl q ↦
      let off : b.bstate ≢ on_hold = ground arith in
      rw q (
        ground (
          arith,
          IsKept-IsFine _ (
              take_packet-IsKept e bpf d (count_rx b wire_len) packet
                (count_rx-IsValid d b wire_len b.diag_stats v) off),
        ))
]
