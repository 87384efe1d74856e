-- ===== src/Bpf/Receiving.antt =====
-- What a received packet does to a session: the counters, the state machine and the poll sequence
-- put together.
use bbdd.Base.{
  ℕ, ◌≡◌, ◌≢◌, ◌⊎◌, inl, inr, refl, Bool, true, false, Option, none, some, arith, ltb, Option-cases,
  ◌>>=◌, ap, ◌∙◌,
}
use bbdd.Wire.Packet.{BfdPkt, admindown, state_eq}
use bbdd.Session.{DSession, SessData}
use bbdd.Bpf.State.{
  Env, Bpf, BSession, BState, on_hold, stable, await_final, await_non_final, shutting_down,
}
use bbdd.Bpf.Packet.{parsed, parse_packet}
use bbdd.Bpf.Inject.{inject_rearm_packet}
use bbdd.Bpf.Receive.{
  got_final, next_end, answer_poll, advance_poll, notify_change, process_packet, is_receiving,
  count_rx, take_packet, handle_packet,
}
use bbdd.Bpf.Invariant.{IsValid}
use bbdd.Bpf.Frame.{SameBut}
use bbdd.Bpf.Handlers.{call_update-frame}
use bbdd.Bpf.Safety.{IsFine, handle_packet-IsFine, notify_change-frame}

-- The daemon's session after a packet that tells `remote` of the other end.
abbrev pub received : DSession → SessData → DSession
received d remote = record d {
  remote = remote;
  local = record (d.local) { end = next_end d.local.end.state remote.end.state d.local.end };
}

-- The state of the poll sequence after a packet that does not end it.
abbrev pub poll_after : BState → Bool → BState
poll_after await_final true = await_non_final
poll_after s final = s

-- The packet does not end a poll sequence: the session does not wait for the end, or has not got it.
abbrev pub IsUnended : BState → Bool → Type 0
IsUnended s final = (s ≢ await_non_final) ⊎ (final ≡ true)

-- The session of the BPF side, of which only the state of the poll sequence, the generation and the
-- period of the timer may have changed, and that state as it should.
abbrev pub IsAdvanced : BSession → Bool → BSession → Type 0
IsAdvanced b final b' =
    (b' ≡ record b { bstate = b'.bstate; gen_id = b'.gen_id; timer_period_us = b'.timer_period_us })
    × (b'.bstate ≡ poll_after b.bstate final)

got_final-IsAdvanced :
    (e : Env) (bpf bpf' : Bpf) (d : DSession) (b b' : BSession)
    → b.bstate ≡ await_final
    → got_final e bpf d b ≡ some (bpf', b')
    → IsAdvanced b true b'
unfolding got_final
got_final-IsAdvanced e bpf bpf' d b b' s h =
    let same = call_update-frame e bpf bpf' d (record b { bstate = await_non_final }) b' h in
    ground arith

advance_poll-end :
    (s : BState) (e : Env) (bpf bpf' : Bpf) (d d' : DSession) (b b' : BSession) (final : Bool)
    → b.bstate ≡ s
    → IsUnended s final
    → advance_poll s e bpf d b final ≡ some (bpf', d', b')
    → (d' ≡ d) × IsAdvanced b final b'
unfolding advance_poll
advance_poll-end on_hold e bpf bpf' d d' b b' final s off h = ground arith
advance_poll-end stable e bpf bpf' d d' b b' final s off h = ground arith
advance_poll-end await_final e bpf bpf' d d' b b' false s off h = ground arith
advance_poll-end await_final e bpf bpf' d d' b b' true s off h =
    elim (Option-cases (got_final e bpf d b)) [
      | inl n ↦ absurd (ground arith)
      | inr (r, q) ↦ let end = got_final-IsAdvanced e bpf r.0 d b r.1 s q in ground arith
    ]
advance_poll-end await_non_final e bpf bpf' d d' b b' false s (inl off) h = absurd (off refl)
advance_poll-end await_non_final e bpf bpf' d d' b b' false s (inr off) h = absurd (ground arith)
advance_poll-end await_non_final e bpf bpf' d d' b b' true s off h = ground arith
advance_poll-end shutting_down e bpf bpf' d d' b b' final s off h = ground arith

IsAdvanced-after :
    (b b₁ b' : BSession) (final : Bool)
    → SameBut b b₁
    → IsAdvanced b₁ final b'
    → IsAdvanced b final b'
IsAdvanced-after b b₁ b' final same (rest, state) = (ground arith, ground arith)

process_rest-end :
    (e : Env) (bpf bpf' : Bpf) (d d' : DSession) (b b' : BSession) (l r : SessData)
    (poll final : Bool)
    → IsUnended b.bstate final
    → (notify_change e bpf d b l r >>= λ s.
        answer_poll e s.0 d s.1 poll >>= λ bpf₃. advance_poll (s.1).bstate e bpf₃ d s.1 final)
      ≡ some (bpf', d', b')
    → (d' ≡ d) × IsAdvanced b final b'
process_rest-end e bpf bpf' d d' b b' l r poll final off h =
    elim (Option-cases (notify_change e bpf d b l r)) [
      | inl n ↦ absurd (ground arith)
      | inr (s, q) ↦
          let same = notify_change-frame e bpf s.0 d b s.1 l r q in
          let off₁ : IsUnended (s.1).bstate final = rw same off in
          elim (Option-cases (answer_poll e s.0 d s.1 poll)) [
            | inl n ↦ absurd (ground arith)
            | inr (bpf₃, t) ↦
                let (kept, end) =
                  advance_poll-end (s.1).bstate e bpf₃ bpf' d d' s.1 b' final refl off₁
                    (ground arith) in
                (kept, IsAdvanced-after b s.1 b' final same end)
          ]
    ]

process_packet-end :
    (e : Env) (bpf bpf' : Bpf) (d d' : DSession) (b b' : BSession) (remote : SessData)
    (poll final : Bool)
    → IsUnended b.bstate final
    → process_packet e bpf d b remote poll final ≡ some (bpf', d', b')
    → (d' ≡ received d remote) × IsAdvanced b final b'
unfolding process_packet
process_packet-end e bpf bpf' d d' b b' remote poll final off h =
    elim (Option-cases (inject_rearm_packet e bpf (record d { remote = remote }) b)) [
      | inl n ↦ absurd (ground arith)
      | inr (r, q) ↦
          process_rest-end e _ bpf' (received d remote) d' b b' d.local d.remote poll final off
            (rw q at h)
    ]

IsFine-result :
    (m : Option (Bpf × DSession × BSession))
    → IsFine m
    → (bpf' : Bpf) × (d' : DSession) × (b' : BSession) × (m ≡ some (bpf', d', b'))
IsFine-result none k = absurd k
IsFine-result (some (bpf', d', b')) k = (bpf', d', b', refl)

-- A packet that passes the checks of a valid session does not abort. Unless it ends a poll sequence,
-- that is, unless the session awaits a packet without the final bit and this is one, the session's
-- state and diagnostic become those of the state machine, the remote end becomes what the packet
-- tells, and nothing else of what the daemon keeps changes. Of the BPF side's session the packet is
-- counted, a session that awaits the final bit and gets it goes on to await a packet without it,
-- and otherwise only the generation and the period of the timer may change.
pub handle_packet-received :
    (e : Env) (bpf : Bpf) (d : DSession) (b : BSession) (packet : BfdPkt) (wire_len ttl : ℕ)
    (remote : SessData) (poll final : Bool)
    → IsValid d b
    → is_receiving b.bstate ≡ true
    → IsUnended b.bstate final
    → state_eq d.local.end.state admindown ≡ false
    → ltb ttl d.ttl ≡ false
    → parse_packet b.diag_stats packet d.remote ≡ parsed remote poll final
    → (bpf' : Bpf) × (b' : BSession) × (handle_packet e bpf d b packet wire_len ttl
        ≡ some (bpf', received d remote, b'))
      × IsAdvanced (count_rx b wire_len) final b'
unfolding handle_packet take_packet
handle_packet-received e bpf d b packet wire_len ttl remote poll final v rx off adm high p =
    let (bpf', d', b', q) =
      IsFine-result _ (handle_packet-IsFine e bpf d b packet wire_len ttl v) in
    let h : process_packet e bpf d (count_rx b wire_len) remote poll final ≡ some (bpf', d', b') =
      ground arith in
    let (same, end) =
      process_packet-end e bpf bpf' d d' (count_rx b wire_len) b' remote poll final off h in
    (bpf', b', q ∙ ap (λ x. some (bpf', x, b')) same, end)
