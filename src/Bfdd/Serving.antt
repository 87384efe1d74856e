-- ===== src/Bfdd/Serving.antt =====
-- Whatever bfdd says, in whatever order.
use bbdd.Base.{
  ℕ, ap, ◌∙◌, ◌≡◌, inl, inr, true, false, Option, none, some, ◌==◌, arith, ◌>>=◌, HashSet,
  Bool-cases, Option-cases,
}
use bbdd.Wire.{ntoh16, ntoh32}
use bbdd.Bpf.State.{Env}
use bbdd.Bpf.Directory.{find_session}
use bbdd.Control.State.{CError, CSession, Libs}
use bbdd.Control.Sound.{IsSound, IsSoundAfter}
use bbdd.Control.Growing.{d_session_add-IsSound}
use bbdd.Control.Deleting.{del_one-IsSound}
use bbdd.Control.Setting.{IsRound}
use bbdd.Control.Serving.{set_one-IsRound, Checked-cases}
use bbdd.Control.Members.{Daemon, Answer, done, failed, del_one}
use bbdd.Bfdd.Message.{
  echo_reply_msg, Message, Payload, FCumulus, msg_len_validate, echo_request, echo_reply,
  dp_add_session, dp_delete_session, bfd_state_change, dp_request_session_counters,
  bfd_session_counters, unknown_type,
}
use bbdd.Bfdd.Convert.{session_msg_to_c}
use bbdd.Bfdd.Requests.{
  is_invalid_length, handle_payload, validated, added, updated, add_or_update, add_session_vrf,
  bfdd_add_session, bfdd_delete_session, bfdd_session_counters, handle_echo_request, message_cb,
  dispatch_message, reply_counters, write_enqueue, bump_no_session, bump_internal_error,
  bump_invalid_message, bump_invalid_length, handle_echo_reply, bad_message_type,
}
use bbdd.Bfdd.State.{Bfdd, Line, Outcome}
use bbdd.Bfdd.Reading.{session_msg-dst, validated-keeps}

module _ (h : HashSet) where
  -- The message did not abort the daemon, and left it sound.
  abbrev pub StaysSound : Option (Outcome h) → Type 0
  StaysSound none = ⊥
  StaysSound (some (b, x)) = IsSound h b.daemon

  added-IsSound :
      (b : Bfdd h) (m : Option (Daemon h × Answer))
      → IsSoundAfter h m
      → StaysSound (m >>= λ r. some (added h b r))
  unfolding added bump_no_session
  added-IsSound b none s = s
  added-IsSound b (some (d, done)) s = s
  added-IsSound b (some (d, failed x)) s = s

  updated-IsSound :
      (b : Bfdd h) (d : Daemon h) (m : Option (Daemon h × Answer))
      → IsRound h d m
      → StaysSound (m >>= λ r. some (updated h b r))
  unfolding updated bump_internal_error
  updated-IsSound b d₀ none s = s
  updated-IsSound b d₀ (some (d, done)) s = s.0
  updated-IsSound b d₀ (some (d, failed x)) s = s.0

  add_or_update-IsSound :
      (l : Libs) (e : Env) (p : Line) (b : Bfdd h) (discr : ℕ) (c : CSession)
      → IsSound h b.daemon
      → c.discr ≡ some discr
      → c.dst.unset ≡ false
      → StaysSound (add_or_update h l e p b discr c)
  unfolding add_or_update find_session
  add_or_update-IsSound l e p b discr c sound q set =
      elim (Bool-cases (h.has discr b.daemon.world.sessions)) [
        | inl on ↦
            rw (on, add_or_update, find_session)
              (updated-IsSound b b.daemon _ (set_one-IsRound h l e b.daemon c discr sound on set))
        | inr off ↦
            rw (off, add_or_update, find_session)
              (added-IsSound b _ (
                d_session_add-IsSound h l e p.room b.daemon c p.final_slot p.periodic_slot sound
                  (rw q off) set))
      ]

  add_session_vrf-IsSound :
      (l : Libs) (e : Env) (p : Line) (b : Bfdd h) (c : CSession)
      → IsSound h b.daemon
      → c.dst.unset ≡ false
      → StaysSound (add_session_vrf h l e p b c)
  unfolding add_session_vrf bump_invalid_message
  add_session_vrf-IsSound l e p b c sound set = elim (Option-cases c.discr) [
    | inl n ↦ rw (n, add_session_vrf) sound
    | inr (discr, q) ↦ elim (Checked-cases (validated l c)) [
      | inl (x, r) ↦ rw (q, r, add_session_vrf) sound
      | inr (c', r) ↦
          let (dst, same) = validated-keeps l c c' r in
          rw (q, r, add_session_vrf)
            (add_or_update-IsSound l e p b discr c' sound (same ∙ q) (ap (λ a. a.unset) dst ∙ set))
    ]
  ]

  bump_length-IsSound :
      (x : CError) (b : Bfdd h) → IsSound h b.daemon → IsSound h (bump_invalid_length h x b).daemon
  unfolding bump_invalid_length
  bump_length-IsSound x b s = elim (Bool-cases (is_invalid_length h x)) [
    | inl q ↦ rw q s
    | inr q ↦ rw q s
  ]

  bfdd_add_session-IsSound :
      (l : Libs) (e : Env) (p : Line) (b : Bfdd h) (n : ℕ) (m : FCumulus)
      → IsSound h b.daemon
      → StaysSound (bfdd_add_session h l e p b n m)
  unfolding bfdd_add_session bump_invalid_length
  bfdd_add_session-IsSound l e p b n m sound = elim (Checked-cases (session_msg_to_c l n m)) [
    | inl (x, q) ↦ rw (q, bfdd_add_session) (bump_length-IsSound x b sound)
    | inr (c, q) ↦
        rw (q, bfdd_add_session)
          (add_session_vrf-IsSound l e p b c sound (session_msg-dst l n m c q))
  ]

  bfdd_delete_session-IsSound :
      (e : Env) (b : Bfdd h) (discr : ℕ)
      → IsSound h b.daemon
      → StaysSound (bfdd_delete_session h e b discr)
  unfolding bfdd_delete_session bump_no_session
  bfdd_delete_session-IsSound e b discr sound =
      let one = del_one-IsSound h e b.daemon discr sound in
      elim (Option-cases (del_one h e b.daemon discr)) [
        | inl n ↦ absurd (rw n at one)
        | inr ((d, done), q) ↦ rw (q, bfdd_delete_session) (rw q at one)
        | inr ((d, failed x), q) ↦ rw (q, bfdd_delete_session) (rw q at one)
      ]

  write-daemon :
      (p : Line) (b : Bfdd h) (msg : Message) → (write_enqueue h p b msg).0.daemon ≡ b.daemon
  unfolding write_enqueue
  write-daemon p b msg = ground arith

  bfdd_session_counters-daemon :
      (p : Line) (b : Bfdd h) (id discr : ℕ)
      → (bfdd_session_counters h p b id discr).0.daemon ≡ b.daemon
  unfolding bfdd_session_counters reply_counters write_enqueue bump_no_session bump_internal_error
  bfdd_session_counters-daemon p b id discr = ground arith

  handle_payload-IsSound :
      (l : Libs) (e : Env) (p : Line) (b : Bfdd h) (id length : ℕ) (m : Payload)
      → IsSound h b.daemon
      → StaysSound (handle_payload h l e p b id length m)
  unfolding handle_payload bad_message_type handle_echo_request handle_echo_reply write_enqueue
  handle_payload-IsSound l e p b id length (echo_request m) s =
      rw (write-daemon p b (echo_reply_msg p.now id m true)) s
  handle_payload-IsSound l e p b id length (echo_reply m) s = s
  handle_payload-IsSound l e p b id length (dp_add_session m) s =
      bfdd_add_session-IsSound l e p b length m s
  handle_payload-IsSound l e p b id length (dp_delete_session m) s =
      bfdd_delete_session-IsSound e b (ntoh32 m.session.lid) s
  handle_payload-IsSound l e p b id length (bfd_state_change m) s = s
  handle_payload-IsSound l e p b id length (dp_request_session_counters lid) s =
      rw (bfdd_session_counters-daemon p b id (ntoh32 lid)) s
  handle_payload-IsSound l e p b id length (bfd_session_counters m) s = s
  handle_payload-IsSound l e p b id length (unknown_type n) s = s

  -- Whatever message bfdd sends, well-formed or not, a daemon that is sound does not abort, and is
  -- sound afterwards.
  pub dispatch_message-IsSound :
      (l : Libs) (e : Env) (p : Line) (b : Bfdd h) (msg : Message)
      → IsSound h b.daemon
      → StaysSound (dispatch_message h l e p b msg >>= λ r. some r.0)
  unfolding dispatch_message message_cb
  dispatch_message-IsSound l e p b msg s =
      let handled =
        handle_payload-IsSound l e p b (ntoh16 msg.id) (ntoh16 msg.length) msg.payload s in
      elim (Bool-cases (msg_len_validate msg)) [
        | inr q ↦ rw q s
        | inl q ↦ elim (Bool-cases (msg.version == 1)) [
          | inr r ↦ rw (q, r) s
          | inl r ↦
              elim (Option-cases
                (handle_payload h l e p b (ntoh16 msg.id) (ntoh16 msg.length) msg.payload)) [
                  | inl n ↦ absurd (rw n at handled)
                  | inr ((b', x), k) ↦ rw (q, r, k) (rw k at handled)
                ]
        ]
      ]
