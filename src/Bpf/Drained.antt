-- ===== src/Bpf/Drained.antt =====
-- The loop that drains the TX queue, and the whole drain.
use bbdd.Base.{
  ℕ, zero, suc, ◌+◌, ◌≤◌, ◌<◌, ◌≡◌, ◌⊎◌, ◌∙◌, ap, refl, inl, inr, false, Option, none, some, List,
  [], ◌∷◌, ◌++◌, arith, Option-cases, Bool-cases, length, HashSet,
}
use bbdd.Tx.{peek, pending}
use bbdd.Tx.Order.{served, pending_iff}
use bbdd.Bpf.State.{Env, Bpf, tx_have_capacity}
use bbdd.Bpf.Inject.{tx_pollout_disarm}
use bbdd.Bpf.Directory.{World, drain_slot, drain_loop, tx_drain}
use bbdd.Bpf.Drain.{CanServe, due, IsRound, drain_slot-IsServed}
use bbdd.Bpf.Sending.{sends, tries}
use bbdd.Tx.Invariant.{one_if}

module _ (h : HashSet) where
  -- How many packets the slots stand for together.
  abbrev pub dues : World h → List ℕ → ℕ
  dues w [] = 0
  dues w (x ∷ xs) = due h w x + dues w xs

  -- How many of the slots hold a final packet.
  abbrev pub finals_in : World h → List ℕ → ℕ
  finals_in w [] = 0
  finals_in w (x ∷ xs) = one_if (w.bpf.tx.slot x).is_final + finals_in w xs

  -- The slots `xs` came off the front of the queue. Each of their packets was handed to the socket,
  -- or a failure of the drain was reported, and each of the finals was handed to it.
  pub record IsSent (w : World h) (xs : List ℕ) (w' : World h) : Type 0 where
    pub order : served w.bpf.tx ≡ xs ++ served w'.bpf.tx
    pub tried : dues w xs + tries w.bpf.log ≤ tries w'.bpf.log
    pub sent : finals_in w xs + sends w.bpf.log ≤ sends w'.bpf.log

  -- The queue is empty, or the socket is full; what was served came off the front of the queue.
  abbrev pub IsOver : Env → World h → Option (World h) → Type 0
  IsOver e w none = ⊥
  IsOver e w (some w') =
      CanServe h w'
      × ((peek w'.bpf.tx ≡ none) ⊎ (tx_have_capacity e w'.bpf ≡ false))
      × (xs : List ℕ) × IsSent w xs w'

  dues-same :
      (w w' : World h) (xs : List ℕ) → ((c : ℕ) → due h w' c ≡ due h w c) → dues w' xs ≡ dues w xs
  dues-same w w' [] same = refl
  dues-same w w' (x ∷ xs) same = rw (same x, dues-same w w' xs same) refl

  finals_in-same :
      (w w' : World h) (xs : List ℕ)
      → ((c : ℕ) → (w'.bpf.tx.slot c).is_final ≡ (w.bpf.tx.slot c).is_final)
      → finals_in w' xs ≡ finals_in w xs
  finals_in-same w w' [] same = refl
  finals_in-same w w' (x ∷ xs) same = rw (same x, finals_in-same w w' xs same) refl

  IsSent-after :
      (w w' w'' : World h) (a : ℕ) (xs : List ℕ)
      → IsRound h w a w'
      → IsSent w' xs w''
      → IsSent w (a ∷ xs) w''
  IsSent-after w w' w'' a xs round sent = record {
    order = round.order ∙ ap (λ ys. a ∷ ys) sent.order;
    tried = omega (arith, dues-same w w' xs round.due_same, round.tried, sent.tried);
    sent = omega (arith, finals_in-same w w' xs round.final_same, round.sent, sent.sent);
  }

  IsOver-after :
      (e : Env) (w w' : World h) (a : ℕ) (m : Option (World h))
      → IsRound h w a w'
      → IsOver e w' m
      → IsOver e w m
  IsOver-after e w w' a none round o = o
  IsOver-after e w w' a (some w'') round (v, end, xs, sent) =
      (v, end, a ∷ xs, IsSent-after w w' w'' a xs round sent)

  drain_loop-IsOver :
      (n : ℕ) (e : Env) (w : World h)
      → CanServe h w
      → length (served w.bpf.tx) < n
      → IsOver e w (drain_loop h n e w)
  unfolding drain_loop
  drain_loop-IsOver zero e w v l = absurd (omega arith)
  drain_loop-IsOver (suc n) e w v l = elim (Option-cases (peek w.bpf.tx)) [
    | inl q ↦
        rw (q, drain_loop)
          (v, inl q, [], record { order = refl; tried = omega arith; sent = omega arith })
    | inr (a, q) ↦ elim (Bool-cases (tx_have_capacity e w.bpf)) [
      | inr full ↦
          rw (q, full, drain_loop)
            (v, inr full, [], record { order = refl; tried = omega arith; sent = omega arith })
      | inl room ↦
          let fine = drain_slot-IsServed h e w a v q room in
          elim (Option-cases (drain_slot h e w a)) [
            | inl m ↦ absurd (rw m at fine)
            | inr (w', m) ↦
                let round : IsRound h w a w' = rw m at fine in
                let order = round.order in
                rw (q, room, m, drain_loop)
                  (IsOver-after e w w' a _ round
                    (drain_loop-IsOver n e w' round.can_serve (ground arith)))
          ]
    ]
  ]

  disarm-frame :
      (e : Env) (bpf : Bpf)
      → ((tx_pollout_disarm e bpf).tx ≡ bpf.tx)
        × ((tx_pollout_disarm e bpf).tx_pollout_registered ≡ false)
        × (tries (tx_pollout_disarm e bpf).log ≡ tries bpf.log)
        × (sends (tx_pollout_disarm e bpf).log ≡ sends bpf.log)
  unfolding tx_pollout_disarm
  disarm-frame e bpf = ground arith

  CanServe-same :
      (w : World h) (bpf : Bpf)
      → bpf.tx ≡ w.bpf.tx
      → CanServe h w
      → CanServe h (record w { bpf = bpf })
  CanServe-same w bpf q v = record {
    linked = rw q v.linked;
    known = rw q v.known;
    ready = rw q v.ready;
  }

  -- The drain's result: the packets were served in the order of the queue until it was empty, and then the wakeup
  -- is off, or until the socket was full, and then what waits keeps its order.
  abbrev pub IsDrainResult : Env → World h → Option (World h) → Type 0
  IsDrainResult e w none = ⊥
  IsDrainResult e w (some w') =
      CanServe h w'
      × (((pending w'.bpf.tx ≡ false) × (w'.bpf.tx_pollout_registered ≡ false))
          ⊎ (tx_have_capacity e w'.bpf ≡ false))
      × (xs : List ℕ) × IsSent w xs w'

  -- The drain comes to an end without an abort, with more fuel than there are packets in the queue,
  -- if the lists of the queue agree with the bits of its slots and the session of each packet that
  -- waits is in both directories, valid and off hold; this holds again when it ends. It has served
  -- the queue from the front, in order, until the queue was empty, and then POLLOUT is off, or until
  -- the socket was full. It handed at least as many packets to the socket, taken or refused, as it
  -- served final slots; and those packets and the failures that it reported are together at least as
  -- many as the slots that it served, less the periodic ones of sessions that have come to have
  -- nothing to send.
  pub tx_drain-ends :
      (n : ℕ) (e : Env) (w : World h)
      → CanServe h w
      → length (served w.bpf.tx) < n
      → IsDrainResult e w (tx_drain h n e w)
  unfolding tx_drain
  tx_drain-ends n e w v l =
      let over = drain_loop-IsOver n e w v l in
      elim (Option-cases (drain_loop h n e w)) [
        | inl m ↦ absurd (rw m at over)
        | inr (w', m) ↦
            let (v', end, xs, sent) : CanServe h w'
                × ((peek w'.bpf.tx ≡ none) ⊎ (tx_have_capacity e w'.bpf ≡ false))
                × (xs : List ℕ) × IsSent w xs w' =
              rw m at over in
            let (to, from) = pending_iff w'.bpf.tx in
            elim (Bool-cases (pending w'.bpf.tx)) [
              | inl q ↦ rw (m, q) (v', ground (arith, from), xs, sent)
              | inr q ↦
                  let (same, off, log, log') = disarm-frame e w'.bpf in
                  rw (m, q)
                    (
                      CanServe-same w' (tx_pollout_disarm e w'.bpf) same v',
                      inl (rw same q, off),
                      xs,
                      record {
                        order = rw same sent.order;
                        tried = rw log sent.tried;
                        sent = rw log' sent.sent;
                      },
                    )
            ]
      ]
