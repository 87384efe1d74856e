-- ===== src/Bpf/Drain.antt =====
-- One round of the drain of the TX queue.
use bbdd.Base.{
  ℕ, ◌+◌, ◌≤◌, ◌≡◌, ◌≢◌, ◌∙◌, sym, ap, ◌||◌, refl, inl, inr, Bool, true, Option, none, some, ◌∷◌,
  arith, Option-cases, Bool-cases, ◌==◌, count-append, HashSet, DlList,
}
use bbdd.Tx.{Tx, unlink, peek}
use bbdd.Tx.Order.{served, peek-unlink}
use bbdd.Tx.Invariant.{one_if, IsLinked, unlink-IsLinked}
use bbdd.Bpf.State.{Env, Bpf, BSession, on_hold, ok, err, tx_have_capacity, tx_pinned}
use bbdd.Bpf.Update.{should_inject}
use bbdd.Bpf.Frame.{SameBut}
use bbdd.Bpf.Invariant.{IsValid, IsValid-IsReady}
use bbdd.Bpf.Handlers.{SameBut-IsValid}
use bbdd.Bpf.Sending.{sends, tries, to_report}
use bbdd.Bpf.Dequeue.{packets, drain_packet-IsDrained}
use bbdd.Bpf.Directory.{
  World, store, keep, find_session, sdir_get_session, drain_packet, drain_slot,
}

-- The drain can serve every packet of the queue: its session is in both directories, valid and off
-- hold.
pub record CanServe (h : HashSet) (w : World h) : Type 0 where
  pub linked : IsLinked w.bpf.tx
  pub known :
      (a : ℕ)
      → (w.bpf.tx.slot a).linked ≡ true
      → (h.has (w.bpf.tx.slot a).discr w.sdir ≡ true)
        × (h.has (w.bpf.tx.slot a).discr w.sessions ≡ true)
  pub ready :
      (a : ℕ)
      → (w.bpf.tx.slot a).linked ≡ true
      → IsValid (w.dsess (w.bpf.tx.slot a).discr) (w.bsess (w.bpf.tx.slot a).discr)
        × ((w.bsess (w.bpf.tx.slot a).discr).bstate ≢ on_hold)

module _ (h : HashSet) where
  peek-linked :
      (e : Env) (tx : Tx) (a : ℕ) → IsLinked tx → peek tx ≡ some a → (tx.slot a).linked ≡ true
  peek-linked e tx a v p =
      let (order, off) = peek-unlink e.dl tx a v p in
      ground (arith, v.in_finals a, v.in_periodics a, count-append a tx.finals tx.periodics)

  unlink-slot :
      (dl : DlList) (tx : Tx) (a b : ℕ)
      → ((unlink dl tx a).slot b).linked ≡ true
      → (unlink dl tx a).slot b ≡ tx.slot b
  unfolding unlink
  unlink-slot dl tx a b q = ground arith

  -- How many packets the slot at `a` stands for.
  abbrev pub due : World h → ℕ → ℕ
  due w a = let s = w.bpf.tx.slot a in packets (w.dsess s.discr) (w.bsess s.discr) s.is_final

  -- The round took the slot at `a` off the head of the queue, handed its packet to the socket or
  -- reported a failure, and can go on.
  pub record IsRound (w : World h) (a : ℕ) (w' : World h) : Type 0 where
    pub can_serve : CanServe h w'
    pub order : served w.bpf.tx ≡ a ∷ served w'.bpf.tx
    pub tried : due w a + tries w.bpf.log ≤ tries w'.bpf.log
    pub sent : one_if (w.bpf.tx.slot a).is_final + sends w.bpf.log ≤ sends w'.bpf.log
    pub final_same : (c : ℕ) → (w'.bpf.tx.slot c).is_final ≡ (w.bpf.tx.slot c).is_final
    pub due_same : (c : ℕ) → due w' c ≡ due w c

  abbrev pub IsServed : World h → ℕ → Option (World h) → Type 0
  IsServed w a none = ⊥
  IsServed w a (some w') = IsRound w a w'

  store_ready :
      (w : World h) (k j : ℕ) (b' : BSession)
      → IsValid (w.dsess j) (w.bsess j) × ((w.bsess j).bstate ≢ on_hold)
      → IsValid (w.dsess k) b' × (b'.bstate ≢ on_hold)
      → IsValid (store w.dsess k (w.dsess k) j) (store w.bsess k b' j)
        × ((store w.bsess k b' j).bstate ≢ on_hold)
  store_ready w k j b' old new = elim (Bool-cases (k == j)) [ inl q ↦ rw q new | inr q ↦ rw q old ]

  -- A session may only change in its counters, and the slots that are linked are fewer.
  after_round :
      (e : Env) (w : World h) (a : ℕ) (bpf' : Bpf) (b' : BSession)
      → CanServe h w
      → (w.bpf.tx.slot a).linked ≡ true
      → bpf'.tx ≡ unlink e.dl w.bpf.tx a
      → SameBut (w.bsess (w.bpf.tx.slot a).discr) b'
      → let k = (w.bpf.tx.slot a).discr in CanServe h (keep h w k bpf' (w.dsess k) b')
  after_round e w a bpf' b' v on same_tx same =
      let k = (w.bpf.tx.slot a).discr in
      record {
        linked = rw same_tx (unlink-IsLinked e.dl w.bpf.tx a v.linked);
        known = λ c l.
            let l' : ((unlink e.dl w.bpf.tx a).slot c).linked ≡ true = rw same_tx at l in
            let s = unlink-slot e.dl w.bpf.tx a c l' in ground (arith, v.known c);
        ready = λ c l.
            let l' : ((unlink e.dl w.bpf.tx a).slot c).linked ≡ true = rw same_tx at l in
            let s = unlink-slot e.dl w.bpf.tx a c l' in
            let l₀ : (w.bpf.tx.slot c).linked ≡ true = ground arith in
            let (valid, off) = v.ready a on in
            rw (same_tx, s)
              (store_ready w (w.bpf.tx.slot a).discr (w.bpf.tx.slot c).discr b' (v.ready c l₀)
                (SameBut-IsValid _ _ b' valid same, ground arith));
      }

  unlink-same :
      (dl : DlList) (tx : Tx) (a c : ℕ)
      → (((unlink dl tx a).slot c).discr ≡ (tx.slot c).discr)
        × (((unlink dl tx a).slot c).is_final ≡ (tx.slot c).is_final)
  unfolding unlink
  unlink-same dl tx a c = ground arith

  -- What a slot stands for does not depend on the counters of the sessions.
  packets-store :
      (w : World h) (k j : ℕ) (b' : BSession) (is_final : Bool)
      → SameBut (w.bsess k) b'
      → packets (store w.dsess k (w.dsess k) j) (store w.bsess k b' j) is_final
        ≡ packets (w.dsess j) (w.bsess j) is_final
  packets-store w k j b' is_final same = elim (Bool-cases (k == j)) [
    | inl q ↦
        let e : k ≡ j = ground arith in
        rw q (
          rw (sym e)
            (ap (λ s. one_if (is_final || should_inject (w.dsess k) s)) (ap (λ b. b.bstate) same)))
    | inr q ↦ rw q refl
  ]

  due_after_round :
      (e : Env) (w : World h) (a c : ℕ) (bpf' : Bpf) (b' : BSession)
      → bpf'.tx ≡ unlink e.dl w.bpf.tx a
      → SameBut (w.bsess (w.bpf.tx.slot a).discr) b'
      → let k = (w.bpf.tx.slot a).discr in due (keep h w k bpf' (w.dsess k) b') c ≡ due w c
  due_after_round e w a c bpf' b' same_tx same =
      let (discr, final) = unlink-same e.dl w.bpf.tx a c in
      rw (same_tx, discr, final)
        (packets-store w (w.bpf.tx.slot a).discr (w.bpf.tx.slot c).discr b'
          (w.bpf.tx.slot c).is_final same)

  find_session-known :
      (w : World h) (k : ℕ) → h.has k w.sessions ≡ true → find_session h w k ≡ some (w.dsess k)
  unfolding find_session
  find_session-known w k q = ground arith

  get_session-known :
      (w : World h) (k : ℕ) → h.has k w.sdir ≡ true → sdir_get_session h w k ≡ some (w.bsess k)
  unfolding sdir_get_session
  get_session-known w k q = ground arith

  pub drain_slot-IsServed :
      (e : Env) (w : World h) (a : ℕ)
      → CanServe h w
      → peek w.bpf.tx ≡ some a
      → tx_have_capacity e w.bpf ≡ true
      → IsServed w a (drain_slot h e w a)
  unfolding drain_slot
  drain_slot-IsServed e w a v p room =
      let slot = w.bpf.tx.slot a in
      let bpf₁ = record (w.bpf) { tx = unlink e.dl w.bpf.tx a } in
      let l = peek-linked e w.bpf.tx a v.linked p in
      let (in_sdir, in_sessions) = v.known a l in
      let (valid, off) = v.ready a l in
      let (order, free) = peek-unlink e.dl w.bpf.tx a v.linked p in
      let room₁ : tx_have_capacity e bpf₁ ≡ true = unfold tx_have_capacity tx_pinned in room in
      let fine =
        drain_packet-IsDrained e bpf₁ (w.dsess slot.discr) (w.bsess slot.discr) slot.is_final
          slot.tx_ifindex slot.bfd_flags (IsValid-IsReady _ _ valid off) room₁ in
      elim (Option-cases (
        drain_packet e bpf₁ (w.dsess slot.discr) (w.bsess slot.discr) slot.is_final slot.tx_ifindex
          slot.bfd_flags)) [
            | inl n ↦ absurd (rw n at fine)
            | inr ((bpf', b', ok), q) ↦
                let (same_tx, same, tried, sent) : (bpf'.tx ≡ bpf₁.tx)
                    × SameBut (w.bsess slot.discr) b'
                    × (due w a + tries bpf₁.log ≤ tries bpf'.log + to_report (ok))
                    × (one_if slot.is_final + sends bpf₁.log ≤ sends bpf'.log) =
                  rw q at fine in
                rw
                  (
                    find_session-known w slot.discr in_sessions,
                    get_session-known w slot.discr in_sdir,
                    q,
                  )
                  (record {
                    can_serve = after_round e w a _ b' v l same_tx same;
                    order = rw same_tx order;
                    tried = omega arith;
                    sent = omega arith;
                    final_same = λ c.
                        ap (λ tx. (tx.slot c).is_final) same_tx ∙ (unlink-same e.dl w.bpf.tx a c).1;
                    due_same = λ c. due_after_round e w a c bpf' b' same_tx same;
                  })
            | inr ((bpf', b', err x), q) ↦
                let (same_tx, same, tried, sent) : (bpf'.tx ≡ bpf₁.tx)
                    × SameBut (w.bsess slot.discr) b'
                    × (due w a + tries bpf₁.log ≤ tries bpf'.log + to_report (err x))
                    × (one_if slot.is_final + sends bpf₁.log ≤ sends bpf'.log) =
                  rw q at fine in
                rw
                  (
                    find_session-known w slot.discr in_sessions,
                    get_session-known w slot.discr in_sdir,
                    q,
                  )
                  (record {
                    can_serve = after_round e w a _ b' v l same_tx same;
                    order = rw same_tx order;
                    tried = omega arith;
                    sent = omega arith;
                    final_same = λ c.
                        ap (λ tx. (tx.slot c).is_final) same_tx ∙ (unlink-same e.dl w.bpf.tx a c).1;
                    due_same = λ c. due_after_round e w a c bpf' b' same_tx same;
                  })
          ]
