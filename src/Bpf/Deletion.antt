-- ===== src/Bpf/Deletion.antt =====
-- A session that is deleted.
use bbdd.Base.{
  ℕ, suc, ◌≡◌, ◌≢◌, ◌∙◌, ap, refl, inl, inr, Bool, true, false, Option, none, some, arith,
  Option-cases, DlList, HashSet, count, count-append, if◌then◌else◌,
}
use bbdd.Tx.{Tx, TxSlot, unlink}
use bbdd.Tx.Invariant.{IsLinked, unlink-IsLinked}
use bbdd.Tx.Order.{served}
use bbdd.Bpf.State.{Env, Bpf, BSession, Rc, ok, err, note, send_error, session_del_resize_failed}
use bbdd.Bpf.Update.{session_conf_delete}
use bbdd.Bpf.Config.{hold_stop, shwait_stop}
use bbdd.Bpf.Directory.{World, sdir_get_session, tx_apply_capacity, tx_resize}
use bbdd.Bpf.Members.{stop_waits, del_found, session_del}

unlink-unlinked : (dl : DlList) (tx : Tx) (a : ℕ) → ((unlink dl tx a).slot a).linked ≡ false
unfolding unlink
unlink-unlinked dl tx a = ground arith

unlink-keeps :
    (dl : DlList) (tx : Tx) (a b : ℕ)
    → (tx.slot b).linked ≡ false
    → ((unlink dl tx a).slot b).linked ≡ false
unfolding unlink
unlink-keeps dl tx a b q = ground arith

-- The other slots are as before.
unlink-others : (dl : DlList) (tx : Tx) (a b : ℕ) → b ≢ a → (unlink dl tx a).slot b ≡ tx.slot b
unfolding unlink
unlink-others dl tx a b ne = ground arith

-- A slot is in the queue as often as its bits say.
abbrev waiting : TxSlot → ℕ
waiting s = if s.linked then 1 else 0

count-served : (tx : Tx) (a : ℕ) → IsLinked tx → count a (served tx) ≡ waiting (tx.slot a)
count-served tx a v =
    ground (arith, count-append a tx.finals tx.periodics, v.in_finals a, v.in_periodics a)

-- No packet of the two slots waits any more, and those of other slots wait as before.
pub record IsWithout (tx : Tx) (final_slot periodic_slot : ℕ) (tx' : Tx) : Type 0 where
  pub linked : IsLinked tx'
  pub final_off : (tx'.slot final_slot).linked ≡ false
  pub periodic_off : (tx'.slot periodic_slot).linked ≡ false
  pub final_gone : count final_slot (served tx') ≡ 0
  pub periodic_gone : count periodic_slot (served tx') ≡ 0
  pub others :
      (a : ℕ)
      → a ≢ final_slot
      → a ≢ periodic_slot
      → (tx'.slot a ≡ tx.slot a) × (count a (served tx') ≡ count a (served tx))

unlink_both-IsWithout :
    (dl : DlList) (tx : Tx) (f p : ℕ)
    → IsLinked tx
    → IsWithout tx f p (unlink dl (unlink dl tx f) p)
unlink_both-IsWithout dl tx f p v =
    let v₁ = unlink-IsLinked dl tx f v in
    let tx₂ = unlink dl (unlink dl tx f) p in
    let v₂ = unlink-IsLinked dl (unlink dl tx f) p v₁ in
    let f_off = unlink-keeps dl (unlink dl tx f) p f (unlink-unlinked dl tx f) in
    let p_off = unlink-unlinked dl (unlink dl tx f) p in
    record {
      linked = v₂;
      final_off = f_off;
      periodic_off = p_off;
      final_gone = rw (count-served tx₂ f v₂, f_off) refl;
      periodic_gone = rw (count-served tx₂ p v₂, p_off) refl;
      others = λ a nf np.
          let same = unlink-others dl (unlink dl tx f) p a np ∙ unlink-others dl tx f a nf in
          (same, rw (count-served tx₂ a v₂, count-served tx a v) (ap waiting same));
    }

-- The hold and the shwait are stopped where they are set, which never aborts.
abbrev IsStopped : Bpf → BSession → Option (Bpf × BSession) → Type 0
IsStopped bpf b none = ⊥
IsStopped bpf b (some (bpf', b')) =
    (bpf'.tx ≡ bpf.tx) × (b' ≡ record b { hold = false; shwait = false })

stop_waits-IsStopped : (e : Env) (bpf : Bpf) (b : BSession) → IsStopped bpf b (stop_waits e bpf b)
unfolding stop_waits hold_stop shwait_stop
stop_waits-IsStopped e bpf b = ground arith

module _ (h : HashSet) where
  resize-tx :
      (e : Env) (w : World h) (add : Bool)
      → ((tx_resize h e w add).0.bpf.tx ≡ w.bpf.tx)
        × ((tx_resize h e w add).0.sdir ≡ w.sdir)
        × ((tx_resize h e w add).0.bsess ≡ w.bsess)
  unfolding tx_resize tx_apply_capacity
  resize-tx e w add = ground arith

  -- The session has left the directory, and its slots were unlinked; the others are there as before.
  abbrev IsGone : Env → World h → ℕ → BSession → Option (World h) → Type 0
  IsGone e w discr b none = ⊥
  IsGone e w discr b (some w') =
      (h.has discr w'.sdir ≡ false)
      × ((j : ℕ) → j ≢ discr → h.has j w'.sdir ≡ h.has j w.sdir)
      × (suc (h.size w'.sdir) ≡ h.size w.sdir)
      × (w'.bsess ≡ w.bsess)
      × (w'.bpf.tx ≡ unlink e.dl (unlink e.dl w.bpf.tx b.final_slot) b.periodic_slot)

  -- From what is left after the resize.
  left-IsGone :
      (e : Env) (w w' : World h) (discr : ℕ) (b : BSession)
      → h.has discr w.sdir ≡ true
      → w'.sdir ≡ h.del discr w.sdir
      → w'.bsess ≡ w.bsess
      → w'.bpf.tx ≡ unlink e.dl (unlink e.dl w.bpf.tx b.final_slot) b.periodic_slot
      → IsGone e w discr b (some w')
  left-IsGone e w w' discr b on s m t = (
    rw s (ground (arith, h.has_del discr discr w.sdir on)),
    λ j ne. rw s (ground (arith, h.has_del discr j w.sdir on)),
    rw s (h.size_del discr w.sdir on),
    m,
    t,
  )

  conf_delete-tx : (e : Env) (bpf : Bpf) (discr : ℕ) → (session_conf_delete e bpf discr).tx ≡ bpf.tx
  unfolding session_conf_delete
  conf_delete-tx e bpf discr = refl

  -- Whether or not the resize failed.
  reported-IsGone :
      (e : Env) (w w' : World h) (discr : ℕ) (b : BSession) (rc : Rc)
      → h.has discr w.sdir ≡ true
      → w'.sdir ≡ h.del discr w.sdir
      → w'.bsess ≡ w.bsess
      → w'.bpf.tx ≡ unlink e.dl (unlink e.dl w.bpf.tx b.final_slot) b.periodic_slot
      → IsGone e w discr b (
          some (elim rc [
            | ok ↦ w'
            | err x ↦ record w' { bpf = note w'.bpf (send_error session_del_resize_failed) }
          ]))
  reported-IsGone e w w' discr b ok on s m t = left-IsGone e w w' discr b on s m t
  reported-IsGone e w w' discr b (err x) on s m t =
      left-IsGone e w (record w' { bpf = note w'.bpf (send_error session_del_resize_failed) }) discr
        b on s m t

  del_found-IsGone :
      (e : Env) (w : World h) (discr : ℕ) (b : BSession)
      → h.has discr w.sdir ≡ true
      → IsGone e w discr b (del_found h e w discr b)
  unfolding del_found
  del_found-IsGone e w discr b on =
      let stopped = stop_waits-IsStopped e w.bpf b in
      elim (Option-cases (stop_waits e w.bpf b)) [
        | inl n ↦ absurd (rw n at stopped)
        | inr ((bpf', b'), q) ↦
            let (same, off) : (bpf'.tx ≡ w.bpf.tx)
                × (b' ≡ record b { hold = false; shwait = false }) =
              rw q at stopped in
            let bpf₁ = record bpf' {
              tx = unlink e.dl (unlink e.dl bpf'.tx b.final_slot) b.periodic_slot;
            } in
            let w₁ = record w {
              bpf = session_conf_delete e bpf₁ b.discr;
              sdir = h.del discr w.sdir;
            } in
            let (resized, s, m) = resize-tx e w₁ false in
            let t : w₁.bpf.tx ≡ unlink e.dl (unlink e.dl w.bpf.tx b.final_slot) b.periodic_slot =
              conf_delete-tx e bpf₁ b.discr
              ∙ ap (λ tx. unlink e.dl (unlink e.dl tx b.final_slot) b.periodic_slot) same in
            rw q (
              reported-IsGone e w (tx_resize h e w₁ false).0 discr b (tx_resize h e w₁ false).1 on s
                m (resized ∙ t))
      ]

  pub session_del-IsGone :
      (e : Env) (w : World h) (discr : ℕ)
      → h.has discr w.sdir ≡ true
      → IsGone e w discr (w.bsess discr) (session_del h e w discr)
  unfolding session_del sdir_get_session
  session_del-IsGone e w discr on =
      rw (on, session_del, sdir_get_session) (del_found-IsGone e w discr (w.bsess discr) on)

  -- The session is gone with its two packets, and the other sessions are there as before.
  abbrev pub IsDeleted : World h → ℕ → BSession → Option (World h) → Type 0
  IsDeleted w discr b none = ⊥
  IsDeleted w discr b (some w') =
      (h.has discr w'.sdir ≡ false)
      × ((j : ℕ) → j ≢ discr → (h.has j w'.sdir ≡ h.has j w.sdir) × (w'.bsess j ≡ w.bsess j))
      × (suc (h.size w'.sdir) ≡ h.size w.sdir)
      × IsWithout w.bpf.tx b.final_slot b.periodic_slot w'.bpf.tx

  gone-IsDeleted :
      (e : Env) (w : World h) (discr : ℕ) (b : BSession) (m : Option (World h))
      → IsLinked w.bpf.tx
      → IsGone e w discr b m
      → IsDeleted w discr b m
  gone-IsDeleted e w discr b none v gone = gone
  gone-IsDeleted e w discr b (some w') v (off, others, size, same, t) = (
    off,
    λ j ne. (others j ne, ap (λ f. f j) same),
    size,
    rw t (unlink_both-IsWithout e.dl w.bpf.tx b.final_slot b.periodic_slot v),
  )

  -- Deleting a session that is in the directory never aborts, while the lists of the TX queue agree
  -- with the bits of its slots. Afterwards they still agree, the session is not in the directory, the
  -- addresses of its two slots are on neither list of the queue and their bits are off, every other
  -- slot is as it was and waits if it did, and every other session is in the directory if it was,
  -- with its state as it was.
  pub session_del-IsDeleted :
      (e : Env) (w : World h) (discr : ℕ)
      → h.has discr w.sdir ≡ true
      → IsLinked w.bpf.tx
      → IsDeleted w discr (w.bsess discr) (session_del h e w discr)
  session_del-IsDeleted e w discr on v =
      gone-IsDeleted e w discr (w.bsess discr) _ v (session_del-IsGone e w discr on)
