-- ===== src/Bpf/Deferral.antt =====
-- Updates of a session when the TX socket has room, and when it has none.
use bbdd.Base.{
  ℕ, ◌+◌, ◌≡◌, ◌≢◌, ◌⊎◌, refl, inl, inr, Bool, true, false, Option, none, some, [], ◌∷◌, ◌++◌,
  arith, if◌then◌else◌, Option-cases, DlList,
}
use bbdd.Base.Words.{u32, u64}
use bbdd.Session.{DSession}
use bbdd.Tx.{Tx, enqueue}
use bbdd.Tx.Order.{enqueue_order}
use bbdd.Bpf.State.{
  Env, Bpf, BSession, on_hold, Rc, ok, Call, sendmsg, config_update, Log, tx_have_capacity,
}
use bbdd.Bpf.Inject.{tx_pollout_arm}
use bbdd.Bpf.Packet.{inject_flags, inject_flags_bstate, session_flags}
use bbdd.Bpf.Update.{should_inject, session_update, update_deferred}
use bbdd.Wire.Packet.{has_final}
use bbdd.Bpf.Frame.{IsReady, session_update-ne-none, flags-ne-none, update_now-frame}

-- A call that changes what is on the wire.
abbrev pub reaches_wire : Call → Bool
reaches_wire (sendmsg m i f) = true
reaches_wire (config_update k c) = true
reaches_wire _ = false

abbrev pub wire_calls : Log → Log
wire_calls [] = []
wire_calls ((c, done) ∷ log) =
    let rest = wire_calls log in if reaches_wire c then (c, done) ∷ rest else rest

-- What enqueueing a packet on the free slot at `a` makes of the queue: the periodic packets that
-- waited, in their order, then this one, with the caller's parameters, and all else as before.
pub record IsAppended (tx : Tx) (a discr tx_ifindex bfd_flags : ℕ) (tx' : Tx) : Type 0 where
  pub finals : tx'.finals ≡ tx.finals
  pub periodics : tx'.periodics ≡ tx.periodics ++ a ∷ []
  pub slot : tx'.slot a ≡ record {
    discr = discr;
    tx_ifindex = tx_ifindex;
    bfd_flags = bfd_flags;
    linked = true;
    is_final = false;
  }
  pub others : (c : ℕ) → c ≢ a → tx'.slot c ≡ tx.slot c

-- A packet that waits already goes on waiting where it is; one that does not is appended and counted.
abbrev pub IsQueued : Bpf → ℕ → ℕ → ℕ → Bpf → Type 0
IsQueued bpf a discr bfd_flags bpf' =
    (((bpf.tx.slot a).linked ≡ true) × (bpf'.tx ≡ bpf.tx) × (bpf'.sk_enq_count ≡ bpf.sk_enq_count))
    ⊎ (((bpf.tx.slot a).linked ≡ false)
        × IsAppended bpf.tx a discr bpf.veth_tx_ifindex bfd_flags bpf'.tx
        × (bpf'.sk_enq_count ≡ u64 (bpf.sk_enq_count + 1)))

-- The session is as it was, its packet waits, and nothing was sent or published.
abbrev pub IsDeferred : Bpf → DSession → BSession → Option (Bpf × BSession × Rc) → Type 0
IsDeferred bpf d b none = ⊥
IsDeferred bpf d b (some (bpf', b', rc)) =
    (b' ≡ b)
    × (rc ≡ ok)
    × (wire_calls bpf'.log ≡ wire_calls bpf.log)
    × (bpf'.sk_sent_count ≡ bpf.sk_sent_count)
    × (flags : ℕ) × (inject_flags d b ≡ some flags)
    × IsQueued bpf b.periodic_slot d.local.discr flags bpf'

pollout_arm-frame :
    (e : Env) (bpf : Bpf)
    → ((tx_pollout_arm e bpf).tx ≡ bpf.tx)
      × ((tx_pollout_arm e bpf).sk_sent_count ≡ bpf.sk_sent_count)
      × ((tx_pollout_arm e bpf).sk_enq_count ≡ bpf.sk_enq_count)
      × (wire_calls (tx_pollout_arm e bpf).log ≡ wire_calls bpf.log)
unfolding tx_pollout_arm
pollout_arm-frame e bpf = ground arith

-- The flags of an update ask for no final packet.
inject_flags-not_final :
    (d : DSession) (b : BSession) (flags : ℕ)
    → inject_flags d b ≡ some flags
    → has_final flags ≡ false
unfolding inject_flags inject_flags_bstate session_flags
inject_flags-not_final d b flags h = ground arith

enqueue-others :
    (dl : DlList) (tx : Tx) (a : ℕ) (is_final : Bool) (discr ifindex flags c : ℕ)
    → c ≢ a
    → (enqueue dl tx a is_final discr ifindex flags).0.slot c ≡ tx.slot c
unfolding enqueue
enqueue-others dl tx a is_final discr ifindex flags c ne = ground arith

enqueue-IsQueued :
    (dl : DlList) (bpf : Bpf) (a discr flags : ℕ)
    → let (tx', fresh) = enqueue dl bpf.tx a false discr bpf.veth_tx_ifindex flags in
      IsQueued bpf a discr flags (record bpf {
        tx = tx';
        sk_enq_count = if fresh then u64 (bpf.sk_enq_count + 1) else bpf.sk_enq_count;
      })
enqueue-IsQueued dl bpf a discr flags =
    elim (enqueue_order dl bpf.tx a false discr bpf.veth_tx_ifindex flags) [
      | inl (on, stale, same) ↦ inl (on, same, rw stale refl)
      | inr (off, fresh, finals, periodics, slot) ↦ inr (
        off,
        record {
          finals = finals;
          periodics = periodics;
          slot = slot;
          others = enqueue-others dl bpf.tx a false discr bpf.veth_tx_ifindex flags;
        },
        rw fresh refl,
      )
    ]

update_deferred-IsDeferred :
    (e : Env) (bpf : Bpf) (d : DSession) (b : BSession)
    → inject_flags d b ≢ none
    → IsDeferred bpf d b (update_deferred e bpf d b)
unfolding update_deferred
update_deferred-IsDeferred e bpf d b on = elim (Option-cases (inject_flags d b)) [
  | inl n ↦ absurd (on n)
  | inr (flags, q) ↦
      let (tx', fresh) =
        enqueue e.dl bpf.tx b.periodic_slot false d.local.discr bpf.veth_tx_ifindex flags in
      let bpf₁ = record bpf {
        tx = tx';
        sk_enq_count = if fresh then u64 (bpf.sk_enq_count + 1) else bpf.sk_enq_count;
      } in
      let (same_tx, same_sent, same_enq, same_log) = pollout_arm-frame e bpf₁ in
      rw (q, inject_flags-not_final d b flags q)
        (
          refl,
          refl,
          same_log,
          same_sent,
          flags,
          q,
          rw (same_tx, same_enq) (enqueue-IsQueued e.dl bpf b.periodic_slot d.local.discr flags),
        )
]

-- An update that has a packet to inject, and finds no room on the socket, of a session off hold,
-- leaves the session and its generation as they are, and sends and publishes nothing. If the
-- session's periodic slot is in the queue it stays as it is; if not, it is put behind the periodic
-- packets that wait, with the session's discriminator and the flags that the packet would have had,
-- and counted. No other slot changes, nor do the finals that wait.
pub session_update-defers :
    (e : Env) (bpf : Bpf) (d : DSession) (b : BSession)
    → b.bstate ≢ on_hold
    → should_inject d b.bstate ≡ true
    → tx_have_capacity e bpf ≡ false
    → IsDeferred bpf d b (session_update e bpf d b)
unfolding session_update
session_update-defers e bpf d b off inj full =
    rw (inj, full) (update_deferred-IsDeferred e bpf d b (flags-ne-none d b off))

update_bumped :
    (e : Env) (bpf bpf' : Bpf) (d : DSession) (b b' : BSession) (rc : Rc)
    → (should_inject d b.bstate ≡ false) ⊎ (tx_have_capacity e bpf ≡ true)
    → session_update e bpf d b ≡ some (bpf', b', rc)
    → b'.gen_id ≡ u32 (b.gen_id + 1)
unfolding session_update
update_bumped e bpf bpf' d b b' rc c h = ground (
  arith,
  update_now-frame e bpf bpf' d (record b { gen_id = u32 (b.gen_id + 1) }) b'
      (should_inject d b.bstate) rc,
)

-- Nothing aborted, and the packets of the session are of a new generation.
abbrev pub IsBumped : BSession → Option (Bpf × BSession × Rc) → Type 0
IsBumped b none = ⊥
IsBumped b (some (bpf', b', rc)) = b'.gen_id ≡ u32 (b.gen_id + 1)

-- An update that has no packet to inject, or finds room for it, starts a new generation, whether or
-- not its calls succeed, and does not abort, for a session off hold whose remote multiplier, and
-- whose own in the data that its state goes by, are not 0.
pub session_update-bumps :
    (e : Env) (bpf : Bpf) (d : DSession) (b : BSession)
    → IsReady d b
    → (should_inject d b.bstate ≡ false) ⊎ (tx_have_capacity e bpf ≡ true)
    → IsBumped b (session_update e bpf d b)
session_update-bumps e bpf d b v c = elim (Option-cases (session_update e bpf d b)) [
  | inl n ↦ absurd (session_update-ne-none e bpf d b v n)
  | inr ((bpf', b', rc), q) ↦ rw q (update_bumped e bpf bpf' d b b' rc c q)
]
