-- ===== src/Bpf/Dequeue.antt =====
-- src/bbdd-bpf.c: the packet of one slot that the drain takes off the queue.
use bbdd.Base.{
  ℕ, ◌+◌, ◌≤◌, ◌≡◌, ◌||◌, refl, inl, inr, Bool, true, false, Option, none, some, arith,
  Option-cases,
}
use bbdd.Session.{DSession}
use bbdd.Tx.Invariant.{one_if}
use bbdd.Bpf.State.{Env, Bpf, BSession, Rc, tx_have_capacity}
use bbdd.Bpf.Inject.{session_inject_pkt}
use bbdd.Bpf.Update.{should_inject, session_update}
use bbdd.Bpf.Frame.{IsReady, SameBut, inject-ne-none, session_update-ne-none, session_update-frame}
use bbdd.Bpf.TxFrame.{inject-tx, session_update-tx}
use bbdd.Bpf.Sending.{sends, tries, to_report, inject-sends, session_update-sends}
use bbdd.Bpf.Directory.{drain_packet}

-- How many packets a slot of the queue stands for: a final always for one, a periodic one for none
-- if its session has come to send nothing.
abbrev pub packets : DSession → BSession → Bool → ℕ
packets d b is_final = one_if (is_final || should_inject d b.bstate)

-- A packet of the queue was dealt with: the queue is as it was, and the session but for its counters,
-- and the packet was handed to the socket, or, of an update only, there is a failure to report.
abbrev pub IsDrained : Bpf → BSession → ℕ → Bool → Option (Bpf × BSession × Rc) → Type 0
IsDrained bpf b n is_final none = ⊥
IsDrained bpf b n is_final (some (bpf', b', rc)) =
    (bpf'.tx ≡ bpf.tx)
    × SameBut b b'
    × (n + tries bpf.log ≤ tries bpf'.log + to_report rc)
    × (one_if is_final + sends bpf.log ≤ sends bpf'.log)

pub drain_packet-IsDrained :
    (e : Env) (bpf : Bpf) (d : DSession) (b : BSession) (is_final : Bool) (ifindex flags : ℕ)
    → IsReady d b
    → tx_have_capacity e bpf ≡ true
    → IsDrained bpf b
        (packets d b is_final)
        is_final
        (drain_packet e bpf d b is_final ifindex flags)
unfolding drain_packet
drain_packet-IsDrained e bpf d b true ifindex flags v room =
    elim (Option-cases (session_inject_pkt e bpf d b ifindex flags)) [
      | inl n ↦ absurd (inject-ne-none e bpf d b ifindex flags v n)
      | inr ((bpf', rc), q) ↦
          let (tried, sent) = inject-sends e bpf bpf' d b ifindex flags rc q in
          rw q (inject-tx e bpf bpf' d b ifindex flags rc q, refl, omega arith, omega arith)
    ]
drain_packet-IsDrained e bpf d b false ifindex flags v room =
    elim (Option-cases (session_update e bpf d b)) [
      | inl n ↦ absurd (session_update-ne-none e bpf d b v n)
      | inr ((bpf', b', rc), q) ↦
          let (tried, sent) = session_update-sends e bpf bpf' d b b' rc room q in
          rw q (
            session_update-tx e bpf bpf' d b b' rc room q,
            session_update-frame e bpf bpf' d b b' rc q,
            tried,
            omega arith,
          )
    ]
