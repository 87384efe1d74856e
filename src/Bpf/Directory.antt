-- ===== src/Bpf/Directory.antt =====
-- src/bbdd-bpf.c: the directory of sessions, the capacity of the TX socket that follows its size,
-- the drain of the TX queue, and the entry points that look a session up.
--
-- `World` is the daemon's two directories with the sessions in them, each by its discriminator.
use bbdd.Base.{
  ℕ, zero, suc, ◌+◌, ◌*◌, Bool, true, false, not, Option, none, some, ltb, ◌==◌, if◌then◌else◌,
  ◌>>=◌, HashSet,
}
use bbdd.Base.Words.{u32, u64}
use bbdd.Session.{DSession}
use bbdd.Tx
use bbdd.Tx.{empty_slot, set_slot}
use bbdd.Bpf.State.{
  Env, Bpf, BSession, Rc, ok, err, over_2g, sndbuf_failed, call, note, set_sndbuf, send_error,
  drain_failed, tx_have_capacity,
}
use bbdd.Bpf.Inject.{session_inject_pkt, tx_pollout_disarm}
use bbdd.Bpf.Update.{session_update}
use bbdd.Bpf.Receive.{report_rc}

abbrev pub store {ℓ} : {A : Type ℓ} → (ℕ → A) → ℕ → A → ℕ → A
store f k v j = if k == j then v else f j

abbrev pub tx_cap_mult : ℕ
tx_cap_mult = 2

abbrev pub tx_skb_true_size : ℕ
tx_skb_true_size = 2048

-- INT32_MAX / 2
abbrev pub sndbuf_max : ℕ
sndbuf_max = 1073741823

unfoldable pub tx_apply_capacity : Env → Bpf → ℕ → Bpf × Rc
tx_apply_capacity e bpf cap =
    if ltb sndbuf_max (cap * tx_skb_true_size)
    then (bpf, err over_2g)
    else let (bpf', done) = call e bpf (set_sndbuf (cap * tx_skb_true_size)) in
      if done then (record bpf' { tx_capacity = cap }, ok) else (bpf', err sndbuf_failed)

-- What the drain does with the packet of a slot: a final goes out as it was queued, a periodic
-- one with a new generation.
unfoldable pub drain_packet :
    Env → Bpf → DSession → BSession → Bool → ℕ → ℕ → Option (Bpf × BSession × Rc)
drain_packet e bpf d b true tx_ifindex bfd_flags =
    session_inject_pkt e bpf d b tx_ifindex bfd_flags >>= λ r. some (r.0, b, r.1)
drain_packet e bpf d b false tx_ifindex bfd_flags = session_update e bpf d b

module _ (h : HashSet) where
  pub record World : Type 0 where
    pub bpf : Bpf
    pub sdir : h.Table  -- bpf->sdir
    pub bsess : ℕ → BSession
    pub sessions : h.Table  -- the daemon's directory
    pub dsess : ℕ → DSession

  unfoldable pub sdir_get_session : World → ℕ → Option BSession
  sdir_get_session w discr = if h.has discr w.sdir then some (w.bsess discr) else none

  -- The daemon's callback.
  unfoldable pub find_session : World → ℕ → Option DSession
  find_session w discr = if h.has discr w.sessions then some (w.dsess discr) else none

  abbrev pub keep : World → ℕ → Bpf → DSession → BSession → World
  keep w discr bpf d b = record w {
    bpf = bpf;
    dsess = store w.dsess discr d;
    bsess = store w.bsess discr b;
  }

  unfoldable pub tx_dyn_capacity : World → Bool → ℕ
  tx_dyn_capacity w add = u32 (u32 (h.size w.sdir + (if add then 1 else 0)) * tx_cap_mult)

  unfoldable pub tx_resize : Env → World → Bool → World × Rc
  tx_resize e w add =
      let cap = if e.tx_capacity == 0 then tx_dyn_capacity w add else e.tx_capacity in
      if w.bpf.tx_capacity == cap
      then (w, ok)
      else let (bpf', rc) = tx_apply_capacity e w.bpf cap in (record w { bpf = bpf' }, rc)

  -- One round of the drain, for the slot at `a`. Aborts when a session is not found.
  unfoldable pub drain_slot : Env → World → ℕ → Option World
  drain_slot e w a = do
    let slot = w.bpf.tx.slot a
    let bpf₁ = record (w.bpf) { tx = Tx.unlink e.dl w.bpf.tx a }
    d ← find_session w slot.discr
    b ← sdir_get_session w slot.discr
    r ← drain_packet e bpf₁ d b slot.is_final slot.tx_ifindex slot.bfd_flags
    let bpf₂ = report_rc r.2 r.0 (λ x. note x (send_error drain_failed))
    some (keep w slot.discr (record bpf₂ { sk_deq_count = u64 (bpf₂.sk_deq_count + 1) }) d r.1)

  -- The loop, on fuel; `none` also when that runs out.
  unfoldable pub drain_loop : ℕ → Env → World → Option World
  drain_loop zero e w = none
  drain_loop (suc n) e w = elim (Tx.peek w.bpf.tx) [
    | none ↦ some w
    | some a ↦
        if not (tx_have_capacity e w.bpf)
        then some w
        else (drain_slot e w a >>= λ w'. drain_loop n e w')
  ]

  unfoldable pub tx_drain : ℕ → Env → World → Option World
  tx_drain n e w = drain_loop n e w >>= λ w'.
      some (if Tx.pending w'.bpf.tx then w' else record w' { bpf = tx_pollout_disarm e w'.bpf })
