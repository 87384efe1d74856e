-- ===== src/Prog/Release.antt =====
-- The packets that the program lets go of, and the packets that it sends.
use bbdd.Base.{
  ℕ, ◌+◌, ◌≤◌, ◌≡◌, ◌≢◌, refl, inl, inr, Bool, true, false, some, List, [], ◌∷◌, arith,
  Option-cases, Bool-cases, ◌==◌,
}
use bbdd.Wire.{ntoh32, Be16}
use bbdd.Wire.Packet.{BfdPkt}
use bbdd.Bpf.State.{SessionConfig}
use bbdd.Prog.State.{
  Prog, Skb, Kernel, Route, FibRet, lookup_error, success, blackhole, unreachable, prohibit,
  fwd_disabled, unsupp_lwt, no_neigh, frag_needed, no_src_addr, not_fwded, unnamed, Effect,
  bump_sess, redirect, clone_redirect, RbElem, SessStat, notify, releases,
}
use bbdd.Prog.Packet.{tx_get_bfd, tx_update}
use bbdd.Prog.Send.{
  Act, act_ok, act_shot, finish, sent, forward, routed, no_route, on_lookup, send_current,
  notify_no_neigh, xmit_veth_tx,
}
use bbdd.Prog.Receive.{xmit_veth_rx_xmit, rearm_timer, init_timer, set_callback, start_timer}

-- How many packets were handed to an interface.
abbrev pub is_send : Effect → ℕ
is_send (redirect ifindex skb) = 1
is_send (clone_redirect ifindex skb) = 1
is_send _ = 0

abbrev pub sends : List Effect → ℕ
sends [] = 0
sends (e ∷ es) = is_send e + sends es

-- A packet that does not go on around the loop has left it.
abbrev pub has_left : Act → ℕ
has_left act_ok = 0
has_left _ = 1

-- The packet is let go of once when it leaves the loop, and not while it stays; it is sent once at
-- most.
abbrev pub IsAccounted : Prog → Prog × Skb × Act → Type 0
IsAccounted p (p', skb', act) =
    (releases p'.log ≡ releases p.log + has_left act)
    × (sends p.log ≤ sends p'.log)
    × (sends p'.log ≤ sends p.log + 1)

-- As above, with nothing sent before this part of the run.
abbrev IsFresh : Prog → Prog → Type 0
IsFresh p p₁ = (releases p₁.log ≡ releases p.log) × (sends p₁.log ≡ sends p.log)

notify-IsFresh : (k : Kernel) (p : Prog) (elem : RbElem) → IsFresh p (notify k p elem)
unfolding notify
notify-IsFresh k p elem = ground arith

finish-IsAccounted :
    (k : Kernel) (p p₁ : Prog) (config : SessionConfig) (f : Bool) (skb : Skb)
    → IsFresh p p₁
    → IsAccounted p (finish k p₁ config f act_shot skb)
unfolding finish
finish-IsAccounted k p p₁ config true skb (r, s) = (omega arith, omega arith, omega arith)
finish-IsAccounted k p p₁ config false skb (r, s) = (omega arith, omega arith, omega arith)

forward-IsAccounted :
    (k : Kernel) (p p₁ : Prog) (config : SessionConfig) (discr : ℕ) (f : Bool) (route : Route)
    (skb : Skb)
    → IsFresh p p₁
    → IsAccounted p (forward k p₁ config discr f route skb)
unfolding forward sent finish
forward-IsAccounted k p p₁ config discr true route skb (r, s) = ground arith
forward-IsAccounted k p p₁ config discr false route skb (r, s) = ground arith

routed-IsAccounted :
    (k : Kernel) (p p₁ : Prog) (config : SessionConfig) (discr : ℕ) (f : Bool) (route : Route)
    (skb : Skb)
    → IsFresh p p₁
    → IsAccounted p (routed k p₁ config discr f route skb)
unfolding routed
routed-IsAccounted k p p₁ config discr f route skb (r, s) =
    let (skb', done) = tx_update k skb route in
    ground (
      arith,
      finish-IsAccounted k p
          (record p₁ { log = bump_sess discr SessStat.tx_loopback_filter ∷ p₁.log }) config f skb
          (omega arith, omega arith),
      finish-IsAccounted k p (record p₁ { log = bump_sess discr SessStat.tx_fail_update ∷ p₁.log })
          config f skb' (omega arith, omega arith),
      forward-IsAccounted k p p₁ config discr f route skb' (r, s),
    )

no_route-IsAccounted :
    (stat : SessStat) (k : Kernel) (p p₁ : Prog) (config : SessionConfig) (discr : ℕ) (f : Bool)
    (skb : Skb)
    → IsFresh p p₁
    → IsAccounted p (no_route stat k p₁ config discr f skb)
unfolding no_route
no_route-IsAccounted stat k p p₁ config discr f skb (r, s) =
    finish-IsAccounted k p (record p₁ { log = bump_sess discr stat ∷ p₁.log }) config f skb
      (omega arith, omega arith)

no_neigh-IsFresh :
    (k : Kernel) (p : Prog) (proto : Be16) (route : Route)
    → IsFresh p (notify_no_neigh k p proto route)
unfolding notify_no_neigh
no_neigh-IsFresh k p proto route = notify-IsFresh k p _

on_lookup-IsAccounted :
    (ret : FibRet) (k : Kernel) (p : Prog) (config : SessionConfig) (discr : ℕ) (f : Bool)
    (route : Route) (skb : Skb)
    → IsAccounted p (on_lookup ret k p config discr f route skb)
unfolding on_lookup
on_lookup-IsAccounted lookup_error k p config discr f route skb =
    no_route-IsAccounted _ k p p config discr f skb (refl, refl)
on_lookup-IsAccounted success k p config discr f route skb =
    routed-IsAccounted k p p config discr f route skb (refl, refl)
on_lookup-IsAccounted blackhole k p config discr f route skb =
    no_route-IsAccounted _ k p p config discr f skb (refl, refl)
on_lookup-IsAccounted unreachable k p config discr f route skb =
    no_route-IsAccounted _ k p p config discr f skb (refl, refl)
on_lookup-IsAccounted prohibit k p config discr f route skb =
    no_route-IsAccounted _ k p p config discr f skb (refl, refl)
on_lookup-IsAccounted fwd_disabled k p config discr f route skb =
    no_route-IsAccounted _ k p p config discr f skb (refl, refl)
on_lookup-IsAccounted unsupp_lwt k p config discr f route skb =
    no_route-IsAccounted _ k p p config discr f skb (refl, refl)
on_lookup-IsAccounted no_neigh k p config discr true route skb =
    ground (arith, no_neigh-IsFresh k p skb.protocol route)
on_lookup-IsAccounted no_neigh k p config discr false route skb =
    no_route-IsAccounted _ k p (notify_no_neigh k p skb.protocol route) config discr false skb
      (no_neigh-IsFresh k p skb.protocol route)
on_lookup-IsAccounted frag_needed k p config discr f route skb =
    no_route-IsAccounted _ k p p config discr f skb (refl, refl)
on_lookup-IsAccounted no_src_addr k p config discr f route skb =
    no_route-IsAccounted _ k p p config discr f skb (refl, refl)
on_lookup-IsAccounted not_fwded k p config discr f route skb =
    no_route-IsAccounted _ k p p config discr f skb (refl, refl)
on_lookup-IsAccounted unnamed k p config discr f route skb =
    routed-IsAccounted k p p config discr f route skb (refl, refl)

send_current-IsAccounted :
    (k : Kernel) (p : Prog) (config : SessionConfig) (discr : ℕ) (f : Bool) (tot_len : ℕ)
    (skb : Skb)
    → IsAccounted p (send_current k p config discr f tot_len skb)
unfolding send_current
send_current-IsAccounted k p config discr f tot_len skb =
    elim (Bool-cases (skb.mark == config.gen_id)) [
      | inl q ↦ rw q (on_lookup-IsAccounted _ k p config discr f _ _)
      | inr q ↦ rw q (omega arith, omega arith, omega arith)
    ]

-- A BFD packet that leaves the loop is let go of once, which the daemon takes for room on the
-- socket; one that goes around is not. It is handed to an interface once at most. This is so
-- whatever the kernel answers.
pub xmit_veth_tx-IsAccounted :
    (k : Kernel) (p : Prog) (skb : Skb) (bfd : BfdPkt) (tot_len : ℕ)
    → tx_get_bfd skb ≡ some (bfd, tot_len)
    → IsAccounted p (xmit_veth_tx k p skb)
unfolding xmit_veth_tx
xmit_veth_tx-IsAccounted k p skb bfd tot_len q =
    elim (Option-cases (p.config (ntoh32 bfd.my_disc))) [
      | inl n ↦ rw (q, n, xmit_veth_tx) (omega arith, omega arith, omega arith)
      | inr (config, c) ↦ elim (Option-cases (p.timer_initd (ntoh32 bfd.my_disc))) [
        | inl n ↦ rw (q, c, n, xmit_veth_tx) (omega arith, omega arith, omega arith)
        | inr (initd, i) ↦
            rw (q, c, i, xmit_veth_tx) (send_current-IsAccounted k p config _ _ tot_len skb)
      ]
    ]

-- Only a packet of the current generation of its session is handed to an interface, and a packet of
-- another generation does not go around again.
pub xmit_veth_tx-current :
    (k : Kernel) (p : Prog) (skb : Skb) (bfd : BfdPkt) (tot_len : ℕ)
    → tx_get_bfd skb ≡ some (bfd, tot_len)
    → ((config : SessionConfig)
        → p.config (ntoh32 bfd.my_disc) ≡ some config
        → skb.mark ≢ config.gen_id)
    → (sends (xmit_veth_tx k p skb).0.log ≡ sends p.log) × ((xmit_veth_tx k p skb).2 ≡ act_shot)
unfolding xmit_veth_tx send_current
xmit_veth_tx-current k p skb bfd tot_len q stale =
    elim (Option-cases (p.config (ntoh32 bfd.my_disc))) [
      | inl n ↦ rw (q, n, xmit_veth_tx) (omega arith, refl)
      | inr (config, c) ↦ elim (Option-cases (p.timer_initd (ntoh32 bfd.my_disc))) [
        | inl n ↦ rw (q, c, n, xmit_veth_tx) (omega arith, refl)
        | inr (initd, i) ↦
            let off : (skb.mark == config.gen_id) ≡ false = ground (arith, stale config c) in
            rw (q, c, i, xmit_veth_tx, send_current, off) (omega arith, refl)
      ]
    ]

rearm-IsFresh :
    (k : Kernel) (p : Prog) (discr : ℕ) (config : SessionConfig) (initd : Bool)
    → IsFresh p (rearm_timer k p discr config initd)
unfolding rearm_timer init_timer set_callback start_timer
rearm-IsFresh k p discr config initd = ground arith

-- The packet that asks for the timer to be armed is let go of once, whether or not that succeeds.
pub xmit_veth_rx_xmit-releases :
    (k : Kernel) (p : Prog) (skb : Skb) (bfd : BfdPkt) (tot_len : ℕ)
    → tx_get_bfd skb ≡ some (bfd, tot_len)
    → let (p', act) = xmit_veth_rx_xmit k p skb in
      (releases p'.log ≡ releases p.log + 1) × (sends p'.log ≡ sends p.log) × (has_left act ≡ 1)
unfolding xmit_veth_rx_xmit
xmit_veth_rx_xmit-releases k p skb bfd tot_len q =
    elim (Option-cases (p.config (ntoh32 bfd.my_disc))) [
      | inl n ↦ rw (q, n, xmit_veth_rx_xmit) (omega arith, omega arith, refl)
      | inr (config, c) ↦ elim (Option-cases (p.timer_initd (ntoh32 bfd.my_disc))) [
        | inl n ↦ rw (q, c, n, xmit_veth_rx_xmit) (omega arith, omega arith, refl)
        | inr (initd, i) ↦
            let (r, s) = rearm-IsFresh k p (ntoh32 bfd.my_disc) config initd in
            rw (q, c, i, xmit_veth_rx_xmit) (omega arith, omega arith, refl)
      ]
    ]
