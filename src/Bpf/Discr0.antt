-- ===== src/Bpf/Discr0.antt =====
-- src/bbdd-bpf.c: a packet that carries no discriminator of ours, for the one session it matches.
use bbdd.Base.{ℕ, ◌+◌, Bool, not, Option, none, some, ◌==◌, if◌then◌else◌, ◌>>=◌, HashSet, map}
use bbdd.Base.Words.{u64}
use bbdd.Wire.{ntoh32}
use bbdd.Wire.Packet.{BfdPkt}
use bbdd.Session.{SockAddr, af_inet, af_inet6}
use bbdd.Bpf.State.{Env, note, send_error, discr_0_failed}
use bbdd.Bpf.Directory.{World}
use bbdd.Bpf.Events.{rb_packet}
use bbdd.Daemon.Match.{MatchDigest, match_session}

-- struct bbdd_bpf_addr: the words of an address.
pub record BpfAddr : Type 0 where
  pub w0 : ℕ
  pub w1 : ℕ
  pub w2 : ℕ
  pub w3 : ℕ

-- struct bbdd_bpf_rb_elem_rx_discr_0
pub record ElemDiscr0 : Type 0 where
  pub packet : BfdPkt
  pub saddr : BpfAddr
  pub daddr : BpfAddr
  pub ethtype : ℕ
  pub ttl : ℕ
  pub multihop : Bool
  pub wire_len : ℕ
  pub ifindex : ℕ

abbrev pub eth_p_ip : ℕ
eth_p_ip = 2048

abbrev pub eth_p_ipv6 : ℕ
eth_p_ipv6 = 34525

-- The address goes into a zeroed `struct bbdd_sockaddr`, whose port so stays 0.
unfoldable pub addr_to_sockaddr : ℕ → BpfAddr → Option SockAddr
addr_to_sockaddr ethtype a =
    if ethtype == eth_p_ip
    then some (record {
      family = af_inet;
      port = record { value = 0 };
      w0 = a.w0;
      w1 = 0;
      w2 = 0;
      w3 = 0;
    })
    else if ethtype == eth_p_ipv6
    then some (record {
      family = af_inet6;
      port = record { value = 0 };
      w0 = a.w0;
      w1 = a.w1;
      w2 = a.w2;
      w3 = a.w3;
    })
    else none

-- `ifinfo` asks the kernel for the routing table of the interface, 0 for one that is no VRF. A VRF
-- is told by its table, any other interface by its index.
unfoldable pub make_digest : (ℕ → Option ℕ) → ElemDiscr0 → Option MatchDigest
make_digest ifinfo elem = do
  table ← ifinfo elem.ifindex
  src ← addr_to_sockaddr elem.ethtype elem.saddr
  dst ← addr_to_sockaddr elem.ethtype elem.daddr
  some (record {
    ifindex = if table == 0 then elem.ifindex else 0;
    ttl = elem.ttl;
    multihop = elem.multihop;
    table = table;
    my_disc = ntoh32 elem.packet.my_disc;
    src = src;
    dst = dst;
  })

module _ (h : HashSet) where
  unfoldable pub count_no_session : World h → World h
  count_no_session w = record w {
    bpf = record (w.bpf) { rx_no_unique_session = u64 (w.bpf.rx_no_unique_session + 1) };
  }

  abbrev pub report_discr_0 : World h → World h
  report_discr_0 w = record w { bpf = note w.bpf (send_error discr_0_failed) }

  unfoldable pub rb_handle_discr_0 : (ℕ → Option ℕ) → Env → World h → ElemDiscr0 → Option (World h)
  rb_handle_discr_0 ifinfo e w elem = elim (make_digest ifinfo elem) [
    | none ↦ some (report_discr_0 w)
    | some digest ↦ elim (match_session (map w.dsess (h.keys w.sessions)) digest) [
      | none ↦ some (report_discr_0 w)
      | some (nmatch, last) ↦
          if not (nmatch == 1)
          then some (count_no_session w)
          else (last >>= λ d. rb_packet h e w d.local.discr elem.packet elem.wire_len elem.ttl)
    ]
  ]
