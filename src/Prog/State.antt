-- ===== src/Prog/State.antt =====
-- src/bbdd-prog.bpf.c, src/bbdd-prog.h, src/bbdd-prog-stat.h: the maps and the counters of the BPF
-- program, packets as it sees them, and the helpers of the kernel.
--
-- What the program does is a log of effects, newest first; a counter is how often it was bumped.
use bbdd.Base.{ℕ, ◌+◌, Bool, true, false, Option, List, [], ◌∷◌}
use bbdd.Base.Words.{u64}
use bbdd.Wire.{Be16}
use bbdd.Wire.Packet.{BfdPkt}
use bbdd.Bpf.State.{FibLookup, SessionConfig}
use bbdd.Bpf.Discr0.{BpfAddr, ElemDiscr0}

-- The fields of struct bbdd_prog_global_diag_stats that the program bumps.
pub data GlobalStat : Type 0 where
  tx_no_session tx_not_bfd rx_not_bfd rx_no_session rx_wrong_version_number : GlobalStat
  rx_invalid_length rx_your_discr_0 ring_buffer_error sk_lookup_no_socket : GlobalStat
  sk_lookup_assign_error sk_released_count ra_not_bfd ra_no_session : GlobalStat

-- The fields of the two structures of a session's counters that the program bumps.
pub data SessStat : Type 0 where
  tx_dst_blackholed tx_dst_unreachable tx_dst_prohibited tx_indev_no_forwarding : SessStat
  tx_req_encap tx_no_neigh tx_no_neigh_final tx_req_fragmentation tx_no_src_addr : SessStat
  tx_not_forwarded tx_fail_lookup tx_fail_update tx_fail_redir tx_loopback_filter : SessStat
  tx_wrong_gen_id rx_admin_down rx_ttl_low rx_timeout ra_fail_timer : SessStat
  tx_packets rx_packets : SessStat

-- An IPv4 or an IPv6 header; `len` is `tot_len` or `payload_len`, `ttl` also the hop limit.
pub record IpHdr : Type 0 where
  pub protocol : ℕ
  pub len : Be16
  pub ttl : ℕ
  pub check : ℕ
  pub saddr : BpfAddr
  pub daddr : BpfAddr

pub record UdpHdr : Type 0 where
  pub source : Be16
  pub dest : Be16
  pub check : ℕ

-- struct __sk_buff. A header is `none` when the packet is too short for it, and `linear` is whether
-- a dynptr of the packet can be made.
pub record Skb : Type 0 where
  pub protocol : Be16
  pub mark : ℕ
  pub hash : ℕ
  pub len : ℕ
  pub ingress_ifindex : ℕ
  pub tstamp : ℕ
  pub linear : Bool
  pub h_source : ℕ
  pub h_dest : ℕ
  pub ip : Option IpHdr
  pub udp : Option UdpHdr
  pub bfd : Option BfdPkt

-- The elements of the ring buffer.
pub record ElemNoNeigh : Type 0 where
  pub ifindex : ℕ
  pub ethtype : ℕ
  pub addr : BpfAddr  -- of an IPv4 address only the first word is written, and the others are read as 0

pub record ElemUnxPkt : Type 0 where
  pub packet : BfdPkt
  pub wire_len : ℕ
  pub ttl : ℕ

pub data RbElem : Type 0 where
  elem_no_neigh : ElemNoNeigh → RbElem
  elem_discr_0 : ElemDiscr0 → RbElem
  elem_unx_pkt : ElemUnxPkt → RbElem
  elem_timeout : ℕ → RbElem

pub data Effect : Type 0 where
  bump : GlobalStat → Effect
  bump_sess : ℕ → SessStat → Effect
  add_tx_bytes add_rx_bytes : ℕ → ℕ → Effect
  submit : RbElem → Effect
  redirect clone_redirect : ℕ → Skb → Effect
  timer_start : ℕ → ℕ → Effect

-- The entries of the two maps by the discriminator. Of struct bbdd_prog_session_data the model has
-- `timer_initd`, the counters being in the log.
pub record Prog : Type 0 where
  pub veth_tx_ifindex : ℕ
  pub config : ℕ → Option SessionConfig
  pub timer_initd : ℕ → Option Bool
  pub log : List Effect

-- The answers of bpf_fib_lookup, a negative one first and one that the program does not name last.
pub data FibRet : Type 0 where
  lookup_error success blackhole unreachable prohibit fwd_disabled unsupp_lwt : FibRet
  no_neigh frag_needed no_src_addr not_fwded unnamed : FibRet

-- What bpf_fib_lookup leaves in its parameters.
pub record Route : Type 0 where
  pub ifindex : ℕ
  pub smac : ℕ
  pub dmac : ℕ
  pub src : BpfAddr
  pub dst : BpfAddr

pub data TimerRet : Type 0 where
  started busy failed : TimerRet

-- The writes into a packet, which can fail one by one.
pub data Write : Type 0 where
  eth_write ip_write l3_csum l4_csum_0 l4_csum_1 l4_csum_2 l4_csum_3 : Write

-- The helpers of the kernel, each by what it answers to the call that a run of the program makes.
pub record Kernel : Type 0 where
  pub fib_lookup : FibLookup → ℕ → FibRet × Route
  pub redirect_ok : ℕ → Bool
  pub clone_ok : ℕ → Bool
  pub reserve_ok : Bool
  pub write_ok : Write → Bool
  pub csum_replace : ℕ → ℕ → ℕ → ℕ
  pub prandom_u32 : ℕ
  pub ktime_ns : ℕ
  pub timer_init : TimerRet
  pub set_callback_ok : Bool
  pub timer_start_ok : Bool

abbrev pub emit : Prog → Effect → Prog
emit p e = record p { log = e ∷ p.log }

-- BBDD_NOTIFY_ELEM_INIT and bpf_ringbuf_submit
unfoldable pub notify : Kernel → Prog → RbElem → Prog
notify k p elem = elim k.reserve_ok [
  | true ↦ emit p (submit elem)
  | false ↦ emit p (bump ring_buffer_error)
]

-- How often `sk_released_count` was bumped, and so its value.
abbrev pub is_release : Effect → ℕ
is_release (bump sk_released_count) = 1
is_release _ = 0

abbrev pub releases : List Effect → ℕ
releases [] = 0
releases (e ∷ es) = is_release e + releases es

unfoldable pub released_count : Prog → ℕ
released_count p = u64 (releases p.log)
