-- ===== src/Prog/Socket.antt =====
-- src/bbdd-prog.bpf.c: which of the daemon's sockets takes a UDP packet.
use bbdd.Base.{ℕ, Bool, not, ◌&&◌, Option, none, some, ◌==◌, if◌then◌else◌}
use bbdd.Session.{af_inet, af_inet6}
use bbdd.Bpf.Update.{ip_proto_udp}
use bbdd.Prog.State.{Prog, bump, sk_lookup_no_socket, sk_lookup_assign_error, emit}
use bbdd.Prog.Packet.{bfd_single_hop_port, bfd_multi_hop_port}

-- The receiving sockets, BBDD_PROG_RECV_SOCKETS.
pub data RecvSock : Type 0 where
  ipv4_shop ipv6_shop ipv4_mhop ipv6_mhop : RecvSock

pub data SkVerdict : Type 0 where
  sk_pass sk_drop : SkVerdict

unfoldable pub recv_sock : ℕ → ℕ → Option RecvSock
recv_sock family port =
    if family == af_inet && port == bfd_single_hop_port
    then some ipv4_shop
    else if family == af_inet6 && port == bfd_single_hop_port
    then some ipv6_shop
    else if family == af_inet && port == bfd_multi_hop_port
    then some ipv4_mhop
    else if family == af_inet6 && port == bfd_multi_hop_port
    then some ipv6_mhop
    else none

-- `sock_map` has the sockets that the daemon has put in, and `assign_ok` is what bpf_sk_assign
-- answers. The result has the socket that the packet was assigned to.
unfoldable pub sk_lookup :
    (RecvSock → Bool) → Bool → Prog → ℕ → ℕ → ℕ → Prog × SkVerdict × Option RecvSock
sk_lookup sock_map assign_ok p protocol family local_port =
    if not (protocol == ip_proto_udp)
    then (p, sk_pass, none)
    else elim (recv_sock family local_port) [
      | none ↦ (p, sk_pass, none)
      | some idx ↦
          if not (sock_map idx)
          then (emit p (bump sk_lookup_no_socket), sk_pass, none)
          else if assign_ok
          then (p, sk_pass, some idx)
          else (emit p (bump sk_lookup_assign_error), sk_drop, none)
    ]
