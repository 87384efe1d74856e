-- ===== src/Lib.antt =====
-- bbdd: a BFD (RFC 5880) dataplane daemon on Linux BPF.
--
-- The daemon keeps BFD sessions for a control plane. Its userspace half (src/bbdd-bpf.c) makes the
-- packets, runs the state machine and the poll sequence, and tells a BPF program by a map what to
-- send and what to expect. The program keeps expected packets to itself and hands on the others,
-- and timeouts, through a ring buffer. Packets go out over one raw socket with room for so many,
-- and those that find no room wait in the queue of src/bbdd-tx.c, which is drained when the socket
-- is writable.
--
-- Files and code:
--   Base      names shared by all files, arithmetic of fixed width, lists, and the interfaces for
--             utlist.h (Base.Counts.DlList, Base.Inorder.InorderDl) and uthash.h
--             (Base.Hash.HashSet), by their documentation.
--   Wire      src/bbdd-be.t, and in Wire.Packet src/bbdd-prog-pkt.h: `bbdd_hton32` is `hton32`, and
--             so on. Wire.Swap is about the conversions.
--   Tx        src/bbdd-tx.c: `bbdd_tx_enqueue` is `enqueue`, and so on. Tx.Invariant, Tx.Order.
--   Session   the structures of src/bbdd-d.h, src/bbdd-sess.h and src/bbdd-sock.h.
--   Bpf       src/bbdd-bpf.c. State has the structures and the log of calls; Packet
--             `bbdd_bpf_make_packet`, `bbdd_bpf_parse_packet` and the flags; Cksum the checksums;
--             Inject `bbdd_bpf_session_inject_pkt` and POLLOUT; Update `__bbdd_bpf_session_update`;
--             Config `bbdd_bpf_handle_session_update`, shwait and hold; Receive
--             `bbdd_bpf_handle_packet`, `bbdd_bpf_rb_handle_timeout` and the timers' callbacks;
--             Directory the lookup, the capacity and `bbdd_bpf_tx_drain`; Members
--             `bbdd_bpf_session_add` and `_del`; Events `bbdd_bpf_session_update` and the events;
--             Discr0 `bbdd_bpf_rb_handle_discr_0`; Reachable puts the handlers of a session
--             together. The other children are about these.
--   Prog      src/bbdd-prog.bpf.c: `bbdd_xmit_veth_tx` is `xmit_veth_tx` in Send, `bbdd_recv` is
--             `recv` in Receive, `bbdd_sk_lookup` is in Socket; State has the maps, the log of
--             effects, and the helpers of the kernel as a record. Release, Jitter, Absorb and Stuck
--             are about these and what they make with the daemon.
--   Daemon    src/bbdd-d.c: Match is `bbdd_d_match_session` with `bbdd_sockaddr_eq` of src/bbdd-
--             sock.c, Sport the allocator of source ports; Matching and Ports are about these.
--   Control   src/bbdd-d.c: State has `struct bbdd_c_session` of src/bbdd-c.h; Validate the checks
--             of interfaces and VRFs; Apply `bbdd_d_session_apply_c`; Select
--             `bbdd_d_select_sessions`; Members `bbdd_d_session_add` as `d_session_add`,
--             `bbdd_d_handle_session_add` and `_del_one`, with src/bbdd-sess.c; Requests
--             `bbdd_d_handle_session_set` and `_del`. They call Bpf and Sport. The other children
--             are about these.
--   Bfdd      src/bbdd-bfdd.c: Message has the messages of src/bfddp_packet.h and the check of their
--             length; Convert `bbdd_bfdd_session_to_c`; Send `bbdd_bfdd_d_add_session`; Requests the
--             handlers of src/bbdd-d.c, `__bbdd_d_bfdd_message_cb` as `message_cb`, which call
--             Control; Framing `bbdd_util_ssk_bfddp_tkn_rx_cb` of src/bbdd-util.c over Sb. Stream is
--             what the stream of bytes means; the other children are about these.
--   Sb        src/bbdd-sb.c: `bbdd_sb_push_len` is `push_len`, and so on. Sb.Growth, Sb.Content.
--   Timer     src/bbdd-timer.c: `bbdd_timer_set` is `timer_set`, `bbdd_timers_fd_cb` is `fd_cb` with
--             its two passes `walk` and `sweep`. The children are about these.
--   Examples  concrete inputs.
--
-- State and errors. A handler takes the state and returns it in an Option: `none` is `abort()`, a
-- failed assertion, or a read through a null pointer. The `int` of a fallible function is an `Rc`,
-- its message a constructor of `Error`. A call of the kernel, the allocator, the timers or the
-- daemon is written to `log` with its outcome, which `Env.accepts` gives as a function of the log
-- so far, and those of libc and netlink are `Control.State.Libs`; so every pattern of failures is
-- covered. `Env.released` is the counter of packets that the kernel has let go of. A session of the
-- daemon and one of the dataplane are two records; slots live in a store by their address, and the
-- directories in stores by the discriminator.
--
-- Numbers are native, with the wrap-around of `uint32_t` and `uint64_t` written out. Flags that are
-- different bits are added; a packet's flags are joined by `bit_or`. memcmp of two ends is the
-- comparison of their fields, since copies carry the padding along. The host is little-endian.
--
-- Fuel. `cksum_fold_loop` has three rounds, as many as a 32-bit sum can need. `grow` has 65, which
-- takes the smallest size beyond 2 ^ 63. `drain_loop` has one round for each packet and one more,
-- `walk` and `sweep` one for each timer and one more. `get_unique_discr` runs over the numbers that
-- are drawn, and ends on the first that is not in use. `rx_loop` has as much fuel as the buffer has
-- bytes, and one more; each message has eight at least.
--
-- Not modelled: the dissection and the making of JSON objects, debug messages and statistics, the
-- set-up through libbpf, netlink, the bridge, the command line, and the connections. A union is a
-- data type whose constructor the type in the header names. The handlers of Bpf take a timer as a
-- call in the log; a session's `shwait` is the pointer, and `lost` counts the shwaits whose pointer
-- was overwritten while their timer was set.
pub mod Base
pub mod Wire
pub mod Tx
pub mod Session
pub mod Bpf
pub mod Prog
pub mod Daemon
pub mod Control
pub mod Bfdd
pub mod Sb
pub mod Timer
pub mod Examples
