-- ===== src/Bpf.antt =====
-- src/bbdd-bpf.c: the userspace half of the dataplane. See the children for its parts.
pub mod State
pub mod Packet
pub mod Cksum
pub mod Inject
pub mod Update
pub mod Config
pub mod Receive
pub mod Frame
pub mod Invariant
pub mod Handlers
pub mod Safety
pub mod Timeouts
pub mod Rfc
pub mod Sending
pub mod Intervals
pub mod Checksum
pub mod Roundtrip
pub mod Receiving
pub mod PollSequence
pub mod Settle
pub mod Deferral
pub mod Directory
pub mod Members
pub mod Events
pub mod Reachable
pub mod Untouched
pub mod TxFrame
pub mod Dequeue
pub mod Drain
pub mod Drained
pub mod Discr0
pub mod Membership
pub mod Deletion
