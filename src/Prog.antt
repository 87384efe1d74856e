-- ===== src/Prog.antt =====
-- src/bbdd-prog.bpf.c: the BPF program that sends the packets of the sessions over and over, keeps
-- expected packets to itself, and runs the detection timers. The model is in State, Packet, Send,
-- Receive and Socket; the other children are about it.
pub mod State
pub mod Packet
pub mod Send
pub mod Receive
pub mod Socket
pub mod Release
pub mod Jitter
pub mod Absorb
pub mod Stuck
