-- ===== src/Daemon.antt =====
-- src/bbdd-d.c: the daemon's own bookkeeping. See the children for its parts.
pub mod Match
pub mod Sport
pub mod Ports
pub mod Matching
