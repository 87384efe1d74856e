-- ===== src/Examples.antt =====
-- Concrete inputs, and the theorems at them.
mod Lists
mod Timers
mod Inputs
mod Queue
mod Handlers
mod Polls
mod Machine
mod Numbers
mod Directory
mod Buffers
mod Program
mod Kept
mod Runs
mod Control
mod Bfdd
