-- ===== src/Bfdd/State.antt =====
-- src/bbdd-d.c, src/bbdd-bfdd.c: the daemon as bfdd's dataplane.
--
-- To the daemon there come the counters of messages that were wrong, what was written to bfdd, the
-- clients that wait for an echo, and what they were answered.
use bbdd.Base.{ℕ, Bool, Option, List, HashSet}
use bbdd.Control.State.{CError}
use bbdd.Control.Members.{Daemon, Failure}
use bbdd.Bfdd.Message.{Message, SessionStats}

pub record DpStats : Type 0 where
  pub wrong_version_number : ℕ
  pub sess_add_invalid_length : ℕ
  pub invalid_message_type : ℕ
  pub invalid_message : ℕ
  pub internal_error : ℕ
  pub no_session : ℕ
  pub buffer_error : ℕ

pub data DpError : Type 0 where
  wrong_version bad_type bad_length unknown_session no_stats peer_full : DpError
  bad_session : CError → DpError
  request_failed : Failure → DpError

-- A client that waits for an echo, and whether the echo was sent as the dataplane.
pub record EchoPeer : Type 0 where
  pub peer : ℕ
  pub is_dp : Bool

-- What a client is answered: the time at this end and at the other.
pub data EchoAnswer : Type 0 where
  echo_times : ℕ → ℕ → EchoAnswer
  echo_failed : EchoAnswer

-- The world around: whether the peer's buffer takes a message after those before, the counters of the
-- kernel program, the clock, and the choices of a session that is added.
pub record Line : Type 0 where
  pub takes : List Message → Message → Bool
  pub stats : ℕ → Option SessionStats
  pub now : ℕ
  pub room : Bool
  pub final_slot : ℕ
  pub periodic_slot : ℕ

module _ (h : HashSet) where
  pub record Bfdd : Type 0 where
    pub daemon : Daemon h
    pub dp : DpStats
    pub sent : List Message
    pub waiting : List EchoPeer
    pub answers : List (ℕ × EchoAnswer)

  abbrev pub Outcome : Type 0
  Outcome = Bfdd × Option DpError
