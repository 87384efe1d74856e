-- ===== src/Examples/Bfdd.antt =====
-- Messages of bfdd, to a daemon that has no session yet, and the stream that they come in.
use bbdd.Base.{
  ℕ, ◌+◌, ◌≡◌, inr, refl, Bool, true, Option, none, some, List, [], ◌∷◌, ◌++◌, arith, ◌>>=◌,
}
use bbdd.Wire.{hton16, ntoh16}
use bbdd.Wire.Packet.{down}
use bbdd.Session.{DSession}
use bbdd.Sb.{Sb, ok, write_tail, push_len, get_buffer, free_tail, end, compact}
use bbdd.Sb.Content.Push.{IsValid}
use bbdd.Bpf.Discr0.{BpfAddr}
use bbdd.Control.State.{CSession, Libs}
use bbdd.Control.Validate.{fine, and_then}
use bbdd.Control.Apply.{apply_c}
use bbdd.Bfdd.Message.{Message, FCumulus, dp_add_session}
use bbdd.Bfdd.Convert.{session_msg_to_c}
use bbdd.Bfdd.Send.{add_session_msg, wire_session, wire_length, src_buf, addrbuf, fill_netif}
use bbdd.Bfdd.State.{Bfdd, Line}
use bbdd.Bfdd.Requests.{dispatch_message}
use bbdd.Bfdd.Serving.{StaysSound, dispatch_message-IsSound}
use bbdd.Bfdd.Wire.{IsInet, IsSendable}
use bbdd.Bfdd.Arriving.{IsCarried}
use bbdd.Bfdd.Carried.{add_session_msg-IsCarried}
use bbdd.Bfdd.Framing.{RxRc, rx_ok, rx_cb, rx_loop, frame_of, header_length}
use bbdd.Bfdd.Stream.{stream}
use bbdd.Bfdd.Framed.{IsCut, rx_cb-IsCut, rx_cb-chunks}
use bbdd.Examples.Lists.{list_hash}
use bbdd.Examples.Inputs.{willing, dsession}
use bbdd.Examples.Control.{toy, idle, idle-IsSound}

-- Addresses are printed as their words.
abbrev read_words : List ℕ → Option BpfAddr
read_words (a ∷ b ∷ c ∷ d ∷ []) = some (record { w0 = a; w1 = b; w2 = c; w3 = d })
read_words s = none

abbrev words : Libs
words = record toy {
  inet_ntop = λ af a. some (a.w0 ∷ a.w1 ∷ a.w2 ∷ a.w3 ∷ []);
  inet_pton = λ af s. read_words s;
}

words-IsInet : IsInet words
words-IsInet = record {
  prints = λ v6 a.
      (a.w0 ∷ a.w1 ∷ a.w2 ∷ a.w3 ∷ [], a, refl, omega arith, refl, refl, λ q. (refl, refl, refl));
}

abbrev junk : BpfAddr
junk = record { w0 = 1; w1 = 2; w2 = 3; w3 = 4 }

session-IsSendable : IsSendable (dsession down down)
session-IsSendable = record {
  discr = omega arith;
  discr_set = λ q. ground (arith, q);
  min_tx = omega arith;
  min_rx = omega arith;
  hold_time = omega arith;
  ifindex = omega arith;
  vrf_table = omega arith;
  src_family = inr refl;
  src_set = λ q. refl;
}

-- The message for the session of the fixtures.
abbrev wanted : Message
wanted = record {
  version = 1;
  id = hton16 5;
  length = hton16 (wire_length (dsession down down));
  payload = dp_add_session (
      wire_session (dsession down down) (record { w0 = 16777226; w1 = 0; w2 = 0; w3 = 0 })
        (record junk { w0 = 33554442 }) [] []);
}

wanted_made : add_session_msg words junk 5 (dsession down down) ≡ fine wanted
unfolding add_session_msg src_buf addrbuf fill_netif and_then
wanted_made = refl

add_session_msg-IsCarried_example :
    (m : FCumulus) × (c : CSession) × (wanted.payload ≡ dp_add_session m)
    × (session_msg_to_c words (ntoh16 wanted.length) m ≡ fine c)
    × ((old d' : DSession)
        → apply_c words old c ≡ some (fine d')
        → IsCarried (dsession down down) d')
add_session_msg-IsCarried_example =
    add_session_msg-IsCarried words junk 5 (dsession down down) wanted words-IsInet
      session-IsSendable wanted_made

abbrev line : Line
line = record {
  takes = λ sent msg. true;
  stats = λ discr. none;
  now = 7;
  room = true;
  final_slot = 100;
  periodic_slot = 101;
}

abbrev bfdd : Bfdd list_hash
bfdd = record {
  daemon = idle;
  dp = record {
    wrong_version_number = 0;
    sess_add_invalid_length = 0;
    invalid_message_type = 0;
    invalid_message = 0;
    internal_error = 0;
    no_session = 0;
    buffer_error = 0;
  };
  sent = [];
  waiting = [];
  answers = [];
}

dispatch_message-IsSound_example :
    StaysSound list_hash
      (dispatch_message list_hash words willing line bfdd wanted >>= λ r. some r.0)
dispatch_message-IsSound_example =
    dispatch_message-IsSound list_hash words willing line bfdd wanted idle-IsSound

-- A buffer with room, and the parts of a message that is only a header.
abbrev roomy : Sb
roomy = record { has_buf = true; buf = λ i. 0; off = 0; len = 0; size = 100; maxsize = 0 }

roomy-IsValid : IsValid roomy
roomy-IsValid = record { fits = omega arith; empty = λ q. cc; limited = λ q. absurd (q refl) }

abbrev part_a : List ℕ
part_a = 1 ∷ 0 ∷ 0 ∷ 0 ∷ 0 ∷ []

abbrev part_b : List ℕ
part_b = 1 ∷ 0 ∷ 8 ∷ 9 ∷ []

abbrev count_one : ℕ → List ℕ → ℕ × Bool
count_one n msg = (n + 1, true)

abbrev all_given : ℕ → Bool
all_given n = true

pushed_a : push_len all_given roomy part_a ≡ some (ok (write_tail roomy part_a))
unfolding push_len get_buffer free_tail end compact
pushed_a = refl

pushed_b :
    push_len all_given (write_tail roomy part_a) part_b
    ≡ some (ok (write_tail (write_tail roomy part_a) part_b))
unfolding push_len get_buffer free_tail end compact write_tail
pushed_b = refl

pushed_both :
    push_len all_given roomy (part_a ++ part_b) ≡ some (ok (write_tail roomy (part_a ++ part_b)))
unfolding push_len get_buffer free_tail end compact
pushed_both = refl

waits : rx_cb count_one all_given 0 roomy part_a ≡ some (0, write_tail roomy part_a, rx_ok)
unfolding rx_cb rx_loop push_len get_buffer free_tail end compact write_tail frame_of header_length
waits = refl

rx_cb-IsCut_example :
    IsCut count_one
      (rx_cb count_one all_given 0 roomy (part_a ++ part_b))
      (stream count_one 0 ([] ++ (part_a ++ part_b)))
rx_cb-IsCut_example =
    rx_cb-IsCut count_one all_given 0 roomy (write_tail roomy (part_a ++ part_b)) (part_a ++ part_b)
      roomy-IsValid (omega arith) pushed_both

rx_cb-chunks_example :
    (r : ℕ × List ℕ × RxRc) × IsCut count_one
      (rx_cb count_one all_given 0 (write_tail roomy part_a) part_b)
      r
    × IsCut count_one (rx_cb count_one all_given 0 roomy (part_a ++ part_b)) r
unfolding write_tail
rx_cb-chunks_example =
    rx_cb-chunks count_one all_given 0 0 roomy (write_tail roomy part_a) (write_tail roomy part_a)
      (write_tail (write_tail roomy part_a) part_b) (write_tail roomy (part_a ++ part_b)) part_a
      part_b roomy-IsValid (omega arith) (omega arith) pushed_a waits pushed_b pushed_both
