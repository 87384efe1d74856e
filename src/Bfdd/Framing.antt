-- ===== src/Bfdd/Framing.antt =====
-- src/bbdd-util.c: the stream from bfdd is cut into messages by the length in their headers. What is
-- called for each message is a parameter; `false` is an error of it.
use bbdd.Base.{
  ℕ, zero, suc, ◌+◌, ◌*◌, Bool, true, false, Option, none, some, List, ltb, if◌then◌else◌, ◌>>=◌,
}
use bbdd.Sb.{Sb, ok, overflow, alloc_failed, push_len, pull}
use bbdd.Sb.Content.Bytes.{bytes_of}

-- What there is at the front of the buffer: no whole message yet, a length below that of a header, or
-- a message of so many bytes.
pub data Front : Type 0 where
  incomplete too_short : Front
  whole : ℕ → Front

-- By the number of the bytes in the buffer, and the length that the header has.
unfoldable pub frame_of : ℕ → ℕ → Front
frame_of n msg_len =
    if ltb n 8
    then incomplete
    else if ltb msg_len 8
    then too_short
    else if ltb n msg_len
    then incomplete
    else whole msg_len

-- The length of the message at the front, in network order.
unfoldable pub header_length : Sb → ℕ
header_length sb = sb.buf (sb.off + 6) * 256 + sb.buf (sb.off + 7)

pub data RxRc : Type 0 where
  rx_ok rx_failed rx_no_room : RxRc

module _ {S : Type 0} (cb : S → List ℕ → S × Bool) where
  -- The loop; `none` when the fuel is out or the buffer has less than is pulled.
  unfoldable pub rx_loop : ℕ → S → Sb → Option (S × Sb × RxRc)
  rx_loop zero s sb = none
  rx_loop (suc n) s sb = elim (frame_of sb.len (header_length sb)) [
    | incomplete ↦ some (s, sb, rx_ok)
    | too_short ↦ some (s, sb, rx_failed)
    | whole len ↦
        let r = cb s (bytes_of sb.buf sb.off len) in
        pull sb len >>= λ sb'. elim r.1 [
          | true ↦ rx_loop n r.0 sb'
          | false ↦ some (r.0, sb', rx_failed)
        ]
  ]

  -- bbdd_util_ssk_bfddp_tkn_rx_cb
  unfoldable pub rx_cb : (ℕ → Bool) → S → Sb → List ℕ → Option (S × Sb × RxRc)
  rx_cb alloc s sb chunk = push_len alloc sb chunk >>= λ r. elim r [
    | ok sb' ↦ rx_loop (suc sb'.len) s sb'
    | overflow sb' ↦ some (s, sb', rx_no_room)
    | alloc_failed sb' ↦ some (s, sb', rx_no_room)
  ]
