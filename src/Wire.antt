-- ===== src/Wire.antt =====
-- src/bbdd-be.t: numbers in network byte order as types of their own, and the BFD control packet
-- (Packet, src/bbdd-prog-pkt.h). The host is little-endian, so `htobe32` swaps the bytes.
pub mod Swap
pub mod Packet
use bbdd.Base.{ℕ, ◌+◌, ◌*◌, ◌/◌, ◌%◌}

pub record Be16 : Type 0 where
  pub value : ℕ

pub record Be32 : Type 0 where
  pub value : ℕ

pub record Be64 : Type 0 where
  pub value : ℕ

unfoldable pub bswap16 : ℕ → ℕ
bswap16 v = v % 256 * 256 + v / 256 % 256

unfoldable pub bswap32 : ℕ → ℕ
unfolding bswap16
bswap32 v = bswap16 (v % 65536) * 65536 + bswap16 (v / 65536 % 65536)

unfoldable pub bswap64 : ℕ → ℕ
unfolding bswap32
bswap64 v = bswap32 (v % 4294967296) * 4294967296 + bswap32 (v / 4294967296 % 4294967296)

unfoldable pub hton16 : ℕ → Be16
unfolding bswap16
hton16 v = record { value = bswap16 v }

unfoldable pub hton32 : ℕ → Be32
unfolding bswap32
hton32 v = record { value = bswap32 v }

unfoldable pub hton64 : ℕ → Be64
unfolding bswap64
hton64 v = record { value = bswap64 v }

unfoldable pub ntoh16 : Be16 → ℕ
unfolding bswap16
ntoh16 b = bswap16 b.value

unfoldable pub ntoh32 : Be32 → ℕ
unfolding bswap32
ntoh32 b = bswap32 b.value

unfoldable pub ntoh64 : Be64 → ℕ
unfolding bswap64
ntoh64 b = bswap64 b.value

-- The raw value, with no conversion.
unfoldable pub n16v : Be16 → ℕ
n16v b = b.value

unfoldable pub n32v : Be32 → ℕ
n32v b = b.value

unfoldable pub n64v : Be64 → ℕ
n64v b = b.value
