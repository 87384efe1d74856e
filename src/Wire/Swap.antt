-- ===== src/Wire/Swap.antt =====
-- The conversions of src/bbdd-be.t in pairs.
use bbdd.Base.{ℕ, ◌<◌, ◌≡◌, refl, ◌+◌, ◌*◌, ◌/◌, ◌%◌, arith}
use bbdd.Wire.{bswap16, bswap32, bswap64, hton16, hton32, hton64, ntoh16, ntoh32, ntoh64}

swap16_swap : (v : ℕ) → v < 65536 → bswap16 (bswap16 v) ≡ v
unfolding bswap16
swap16_swap v h = omega arith

pub swap32_swap : (v : ℕ) → v < 4294967296 → bswap32 (bswap32 v) ≡ v
unfolding bswap32
swap32_swap v h = omega arith

pub swap32-lt : (v : ℕ) → bswap32 v < 4294967296
unfolding bswap32
swap32-lt v = omega arith

-- The two halves of a word change places, and each is swapped.
swap64_halves :
    (v : ℕ)
    → bswap64 v ≡ bswap32 (v % 4294967296) * 4294967296 + bswap32 (v / 4294967296 % 4294967296)
unfolding bswap64
swap64_halves v = refl

swap64_pair :
    (a b : ℕ)
    → a < 4294967296
    → b < 4294967296
    → bswap64 (a * 4294967296 + b) ≡ bswap32 b * 4294967296 + bswap32 a
swap64_pair a b h k =
    let low : (a * 4294967296 + b) % 4294967296 ≡ b = omega arith in
    let high : (a * 4294967296 + b) / 4294967296 % 4294967296 ≡ a = omega arith in
    rw swap64_halves (rw (low, high))

swap64_swap : (v : ℕ) → v < 18446744073709551616 → bswap64 (bswap64 v) ≡ v
swap64_swap v h = rw (swap64_halves v) (
    omega (
      arith,
      swap64_pair (bswap32 (v % 4294967296)) (bswap32 (v / 4294967296 % 4294967296))
          (swap32-lt (v % 4294967296)) (swap32-lt (v / 4294967296 % 4294967296)),
      swap32_swap (v % 4294967296) (omega arith),
      swap32_swap (v / 4294967296 % 4294967296) (omega arith),
    ))

-- A number of 16, 32 or 64 bits is read back from network order as it was written.
pub ntoh-hton :
    (v : ℕ)
    → (v < 65536 → ntoh16 (hton16 v) ≡ v)
      × (v < 4294967296 → ntoh32 (hton32 v) ≡ v)
      × (v < 18446744073709551616 → ntoh64 (hton64 v) ≡ v)
unfolding ntoh16 hton16 ntoh32 hton32 ntoh64 hton64
ntoh-hton v = (swap16_swap v, swap32_swap v, swap64_swap v)
