-- ===== src/Base/Words.antt =====
-- Fixed-width unsigned arithmetic of C: every result is taken modulo 2 ^ w.
use Prim.Native.Nat.{ℕ, ◌%◌}

abbrev pub u32_mod : ℕ
u32_mod = 4294967296

abbrev pub u64_mod : ℕ
u64_mod = 18446744073709551616

abbrev pub uint32_max : ℕ
uint32_max = 4294967295

abbrev pub u8 : ℕ → ℕ
u8 n = n % 256

abbrev pub u16 : ℕ → ℕ
u16 n = n % 65536

abbrev pub u32 : ℕ → ℕ
u32 n = n % 4294967296

abbrev pub u64 : ℕ → ℕ
u64 n = n % 18446744073709551616
