-- ===== src/Bpf/Checksum.antt =====
-- The Internet checksum of src/bbdd-bpf.c against RFC 1071.
use bbdd.Base.{ℕ, suc, ◌+◌, ◌-◌, ◌/◌, ◌%◌, ◌<◌, ◌≡◌, ◌≢◌, ◌↔◌, refl, arith}
use bbdd.Wire.{hton16, n16v}
use bbdd.Session.{SockAddr}
use bbdd.Bpf.Cksum.{cksum_acc, cksum_fold_loop, cksum_fold, inet_cksum, iphdr_bytes}

-- One round: the value modulo 65535 stays, and it falls while it has more than 16 bits.
fold_round : (s : ℕ) → (s % 65536 + s / 65536) % 65535 ≡ s % 65535
fold_round s = omega arith

fold_three :
    (s : ℕ)
    → s < 4294967296
    → let r = cksum_fold_loop 3 s in
      (r < 65536) × (r % 65535 ≡ s % 65535) × (r ≡ 0 → s ≡ 0) × (s ≡ 0 → r ≡ 0)
unfolding cksum_fold_loop
fold_three s h = ground (arith, fold_round s, fold_round (s % 65536 + s / 65536))

-- Three rounds of fuel are enough for a 32-bit sum: with more of them the result is the same, and it
-- has 16 bits, so that the loop has ended by its test.
pub fold_enough :
    (fuel s : ℕ)
    → s < 4294967296
    → (cksum_fold_loop (suc (suc (suc fuel))) s ≡ cksum_fold_loop 3 s)
      × (cksum_fold_loop 3 s < 65536)
unfolding cksum_fold_loop
fold_enough fuel s h = ground (arith, fold_three s h)

-- The checksum of a sum, added to that sum, makes it fold to zero.
cksum_fold_self : (s : ℕ) → s + 65536 < 4294967296 → cksum_fold (s + cksum_fold s) ≡ 0
unfolding cksum_fold
cksum_fold_self s h = ground (arith, fold_three s, fold_three (s + (65535 - cksum_fold_loop 3 s)))

-- The checksum is zero just for a sum that is a multiple of 65535 and not 0.
pub cksum_fold_zero : (s : ℕ) → s < 4294967296 → (cksum_fold s ≡ 0) ↔ ((s ≢ 0) × (s % 65535 ≡ 0))
unfolding cksum_fold
cksum_fold_zero s h = ground (arith, fold_three s)

-- The words of a header, with the checksum's word among them.
iphdr_sum : (tot_len ttl check : ℕ) (s d : SockAddr) → ℕ
iphdr_sum tot_len ttl check s d = cksum_acc 0 (iphdr_bytes tot_len ttl check s d)

iphdr_check :
    (tot_len ttl check : ℕ) (s d : SockAddr)
    → ttl < 256
    → check < 65536
    → (iphdr_sum tot_len ttl check s d ≡ iphdr_sum tot_len ttl 0 s d + check)
      × (iphdr_sum tot_len ttl 0 s d < 1000000)
unfolding iphdr_sum cksum_acc iphdr_bytes hton16 n16v
iphdr_check tot_len ttl check s d h k = omega arith

cksum_fold-lt : (s : ℕ) → cksum_fold s < 65536
unfolding cksum_fold
cksum_fold-lt s = omega arith

iphdr_cksum :
    (tot_len ttl check : ℕ) (s d : SockAddr)
    → inet_cksum (iphdr_bytes tot_len ttl check s d) ≡ cksum_fold (iphdr_sum tot_len ttl check s d)
unfolding inet_cksum iphdr_sum
iphdr_cksum tot_len ttl check s d = refl

-- The IPv4 header with its checksum in place sums up to zero, whatever its length, TTL and addresses.
pub inet_cksum-verifies :
    (tot_len ttl : ℕ) (s d : SockAddr)
    → ttl < 256
    → inet_cksum (iphdr_bytes tot_len ttl (inet_cksum (iphdr_bytes tot_len ttl 0 s d)) s d) ≡ 0
inet_cksum-verifies tot_len ttl s d h =
    let sum = iphdr_sum tot_len ttl 0 s d in
    let (placed, small) = iphdr_check tot_len ttl (cksum_fold sum) s d h (cksum_fold-lt sum) in
    rw (iphdr_cksum tot_len ttl 0 s d) (
      rw (iphdr_cksum tot_len ttl (cksum_fold sum) s d)
        (rw placed (cksum_fold_self sum (omega arith))))
