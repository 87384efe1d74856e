-- ===== src/Bpf/Cksum.antt =====
-- src/bbdd-bpf.c: the Internet checksum (RFC 1071) over bytes, as a little-endian host reads them,
-- and the headers that it is taken over.
use bbdd.Base.{ℕ, zero, suc, ◌+◌, ◌-◌, ◌*◌, ◌/◌, ◌%◌, List, [], ◌∷◌, ◌++◌, ◌==◌, if◌then◌else◌}
use bbdd.Base.Words.{u16, u32}
use bbdd.Wire.{Be16, hton16, hton32, n16v, n32v}
use bbdd.Wire.Packet.{BfdPkt}
use bbdd.Session.{SockAddr}

-- The words of two bytes are added up, and a last odd byte.
unfoldable pub cksum_acc : ℕ → List ℕ → ℕ
cksum_acc sum [] = sum
cksum_acc sum (b ∷ []) = u32 (sum + b)
cksum_acc sum (b ∷ c ∷ bs) = cksum_acc (u32 (sum + (b + c * 256))) bs

-- `while (sum >> 16) ...`, with fuel.
unfoldable pub cksum_fold_loop : ℕ → ℕ → ℕ
cksum_fold_loop zero sum = sum
cksum_fold_loop (suc fuel) sum =
    let rest = cksum_fold_loop fuel (sum % 65536 + sum / 65536) in
    if sum / 65536 == 0 then sum else rest

-- `~(uint16_t)sum` as a uint16_t
unfoldable pub cksum_fold : ℕ → ℕ
cksum_fold sum = 65535 - u16 (cksum_fold_loop 3 sum)

unfoldable pub inet_cksum : List ℕ → ℕ
inet_cksum buf = cksum_fold (cksum_acc 0 buf)

-- The bytes of a value in memory.
abbrev pub bytes16 : ℕ → List ℕ
bytes16 v = v % 256 ∷ v / 256 % 256 ∷ []

abbrev pub bytes32 : ℕ → List ℕ
bytes32 v = v % 256 ∷ v / 256 % 256 ∷ v / 65536 % 256 ∷ v / 16777216 % 256 ∷ []

unfoldable pub bfd_bytes : BfdPkt → List ℕ
bfd_bytes p =
    p.version_diag
    ∷ p.state_bits
    ∷ p.detection_multiplier
    ∷ p.length
    ∷ (bytes32 (n32v p.my_disc)
        ++ (bytes32 (n32v p.your_disc)
            ++ (bytes32 (n32v p.desired_tx)
                ++ (bytes32 (n32v p.required_rx) ++ bytes32 (n32v p.required_echo_rx)))))

-- struct iphdr as `bbdd_bpf_session_inject_pkt` fills it, with the check field given.
unfoldable pub iphdr_bytes : ℕ → ℕ → ℕ → SockAddr → SockAddr → List ℕ
iphdr_bytes tot_len ttl check saddr daddr =
    0x45
    ∷ 0
    ∷ (bytes16 (n16v (hton16 tot_len))
        ++ (0 ∷ 0 ∷ 0 ∷ 0 ∷ ttl ∷ 17 ∷ (bytes16 check ++ (bytes32 saddr.w0 ++ bytes32 daddr.w0))))

abbrev pub addr6_bytes : SockAddr → List ℕ
addr6_bytes a = bytes32 a.w0 ++ (bytes32 a.w1 ++ (bytes32 a.w2 ++ bytes32 a.w3))

-- The pseudo header of UDP over IPv6.
unfoldable pub pseudo_bytes : SockAddr → SockAddr → ℕ → List ℕ
pseudo_bytes src dst udp_len =
    addr6_bytes src
    ++ (addr6_bytes dst ++ (bytes32 (n32v (hton32 udp_len)) ++ (0 ∷ 0 ∷ 0 ∷ 17 ∷ [])))

-- The UDP header and its payload, with the check field given.
unfoldable pub udp_bytes : Be16 → Be16 → ℕ → ℕ → BfdPkt → List ℕ
udp_bytes source dest udp_len check bfd =
    bytes16 (n16v source)
    ++ (bytes16 (n16v dest)
        ++ (bytes16 (n16v (hton16 udp_len)) ++ (bytes16 check ++ bfd_bytes bfd)))

unfoldable pub udp6_cksum : SockAddr → SockAddr → List ℕ → ℕ → ℕ
udp6_cksum src dst udp udp_len =
    cksum_fold (cksum_acc (cksum_acc 0 (pseudo_bytes src dst udp_len)) udp)
