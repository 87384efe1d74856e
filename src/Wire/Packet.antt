-- ===== src/Wire/Packet.antt =====
-- src/bbdd-prog-pkt.h: the BFD control packet and the fields of its first two bytes.
use bbdd.Base.{ℕ, ◌/◌, ◌%◌, Bool, ◌==◌, if◌then◌else◌}
use bbdd.Wire.{Be32}

pub record BfdPkt : Type 0 where
  pub version_diag : ℕ
  pub state_bits : ℕ
  pub detection_multiplier : ℕ
  pub length : ℕ
  pub my_disc : Be32
  pub your_disc : Be32
  pub desired_tx : Be32
  pub required_rx : Be32
  pub required_echo_rx : Be32

-- sizeof(struct bbdd_bfd_pkt): four bytes and five words.
abbrev pub sizeof_bfd_pkt : ℕ
sizeof_bfd_pkt = 24

pub data PktState : Type 0 where
  admindown down init up : PktState

pub PktState-discrete : Discrete PktState
PktState-discrete = hlevel

abbrev pub state_num : PktState → ℕ
state_num admindown = 0
state_num down = 1
state_num init = 2
state_num up = 3

-- The enum from a number of two bits.
abbrev pub state_of_num : ℕ → PktState
state_of_num n = if n == 0 then admindown else if n == 1 then down else if n == 2 then init else up

abbrev pub state_eq : PktState → PktState → Bool
state_eq a b = state_num a == state_num b

-- enum bbdd_bfd_pkt_diag is stored from five bits of the packet, so it is a number.
abbrev pub diag_nothing : ℕ
diag_nothing = 0

abbrev pub diag_time_expired : ℕ
diag_time_expired = 1

abbrev pub diag_down : ℕ
diag_down = 3

abbrev pub diag_admin_down : ℕ
diag_admin_down = 7

-- The bits, by their numbers, as masks.
abbrev pub bit_cpi : ℕ
bit_cpi = 8

abbrev pub bit_final : ℕ
bit_final = 16

abbrev pub bit_poll : ℕ
bit_poll = 32

-- `bits & (1 << k)`
abbrev pub has_multi : ℕ → Bool
has_multi bits = bits % 2 == 1

abbrev pub has_demand : ℕ → Bool
has_demand bits = bits / 2 % 2 == 1

abbrev pub has_auth : ℕ → Bool
has_auth bits = bits / 4 % 2 == 1

abbrev pub has_cpi : ℕ → Bool
has_cpi bits = bits / 8 % 2 == 1

abbrev pub has_final : ℕ → Bool
has_final bits = bits / 16 % 2 == 1

abbrev pub has_poll : ℕ → Bool
has_poll bits = bits / 32 % 2 == 1

unfoldable pub bfd_pkt_version : BfdPkt → ℕ
bfd_pkt_version p = p.version_diag / 32

unfoldable pub bfd_pkt_diag : BfdPkt → ℕ
bfd_pkt_diag p = p.version_diag % 32

unfoldable pub bfd_pkt_state : BfdPkt → PktState
bfd_pkt_state p = state_of_num (p.state_bits / 64)

unfoldable pub bfd_pkt_bits : BfdPkt → ℕ
bfd_pkt_bits p = p.state_bits % 64
