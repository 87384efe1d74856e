-- ===== src/Bfdd/Send.antt =====
-- src/bbdd-bfdd.c: a request as the message that asks bfdd's dataplane for the session.
use bbdd.Base.{
  ℕ, ◌+◌, ◌/◌, Bool, true, false, not, Option, none, some, [], ◌==◌, if◌then◌else◌, ◌>>=◌,
}
use bbdd.Wire.{hton16, hton32}
use bbdd.Wire.Packet.{admindown}
use bbdd.Session.{DSession, SockAddr, af_inet, af_inet6}
use bbdd.Bpf.Discr0.{BpfAddr}
use bbdd.Control.State.{Str, CSession, Libs, no_ifindex, bad_address}
use bbdd.Control.Validate.{Checked, refused, fine, and_then}
use bbdd.Control.Apply.{no_addr, apply_c}
use bbdd.Control.Members.{no_flags}
use bbdd.Bfdd.Message.{
  Message, FCumulus, be32_0, no_in6, header_size, session_size, cumulus_size, dp_add_session,
}
use bbdd.Bfdd.Convert.{
  session_multihop, session_cbit, session_ipv6, session_passive, session_shutdown,
}

-- The session before the request is applied to it.
abbrev pub zero_dsess : DSession
zero_dsess = record {
  src = no_addr;
  dst = no_addr;
  name = [];
  hold_time_us = 0;
  ttl = 255;
  ifindex = 0;
  vrf_ifindex = 0;
  user_remote_discr = 0;
  vrf_table = 0;
  local = record {
    flags = no_flags;
    discr = 0;
    timing = record { detect_mult = 0; min_tx_us = 0; min_rx_us = 0 };
    end = record { state = admindown; diag = 0 };
  };
  remote = record {
    flags = no_flags;
    discr = 0;
    timing = record { detect_mult = 0; min_tx_us = 0; min_rx_us = 0 };
    end = record { state = admindown; diag = 0 };
  };
}

unfoldable pub session_d_from_c : Libs → CSession → Option (Checked DSession)
session_d_from_c l csess = apply_c l zero_dsess csess

unfoldable pub fill_netif : Libs → ℕ → Checked Str
fill_netif l ifindex =
    if ifindex == 0
    then fine []
    else elim (l.if_indextoname ifindex) [ none ↦ refused no_ifindex | some name ↦ fine name ]

-- The bytes of an address, over what the buffer had.
unfoldable pub addrbuf : BpfAddr → SockAddr → Checked BpfAddr
addrbuf buf sa =
    if sa.family == af_inet
    then fine (record buf { w0 = sa.w0 })
    else if sa.family == af_inet6
    then fine (record { w0 = sa.w0; w1 = sa.w1; w2 = sa.w2; w3 = sa.w3 })
    else refused bad_address

abbrev pub bit_if : Bool → ℕ → ℕ
bit_if true bit = bit
bit_if false bit = 0

unfoldable pub wire_flags : DSession → ℕ
wire_flags dsess =
    let f = dsess.local.flags in
    bit_if (dsess.dst.family == af_inet6) session_ipv6
    + bit_if f.multihop session_multihop
    + bit_if f.cpi session_cbit
    + bit_if f.passive session_passive
    + bit_if f.shutdown session_shutdown

-- The payload of `bbdd_bfdd_d_add_session`, and the length of its message.
unfoldable pub wire_session : DSession → BpfAddr → BpfAddr → Str → Str → FCumulus
wire_session dsess src dst vrfname ifname = record {
  session = record {
    flags = hton32 (wire_flags dsess);
    src = src;
    dst = dst;
    lid = hton32 dsess.local.discr;
    min_tx = hton32 dsess.local.timing.min_tx_us;
    min_rx = hton32 dsess.local.timing.min_rx_us;
    min_echo_tx = be32_0;
    min_echo_rx = be32_0;
    hold_time = hton32 (dsess.hold_time_us / 1000);
    ttl = dsess.ttl;
    detect_mult = dsess.local.timing.detect_mult;
    ifindex = hton32 dsess.ifindex;
    ifname = ifname;
  };
  vrf_id = hton32 dsess.vrf_table;
  vrfname = vrfname;
}

unfoldable pub wire_length : DSession → ℕ
wire_length dsess =
    if not (dsess.vrf_table == 0) then header_size + cumulus_size else header_size + session_size

unfoldable pub src_buf : SockAddr → Checked BpfAddr
src_buf src = if not (src.family == 0) then addrbuf no_in6 src else fine no_in6

-- The message, from the session that the request makes. `junk` is what the stack has where the
-- destination's bytes go.
unfoldable pub add_session_msg : Libs → BpfAddr → ℕ → DSession → Checked Message
add_session_msg l junk msg_id dsess = and_then (src_buf dsess.src) (λ src.
    and_then (addrbuf junk dsess.dst) (λ dst. and_then (fill_netif l dsess.vrf_ifindex) (λ vrfname.
      and_then (fill_netif l dsess.ifindex) (λ ifname. fine (record {
        version = 1;
        id = hton16 msg_id;
        length = hton16 (wire_length dsess);
        payload = dp_add_session (wire_session dsess src dst vrfname ifname);
      })))))

-- `bbdd_bfdd_d_add_session` up to the writing; `none` is the failed assertion.
unfoldable pub d_add_session : Libs → BpfAddr → ℕ → CSession → Option (Checked Message)
d_add_session l junk msg_id csess = session_d_from_c l csess >>= λ r. elim r [
  | refused x ↦ some (refused x)
  | fine dsess ↦ if dsess.dst.family == 0 then none else some (add_session_msg l junk msg_id dsess)
]
