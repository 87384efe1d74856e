-- ===== src/Examples/Control.antt =====
-- Requests to a daemon that has no session yet, and to one session.
use bbdd.Base.{ℕ, ◌≡◌, inr, refl, true, false, none, some, [], ◌∷◌, ◌==◌, if◌then◌else◌}
use bbdd.Wire.Packet.{down}
use bbdd.Session.{DSession, af_inet}
use bbdd.Control.State.{CSession, CNetif, CFlags, Libs}
use bbdd.Control.Validate.{
  fine, and_then, validate_vrf, validate_netif, session_to_c_vrf, index_of, name_of, check_table,
  check_pair, str_eq,
}
use bbdd.Control.Apply.{
  apply_c, apply_fields, apply_parsed, apply_c_addr, parse_addrstr, mandatory, changes_discr,
  new_dst_af, new_src_af, vrf_view, apply_flags,
}
use bbdd.Control.Select.{session_matches}
use bbdd.Control.Configured.{IsConfigured, IsKin, apply_c-IsConfigured}
use bbdd.Control.Matching.{IsPlain, apply_c-matches}
use bbdd.Control.Members.{Daemon, get_unique_discr, d_session_add}
use bbdd.Control.Sound.{IsSound, IsSoundAfter}
use bbdd.Control.Entering.{IsAtomic}
use bbdd.Control.Adding.{d_session_add-IsAtomic}
use bbdd.Control.Always.{
  add, handle_request, handle_request-IsSound, get_unique_discr-ends, there, here,
}
use bbdd.Examples.Lists.{list_hash}
use bbdd.Examples.Inputs.{willing, dsession}
use bbdd.Examples.Buffers.{all_free, all_free-IsBitmap}
use bbdd.Examples.Directory.{no_sessions}

-- One interface, with the name "v" and the index 4, which is a VRF. Addresses are one character.
abbrev pub toy : Libs
toy = record {
  if_indextoname = λ i. if i == 4 then some (118 ∷ []) else none;
  if_nametoindex = λ name. elim name [ [] ↦ 0 | c ∷ cs ↦ if c == 118 then 4 else 0 ];
  get_vrf_table = λ i. if i == 4 then some 10 else none;
  inet_pton = λ af name. elim name [
    | [] ↦ none
    | c ∷ cs ↦ some (record { w0 = c; w1 = 0; w2 = 0; w3 = 0 })
  ];
  inet_ntop = λ af a. some (a.w0 ∷ []);
}

abbrev unasked : CFlags
unasked = record { multihop = none; cpi = none; passive = none; shutdown = none }

abbrev no_netif : CNetif
no_netif = record { unset = false; name = none; ifindex = none }

-- A session to the address 33554442, through the VRF, with a multiplier of 5.
abbrev wish : CSession
wish = record {
  flags = unasked;
  discr = none;
  remote_discr = none;
  min_tx_us = none;
  min_rx_us = some 50000;
  hold_time_us = none;
  ttl = none;
  detect_mult = some 5;
  src = record { unset = false; str = []; af = 0 };
  dst = record { unset = false; str = 33554442 ∷ []; af = af_inet };
  netif = no_netif;
  vrf = record {
    netif = record no_netif { name = some (118 ∷ []); ifindex = some 4 };
    table = some 10;
  };
  name = record { unset = false; val = none };
}

abbrev pub idle : Daemon list_hash
idle = record { world = no_sessions; spa = all_free }

pub idle-IsSound : IsSound list_hash idle
idle-IsSound = record {
  bitmap = all_free-IsBitmap;
  mirrored = λ k. refl;
  sessions = λ k h. cc;
  distinct = λ j k hj hk e. cc;
}

handle_request-IsSound_example :
    IsSoundAfter list_hash
      (handle_request list_hash toy willing idle (add true (9 ∷ []) wish 100 101))
handle_request-IsSound_example =
    handle_request-IsSound list_hash toy willing idle (add true (9 ∷ []) wish 100 101) idle-IsSound
      (refl, here 9 [] (inr refl))

d_session_add-IsAtomic_example :
    IsAtomic list_hash idle 9
      (d_session_add list_hash toy willing true idle (record wish { discr = some 9 }) 100 101)
d_session_add-IsAtomic_example =
    d_session_add-IsAtomic list_hash toy willing true idle (record wish { discr = some 9 }) 100 101
      all_free-IsBitmap refl refl refl

-- What the session of the fixtures becomes.
abbrev changed : DSession
changed = apply_fields (dsession down down) wish none (some (dsession down down).dst)

wish_granted : apply_c toy (dsession down down) wish ≡ some (fine changed)
unfolding apply_c apply_fields apply_parsed apply_c_addr parse_addrstr mandatory changes_discr
    new_dst_af new_src_af vrf_view apply_flags and_then validate_vrf validate_netif session_to_c_vrf
    index_of name_of check_table check_pair str_eq
wish_granted = refl

apply_c-IsConfigured_example : IsConfigured changed × IsKin (dsession down down) changed
apply_c-IsConfigured_example =
    apply_c-IsConfigured toy (dsession down down) wish changed wish_granted

wish-IsPlain : IsPlain wish
wish-IsPlain = record { src = λ u. refl; netif = λ u. refl; vrf = λ u. cc; name = λ u. refl }

apply_c-matches_example : session_matches toy wish changed ≡ fine true
apply_c-matches_example =
    apply_c-matches toy (dsession down down) wish changed wish-IsPlain wish_granted

get_unique_discr-ends_example :
    (discr : ℕ) × (get_unique_discr (λ k. k == 5) (5 ∷ 7 ∷ []) ≡ some discr)
    × ((discr == 5) ≡ false)
get_unique_discr-ends_example =
    get_unique_discr-ends (λ k. k == 5) (5 ∷ 7 ∷ []) refl (there 5 (7 ∷ []) (here 7 [] (inr refl)))
