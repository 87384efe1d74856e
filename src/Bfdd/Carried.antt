-- ===== src/Bfdd/Carried.antt =====
-- The message that adds a session, all the way to the session of the dataplane that reads it.
use bbdd.Base.{
  ℕ, ◌/◌, ◌≡◌, ◌⊎◌, inl, inr, refl, sym, ap, ◌∙◌, false, some, Option, [], ◌==◌, ltb, arith,
  Bool-cases, if◌then◌else◌,
}
use bbdd.Wire.{hton16, ntoh16, hton32, ntoh32}
use bbdd.Wire.Swap.{ntoh-hton}
use bbdd.Session.{DSession, SockAddr, af_inet6}
use bbdd.Bpf.Discr0.{BpfAddr}
use bbdd.Control.State.{Str, CAddr, CSession, Libs}
use bbdd.Control.Validate.{fine, and_then}
use bbdd.Control.Apply.{apply_c_addr, apply_c, apply_fields, apply_flags, given}
use bbdd.Control.Applied.{apply_c-Applied}
use bbdd.Bfdd.Message.{Message, FCumulus, dp_add_session, be32_0}
use bbdd.Bfdd.Convert.{
  has_bit, wire_af, src_to_c, session_to_c_addr, convert, session_to_c, hold_time_max,
  session_msg_to_c, netif_to_c, vrf_to_c, session_echo, session_ipv6, session_demand,
}
use bbdd.Bfdd.Send.{wire_flags, wire_session, wire_length, add_session_msg}
use bbdd.Bfdd.Wire.{IsSendable, IsInet, add_session_msg-Sent, arrived, filled-arrived, flags_sum}
use bbdd.Bfdd.Arriving.{SameAddr, IsCarried, copied_arrives, src_arrives, addr-IsRead}

flags_read :
    (d : DSession)
    → (ntoh32 (hton32 (wire_flags d)) ≡ wire_flags d)
      × (has_bit (wire_flags d) session_ipv6 ≡ (d.dst.family == af_inet6))
      × (has_bit (wire_flags d) session_echo ≡ false)
      × (has_bit (wire_flags d) session_demand ≡ false)
unfolding wire_flags
flags_read d =
    let f = d.local.flags in
    let (n, v, m, c, p, sh, e, dm) =
      flags_sum (d.dst.family == af_inet6) f.multihop f.cpi f.passive f.shutdown in
    ((ntoh-hton (wire_flags d)).1 n, v, e, dm)

session_to_c-arrived :
    (l : Libs) (d : DSession) (src dst : BpfAddr) (csrc cdst : CAddr) (vn ifn : Str)
    → IsSendable d
    → src_to_c l (d.dst.family == af_inet6) (wire_af (d.dst.family == af_inet6)) src ≡ fine csrc
    → session_to_c_addr l dst (wire_af (d.dst.family == af_inet6)) ≡ fine cdst
    → session_to_c l (wire_session d src dst vn ifn) ≡ fine (arrived d csrc cdst vn ifn)
unfolding session_to_c convert and_then wire_session ntoh32 netif_to_c vrf_to_c
session_to_c-arrived l d src dst csrc cdst vn ifn s src_q dst_q =
    let (n, v, e, dm) = flags_read d in
    let hold = s.hold_time in
    let kept : ntoh32 (hton32 (d.hold_time_us / 1000)) ≡ d.hold_time_us / 1000 =
      (ntoh-hton (d.hold_time_us / 1000)).1 (omega (arith, hold)) in
    let fits : ltb hold_time_max (d.hold_time_us / 1000) ≡ false = ground (arith, hold) in
    rw (n, v, e, dm, src_q, dst_q, kept, fits, wire_session)
      (ap fine (filled-arrived d src dst csrc cdst vn ifn s))

session_msg-arrived :
    (l : Libs) (d : DSession) (src dst : BpfAddr) (csrc cdst : CAddr) (vn ifn : Str)
    → IsSendable d
    → src_to_c l (d.dst.family == af_inet6) (wire_af (d.dst.family == af_inet6)) src ≡ fine csrc
    → session_to_c_addr l dst (wire_af (d.dst.family == af_inet6)) ≡ fine cdst
    → (name : Str) × (session_msg_to_c l
          (ntoh16 (hton16 (wire_length d)))
          (wire_session d src dst vn ifn)
        ≡ fine (arrived d csrc cdst name ifn))
unfolding session_msg_to_c wire_length wire_session ntoh16 hton16 hton32
session_msg-arrived l d src dst csrc cdst vn ifn s src_q dst_q =
    elim (Bool-cases (d.vrf_table == 0)) [
      | inl z ↦
          let zero : d.vrf_table ≡ 0 = ground arith in
          let same : be32_0 ≡ hton32 d.vrf_table = ap hton32 (sym zero) in
          let session = (wire_session d src dst [] ifn).session in
          (
            [],
            rw z (
                ap (λ v. session_to_c l (record { session = session; vrf_id = v; vrfname = [] }))
                  same
                ∙ session_to_c-arrived l d src dst csrc cdst [] ifn s src_q dst_q),
          )
      | inr nz ↦ (vn, rw nz (session_to_c-arrived l d src dst csrc cdst vn ifn s src_q dst_q))
    ]

netif_given :
    (n old : ℕ) (name : Str)
    → (if (netif_to_c n name).unset then 0 else given (netif_to_c n name).ifindex old) ≡ n
unfolding netif_to_c
netif_given n old name = elim (Bool-cases (n == 0)) [
  | inl z ↦ rw z (ground (arith, z))
  | inr nz ↦ rw nz refl
]

vrf_given :
    (n old : ℕ) (name : Str)
    → given (vrf_to_c n name).table (if (vrf_to_c n name).netif.unset then 0 else old) ≡ n
unfolding vrf_to_c
vrf_given n old name = elim (Bool-cases (n == 0)) [
  | inl z ↦ rw z (ground (arith, z))
  | inr nz ↦ rw nz refl
]

-- The request of the message makes the session that was sent, whatever session it is applied to.
applied-IsCarried :
    (l : Libs) (d old d' : DSession) (csrc cdst : CAddr) (vn ifn : Str)
    → IsSendable d
    → ((a : SockAddr) (r : Option SockAddr)
        → apply_c_addr l csrc ≡ fine r
        → SameAddr d.src (given r a))
    → ((a : SockAddr) (r : Option SockAddr)
        → apply_c_addr l cdst ≡ fine r
        → SameAddr d.dst (given r a))
    → apply_c l old (arrived d csrc cdst vn ifn) ≡ some (fine d')
    → IsCarried d d'
unfolding apply_fields apply_flags netif_to_c vrf_to_c
applied-IsCarried l d old d' csrc cdst vn ifn s src_ok dst_ok q =
    let v = apply_c-Applied l old (arrived d csrc cdst vn ifn) d' q in
    rw v.result (record {
      flags = refl;
      discr = refl;
      timing = refl;
      ttl = refl;
      hold_time = refl;
      dst = dst_ok old.dst v.dst v.dst_read;
      src = src_ok old.src v.src v.src_read;
      ifindex = netif_given d.ifindex old.ifindex ifn;
      vrf_table = vrf_given d.vrf_table old.vrf_table vn;
    })

-- A session that bfdd asks its dataplane for, in a message that could be made, is read there as a
-- request, and a session that the request makes or changes has the same flags, discriminator, timing,
-- TTL, addresses, interface and VRF table, and the hold time in whole milliseconds. This is so if
-- inet_ntop and inet_pton do as documented, the values fit into 32 bits, the discriminator is not 0,
-- and the source, if there is one, is of the destination's family and not the address 0.
pub add_session_msg-IsCarried :
    (l : Libs) (junk : BpfAddr) (id : ℕ) (d : DSession) (msg : Message)
    → IsInet l
    → IsSendable d
    → add_session_msg l junk id d ≡ fine msg
    → (m : FCumulus) × (c : CSession) × (msg.payload ≡ dp_add_session m)
      × (session_msg_to_c l (ntoh16 msg.length) m ≡ fine c)
      × ((old d' : DSession) → apply_c l old c ≡ some (fine d') → IsCarried d d')
add_session_msg-IsCarried l junk id d msg inet s q =
    let t = add_session_msg-Sent l junk id d msg q in
    let v6 = d.dst.family == af_inet6 in
    let same : (d.src.family ≡ 0) ⊎ ((d.src.family == af_inet6) ≡ v6) = elim s.src_family [
      | inl z ↦ inl z
      | inr e ↦ inr (ap (λ f. f == af_inet6) e)
    ] in
    let (csrc, src_q, src_ok) = src_arrives l v6 d.src t.src inet t.src_copied same s.src_set in
    let (cdst, dst_q, is_set, is_read) = addr-IsRead l v6 t.dst inet in
    let (name, read) =
      session_msg-arrived l d t.src t.dst csrc cdst t.vrfname t.ifname s src_q dst_q in
    (
      wire_session d t.src t.dst t.vrfname t.ifname,
      arrived d csrc cdst name t.ifname,
      t.payload,
      rw t.length_set read,
      λ old d' h.
          applied-IsCarried l d old d' csrc cdst name t.ifname s src_ok
            (copied_arrives l junk d.dst t.dst cdst t.dst_copied is_read) h,
    )
