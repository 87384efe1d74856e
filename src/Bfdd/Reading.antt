-- ===== src/Bfdd/Reading.antt =====
-- What a session of a message is read as.
use bbdd.Base.{ℕ, sym, [], ◌≡◌, refl, false, arith}
use bbdd.Wire.{ntoh32}
use bbdd.Bpf.Discr0.{BpfAddr}
use bbdd.Control.State.{CSession, CAddr, Libs}
use bbdd.Control.Validate.{fine}
use bbdd.Control.Applied.{and_then-fine}
use bbdd.Bfdd.Message.{FCumulus, be32_0}
use bbdd.Bfdd.Convert.{session_to_c_addr, session_to_c, session_msg_to_c, filled, convert}
use bbdd.Bfdd.Requests.{validated}

to_c_addr-set :
    (l : Libs) (from : BpfAddr) (af : ℕ) (a : CAddr)
    → session_to_c_addr l from af ≡ fine a
    → a.unset ≡ false
unfolding session_to_c_addr
to_c_addr-set l from af a q = ground (arith, q)

-- What a session of a message has passed when it was read.
convert-filled :
    (l : Libs) (m : FCumulus) (c : CSession)
    → convert l m ≡ fine c
    → (src : CAddr) × (dst : CAddr) × (af : ℕ) × (session_to_c_addr l m.session.dst af ≡ fine dst)
      × (c ≡ filled m (ntoh32 m.session.flags) src dst)
unfolding convert
convert-filled l m c q =
    let (src, src_q, h₁) = and_then-fine _ _ c q in
    let (dst, dst_q, h₂) = and_then-fine _ _ c h₁ in (src, dst, _, dst_q, ground (arith, h₂))

-- A session that was read has a destination.
session_to_c-dst :
    (l : Libs) (m : FCumulus) (c : CSession) → session_to_c l m ≡ fine c → c.dst.unset ≡ false
unfolding filled session_to_c
session_to_c-dst l m c q =
    let (src, dst, af, dst_q, e) = convert-filled l m c (ground (arith, q)) in
    rw e (to_c_addr-set l m.session.dst af dst dst_q)

pub session_msg-dst :
    (l : Libs) (n : ℕ) (m : FCumulus) (c : CSession)
    → session_msg_to_c l n m ≡ fine c
    → c.dst.unset ≡ false
unfolding session_msg_to_c
session_msg-dst l n m c q = ground (
  arith,
  q,
  session_to_c-dst l m c,
  session_to_c-dst l (record { session = m.session; vrf_id = be32_0; vrfname = [] }) c,
)

-- The validation leaves the destination and the discriminator.
pub validated-keeps :
    (l : Libs) (c c' : CSession) → validated l c ≡ fine c' → (c'.dst ≡ c.dst) × (c'.discr ≡ c.discr)
unfolding validated
validated-keeps l c c' q =
    let (netif, n, h₁) = and_then-fine _ _ c' q in
    let (vrf, v, h₂) = and_then-fine _ _ c' h₁ in
    let e : record c { netif = netif; vrf = vrf } ≡ c' = ground (arith, h₂) in
    rw (sym e) (refl, refl)
