-- ===== src/Control/Always.antt =====
-- Whatever is asked of the daemon, in whatever order.
use bbdd.Base.{
  [], ◌∷◌, ℕ, ◌≡◌, ◌⊎◌, inl, inr, refl, Bool, false, not, Option, some, List, arith, ◌==◌, ◌&&◌,
  HashSet, Bool-cases, Option-cases,
}
use bbdd.Bpf.State.{Env}
use bbdd.Control.State.{CSession, Libs}
use bbdd.Control.Requests.{handle_session_set, handle_session_del}
use bbdd.Control.Growing.{d_session_add-IsSound}
use bbdd.Control.Serving.{handle_session_set-IsSound, handle_session_del-IsSound}
use bbdd.Control.Sound.{IsSound, IsSoundAfter}
use bbdd.Control.Members.{Daemon, Answer, handle_session_add, get_unique_discr}

-- The draw that is kept is not in use, if no session has the discriminator 0.
unique-free :
    (has : ℕ → Bool) (draws : List ℕ) (discr : ℕ)
    → has 0 ≡ false
    → get_unique_discr has draws ≡ some discr
    → has discr ≡ false
unfolding get_unique_discr
unique-free has [] discr z h = cc
unique-free has (draw ∷ draws) discr z h = ground (arith, unique-free has draws discr z)

-- A draw that ends the loop.
abbrev pub IsLast : (ℕ → Bool) → ℕ → Type 0
IsLast has draw = (draw ≡ 0) ⊎ (has draw ≡ false)

pub data Some {ℓ} {A : Type ℓ} (P : A → Type 0) : List A → Type ℓ where
  here : (x : A) (xs : List A) → P x → Some P (x ∷ xs)
  there : (x : A) (xs : List A) → Some P xs → Some P (x ∷ xs)

-- If no session has the discriminator 0, draws end the loop once one of them is 0 or not in use, and
-- no session has the discriminator that they end with.
pub get_unique_discr-ends :
    (has : ℕ → Bool) (draws : List ℕ)
    → has 0 ≡ false
    → Some (IsLast has) draws
    → (discr : ℕ) × (get_unique_discr has draws ≡ some discr) × (has discr ≡ false)
unfolding get_unique_discr
get_unique_discr-ends has _ z (here draw draws (inl e)) = rw e (0, refl, z)
get_unique_discr-ends has _ z (here draw draws (inr e)) = (draw, ground arith, e)
get_unique_discr-ends has _ z (there draw draws h) =
    elim (Bool-cases (not (draw == 0) && has draw)) [
      | inl q ↦ rw q (get_unique_discr-ends has draws z h)
      | inr q ↦ (draw, rw q refl, ground arith)
    ]

module _ (h : HashSet) where
  pub data Request : Type 0 where
    add : Bool → List ℕ → CSession → ℕ → ℕ → Request
    set : CSession → CSession → Bool → Request
    del : CSession → Bool → Request

  -- The destination is always given as an address, never as one to be removed; and the draws of
  -- random numbers are enough.
  abbrev pub IsAdmitted : Daemon h → Request → Type 0
  IsAdmitted d (add room draws c final_slot periodic_slot) =
      (c.dst.unset ≡ false) × Some (IsLast (λ k. h.has k d.world.sessions)) draws
  IsAdmitted d (set select change bulk) = change.dst.unset ≡ false
  IsAdmitted d (del select bulk) = Unit

  abbrev pub handle_request : Libs → Env → Daemon h → Request → Option (Daemon h × Answer)
  handle_request l e d (add room draws c final_slot periodic_slot) =
      handle_session_add h l e room draws d c final_slot periodic_slot
  handle_request l e d (set select change bulk) = handle_session_set h l e d select change bulk
  handle_request l e d (del select bulk) = handle_session_del h l e d select bulk

  handle_session_add-IsSound :
      (l : Libs) (e : Env) (room : Bool) (draws : List ℕ) (d : Daemon h) (c : CSession)
      (final_slot periodic_slot : ℕ)
      → IsSound h d
      → c.dst.unset ≡ false
      → Some (IsLast (λ k. h.has k d.world.sessions)) draws
      → IsSoundAfter h (handle_session_add h l e room draws d c final_slot periodic_slot)
  unfolding handle_session_add
  handle_session_add-IsSound l e room draws d c final_slot periodic_slot sound addr enough =
      elim (Option-cases c.discr) [
        | inl n ↦
            let unused : h.has 0 d.world.sessions ≡ false =
              elim (Bool-cases (h.has 0 d.world.sessions)) [
                | inl on ↦ let v = sound.sessions 0 on in absurd (v.configured.discr_set v.key)
                | inr off ↦ off
              ] in
            let (discr, q, new) =
              get_unique_discr-ends (λ k. h.has k d.world.sessions) draws unused enough in
            rw (n, q, handle_session_add)
              (d_session_add-IsSound h l e room d (record c { discr = some discr }) final_slot
                periodic_slot sound new addr)
        | inr (discr, q) ↦ elim (Bool-cases (h.has discr d.world.sessions)) [
          | inl on ↦ rw (q, on, handle_session_add) sound
          | inr off ↦
              rw (q, off, handle_session_add)
                (d_session_add-IsSound h l e room d c final_slot periodic_slot sound (rw q off)
                  addr)
        ]
      ]

  -- Whatever is asked of a sound daemon, it does not abort, and it is sound afterwards: every
  -- session is fit to run, the dataplane has the same sessions, each valid, and each has a source
  -- port of its own that is taken. This is so whatever the kernel and the libraries answer, if no
  -- request asks to remove the destination and one of the numbers that are drawn is not in use.
  pub handle_request-IsSound :
      (l : Libs) (e : Env) (d : Daemon h) (r : Request)
      → IsSound h d
      → IsAdmitted d r
      → IsSoundAfter h (handle_request l e d r)
  handle_request-IsSound l e d (add room draws c final_slot periodic_slot) sound (addr, enough) =
      handle_session_add-IsSound l e room draws d c final_slot periodic_slot sound addr enough
  handle_request-IsSound l e d (set select change bulk) sound addr =
      handle_session_set-IsSound h l e d select change bulk sound addr
  handle_request-IsSound l e d (del select bulk) sound may =
      handle_session_del-IsSound h l e d select bulk sound
