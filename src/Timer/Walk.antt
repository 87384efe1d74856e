-- ===== src/Timer/Walk.antt =====
-- src/bbdd-timer.c: the first pass over the timers, which runs the callbacks of those that are due.
use bbdd.Base.{
  ℕ, zero, suc, ◌+◌, ◌≤◌, ◌<◌, ◌≡◌, ◌≢◌, ◌⊎◌, ◌∙◌, ap, sym, refl, inl, inr, Bool, true, false,
  Option, none, some, List, [], ◌∷◌, ◌++◌, arith, count, count-append, ◌==◌, ltb, length,
}
use mathlib.Core.List.{append_assoc}
use bbdd.Base.{length-append}
use bbdd.Timer.{Timer, Timers, next_of, first_of, walk}
use bbdd.Timer.Order.{deadline}

-- All of a list is due at `now`, or none is.
abbrev pub AllDue : (ℕ → Timer) → ℕ → List ℕ → Type 0
AllDue f now xs = (b : ℕ) → count b xs ≢ 0 → deadline f b ≤ now

abbrev pub AllLater : (ℕ → Timer) → ℕ → List ℕ → Type 0
AllLater f now xs = (b : ℕ) → count b xs ≢ 0 → now < deadline f b

module _ {W : Type 0} (invoke : ℕ → Timers → W → Timers × W × Bool) where
  -- A callback that succeeds leaves its own timer or cancels it, and no other, and sets only timers
  -- that are not due.
  pub record IsTame (now : ℕ) : Type 0 where
    pub succeeds : (a : ℕ) (ts : Timers) (w : W) → (invoke a ts w).2 ≡ true
    pub stays :
        (front due rest : List ℕ) (a : ℕ) (ts : Timers) (w : W)
        → ts.queue ≡ front ++ (a ∷ (due ++ rest))
        → count a front ≡ 0
        → AllLater ts.timer now rest
        → let ts' = (invoke a ts w).0 in
          (rest' : List ℕ) × ((ts'.queue ≡ front ++ (a ∷ (due ++ rest')))
            ⊎ (ts'.queue ≡ front ++ (due ++ rest')))
          × AllLater ts'.timer now rest'
          × ((b : ℕ) → count b rest ≤ count b rest')
          × ((b : ℕ) → count b ts.queue ≢ 0 → ts'.timer b ≡ ts.timer b)

  -- The callbacks of the timers at these addresses are run, one after the other.
  pub data Runs : List ℕ → Timers → W → Timers → W → Type 0 where
    over : {ts : Timers} {w : W} → Runs [] ts w ts w
    run :
        {a : ℕ} {more : List ℕ} {ts ts' : Timers} {w w' : W}
        → Runs more (invoke a ts w).0 (invoke a ts w).1 ts' w'
        → Runs (a ∷ more) ts w ts' w'

  -- Where the walk goes on: at the first that is due, or at one that is not, or nowhere.
  abbrev pub IsNext : List ℕ → List ℕ → Option ℕ → Type 0
  IsNext [] rest none = Unit
  IsNext [] rest (some b) = count b rest ≢ 0
  IsNext (a ∷ _) rest p = p ≡ some a

  -- The callbacks of `due` have run, and what is due of the list stands before what is not.
  abbrev pub IsWalked :
      ℕ → ℕ → List ℕ → List ℕ → Timers → W → Option (Timers × W × Option ℕ) → Type 0
  IsWalked now k due old ts w none = ⊥
  IsWalked now k due old ts w (some (ts', w', failed)) =
      (failed ≡ none)
      × Runs due ts w ts' w'
      × (front : List ℕ) × (rest : List ℕ) × (ts'.queue ≡ front ++ rest)
      × AllDue ts'.timer now front
      × AllLater ts'.timer now rest
      × (length front ≤ k)
      × ((b : ℕ) → count b old ≤ count b rest)

  IsWalked-run :
      (now k a : ℕ) (due old older : List ℕ) (ts : Timers) (w : W)
      (m : Option (Timers × W × Option ℕ))
      → ((b : ℕ) → count b older ≤ count b old)
      → IsWalked now k due old (invoke a ts w).0 (invoke a ts w).1 m
      → IsWalked now k (a ∷ due) older ts w m
  IsWalked-run now k a due old older ts w none le x = x
  IsWalked-run now k a due old older ts w (some (ts', w', failed)) le x =
      let (q, runs, front, rest, c, d, e, f, g) = x in
      (q, run runs, front, rest, c, d, e, f, λ b. omega (arith, le b, g b))

  next_of-due :
      (a : ℕ) (front xs : List ℕ) → count a front ≡ 0 → next_of a (front ++ a ∷ xs) ≡ first_of xs
  next_of-due a [] [] z = refl
  next_of-due a [] (x ∷ xs) z = ground arith
  next_of-due a (b ∷ []) xs z = ground (arith, next_of-due a [] xs refl)
  next_of-due a (b ∷ c ∷ front) xs z = ground (arith, next_of-due a (c ∷ front) xs (ground arith))

  pub IsNext-first :
      (due rest rest' : List ℕ)
      → ((b : ℕ) → count b rest ≤ count b rest')
      → IsNext due rest' (first_of (due ++ rest))
  IsNext-first (a ∷ due) rest rest' h = refl
  IsNext-first [] [] rest' h = tt
  IsNext-first [] (b ∷ rest) rest' h = let l = h b in ground arith

  still :
      {now : ℕ} (front due rest : List ℕ) (a : ℕ) (ts ts' : Timers)
      → ts.queue ≡ front ++ (a ∷ (due ++ rest))
      → ((b : ℕ) → count b ts.queue ≢ 0 → ts'.timer b ≡ ts.timer b)
      → AllDue ts.timer now (front ++ a ∷ due)
      → AllDue ts'.timer now (front ++ a ∷ due)
  still front due rest a ts ts' split same due_all b m =
      let in_queue : count b ts.queue ≢ 0 = rw split (
        ground (
          arith,
          count-append b front (a ∷ due),
          count-append b front (a ∷ (due ++ rest)),
          count-append b due rest,
        )) in
      rw (deadline, same b in_queue) (due_all b m)

  count_regroup :
      (b : ℕ) (front due : List ℕ) (a : ℕ)
      → count b ((front ++ a ∷ []) ++ due) ≡ count b (front ++ a ∷ due)
  count_regroup b front due a = ap (count b) (append_assoc front (a ∷ []) due)

  -- The first pass runs the callbacks of what is due, in order, if the fuel is enough.
  pub walk-IsWalked :
      (n now k : ℕ) (front due rest : List ℕ) (p : Option ℕ) (ts : Timers) (w : W)
      → IsTame now
      → ts.queue ≡ front ++ (due ++ rest)
      → AllDue ts.timer now (front ++ due)
      → AllLater ts.timer now rest
      → ((b : ℕ) → count b (front ++ due) ≤ 1)
      → length due < n
      → length front + length due ≤ k
      → IsNext due rest p
      → IsWalked now k due rest ts w (walk invoke n now p ts w)
  unfolding walk
  walk-IsWalked zero now k front due rest p ts w t split due_all later once l lk x =
      absurd (omega arith)
  walk-IsWalked (suc n) now k front [] rest none ts w t split due_all later once l lk x = (
    refl,
    over,
    front,
    rest,
    split,
    λ b m. due_all b (ground (arith, count-append b front [])),
    later,
    omega arith,
    λ c. omega arith,
  )
  walk-IsWalked (suc n) now k front [] rest (some b) ts w t split due_all later once l lk x =
      let there : (count b ts.queue == 0) ≡ false =
        rw split (ground (arith, count-append b front rest)) in
      let not_due : ltb now (deadline ts.timer b) ≡ true = ground (arith, later b x) in
      rw (there, not_due, walk)
        (
          refl,
          over,
          front,
          rest,
          split,
          λ c m. due_all c (ground (arith, count-append c front [])),
          later,
          omega arith,
          λ c. omega arith,
        )
  walk-IsWalked (suc n) now k front (a ∷ due) rest p ts w t split due_all later once l lk x =
      let fresh : count a front ≡ 0 = ground (arith, once a, count-append a front (a ∷ due)) in
      let there : (count a ts.queue == 0) ≡ false =
        rw split (ground (arith, count-append a front (a ∷ (due ++ rest)))) in
      let is_due : ltb now (deadline ts.timer a) ≡ false =
        ground (arith, due_all a, count-append a front (a ∷ due)) in
      let next : next_of a ts.queue ≡ first_of (due ++ rest) =
        rw split (next_of-due a front (due ++ rest) fresh) in
      let (rest', kept, later', more, same) = t.stays front due rest a ts w split fresh later in
      let still_due = still front due rest a ts (invoke a ts w).0 split same due_all in
      rw (x, there, is_due, t.succeeds a ts w, next, walk)
        (elim kept [
          | inl q ↦ IsWalked-run now k a due rest' rest ts w _ more (
              walk-IsWalked n now k (front ++ a ∷ []) due rest' (first_of (due ++ rest))
                (invoke a ts w).0 (invoke a ts w).1 t
                (q ∙ sym (append_assoc front (a ∷ []) (due ++ rest')))
                (λ b m. still_due b (ground (arith, count_regroup b front due a))) later'
                (λ b. ground (arith, once b, count_regroup b front due a)) (omega arith)
                (omega (arith, length-append front (a ∷ []))) (IsNext-first due rest rest' more))
          | inr q ↦ IsWalked-run now k a due rest' rest ts w _ more (
              walk-IsWalked n now k front due rest' (first_of (due ++ rest)) (invoke a ts w).0
                (invoke a ts w).1 t q
                (λ b m.
                  still_due b
                    (ground (arith, count-append b front due, count-append b front (a ∷ due))))
                later'
                (λ b.
                  ground (arith, once b, count-append b front due, count-append b front (a ∷ due)))
                (omega arith) (omega arith) (IsNext-first due rest rest' more))
        ])
