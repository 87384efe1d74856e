-- ===== src/Timer/Served.antt =====
-- src/bbdd-timer.c: the second pass over the timers, and the whole callback of the timerfd.
use bbdd.Base.{
  ℕ, zero, suc, ◌≤◌, ◌<◌, ◌≡◌, ◌⊎◌, ◌∙◌, ap, refl, inl, inr, Bool, true, false, Option, none, some,
  List, [], ◌∷◌, ◌++◌, arith, Option-cases, Bool-cases, if◌then◌else◌, sym, ◌≢◌, length-append, ◌+◌,
  ◌==◌, count, count-append, ltb, length, DlList, InOrder, before,
}
use bbdd.Timer.{
  Timer, Timers, rearm_failed, callback_failed, first_of, it_value, rearm, cancel, sweep, walk,
  fd_cb, report,
}
use bbdd.Timer.Order.{deadline}
use bbdd.Timer.Armed.{IsScheduled}
use bbdd.Timer.Walk.{AllDue, AllLater, IsTame, Runs, IsNext, IsNext-first, IsWalked, walk-IsWalked}

module _ (dl : DlList) where
  -- With nothing failed, the second pass takes out what is due and stands in front.
  sweep-front :
      (n now : ℕ) (front rest : List ℕ) (ts : Timers)
      → ts.queue ≡ front ++ rest
      → AllDue ts.timer now front
      → AllLater ts.timer now rest
      → length front < n
      → sweep dl n now none ts ≡ some (record ts { queue = rest }, none)
  unfolding sweep cancel
  sweep-front zero now front rest ts split due later l = absurd (omega arith)
  sweep-front (suc n) now [] [] ts split due later l =
      rw (split, sweep) (ap (λ q. some (record ts { queue = q }, none)) split)
  sweep-front (suc n) now [] (b ∷ rest) ts split due later l =
      let not_due : ltb now (deadline ts.timer b) ≡ true = ground (arith, later b) in
      rw (split, sweep, not_due) (ap (λ q. some (record ts { queue = q }, none)) split)
  sweep-front (suc n) now (a ∷ front) rest ts split due later l =
      let is_due : ltb now (deadline ts.timer a) ≡ false = ground (arith, due a) in
      rw (split, sweep, is_due)
        (sweep-front n now front rest (cancel dl a ts)
          (ap (λ q. dl.delete q a) split ∙ dl.delete_eq [] (front ++ rest) a refl)
          (λ b m. due b (ground arith)) later (omega arith))

-- The timers of a list in order: those that are due, and those behind.
abbrev pub due_of : (ℕ → Timer) → ℕ → List ℕ → List ℕ
due_of f now [] = []
due_of f now (a ∷ xs) =
    let rest = due_of f now xs in elim (ltb now (f a).deadline_ns) [ true ↦ [] | false ↦ a ∷ rest ]

later_of :
    (f : ℕ → Timer) (now a : ℕ) (xs : List ℕ)
    → ltb now (f a).deadline_ns ≡ true
    → ((b : ℕ) → count b xs ≢ 0 → deadline f a ≤ deadline f b)
    → AllLater f now (a ∷ xs)
later_of f now a xs q first b m = elim (Bool-cases (a == b)) [
  | inl e ↦ let e' : a ≡ b = ground arith in rw (deadline, sym e') (ground arith)
  | inr e ↦ ground (arith, first b)
]

due_first :
    (f : ℕ → Timer) (now a : ℕ) (xs : List ℕ)
    → ltb now (f a).deadline_ns ≡ false
    → AllDue f now xs
    → AllDue f now (a ∷ xs)
due_first f now a xs q due b m = elim (Bool-cases (a == b)) [
  | inl e ↦ let e' : a ≡ b = ground arith in rw (deadline, sym e') (ground arith)
  | inr e ↦ due b (ground arith)
]

due_split :
    (f : ℕ → Timer) (now : ℕ) (xs : List ℕ)
    → InOrder (deadline f) xs
    → (rest : List ℕ) × (xs ≡ due_of f now xs ++ rest)
      × AllDue f now (due_of f now xs)
      × AllLater f now rest
due_split f now [] o = ([], refl, λ b m. absurd (m refl), λ b m. absurd (m refl))
due_split f now (a ∷ xs) (before first o) = elim (Bool-cases (ltb now (f a).deadline_ns)) [
  | inl q ↦ rw (due_of, q) (a ∷ xs, refl, λ b m. absurd (m refl), later_of f now a xs q first)
  | inr q ↦
      let (rest, split, due, later) = due_split f now xs o in
      rw (due_of, q) (rest, ap (λ ys. a ∷ ys) split, due_first f now a _ q due, later)
]

module _ {W : Type 0} (invoke : ℕ → Timers → W → Timers × W × Bool) (dl : DlList) where
  -- The callbacks of what was due have run, in order; what is left is not due, has what was not due
  -- before, and the timerfd is set to the first of it, or the failure to do so is reported.
  abbrev pub IsServed : ℕ → Timers → W → Option (Timers × W) → Type 0
  IsServed now ts w none = ⊥
  IsServed now ts w (some (ts', w')) =
      ((ts₁ : Timers) × Runs invoke (due_of ts.timer now ts.queue) ts w ts₁ w'
        × (ts'.timer ≡ ts₁.timer)
        × ((ts'.armed ≡ it_value ts'.queue ts'.timer) ⊎ (ts'.log ≡ rearm_failed ∷ ts₁.log)))
      × AllLater ts'.timer now ts'.queue
      × ((b : ℕ) → count b ts.queue ≤ count b (due_of ts.timer now ts.queue) + count b ts'.queue)

  ended :
      (now : ℕ) (done : Bool) (ts ts₁ : Timers) (w w₁ : W) (rest : List ℕ)
      → Runs invoke (due_of ts.timer now ts.queue) ts w ts₁ w₁
      → AllLater ts₁.timer now rest
      → ((b : ℕ) → count b ts.queue ≤ count b (due_of ts.timer now ts.queue) + count b rest)
      → let (ts', armed) = rearm done (record ts₁ { queue = rest }) in
        IsServed now ts w (some (if armed then ts' else report ts' rearm_failed, w₁))
  unfolding rearm
  ended now true ts ts₁ w w₁ rest runs later more = ((ts₁, runs, refl, inl refl), later, more)
  ended now false ts ts₁ w w₁ rest runs later more = ((ts₁, runs, refl, inr refl), later, more)

  -- When callbacks only set timers that are not due, cancel at most their own, and succeed, the
  -- timerfd's callback does not abort and, with more fuel than there are timers, comes to an end. It
  -- runs just the callbacks of the timers that are due, in the order of their deadlines, and leaves
  -- the others, with the timerfd set to the first of them or the failure reported.
  pub fd_cb-IsServed :
      (n now : ℕ) (done : Bool) (ts : Timers) (w : W)
      → IsTame invoke now
      → IsScheduled ts
      → length ts.queue < n
      → IsServed now ts w (fd_cb invoke dl n done now ts w)
  unfolding fd_cb rearm
  fd_cb-IsServed n now done ts w t v l =
      let (old, split, due, later) = due_split ts.timer now ts.queue v.ordered in
      let d = due_of ts.timer now ts.queue in
      let once : (b : ℕ) → count b d ≤ 1 =
        λ b. let e = ap (count b) split in omega (arith, v.once b, e, count-append b d old) in
      let e = ap length split in
      let next : IsNext invoke d old (first_of ts.queue) =
        rw (ap first_of split) (IsNext-first invoke d old old (λ b. omega arith)) in
      let shorter : length d < n = omega (arith, length-append d old) in
      let walked : IsWalked invoke now (length d) d old ts w
          (walk invoke n now (first_of ts.queue) ts w) =
        walk-IsWalked invoke n now (length d) [] d old (first_of ts.queue) ts w t split due later
          once shorter (omega arith) next in
      elim (Option-cases (walk invoke n now (first_of ts.queue) ts w)) [
        | inl m ↦ absurd (rw m at walked)
        | inr ((ts₁, w₁, failed), m) ↦
            let all : IsWalked invoke now (length d) d old ts w (some (ts₁, w₁, failed)) =
              rw m at walked in
            let (q, runs, front, rest, c, d₁, later₁, short, more) = all in
            let swept = sweep-front dl n now front rest ts₁ c d₁ later₁ (omega arith) in
            rw (m, q, swept)
              (ended now done ts ts₁ w w₁ rest runs later₁
                (λ b. let e = ap (count b) split in omega (arith, e, more b, count-append b d old)))
      ]

  walk-first_fails :
      (n now a : ℕ) (rest : List ℕ) (ts : Timers) (w w' : W)
      → ts.queue ≡ a ∷ rest
      → deadline ts.timer a ≤ now
      → invoke a ts w ≡ (ts, w', false)
      → walk invoke (suc n) now (some a) ts w ≡ some (ts, w', some a)
  unfolding walk
  walk-first_fails n now a rest ts w w' split due fails =
      let is_due : ltb now (deadline ts.timer a) ≡ false = ground arith in
      let here : (count a ts.queue == 0) ≡ false = rw split (ground arith) in
      rw (walk, here, is_due, ap (λ r. r.2) fails) (ap (λ r. some (r.0, r.1, some a)) fails)

  sweep-first_failed :
      (n now a : ℕ) (rest : List ℕ) (ts : Timers)
      → ts.queue ≡ a ∷ rest
      → deadline ts.timer a ≤ now
      → sweep dl (suc n) now (some a) ts ≡ some (record ts { queue = rest }, none)
  unfolding sweep cancel
  sweep-first_failed n now a rest ts split due =
      let is_due : ltb now (deadline ts.timer a) ≡ false = ground arith in
      let same : (a == a) ≡ true = ground arith in
      rw (sweep, split, is_due, same)
        (ap (λ q. some (record ts { queue = q }, none))
          (ap (λ q. dl.delete q a) split ∙ dl.delete_eq [] rest a refl))

  -- When the callback of the first timer fails, and has left the timers alone, the whole does not
  -- abort: this timer is taken out and the failure reported, and the timerfd is not set again, even
  -- if there are more timers behind.
  pub fd_cb-first_fails :
      (n now a : ℕ) (done : Bool) (rest : List ℕ) (ts : Timers) (w w' : W)
      → ts.queue ≡ a ∷ rest
      → deadline ts.timer a ≤ now
      → invoke a ts w ≡ (ts, w', false)
      → fd_cb invoke dl (suc n) done now ts w
        ≡ some (report (record ts { queue = rest }) callback_failed, w')
  unfolding fd_cb
  fd_cb-first_fails n now a done rest ts w w' split due fails =
      rw
        (
          ap first_of split,
          walk-first_fails n now a rest ts w w' split due fails,
          sweep-first_failed n now a rest ts split due,
        )
        refl
