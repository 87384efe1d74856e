-- ===== src/Examples/Timers.antt =====
-- The timers at concrete lists.
use bbdd.Base.{
  ℕ, suc, ◌≤◌, ◌≡◌, ◌≢◌, refl, ap, ◌∙◌, ◌*◌, ◌<◌, ◌==◌, sym, inl, inr, ◌⊎◌, Bool-cases, Bool, true,
  false, some, List, [], ◌∷◌, ◌++◌, arith, count, InOrder, nothing, before, Compares, InorderDl,
  Sign, negative, level, positive, ◌==◌,
}
use bbdd.Timer.{Timer, Timers, timer_set, timer_cancel, fd_cb, callback_failed, report, it_value}
use bbdd.Timer.Armed.{
  IsScheduled, IsPending, timer_set-IsPending, IsCancelled, timer_cancel-IsCancelled,
}
use bbdd.Timer.Walk.{IsTame}
use bbdd.Timer.Served.{IsServed, fd_cb-IsServed, fd_cb-first_fails}
use bbdd.Examples.Lists.{list_dl}

abbrev pub list_insert : (ℕ → ℕ → Sign) → List ℕ → ℕ → List ℕ
list_insert cmp [] a = a ∷ []
list_insert cmp (x ∷ xs) a =
    let rest = list_insert cmp xs a in elim (cmp x a) [ negative ↦ x ∷ rest | _ ↦ a ∷ x ∷ xs ]

abbrev Placed : (ℕ → ℕ → Sign) → (ℕ → ℕ) → List ℕ → ℕ → Type 0
Placed cmp key xs a =
    (us : List ℕ) × (vs : List ℕ) × (xs ≡ us ++ vs)
    × (list_insert cmp xs a ≡ us ++ a ∷ vs)
    × ((b : ℕ) → count b us ≢ 0 → key b ≤ key a)
    × ((b : ℕ) → count b vs ≢ 0 → key a ≤ key b)

Sign-cases : (s : Sign) → (s ≡ negative) ⊎ ((s ≡ level) ⊎ (s ≡ positive))
Sign-cases negative = inl refl
Sign-cases level = inr (inl refl)
Sign-cases positive = inr (inr refl)

first_le :
    (key : ℕ → ℕ) (x a : ℕ) (us : List ℕ)
    → key x < key a
    → ((b : ℕ) → count b us ≢ 0 → key b ≤ key a)
    → (b : ℕ) → count b (x ∷ us) ≢ 0
    → key b ≤ key a
first_le key x a us l lo b m = elim (Bool-cases (x == b)) [
  | inl q ↦ let e : x ≡ b = ground arith in rw (sym e) (omega arith)
  | inr q ↦ lo b (ground arith)
]

all_above :
    (key : ℕ → ℕ) (x a : ℕ) (xs : List ℕ)
    → key a ≤ key x
    → ((b : ℕ) → count b xs ≢ 0 → key x ≤ key b)
    → (b : ℕ) → count b (x ∷ xs) ≢ 0
    → key a ≤ key b
all_above key x a xs l first b m = elim (Bool-cases (x == b)) [
  | inl q ↦ let e : x ≡ b = ground arith in rw (sym e) l
  | inr q ↦ let f = first b (ground arith) in omega arith
]

not_less :
    (cmp : ℕ → ℕ → Sign) (key : ℕ → ℕ) (x a : ℕ)
    → Compares cmp key
    → cmp x a ≢ negative
    → key a ≤ key x
not_less cmp key x a c ne = let (to, from) = (c x a).0 in ground (arith, from)

list_insert_eq :
    (cmp : ℕ → ℕ → Sign) (key : ℕ → ℕ) (xs : List ℕ) (a : ℕ)
    → Compares cmp key
    → InOrder key xs
    → Placed cmp key xs a
list_insert_eq cmp key [] a c o =
    ([], [], refl, refl, λ b m. absurd (m refl), λ b m. absurd (m refl))
list_insert_eq cmp key (x ∷ xs) a c (before first o) = elim (Sign-cases (cmp x a)) [
  | inl q ↦
      let (us, vs, split, placed, lo, hi) = list_insert_eq cmp key xs a c o in
      rw (list_insert, q)
        (
          x ∷ us,
          vs,
          ap (λ ys. x ∷ ys) split,
          ap (λ ys. x ∷ ys) placed,
          first_le key x a us ((c x a).0.0 q) lo,
          hi,
        )
  | inr (inl q) ↦
      rw (list_insert, q)
        (
          [],
          x ∷ xs,
          refl,
          refl,
          λ b m. absurd (m refl),
          all_above key x a xs (not_less cmp key x a c (λ e. ground arith)) first,
        )
  | inr (inr q) ↦
      rw (list_insert, q)
        (
          [],
          x ∷ xs,
          refl,
          refl,
          λ b m. absurd (m refl),
          all_above key x a xs (not_less cmp key x a c (λ e. ground arith)) first,
        )
]

abbrev list_inorder : InorderDl
list_inorder = record { insert = list_insert; insert_eq = list_insert_eq }

abbrev timer_at : ℕ → Timer
timer_at a = record { deadline_ns = a * 1000; fn = 1; arg = a }

-- Three timers at the addresses 3, 5 and 9.
abbrev three_timers : Timers
three_timers = record { queue = 3 ∷ 5 ∷ 9 ∷ []; timer = timer_at; armed = (0, 3000); log = [] }

three_timers-IsScheduled : IsScheduled three_timers
unfolding it_value
three_timers-IsScheduled = record {
  ordered =
      before (λ b m. ground arith)
        (before (λ b m. ground arith) (before (λ b m. ground arith) nothing));
  once = λ a. ground arith;
  armed = refl;
}

timer_set-IsPending_example :
    let r = timer_set list_dl list_inorder true true 7 1000 6 1 0 three_timers in
    IsScheduled r.0 × IsPending 7 7000 three_timers r
timer_set-IsPending_example =
    timer_set-IsPending list_dl list_inorder true true 7 1000 6 1 0 three_timers
      three_timers-IsScheduled refl

timer_cancel-IsCancelled_example :
    IsCancelled list_dl 3 three_timers (timer_cancel list_dl true 3 three_timers)
timer_cancel-IsCancelled_example =
    timer_cancel-IsCancelled list_dl true 3 three_timers three_timers-IsScheduled (λ h. cc)

-- A callback that cancels its own timer and counts the calls.
abbrev once_more : ℕ → Timers → ℕ → Timers × ℕ × Bool
once_more a ts w = (record ts { queue = list_dl.delete ts.queue a }, suc w, true)

once_more-IsTame : IsTame once_more 6000
once_more-IsTame = record {
  succeeds = λ a ts w. refl;
  stays = λ front due rest a ts w split z later. (
    rest,
    inr (ap (λ q. list_dl.delete q a) split ∙ list_dl.delete_eq front (due ++ rest) a z),
    later,
    λ b. omega arith,
    λ b m. refl,
  );
}

fd_cb-IsServed_example :
    IsServed once_more list_dl 6000 three_timers 0
      (fd_cb once_more list_dl 4 true 6000 three_timers 0)
fd_cb-IsServed_example =
    fd_cb-IsServed once_more list_dl 4 6000 true three_timers 0 once_more-IsTame
      three_timers-IsScheduled (omega arith)

abbrev refuse : ℕ → Timers → ℕ → Timers × ℕ × Bool
refuse a ts w = (ts, suc w, false)

fd_cb-first_fails_example :
    fd_cb refuse list_dl 4 true 6000 three_timers 0
    ≡ some (report (record three_timers { queue = 5 ∷ 9 ∷ [] }) callback_failed, 1)
fd_cb-first_fails_example =
    fd_cb-first_fails refuse list_dl 3 6000 3 true (5 ∷ 9 ∷ []) three_timers 0 1 refl (omega arith)
      refl
