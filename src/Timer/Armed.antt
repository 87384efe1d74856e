-- ===== src/Timer/Armed.antt =====
-- src/bbdd-timer.c: the list goes up by the deadlines, and the timerfd is set to the first.
use bbdd.Base.{
  ℕ, ◌+◌, ◌*◌, ◌≤◌, ◌≡◌, ◌≢◌, ◌⊎◌, ◌∙◌, ap, sym, refl, inl, inr, Bool, true, false, Option, none,
  some, List, [], ◌∷◌, ◌++◌, arith, Bool-cases, count, count-append, ◌==◌, DlList, InOrder,
  InorderDl, count_split,
}
use bbdd.Base.Words.{u64}
use bbdd.Timer.{
  Timer, Timers, rearm_failed, rearm, it_value, timer_cmp, timer_set, cancel, timer_cancel, is_head,
  store_timer, arm_new,
}
use bbdd.Timer.Order.{deadline, InOrder-insert, InOrder-delete, InOrder-keys, timer_cmp-Compares}

-- The timers are in order, no node is in the list twice, and the timerfd is set to the first deadline.
pub record IsScheduled (ts : Timers) : Type 0 where
  pub ordered : InOrder (deadline ts.timer) ts.queue
  pub once : (a : ℕ) → count a ts.queue ≤ 1
  pub armed : ts.armed ≡ it_value ts.queue ts.timer

-- The value is that of the first deadline, whatever else is in the store.
it_value-head :
    (f g : ℕ → Timer) (xs : List ℕ)
    → ((b : ℕ) → count b xs ≢ 0 → f b ≡ g b)
    → it_value xs f ≡ it_value xs g
unfolding it_value
it_value-head f g [] same = refl
it_value-head f g (x ∷ xs) same =
    let e = ap (λ t. t.deadline_ns) (same x (ground arith)) in rw e refl

it_value-first :
    (u : ℕ) (xs ys : List ℕ) (f : ℕ → Timer) → it_value (u ∷ xs) f ≡ it_value (u ∷ ys) f
unfolding it_value
it_value-first u xs ys f = refl

store_timer-other : (f : ℕ → Timer) (a b : ℕ) (t : Timer) → a ≢ b → store_timer f a t b ≡ f b
store_timer-other f a b t ne = let q : (a == b) ≡ false = ground arith in rw q refl

store_timer-same : (f : ℕ → Timer) (a : ℕ) (t : Timer) → store_timer f a t a ≡ t
store_timer-same f a t = let q : (a == a) ≡ true = ground arith in rw q refl

-- The timer at `a` is set to `when`, and the others are as they were; or nothing has changed.
abbrev pub IsPending : ℕ → ℕ → Timers → Timers × Option ℕ → Type 0
IsPending a when ts (ts', none) = (ts'.queue ≡ ts.queue) × (ts'.armed ≡ ts.armed)
IsPending a when ts (ts', some p) =
    (p ≡ a)
    × (deadline ts'.timer a ≡ when)
    × ((b : ℕ) → count b ts'.queue ≡ count b (a ∷ ts.queue))
    × ((b : ℕ) → a ≢ b → ts'.timer b ≡ ts.timer b)

is_head-fresh : (a u : ℕ) (xs ys : List ℕ) → count a (u ∷ xs) ≡ 0 → is_head a (u ∷ ys) ≡ false
is_head-fresh a u xs ys h = ground arith

is_head-first : (a : ℕ) (xs : List ℕ) → is_head a (a ∷ xs) ≡ true
is_head-first a xs = ground arith

member-ne : (a b : ℕ) (xs : List ℕ) → count a xs ≡ 0 → count b xs ≢ 0 → a ≢ b
member-ne a b xs fresh m e = m (rw e at fresh)

count-placed : (a b : ℕ) (us vs : List ℕ) → count b (us ++ a ∷ vs) ≡ count b (a ∷ us ++ vs)
count-placed a b us vs = ground (arith, count-append b us vs, count-append b us (a ∷ vs))

module _ (dl : DlList) where
  -- What goes for either place in the list.
  abbrev Placed : ℕ → List ℕ → List ℕ → Timers → Timers → Type 0
  Placed a us vs ts ts' =
      IsScheduled ts
      × (count a ts.queue ≡ 0)
      × (ts.queue ≡ us ++ vs)
      × (ts'.queue ≡ us ++ a ∷ vs)
      × (ts'.armed ≡ ts.armed)
      × InOrder (deadline ts'.timer) (us ++ a ∷ vs)
      × ((b : ℕ) → a ≢ b → ts'.timer b ≡ ts.timer b)

  once-Placed :
      (a : ℕ) (us vs : List ℕ) (ts ts' : Timers)
      → Placed a us vs ts ts'
      → (b : ℕ) → count b (us ++ a ∷ vs) ≤ 1
  once-Placed a us vs ts ts' (v, fresh, split, placed, armed, o, others) b =
      let n : count b (us ++ vs) ≤ 1 = rw (sym split) (v.once b) in
      let z : count a (us ++ vs) ≡ 0 = rw (sym split) fresh in
      elim (Bool-cases (a == b)) [
        | inl q ↦
            let e : a ≡ b = ground arith in
            let z' : count b (us ++ vs) ≡ 0 = rw (sym e) z in ground (arith, count-placed a b us vs)
        | inr q ↦ ground (arith, count-placed a b us vs)
      ]

  armed-old :
      (a : ℕ) (us vs : List ℕ) (ts ts' : Timers)
      → Placed a us vs ts ts'
      → ts'.armed ≡ it_value (us ++ vs) ts'.timer
  armed-old a us vs ts ts' (v, fresh, split, placed, armed, o, others) =
      armed
      ∙ v.armed
      ∙ it_value-head ts.timer ts'.timer ts.queue
          (λ b m. sym (others b (member-ne a b ts.queue fresh m)))
      ∙ ap (λ q. it_value q ts'.timer) split

  arm_new-IsPending :
      (done : Bool) (a when : ℕ) (us vs : List ℕ) (ts ts' : Timers)
      → deadline ts'.timer a ≡ when
      → Placed a us vs ts ts'
      → IsScheduled (arm_new dl done a ts').0 × IsPending a when ts (arm_new dl done a ts')
  unfolding arm_new rearm
  arm_new-IsPending false a when [] vs ts ts' at_when h =
      let (v, fresh, split, placed, armed, o, others) = h in
      rw (placed, is_head-first a vs, dl.delete_eq [] vs a refl)
        (
          record {
            ordered = InOrder-delete _ [] vs a o;
            once = λ b. rw split at v.once b;
            armed = armed-old a [] vs ts ts' h;
          },
          (sym split, armed),
        )
  arm_new-IsPending true a when [] vs ts ts' at_when h =
      let (v, fresh, split, placed, armed, o, others) = h in
      let same : (b : ℕ) → count b (a ∷ vs) ≡ count b (a ∷ ts.queue) =
        λ b. ap (λ q. count b (a ∷ q)) (sym split) in
      rw (placed, is_head-first a vs)
        (
          record { ordered = o; once = once-Placed a [] vs ts ts' h; armed = refl },
          (refl, at_when, same, others),
        )
  arm_new-IsPending done a when (u ∷ us) vs ts ts' at_when h =
      let (v, fresh, split, placed, armed, o, others) = h in
      let z : count a (u ∷ us ++ vs) ≡ 0 = ap (count a) (sym split) ∙ fresh in
      let same : (b : ℕ) → count b (u ∷ us ++ a ∷ vs) ≡ count b (a ∷ ts.queue) =
        λ b. count-placed a b (u ∷ us) vs ∙ ap (λ q. count b (a ∷ q)) (sym split) in
      rw (placed, is_head-fresh a u (us ++ vs) (us ++ a ∷ vs) z)
        (
          record {
            ordered = o;
            once = once-Placed a (u ∷ us) vs ts ts' h;
            armed =
                armed-old a (u ∷ us) vs ts ts' h
                ∙ it_value-first u (us ++ vs) (us ++ a ∷ vs) ts'.timer;
          },
          (refl, at_when, same, others),
        )

  -- Setting a timer, at an address that is not in the list, keeps the list in order and the timerfd
  -- set to the first deadline, whether or not its calls succeed. When it succeeds the timer is in
  -- the list with its deadline, and the others are as they were; or else the list is as it was.
  pub timer_set-IsPending :
      (inorder : InorderDl) (room done : Bool) (a now delay_us fn arg : ℕ) (ts : Timers)
      → IsScheduled ts
      → count a ts.queue ≡ 0
      → let r = timer_set dl inorder room done a now delay_us fn arg ts in
        IsScheduled r.0 × IsPending a (u64 (now + u64 (delay_us * 1000))) ts r
  unfolding timer_set
  timer_set-IsPending inorder false done a now delay_us fn arg ts v fresh = (v, (refl, refl))
  timer_set-IsPending inorder true done a now delay_us fn arg ts v fresh =
      let t : Timer = record {
        deadline_ns = u64 (now + u64 (delay_us * 1000));
        fn = fn;
        arg = arg;
      } in
      let store = store_timer ts.timer a t in
      let others : (b : ℕ) → a ≢ b → store b ≡ ts.timer b =
        λ b ne. store_timer-other ts.timer a b t ne in
      let o =
        InOrder-keys (deadline ts.timer) (deadline store) ts.queue
          (λ b m. ap (λ t. t.deadline_ns) (others b (member-ne a b ts.queue fresh m))) v.ordered in
      let (us, vs, split, placed, lo, hi) =
        inorder.insert_eq _ (deadline store) ts.queue a (timer_cmp-Compares store) o in
      arm_new-IsPending done a _ us vs ts
        (record ts {
          queue = inorder.insert (λ x y. timer_cmp (store x) (store y)) ts.queue a;
          timer = store;
        })
        (ap (λ t. t.deadline_ns) (store_timer-same ts.timer a t))
        (
          v,
          fresh,
          split,
          placed,
          refl,
          InOrder-insert (deadline store) us vs a (rw split at o) lo hi,
          others,
        )

  -- The timer at `a` is out, and the others are as they were. The timerfd is set to the first
  -- deadline, or the failure to do so is reported.
  pub record IsCancelled (a : ℕ) (ts ts' : Timers) : Type 0 where
    pub ordered : InOrder (deadline ts'.timer) ts'.queue
    pub others : (b : ℕ) → count b ts.queue ≡ count b (a ∷ ts'.queue)
    pub timers : ts'.timer ≡ ts.timer
    pub armed : (ts'.armed ≡ it_value ts'.queue ts'.timer) ⊎ (ts'.log ≡ rearm_failed ∷ ts.log)

  cancel_at :
      (done : Bool) (a : ℕ) (us vs : List ℕ) (ts : Timers)
      → IsScheduled ts
      → ts.queue ≡ us ++ a ∷ vs
      → count a us ≡ 0
      → IsCancelled a ts (timer_cancel dl done a ts)
  unfolding timer_cancel cancel rearm
  cancel_at true a [] vs ts v split z =
      rw (split, is_head-first a vs, dl.delete_eq [] vs a refl)
        record {
          ordered = InOrder-delete _ [] vs a (rw split at v.ordered);
          others = λ b. refl;
          timers = refl;
          armed = inl refl;
        }
  cancel_at false a [] vs ts v split z =
      rw (split, is_head-first a vs, dl.delete_eq [] vs a refl)
        record {
          ordered = InOrder-delete _ [] vs a (rw split at v.ordered);
          others = λ b. refl;
          timers = refl;
          armed = inr refl;
        }
  cancel_at done a (u ∷ us) vs ts v split z =
      rw (split, is_head-fresh a u us (us ++ a ∷ vs) z, dl.delete_eq (u ∷ us) vs a z)
        record {
          ordered = InOrder-delete _ (u ∷ us) vs a (rw split at v.ordered);
          others = λ b. count-placed a b (u ∷ us) vs;
          timers = refl;
          armed = inl (
              v.armed
              ∙ ap (λ q. it_value q ts.timer) split
              ∙ it_value-first u (us ++ a ∷ vs) (us ++ vs) ts.timer);
        }

  -- Cancelling a timer that is set, in a list that is in order, holds each timer once and has the
  -- timerfd armed for the first deadline, takes it out and nothing else, and keeps the list in order.
  -- The timerfd is armed for the first deadline that is left, or a failure to arm it is reported.
  pub timer_cancel-IsCancelled :
      (done : Bool) (a : ℕ) (ts : Timers)
      → IsScheduled ts
      → count a ts.queue ≢ 0
      → IsCancelled a ts (timer_cancel dl done a ts)
  timer_cancel-IsCancelled done a ts v m =
      let (us, vs, split, z) = count_split a ts.queue m in cancel_at done a us vs ts v split z
