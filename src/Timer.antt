-- ===== src/Timer.antt =====
-- src/bbdd-timer.c: the timers of the daemon, in one list by their deadlines and on one timerfd.
--
-- Timers live in a store by their address. `armed` is the `it_value` that the timerfd was last set
-- to. The clock, `malloc` and the outcome of `timerfd_settime` are arguments.
pub mod Order
pub mod Armed
pub mod Walk
pub mod Served
use bbdd.Base.{
  ℕ, zero, suc, ◌+◌, ◌*◌, ◌/◌, ◌%◌, Bool, true, false, not, Option, none, some, List, [], ◌∷◌, ltb,
  ◌==◌, if◌then◌else◌, count, ◌>>=◌, DlList, Sign, negative, level, positive, InorderDl,
}
use bbdd.Base.Words.{u64}

-- struct bbdd_timer, less its links. `fn` and `arg` are pointers.
pub record Timer : Type 0 where
  pub deadline_ns : ℕ
  pub fn : ℕ
  pub arg : ℕ

-- What is sent to the monitors.
pub data TimerReport : Type 0 where
  rearm_failed callback_failed : TimerReport

pub record Timers : Type 0 where
  pub queue : List ℕ
  pub timer : ℕ → Timer
  pub armed : ℕ × ℕ
  pub log : List TimerReport

abbrev ns_per_s : ℕ
ns_per_s = 1000000000

unfoldable pub now_ns : ℕ → ℕ → ℕ
now_ns tv_sec tv_nsec = u64 (tv_sec * ns_per_s + tv_nsec)

-- Seconds and nanoseconds; zeros disarm.
unfoldable pub it_value : List ℕ → (ℕ → Timer) → ℕ × ℕ
it_value [] timer = (0, 0)
it_value (a ∷ _) timer = ((timer a).deadline_ns / ns_per_s, (timer a).deadline_ns % ns_per_s)

unfoldable pub rearm : Bool → Timers → Timers × Bool
rearm done ts =
    if done then (record ts { armed = it_value ts.queue ts.timer }, true) else (ts, false)

unfoldable pub timer_cmp : Timer → Timer → Sign
timer_cmp a b =
    if ltb a.deadline_ns b.deadline_ns
    then negative
    else if ltb b.deadline_ns a.deadline_ns
    then positive
    else level

abbrev pub is_head : ℕ → List ℕ → Bool
is_head a [] = false
is_head a (b ∷ _) = b == a

abbrev pub store_timer : (ℕ → Timer) → ℕ → Timer → ℕ → Timer
store_timer f a t b = if a == b then t else f b

abbrev pub report : Timers → TimerReport → Timers
report ts r = record ts { log = r ∷ ts.log }

-- The end of `bbdd_timer_set`: a timer that is the first has the timerfd armed for it.
unfoldable pub arm_new : DlList → Bool → ℕ → Timers → Timers × Option ℕ
arm_new dl done a ts =
    if is_head a ts.queue
    then (let (ts', armed) = rearm done ts in
        if armed then (ts', some a) else (record ts' { queue = dl.delete ts'.queue a }, none))
    else (ts, some a)

-- `room` is whether malloc succeeds, `a` the address that it gives, and `done` the outcome of the
-- call that arms the timerfd. The result is the pointer returned.
unfoldable pub timer_set :
    DlList → InorderDl → Bool → Bool → ℕ → ℕ → ℕ → ℕ → ℕ → Timers → Timers × Option ℕ
timer_set dl inorder room done a now delay_us fn arg ts =
    if not room
    then (ts, none)
    else let t : Timer = record {
      deadline_ns = u64 (now + u64 (delay_us * 1000));
      fn = fn;
      arg = arg;
    } in
      let store = store_timer ts.timer a t in
      let queue = inorder.insert (λ x y. timer_cmp (store x) (store y)) ts.queue a in
      arm_new dl done a (record ts { queue = queue; timer = store })

unfoldable pub cancel : DlList → ℕ → Timers → Timers
cancel dl a ts = record ts { queue = dl.delete ts.queue a }

unfoldable pub timer_cancel : DlList → Bool → ℕ → Timers → Timers
timer_cancel dl done a ts =
    let ts₁ = cancel dl a ts in
    if is_head a ts.queue
    then (let (ts₂, armed) = rearm done ts₁ in if armed then ts₂ else report ts₂ rearm_failed)
    else ts₁

-- The node behind the one at `a`.
abbrev pub next_of : ℕ → List ℕ → Option ℕ
next_of a [] = none
next_of a (b ∷ []) = none
next_of a (b ∷ c ∷ bs) = let rest = next_of a (c ∷ bs) in if b == a then some c else rest

abbrev pub first_of : List ℕ → Option ℕ
first_of [] = none
first_of (a ∷ _) = some a

abbrev pub is_some : Option ℕ → Bool
is_some none = false
is_some (some _) = true

abbrev is_at : Option ℕ → ℕ → Bool
is_at none a = false
is_at (some b) a = b == a

-- The second pass, on fuel.
unfoldable pub sweep : DlList → ℕ → ℕ → Option ℕ → Timers → Option (Timers × Option ℕ)
sweep dl zero now failed ts = none
sweep dl (suc n) now failed ts = elim ts.queue [
  | [] ↦ some (ts, failed)
  | a ∷ _ ↦ elim (ltb now (ts.timer a).deadline_ns) [
    | true ↦ some (ts, failed)
    | false ↦ elim (is_at failed a) [
      | true ↦ some (cancel dl a ts, none)
      | false ↦ sweep dl n now failed (cancel dl a ts)
    ]
  ]
]

-- `invoke a` runs the callback of the timer at `a`, which may set and cancel timers and change the
-- rest of the daemon, and tells whether it returned 0.
module _ {W : Type 0} (invoke : ℕ → Timers → W → Timers × W × Bool) where
  -- The first pass, on fuel; a node is read only while it is in the list, and aborts otherwise. The
  -- result has the timer whose callback failed.
  unfoldable pub walk : ℕ → ℕ → Option ℕ → Timers → W → Option (Timers × W × Option ℕ)
  walk n now none ts w = some (ts, w, none)
  walk zero now (some a) ts w = none
  walk (suc n) now (some a) ts w = elim (count a ts.queue == 0) [
    | true ↦ none
    | false ↦ elim (ltb now (ts.timer a).deadline_ns) [
      | true ↦ some (ts, w, none)
      | false ↦
          let r = invoke a ts w in
          elim r.2 [
            | true ↦ walk n now (next_of a ts.queue) r.0 r.1
            | false ↦ some (r.0, r.1, some a)
          ]
    ]
  ]

  -- `bbdd_timers_fd_cb`; `done` is the outcome of the call that arms the timerfd.
  unfoldable pub fd_cb : DlList → ℕ → Bool → ℕ → Timers → W → Option (Timers × W)
  fd_cb dl n done now ts w = do
    r ← walk n now (first_of ts.queue) ts w
    s ← sweep dl n now r.2 r.0
    (if is_some s.1
        then none
        else if is_some r.2
        then some (report s.0 callback_failed, r.1)
        else (let (ts', armed) = rearm done s.0 in
            some (if armed then ts' else report ts' rearm_failed, r.1)))
