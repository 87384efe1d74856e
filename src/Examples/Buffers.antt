-- ===== src/Examples/Buffers.antt =====
-- The string buffer and the port allocator at concrete values.
use bbdd.Base.{
  ℕ, zero, suc, ◌<◌, ◌≤◌, ◌≡◌, ◌⊎◌, refl, true, false, some, none, List, [], ◌∷◌, length, arith,
  get_or, if◌then◌else◌, ◌==◌,
}
use bbdd.Sb.{Sb, push_len}
use bbdd.Sb.Content.Push.{IsValid, IsPushed, push_len-IsPushed}
use bbdd.Daemon.Sport.{Word, sport_get, sport_put}
use bbdd.Daemon.Ports.{IsBitmap, IsGiven, taken, sport_get-gives, sport_put-frees}

-- "hello" stands in the middle of 1024 bytes.
abbrev hello : Sb
hello = record {
  has_buf = true;
  buf = λ i. get_or 0 i (0 ∷ 0 ∷ 104 ∷ 101 ∷ 108 ∷ 108 ∷ 111 ∷ []);
  off = 2;
  len = 5;
  size = 1024;
  maxsize = 0;
}

hello-IsValid : IsValid hello
hello-IsValid = record { fits = omega arith; empty = λ h. cc; limited = λ h. absurd (h refl) }

push_len-IsPushed_example : IsPushed hello (33 ∷ []) (push_len (λ n. true) hello (33 ∷ []))
push_len-IsPushed_example =
    push_len-IsPushed (λ n. true) hello (33 ∷ []) hello-IsValid (omega arith)

abbrev replicate {ℓ} : {A : Type ℓ} → ℕ → A → List A
replicate zero x = []
replicate (suc n) x = x ∷ replicate n x

length-replicate {ℓ} : {A : Type ℓ} (n : ℕ) (x : A) → length (replicate n x) ≡ n
length-replicate zero x = refl
length-replicate (suc n) x = ground (arith, length-replicate n x)

get-replicate {ℓ} : {A : Type ℓ} (z x : A) (i n : ℕ) → i < n → get_or z i (replicate n x) ≡ x
get-replicate z x i zero h = absurd (omega arith)
get-replicate z x zero (suc n) h = refl
get-replicate z x (suc i) (suc n) h = get-replicate z x i n (omega arith)

-- All ports are free.
abbrev pub all_free : List Word
all_free = replicate 256 (replicate 64 false)

pub all_free-IsBitmap : IsBitmap all_free
all_free-IsBitmap = record {
  words = length-replicate 256 (replicate 64 false);
  bits = λ i h. rw (get-replicate [] (replicate 64 false) i 256 h) (length-replicate 64 false);
}

sport_get-gives_example :
    ((sport_get all_free ≡ none) × ((q : ℕ) → taken all_free q ≡ true))
    ⊎ ((occ' : List Word) × (port : ℕ) × (sport_get all_free ≡ some (occ', port))
        × IsGiven all_free occ' port)
sport_get-gives_example = sport_get-gives all_free all_free-IsBitmap

sport_put-frees_example :
    (occ' : List Word) × (sport_put all_free 50000 ≡ some occ')
    × IsBitmap occ'
    × ((q : ℕ) → 49152 ≤ q → taken occ' q ≡ (if q == 50000 then false else taken all_free q))
sport_put-frees_example =
    sport_put-frees all_free 50000 all_free-IsBitmap (omega arith) (omega arith)
