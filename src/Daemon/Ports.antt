-- ===== src/Daemon/Ports.antt =====
-- The bitmap of the allocator as a set of ports.
use bbdd.Base.{
  ℕ, zero, suc, ◌+◌, ◌-◌, ◌*◌, ◌/◌, ◌%◌, ◌<◌, ◌≤◌, ◌≡◌, ◌≢◌, ◌⊎◌, ◌∙◌, inl, inr, refl, Bool, true,
  false, not, none, some, List, [], ◌∷◌, arith, ◌==◌, if◌then◌else◌, get_or, set_at, get-set,
  length-set, map, length, Bool-cases, Option-cases,
}
use bbdd.Daemon.Sport.{Word, ffsl, sport_get_from, sport_get, sport_put}

-- A port is taken when its bit is set; a port outside the bitmap counts as taken.
abbrev pub bit_of : List Word → ℕ → ℕ → Bool
bit_of occ i f = get_or true f (get_or [] i occ)

abbrev pub taken : List Word → ℕ → Bool
taken occ port = bit_of occ ((port - 49152) / 64) ((port - 49152) % 64)

-- The bitmap has 256 words of 64 bits.
pub record IsBitmap (occ : List Word) : Type 0 where
  pub words : length occ ≡ 256
  pub bits : (i : ℕ) → i < 256 → length (get_or [] i occ) ≡ 64

ffsl-bit :
    (w : Word)
    → ffsl (map not w) ≢ 0
    → (ffsl (map not w) ≤ length w) × (get_or true (ffsl (map not w) - 1) w ≡ false)
unfolding ffsl
ffsl-bit [] h = absurd (h refl)
ffsl-bit (false ∷ w) h = ground arith
ffsl-bit (true ∷ w) h = ground (arith, ffsl-bit w)

-- No bit is found when all are set.
ffsl-full : (w : Word) (f : ℕ) → ffsl (map not w) ≡ 0 → get_or true f w ≡ true
unfolding ffsl
ffsl-full [] f h = refl
ffsl-full (false ∷ w) f h = absurd (ground arith)
ffsl-full (true ∷ w) zero h = refl
ffsl-full (true ∷ w) (suc f) h = ground (arith, ffsl-full w f)

-- The loop finds the first word with a free bit, and sets that bit.
get_from_sound :
    (i port : ℕ) (ws ws' : List Word)
    → sport_get_from i ws ≡ some (ws', port)
    → (k : ℕ) × (f : ℕ) × (port ≡ (49152 + (i + k) * 64 + f) % 65536)
      × (k < length ws)
      × (f < length (get_or [] k ws))
      × (bit_of ws k f ≡ false)
      × (ws' ≡ set_at k (set_at f true (get_or [] k ws)) ws)
unfolding sport_get_from
get_from_sound i port [] ws' h = absurd (ground arith)
get_from_sound i port (w ∷ ws) ws' h = elim (Bool-cases (ffsl (map not w) == 0)) [
  | inl q ↦ elim (Option-cases (sport_get_from (suc i) ws)) [
    | inl n ↦ absurd (ground arith)
    | inr ((vs, p), r) ↦
        let (k, f, at, kl, fl, free, set) = get_from_sound (suc i) p ws vs r in
        (suc k, f, ground arith, omega arith, ground arith, ground arith, ground arith)
  ]
  | inr q ↦
      let found = ffsl-bit w (ground arith) in
      (0, ffsl (map not w) - 1, ground arith, omega arith, ground arith, ground arith, ground arith)
]

get_from-full : (i k f : ℕ) (ws : List Word) → sport_get_from i ws ≡ none → bit_of ws k f ≡ true
unfolding sport_get_from
get_from-full i k f [] h = refl
get_from-full i zero f (w ∷ ws) h = ground (arith, ffsl-full w f)
get_from-full i (suc k) f (w ∷ ws) h = ground (arith, get_from-full (suc i) k f ws)

set_bit :
    (k f i j : ℕ) (v : Bool) (ws : List Word)
    → k < length ws
    → f < length (get_or [] k ws)
    → bit_of (set_at k (set_at f v (get_or [] k ws)) ws) i j
      ≡ (if k == i then (if f == j then v else bit_of ws i j) else bit_of ws i j)
set_bit k f i j v ws kl fl =
    rw (get-set [] (set_at f v (get_or [] k ws)) k i ws kl)
      (ground (arith, get-set true v f j (get_or [] k ws) fl))

set_bit-IsBitmap :
    (k f : ℕ) (v : Bool) (ws : List Word)
    → k < length ws
    → IsBitmap ws
    → IsBitmap (set_at k (set_at f v (get_or [] k ws)) ws)
set_bit-IsBitmap k f v ws kl b = record {
  words = length-set (set_at f v (get_or [] k ws)) k ws ∙ b.words;
  bits = λ i il.
      rw (get-set [] (set_at f v (get_or [] k ws)) k i ws kl)
        (ground (arith, b.bits i il, length-set v f (get_or [] k ws)));
}

-- The port that is given out lies between 49152 and 65535 and was free; it is taken from then on,
-- and no other port changes.
pub record IsGiven (occ occ' : List Word) (port : ℕ) : Type 0 where
  pub low : 49152 ≤ port
  pub high : port ≤ 65535
  pub was_free : taken occ port ≡ false
  pub marked : (q : ℕ) → 49152 ≤ q → taken occ' q ≡ (if q == port then true else taken occ q)
  pub bitmap : IsBitmap occ'

-- The index of a port in the bitmap.
port_index :
    (port k f : ℕ)
    → port ≡ (49152 + (0 + k) * 64 + f) % 65536
    → k < 256
    → f < 64
    → (49152 ≤ port) × (port ≤ 65535) × ((port - 49152) / 64 ≡ k) × ((port - 49152) % 64 ≡ f)
port_index port k f at kl fl = (omega arith, omega arith, omega arith, omega arith)

index_eq :
    (p q : ℕ)
    → 49152 ≤ p
    → 49152 ≤ q
    → (p - 49152) / 64 ≡ (q - 49152) / 64
    → (p - 49152) % 64 ≡ (q - 49152) % 64
    → p ≡ q
index_eq p q a b c d = omega arith

-- Writing the bit of a port.
mark_port :
    (occ : List Word) (port q : ℕ) (v : Bool)
    → IsBitmap occ
    → 49152 ≤ port
    → port ≤ 65535
    → 49152 ≤ q
    → let k = (port - 49152) / 64 in
      taken (set_at k (set_at ((port - 49152) % 64) v (get_or [] k occ)) occ) q
      ≡ (if q == port then v else taken occ q)
mark_port occ port q v b lo hi ql =
    let k = (port - 49152) / 64 in
    let f = (port - 49152) % 64 in
    let kl : k < 256 = omega arith in
    let fl : f < 64 = omega arith in
    let at =
      set_bit k f ((q - 49152) / 64) ((q - 49152) % 64) v occ (ground (arith, b.words))
        (ground (arith, b.bits k kl)) in
    rw at (ground (arith, index_eq port q lo ql))

given :
    (occ occ' : List Word) (port k f : ℕ)
    → IsBitmap occ
    → port ≡ (49152 + (0 + k) * 64 + f) % 65536
    → k < length occ
    → f < length (get_or [] k occ)
    → bit_of occ k f ≡ false
    → occ' ≡ set_at k (set_at f true (get_or [] k occ)) occ
    → IsGiven occ occ' port
given occ occ' port k f b at kl fl free set =
    let kl' : k < 256 = ground (arith, b.words) in
    let fl' : f < 64 = ground (arith, b.bits k kl') in
    let (lo, hi, ki, fi) = port_index port k f at kl' fl' in
    record {
      low = lo;
      high = hi;
      was_free = rw (ki, fi) free;
      marked = λ q ql. let m = mark_port occ port q true b lo hi ql in ground arith;
      bitmap = rw set (set_bit-IsBitmap k f true occ kl b);
    }

-- Giving out a port succeeds with a free one that it marks, or fails when every port is taken.
pub sport_get-gives :
    (occ : List Word)
    → IsBitmap occ
    → ((sport_get occ ≡ none) × ((q : ℕ) → taken occ q ≡ true))
      ⊎ ((occ' : List Word) × (port : ℕ) × (sport_get occ ≡ some (occ', port))
          × IsGiven occ occ' port)
unfolding sport_get
sport_get-gives occ b = elim (Option-cases (sport_get_from 0 occ)) [
  | inl n ↦ inl (n, λ q. get_from-full 0 _ _ occ n)
  | inr ((occ', port), s) ↦
      let (k, f, at, kl, fl, free, set) = get_from_sound 0 port occ occ' s in
      inr (occ', port, s, given occ occ' port k f b at kl fl free set)
]

-- Giving back a port in the range frees that port, and changes no other.
pub sport_put-frees :
    (occ : List Word) (port : ℕ)
    → IsBitmap occ
    → 49152 ≤ port
    → port ≤ 65535
    → (occ' : List Word) × (sport_put occ port ≡ some occ')
      × IsBitmap occ'
      × ((q : ℕ) → 49152 ≤ q → taken occ' q ≡ (if q == port then false else taken occ q))
unfolding sport_put
sport_put-frees occ port b lo hi =
    let k = (port - 49152) / 64 in
    let kl : k < 256 = omega arith in
    (
      set_at k (set_at ((port - 49152) % 64) false (get_or [] k occ)) occ,
      ground arith,
      set_bit-IsBitmap k ((port - 49152) % 64) false occ (ground (arith, b.words)) b,
      λ q ql. mark_port occ port q false b lo hi ql,
    )
