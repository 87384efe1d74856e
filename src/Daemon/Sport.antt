-- ===== src/Daemon/Sport.antt =====
-- src/bbdd-d.c: the allocator of source ports. A word of the bitmap is the list of its bits, the
-- lowest first, so that a port is bit `f` of word `i` for `i * 64 + f` ports above the lowest.
use bbdd.Base.{
  ℕ, suc, ◌+◌, ◌-◌, ◌*◌, ◌/◌, ◌%◌, Bool, true, false, not, Option, none, some, List, [], ◌∷◌, ltb,
  ◌==◌, if◌then◌else◌, get_or, set_at, map,
}
use bbdd.Base.Words.{u16}

abbrev pub sport_lo : ℕ
sport_lo = 49152

abbrev pub bits_per_long : ℕ
bits_per_long = 64

abbrev pub nwords : ℕ
nwords = 256

abbrev pub Word : Type 0
Word = List Bool

-- `ffsl`: one more than the index of the lowest bit that is set, or 0.
unfoldable pub ffsl : Word → ℕ
ffsl [] = 0
ffsl (true ∷ w) = 1
ffsl (false ∷ w) = let n = ffsl w in if n == 0 then 0 else suc n

-- The loop, at the word of index `i`.
unfoldable pub sport_get_from : ℕ → List Word → Option (List Word × ℕ)
sport_get_from i [] = none
sport_get_from i (w ∷ ws) =
    let rest = sport_get_from (suc i) ws in
    let n = ffsl (map not w) in
    if not (n == 0)
    then some (set_at (n - 1) true w ∷ ws, u16 (sport_lo + i * bits_per_long + (n - 1)))
    else elim rest [ none ↦ none | some (ws', port) ↦ some (w ∷ ws', port) ]

unfoldable pub sport_get : List Word → Option (List Word × ℕ)
sport_get occ = sport_get_from 0 occ

-- `none` for the failed assertion.
unfoldable pub sport_put : List Word → ℕ → Option (List Word)
sport_put occ port =
    if ltb port sport_lo
    then none
    else let d = port - sport_lo in
      let i = d / bits_per_long in
      some (set_at i (set_at (d % bits_per_long) false (get_or [] i occ)) occ)
