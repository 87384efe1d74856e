-- ===== src/Base/Inorder.antt =====
-- DL_INSERT_INORDER of utlist.h as an interface, over the addresses of the nodes.
use Prim.Native.Nat.{ℕ, ◌≤◌, ◌<◌}
use mathlib.Core.Path.{◌≡◌}
use mathlib.Core.Logic.{◌≢◌, ◌↔◌}
use mathlib.Core.List.{List, [], ◌∷◌, ◌++◌}
use bbdd.Base.Counts.{count}

-- The sign of what a comparison returns.
pub data Sign : Type 0 where
  negative level positive : Sign

-- The keys of the nodes go up.
pub data InOrder (key : ℕ → ℕ) : List ℕ → Type 0 where
  nothing : InOrder key []
  before :
      {a : ℕ} {xs : List ℕ}
      → ((b : ℕ) → count b xs ≢ 0 → key a ≤ key b)
      → InOrder key xs
      → InOrder key (a ∷ xs)

-- A comparison that orders the nodes by a key.
abbrev pub Compares : (ℕ → ℕ → Sign) → (ℕ → ℕ) → Type 0
Compares cmp key =
    (a b : ℕ) → ((cmp a b ≡ negative) ↔ (key a < key b)) × ((cmp a b ≡ positive) ↔ (key b < key a))

-- By the user guide: a node that is inserted into a list that is in order goes behind nodes that
-- are not greater, and before nodes that are not less.
pub record InorderDl : Type 0 where
  pub insert : (ℕ → ℕ → Sign) → List ℕ → ℕ → List ℕ
  pub insert_eq :
      (cmp : ℕ → ℕ → Sign) (key : ℕ → ℕ) (xs : List ℕ) (a : ℕ)
      → Compares cmp key
      → InOrder key xs
      → (us : List ℕ) × (vs : List ℕ) × (xs ≡ us ++ vs)
        × (insert cmp xs a ≡ us ++ a ∷ vs)
        × ((b : ℕ) → count b us ≢ 0 → key b ≤ key a)
        × ((b : ℕ) → count b vs ≢ 0 → key a ≤ key b)
