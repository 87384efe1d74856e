-- ===== src/Base/Hash.antt =====
-- uthash.h as an interface: a hash table of structures by a number inside them. The structures stay
-- where they are in memory, so that a table is its set of keys, and a store has the structures.
use Prim.Native.Nat.{ℕ, suc}
use mathlib.Core.Path.{◌≡◌}
use mathlib.Core.Bool.{Bool, true, false}
use mathlib.Core.List.{List}
use bbdd.Base.Tests.{◌==◌, if◌then◌else◌}
use bbdd.Base.Counts.{count}

-- HASH_FIND_INT, HASH_ADD_INT, HASH_DEL, HASH_COUNT and the order of HASH_ITER, by the user guide:
-- a key that is added is not in the table before, and a key that is deleted is.
pub record HashSet : Type 1 where
  pub Table : Type 0
  pub has : ℕ → Table → Bool
  pub add : ℕ → Table → Table
  pub del : ℕ → Table → Table
  pub size : Table → ℕ
  pub keys : Table → List ℕ
  pub has_add :
      (k j : ℕ) (t : Table) → has k t ≡ false → has j (add k t) ≡ (if k == j then true else has j t)
  pub has_del :
      (k j : ℕ) (t : Table) → has k t ≡ true → has j (del k t) ≡ (if k == j then false else has j t)
  pub size_add : (k : ℕ) (t : Table) → has k t ≡ false → size (add k t) ≡ suc (size t)
  pub size_del : (k : ℕ) (t : Table) → has k t ≡ true → suc (size (del k t)) ≡ size t
  pub keys_count : (k : ℕ) (t : Table) → count k (keys t) ≡ (if has k t then 1 else 0)
