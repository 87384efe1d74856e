-- ===== src/Examples/Lists.antt =====
-- Lists in the place of the linked lists and the hash tables of the libraries.
use bbdd.Base.{
  ℕ, suc, ◌≤◌, ◌≡◌, refl, Bool, true, false, List, [], ◌∷◌, ◌++◌, ltb, ◌==◌, if◌then◌else◌, arith,
  length, count, DlList, HashSet, count-delete_node, length-delete_node, Bool-cases, inl, inr,
  Bool-cases,
}

abbrev pub remove : List ℕ → ℕ → List ℕ
remove [] a = []
remove (x ∷ xs) a = let rest = remove xs a in if x == a then xs else x ∷ rest

pub remove_first : (us vs : List ℕ) (a : ℕ) → count a us ≡ 0 → remove (us ++ a ∷ vs) a ≡ us ++ vs
remove_first [] vs a h = ground arith
remove_first (u ∷ us) vs a h = ground (arith, remove_first us vs a)

abbrev pub list_dl : DlList
list_dl = record {
  append = λ xs a. xs ++ a ∷ [];
  delete = remove;
  append_eq = λ xs a. refl;
  delete_eq = remove_first;
}

-- A list that has no number twice.
pub record KeyList : Type 0 where
  pub keys : List ℕ
  pub once : (k : ℕ) → count k keys ≤ 1

abbrev pub has : ℕ → KeyList → Bool
has k t = ltb 0 (count k t.keys)

pub add_once : (k j : ℕ) (t : KeyList) → (count k t.keys == 0) ≡ true → count j (k ∷ t.keys) ≤ 1
add_once k j t h = ground (arith, t.once j)

abbrev pub add : ℕ → KeyList → KeyList
add k t = elim (Bool-cases (count k t.keys == 0)) [
  | inl q ↦ record { keys = k ∷ t.keys; once = λ j. add_once k j t q }
  | inr q ↦ t
]

pub remove_once :
    (k j : ℕ) (xs : List ℕ)
    → ((i : ℕ) → count i xs ≤ 1)
    → (count k xs == 0) ≡ false
    → count j (remove xs k) ≤ 1
remove_once k j xs once h = ground (arith, count-delete_node list_dl j k xs (ground arith), once j)

abbrev pub del : ℕ → KeyList → KeyList
del k t = elim (Bool-cases (count k t.keys == 0)) [
  | inl q ↦ t
  | inr q ↦ record { keys = remove t.keys k; once = λ j. remove_once k j t.keys t.once q }
]

pub has_add_keys :
    (k j : ℕ) (t : KeyList) → has k t ≡ false → has j (add k t) ≡ (if k == j then true else has j t)
has_add_keys k j t h = ground (arith, t.once j)

pub size_add_keys :
    (k : ℕ) (t : KeyList) → has k t ≡ false → length (add k t).keys ≡ suc (length t.keys)
size_add_keys k t h = ground arith

pub keys_count_keys : (k : ℕ) (t : KeyList) → count k t.keys ≡ (if has k t then 1 else 0)
keys_count_keys k t = ground (arith, t.once k)

pub has_del_keys :
    (k j : ℕ) (t : KeyList) → has k t ≡ true → has j (del k t) ≡ (if k == j then false else has j t)
has_del_keys k j t h =
    let q : (count k t.keys == 0) ≡ false = ground arith in
    ground (arith, count-delete_node list_dl j k t.keys (ground arith), t.once j)

pub size_del_keys :
    (k : ℕ) (t : KeyList) → has k t ≡ true → suc (length (del k t).keys) ≡ length t.keys
size_del_keys k t h =
    let q : (count k t.keys == 0) ≡ false = ground arith in
    ground (arith, length-delete_node list_dl k t.keys (ground arith))

abbrev pub empty_keys : KeyList
empty_keys = record { keys = []; once = λ k. omega arith }

abbrev pub list_hash : HashSet
list_hash = record {
  Table = KeyList;
  has = has;
  add = add;
  del = del;
  size = λ t. length t.keys;
  keys = λ t. t.keys;
  has_add = has_add_keys;
  has_del = has_del_keys;
  size_add = size_add_keys;
  size_del = size_del_keys;
  keys_count = keys_count_keys;
}
