-- ===== src/Sb.antt =====
-- src/bbdd-sb.c: the string buffer that the connections read into and write from.
--
-- The memory is a function from the offset to the byte, of which the first `size` bytes are
-- allocated. `realloc` keeps it, and may fail: `alloc` tells by the size asked for.
pub mod Growth
pub mod Content
use bbdd.Base.{
  ℕ, zero, suc, ◌+◌, ◌-◌, ◌*◌, Bool, true, false, not, ◌&&◌, Option, none, some, List, [], ◌∷◌, ltb,
  leb, ◌==◌, if◌then◌else◌, ◌>>=◌, length,
}
use bbdd.Base.Words.{u64}

pub record Sb : Type 0 where
  pub has_buf : Bool  -- `buf` is not NULL
  pub buf : ℕ → ℕ
  pub off : ℕ
  pub len : ℕ
  pub size : ℕ
  pub maxsize : ℕ

-- The result of an operation that can fail.
pub data SbResult : Type 0 where
  ok : Sb → SbResult
  overflow alloc_failed : Sb → SbResult

unfoldable pub memmove : (ℕ → ℕ) → ℕ → ℕ → ℕ → ℕ
memmove buf off len i = if ltb i len then buf (off + i) else buf i

-- The bytes of a list at an offset, and everything else as before.
unfoldable pub mempcpy : (ℕ → ℕ) → ℕ → List ℕ → ℕ → ℕ
mempcpy buf at [] i = buf i
mempcpy buf at (x ∷ xs) i = let rest = mempcpy buf (suc at) xs i in if i == at then x else rest

unfoldable pub compact : Sb → Sb
compact sb = if sb.off == 0 then sb else record sb { buf = memmove sb.buf sb.off sb.len; off = 0 }

unfoldable pub end : Sb → ℕ
end sb = sb.off + sb.len

unfoldable pub free_tail : Sb → ℕ
free_tail sb = sb.size - end sb

abbrev pub min_size : ℕ
min_size = 1024

abbrev pub grow_fuel : ℕ
grow_fuel = 65

-- The loop that doubles the size, on fuel.
unfoldable pub grow : ℕ → ℕ → ℕ → Option ℕ
grow zero nsize needed_size = none
grow (suc n) nsize needed_size =
    let rest = grow n (if ltb 0 nsize then u64 (nsize * 2) else min_size) needed_size in
    if ltb nsize needed_size then rest else some nsize

-- The size to ask for, once the loop has found `nsize`; `none` when the limit is too small.
unfoldable pub limit_size : ℕ → ℕ → ℕ → Option ℕ
limit_size maxsize needed_size nsize =
    if not (maxsize == 0) && ltb maxsize nsize
    then (if ltb maxsize needed_size then none else some maxsize)
    else some nsize

-- From the label `realloc` on. The assertions are `none`.
unfoldable pub reallocate : (ℕ → Bool) → Sb → ℕ → Option SbResult
reallocate alloc sb extra_len =
    if not (sb.off == 0)
    then none
    else (grow grow_fuel sb.size (u64 (sb.len + extra_len)) >>= λ nsize.
        elim (limit_size sb.maxsize (u64 (sb.len + extra_len)) nsize) [
          | none ↦ some (overflow sb)
          | some size ↦
              if not (alloc size)
              then some (alloc_failed sb)
              else let sb' = record sb { has_buf = true; size = size } in
                if ltb (free_tail sb') extra_len then none else some (ok sb')
        ])

unfoldable pub get_buffer : (ℕ → Bool) → Sb → ℕ → Option SbResult
get_buffer alloc sb extra_len =
    if not sb.has_buf
    then reallocate alloc sb extra_len
    else if leb extra_len (free_tail sb)
    then some (ok sb)
    else let sb' = compact sb in
      if leb extra_len (free_tail sb') then some (ok sb') else reallocate alloc sb' extra_len

-- Write the bytes and a NUL behind the message.
unfoldable pub write_tail : Sb → List ℕ → Sb
write_tail sb bytes = record sb {
  buf = mempcpy (mempcpy sb.buf (end sb) bytes) (end sb + length bytes) (0 ∷ []);
  len = sb.len + length bytes;
}

unfoldable pub push_len : (ℕ → Bool) → Sb → List ℕ → Option SbResult
push_len alloc sb bytes = get_buffer alloc sb (length bytes + 1) >>= λ r. some (elim r [
  | ok sb' ↦ ok (write_tail sb' bytes)
  | overflow sb' ↦ overflow sb'
  | alloc_failed sb' ↦ alloc_failed sb'
])

unfoldable pub pull : Sb → ℕ → Option Sb
pull sb n = if ltb sb.len n then none else some (record sb { off = sb.off + n; len = sb.len - n })
