-- ===== src/Sb/Content/Push.antt =====
-- What a push does to the bytes that the buffer holds.
use bbdd.Base.{
  ℕ, ◌+◌, ◌-◌, ◌<◌, ◌≤◌, ◌≡◌, ◌≢◌, refl, ap, ◌∙◌, Bool, true, false, not, Option, none, some, List,
  [], ◌∷◌, ◌++◌, leb, if◌then◌else◌, arith, length, drop, ◌>>=◌,
}
use bbdd.Base.Words.{u64}
use bbdd.Sb.{
  Sb, SbResult, ok, overflow, alloc_failed, mempcpy, compact, end, free_tail, limit_size,
  reallocate, get_buffer, write_tail, push_len, pull,
}
use bbdd.Sb.Growth.{grow-IsGrown}
use bbdd.Sb.Content.Bytes.{
  bytes_of, bytes_of-shift, bytes_of_split, bytes_of-drop, mempcpy_before, mempcpy_bytes,
  memmove_bytes,
}

-- The message that the buffer holds.
abbrev pub content : Sb → List ℕ
content sb = bytes_of sb.buf sb.off sb.len

-- The message lies in the memory that is allocated, which keeps to the limit.
pub record IsValid (sb : Sb) : Type 0 where
  pub fits : sb.off + sb.len ≤ sb.size
  pub empty : sb.has_buf ≡ false → (sb.off ≡ 0) × (sb.len ≡ 0)
  pub limited : sb.maxsize ≢ 0 → sb.size ≤ sb.maxsize

-- There is room for `n` more bytes behind the message `xs`, or the reason why not.
abbrev pub HasRoom : Sb → ℕ → Option SbResult → Type 0
HasRoom sb n none = ⊥
HasRoom sb n (some (ok sb')) =
    IsValid sb'
    × (content sb' ≡ content sb)
    × (sb'.off + sb'.len + n ≤ sb'.size)
    × (sb'.maxsize ≡ sb.maxsize)
    × (sb'.len ≡ sb.len)
    × (sb'.has_buf ≡ true)
HasRoom sb n (some (overflow sb')) =
    IsValid sb' × (content sb' ≡ content sb) × (sb.maxsize ≢ 0) × (sb.maxsize < sb.len + n)
HasRoom sb n (some (alloc_failed sb')) = IsValid sb' × (content sb' ≡ content sb)

compact-IsValid :
    (sb : Sb)
    → IsValid sb
    → IsValid (compact sb)
      × (content (compact sb) ≡ content sb)
      × ((compact sb).off ≡ 0)
      × ((compact sb).len ≡ sb.len)
      × ((compact sb).maxsize ≡ sb.maxsize)
      × ((compact sb).has_buf ≡ sb.has_buf)
unfolding compact
compact-IsValid sb v = ground (arith, memmove_bytes sb.buf sb.off sb.len)

reallocate-HasRoom :
    (alloc : ℕ → Bool) (sb : Sb) (n : ℕ)
    → IsValid sb
    → sb.off ≡ 0
    → sb.len + n ≤ 9223372036854775808
    → HasRoom sb n (reallocate alloc sb n)
unfolding reallocate limit_size free_tail end
reallocate-HasRoom alloc sb n v z fit =
    let (new, found, g) = grow-IsGrown sb.size (sb.len + n) fit in
    let wrap : u64 (sb.len + n) ≡ sb.len + n = omega arith in ground (arith, found, wrap, g.enough)

HasRoom-if :
    (sb : Sb) (n : ℕ) (c : Bool) (m m' : Option SbResult)
    → (c ≡ true → HasRoom sb n m)
    → (c ≡ false → HasRoom sb n m')
    → HasRoom sb n (if c then m else m')
HasRoom-if sb n true m m' f g = f refl
HasRoom-if sb n false m m' f g = g refl

-- Room for a message that holds the same bytes, in a buffer of the same limit.
HasRoom-same :
    (sb sb₁ : Sb) (n : ℕ) (m : Option SbResult)
    → content sb₁ ≡ content sb
    → sb₁.maxsize ≡ sb.maxsize
    → sb₁.len ≡ sb.len
    → HasRoom sb₁ n m
    → HasRoom sb n m
HasRoom-same sb sb₁ n none s t u r = r
HasRoom-same sb sb₁ n (some (ok sb')) s t u (v, c, room, mx, ln, hb) =
    (v, c ∙ s, room, mx ∙ t, ln ∙ u, hb)
HasRoom-same sb sb₁ n (some (overflow sb')) s t u (v, c, lim, over) =
    (v, c ∙ s, rw t at lim, rw (t, u) at over)
HasRoom-same sb sb₁ n (some (alloc_failed sb')) s t u (v, c) = (v, c ∙ s)

get_buffer-HasRoom :
    (alloc : ℕ → Bool) (sb : Sb) (n : ℕ)
    → IsValid sb
    → sb.len + n ≤ 9223372036854775808
    → HasRoom sb n (get_buffer alloc sb n)
unfolding get_buffer free_tail end
get_buffer-HasRoom alloc sb n v fit =
    let (v', same, front, len', max', has') = compact-IsValid sb v in
    let moved = reallocate-HasRoom alloc (compact sb) n v' front (ground arith) in
    HasRoom-if sb n (not sb.has_buf) _ _ (λ q. reallocate-HasRoom alloc sb n v (ground arith) fit)
      (λ q.
        HasRoom-if sb n (leb n (free_tail sb)) (some (ok sb)) _
          (λ r. (v, refl, ground (arith, v.fits), refl, refl, ground arith))
          (λ r.
            HasRoom-if sb n (leb n (free_tail (compact sb))) (some (ok (compact sb))) _
              (λ t. (v', same, ground (arith, v'.fits), max', len', ground arith))
              (λ t. HasRoom-same sb (compact sb) n _ same max' len' moved)))

-- What a push did: the bytes are at the end of the message, with a NUL behind them; or the message
-- is as it was, and the limit is smaller than what was needed, or there was no memory.
abbrev pub IsPushed : Sb → List ℕ → Option SbResult → Type 0
IsPushed sb bytes none = ⊥
IsPushed sb bytes (some (ok sb')) =
    IsValid sb'
    × (content sb' ≡ content sb ++ bytes)
    × (sb'.buf (sb'.off + sb'.len) ≡ 0)
    × (sb'.off + sb'.len < sb'.size)
IsPushed sb bytes (some (overflow sb')) =
    IsValid sb'
    × (content sb' ≡ content sb)
    × (sb.maxsize ≢ 0)
    × (sb.maxsize < sb.len + (length bytes + 1))
IsPushed sb bytes (some (alloc_failed sb')) = IsValid sb' × (content sb' ≡ content sb)

write_tail-content :
    (sb : Sb) (bytes : List ℕ) → content (write_tail sb bytes) ≡ content sb ++ bytes
unfolding write_tail end
write_tail-content sb bytes =
    let e = sb.off + sb.len in
    let inner = mempcpy sb.buf e bytes in
    let outer = mempcpy inner (e + length bytes) (0 ∷ []) in
    let old : bytes_of outer sb.off sb.len ≡ bytes_of sb.buf sb.off sb.len =
      bytes_of-shift outer sb.buf sb.off sb.off sb.len (λ i l.
        mempcpy_before inner (e + length bytes) (sb.off + i) (0 ∷ []) (omega arith)
        ∙ mempcpy_before sb.buf e (sb.off + i) bytes (omega arith)) in
    let new : bytes_of outer e (length bytes) ≡ bytes =
      bytes_of-shift outer inner e e (length bytes)
        (λ i l. mempcpy_before inner (e + length bytes) (e + i) (0 ∷ []) (omega arith))
      ∙ mempcpy_bytes sb.buf e bytes in
    bytes_of_split outer sb.off sb.len (length bytes) ∙ rw (old, new) refl

nul_behind :
    (sb : Sb) (bytes : List ℕ)
    → (write_tail sb bytes).buf ((write_tail sb bytes).off + (write_tail sb bytes).len) ≡ 0
unfolding write_tail end mempcpy
nul_behind sb bytes = ground arith

push_room :
    (sb : Sb) (bytes : List ℕ) (m : Option SbResult)
    → HasRoom sb (length bytes + 1) m
    → IsPushed sb bytes (
        m >>= λ r. some (elim r [
          | ok sb' ↦ ok (write_tail sb' bytes)
          | overflow sb' ↦ overflow sb'
          | alloc_failed sb' ↦ alloc_failed sb'
        ]))
push_room sb bytes none r = r
push_room sb bytes (some (ok sb')) (v, c, room, mx, ln, hb) = (
  record {
    fits = unfold write_tail in omega (arith, room);
    empty = unfold write_tail in λ q. cc;
    limited = unfold write_tail in v.limited;
  },
  write_tail-content sb' bytes ∙ ap (λ xs. xs ++ bytes) c,
  nul_behind sb' bytes,
  unfold write_tail in omega (arith, room),
)
push_room sb bytes (some (overflow sb')) r = r
push_room sb bytes (some (alloc_failed sb')) r = r

-- Pushing bytes onto a valid buffer ends, with no assertion failing, for messages up to 2 ^ 63
-- bytes: the bytes are appended to the message and a NUL stands behind them, or the message is as
-- it was, because the limit is too small for it or because there is no memory.
pub push_len-IsPushed :
    (alloc : ℕ → Bool) (sb : Sb) (bytes : List ℕ)
    → IsValid sb
    → sb.len + (length bytes + 1) ≤ 9223372036854775808
    → IsPushed sb bytes (push_len alloc sb bytes)
unfolding push_len
push_len-IsPushed alloc sb bytes v fit =
    push_room sb bytes (get_buffer alloc sb (length bytes + 1))
      (get_buffer-HasRoom alloc sb (length bytes + 1) v fit)

-- Pulling bytes takes them off the front of the message.
pub pull-drop :
    (sb : Sb) (n : ℕ)
    → IsValid sb
    → n ≤ sb.len
    → (sb' : Sb) × (pull sb n ≡ some sb') × IsValid sb' × (content sb' ≡ drop n (content sb))
unfolding pull
pull-drop sb n v l = (
  record sb { off = sb.off + n; len = sb.len - n },
  ground arith,
  record {
    fits = ground (arith, v.fits);
    empty = λ q. ground (arith, v.empty q);
    limited = v.limited;
  },
  bytes_of-drop sb.buf sb.off n sb.len l,
)
