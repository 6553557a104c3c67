-- ===== src/Malloc/Resize.antt =====
-- `val_calloc`, `val_realloc` and `val_aligned_alloc` of val/src/val_malloc.c. What they do to the
-- payload is returned beside the heap; `fault` is an access through NULL, `stuck` a loop out of fuel.
use ff_a_acs.Base.{
  ℕ, ◌+◌, ◌-◌, ◌*◌, ◌%◌, ◌^◌, ◌≡◌, ◌≢◌, ◌≤◌, ◌<◌, refl, arith, Bool, true, false, ◌&&◌, ◌||◌, none,
  some, leb, ◌==◌, ◌!=◌, if◌then◌else◌,
}
use ff_a_acs.Malloc.{
  Store, Heap, block_size, valid_magic, add64, align, split, set_free, set_next, coalesce, malloc,
  free,
}

pub data Payload : Type 0 where
  kept : Payload
  cleared : (to n : ℕ) → Payload
  moved : (to from n : ℕ) → Payload

pub data Outcome : Type 0 where
  gives : ℕ → Heap → Payload → Outcome
  fault : Outcome
  stuck : Outcome

-- `a - b` on `size_t` and `uintptr_t`.
abbrev pub sub64 : ℕ → ℕ → ℕ
sub64 a b = (a + 2 ^ 64 - b) % 2 ^ 64

module _ (base total fuel : ℕ) where
  unfoldable pub calloc : Heap → (nmemb size : ℕ) → Outcome
  calloc h nmemb size =
      let n = nmemb * size % 2 ^ 64 in
      if (size == 0) || (nmemb == 0) then gives 0 h kept else elim (malloc base total fuel h n) [
        | none ↦ stuck
        | some (p, h1) ↦ gives p h1 (if p == 0 then kept else cleared p n)
      ]

  -- The block is large enough: it is split, and what is behind it coalesced through `block->next`.
  unfoldable pub shrink : Heap → (b size ptr : ℕ) → Outcome
  shrink h b size ptr =
      let m = split h.store b size in
      if (m b).next == 0 then fault else elim (coalesce fuel m (m b).next) [
        | none ↦ stuck
        | some (r, m1) ↦ gives ptr (record h { store = set_next m1 b r }) kept
      ]

  -- A free neighbour has room: both are merged, and the payload is moved to the front.
  unfoldable pub grow : Heap → (b size ptr : ℕ) → Outcome
  grow h b size ptr = elim (coalesce fuel h.store b) [
    | none ↦ stuck
    | some (r, m) ↦
        gives (add64 r block_size) (record h { store = set_free (split m r size) r 0 })
          (if add64 r block_size == ptr
            then kept
            else moved (add64 r block_size) ptr (h.store b).size)
  ]

  -- Neither: a new block, a copy, and the old one is freed.
  unfoldable pub relocate : Heap → (b size ptr : ℕ) → Outcome
  relocate h b size ptr = elim (malloc base total fuel h size) [
    | none ↦ stuck
    | some (p, h1) ↦ elim (p == 0) [
      | true ↦ gives 0 h1 kept
      | false ↦ elim (free fuel h1.store ptr) [
        | none ↦ stuck
        | some (_, m) ↦ gives p (record h1 { store = m }) (moved p ptr (h1.store b).size)
      ]
    ]
  ]

  -- The neighbour at `n` is free, and with it there is room.
  unfoldable pub roomy : Store → (b n size : ℕ) → Bool
  roomy m b n size =
      (n != 0) && ((m n).free != 0) && leb size (add64 (add64 (m b).size block_size) (m n).size)

  unfoldable pub realloc : Heap → (ptr size : ℕ) → Outcome
  unfolding roomy
  realloc h ptr size =
      let b = sub64 ptr block_size in
      let n = align size in
      if ptr == 0
      then elim (malloc base total fuel h size) [ none ↦ stuck | some (p, h1) ↦ gives p h1 kept ]
      else if size == 0
      then elim (free fuel h.store ptr) [
        | none ↦ stuck
        | some (_, m) ↦ gives 0 (record h { store = m }) kept
      ]
      else if (h.store b).magic != valid_magic
      then gives 0 h kept
      else if leb n (h.store b).size
      then shrink h b n ptr
      else if roomy h.store b (h.store b).next n || roomy h.store b (h.store b).prev n
      then grow h b n ptr
      else relocate h b n ptr

  shrink_faults :
      (h : Heap) (b n ptr : ℕ)
      → (h.store b).next ≡ 0
      → n ≤ (h.store b).size
      → (h.store b).size < n + 40
      → (h.store b).size < 2 ^ 63
      → shrink h b n ptr ≡ fault
  unfolding shrink split
  shrink_faults h b n ptr last l u s =
      let tight : leb (add64 (add64 n block_size) 8) (h.store b).size ≡ false = ground arith in
      rw (tight, last) refl

  -- `realloc` of the last block of the heap to a size that fits it, with less than 40 bytes to spare,
  -- follows a NULL pointer.
  pub realloc_faults :
      (h : Heap) (b size : ℕ)
      → b < 2 ^ 63
      → (h.store b).magic ≡ valid_magic
      → (h.store b).next ≡ 0
      → size ≢ 0
      → align size ≤ (h.store b).size
      → (h.store b).size < align size + 40
      → (h.store b).size < 2 ^ 63
      → realloc h (b + 32) size ≡ fault
  unfolding realloc
  realloc_faults h b size small magic last nz l u s =
      let at : (b + 32 + 2 ^ 64 - 32) % 2 ^ 64 ≡ b = omega arith in
      let ptr : (b + 32 == 0) ≡ false = ground arith in
      let some_size : (size == 0) ≡ false = ground arith in
      let fits : leb (align size) (h.store b).size ≡ true = ground arith in
      rw (at, ptr, some_size, magic, fits) (shrink_faults h b (align size) (b + 32) last l u s)
