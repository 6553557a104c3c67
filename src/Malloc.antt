-- ===== src/Malloc.antt =====
-- The heap allocator, val/src/val_malloc.c. A header store maps an address to the `Block` that the
-- 32 bytes there hold; the payload between headers belongs to the callers and is not modelled.
-- Pointers are addresses, NULL is 0. Each loop runs on fuel, and `none` means that it ran out.
pub mod Cells
pub mod Fields
pub mod Chain
pub mod Alloc
pub mod Calls
pub mod Join
pub mod Plug
pub mod Free
pub mod Release
pub mod Roundtrip
pub mod Resize
pub mod Aligned
pub mod Laws
mod Tests
use ff_a_acs.Base.{
  ℕ, zero, suc, ◌+◌, ◌-◌, ◌*◌, ◌/◌, ◌%◌, ◌^◌, Bool, true, false, ◌&&◌, ◌||◌, Option, none, some,
  ltb, leb, ◌==◌, ◌!=◌, if◌then◌else◌,
}

pub record Block : Type 0 where
  pub magic : ℕ
  pub free : ℕ
  pub size : ℕ
  pub next : ℕ
  pub prev : ℕ

abbrev pub Store : Type 0
Store = ℕ → Block

abbrev pub valid_magic : ℕ
valid_magic = 0xabcd

abbrev pub invalid_magic : ℕ
invalid_magic = 0xfefe

-- BLOCK_SIZE: 2 + 2 bytes, 4 of padding, 8 + 8 + 8, which ALIGN leaves at 32.
abbrev pub block_size : ℕ
block_size = 32

abbrev pub alignment : ℕ
alignment = 8

-- `size_t` and `uintptr_t` addition.
abbrev pub add64 : ℕ → ℕ → ℕ
add64 a b = (a + b) % 2 ^ 64

-- ALIGN: adding 7 may wrap.
unfoldable pub align : ℕ → ℕ
align n = add64 n 7 / 8 * 8

unfoldable pub write : Store → ℕ → Block → Store
write m a b x = if x == a then b else m x

unfoldable pub set_free : Store → ℕ → ℕ → Store
unfolding write
set_free m a v = write m a (record (m a) { free = v })

unfoldable pub set_magic : Store → ℕ → ℕ → Store
unfolding write
set_magic m a v = write m a (record (m a) { magic = v })

unfoldable pub set_size : Store → ℕ → ℕ → Store
unfolding write
set_size m a v = write m a (record (m a) { size = v })

unfoldable pub set_next : Store → ℕ → ℕ → Store
unfolding write
set_next m a v = write m a (record (m a) { next = v })

unfoldable pub set_prev : Store → ℕ → ℕ → Store
unfolding write
set_prev m a v = write m a (record (m a) { prev = v })

-- `if (p) p->prev = v`
unfoldable pub set_prev_if : Store → ℕ → ℕ → Store
unfolding set_prev
set_prev_if m p v = if p == 0 then m else set_prev m p v

-- `val_init_heap` at the heap buffer `base` of `total` bytes; its assertion asks that `base` is
-- 32-byte aligned.
unfoldable pub init_heap : Store → (base total : ℕ) → Store
unfolding write
init_heap m base total =
    write m base
      (record { magic = valid_magic; free = 1; size = total - block_size; next = 0; prev = 0 })

unfoldable pub split : Store → ℕ → ℕ → Store
split m b size =
    if leb (add64 (add64 size block_size) alignment) (m b).size
    then (let new = add64 (add64 b block_size) size in
        let m1 = write m new (record {
          magic = valid_magic;
          free = 1;
          size = (m b).size - size - block_size;
          next = (m b).next;
          prev = b;
        }) in
        let m2 = set_prev_if m1 (m1 new).next new in set_size (set_next m2 b new) b size)
    else m

-- The loop of `val_malloc`; the pointer is NULL if no block fits.
unfoldable pub find_block : ℕ → Store → ℕ → ℕ → Option (ℕ × Store)
unfolding split
find_block zero m b size = none
find_block (suc fuel) m b size =
    let rest = find_block fuel m (m b).next size in
    if b == 0
    then some (0, m)
    else if ((m b).free != 0) && leb size (m b).size
    then some (add64 b block_size, set_free (set_magic (split m b size) b valid_magic) b 0)
    else rest

-- The state of val_malloc.c.
pub record Heap : Type 0 where
  pub store : Store
  pub free_list : ℕ
  pub initialized : ℕ

module _ (base total : ℕ) where
  unfoldable pub ensure_init : Heap → Heap
  unfolding init_heap
  ensure_init h =
      if h.initialized == 0
      then record { store = init_heap h.store base total; free_list = base; initialized = 1 }
      else h

  unfoldable pub malloc : ℕ → Heap → ℕ → Option (ℕ × Heap)
  unfolding ensure_init align find_block
  malloc fuel h size =
      if size == 0
      then some (0, h)
      else let h1 = ensure_init h in
        elim (find_block fuel h1.store h1.free_list (align size)) [
          | none ↦ none
          | some (p, m) ↦ some (p, record h1 { store = m })
        ]

-- The two loops of `val_coalesce`, from block `b`.
unfoldable pub coalesce_forward : ℕ → Store → ℕ → Option Store
coalesce_forward zero m b = none
coalesce_forward (suc fuel) m b =
    let next = (m b).next in
    let m1 = set_size m b (add64 (m b).size (add64 block_size (m next).size)) in
    let m2 = set_magic (set_next m1 b (m1 next).next) next invalid_magic in
    let rest = coalesce_forward fuel (set_prev_if m2 (m2 b).next b) b in
    if (next != 0) && ((m next).free != 0) then rest else some m

unfoldable pub coalesce_backward : ℕ → Store → ℕ → Option (ℕ × Store)
coalesce_backward zero m b = none
coalesce_backward (suc fuel) m b =
    let prev = (m b).prev in
    let m1 = set_size m prev (add64 (m prev).size (add64 block_size (m b).size)) in
    let m2 = set_magic (set_next m1 prev (m1 b).next) b invalid_magic in
    let rest = coalesce_backward fuel (set_prev_if m2 (m2 b).next prev) prev in
    if (prev != 0) && ((m prev).free != 0) then rest else some (b, m)

-- The block that results, and the store.
unfoldable pub coalesce : ℕ → Store → ℕ → Option (ℕ × Store)
unfolding coalesce_forward coalesce_backward
coalesce fuel m b = elim (coalesce_forward fuel m b) [
  | none ↦ none
  | some m1 ↦ coalesce_backward fuel m1 b
]

-- VAL_SUCCESS is 0, VAL_ERROR is 1.
unfoldable pub free : ℕ → Store → ℕ → Option (ℕ × Store)
free fuel m ptr =
    let b = (ptr + 2 ^ 64 - block_size) % 2 ^ 64 in
    let done = coalesce fuel (set_free m b 1) b in
    if ptr == 0
    then some (1, m)
    else if (m b).magic != valid_magic
    then some (1, m)
    else if (m b).free != 0
    then some (1, m)
    else elim done [ none ↦ none | some (_, m1) ↦ some (0, m1) ]
