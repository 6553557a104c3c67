-- ===== src/Malloc/Aligned.antt =====
-- `val_aligned_alloc` of val/src/val_malloc.c. A block and the pointer in it may lie so close together
-- that the 32 bytes in front of the pointer overlap the block's own header; what these bytes say as a
-- header is then read off them.
use ff_a_acs.Base.{
  ℕ, zero, suc, ◌+◌, ◌-◌, ◌*◌, ◌/◌, ◌%◌, ◌^◌, ◌&&◌, ◌||◌, Option, none, some, ltb, leb, ◌==◌, ◌!=◌,
  if◌then◌else◌, bit_and,
}
use ff_a_acs.Malloc.{
  Block, Store, Heap, block_size, add64, align, split, set_free, set_size, free, ensure_init,
}
use ff_a_acs.Malloc.Resize.{Outcome, gives, fault, stuck, kept, sub64}

-- ALIGN_TO, for a power of two.
unfoldable pub align_to : (n alignment : ℕ) → ℕ
align_to n alignment = add64 n (alignment - 1) / alignment * alignment

-- The pointer that a block at `b` would give.
unfoldable pub aligned_in : (b alignment : ℕ) → ℕ
unfolding align_to
aligned_in b alignment = align_to (add64 b block_size) alignment

-- The block is cut at the end and taken.
unfoldable pub take_block : Store → (b size : ℕ) → Store
take_block m b size =
    let m1 = if ltb (add64 (add64 size block_size) 8) (m b).size then split m b size else m in
    set_free (set_size m1 b size) b 0

-- The header that the 32 bytes from 8, 16 or 24 bytes behind the start of another header hold: `h` has
-- magic at its bytes 0 and 1, free at 2 and 3, size from 8, next from 16 and prev from 24 on; the bytes
-- behind it are the payload's and stay as they are, as `x` says.
unfoldable pub shifted_header : (gap : ℕ) → (h x : Block) → Block
shifted_header gap h x =
    if gap == 8
    then record x {
      magic = h.size % 2 ^ 16;
      free = h.size / 2 ^ 16 % 2 ^ 16;
      size = h.next;
      next = h.prev;
    }
    else if gap == 16
    then record x { magic = h.next % 2 ^ 16; free = h.next / 2 ^ 16 % 2 ^ 16; size = h.prev }
    else record x { magic = h.prev % 2 ^ 16; free = h.prev / 2 ^ 16 % 2 ^ 16 }

-- The header of `b` was written: the headers that start within it are read anew.
unfoldable pub overlay : Store → (b : ℕ) → Store
unfolding shifted_header
overlay m b a =
    if (a == b + 8) || ((a == b + 16) || (a == b + 24))
    then shifted_header (a - b) (m b) (m a)
    else m a

-- A block that fits: the pointer and the store, or none where NULL is followed. Alignments are powers
-- of two from 8 on and blocks lie on multiples of 8, so that a leading space of less than a header is
-- 0, 8, 16 or 24.
unfoldable pub place : Store → (b alignment size : ℕ) → Option (ℕ × Store)
unfolding take_block aligned_in overlay
place m b alignment size =
    let p = aligned_in b alignment in
    let leading = sub64 (sub64 p block_size) b in
    let m1 = split m b (leading - block_size) in
    if leb block_size leading
    then (if (m1 b).next == 0 then none else some (p, take_block m1 (m1 b).next size))
    else some (p, overlay (take_block m b size) b)

-- The loop; the inner `none` is an access through NULL.
unfoldable pub find_aligned : ℕ → Store → (b alignment size : ℕ) → Option (Option (ℕ × Store))
unfolding place aligned_in
find_aligned zero m b alignment size = none
find_aligned (suc fuel) m b alignment size =
    let rest = find_aligned fuel m (m b).next alignment size in
    if b == 0
    then some (some (0, m))
    else if ((m b).free != 0)
        && leb (sub64 (add64 (aligned_in b alignment) size) b) (add64 (m b).size block_size)
    then some (place m b alignment size)
    else rest

module _ (base total fuel : ℕ) where
  unfoldable pub aligned_alloc : Heap → (alignment size : ℕ) → Outcome
  unfolding find_aligned
  aligned_alloc h alignment size =
      let h1 = ensure_init base total h in
      if ltb alignment 8 || (bit_and alignment (alignment - 1) != 0)
      then gives 0 h kept
      else if size % alignment != 0
      then gives 0 h kept
      else elim (find_aligned fuel h1.store h1.free_list alignment (align size)) [
        | none ↦ stuck
        | some none ↦ fault
        | some (some (p, m)) ↦ gives p (record h1 { store = m }) kept
      ]

-- The word of a block's header that stands `gap` bytes behind its start.
abbrev pub word_in : (gap : ℕ) → Block → (size : ℕ) → ℕ
word_in gap h size = if gap == 8 then size else if gap == 16 then h.next else h.prev
