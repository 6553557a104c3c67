-- ===== src/Paging/PageLoop.antt =====
-- The rounds of the walk of val/src/val_memory.c over one table, where what is mapped starts and ends on
-- the boundaries of its entries: pages at level 3, blocks above it.
use ff_a_acs.Base.{
  ℕ, zero, suc, true, false, ◌+◌, ◌-◌, ◌*◌, ◌/◌, ◌%◌, ◌^◌, ◌≡◌, ◌≢◌, ◌⊎◌, inl, inr, ◌<◌, ◌≤◌, refl,
  sym, ap, ◌∙◌, subst, arith, some, ◌==◌, if◌then◌else◌,
}
use native.Mathlib.Nat.{mod-lt}
use ff_a_acs.Paging.{Tables, TtDescriptor, set_entry}
use ff_a_acs.Paging.Fill.{
  put_page, put_block, action, fill_loop, entry_addr, page_entry, block_entry, chunk_top,
}
use ff_a_acs.Paging.Walk.{action_finish, pow_pos}

page_action :
    (bits : ℕ) (d : TtDescriptor) (ia oa : ℕ)
    → d.level ≡ 3
    → ia < d.input_top
    → (ia / 2 ^ d.size_log2) * 2 ^ d.size_log2 ≤ 2 ^ 64 - 2 ^ d.size_log2
    → (ia / 2 ^ d.size_log2) % 2 ^ d.nbits < 2 ^ bits
    → action bits d ia oa ≡ put_page
unfolding action
page_action bits d ia oa e lt fits i = ground arith

block_action :
    (bits : ℕ) (d : TtDescriptor) (ia oa : ℕ)
    → d.level ≢ 3
    → ia < d.input_top
    → (ia / 2 ^ d.size_log2) * 2 ^ d.size_log2 ≤ 2 ^ 64 - 2 ^ d.size_log2
    → (ia / 2 ^ d.size_log2) % 2 ^ d.nbits < 2 ^ bits
    → ia % 2 ^ d.size_log2 ≡ 0
    → oa % 2 ^ d.size_log2 ≡ 0
    → (ia + 2 ^ d.size_log2 - 1) % 2 ^ 64 ≤ d.input_top
    → action bits d ia oa ≡ put_block
unfolding action
block_action bits d ia oa e lt fits i x y w = ground arith

-- The word that maps an output address in a table of the descriptor's level.
abbrev pub leaf : (page_bytes attributes : ℕ) → TtDescriptor → ℕ → ℕ
leaf page_bytes attributes d oa =
    if d.level == 3
    then page_entry page_bytes oa attributes
    else block_entry (2 ^ d.size_log2) oa attributes

-- A table of level 3, or output addresses on block boundaries.
abbrev pub Fits : TtDescriptor → (oa : ℕ) → Type 0
Fits d oa = (d.level ≡ 3) ⊎ ((d.level ≢ 3) × (oa % 2 ^ d.size_log2 ≡ 0))

-- Page number `c` of size `p`, `n` pages before the end.
pub page_of : (c p : ℕ) → 0 < p → (c * p) / p ≡ c
page_of c p l = grind arith

next_page : (c p : ℕ) → c * p + p ≡ suc c * p
next_page c p = grind arith

next_index : (c n m : ℕ) → 0 < m → c % m + suc (suc n) ≤ m → suc c % m ≡ suc (c % m)
next_index c n m l h = grind arith

index_left : (n c m : ℕ) → 0 < m → c % m + suc n ≤ m → suc c % m + n ≤ m
index_left zero c m l h = omega (arith, mod-lt (suc c) l)
index_left (suc n) c m l h = let e = next_index c n m l h in omega (arith, e, h)

page_top :
    (d : TtDescriptor) (c n p : ℕ)
    → 2 ^ d.size_log2 ≡ p
    → 0 < p
    → d.input_top + 1 ≡ (c + suc n) * p
    → chunk_top d (c * p) + 1 ≡ c * p + p
unfolding chunk_top
page_top d c n p e l t =
    let q : (c + suc n) * p ≡ c * p + p + n * p = grind arith in
    rw (e, page_of c p l) (ground (arith, l, t, q))

-- The entries of `n` leaves from an index on, one by one.
abbrev pub put_leaves : (base size : ℕ) → (word : ℕ → ℕ) → (n i oa : ℕ) → Tables → Tables
put_leaves base size word zero i oa s = s
put_leaves base size word (suc n) i oa s =
    put_leaves base size word n (suc i) (oa + size) (set_entry s (base + 8 * i) (word oa))

whole_moved : (oa p : ℕ) → 0 < p → oa % p ≡ 0 → (oa + p) % p ≡ 0
whole_moved oa p l e = grind arith

pub is_three : (n : ℕ) → n ≡ 3 → (n == 3) ≡ true
is_three n e = ground (arith, e)

not_three : (n : ℕ) → n ≢ 3 → (n == 3) ≡ false
not_three n e = ground (arith, e)

multiple : (c p : ℕ) → 0 < p → (c * p) % p ≡ 0
multiple c p l = grind arith

module _ (bits page_bytes l1_base attributes : ℕ) (d : TtDescriptor) (big : 2 ≤ 2 ^ d.size_log2)
    (index : 2 ^ d.nbits ≤ 2 ^ bits) where
  abbrev pub size : ℕ
  size = 2 ^ d.size_log2

  abbrev pub entries : ℕ
  entries = 2 ^ d.nbits

  abbrev word : ℕ → ℕ
  word = leaf page_bytes attributes d

  -- `n` leaves from number `c` on are left.
  abbrev pub Left : (n c oa : ℕ) → Type 0
  Left n c oa =
      (d.input_top + 1 ≡ (c + n) * size)
      × (d.input_top < 2 ^ 63)
      × (oa + n * size < 2 ^ 64)
      × (c % entries + n ≤ entries)
      × Fits d oa

  shifted :
      (n c oa : ℕ) (s : Tables)
      → c % entries + suc n ≤ entries
      → put_leaves d.tt_base size word n (suc c % entries) oa s
        ≡ put_leaves d.tt_base size word n (suc (c % entries)) oa s
  shifted zero c oa s l = refl
  shifted (suc n) c oa s l =
      ap (λ i. put_leaves d.tt_base size word (suc n) i oa s)
        (next_index c n entries (pow_pos d.nbits) l)

  covered : (n c : ℕ) → (c + suc n) * size ≡ c * size + size + n * size
  covered n c = grind arith

  again : (n c : ℕ) → (c + suc n) * size ≡ (suc c + n) * size
  again n c = ap (λ k. k * size) (omega arith)

  further : (n oa : ℕ) → oa + suc n * size ≡ oa + size + n * size
  further n oa = grind arith

  module _ (n c oa : ℕ) (left : Left (suc n) c oa) where
    top : chunk_top d (c * size) + 1 ≡ c * size + size
    top = page_top d c n size refl (omega (arith, big)) left.0

    within : c * size + size ≤ d.input_top + 1
    within = omega (arith, covered n c, left.0)

    starts : (c * size / size) * size ≤ 2 ^ 64 - size
    starts =
        subst (λ k. k * size ≤ 2 ^ 64 - size) (sym (page_of c size (pow_pos d.size_log2)))
          (omega (arith, within, left.1))

    indexed : (c * size / size) % entries < 2 ^ bits
    indexed =
        subst (λ k. k % entries < 2 ^ bits) (sym (page_of c size (pow_pos d.size_log2)))
          (omega (arith, left.3, index))

    -- The round writes the leaf and goes on behind it.
    round :
        (fuel : ℕ) (s : Tables)
        → fill_loop bits page_bytes l1_base attributes (suc fuel) d (c * size) oa s
          ≡ fill_loop bits page_bytes l1_base attributes fuel d
              ((c * size + (chunk_top d (c * size) - c * size + 1)) % 2 ^ 64)
              ((oa + (chunk_top d (c * size) - c * size + 1)) % 2 ^ 64)
              (set_entry s (entry_addr d (c * size)) (word oa))
    unfolding fill_loop
    round fuel s = elim left.4 [
      | inl e ↦
          rw
            (
              fill_loop,
              page_action bits d (c * size) oa e (omega (arith, within, big)) starts indexed,
              is_three d.level e,
            )
            refl
      | inr (e, o) ↦
          rw
            (
              fill_loop,
              block_action bits d (c * size) oa e (omega (arith, within, big)) starts indexed
                  (multiple c size (pow_pos d.size_log2)) o (omega (arith, within, left.1, big)),
              not_three d.level e,
            )
            refl
    ]

    at : entry_addr d (c * size) ≡ d.tt_base + 8 * (c % entries)
    unfolding entry_addr
    at = ap (λ k. d.tt_base + 8 * (k % entries)) (page_of c size (pow_pos d.size_log2))

    ia1 : (c * size + (chunk_top d (c * size) - c * size + 1)) % 2 ^ 64 ≡ suc c * size
    ia1 = omega (arith, top, within, left.1, big) ∙ next_page c size

    oa1 : (oa + (chunk_top d (c * size) - c * size + 1)) % 2 ^ 64 ≡ oa + size
    oa1 = omega (arith, top, left.2, big, further n oa)

    rest : Left n (suc c) (oa + size)
    rest = (
      left.0 ∙ again n c,
      left.1,
      omega (arith, left.2, further n oa),
      index_left n c entries (pow_pos d.nbits) left.3,
      elim left.4 [
        | inl e ↦ inl e
        | inr (e, o) ↦ inr (e, whole_moved oa size (pow_pos d.size_log2) o)
      ],
    )

  pub fill_loop_leaves :
      (n fuel c oa : ℕ) (s : Tables)
      → n < fuel
      → Left n c oa
      → fill_loop bits page_bytes l1_base attributes fuel d (c * size) oa s
        ≡ some (0, put_leaves d.tt_base size word n (c % entries) oa s)
  unfolding fill_loop
  fill_loop_leaves n zero c oa s lt left = absurd (omega (arith, lt))
  fill_loop_leaves zero (suc fuel) c oa s lt left =
      let e : d.input_top ≤ c * size = omega (arith, left.0) in
      rw (fill_loop, action_finish bits d (c * size) oa e) refl
  fill_loop_leaves (suc n) (suc fuel) c oa s lt left =
      round n c oa left fuel s
      ∙ rw (at n c oa left, ia1 n c oa left, oa1 n c oa left)
          (fill_loop_leaves n fuel (suc c) (oa + size)
              (set_entry s (d.tt_base + 8 * (c % entries)) (word oa)) (omega (arith, lt))
              (rest n c oa left)
            ∙ ap (λ t. some (0, t)) (shifted n c (oa + size) _ left.3))
