-- ===== src/Paging/Leaves.antt =====
-- The pages that the walk of val/src/val_memory.c puts into the table of level 3 that it comes to.
use ff_a_acs.Base.{
  ℕ, ◌+◌, ◌*◌, ◌/◌, ◌%◌, ◌^◌, ◌≡◌, ◌<◌, ◌≤◌, refl, sym, ap, ◌∙◌, subst, arith, true, Option, some,
  inl,
}
use native.Mathlib.Nat.{pow-le-pow_right}
use ff_a_acs.Paging.{Tables, TtDescriptor}
use ff_a_acs.Paging.Fill.{fill_loop, valid_descriptor, page_entry}
use ff_a_acs.Paging.Walk.{pow_pos}
use ff_a_acs.Paging.Layout.{IsLayout}
use ff_a_acs.Paging.PageLoop.{leaf, put_leaves, fill_loop_leaves}
use ff_a_acs.Paging.PageTable.{put_leaves_entry}
use ff_a_acs.Paging.Lookup.{lookup, put_leaves_other, leaf_page}
use ff_a_acs.Paging.Parts.{index_after}

-- A table with `k` levels below it.
abbrev pub Above : (bits page_log2 : ℕ) → ((level base : ℕ) → Type 0) → ℕ → TtDescriptor → Type 0
Above bits page_log2 Table k d =
    (d.level + k ≡ 3)
    × Table d.level d.tt_base
    × (d.size_log2 ≡ k * bits + page_log2)
    × (valid_descriptor bits d ≡ true)
    × (k ≡ 0 → d.nbits ≡ bits)

-- `n` pages from page number `c` on, all of one table of level 3 and not all of it.
abbrev pub Pages : (bits page_log2 : ℕ) → TtDescriptor → (n c oa : ℕ) → Type 0
Pages bits page_log2 d n c oa =
    (d.input_top + 1 ≡ (c + n) * 2 ^ page_log2)
    × (d.input_top < 2 ^ 63)
    × (oa + n * 2 ^ page_log2 < 2 ^ 64)
    × (c % 2 ^ bits + n ≤ 2 ^ bits)
    × (1 ≤ n)
    × (n < 2 ^ bits)

-- The walk succeeds, the addresses of the pages translate to the output pages, and tables of the
-- levels above are as they were.
abbrev pub Translates :
    (bits page_log2 attributes : ℕ)
    → ((level base : ℕ) → Type 0)
    → ℕ
    → TtDescriptor
    → (n c oa : ℕ) → Tables
    → Option (ℕ × Tables)
    → Type 0
Translates bits page_log2 attributes Table k d n c oa s r =
    (out : Tables) × (r ≡ some (0, out))
    × ((j va : ℕ)
        → j < n
        → va / 2 ^ page_log2 ≡ c + j
        → lookup bits (2 ^ page_log2) k out d.tt_base d.size_log2 d.nbits va
          ≡ page_entry (2 ^ page_log2) (oa + j * 2 ^ page_log2) attributes)
    × ((l b i : ℕ)
        → Table l b
        → l < d.level
        → i < 2 ^ bits
        → out.entry (b + 8 * i) ≡ s.entry (b + 8 * i))

module _ (bits page_log2 l1_base attributes : ℕ) (Table : (level base : ℕ) → Type 0)
    (layout : IsLayout bits (2 ^ page_log2) Table) (big : 2 ≤ page_log2) where
  abbrev page : ℕ
  page = 2 ^ page_log2

  module _ (d : TtDescriptor) (n c oa : ℕ) (s : Tables) (sits : Above bits page_log2 Table 0 d)
      (pages : Pages bits page_log2 d n c oa) where
    alike : d.size_log2 ≡ page_log2
    alike = omega (arith, sits.2)

    wide : 2 ^ d.nbits ≡ 2 ^ bits
    wide = ap (λ k. 2 ^ k) (sits.4 refl)

    three : d.level ≡ 3
    three = omega (arith, sits.0)

    wide_enough : 2 ≤ 2 ^ d.size_log2
    wide_enough =
        subst (λ k. 2 ≤ 2 ^ k) (sym alike)
          (pow-le-pow_right {n = 2} (omega arith) {i = 1} (omega (arith, big)))

    abbrev filled : Tables
    filled =
        put_leaves d.tt_base (2 ^ d.size_log2) (leaf page attributes d) n (c % 2 ^ d.nbits) oa s

    at_index :
        (j va : ℕ)
        → j < n
        → va / page ≡ c + j
        → (va / 2 ^ d.size_log2) % 2 ^ d.nbits ≡ c % 2 ^ d.nbits + j
    at_index j va lt e =
        ap (λ k. (va / 2 ^ k) % 2 ^ d.nbits) alike
        ∙ ap (λ q. q % 2 ^ d.nbits) e
        ∙ index_after c n j (2 ^ d.nbits) (pow_pos d.nbits)
            (subst (λ m. c % m + n ≤ m) (sym wide) pages.3) lt

    word_at :
        (j : ℕ)
        → leaf page attributes d (oa + j * 2 ^ d.size_log2)
          ≡ page_entry page (oa + j * page) attributes
    word_at j =
        leaf_page page attributes d (oa + j * 2 ^ d.size_log2) three
        ∙ ap (λ k. page_entry page (oa + j * 2 ^ k) attributes) alike

    kept :
        (l b i : ℕ)
        → Table l b
        → l < d.level
        → i < 2 ^ bits
        → filled.entry (b + 8 * i) ≡ s.entry (b + 8 * i)
    kept l b i t lt small =
        put_leaves_other d.tt_base (2 ^ d.size_log2) (leaf page attributes d) n (c % 2 ^ d.nbits) oa
          (b + 8 * i) s
          (λ j lj e.
            let same =
              layout.apart l d.level b d.tt_base i (c % 2 ^ d.nbits + j) t sits.1 small
                (inside j lj) e in
            omega (arith, same, lt))
      where
        inside : (j : ℕ) → j < n → c % 2 ^ d.nbits + j < 2 ^ bits
        inside j lj =
            let room = subst (λ m. c % m + n ≤ m) (sym wide) pages.3 in
            omega (arith, room, lj, wide)

    pub last_level :
        (fuel : ℕ)
        → n < fuel
        → Translates bits page_log2 attributes Table 0 d n c oa s
            (fill_loop bits page l1_base attributes fuel d (c * page) oa s)
    unfolding lookup
    last_level fuel lt = (
      filled,
      ap (λ k. fill_loop bits page l1_base attributes fuel d (c * 2 ^ k) oa s) (sym alike)
          ∙ fill_loop_leaves bits page l1_base attributes d wide_enough (omega (arith, wide)) n fuel
              c oa s lt
              (
                subst (λ k. d.input_top + 1 ≡ (c + n) * 2 ^ k) (sym alike) pages.0,
                pages.1,
                subst (λ k. oa + n * 2 ^ k < 2 ^ 64) (sym alike) pages.2,
                subst (λ m. c % m + n ≤ m) (sym wide) pages.3,
                inl three,
              ),
      λ j va lj e.
          ap (λ i. filled.entry (d.tt_base + 8 * i)) (at_index j va lj e)
          ∙ put_leaves_entry d.tt_base (2 ^ d.size_log2) (leaf page attributes d) n
              (c % 2 ^ d.nbits) oa j s lj
          ∙ word_at j,
      kept,
    )
