-- ===== src/Paging/Tests.antt =====
-- Runs of the table walk, val/src/val_memory.c.
use Prim.{tt}
use ff_a_acs.Base.{ℕ, ◌≤◌, ◌<◌, ◌⊎◌, true, ◌+◌, ◌*◌, ◌≡◌, ◌^◌, refl, inl, arith, [], ◌∷◌, some}
use ff_a_acs.Paging.{Region, TtDescriptor, Tables, fresh, page_size, ilog2, ilog2_from}
use ff_a_acs.Paging.Create.{tt_descriptor, map_regions}
use ff_a_acs.Paging.Setup.{stage1_pgt}
use ff_a_acs.Paging.Fill.{fill_translation_table, needs_table, valid_descriptor}
use ff_a_acs.Paging.PageLoop.{leaf}
use ff_a_acs.Paging.Layout.{IsLayout, IsLaid}
use ff_a_acs.Paging.Entries.{table_of-table_entry}
use ff_a_acs.Paging.Mapped
use ff_a_acs.Paging.PageTable
use ff_a_acs.Paging.Granules.{Geometry}
use ff_a_acs.Paging.Walk
use ff_a_acs.Paging.Granules

abbrev empty : Tables
empty = record {
  entry = λ x. 0;
  l2 = fresh (0x3000 ∷ 0x4000 ∷ []);
  l3 = fresh (0x5000 ∷ 0x6000 ∷ []);
}

-- A page at 0x200000.
abbrev page : Region
page = record {
  virtual_address = 0x200000;
  physical_address = 0x80201000;
  length = 0x1000;
  attributes = 4;
}

abbrev odd : Region
odd = record page { physical_address = 0x80201001 }

tt_descriptor-Geometry_example :
    Geometry (ilog2 (page_size 0)) (tt_descriptor (ilog2 (page_size 0)) (stage1_pgt 0x1000) page)
tt_descriptor-Geometry_example =
    Granules.tt_descriptor-Geometry 0 (stage1_pgt 0x1000) page refl (omega arith)

fill_translation_table_returns_example :
    (out : ℕ × Tables) × (fill_translation_table 9 4096 0x2000 4
        (2 ^ 41)
        (tt_descriptor 12 (stage1_pgt 0x1000) page)
        empty
      ≡ some out)
unfolding tt_descriptor
fill_translation_table_returns_example =
    Walk.fill_translation_table_returns 9 4096 0x2000 4 (2 ^ 41)
      (tt_descriptor 12 (stage1_pgt 0x1000) page) empty (omega arith) (omega arith) (omega arith)
      (omega arith)

-- One table of each level, at 0x1000 to 0x4000.
abbrev Row : (level base : ℕ) → Type 0
Row level base = (level ≤ 3) × (base ≡ 0x1000 * (level + 1))

row-IsLayout : IsLayout (Mapped.bits 0) (2 ^ Mapped.log2 0) Row
unfolding page_size ilog2 ilog2_from
row-IsLayout = record {
  apart = λ k l a b i j s t lt lu e. omega (arith, s.1, t.1, lt, lu, e);
  named = λ l b t.
      table_of-table_entry 12 b (omega arith) (omega (arith, t.1)) (omega (arith, t.0, t.1));
}

abbrev row : Tables
row = record { entry = λ x. 0; l2 = fresh (0x3000 ∷ []); l3 = fresh (0x4000 ∷ []) }

row-IsLaid : IsLaid (Mapped.bits 0) (2 ^ Mapped.log2 0) Row row
unfolding needs_table
row-IsLaid = record {
  entries = λ l b i t lt il n. absurd (ground (arith, n));
  second = ((omega arith, refl), tt);
  third = ((omega arith, refl), tt);
}

row_root :
    (r : Region)
    → Row (tt_descriptor (Mapped.log2 0) (stage1_pgt 0x1000) r).level (stage1_pgt 0x1000).ttbr
unfolding page_size ilog2 ilog2_from tt_descriptor
row_root r = (omega arith, refl)

map_regions-Maps_example :
    Mapped.Maps 0 0x2000
      (stage1_pgt 0x1000)
      Row
      row-IsLayout
      (omega arith, refl)
      row_root
      refl
      (omega arith)
      row
      (map_regions 0x2000 (2 ^ 41) 0 (stage1_pgt 0x1000) (page ∷ []) row)
map_regions-Maps_example =
    Mapped.map_regions-Maps 0 0x2000 (stage1_pgt 0x1000) Row row-IsLayout (omega arith, refl)
      row_root refl (omega arith) (2 ^ 41) (page ∷ []) row
      ((refl, omega arith, omega arith, omega arith), tt) row-IsLaid

-- Two pages behind 0x5000 in a table of pages at 0x4000.
abbrev pages : TtDescriptor
pages = record {
  tt_base = 0x4000;
  input_base = 0x5000;
  input_top = 0x6fff;
  output_base = 0x80005000;
  level = 3;
  size_log2 = 12;
  nbits = 9;
}

pages_valid : valid_descriptor 9 pages ≡ true
unfolding valid_descriptor
pages_valid = refl

fill_translation_table_leaves_example :
    (out : Tables) × (fill_translation_table 9 4096 0x2000 4 3 pages row ≡ some (0, out))
    × ((k : ℕ)
        → k < 2
        → out.entry (0x4000 + 8 * (5 + k)) ≡ leaf 4096 4 pages (0x80005000 + k * 4096))
    × ((a : ℕ) → (a < 0x4000 + 8 * 5) ⊎ (0x4000 + 8 * (5 + 2) ≤ a) → out.entry a ≡ 0)
fill_translation_table_leaves_example =
    PageTable.fill_translation_table_leaves 9 4096 0x2000 4 3 2 pages row pages_valid (inl refl)
      (omega arith) (omega arith) (omega arith) (omega arith) (omega arith) (omega arith)
      (omega arith)
