-- ===== src/Paging/Lookups.antt =====
-- A page that is mapped down four levels of tables, and its lookup.
use Prim.{tt}
use ff_a_acs.Base.{ℕ, ◌≤◌, ◌<◌, ◌+◌, ◌*◌, ◌/◌, ◌≡◌, ◌^◌, refl, arith, true, [], ◌∷◌, some}
use ff_a_acs.Paging.{TtDescriptor, Tables, fresh, take_table}
use ff_a_acs.Paging.Fill.{fill_translation_table, needs_table, valid_descriptor, page_entry}
use ff_a_acs.Paging.Layout.{IsLayout, IsLaid}
use ff_a_acs.Paging.Entries.{table_of-table_entry}
use ff_a_acs.Paging.Lookup.{lookup}
use ff_a_acs.Paging.Room.{Room}
use ff_a_acs.Paging.Translate.{fill_translation_table-Translates}

-- One table of each level, at 0x1000 to 0x4000.
abbrev Row : (level base : ℕ) → Type 0
Row level base = (level ≤ 3) × (base ≡ 0x1000 * (level + 1))

row-IsLayout : IsLayout 9 4096 Row
row-IsLayout = record {
  apart = λ k l a b i j s t lt lu e. omega (arith, s.1, t.1, lt, lu, e);
  named = λ l b t.
      table_of-table_entry 12 b (omega arith) (omega (arith, t.1)) (omega (arith, t.0, t.1));
}

abbrev row : Tables
row = record { entry = λ x. 0; l2 = fresh (0x3000 ∷ []); l3 = fresh (0x4000 ∷ []) }

row-IsLaid : IsLaid 9 4096 Row row
unfolding needs_table
row-IsLaid = record {
  entries = λ l b i t lt il n. absurd (ground (arith, n));
  second = ((omega arith, refl), tt);
  third = ((omega arith, refl), tt);
}

-- The page at 0x200000, from the table of level 0 on.
abbrev one_page : TtDescriptor
one_page = record {
  tt_base = 0x1000;
  input_base = 0x200000;
  input_top = 0x200fff;
  output_base = 0x80201000;
  level = 0;
  size_log2 = 39;
  nbits = 1;
}

one_page_valid : valid_descriptor 9 one_page ≡ true
unfolding valid_descriptor
one_page_valid = refl

row-Room : Room 0 row
unfolding take_table
row-Room = (λ h. (_, refl), λ h. (_, refl))

fill_translation_table-Translates_example :
    (out : Tables) × (fill_translation_table 9 4096 0x2000 4 5 one_page row ≡ some (0, out))
    × ((j va : ℕ)
        → j < 1
        → va / 4096 ≡ 0x200 + j
        → lookup 9 4096 3 out 0x1000 39 1 va ≡ page_entry 4096 (0x80201000 + j * 4096) 4)
    × ((l b i : ℕ) → Row l b → l < 0 → i < 2 ^ 9 → out.entry (b + 8 * i) ≡ 0)
fill_translation_table-Translates_example =
    fill_translation_table-Translates 9 12 0x2000 4 Row row-IsLayout (omega arith, refl)
      (λ l b t e. absurd (omega (arith, t.1, e))) (omega arith) 5 one_page 1 0x200 row
      one_page_valid (omega arith) (omega arith, refl) refl refl
      (omega arith, omega arith, omega arith, omega arith, omega arith, omega arith) row-IsLaid
      row-Room (omega arith)
