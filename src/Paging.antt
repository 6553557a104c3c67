-- ===== src/Paging.antt =====
-- Translation tables, val/src/val_memory.c: the descriptors, the statically allocated tables and the
-- memory that holds the entries (eight bytes each, at their addresses).
pub mod Fill
pub mod Create
pub mod Setup
pub mod Pools
pub mod Granules
pub mod Walk
pub mod Pages
pub mod Entries
pub mod Layout
pub mod Writes
pub mod Mapped
pub mod PageLoop
pub mod PageTable
pub mod Lookup
mod Parts
mod Room
mod Leaves
mod Step
pub mod Translate
mod Lookups
mod Tests
use ff_a_acs.Base.{
  ℕ, zero, suc, ◌+◌, ◌-◌, ◌*◌, ◌/◌, ◌%◌, ◌^◌, Bool, true, false, ◌&&◌, ◌||◌, Option, none, some,
  List, [], ◌∷◌, map, ltb, leb, ◌==◌, ◌!=◌, if◌then◌else◌,
}

-- memory_region_descriptor_t
pub record Region : Type 0 where
  pub virtual_address : ℕ
  pub physical_address : ℕ
  pub length : ℕ
  pub attributes : ℕ

-- pgt_descriptor_t
pub record PgtDescriptor : Type 0 where
  pub ias : ℕ
  pub oas : ℕ
  pub stage : ℕ
  pub ttbr : ℕ

-- tt_descriptor_t
pub record TtDescriptor : Type 0 where
  pub tt_base : ℕ
  pub input_base : ℕ
  pub input_top : ℕ
  pub output_base : ℕ
  pub level : ℕ
  pub size_log2 : ℕ
  pub nbits : ℕ

-- Statically allocated tables with their `used` flags, in the order in which they are tried.
abbrev pub Pool : Type 0
Pool = List (ℕ × Bool)

abbrev pub fresh : List ℕ → Pool
fresh ts = map (λ t. (t, false)) ts

unfoldable pub take_table : Pool → Option (ℕ × Pool)
take_table [] = none
take_table ((t, used) ∷ ps) =
    let rest = take_table ps in
    if used
    then elim rest [ none ↦ none | some (x, qs) ↦ some (x, (t, used) ∷ qs) ]
    else some (t, (t, true) ∷ ps)

-- The entries, and the pools of level 2 and level 3 tables.
pub record Tables : Type 0 where
  pub entry : ℕ → ℕ
  pub l2 : Pool
  pub l3 : Pool

unfoldable pub set_entry : Tables → ℕ → ℕ → Tables
set_entry s a v = record s { entry = λ x. if x == a then v else s.entry x }

unfoldable pub take_l2_table : Tables → Option (ℕ × Tables)
unfolding take_table
take_l2_table s = elim (take_table s.l2) [
  | none ↦ none
  | some (t, p) ↦ some (t, record s { l2 = p })
]

unfoldable pub take_l3_table : Tables → Option (ℕ × Tables)
unfolding take_table
take_l3_table s = elim (take_table s.l3) [
  | none ↦ none
  | some (t, p) ↦ some (t, record s { l3 = p })
]

-- The page size that the current endpoint's tg0 stands for.
unfoldable pub page_size : ℕ → ℕ
page_size tg0 = if tg0 == 0 then 4 * 1024 else if tg0 == 1 then 64 * 1024 else 16 * 1024

-- The loop of `ilog2`; a 64-bit size is shifted out after 64 rounds.
unfoldable pub ilog2_from : ℕ → ℕ → ℕ → ℕ
ilog2_from zero size bit = 0
ilog2_from (suc fuel) size bit =
    let rest = ilog2_from fuel (size / 2) (suc bit) in
    if size == 0 then 0 else if size % 2 == 1 then bit else rest

unfoldable pub ilog2 : ℕ → ℕ
unfolding ilog2_from
ilog2 size = ilog2_from 64 size 0
