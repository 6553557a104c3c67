-- ===== src/Paging/Setup.antt =====
-- `val_map_endpoint_region`, `val_setup_mmu` and `val_mem_map_pgt` of val/src/val_memory.c, and the
-- granule choice of val/src/val_endpoint_info.c. The linker's section bounds, the platform's device map,
-- the exception levels and the ID register are arguments; the system registers are state.
use ff_a_acs.Base.{
  ℕ, zero, suc, ◌+◌, ◌-◌, ◌*◌, ◌/◌, ◌%◌, ◌^◌, Option, none, some, List, ◌==◌, ◌!=◌, if◌then◌else◌,
  or64,
}
use ff_a_acs.Paging.{Region, PgtDescriptor, Tables}
use ff_a_acs.Paging.Create.{
  pgt_create, map_regions, Image, normalize, image_regions, bad_bounds, pgt_stage1,
  image_attributes,
}

abbrev pub val_tg0_64k : ℕ
val_tg0_64k = 1

abbrev pub val_tg0_16k : ℕ
val_tg0_16k = 2

-- `val_assign_tg0_to_endpoint`: the status, and the tg0 of every endpoint, which was `tg0`.
unfoldable pub assign_tg0 : (mmfr0 tg0 : ℕ) → ℕ × ℕ
assign_tg0 mmfr0 tg0 =
    if (mmfr0 / 2 ^ 28) % 16 == 0
    then (0, tg0)
    else if (mmfr0 / 2 ^ 24) % 16 == 0
    then (0, val_tg0_64k)
    else if (mmfr0 / 2 ^ 20) % 16 == 1
    then (0, val_tg0_16k)
    else (1, tg0)

-- The system registers that the code writes, the endpoint's tg0, and the tables.
pub record Mmu : Type 0 where
  pub mair : ℕ
  pub ttbr0 : ℕ
  pub tcr : ℕ
  pub sctlr : ℕ
  pub tg0 : ℕ
  pub tables : Tables

unfoldable pub tcr_value : (current_el tg0 : ℕ) → ℕ
tcr_value current_el tg0 =
    let common = tg0 * 2 ^ 14 + 3 * 2 ^ 12 + 2 ^ 10 + 2 ^ 8 + (64 - 40) in
    if current_el == 2 then 2 ^ 20 + common else 2 ^ 37 + 2 ^ 23 + 2 * 2 ^ 32 + common

abbrev pub stage1_pgt : (ttbr : ℕ) → PgtDescriptor
stage1_pgt ttbr = record { ias = 40; oas = 40; stage = pgt_stage1; ttbr = ttbr }

-- `devices` is none where the platform has no map to give.
module _ (l0_base l1_base ns : ℕ) (image : Image) (devices : Option (List Region)) where
  unfoldable pub map_endpoint_region : ℕ → (tg0 : ℕ) → PgtDescriptor → Tables → Option (ℕ × Tables)
  unfolding normalize bad_bounds image_regions map_regions
  map_endpoint_region fuel tg0 pgt s =
      let i = normalize image in
      if bad_bounds i
      then some (1, s)
      else elim (map_regions l1_base fuel tg0 pgt (image_regions (image_attributes ns) i) s) [
        | none ↦ none
        | some (suc e, s1) ↦ some (1, s1)
        | some (zero, s1) ↦ elim devices [
          | none ↦ some (1, s1)
          | some rs ↦ map_regions l1_base fuel tg0 pgt rs s1
        ]
      ]

  unfoldable pub setup_mmu : ℕ → (el_info current_el mmfr0 : ℕ) → Mmu → Option (ℕ × Mmu)
  unfolding assign_tg0 tcr_value map_endpoint_region
  setup_mmu fuel el_info current_el mmfr0 m =
      let (status, tg0) = assign_tg0 mmfr0 m.tg0 in
      let m1 = record m { mair = 0xff44 } in
      let m2 = record m1 { tg0 = tg0; ttbr0 = l0_base; tcr = tcr_value current_el tg0 } in
      let mapped = map_endpoint_region fuel tg0 (stage1_pgt l0_base) m.tables in
      if el_info % 16 == 0 then some (0, m) else if status != 0 then some (1, m1) else elim mapped [
        | none ↦ none
        | some (suc e, s1) ↦ some (1, record m2 { tables = s1 })
        | some (zero, s1) ↦
            some (0, record m2 { tables = s1; sctlr = or64 (1 + 2 ^ 2 + 2 ^ 12 + 2 ^ 23) m.sctlr })
      ]

  unfoldable pub mem_map_pgt : ℕ → (el_info : ℕ) → Region → Mmu → Option (ℕ × Mmu)
  unfolding pgt_create
  mem_map_pgt fuel el_info r m =
      let done = pgt_create l1_base fuel m.tg0 (stage1_pgt m.ttbr0) r m.tables in
      if el_info % 16 == 0
      then some (0, m)
      else elim done [ none ↦ none | some (e, s1) ↦ some (e, record m { tables = s1 }) ]
