-- ===== src/Paging/Create.antt =====
-- `val_pgt_create` of val/src/val_memory.c, and the regions of the endpoint's image that
-- `val_map_endpoint_region` passes to it; the linker's section bounds are arguments.
use ff_a_acs.Base.{
  ℕ, zero, suc, ◌+◌, ◌-◌, ◌*◌, ◌/◌, ◌%◌, ◌^◌, Bool, ◌&&◌, ◌||◌, Option, none, some, List, [], ◌∷◌,
  ltb, leb, ◌==◌, ◌!=◌, if◌then◌else◌, or64,
}
use ff_a_acs.Paging.{Region, PgtDescriptor, TtDescriptor, Tables, page_size, ilog2}
use ff_a_acs.Paging.Fill.{fill_translation_table}

abbrev pub pgt_stage1 : ℕ
pgt_stage1 = 1

abbrev pub pgt_stage2 : ℕ
pgt_stage2 = 2

-- `a - b` on `uint32_t`.
abbrev pub sub32 : ℕ → ℕ → ℕ
sub32 a b = (a + 2 ^ 32 - b) % 2 ^ 32

unfoldable pub tt_descriptor : (page_log2 : ℕ) → PgtDescriptor → Region → TtDescriptor
tt_descriptor page_log2 pgt r =
    let bits = sub32 page_log2 3 in
    let levels = (sub32 pgt.ias page_log2 + bits - 1) % 2 ^ 32 / bits in
    let base = r.virtual_address % 2 ^ pgt.ias in
    let size_log2 = (sub32 levels 1 * bits + page_log2) % 2 ^ 32 in
    record {
      tt_base = pgt.ttbr;
      input_base = base;
      input_top = (base + r.length + 2 ^ 64 - 1) % 2 ^ 64;
      output_base = r.physical_address % 2 ^ pgt.oas;
      level = sub32 4 levels;
      size_log2 = size_log2;
      nbits = sub32 pgt.ias size_log2;
    }

-- The region as the call leaves it where it comes to fill the table, or the refusal.
unfoldable pub checked_region : (page_bytes : ℕ) → PgtDescriptor → Region → Option Region
checked_region page_bytes pgt r =
    let r1 =
      if leb (2 ^ pgt.ias) r.virtual_address
      then record r { virtual_address = r.virtual_address % 2 ^ pgt.ias }
      else r in
    if (r.virtual_address % page_bytes != 0) || (r.physical_address % page_bytes != 0)
    then none
    else if leb (2 ^ pgt.oas) r.physical_address
    then none
    else if pgt.stage == pgt_stage1
    then some (record r1 { attributes = or64 r1.attributes (2 ^ 6) })
    else if pgt.stage == pgt_stage2
    then some (record r1 { attributes = or64 r1.attributes (3 * 2 ^ 6) })
    else none

module _ (l1_base : ℕ) where
  unfoldable pub pgt_create : ℕ → (tg0 : ℕ) → PgtDescriptor → Region → Tables → Option (ℕ × Tables)
  unfolding page_size ilog2 checked_region tt_descriptor fill_translation_table
  pgt_create fuel tg0 pgt r s =
      let page_bytes = page_size tg0 in
      let page_log2 = ilog2 page_bytes in
      elim (checked_region page_bytes pgt r) [
        | none ↦ some (1, s)
        | some r1 ↦
            elim (fill_translation_table (sub32 page_log2 3) page_bytes l1_base r1.attributes fuel
              (tt_descriptor page_log2 pgt r1) s) [
                | none ↦ none
                | some (zero, s1) ↦ some (0, s1)
                | some (suc e, s1) ↦ some (1, s1)
              ]
      ]

  -- The loops of `val_map_endpoint_region`: the first failure ends them.
  unfoldable pub map_regions :
      ℕ → (tg0 : ℕ) → PgtDescriptor → List Region → Tables → Option (ℕ × Tables)
  unfolding pgt_create
  map_regions fuel tg0 pgt [] s = some (0, s)
  map_regions fuel tg0 pgt (r ∷ rs) s = elim (pgt_create fuel tg0 pgt r s) [
    | none ↦ none
    | some (zero, s1) ↦ map_regions fuel tg0 pgt rs s1
    | some (suc e, s1) ↦ some (1, s1)
  ]

-- The linker symbols of the endpoint's image.
pub record Image : Type 0 where
  pub text_start : ℕ
  pub text_end : ℕ
  pub rodata_start : ℕ
  pub rodata_end : ℕ
  pub data_start : ℕ
  pub data_end : ℕ
  pub bss_start : ℕ
  pub bss_end : ℕ

unfoldable pub normalize_endpoint_section_addr : (image_base addr : ℕ) → ℕ
normalize_endpoint_section_addr image_base addr =
    if (addr != 0) && ltb addr image_base then (image_base + addr) % 2 ^ 64 else addr

unfoldable pub normalize : Image → Image
unfolding normalize_endpoint_section_addr
normalize i =
    let at = normalize_endpoint_section_addr i.text_start in
    record {
      text_start = at i.text_start;
      text_end = at i.text_end;
      rodata_start = at i.rodata_start;
      rodata_end = at i.rodata_end;
      data_start = at i.data_start;
      data_end = at i.data_end;
      bss_start = at i.bss_start;
      bss_end = at i.bss_end;
    }

-- ATTR_CODE, ATTR_RO_DATA and ATTR_RW_DATA.
pub record Attributes : Type 0 where
  pub code : ℕ
  pub ro_data : ℕ
  pub rw_data : ℕ

-- With ADD_NS_BIT as `ns`, 0 or 1.
abbrev pub image_attributes : (ns : ℕ) → Attributes
image_attributes ns = record {
  code = 2 ^ 2 + ns * 2 ^ 5 + 3 * 2 ^ 6 + 3 * 2 ^ 8 + 2 ^ 10;
  ro_data = 2 ^ 2 + ns * 2 ^ 5 + 3 * 2 ^ 6 + 3 * 2 ^ 8 + 2 ^ 10 + 2 ^ 53 + 2 ^ 54;
  rw_data = 2 ^ 2 + ns * 2 ^ 5 + 2 ^ 6 + 3 * 2 ^ 8 + 2 ^ 10 + 2 ^ 53 + 2 ^ 54;
}

abbrev flat : (start stop attributes : ℕ) → Region
flat start stop attributes = record {
  virtual_address = start;
  physical_address = start;
  length = stop - start;
  attributes = attributes;
}

unfoldable pub image_regions : Attributes → Image → List Region
image_regions t i =
    flat i.text_start i.text_end t.code
    ∷ flat i.rodata_start i.rodata_end t.ro_data
    ∷ flat i.data_start i.data_end t.rw_data
    ∷ flat i.bss_start i.bss_end t.rw_data
    ∷ []

unfoldable pub bad_bounds : Image → Bool
bad_bounds i =
    ltb i.text_end i.text_start
    || ltb i.rodata_end i.rodata_start
    || ltb i.data_end i.data_start
    || ltb i.bss_end i.bss_start
