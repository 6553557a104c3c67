-- ===== src/Paging/Fill.antt =====
-- `fill_translation_table` of val/src/val_memory.c: its loop and its call of itself for the next level,
-- on fuel; `none` means that the fuel ran out. The result is the status, 0 for success, and the tables.
use ff_a_acs.Base.{
  ℕ, zero, suc, ◌+◌, ◌-◌, ◌*◌, ◌/◌, ◌%◌, ◌^◌, Bool, true, false, ◌&&◌, ◌||◌, Option, none, some,
  ltb, leb, ◌==◌, ◌!=◌, if◌then◌else◌, or64, mask_down,
}
use ff_a_acs.Paging.{TtDescriptor, Tables, set_entry, take_l2_table, take_l3_table}

-- What one round of the loop is about to do at an address.
pub data Action : Type 0 where
  finish : Action
  refuse : Action
  put_page : Action
  put_block : Action
  descend : Action

unfoldable pub chunk_top : TtDescriptor → ℕ → ℕ
chunk_top d ia =
    let block_size = 2 ^ d.size_log2 in
    let block_top = mask_down ia block_size + block_size - 1 in
    if ltb d.input_top block_top then d.input_top else block_top

-- The address of the entry: eight bytes for each of the 2^nbits indexes.
unfoldable pub entry_addr : TtDescriptor → ℕ → ℕ
entry_addr d ia = d.tt_base + 8 * ((ia / 2 ^ d.size_log2) % 2 ^ d.nbits)

unfoldable pub page_entry : (page_bytes oa attributes : ℕ) → ℕ
page_entry page_bytes oa attributes = or64 (or64 3 (mask_down oa page_bytes)) attributes

unfoldable pub block_entry : (block_size oa attributes : ℕ) → ℕ
block_entry block_size oa attributes = or64 (or64 1 (mask_down oa block_size)) attributes

unfoldable pub table_entry : (page_bytes base : ℕ) → ℕ
table_entry page_bytes base = or64 3 (mask_down base page_bytes)

-- `*table_desc == 0 || IS_PGT_ENTRY_BLOCK(*table_desc)`
unfoldable pub needs_table : ℕ → Bool
needs_table e = (e == 0) || ((e / 2) % 2 == 0)

-- `x & pgt_addr_mask`: the bits from the page size up to bit 47.
unfoldable pub table_of : (page_bytes e : ℕ) → ℕ
table_of page_bytes e = mask_down (e % 2 ^ 48) page_bytes

module _ (bits_per_level : ℕ) where
  unfoldable pub valid_descriptor : TtDescriptor → Bool
  valid_descriptor d =
      (d.tt_base != 0)
      && ltb d.size_log2 64
      && (d.nbits != 0)
      && ltb d.nbits 64
      && ltb bits_per_level 64
      && leb d.nbits bits_per_level

  unfoldable pub action : TtDescriptor → (ia oa : ℕ) → Action
  action d ia oa =
      let block_size = 2 ^ d.size_log2 in
      if leb d.input_top ia
      then finish
      else if ltb (2 ^ 64 - block_size) (mask_down ia block_size)
      then refuse
      else if leb (2 ^ bits_per_level) ((ia / block_size) % 2 ^ d.nbits)
      then refuse
      else if d.level == 3
      then put_page
      else if (ia % block_size == 0)
          && (oa % block_size == 0)
          && leb ((ia + block_size - 1) % 2 ^ 64) d.input_top
      then put_block
      else descend

  unfoldable pub next_level : TtDescriptor → (base ia oa : ℕ) → TtDescriptor
  unfolding chunk_top
  next_level d base ia oa = record {
    tt_base = base;
    input_base = ia;
    input_top = chunk_top d ia;
    output_base = oa;
    level = suc d.level;
    size_log2 = (d.size_log2 + 2 ^ 32 - bits_per_level) % 2 ^ 32;
    nbits = bits_per_level;
  }

  module _ (page_bytes l1_base attributes : ℕ) where
    -- The table behind an entry: the one it names, or one from the pool of the next level.
    unfoldable pub next_table : TtDescriptor → ℕ → Tables → Option (ℕ × Tables)
    unfolding needs_table table_of take_l2_table take_l3_table entry_addr
    next_table d ia s =
        let e = s.entry (entry_addr d ia) in
        if needs_table e
        then (if d.level == 1
            then take_l2_table s
            else if d.level == 2
            then take_l3_table s
            else some (l1_base, s))
        else some (table_of page_bytes e, s)

    unfoldable pub fill_loop : ℕ → TtDescriptor → (ia oa : ℕ) → Tables → Option (ℕ × Tables)
    unfolding action chunk_top entry_addr page_entry block_entry table_entry next_table next_level
        valid_descriptor
    fill_loop zero d ia oa s = none
    fill_loop (suc fuel) d ia oa s =
        let size = chunk_top d ia - ia + 1 in
        let ia1 = (ia + size) % 2 ^ 64 in
        let oa1 = (oa + size) % 2 ^ 64 in
        let put = set_entry s (entry_addr d ia) in
        elim (action d ia oa) [
          | finish ↦ some (0, s)
          | refuse ↦ some (1, s)
          | put_page ↦ fill_loop fuel d ia1 oa1 (put (page_entry page_bytes oa attributes))
          | put_block ↦ fill_loop fuel d ia1 oa1 (put (block_entry (2 ^ d.size_log2) oa attributes))
          | descend ↦ elim (next_table d ia s) [
            | none ↦ some (1, s)
            | some (base, s1) ↦
                let s2 = set_entry s1 (entry_addr d ia) (table_entry page_bytes base) in
                let next = next_level d base ia oa in
                elim (valid_descriptor next) [
                  | false ↦ some (1, s2)
                  | true ↦ elim (fill_loop fuel next ia oa s2) [
                    | none ↦ none
                    | some (zero, s3) ↦ fill_loop fuel d ia1 oa1 s3
                    | some (suc e, s3) ↦ some (1, s3)
                  ]
                ]
          ]
        ]

    unfoldable pub fill_translation_table : ℕ → TtDescriptor → Tables → Option (ℕ × Tables)
    unfolding fill_loop valid_descriptor
    fill_translation_table fuel d s =
        if valid_descriptor d then fill_loop fuel d d.input_base d.output_base s else some (1, s)
