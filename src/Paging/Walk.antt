-- ===== src/Paging/Walk.antt =====
-- The table walk of val/src/val_memory.c ends.
use ff_a_acs.Base.{
  ℕ, zero, suc, ◌+◌, ◌-◌, ◌%◌, ◌^◌, ◌≡◌, ◌≢◌, ◌<◌, ◌≤◌, refl, arith, inl, inr, true, false, some,
  none, Option, Bool, ltb, Bool-cases,
}
use native.Mathlib.Nat.{one-le-pow, mod-lt, mod-add-div'}
use ff_a_acs.Paging.{TtDescriptor, Tables, set_entry}
use ff_a_acs.Paging.Fill.{
  fill_loop, fill_translation_table, chunk_top, action, next_level, next_table, valid_descriptor,
  page_entry, block_entry, table_entry, entry_addr, Action, finish, refuse, put_page, put_block,
  descend,
}

pub pow_pos : (k : ℕ) → 0 < 2 ^ k
pow_pos k = one-le-pow k 2 (omega arith)

chunk_top_le : (d : TtDescriptor) (ia : ℕ) → chunk_top d ia ≤ d.input_top
unfolding chunk_top
chunk_top_le d ia = ground arith

chunk_top_ge : (d : TtDescriptor) (ia : ℕ) → ia < d.input_top → ia ≤ chunk_top d ia
unfolding chunk_top
chunk_top_ge d ia lt =
    let low = mod-lt ia (pow_pos d.size_log2) in
    let whole = mod-add-div' ia (2 ^ d.size_log2) in ground arith

descend_level :
    (bits : ℕ) (d : TtDescriptor) (ia oa : ℕ) → action bits d ia oa ≡ descend → d.level ≢ 3
unfolding action
descend_level bits d ia oa e = ground arith

pub action_finish :
    (bits : ℕ) (d : TtDescriptor) (ia oa : ℕ) → d.input_top ≤ ia → action bits d ia oa ≡ finish
unfolding action
action_finish bits d ia oa le = ground arith

module _ (bits page_bytes l1_base attributes : ℕ) where
  abbrev Returns : ℕ → TtDescriptor → (ia oa : ℕ) → Tables → Type 0
  Returns fuel d ia oa s =
      (out : ℕ × Tables) × (fill_loop bits page_bytes l1_base attributes fuel d ia oa s ≡ some out)

  abbrev table : TtDescriptor → ℕ → Tables → Option (ℕ × Tables)
  table d ia s = next_table bits page_bytes l1_base attributes d ia s

  -- The fuel serves a walk from `ia` with descriptor `d`.
  abbrev Serves : ℕ → TtDescriptor → ℕ → Type 0
  Serves fuel d ia =
      (d.input_top < 2 ^ 64 - 1)
      × (d.level ≤ 3)
      × (ia ≤ d.input_top + 1)
      × (d.input_top + 1 + (4 - d.level) < fuel + ia)

  module _ (fuel : ℕ)
      (ih : (d : TtDescriptor) (ia oa : ℕ) (s : Tables) → Serves fuel d ia → Returns fuel d ia oa s)
      (d : TtDescriptor) (ia oa : ℕ) (s : Tables) (k : Serves (suc fuel) d ia)
      (lt : ia < d.input_top) where
    abbrev after : ℕ → ℕ
    after x = (x + (chunk_top d ia - ia + 1)) % 2 ^ 64

    later : (s1 : Tables) → Returns fuel d (after ia) (after oa) s1
    later s1 =
        let l = chunk_top_le d ia in
        let g = chunk_top_ge d ia lt in
        ih d (after ia) (after oa) s1 (k.0, k.1, omega arith, omega arith)

    inner :
        (e : action bits d ia oa ≡ descend)
        → (base : ℕ) → (s1 : Tables) → table d ia s ≡ some (base, s1)
        → valid_descriptor bits (next_level bits d base ia oa) ≡ true
        → (out : ℕ × Tables)
        → fill_loop bits page_bytes l1_base attributes fuel
            (next_level bits d base ia oa)
            ia
            oa
            (set_entry s1 (entry_addr d ia) (table_entry page_bytes base))
          ≡ some out
        → Returns (suc fuel) d ia oa s
    unfolding fill_loop
    inner e base s1 h q (zero, s3) r = ((later s3).0, rw (fill_loop, e, h, q, r) (later s3).1)
    inner e base s1 h q (suc n, s3) r = ((1, s3), rw (fill_loop, e, h, q, r) refl)

    deeper :
        (e : action bits d ia oa ≡ descend)
        → (base : ℕ) → (s1 : Tables) → table d ia s ≡ some (base, s1)
        → (v : Bool) → valid_descriptor bits (next_level bits d base ia oa) ≡ v
        → d.level < 3
        → Returns (suc fuel) d ia oa s
    unfolding fill_loop
    deeper e base s1 h false q lv = (
      (1, set_entry s1 (entry_addr d ia) (table_entry page_bytes base)),
      rw (fill_loop, e, h, q) refl,
    )
    deeper e base s1 h true q lv =
        let l = chunk_top_le d ia in
        let g = chunk_top_ge d ia lt in
        let s2 = set_entry s1 (entry_addr d ia) (table_entry page_bytes base) in
        let (out, r) =
          ih (next_level bits d base ia oa) ia oa s2
            (omega (arith, l, k.0), lv, omega (arith, g), omega (arith, l, g, k.2, lv)) in
        inner e base s1 h q out r

    search_table :
        (e : action bits d ia oa ≡ descend)
        → (r : Option (ℕ × Tables)) → table d ia s ≡ r
        → Returns (suc fuel) d ia oa s
    unfolding fill_loop
    search_table e none h = ((1, s), rw (fill_loop, e, h) refl)
    search_table e (some (base, s1)) h =
        deeper e base s1 h (valid_descriptor bits (next_level bits d base ia oa)) refl
          (omega (arith, k.1, descend_level bits d ia oa e))

    step : (a : Action) → action bits d ia oa ≡ a → Returns (suc fuel) d ia oa s
    unfolding fill_loop
    step finish e = ((0, s), rw (fill_loop, e) refl)
    step refuse e = ((1, s), rw (fill_loop, e) refl)
    step put_page e =
        let s1 = set_entry s (entry_addr d ia) (page_entry page_bytes oa attributes) in
        ((later s1).0, rw (fill_loop, e) (later s1).1)
    step put_block e =
        let s1 = set_entry s (entry_addr d ia) (block_entry (2 ^ d.size_log2) oa attributes) in
        ((later s1).0, rw (fill_loop, e) (later s1).1)
    step descend e = search_table e (table d ia s) refl

  fill_loop-Returns :
      (fuel : ℕ) (d : TtDescriptor) (ia oa : ℕ) (s : Tables)
      → Serves fuel d ia
      → Returns fuel d ia oa s
  unfolding fill_loop
  fill_loop-Returns zero d ia oa s k = absurd (omega (arith, k.2))
  fill_loop-Returns (suc fuel) d ia oa s k = elim (Bool-cases (ltb ia d.input_top)) [
    | inl lt ↦
        step fuel (fill_loop-Returns fuel) d ia oa s k (ground (arith, lt)) (action bits d ia oa)
          refl
    | inr ge ↦ ((0, s), rw (fill_loop, action_finish bits d ia oa (ground (arith, ge))) refl)
  ]

-- For a descriptor of level 3 or less whose range does not reach the last address, the walk returns
-- with fuel for each address of the range and for each level below: every round moves up by one
-- address at least, and every call of itself goes down a level.
pub fill_translation_table_returns :
    (bits page_bytes l1_base attributes fuel : ℕ) (d : TtDescriptor) (s : Tables)
    → d.input_top < 2 ^ 64 - 1
    → d.level ≤ 3
    → d.input_base ≤ d.input_top + 1
    → d.input_top + 1 + (4 - d.level) < fuel + d.input_base
    → (out : ℕ × Tables) × (fill_translation_table bits page_bytes l1_base attributes fuel d s
        ≡ some out)
unfolding fill_translation_table
fill_translation_table_returns bits page_bytes l1_base attributes fuel d s top lv le lt =
    elim (Bool-cases (valid_descriptor bits d)) [
      | inl v ↦
          let (out, r) =
            fill_loop-Returns bits page_bytes l1_base attributes fuel d d.input_base d.output_base s
              (top, lv, le, lt) in
          (out, rw (fill_translation_table, v) r)
      | inr v ↦ ((1, s), rw (fill_translation_table, v) refl)
    ]
