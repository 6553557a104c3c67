-- ===== src/Paging/PageTable.antt =====
-- The pages or blocks that the walk of val/src/val_memory.c puts into one table.
use ff_a_acs.Base.{
  ℕ, zero, suc, ◌+◌, ◌*◌, ◌/◌, ◌%◌, ◌^◌, ◌≡◌, ◌<◌, ◌≤◌, ◌⊎◌, refl, ap, ◌∙◌, arith, true, some, inl,
}
use native.Mathlib.Nat.{pow-le-pow_right}
use ff_a_acs.Paging.{Tables, TtDescriptor, set_entry}
use ff_a_acs.Paging.Fill.{fill_loop, fill_translation_table, valid_descriptor}
use ff_a_acs.Paging.Walk.{pow_pos}
use ff_a_acs.Paging.PageLoop.{put_leaves, leaf, Fits, fill_loop_leaves}

-- What `put_leaves` leaves: the entries in order, and everything else as it was.
module _ (base size : ℕ) (word : ℕ → ℕ) where
  abbrev Untouched : (n i : ℕ) → ℕ → Type 0
  Untouched n i a = (a < base + 8 * i) ⊎ (base + 8 * (i + n) ≤ a)

  put_leaves_frame :
      (n i oa a : ℕ) (s : Tables)
      → Untouched n i a
      → (put_leaves base size word n i oa s).entry a ≡ s.entry a
  unfolding set_entry
  put_leaves_frame zero i oa a s h = refl
  put_leaves_frame (suc n) i oa a s h =
      let s1 = set_entry s (base + 8 * i) (word oa) in
      put_leaves_frame n (suc i) (oa + size) a s1 (ground (arith, h)) ∙ ground (arith, h)

  place : (i k : ℕ) → base + 8 * (i + suc k) ≡ base + 8 * (suc i + k)
  place i k = omega arith

  output : (oa k : ℕ) → oa + size + k * size ≡ oa + suc k * size
  output oa k = grind arith

  here :
      (i oa : ℕ) (s : Tables)
      → (set_entry s (base + 8 * i) (word oa)).entry (base + 8 * (i + 0)) ≡ word (oa + 0 * size)
  unfolding set_entry
  here i oa s = same (word oa) refl ∙ ap (λ o. word o) (omega arith)
    where
      same : (v : ℕ) → v ≡ v → (set_entry s (base + 8 * i) v).entry (base + 8 * (i + 0)) ≡ v
      same v e = ground arith

  pub put_leaves_entry :
      (n i oa k : ℕ) (s : Tables)
      → k < n
      → (put_leaves base size word n i oa s).entry (base + 8 * (i + k)) ≡ word (oa + k * size)
  unfolding set_entry
  put_leaves_entry zero i oa k s l = absurd (omega (arith, l))
  put_leaves_entry (suc n) i oa zero s l =
      let s1 = set_entry s (base + 8 * i) (word oa) in
      put_leaves_frame n (suc i) (oa + size) (base + 8 * (i + 0)) s1 (inl (omega arith))
      ∙ here i oa s
  put_leaves_entry (suc n) i oa (suc k) s l =
      let s1 = set_entry s (base + 8 * i) (word oa) in
      ap (put_leaves base size word n (suc i) (oa + size) s1).entry (place i k)
      ∙ put_leaves_entry n (suc i) (oa + size) k s1 (omega (arith, l))
      ∙ ap (λ o. word o) (output oa k)

pages_index : (base p : ℕ) → 0 < p → base % p ≡ 0 → base ≡ (base / p) * p
pages_index base p l e = grind arith

joined : (c n p : ℕ) → c * p + n * p ≡ (c + n) * p
joined c n p = grind arith

fewer : (bits : ℕ) (d : TtDescriptor) → valid_descriptor bits d ≡ true → d.nbits ≤ bits
unfolding valid_descriptor
fewer bits d v = ground (arith, v)

two : (k : ℕ) → 1 ≤ k → 2 ≤ 2 ^ k
two k l = pow-le-pow_right {n = 2} (omega arith) {i = 1} l

-- For a range of `n` entries of a table that starts on the boundary of one, lies within the table and
-- ends below 2^63, with an output range that does not wrap, and at a level other than 3 starts on the
-- boundary of a block, and fuel for each entry: the walk succeeds, entry after entry from the first
-- on maps the output range in order with the attributes, by pages at level 3 and by blocks elsewhere,
-- and all other memory is as it was.
pub fill_translation_table_leaves :
    (bits page_bytes l1_base attributes fuel n : ℕ) (d : TtDescriptor) (s : Tables)
    → valid_descriptor bits d ≡ true
    → Fits d d.output_base
    → 1 ≤ d.size_log2
    → d.input_base % 2 ^ d.size_log2 ≡ 0
    → d.input_top + 1 ≡ d.input_base + n * 2 ^ d.size_log2
    → d.input_top < 2 ^ 63
    → d.output_base + n * 2 ^ d.size_log2 < 2 ^ 64
    → (d.input_base / 2 ^ d.size_log2) % 2 ^ d.nbits + n ≤ 2 ^ d.nbits
    → n < fuel
    → (out : Tables) × (fill_translation_table bits page_bytes l1_base attributes fuel d s
        ≡ some (0, out))
      × ((k : ℕ)
          → k < n
          → out.entry (d.tt_base + 8 * ((d.input_base / 2 ^ d.size_log2) % 2 ^ d.nbits + k))
            ≡ leaf page_bytes attributes d (d.output_base + k * 2 ^ d.size_log2))
      × ((a : ℕ)
          → (a < d.tt_base + 8 * ((d.input_base / 2 ^ d.size_log2) % 2 ^ d.nbits))
            ⊎ (d.tt_base + 8 * ((d.input_base / 2 ^ d.size_log2) % 2 ^ d.nbits + n) ≤ a)
          → out.entry a ≡ s.entry a)
unfolding fill_translation_table
fill_translation_table_leaves bits page_bytes l1_base attributes fuel n d s v fits one whole top
      small out inside lt =
    (
      put_leaves d.tt_base p (leaf page_bytes attributes d) n i d.output_base s,
      rw (fill_translation_table, v)
          (ap (λ b. fill_loop bits page_bytes l1_base attributes fuel d b d.output_base s) starts
            ∙ fill_loop_leaves bits page_bytes l1_base attributes d (two d.size_log2 one) (narrow v)
                n fuel (d.input_base / 2 ^ d.size_log2) d.output_base s lt
                (sum top starts, small, out, inside, fits)),
      λ k l. put_leaves_entry d.tt_base p (leaf page_bytes attributes d) n i d.output_base k s l,
      λ a h. put_leaves_frame d.tt_base p (leaf page_bytes attributes d) n i d.output_base a s h,
    )
  where
    p : ℕ
    p = 2 ^ d.size_log2

    i : ℕ
    i = (d.input_base / p) % 2 ^ d.nbits

    starts : d.input_base ≡ (d.input_base / 2 ^ d.size_log2) * 2 ^ d.size_log2
    starts = pages_index d.input_base (2 ^ d.size_log2) (pow_pos d.size_log2) whole

    sum :
        d.input_top + 1 ≡ d.input_base + n * 2 ^ d.size_log2
        → d.input_base ≡ (d.input_base / 2 ^ d.size_log2) * 2 ^ d.size_log2
        → d.input_top + 1 ≡ (d.input_base / 2 ^ d.size_log2 + n) * 2 ^ d.size_log2
    sum t e =
        t
        ∙ ap (λ b. b + n * 2 ^ d.size_log2) e
        ∙ joined (d.input_base / 2 ^ d.size_log2) n (2 ^ d.size_log2)

    narrow : valid_descriptor bits d ≡ true → 2 ^ d.nbits ≤ 2 ^ bits
    narrow v = pow-le-pow_right (omega arith) (fewer bits d v)
