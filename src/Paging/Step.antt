-- ===== src/Paging/Step.antt =====
-- A table above level 3 with the pages of a walk of val/src/val_memory.c in the range of one entry.
use ff_a_acs.Base.{ℕ, suc, ◌+◌, ◌*◌, ◌/◌, ◌%◌, ◌^◌, ◌≡◌, ◌<◌, ◌≤◌, sym, ap, ◌∙◌, subst, arith}
use native.Mathlib.Nat.{pow-le-pow_right, mod-lt, div-div-eq-div-mul}
use ff_a_acs.Paging.{TtDescriptor}
use ff_a_acs.Paging.Fill.{descend, action, chunk_top}
use ff_a_acs.Paging.Walk.{pow_pos}
use ff_a_acs.Paging.PageLoop.{page_of}
use ff_a_acs.Paging.Lookup.{descend_action, chunk_top-input_top, bits_of}
use ff_a_acs.Paging.Parts.{
  same_part, part_end, same_table, pages_end, entry_size, times_pos, div_down, several, fewer_pages,
}
use ff_a_acs.Paging.Leaves.{Above, Pages}

module _ (bits page_log2 : ℕ) (Table : (level base : ℕ) → Type 0) (big : 2 ≤ page_log2) where
  abbrev page : ℕ
  page = 2 ^ page_log2

  -- A step down to the next level, in a table with `suc k` levels below it.
  module _ (k : ℕ) (d : TtDescriptor) (n c oa : ℕ) (sits : Above bits page_log2 Table (suc k) d)
      (pages : Pages bits page_log2 d n c oa) where
    abbrev block : ℕ
    block = 2 ^ d.size_log2

    blocks : block ≡ page * 2 ^ bits * 2 ^ (k * bits)
    blocks = ap (λ e. 2 ^ e) sits.2 ∙ entry_size bits page_log2 k

    below : d.level < 3
    below = omega (arith, sits.0)

    table_pos : 0 < page * 2 ^ bits
    table_pos = times_pos page (2 ^ bits) (pow_pos page_log2) (pow_pos bits)

    first_part : c / 2 ^ bits ≡ c * page / (page * 2 ^ bits)
    first_part =
        ap (λ q. q / 2 ^ bits) (sym (page_of c page (pow_pos page_log2)))
        ∙ div-div-eq-div-mul (c * page) page (2 ^ bits)

    -- All pages are in one entry's range.
    pub table_part : (j va : ℕ) → j < n → va / page ≡ c + j → va / block ≡ c * page / block
    table_part j va lt e =
        subst (λ b. va / b ≡ c * page / b) (sym blocks)
          (same_part va (c * page) (page * 2 ^ bits) (2 ^ (k * bits)) table_pos (pow_pos (k * bits))
            (sym (div-div-eq-div-mul va page (2 ^ bits))
              ∙ ap (λ q. q / 2 ^ bits) e
              ∙ same_table c n j (2 ^ bits) (pow_pos bits) pages.3 lt
              ∙ first_part))

    ends : d.input_top + 1 ≤ (c * page / block) * block + block
    ends =
        subst (λ b. d.input_top + 1 ≤ (c * page / b) * b + b) (sym blocks)
          (omega (
            arith,
            pages.0,
            table_end,
            part_end (c * page) (page * 2 ^ bits) (2 ^ (k * bits)) table_pos (pow_pos (k * bits)),
          ))
      where
        table_end :
            (c + n) * page ≤ (c * page / (page * 2 ^ bits)) * (page * 2 ^ bits) + page * 2 ^ bits
        table_end =
            subst (λ q. (c + n) * page ≤ q * (page * 2 ^ bits) + page * 2 ^ bits) first_part
              (pages_end c n (2 ^ bits) page (pow_pos bits) pages.3)

    pub top : chunk_top d (c * page) ≡ d.input_top
    top = chunk_top-input_top d (c * page) ends

    pub descends : action bits d (c * page) oa ≡ descend
    descends =
        descend_action bits d (c * page) oa (λ e. absurd (omega (arith, below, e)))
          (omega (arith, pages.0, several c n page pages.4, four))
          (omega (arith, pages.0, pages.1, several c n page pages.4, four))
          (pow-le-pow_right (omega arith) {j = 63} (omega (arith, (bits_of bits d sits.3).3)))
          (div_down (c * page) block (pow_pos d.size_log2)) indexed
          (subst (λ b. d.input_top + 1 < c * page + b) (sym blocks)
            (omega (
              arith,
              pages.0,
              several c n page pages.4,
              fewer_pages n page (2 ^ bits) (2 ^ (k * bits)) (pow_pos page_log2) pages.5
                  (pow_pos (k * bits)),
            )))
      where
        four : 4 ≤ page
        four = pow-le-pow_right {n = 2} (omega arith) {i = 2} big

        indexed : (c * page / block) % 2 ^ d.nbits < 2 ^ bits
        indexed =
            let narrow = pow-le-pow_right {n = 2} (omega arith) (bits_of bits d sits.3).0 in
            omega (arith, mod-lt (c * page / block) (pow_pos d.nbits), narrow)
