-- ===== src/Paging/Translate.antt =====
-- The walk of val/src/val_memory.c down to the pages of one table of level 3, and the lookup of their
-- addresses from the table that it started at.
use ff_a_acs.Base.{
  ℕ, zero, suc, ◌+◌, ◌-◌, ◌*◌, ◌/◌, ◌%◌, ◌^◌, ◌≡◌, ◌≢◌, ◌<◌, ◌≤◌, refl, sym, ap, ◌∙◌, subst, arith,
  true, ◌==◌, if◌then◌else◌,
}
use native.Mathlib.Nat.{pow-le-pow_right, mod-lt}
use ff_a_acs.Paging.{Tables, TtDescriptor, set_entry}
use ff_a_acs.Paging.Fill.{
  fill_loop, fill_translation_table, next_table, next_level, valid_descriptor, entry_addr,
  page_entry, table_entry, chunk_top,
}
use ff_a_acs.Paging.Walk.{pow_pos}
use ff_a_acs.Paging.Layout.{IsLayout, IsLaid, Found, Keeps, next_table-Found, set_entry-Keeps}
use ff_a_acs.Paging.Lookup.{lookup, needs_table-table_entry, fill_finish, bits_of, missed}
use ff_a_acs.Paging.Parts.{several}
use ff_a_acs.Paging.Leaves.{Above, Pages, Translates, last_level}
use ff_a_acs.Paging.Room.{Room, Taken, next_table-Taken}
use ff_a_acs.Paging.Step.{table_part, top, descends}

module _ (bits page_log2 l1_base attributes : ℕ) (Table : (level base : ℕ) → Type 0)
    (layout : IsLayout bits (2 ^ page_log2) Table) (first : Table 1 l1_base)
    (nonzero : (l b : ℕ) → Table l b → b ≢ 0) (big : 2 ≤ page_log2) where
  abbrev page : ℕ
  page = 2 ^ page_log2

  abbrev Laid : Tables → Type 0
  Laid s = IsLaid bits page Table s

  again : (k : ℕ) → suc k * bits + page_log2 ≡ bits + (k * bits + page_log2)
  again k = grind arith

  -- A step down to the next level, in a table with `suc k` levels below it.
  module _ (k : ℕ) (d : TtDescriptor) (n c oa : ℕ) (s : Tables)
      (sits : Above bits page_log2 Table (suc k) d) (pages : Pages bits page_log2 d n c oa) where
    abbrev block : ℕ
    block = 2 ^ d.size_log2

    below : d.level < 3
    below = omega (arith, sits.0)

    here : chunk_top d (c * page) ≡ d.input_top
    here = top bits page_log2 Table big k d n c oa sits pages

    module _ (laid : Laid s) (room : Room d.level s) where
      abbrev taken :
          Taken bits page l1_base attributes d
            (c * page)
            s
            d.level
            (next_table bits page l1_base attributes d (c * page) s)
      taken = next_table-Taken bits page l1_base attributes d (c * page) s below room

      abbrev base : ℕ
      base = taken.0.0

      abbrev next : TtDescriptor
      next = next_level bits d base (c * page) oa

      abbrev s2 : Tables
      s2 = set_entry taken.0.1 (entry_addr d (c * page)) (table_entry page base)

      index_small : (c * page / block) % 2 ^ d.nbits < 2 ^ bits
      index_small =
          let narrow = pow-le-pow_right {n = 2} (omega arith) (bits_of bits d sits.3).0 in
          omega (arith, mod-lt (c * page / block) (pow_pos d.nbits), narrow)

      found : Table (suc d.level) base × Keeps bits page Table s taken.0.1
      found = subst (Found bits page Table layout d.level s) taken.1 (
          next_table-Found bits page Table layout l1_base attributes d (c * page) s first sits.1
            below index_small laid)

      laid2 : Laid s2
      unfolding entry_addr
      laid2 =
          (set_entry-Keeps bits page Table layout taken.0.1 d.level d.tt_base
            ((c * page / block) % 2 ^ d.nbits) (table_entry page base) found.1.0 sits.1 index_small
            (λ l m.
              subst (Table (suc d.level)) (sym (layout.named (suc d.level) base found.0))
                found.0)).0

      room2 : Room (suc d.level) s2
      unfolding set_entry
      room2 = taken.2

      next_size : next.size_log2 ≡ k * bits + page_log2
      unfolding next_level
      next_size =
          let all = bits_of bits d sits.3 in omega (arith, again k, sits.2, all.1, all.2, all.3)

      valid : valid_descriptor bits next ≡ true
      unfolding valid_descriptor next_level
      valid =
          let all = bits_of bits d sits.3 in
          let z = nonzero (suc d.level) base found.0 in
          ground (arith, all, z, next_size, again k, sits.2)

      next-Above : Above bits page_log2 Table k next
      unfolding next_level
      next-Above = (omega (arith, sits.0), found.0, next_size, valid, λ e. refl)

      next-Pages : Pages bits page_log2 next n c oa
      unfolding next_level
      next-Pages = (
        ap (λ x. x + 1) here ∙ pages.0,
        subst (λ x. x < 2 ^ 63) (sym here) pages.1,
        pages.2,
        pages.3,
        pages.4,
        pages.5,
      )

      module _ (fuel : ℕ) (some_left : 0 < fuel)
          (ih : Translates bits page_log2 attributes Table k next n c oa s2
            (fill_loop bits page l1_base attributes fuel next (c * page) oa s2)) where
        abbrev out : Tables
        out = ih.0

        -- The entry that names the next table is still there.
        entry_stays : out.entry (entry_addr d (c * page)) ≡ table_entry page base
        unfolding entry_addr set_entry next_level
        entry_stays =
            ih.3 d.level d.tt_base ((c * page / block) % 2 ^ d.nbits) sits.1 (omega arith)
              index_small
            ∙ written (d.tt_base + 8 * ((c * page / block) % 2 ^ d.nbits))
          where
            written :
                (x : ℕ)
                → (if x == x then table_entry page base else taken.0.1.entry x)
                  ≡ table_entry page base
            written x = ground arith

        found_word :
            (j va : ℕ)
            → j < n
            → va / page ≡ c + j
            → lookup bits page (suc k) out d.tt_base d.size_log2 d.nbits va
              ≡ page_entry page (oa + j * page) attributes
        unfolding lookup next_level entry_addr table_entry
        found_word j va lt e =
            rw (word, needs_table-table_entry page base, layout.named (suc d.level) base found.0)
              (ap (λ z. lookup bits page k out base z bits va) deeper ∙ ih.2 j va lt e)
          where
            word : out.entry (d.tt_base + 8 * ((va / block) % 2 ^ d.nbits)) ≡ table_entry page base
            word =
                ap (λ q. out.entry (d.tt_base + 8 * (q % 2 ^ d.nbits)))
                  (table_part bits page_log2 Table big k d n c oa sits pages j va lt e)
                ∙ entry_stays

            deeper : d.size_log2 - bits ≡ next.size_log2
            deeper = omega (arith, again k, sits.2, next_size)

        others :
            (l b i : ℕ)
            → Table l b
            → l < d.level
            → i < 2 ^ bits
            → out.entry (b + 8 * i) ≡ s.entry (b + 8 * i)
        unfolding entry_addr set_entry next_level
        others l b i t lt small =
            ih.3 l b i t (omega (arith, lt)) small
            ∙ missed (b + 8 * i) (d.tt_base + 8 * ((c * page / block) % 2 ^ d.nbits))
                (table_entry page base) (taken.0.1.entry (b + 8 * i))
                (λ e.
                  let same =
                    layout.apart l d.level b d.tt_base i ((c * page / block) % 2 ^ d.nbits) t sits.1
                      small index_small e in
                  omega (arith, same, lt))
            ∙ ap (λ f. f (b + 8 * i)) taken.3

        step :
            Translates bits page_log2 attributes Table
              (suc k)
              d
              n
              c
              oa
              s
              (fill_loop bits page l1_base attributes (suc fuel) d (c * page) oa s)
        unfolding fill_loop
        step = (
          out,
          rw
              (
                fill_loop,
                descends bits page_log2 Table big k d n c oa sits pages,
                taken.1,
                valid,
                ih.1,
              )
              (fill_finish bits page l1_base attributes fuel d _ _ out some_left
                (omega (arith, here, pages.0, pages.1, pages.4, several c n page pages.4))),
          found_word,
          others,
        )

  fill_loop-Translates :
      (k fuel : ℕ) (d : TtDescriptor) (n c oa : ℕ) (s : Tables)
      → Above bits page_log2 Table k d
      → Pages bits page_log2 d n c oa
      → Laid s
      → Room d.level s
      → n + k < fuel
      → Translates bits page_log2 attributes Table k d n c oa s
          (fill_loop bits page l1_base attributes fuel d (c * page) oa s)
  unfolding next_level
  fill_loop-Translates zero fuel d n c oa s sits pages laid room lt =
      last_level bits page_log2 l1_base attributes Table layout big d n c oa s sits pages fuel
        (omega (arith, lt))
  fill_loop-Translates (suc k) zero d n c oa s sits pages laid room lt = absurd (omega (arith, lt))
  fill_loop-Translates (suc k) (suc fuel) d n c oa s sits pages laid room lt =
      step k d n c oa s sits pages laid room fuel (omega (arith, lt)) (
        fill_loop-Translates k fuel (next k d n c oa s sits pages laid room) n c oa
          (s2 k d n c oa s sits pages laid room) (next-Above k d n c oa s sits pages laid room)
          (next-Pages k d n c oa s sits pages laid room) (laid2 k d n c oa s sits pages laid room)
          (room2 k d n c oa s sits pages laid room) (omega (arith, lt)))

  -- For a table above level 3 and `n` pages that lie in one table of level 3 and do not fill it, end
  -- below 2^63 and whose output range does not wrap, with tables laid out as `Table` says, a table left
  -- in each pool that may be needed, and fuel for each page and level: the walk succeeds, a lookup of
  -- any address within the pages then ends at the word for its output page, and the tables of the
  -- levels above the one that it started at are as they were.
  pub fill_translation_table-Translates :
      (fuel : ℕ) (d : TtDescriptor) (n c : ℕ) (s : Tables)
      → valid_descriptor bits d ≡ true
      → d.level < 3
      → Table d.level d.tt_base
      → d.size_log2 ≡ (3 - d.level) * bits + page_log2
      → d.input_base ≡ c * page
      → Pages bits page_log2 d n c d.output_base
      → Laid s
      → Room d.level s
      → n + 3 < fuel
      → Translates bits page_log2 attributes Table
          (3 - d.level)
          d
          n
          c
          d.output_base
          s
          (fill_translation_table bits page l1_base attributes fuel d s)
  unfolding fill_translation_table
  fill_translation_table-Translates fuel d n c s v lt t size starts pages laid room f =
      rw (fill_translation_table, v)
        (subst
          (λ b.
            Translates bits page_log2 attributes Table (3 - d.level) d n c d.output_base s
              (fill_loop bits page l1_base attributes fuel d b d.output_base s))
          (sym starts)
          (fill_loop-Translates (3 - d.level) fuel d n c d.output_base s
            (omega (arith, lt), t, size, v, λ e. absurd (omega (arith, lt, e))) pages laid room
            (omega (arith, f))))
