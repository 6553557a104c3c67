-- ===== src/Paging/Lookup.antt =====
-- The lookup of an address in the tables that the walk of val/src/val_memory.c fills, and the rounds
-- of the walk that go down a level.
use ff_a_acs.Base.{
  ℕ, zero, suc, ◌+◌, ◌-◌, ◌*◌, ◌/◌, ◌%◌, ◌^◌, ◌≡◌, ◌≢◌, ◌<◌, ◌≤◌, refl, ◌∙◌, arith, true, false,
  some, ◌==◌, if◌then◌else◌,
}
use ff_a_acs.Paging.{Tables, TtDescriptor, set_entry}
use ff_a_acs.Paging.Fill.{
  descend, action, fill_loop, valid_descriptor, page_entry, table_entry, table_of, needs_table,
  chunk_top,
}
use ff_a_acs.Paging.Walk.{action_finish}
use ff_a_acs.Paging.Entries.{bit_or_two}
use ff_a_acs.Paging.PageLoop.{leaf, put_leaves, is_three}

-- The word that translates an address: down from the table at `base`, over `k` levels at most, as
-- long as the entry names a table.
unfoldable pub lookup : (bits page_bytes k : ℕ) → Tables → (base size_log2 nbits va : ℕ) → ℕ
lookup bits page_bytes zero s base size_log2 nbits va =
    s.entry (base + 8 * ((va / 2 ^ size_log2) % 2 ^ nbits))
lookup bits page_bytes (suc k) s base size_log2 nbits va =
    let e = s.entry (base + 8 * ((va / 2 ^ size_log2) % 2 ^ nbits)) in
    let below = lookup bits page_bytes k s (table_of page_bytes e) (size_log2 - bits) bits va in
    if needs_table e then e else below

names_word : (w : ℕ) → w % 4 ≡ 3 → needs_table w ≡ false
unfolding needs_table
names_word w e = ground (arith, e)

pub needs_table-table_entry :
    (page_bytes base : ℕ) → needs_table (table_entry page_bytes base) ≡ false
unfolding table_entry
needs_table-table_entry page_bytes base =
    names_word _ (bit_or_two 62 3 (base / page_bytes * page_bytes) ∙ ground arith)

-- Leaves change no other entry.
pub put_leaves_other :
    (base size : ℕ) (word : ℕ → ℕ) (n i oa x : ℕ) (s : Tables)
    → ((j : ℕ) → j < n → x ≢ base + 8 * (i + j))
    → (put_leaves base size word n i oa s).entry x ≡ s.entry x
unfolding set_entry
put_leaves_other base size word zero i oa x s h = refl
put_leaves_other base size word (suc n) i oa x s h =
    put_leaves_other base size word n (suc i) (oa + size) x _
      (λ j l e. h (suc j) (omega (arith, l)) (e ∙ omega arith))
    ∙ other (λ e. h 0 (omega arith) (e ∙ omega arith))
  where
    other : x ≢ base + 8 * i → (set_entry s (base + 8 * i) (word oa)).entry x ≡ s.entry x
    other ne = ground (arith, ne)

pub descend_action :
    (bits : ℕ) (d : TtDescriptor) (ia oa : ℕ)
    → d.level ≢ 3
    → ia < d.input_top
    → ia < 2 ^ 63
    → 2 ^ d.size_log2 ≤ 2 ^ 63
    → (ia / 2 ^ d.size_log2) * 2 ^ d.size_log2 ≤ ia
    → (ia / 2 ^ d.size_log2) % 2 ^ d.nbits < 2 ^ bits
    → d.input_top + 1 < ia + 2 ^ d.size_log2
    → action bits d ia oa ≡ descend
unfolding action
descend_action bits d ia oa lv lt small size low i part = ground arith

pub chunk_top-input_top :
    (d : TtDescriptor) (ia : ℕ)
    → d.input_top + 1 ≤ (ia / 2 ^ d.size_log2) * 2 ^ d.size_log2 + 2 ^ d.size_log2
    → chunk_top d ia ≡ d.input_top
unfolding chunk_top
chunk_top-input_top d ia l = ground (arith, l)

pub leaf_page :
    (page_bytes attributes : ℕ) (d : TtDescriptor) (oa : ℕ)
    → d.level ≡ 3
    → leaf page_bytes attributes d oa ≡ page_entry page_bytes oa attributes
leaf_page page_bytes attributes d oa e = let t = is_three d.level e in rw (t) refl

pub fill_finish :
    (bits page_bytes l1_base attributes fuel : ℕ) (d : TtDescriptor) (x y : ℕ) (s : Tables)
    → 0 < fuel
    → d.input_top ≤ x
    → fill_loop bits page_bytes l1_base attributes fuel d x y s ≡ some (0, s)
unfolding fill_loop
fill_finish bits page_bytes l1_base attributes zero d x y s l le = absurd (omega (arith, l))
fill_finish bits page_bytes l1_base attributes (suc fuel) d x y s l le =
    rw (fill_loop, action_finish bits d x y le) refl

pub bits_of :
    (bits : ℕ) (d : TtDescriptor)
    → valid_descriptor bits d ≡ true
    → (d.nbits ≤ bits) × (1 ≤ bits) × (bits < 64) × (d.size_log2 < 64)
unfolding valid_descriptor
bits_of bits d v = (ground (arith, v), ground (arith, v), ground (arith, v), ground (arith, v))

pub missed : (x a v w : ℕ) → x ≢ a → (if x == a then v else w) ≡ w
missed x a v w ne = ground (arith, ne)
