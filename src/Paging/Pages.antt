-- ===== src/Paging/Pages.antt =====
-- `val_pgt_create` of val/src/val_memory.c on every branch.
use ff_a_acs.Base.{
  ℕ, zero, suc, ◌+◌, ◌%◌, ◌^◌, ◌≡◌, ◌<◌, ◌≤◌, ◌≢◌, ◌⊎◌, refl, arith, inl, inr, Option, some, none,
}
use ff_a_acs.Paging.{Region, PgtDescriptor, TtDescriptor, Tables, page_size, ilog2}
use ff_a_acs.Paging.Create.{pgt_create, checked_region, tt_descriptor, sub32}
use ff_a_acs.Paging.Fill.{fill_translation_table}
use ff_a_acs.Paging.Granules.{Geometry, tt_descriptor-Geometry}
use ff_a_acs.Paging.Walk.{fill_translation_table_returns}

checked_region-none :
    (page_bytes : ℕ) (pgt : PgtDescriptor) (r : Region)
    → (r.virtual_address % page_bytes ≢ 0)
      ⊎ ((r.physical_address % page_bytes ≢ 0)
          ⊎ ((2 ^ pgt.oas ≤ r.physical_address) ⊎ ((pgt.stage ≢ 1) × (pgt.stage ≢ 2))))
    → checked_region page_bytes pgt r ≡ none
unfolding checked_region
checked_region-none page_bytes pgt r (inl h) = ground arith
checked_region-none page_bytes pgt r (inr (inl h)) = ground arith
checked_region-none page_bytes pgt r (inr (inr (inl h))) = ground arith
checked_region-none page_bytes pgt r (inr (inr (inr h))) = ground arith

checked_region_length :
    (page_bytes : ℕ) (pgt : PgtDescriptor) (r r1 : Region)
    → checked_region page_bytes pgt r ≡ some r1
    → r1.length ≡ r.length
unfolding checked_region
checked_region_length page_bytes pgt r r1 h = ground arith

-- Addresses of 40 bits: the range ends before it wraps.
tt_range :
    (page_log2 : ℕ) (pgt : PgtDescriptor) (r : Region)
    → pgt.ias ≡ 40
    → 1 ≤ r.length
    → r.length < 2 ^ 63
    → ((tt_descriptor page_log2 pgt r).input_top + 1
        ≡ (tt_descriptor page_log2 pgt r).input_base + r.length)
      × ((tt_descriptor page_log2 pgt r).input_base < 2 ^ 40)
unfolding tt_descriptor
tt_range page_log2 pgt r e l u = rw e (omega arith, omega arith)

level_le : (page_log2 : ℕ) (d : TtDescriptor) → Geometry page_log2 d → d.level ≤ 3
unfolding Geometry
level_le page_log2 d g = g.1

-- A region that is not on page boundaries, or that starts beyond the output address size, or a stage
-- other than 1 and 2, is refused, and no table is touched.
pgt_create_refuses :
    (l1_base fuel tg0 : ℕ) (pgt : PgtDescriptor) (r : Region) (s : Tables)
    → (r.virtual_address % page_size tg0 ≢ 0)
      ⊎ ((r.physical_address % page_size tg0 ≢ 0)
          ⊎ ((2 ^ pgt.oas ≤ r.physical_address) ⊎ ((pgt.stage ≢ 1) × (pgt.stage ≢ 2))))
    → pgt_create l1_base fuel tg0 pgt r s ≡ some (1, s)
unfolding pgt_create
pgt_create_refuses l1_base fuel tg0 pgt r s h =
    rw (pgt_create, checked_region-none (page_size tg0) pgt r h) refl

-- With 40-bit input addresses, a table that is not NULL, a region of at least one byte and less than
-- 2^63, and fuel for each address below its end, the call returns.
pub pgt_create_returns :
    (l1_base fuel tg0 : ℕ) (pgt : PgtDescriptor) (r : Region) (s : Tables)
    → pgt.ias ≡ 40
    → pgt.ttbr ≢ 0
    → 1 ≤ r.length
    → r.length < 2 ^ 63
    → 2 ^ 40 + r.length + 4 ≤ fuel
    → (out : ℕ × Tables) × (pgt_create l1_base fuel tg0 pgt r s ≡ some out)
unfolding pgt_create
pgt_create_returns l1_base fuel tg0 pgt r s e nz l u f =
    checked (checked_region (page_size tg0) pgt r) refl
  where
    log2 : ℕ
    log2 = ilog2 (page_size tg0)

    len : (r1 : Region) → checked_region (page_size tg0) pgt r ≡ some r1 → r1.length ≡ r.length
    len r1 h = checked_region_length (page_size tg0) pgt r r1 h

    filled :
        (r1 : Region) (out : ℕ × Tables)
        → checked_region (page_size tg0) pgt r ≡ some r1
        → fill_translation_table
            (sub32 log2 3)
            (page_size tg0)
            l1_base
            r1.attributes
            fuel
            (tt_descriptor log2 pgt r1)
            s
          ≡ some out
        → (out : ℕ × Tables) × (pgt_create l1_base fuel tg0 pgt r s ≡ some out)
    filled r1 (zero, s1) h q = ((0, s1), rw (pgt_create, h, q) refl)
    filled r1 (suc n, s1) h q = ((1, s1), rw (pgt_create, h, q) refl)

    checked :
        (o : Option Region)
        → checked_region (page_size tg0) pgt r ≡ o
        → (out : ℕ × Tables) × (pgt_create l1_base fuel tg0 pgt r s ≡ some out)
    checked none h = ((1, s), rw (pgt_create, h) refl)
    checked (some r1) h =
        let d = tt_descriptor log2 pgt r1 in
        let (range, low) =
          tt_range log2 pgt r1 e (omega (arith, len r1 h)) (omega (arith, len r1 h)) in
        let g = level_le log2 d (tt_descriptor-Geometry tg0 pgt r1 e nz) in
        let (out, q) =
          fill_translation_table_returns (sub32 log2 3) (page_size tg0) l1_base r1.attributes fuel d
            s (omega (arith, len r1 h)) g (omega arith) (omega (arith, len r1 h)) in
        filled r1 out h q
