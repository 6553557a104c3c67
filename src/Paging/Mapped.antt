-- ===== src/Paging/Mapped.antt =====
-- Mapping the regions of an endpoint's image, `val_pgt_create` and the loops of
-- `val_map_endpoint_region` in val/src/val_memory.c, keeps to the translation tables.
use ff_a_acs.Base.{
  ℕ, zero, suc, ◌+◌, ◌-◌, ◌*◌, ◌/◌, ◌%◌, ◌^◌, ◌≡◌, ◌≢◌, ◌<◌, ◌≤◌, refl, sym, ap, ◌∙◌, subst, arith,
  Option, none, some, List, [], ◌∷◌, All, Bool-cases, ◌==◌, inl, inr,
}
use ff_a_acs.Paging.{Region, PgtDescriptor, Tables, page_size, ilog2}
use ff_a_acs.Paging.Create.{pgt_create, map_regions, checked_region, tt_descriptor, sub32}
use ff_a_acs.Paging.Fill.{fill_translation_table}
use ff_a_acs.Paging.Granules.{Geometry, tt_descriptor-Geometry, ilog2-pow}
use ff_a_acs.Paging.Pages.{pgt_create_returns}
use ff_a_acs.Paging.Entries.{or64_second}
use ff_a_acs.Paging.Layout.{IsLayout, IsLaid, Keeps, Keeps-trans, KeepsOut}
use ff_a_acs.Paging.Writes.{Sits, fill_translation_table-Kept}

checked_region_attributes :
    (page_bytes : ℕ) (pgt : PgtDescriptor) (r r1 : Region)
    → checked_region page_bytes pgt r ≡ some r1
    → (r.attributes / 2) % 2 ≡ 0
    → (r1.attributes / 2) % 2 ≡ 0
unfolding checked_region
checked_region_attributes page_bytes pgt r r1 h e =
    let one = or64_second r.attributes (2 ^ 6) e refl in
    let two = or64_second r.attributes (3 * 2 ^ 6) e refl in ground (arith, one, two)

abbrev pub log2 : ℕ → ℕ
log2 tg0 = ilog2 (page_size tg0)

abbrev pub bits : ℕ → ℕ
bits tg0 = sub32 (log2 tg0) 3

granule : (tg0 : ℕ) → (k : ℕ) × (page_size tg0 ≡ 2 ^ k) × (12 ≤ k) × (k ≤ 16)
unfolding page_size
granule tg0 = elim (Bool-cases (tg0 == 0)) [
  | inl z ↦ (12, rw z refl, omega arith, omega arith)
  | inr z ↦ elim (Bool-cases (tg0 == 1)) [
    | inl o ↦ (16, rw (z, o) refl, omega arith, omega arith)
    | inr o ↦ (14, rw (z, o) refl, omega arith, omega arith)
  ]
]

page_size-log2 : (tg0 : ℕ) → (page_size tg0 ≡ 2 ^ log2 tg0) × (12 ≤ log2 tg0) × (log2 tg0 ≤ 16)
page_size-log2 tg0 =
    let (k, e, low, high) = granule tg0 in
    let same : log2 tg0 ≡ k = ap ilog2 e ∙ ilog2-pow k (omega (arith, high)) in
    (e ∙ ap (λ n. 2 ^ n) (sym same), omega (arith, same, low), omega (arith, same, high))

module _ (tg0 l1_base : ℕ) (pgt : PgtDescriptor) (Table : (level base : ℕ) → Type 0)
    (layout : IsLayout (bits tg0) (2 ^ log2 tg0) Table) (first : Table 1 l1_base)
    (root : (r : Region) → Table (tt_descriptor (log2 tg0) pgt r).level pgt.ttbr)
    (ias : pgt.ias ≡ 40) (ttbr : pgt.ttbr ≢ 0) where
  abbrev Laid : Tables → Type 0
  Laid s = IsLaid (bits tg0) (2 ^ log2 tg0) Table s

  abbrev After : Tables → Option (ℕ × Tables) → Type 0
  After s r = KeepsOut (bits tg0) (2 ^ log2 tg0) Table s r

  wide : 2 ≤ log2 tg0
  wide = omega (arith, (page_size-log2 tg0).1)

  level_bits : bits tg0 ≡ log2 tg0 - 3
  level_bits = let (e, low, high) = page_size-log2 tg0 in omega (arith, low, high)

  root-Sits :
      (r : Region) (attributes : ℕ) (n : (attributes / 2) % 2 ≡ 0)
      → Sits
          (bits tg0)
          (log2 tg0)
          l1_base
          attributes
          Table
          layout
          first
          wide
          n
          (tt_descriptor (log2 tg0) pgt r)
  unfolding Geometry tt_descriptor
  root-Sits r attributes n =
      let (v, level, sum, size) = tt_descriptor-Geometry tg0 pgt r ias ttbr in
      (
        root r,
        level,
        size
            ∙ ap (λ b. (3 - (tt_descriptor (log2 tg0) pgt r).level) * b + log2 tg0)
                (sym level_bits),
        omega (arith, sum),
      )

  filled :
      (fuel : ℕ) (r : Region) (s : Tables)
      → (r.attributes / 2) % 2 ≡ 0
      → Laid s
      → After s (
          fill_translation_table
            (bits tg0)
            (page_size tg0)
            l1_base
            r.attributes
            fuel
            (tt_descriptor (log2 tg0) pgt r)
            s)
  filled fuel r s n laid =
      subst
        (λ p. After s (
          fill_translation_table (bits tg0) p l1_base r.attributes fuel
            (tt_descriptor (log2 tg0) pgt r) s))
        (sym (page_size-log2 tg0).0)
        (fill_translation_table-Kept (bits tg0) (log2 tg0) l1_base r.attributes Table layout first
          wide n fuel (tt_descriptor (log2 tg0) pgt r) s (root-Sits r r.attributes n) laid)

  -- The status of the walk, as the call passes it on.
  passed :
      (s : Tables) (r : Option (ℕ × Tables))
      → After s r
      → After s (elim r [
        | none ↦ none
        | some (zero, s1) ↦ some (0, s1)
        | some (suc e, s1) ↦ some (1, s1)
      ])
  passed s none k = k
  passed s (some (zero, s1)) k = k
  passed s (some (suc e, s1)) k = k

  pgt_create-After :
      (fuel : ℕ) (r : Region) (s : Tables)
      → (r.attributes / 2) % 2 ≡ 0
      → Laid s
      → After s (pgt_create l1_base fuel tg0 pgt r s)
  unfolding pgt_create
  pgt_create-After fuel r s n laid = checked (checked_region (page_size tg0) pgt r) refl
    where
      checked :
          (o : Option Region)
          → checked_region (page_size tg0) pgt r ≡ o
          → After s (pgt_create l1_base fuel tg0 pgt r s)
      checked none h = rw (pgt_create, h) (laid, λ a o. refl)
      checked (some r1) h =
          rw (pgt_create, h)
            (passed s _
              (filled fuel r1 s (checked_region_attributes (page_size tg0) pgt r r1 h n) laid))

  -- A region that can be mapped.
  abbrev pub Fits : ℕ → Region → Type 0
  Fits fuel r =
      ((r.attributes / 2) % 2 ≡ 0)
      × (1 ≤ r.length)
      × (r.length < 2 ^ 63)
      × (2 ^ 40 + r.length + 4 ≤ fuel)

  -- A call that returns and keeps to the tables.
  abbrev pub Maps : Tables → Option (ℕ × Tables) → Type 0
  Maps s r = (out : ℕ × Tables) × (r ≡ some out) × Keeps (bits tg0) (2 ^ log2 tg0) Table s out.1

  pgt_create-Maps :
      (fuel : ℕ) (r : Region) (s : Tables)
      → Fits fuel r
      → Laid s
      → Maps s (pgt_create l1_base fuel tg0 pgt r s)
  pgt_create-Maps fuel r s (n, one, long, enough) laid =
      let (out, e) = pgt_create_returns l1_base fuel tg0 pgt r s ias ttbr one long enough in
      (out, e, subst (After s) e (pgt_create-After fuel r s n laid))

  -- With 40-bit input addresses, tables that are laid out as `Table` says, and regions that can be mapped:
  -- the loop over the regions returns, whatever its status, no memory outside the tables has changed,
  -- and every entry above level 3 that names a table names one of the next level again.
  pub map_regions-Maps :
      (fuel : ℕ) (rs : List Region) (s : Tables)
      → All (Fits fuel) rs
      → Laid s
      → Maps s (map_regions l1_base fuel tg0 pgt rs s)
  unfolding map_regions
  map_regions-Maps fuel [] s fits laid = ((0, s), refl, (laid, λ a o. refl))
  map_regions-Maps fuel (r ∷ rs) s fits laid =
      let (out, e, k) = pgt_create-Maps fuel r s fits.0 laid in
      next (λ s1 l. map_regions-Maps fuel rs s1 fits.1 l) out e k
    where
      next :
          ((s1 : Tables) → Laid s1 → Maps s1 (map_regions l1_base fuel tg0 pgt rs s1))
          → (out : ℕ × Tables) → pgt_create l1_base fuel tg0 pgt r s ≡ some out
          → Keeps (bits tg0) (2 ^ log2 tg0) Table s out.1
          → Maps s (map_regions l1_base fuel tg0 pgt (r ∷ rs) s)
      next ih (zero, s1) e k =
          let (out, q, k1) = ih s1 k.0 in
          (out, rw (map_regions, e) q, Keeps-trans (bits tg0) (2 ^ log2 tg0) Table s s1 out.1 k k1)
      next ih (suc n, s1) e k = ((1, s1), rw (map_regions, e) refl, k)
