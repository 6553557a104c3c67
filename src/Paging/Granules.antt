-- ===== src/Paging/Granules.antt =====
-- The table geometry that `val_pgt_create` (val/src/val_memory.c) derives from the granule.
use ff_a_acs.Base.{
  ℕ, zero, suc, ◌+◌, ◌-◌, ◌*◌, ◌^◌, ◌≡◌, ◌<◌, ◌≤◌, ◌≢◌, Bool-cases, ◌⊎◌, refl, ◌∙◌, arith, inl, inr,
  true, ◌==◌,
}
use native.Mathlib.Omega.{pow_step}
use native.Mathlib.Nat.{one-le-pow}
use ff_a_acs.Paging.{Region, PgtDescriptor, TtDescriptor, page_size, ilog2, ilog2_from}
use ff_a_acs.Paging.Create.{tt_descriptor, sub32}
use ff_a_acs.Paging.Fill.{valid_descriptor}

ilog2_from-pow : (k fuel bit : ℕ) → k < fuel → ilog2_from fuel (2 ^ k) bit ≡ k + bit
unfolding ilog2_from
ilog2_from-pow k zero bit lt = absurd (omega arith)
ilog2_from-pow zero (suc fuel) bit lt = omega arith
ilog2_from-pow (suc k) (suc fuel) bit lt =
    let h = ilog2_from-pow k fuel (suc bit) (omega arith) in
    ground (arith, h, pow_step 2 k, one-le-pow k 2 (omega arith))

pub ilog2-pow : (k : ℕ) → k < 64 → ilog2 (2 ^ k) ≡ k
unfolding ilog2
ilog2-pow k lt = ilog2_from-pow k 64 0 lt ∙ omega arith

unfoldable pub Geometry : (page_log2 : ℕ) → TtDescriptor → Type 0
Geometry page_log2 d =
    (valid_descriptor (sub32 page_log2 3) d ≡ true)
    × (d.level ≤ 3)
    × (d.nbits + d.size_log2 ≡ 40)
    × (d.size_log2 ≡ (3 - d.level) * (page_log2 - 3) + page_log2)

tt_descriptor-Geometry_4k :
    (pgt : PgtDescriptor) (r : Region)
    → pgt.ias ≡ 40
    → pgt.ttbr ≢ 0
    → Geometry 12 (tt_descriptor 12 pgt r)
unfolding Geometry tt_descriptor valid_descriptor
tt_descriptor-Geometry_4k pgt r e nz = rw e (ground (arith, nz), omega arith, refl, refl)

tt_descriptor-Geometry_16k :
    (pgt : PgtDescriptor) (r : Region)
    → pgt.ias ≡ 40
    → pgt.ttbr ≢ 0
    → Geometry 14 (tt_descriptor 14 pgt r)
unfolding Geometry tt_descriptor valid_descriptor
tt_descriptor-Geometry_16k pgt r e nz = rw e (ground (arith, nz), omega arith, refl, refl)

tt_descriptor-Geometry_64k :
    (pgt : PgtDescriptor) (r : Region)
    → pgt.ias ≡ 40
    → pgt.ttbr ≢ 0
    → Geometry 16 (tt_descriptor 16 pgt r)
unfolding Geometry tt_descriptor valid_descriptor
tt_descriptor-Geometry_64k pgt r e nz = rw e (ground (arith, nz), omega arith, refl, refl)

page_log2_cases :
    (tg0 : ℕ)
    → (ilog2 (page_size tg0) ≡ 12) ⊎ ((ilog2 (page_size tg0) ≡ 14) ⊎ (ilog2 (page_size tg0) ≡ 16))
unfolding page_size
page_log2_cases tg0 = elim (Bool-cases (tg0 == 0)) [
  | inl z ↦ inl (rw z (ilog2-pow 12 (omega arith)))
  | inr z ↦ elim (Bool-cases (tg0 == 1)) [
    | inl o ↦ inr (inr (rw (z, o) (ilog2-pow 16 (omega arith))))
    | inr o ↦ inr (inl (rw (z, o) (ilog2-pow 14 (omega arith))))
  ]
]

-- For 40-bit input addresses and a table at an address that is not NULL, every granule gives a valid
-- descriptor of level 3 or less: its entries cover the 40 bits, and each level below it takes up a
-- level's worth of bits down to the page.
pub tt_descriptor-Geometry :
    (tg0 : ℕ) (pgt : PgtDescriptor) (r : Region)
    → pgt.ias ≡ 40
    → pgt.ttbr ≢ 0
    → Geometry (ilog2 (page_size tg0)) (tt_descriptor (ilog2 (page_size tg0)) pgt r)
tt_descriptor-Geometry tg0 pgt r e nz = elim (page_log2_cases tg0) [
  | inl h ↦ rw h (tt_descriptor-Geometry_4k pgt r e nz)
  | inr (inl h) ↦ rw h (tt_descriptor-Geometry_16k pgt r e nz)
  | inr (inr h) ↦ rw h (tt_descriptor-Geometry_64k pgt r e nz)
]
