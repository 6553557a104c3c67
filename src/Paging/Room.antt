-- ===== src/Paging/Room.antt =====
-- The tables that the walk of val/src/val_memory.c takes from its pools, where one is left.
use ff_a_acs.Base.{
  ℕ, zero, suc, ◌≡◌, ◌<◌, ◌≤◌, refl, arith, Option, some, ◌==◌, if◌then◌else◌, Bool-cases, inl, inr,
}
use ff_a_acs.Paging.{Pool, Tables, TtDescriptor, take_table, take_l2_table, take_l3_table}
use ff_a_acs.Paging.Fill.{next_table, entry_addr, table_of, needs_table}

-- A pool with a table that is left.
abbrev pub Free : Pool → Type 0
Free ps = (r : ℕ × Pool) × (take_table ps ≡ some r)

-- The pools that the levels below `l` take from have a table left.
abbrev pub Room : (l : ℕ) → Tables → Type 0
Room l s = (l ≤ 1 → Free s.l2) × (l ≤ 2 → Free s.l3)

module _ (bits page_bytes l1_base attributes : ℕ) (d : TtDescriptor) (ia : ℕ) (s : Tables) where
  -- A table was found, and only the pools are touched.
  abbrev pub Taken : ℕ → Option (ℕ × Tables) → Type 0
  Taken l r = (t : ℕ × Tables) × (r ≡ some t) × Room (suc l) t.1 × (t.1.entry ≡ s.entry)

  new_table :
      (l : ℕ)
      → l < 3
      → Room l s
      → Taken l (
          if l == 1 then take_l2_table s else if l == 2 then take_l3_table s else some (l1_base, s))
  unfolding take_l2_table take_l3_table
  new_table zero lt room =
      ((l1_base, s), refl, (λ h. room.0 (omega arith), λ h. room.1 (omega arith)), refl)
  new_table (suc zero) lt room =
      let ((t, p), e) = room.0 (omega arith) in
      (
        (t, record s { l2 = p }),
        rw (take_l2_table, e) refl,
        (λ h. absurd (omega (arith, h)), λ h. room.1 (omega arith)),
        refl,
      )
  new_table (suc (suc zero)) lt room =
      let ((t, p), e) = room.1 (omega arith) in
      (
        (t, record s { l3 = p }),
        rw (take_l3_table, e) refl,
        (λ h. absurd (omega (arith, h)), λ h. absurd (omega (arith, h))),
        refl,
      )
  new_table (suc (suc (suc l))) lt room = absurd (omega (arith, lt))

  pub next_table-Taken :
      d.level < 3
      → Room d.level s
      → Taken d.level (next_table bits page_bytes l1_base attributes d ia s)
  unfolding next_table
  next_table-Taken lt room = elim (Bool-cases (needs_table (s.entry (entry_addr d ia)))) [
    | inl new ↦ rw (next_table, new) (new_table d.level lt room)
    | inr old ↦
        rw (next_table, old)
          (
            (table_of page_bytes (s.entry (entry_addr d ia)), s),
            refl,
            (λ h. room.0 (omega (arith, h)), λ h. room.1 (omega (arith, h))),
            refl,
          )
  ]
