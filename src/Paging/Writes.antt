-- ===== src/Paging/Writes.antt =====
-- The table walk of val/src/val_memory.c writes to translation tables only.
use ff_a_acs.Base.{
  ℕ, zero, suc, ◌+◌, ◌-◌, ◌*◌, ◌/◌, ◌%◌, ◌^◌, ◌≡◌, ◌≢◌, ◌<◌, ◌≤◌, refl, sym, ap, ◌∙◌, subst, arith,
  Bool, true, false, Option, none, some, Bool-cases, inl, inr,
}
use ff_a_acs.Paging.{Tables, TtDescriptor, set_entry}
use ff_a_acs.Paging.Fill.{
  Action, finish, refuse, put_page, put_block, descend, action, fill_loop, fill_translation_table,
  next_table, next_level, valid_descriptor, entry_addr, page_entry, block_entry, table_entry,
  chunk_top,
}
use ff_a_acs.Paging.Entries.{needs_table-block_entry}
use ff_a_acs.Paging.Layout.{
  IsLayout, IsLaid, Keeps, KeepsOut, Keeps-trans, Names, Found, set_entry-Keeps, next_table-Found,
}

abbrev index : TtDescriptor → ℕ → ℕ
index d ia = (ia / 2 ^ d.size_log2) % 2 ^ d.nbits

-- An entry is written at an index of the table.
write_index :
    (bits : ℕ) (d : TtDescriptor) (ia oa : ℕ)
    → (action bits d ia oa ≡ put_page → index d ia < 2 ^ bits)
      × (action bits d ia oa ≡ put_block → index d ia < 2 ^ bits)
      × (action bits d ia oa ≡ descend → index d ia < 2 ^ bits)
unfolding action
write_index bits d ia oa = (λ e. ground arith, λ e. ground arith, λ e. ground arith)

page_level :
    (bits : ℕ) (d : TtDescriptor) (ia oa : ℕ) → action bits d ia oa ≡ put_page → d.level ≡ 3
unfolding action
page_level bits d ia oa e = ground arith

descend_level :
    (bits : ℕ) (d : TtDescriptor) (ia oa : ℕ) → action bits d ia oa ≡ descend → d.level ≢ 3
unfolding action
descend_level bits d ia oa e = ground arith

apart_true : {A : Type 0} {b : Bool} → b ≡ true → b ≡ false → A
apart_true t f = cc

-- The size of an entry's range one level down.
next_size :
    (l bits page_log2 : ℕ)
    → l < 3
    → (3 - l) * bits + page_log2 < 64
    → ((3 - l) * bits + page_log2 + 2 ^ 32 - bits) % 2 ^ 32 ≡ (3 - suc l) * bits + page_log2
next_size zero bits p l lt = omega (arith, lt)
next_size (suc zero) bits p l lt = omega (arith, lt)
next_size (suc (suc zero)) bits p l lt = omega (arith, lt)
next_size (suc (suc (suc n))) bits p l lt = absurd (omega (arith, l))

module _ (bits page_log2 l1_base attributes : ℕ) (Table : (level base : ℕ) → Type 0)
    (layout : IsLayout bits (2 ^ page_log2) Table) (first : Table 1 l1_base) (big : 2 ≤ page_log2)
    (no_table : (attributes / 2) % 2 ≡ 0) where
  abbrev Laid : Tables → Type 0
  Laid s = IsLaid bits (2 ^ page_log2) Table s

  abbrev Kept : Tables → Option (ℕ × Tables) → Type 0
  Kept s r = KeepsOut bits (2 ^ page_log2) Table s r

  -- The descriptor is one of a table, with the size that goes with its level.
  abbrev pub Sits : TtDescriptor → Type 0
  Sits d =
      Table d.level d.tt_base
      × (d.level ≤ 3)
      × (d.size_log2 ≡ (3 - d.level) * bits + page_log2)
      × (d.size_log2 < 64)

  Kept-trans :
      (s s1 : Tables) (r : Option (ℕ × Tables))
      → Keeps bits (2 ^ page_log2) Table s s1
      → Kept s1 r
      → Kept s r
  Kept-trans s s1 none k g = refl
  Kept-trans s s1 (some out) k g = Keeps-trans bits (2 ^ page_log2) Table s s1 out.1 k g

  module _ (fuel : ℕ)
      (ih : (d : TtDescriptor) (ia oa : ℕ) (s : Tables)
        → Sits d
        → Laid s
        → Kept s (fill_loop bits (2 ^ page_log2) l1_base attributes fuel d ia oa s))
      (d : TtDescriptor) (ia oa : ℕ) (s : Tables) (sits : Sits d) (laid : Laid s) where
    abbrev run : Option (ℕ × Tables)
    run = fill_loop bits (2 ^ page_log2) l1_base attributes (suc fuel) d ia oa s

    abbrev after : ℕ → ℕ
    after x = (x + (chunk_top d ia - ia + 1)) % 2 ^ 64

    put :
        (s1 : Tables) (v : ℕ)
        → Laid s1
        → index d ia < 2 ^ bits
        → (d.level < 3 → Names bits (2 ^ page_log2) Table d.level v)
        → Keeps bits (2 ^ page_log2) Table s1 (set_entry s1 (entry_addr d ia) v)
    unfolding entry_addr
    put s1 v l i n =
        set_entry-Keeps bits (2 ^ page_log2) Table layout s1 d.level d.tt_base (index d ia) v l
          sits.0 i n

    later :
        (s1 : Tables)
        → Keeps bits (2 ^ page_log2) Table s s1
        → Kept s (fill_loop bits (2 ^ page_log2) l1_base attributes fuel d (after ia) (after oa) s1)
    later s1 k = Kept-trans s s1 _ k (ih d (after ia) (after oa) s1 sits k.0)

    abbrev next : ℕ → TtDescriptor
    next base = next_level bits d base ia oa

    Sits-next :
        (base : ℕ)
        → Table (suc d.level) base
        → d.level < 3
        → valid_descriptor bits (next base) ≡ true
        → Sits (next base)
    unfolding next_level valid_descriptor
    Sits-next base t l v = (
      t,
      l,
      ap (λ n. (n + 2 ^ 32 - bits) % 2 ^ 32) sits.2
          ∙ next_size d.level bits page_log2 l (subst (λ n. n < 64) sits.2 sits.3),
      ground (arith, v),
    )

    module _ (e : action bits d ia oa ≡ descend) (base : ℕ) (s1 : Tables)
        (h : next_table bits (2 ^ page_log2) l1_base attributes d ia s ≡ some (base, s1))
        (t : Table (suc d.level) base) (k : Keeps bits (2 ^ page_log2) Table s s1) where
      abbrev s2 : Tables
      s2 = set_entry s1 (entry_addr d ia) (table_entry (2 ^ page_log2) base)

      named : Keeps bits (2 ^ page_log2) Table s s2
      named = Keeps-trans bits (2 ^ page_log2) Table s s1 s2 k (
          put s1 (table_entry (2 ^ page_log2) base) k.0 ((write_index bits d ia oa).2 e)
            (λ l n. subst (Table (suc d.level)) (sym (layout.named (suc d.level) base t)) t))

      deeper :
          valid_descriptor bits (next base) ≡ true
          → (r : Option (ℕ × Tables))
          → fill_loop bits (2 ^ page_log2) l1_base attributes fuel (next base) ia oa s2 ≡ r
          → Kept s r
          → Kept s run
      unfolding fill_loop
      deeper v none r g = rw (fill_loop, e, h, v, r) refl
      deeper v (some (zero, s3)) r g = rw (fill_loop, e, h, v, r) (later s3 g)
      deeper v (some (suc n, s3)) r g = rw (fill_loop, e, h, v, r) g

      entered : (v : Bool) → valid_descriptor bits (next base) ≡ v → d.level < 3 → Kept s run
      unfolding fill_loop
      entered false v l = rw (fill_loop, e, h, v) named
      entered true v l =
          deeper v _ refl
            (Kept-trans s s2 _ named (ih (next base) ia oa s2 (Sits-next base t l v) named.0))

    search_table :
        action bits d ia oa ≡ descend
        → (r : Option (ℕ × Tables)) → next_table bits (2 ^ page_log2) l1_base attributes d ia s ≡ r
        → Found bits (2 ^ page_log2) Table layout d.level s r
        → d.level < 3
        → Kept s run
    unfolding fill_loop
    search_table e none h f l = rw (fill_loop, e, h) (laid, λ a o. refl)
    search_table e (some (base, s1)) h f l =
        entered e base s1 h f.0 f.1 (valid_descriptor bits (next base)) refl l

    step : (a : Action) → action bits d ia oa ≡ a → Kept s run
    unfolding fill_loop
    step finish e = rw (fill_loop, e) (laid, λ a o. refl)
    step refuse e = rw (fill_loop, e) (laid, λ a o. refl)
    step put_page e =
        rw (fill_loop, e)
          (later _ (
            put s (page_entry (2 ^ page_log2) oa attributes) laid ((write_index bits d ia oa).0 e)
              (λ l n. absurd (omega (arith, l, page_level bits d ia oa e)))))
    step put_block e =
        rw (fill_loop, e)
          (later _ (
            put s (block_entry (2 ^ d.size_log2) oa attributes) laid
              ((write_index bits d ia oa).1 e)
              (λ l n.
                apart_true
                  (needs_table-block_entry d.size_log2 oa attributes (omega (arith, big, sits.2))
                    no_table)
                  n)))
    step descend e =
        let l = descend_level bits d ia oa e in
        let below : d.level < 3 = omega (arith, l, sits.1) in
        search_table e _ refl
          (next_table-Found bits (2 ^ page_log2) Table layout l1_base attributes d ia s first sits.0
            below ((write_index bits d ia oa).2 e) laid)
          below

  fill_loop-Kept :
      (fuel : ℕ) (d : TtDescriptor) (ia oa : ℕ) (s : Tables)
      → Sits d
      → Laid s
      → Kept s (fill_loop bits (2 ^ page_log2) l1_base attributes fuel d ia oa s)
  unfolding fill_loop
  fill_loop-Kept zero d ia oa s sits laid = refl
  fill_loop-Kept (suc fuel) d ia oa s sits laid =
      step fuel (fill_loop-Kept fuel) d ia oa s sits laid (action bits d ia oa) refl

  pub fill_translation_table-Kept :
      (fuel : ℕ) (d : TtDescriptor) (s : Tables)
      → Sits d
      → Laid s
      → Kept s (fill_translation_table bits (2 ^ page_log2) l1_base attributes fuel d s)
  unfolding fill_translation_table
  fill_translation_table-Kept fuel d s sits laid = elim (Bool-cases (valid_descriptor bits d)) [
    | inl v ↦
        rw (fill_translation_table, v)
          (fill_loop-Kept fuel d d.input_base d.output_base s sits laid)
    | inr v ↦ rw (fill_translation_table, v) (laid, λ a o. refl)
  ]
