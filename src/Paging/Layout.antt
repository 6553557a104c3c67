-- ===== src/Paging/Layout.antt =====
-- Which memory is a translation table of which level: the invariant that the walk of
-- val/src/val_memory.c needs so as to write to tables only. `Table` says which addresses are tables.
use ff_a_acs.Base.{
  ℕ, zero, suc, ◌+◌, ◌*◌, ◌/◌, ◌%◌, ◌^◌, ◌≡◌, ◌≢◌, ◌<◌, refl, sym, ◌∙◌, subst, arith, true, false,
  Option, none, some, [], ◌∷◌, ◌==◌, ==→eq, All, Bool-cases, inl, inr, if◌then◌else◌,
}
use ff_a_acs.Paging.{
  Pool, Tables, take_table, take_l2_table, take_l3_table, set_entry, TtDescriptor,
}
use ff_a_acs.Paging.Fill.{needs_table, table_of, table_entry, next_table, entry_addr}

-- Each table of a pool, used or not, is one that `T` holds of.
abbrev pub Holds : (ℕ → Type 0) → Pool → Type 0
Holds T ps = All (λ p. T p.0) ps

-- A table that was found, with the pool behind it.
abbrev Gives : (ℕ → Type 0) → Option (ℕ × Pool) → Type 0
Gives T none = zero ≡ zero
Gives T (some (t, qs)) = T t × Holds T qs

still :
    (T : ℕ → Type 0) (u : ℕ) (r : Option (ℕ × Pool))
    → T u
    → Gives T r
    → Gives T (elim r [ none ↦ none | some (x, qs) ↦ some (x, (u, true) ∷ qs) ])
still T u none hu g = refl
still T u (some (x, qs)) hu g = (g.0, (hu, g.1))

take_table-Gives : (T : ℕ → Type 0) (ps : Pool) → Holds T ps → Gives T (take_table ps)
unfolding take_table
take_table-Gives T [] h = refl
take_table-Gives T ((u, true) ∷ ps) h = still T u (take_table ps) h.0 (take_table-Gives T ps h.1)
take_table-Gives T ((u, false) ∷ ps) h = (h.0, h)

pub take_table-Holds :
    (T : ℕ → Type 0) (ps : Pool) (t : ℕ) (qs : Pool)
    → Holds T ps
    → take_table ps ≡ some (t, qs)
    → T t × Holds T qs
take_table-Holds T ps t qs h e = subst (Gives T) e (take_table-Gives T ps h)

apart_false : {a b : ℕ} → a ≢ b → (a == b) ≡ false
apart_false {a} {b} ne = ground arith

entry_same : (s : Tables) (x y v : ℕ) → (y == x) ≡ true → (set_entry s x v).entry y ≡ v
unfolding set_entry
entry_same s x y v e = rw e

entry_other : (s : Tables) (x y v : ℕ) → (y == x) ≡ false → (set_entry s x v).entry y ≡ s.entry y
unfolding set_entry
entry_other s x y v e = rw e

module _ (bits page_bytes : ℕ) (Table : (level base : ℕ) → Type 0) where
  -- Tables of different levels share no entry, and an entry that names a table names the table.
  pub record IsLayout : Type 0 where
    pub apart :
        (k l a b i j : ℕ)
        → Table k a
        → Table l b
        → i < 2 ^ bits
        → j < 2 ^ bits
        → a + 8 * i ≡ b + 8 * j
        → k ≡ l
    pub named : (l b : ℕ) → Table l b → table_of page_bytes (table_entry page_bytes b) ≡ b

  -- An entry above level 3 that names a table names one of the next level, and so do the pools.
  pub record IsLaid (s : Tables) : Type 0 where
    pub entries :
        (l b i : ℕ)
        → Table l b
        → l < 3
        → i < 2 ^ bits
        → needs_table (s.entry (b + 8 * i)) ≡ false
        → Table (suc l) (table_of page_bytes (s.entry (b + 8 * i)))
    pub second : Holds (Table 2) s.l2
    pub third : Holds (Table 3) s.l3

  abbrev pub Outside : ℕ → Type 0
  Outside a = (l b i : ℕ) → Table l b → i < 2 ^ bits → a ≢ b + 8 * i

  -- What a call does: the invariant holds again, and nothing outside the tables has changed.
  abbrev pub Keeps : (s s' : Tables) → Type 0
  Keeps s s' = IsLaid s' × ((a : ℕ) → Outside a → s'.entry a ≡ s.entry a)

  pub Keeps-trans : (s s1 s2 : Tables) → Keeps s s1 → Keeps s1 s2 → Keeps s s2
  Keeps-trans s s1 s2 (_, f) (laid, g) = (laid, λ a o. g a o ∙ f a o)

  -- The same of a result, whatever its status is.
  abbrev pub KeepsOut : Tables → Option (ℕ × Tables) → Type 0
  KeepsOut s none = zero ≡ zero
  KeepsOut s (some out) = Keeps s out.1

  -- A word that names a table names one of the next level.
  abbrev pub Names : ℕ → ℕ → Type 0
  Names l word = needs_table word ≡ false → Table (suc l) (table_of page_bytes word)

  module _ (layout : IsLayout) where
    pub set_entry-Keeps :
        (s : Tables) (l b i v : ℕ)
        → IsLaid s
        → Table l b
        → i < 2 ^ bits
        → (l < 3 → Names l v)
        → Keeps s (set_entry s (b + 8 * i) v)
    unfolding set_entry
    set_entry-Keeps s l b i v laid t lt named = (
      record {
        entries = λ k a j ta kl jl. elim (Bool-cases ((a + 8 * j) == (b + 8 * i))) [
          | inl same ↦ own k a j ta kl jl same
          | inr other ↦
              subst (Names k) (sym (entry_other s (b + 8 * i) (a + 8 * j) v other))
                (laid.entries k a j ta kl jl)
        ];
        second = laid.second;
        third = laid.third;
      },
      λ a o. entry_other s (b + 8 * i) a v (apart_false (o l b i t lt)),
    )
      where
        own :
            (k a j : ℕ)
            → Table k a
            → k < 3
            → j < 2 ^ bits
            → ((a + 8 * j) == (b + 8 * i)) ≡ true
            → Names k ((set_entry s (b + 8 * i) v).entry (a + 8 * j))
        own k a j ta kl jl same =
            let e = layout.apart k l a b j i ta t jl lt (==→eq _ _ same) in
            subst (Names k) (sym (entry_same s (b + 8 * i) (a + 8 * j) v same))
              (subst (λ m. Names m v) (sym e) (named (omega (arith, e, kl))))

    -- A table behind an entry, with the pools behind it.
    abbrev pub Found : ℕ → Tables → Option (ℕ × Tables) → Type 0
    Found l s none = zero ≡ zero
    Found l s (some (base, s1)) = Table (suc l) base × Keeps s s1

    take_l2_table-Found : (s : Tables) → IsLaid s → Found 1 s (take_l2_table s)
    unfolding take_l2_table
    take_l2_table-Found s laid =
        pooled (take_table s.l2) (take_table-Gives (Table 2) s.l2 laid.second)
      where
        pooled :
            (r : Option (ℕ × Pool))
            → Gives (Table 2) r
            → Found 1 s (elim r [ none ↦ none | some (t, p) ↦ some (t, record s { l2 = p }) ])
        pooled none g = refl
        pooled (some (t, p)) g = (
          g.0,
          (record { entries = laid.entries; second = g.1; third = laid.third }, λ a o. refl),
        )

    take_l3_table-Found : (s : Tables) → IsLaid s → Found 2 s (take_l3_table s)
    unfolding take_l3_table
    take_l3_table-Found s laid =
        pooled (take_table s.l3) (take_table-Gives (Table 3) s.l3 laid.third)
      where
        pooled :
            (r : Option (ℕ × Pool))
            → Gives (Table 3) r
            → Found 2 s (elim r [ none ↦ none | some (t, p) ↦ some (t, record s { l3 = p }) ])
        pooled none g = refl
        pooled (some (t, p)) g = (
          g.0,
          (record { entries = laid.entries; second = laid.second; third = g.1 }, λ a o. refl),
        )

    new_table-Found :
        (l1_base l : ℕ) (s : Tables)
        → Table 1 l1_base
        → l < 3
        → IsLaid s
        → Found l s (
            if l == 1
            then take_l2_table s
            else if l == 2
            then take_l3_table s
            else some (l1_base, s))
    new_table-Found l1_base zero s first lt laid = (first, (laid, λ a o. refl))
    new_table-Found l1_base (suc zero) s first lt laid = take_l2_table-Found s laid
    new_table-Found l1_base (suc (suc zero)) s first lt laid = take_l3_table-Found s laid
    new_table-Found l1_base (suc (suc (suc l))) s first lt laid = absurd (omega (arith, lt))

    pub next_table-Found :
        (l1_base attributes : ℕ) (d : TtDescriptor) (ia : ℕ) (s : Tables)
        → Table 1 l1_base
        → Table d.level d.tt_base
        → d.level < 3
        → (ia / 2 ^ d.size_log2) % 2 ^ d.nbits < 2 ^ bits
        → IsLaid s
        → Found d.level s (next_table bits page_bytes l1_base attributes d ia s)
    unfolding next_table entry_addr
    next_table-Found l1_base attributes d ia s first t lv lt laid =
        elim (Bool-cases (needs_table (s.entry (entry_addr d ia)))) [
          | inl new ↦ rw (next_table, new) (new_table-Found l1_base d.level s first lv laid)
          | inr old ↦
              rw (next_table, old)
                (laid.entries d.level d.tt_base _ t lv lt old, (laid, λ a o. refl))
        ]
