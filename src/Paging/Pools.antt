-- ===== src/Paging/Pools.antt =====
-- The statically allocated tables (val/src/val_memory.c) are handed out in order and once each.
use ff_a_acs.Base.{
  ℕ, zero, suc, ◌≡◌, refl, ap, arith, true, Option, none, some, List, [], ◌∷◌, ◌++◌, map, length,
  take, leb, if◌then◌else◌,
}
use ff_a_acs.Paging.{Pool, fresh, take_table}

-- `n` calls in a row, and the tables that they give; `none` where one of them has none left.
unfoldable pub take_tables : ℕ → Pool → Option (List ℕ × Pool)
unfolding take_table
take_tables zero ps = some ([], ps)
take_tables (suc n) ps = elim (take_table ps) [
  | none ↦ none
  | some (t, qs) ↦ elim (take_tables n qs) [ none ↦ none | some (ts, rs) ↦ some (t ∷ ts, rs) ]
]

abbrev pub used : List ℕ → Pool
used ts = map (λ t. (t, true)) ts

take_table-used_fresh :
    (us : List ℕ) (t : ℕ) (ts : List ℕ)
    → take_table (used us ++ fresh (t ∷ ts)) ≡ some (t, used us ++ ((t, true) ∷ fresh ts))
unfolding take_table
take_table-used_fresh [] t ts = refl
take_table-used_fresh (u ∷ us) t ts = rw (take_table-used_fresh us t ts) refl

take_table-used : (us : List ℕ) → take_table (used us ++ []) ≡ none
unfolding take_table
take_table-used [] = refl
take_table-used (u ∷ us) = rw (take_table-used us) refl

used_next :
    (us : List ℕ) (t : ℕ) (ts : List ℕ)
    → used us ++ ((t, true) ∷ fresh ts) ≡ used (us ++ (t ∷ [])) ++ fresh ts
used_next [] t ts = refl
used_next (u ∷ us) t ts = ap (λ ps. (u, true) ∷ ps) (used_next us t ts)

abbrev pub tables_of : Option (List ℕ × Pool) → Option (List ℕ)
tables_of none = none
tables_of (some r) = some r.0

-- Where `us` are in use, `n` calls give the first `n` of the others, or fail if there are fewer.
pub take_tables-after :
    (n : ℕ) (us ts : List ℕ)
    → tables_of (take_tables n (used us ++ fresh ts))
      ≡ (if leb n (length ts) then some (take n ts) else none)
unfolding take_tables
take_tables-after zero us [] = refl
take_tables-after zero us (t ∷ ts) = ground arith
take_tables-after (suc n) us [] = rw (tables_of, take_table-used us) (ground arith)
take_tables-after (suc n) us (t ∷ ts) =
    let h = take_tables-after n (us ++ (t ∷ [])) ts in
    rw (tables_of, take_table-used_fresh us t ts, used_next us t ts) (ground (arith, h))
