-- ===== src/Misc/Strings.antt =====
-- `val_strcmp` on terminated strings.
use ff_a_acs.Base.{
  ℕ, zero, suc, ◌+◌, ◌-◌, ◌^◌, ◌<◌, ◌≡◌, ◌≢◌, ◌⊎◌, inl, inr, arith, refl, List, [], ◌∷◌, some,
  length, subst, ◌%◌,
}
use ff_a_acs.Misc.{Ram, strcmp_loop, strcmp}

-- The memory from `a` on holds these characters and a terminator behind them.
abbrev pub Reads : Ram → ℕ → List ℕ → Type 0
Reads m a [] = m a ≡ 0
Reads m a (c ∷ cs) = (m a ≡ c) × (c ≢ 0) × Reads m (a + 1) cs

counted : (ctr n : ℕ) → ctr + suc n < 2 ^ 32 → (ctr + 1) % 2 ^ 32 ≡ ctr + 1
counted ctr n h = omega (arith, h)

behind : (a ctr : ℕ) → a + ctr + 1 ≡ a + (ctr + 1)
behind a ctr = omega arith

-- From a value of the counter on, where it does not reach 2^32.
compared :
    (fuel : ℕ) (m : Ram) (a b ctr : ℕ) (xs ys : List ℕ)
    → Reads m (a + ctr) xs
    → Reads m (b + ctr) ys
    → length xs < fuel
    → ctr + length xs < 2 ^ 32
    → ((strcmp_loop fuel m a b ctr ≡ some 0) × (xs ≡ ys))
      ⊎ ((strcmp_loop fuel m a b ctr ≡ some (2 ^ 32 - 1)) × (xs ≢ ys))
unfolding strcmp_loop
compared zero m a b ctr xs ys p q h u = ground arith
compared (suc fuel) m a b ctr [] [] p q h u = inl (ground arith, refl)
compared (suc fuel) m a b ctr [] (y ∷ ys) p q h u = inr (ground arith, ground arith)
compared (suc fuel) m a b ctr (x ∷ xs) [] p q h u = inr (ground arith, ground arith)
compared (suc fuel) m a b ctr (x ∷ xs) (y ∷ ys) p q h u =
    let c = counted ctr (length xs) u in
    let ih =
      compared fuel m a b (ctr + 1) xs ys (subst (λ k. Reads m k xs) (behind a ctr) p.2)
        (subst (λ k. Reads m k ys) (behind b ctr) q.2) (omega (arith, h)) (omega (arith, u)) in
    rw (c) (ground (arith, ih))

-- On two terminated strings, the first of less than 2^32 characters, with fuel for each of these and
-- its terminator, `val_strcmp` returns: 0 exactly if the strings are equal, and -1 otherwise.
pub strcmp_lem :
    (fuel : ℕ) (m : Ram) (a b : ℕ) (xs ys : List ℕ)
    → Reads m a xs
    → Reads m b ys
    → length xs < fuel
    → length xs < 2 ^ 32
    → ((strcmp fuel m a b ≡ some 0) × (xs ≡ ys))
      ⊎ ((strcmp fuel m a b ≡ some (2 ^ 32 - 1)) × (xs ≢ ys))
unfolding strcmp
strcmp_lem fuel m a b xs ys p q h u =
    compared fuel m a b 0 xs ys (subst (λ k. Reads m k xs) (omega arith) p)
      (subst (λ k. Reads m k ys) (omega arith) q) h (omega (arith, u))
