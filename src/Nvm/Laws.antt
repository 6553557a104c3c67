-- ===== src/Nvm/Laws.antt =====
-- What the callers of the non-volatile memory, val/src/val_framework.c, may rely on.
use ff_a_acs.Base.{
  ℕ, ◌+◌, ◌^◌, ◌≡◌, ◌≤◌, ◌<◌, ◌≢◌, ◌⊎◌, refl, ap, arith, Option, none, some, inl, inr, Bool-cases,
  ◌==◌,
}
use ff_a_acs.Nvm.{
  nvm_check_bounds, put_word, get_word, ram_write, ram_read, Driver, Caller, nvmem_write,
  nvmem_read,
}

bounds_kept :
    (nvm_size offset word : ℕ)
    → offset + 4 ≤ nvm_size
    → nvm_size < 2 ^ 32
    → nvm_check_bounds nvm_size offset (some word) 4 ≡ 0
unfolding nvm_check_bounds
bounds_kept nvm_size offset word l u = ground arith

bounds_only :
    (nvm_size offset word size : ℕ)
    → nvm_size < 2 ^ 32
    → nvm_check_bounds nvm_size offset (some word) size ≡ 0
    → (size ≡ 4) × (offset + 4 ≤ nvm_size)
unfolding nvm_check_bounds
bounds_only nvm_size offset word size u h = ground arith

get_word-put_word :
    (m : ℕ → ℕ) (offset word : ℕ) → word < 2 ^ 32 → get_word (put_word m offset word) offset ≡ word
unfolding get_word put_word
get_word-put_word m offset word u = ground arith

put_word_outside :
    (m : ℕ → ℕ) (offset word x : ℕ)
    → (x < offset) ⊎ (offset + 4 ≤ x)
    → put_word m offset word x ≡ m x
unfolding put_word
put_word_outside m offset word x h = ground arith

-- A word written to an offset with room for it is read back.
pub ram_read-ram_write :
    (nvm_size offset word junk : ℕ) (m : ℕ → ℕ)
    → nvm_size < 2 ^ 32
    → offset + 4 ≤ nvm_size
    → word < 2 ^ 32
    → ram_read nvm_size offset (some junk) 4 (ram_write nvm_size offset (some word) 4 m).1
      ≡ (0, some word)
unfolding ram_read ram_write
ram_read-ram_write nvm_size offset word junk m u l w =
    rw (ram_read, ram_write, bounds_kept nvm_size offset word l u)
      (ap (λ w. (0, some w)) (get_word-put_word m offset word w))

-- A write either reports an error and changes nothing, or it succeeds, its size is 4, the word lies
-- within the memory, and no other byte changes.
ram_write_within :
    (nvm_size offset size : ℕ) (buffer : Option ℕ) (m : ℕ → ℕ)
    → nvm_size < 2 ^ 32
    → (ram_write nvm_size offset buffer size m ≡ (1, m))
      ⊎ (((ram_write nvm_size offset buffer size m).0 ≡ 0)
          × (size ≡ 4)
          × (offset + 4 ≤ nvm_size)
          × ((x : ℕ)
              → (x < offset) ⊎ (offset + 4 ≤ x)
              → (ram_write nvm_size offset buffer size m).1 x ≡ m x))
unfolding ram_write
ram_write_within nvm_size offset size none m u = inl refl
ram_write_within nvm_size offset size (some word) m u =
    elim (Bool-cases (nvm_check_bounds nvm_size offset (some word) size == 0)) [
      | inl ok ↦
          let (four, room) = bounds_only nvm_size offset word size u (ground (arith, ok)) in
          inr (
            rw (ram_write, ok) refl,
            four,
            room,
            λ x far. rw (ram_write, ok) (put_word_outside m offset word x far),
          )
      | inr bad ↦ inl (rw (ram_write, bad) refl)
    ]

bounds_refused :
    (nvm_size offset size : ℕ) (buffer : Option ℕ)
    → nvm_size < 2 ^ 32
    → (size ≢ 4) ⊎ (nvm_size < offset + 4)
    → nvm_check_bounds nvm_size offset buffer size ≡ 1
unfolding nvm_check_bounds
bounds_refused nvm_size offset size none u h = refl
bounds_refused nvm_size offset size (some word) u h = ground arith

-- An access of another size than 4, or one that does not fit, is an error that reaches neither the
-- driver nor SP1.
pub nvmem_refused :
    {S : Type 0} (p : Driver S) (c : Caller) (nvm_size offset size : ℕ) (buffer : Option ℕ) (s : S)
    → nvm_size < 2 ^ 32
    → (size ≢ 4) ⊎ (nvm_size < offset + 4)
    → (nvmem_write p c nvm_size offset buffer size s ≡ (1, s))
      × (nvmem_read p c nvm_size offset buffer size s ≡ (1, buffer, s))
unfolding nvmem_write nvmem_read
nvmem_refused p c nvm_size offset size none s u h = (refl, refl)
nvmem_refused p c nvm_size offset size (some word) s u h =
    let e = bounds_refused nvm_size offset size (some word) u h in
    (rw (nvmem_write, e) refl, rw (nvmem_read, e) refl)
