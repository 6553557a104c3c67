-- ===== src/Misc/Concat.antt =====
-- `val_strcat` stays within the buffer that it was given.
use ff_a_acs.Base.{
  ℕ, zero, suc, ◌+◌, ◌-◌, ◌%◌, ◌^◌, ◌<◌, ◌≤◌, ◌≡◌, ◌≢◌, ◌⊎◌, inl, inr, arith, refl, Option, some,
  Bool-cases, true, false, ◌&&◌, ◌!=◌, leb, ltb, ◌∙◌,
}
use ff_a_acs.Misc.{Ram, poke, end_of, append_loop, strcat_up_to, strcat}

abbrev pub Stops : Option ℕ → ℕ → Type 0
Stops r limit = (k : ℕ) × (r ≡ some k) × (k ≤ limit)

end_of-Stops :
    (fuel : ℕ) (m : Ram) (a len limit : ℕ)
    → len ≤ limit
    → limit < len + fuel
    → Stops (end_of fuel m a len limit) limit
unfolding end_of
end_of-Stops zero m a len limit h f = ground arith
end_of-Stops (suc fuel) m a len limit h f =
    elim (Bool-cases ((m (a + len) != 0) && ltb len limit)) [
      | inl e ↦ rw e (end_of-Stops fuel m a (len + 1) limit (ground arith) (omega arith))
      | inr e ↦ rw e (len, refl, h)
    ]

poke-outside : (m : Ram) (a v x : ℕ) → x ≢ a → poke m a v x ≡ m x
unfolding poke
poke-outside m a v x n = ground arith

-- The loop returns memory that differs only between `a` and the limit.
abbrev pub Within : Option (ℕ × Ram) → Ram → ℕ → ℕ → ℕ → Type 0
Within r m a limit x = (k : ℕ) × (t : Ram) × (r ≡ some (k, t)) × (k ≤ limit) × (t x ≡ m x)

append_loop-Within :
    (fuel : ℕ) (m : Ram) (a len b limit x : ℕ)
    → len ≤ limit
    → limit < len + fuel
    → (x < a) ⊎ (a + limit < x)
    → Within (append_loop fuel m a len b limit) m a limit x
unfolding append_loop
append_loop-Within zero m a len b limit x h f out = ground arith
append_loop-Within (suc fuel) m a len b limit x h f out =
    elim (Bool-cases ((m b != 0) && ltb len limit)) [
      | inl e ↦
          let (k, t, r, le, same) =
            append_loop-Within fuel (poke m (a + len) (m b)) a (len + 1) (b + 1) limit x
              (ground arith) (omega arith) out in
          rw e (k, t, r, le, same ∙ poke-outside m (a + len) (m b) x (ground arith))
      | inr e ↦ rw e (len, m, refl, h, refl)
    ]

strcat_up_to-full :
    (fuel : ℕ) (m : Ram) (a b limit len : ℕ)
    → end_of fuel m a 0 limit ≡ some len
    → leb limit len ≡ true
    → strcat_up_to fuel m a b limit ≡ some m
unfolding strcat_up_to
strcat_up_to-full fuel m a b limit len e full = rw (strcat_up_to, e, full) refl

strcat_up_to-room :
    (fuel : ℕ) (m : Ram) (a b limit len : ℕ) (r : ℕ × Ram)
    → end_of fuel m a 0 limit ≡ some len
    → leb limit len ≡ false
    → append_loop fuel m a len b limit ≡ some r
    → strcat_up_to fuel m a b limit ≡ some (poke (r.1) (a + r.0) 0)
unfolding strcat_up_to poke
strcat_up_to-room fuel m a b limit len r e room f = rw (strcat_up_to, e, room, f) refl

strcat_up_to-Within :
    (fuel : ℕ) (m : Ram) (a b limit x : ℕ)
    → limit < fuel
    → (x < a) ⊎ (a + limit < x)
    → (t : Ram) × (strcat_up_to fuel m a b limit ≡ some t) × (t x ≡ m x)
strcat_up_to-Within fuel m a b limit x f out =
    let (len, e, le) = end_of-Stops fuel m a 0 limit (omega arith) (omega arith) in
    elim (Bool-cases (leb limit len)) [
      | inl full ↦ (m, strcat_up_to-full fuel m a b limit len e full, refl)
      | inr room ↦
          let (k, t, r, kle, same) =
            append_loop-Within fuel m a len b limit x le (omega arith) out in
          (
            poke t (a + k) 0,
            strcat_up_to-room fuel m a b limit len (k, t) e room r,
            poke-outside t (a + k) 0 x (ground arith) ∙ same,
          )
    ]

limit_of : (size : ℕ) → 0 < size → size < 2 ^ 64 → (2 ^ 64 + size - 1) % 2 ^ 64 ≡ size - 1
limit_of size pos small = omega arith

-- Within a buffer of at least one byte, with fuel for each of its bytes, appending returns, whatever
-- the strings hold, terminated or not; and no byte outside the buffer changes.
pub strcat-Within :
    (fuel : ℕ) (m : Ram) (a b size x : ℕ)
    → 0 < size
    → size < 2 ^ 64
    → size ≤ fuel
    → (x < a) ⊎ (a + size ≤ x)
    → (t : Ram) × (strcat fuel m a b size ≡ some t) × (t x ≡ m x)
unfolding strcat
strcat-Within fuel m a b size x pos small f out =
    rw (limit_of size pos small)
      (strcat_up_to-Within fuel m a b (size - 1) x (omega arith) (ground arith))
