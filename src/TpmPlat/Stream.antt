-- ===== src/TpmPlat/Stream.antt =====
-- The bytes of TpmPlat/Entropy in the order in which they are handed out.
use ff_a_acs.Base.{
  ℕ, zero, suc, ◌+◌, ◌/◌, ◌%◌, ◌≤◌, ◌<◌, ◌≡◌, ◌⊎◌, refl, ap, subst, ◌∙◌, arith, true, false, some,
  inl, inr, ltb, leb, Bool-cases,
}
use ff_a_acs.Base.Bytes.{Bytes}
use ff_a_acs.TpmPlat.Entropy.{
  Source, byte_of, put_byte, put_byte_at, put_byte_other, next_entropy_byte, fill_entropy,
  get_entropy,
}

-- The bytes of the words that the generator gives on its calls 0, 1, ...: byte `p` of all.
unfoldable pub stream : (ℕ → ℕ) → ℕ → ℕ
unfolding byte_of
stream words p = byte_of (words (p / 8)) (p % 8)

-- The next byte is byte `p` of the stream: the generator was called for the words up to it.
pub record IsAt (words : ℕ → ℕ) (p : ℕ) (s : Source ℕ) : Type 0 where
  pub fresh : 8 ≤ s.globals.entropy_offset → (p % 8 ≡ 0) × (s.world ≡ p / 8)
  pub kept :
      s.globals.entropy_offset < 8
      → (p % 8 ≡ s.globals.entropy_offset)
        × (s.world ≡ p / 8 + 1)
        × (s.globals.entropy_word ≡ words (p / 8))

le_not_ltb : (amount : ℕ) → amount ≤ 64 → ltb 64 amount ≡ false
le_not_ltb amount h = ground arith

module _ (random : ℕ → ℕ × ℕ × ℕ) (words : ℕ → ℕ)
    (works : (k : ℕ) → random k ≡ (1, words k, suc k)) where
  next_byte :
      (p : ℕ) (s : Source ℕ)
      → IsAt words p s
      → ((next_entropy_byte random s).0 ≡ some (stream words p))
        × IsAt words (p + 1) (next_entropy_byte random s).1
  unfolding next_entropy_byte stream
  next_byte p s at = elim (Bool-cases (leb 8 s.globals.entropy_offset)) [
    | inl e ↦
        let (zero_left, here) = at.fresh (ground (arith, e)) in
        rw (e, works s.world)
          (
            rw (here, zero_left) refl,
            record {
              fresh = λ h. omega (arith, h);
              kept = λ h. (
                omega (arith, zero_left),
                omega (arith, zero_left, here),
                ap words (omega (arith, zero_left, here)),
              );
            },
          )
    | inr e ↦
        let (left, here, word) = at.kept (ground (arith, e)) in
        rw e (
          rw (left, word) refl,
          record {
            fresh = λ h. omega (arith, h, left, here);
            kept = λ h. (
              omega (arith, h, left),
              omega (arith, h, left, here),
              word ∙ ap words (omega (arith, h, left)),
            );
          },
        )
  ]

  same_place :
      (mix : ℕ → ℕ → ℕ) (out : Bytes) {i j p q : ℕ}
      → i ≡ j
      → p ≡ q
      → out i ≡ mix i (stream words p)
      → out j ≡ mix j (stream words q)
  same_place mix out {i} {j} {p} {q} e f h =
      subst (λ k. out k ≡ mix k (stream words q)) e
        (subst (λ r. out i ≡ mix i (stream words r)) f h)

  -- The byte at index `i` and those behind it.
  places :
      (mix : ℕ → ℕ → ℕ) (n i p : ℕ) (m out : Bytes)
      → ((k : ℕ) → k < n → out (i + 1 + k) ≡ mix (i + 1 + k) (stream words (p + 1 + k)))
      → out i ≡ put_byte m i (mix i (stream words p)) i
      → (k : ℕ) → k < suc n
      → out (i + k) ≡ mix (i + k) (stream words (p + k))
  places mix n i p m out near first zero h =
      same_place mix out (omega arith) (omega arith)
        (first ∙ put_byte_at m i (mix i (stream words p)))
  places mix n i p m out near first (suc k) h =
      same_place mix out (omega arith) (omega arith) (near k (omega (arith, h)))

  fill_step :
      (mix : ℕ → ℕ → ℕ) (n i : ℕ) (m : Bytes) (s : Source ℕ) {v : ℕ}
      → (next_entropy_byte random s).0 ≡ some v
      → fill_entropy random mix (suc n) i m s
        ≡ fill_entropy random mix n (i + 1) (put_byte m i (mix i v)) (next_entropy_byte random s).1
  unfolding fill_entropy
  fill_step mix n i m s byte = rw (fill_entropy, byte) refl

  -- From byte `p` on the loop stores the next `n` bytes, mixed with their indices, and nothing else.
  fill_next :
      (mix : ℕ → ℕ → ℕ) (n i p : ℕ) (m : Bytes) (s : Source ℕ)
      → IsAt words p s
      → ((fill_entropy random mix n i m s).0 ≡ true)
        × ((x : ℕ) → (x < i) ⊎ (i + n ≤ x) → (fill_entropy random mix n i m s).1 x ≡ m x)
        × ((k : ℕ)
            → k < n
            → (fill_entropy random mix n i m s).1 (i + k) ≡ mix (i + k) (stream words (p + k)))
        × IsAt words (p + n) (fill_entropy random mix n i m s).2
  unfolding fill_entropy put_byte
  fill_next mix zero i p m s at =
      (refl, λ x h. refl, λ k h. omega (arith, h), subst (λ q. IsAt words q s) (omega arith) at)
  fill_next mix (suc n) i p m s at =
      let (byte, at') = next_byte p s at in
      let rest =
        fill_entropy random mix n (i + 1) (put_byte m i (mix i (stream words p)))
          (next_entropy_byte random s).1 in
      let (done, far, near, after) =
        fill_next mix n (i + 1) (p + 1) (put_byte m i (mix i (stream words p)))
          (next_entropy_byte random s).1 at' in
      rw (fill_step mix n i m s byte) (
        done,
        λ x h. far x (omega (arith, h)) ∙ put_byte_other m i _ x (ground (arith, h)),
        places mix n i p m rest.1 near (far i (ground arith)),
        subst (λ q. IsAt words q rest.2) (omega arith) after,
      )

  -- Where the generator gives its words without failing, a request for up to 64 bytes is answered in
  -- full: the buffer gets the bytes of the stream from the place where the last request stopped,
  -- nothing else of it changes, and the next request goes on behind them, so that no byte is handed
  -- out twice or dropped.
  pub get_entropy_lem :
      (amount p : ℕ) (m : Bytes) (s : Source ℕ)
      → amount ≤ 64
      → IsAt words p s
      → (out : Bytes) × ((get_entropy random (some m) amount s).0 ≡ some amount)
        × ((get_entropy random (some m) amount s).1 ≡ some out)
        × ((k : ℕ) → k < amount → out k ≡ stream words (p + k))
        × ((x : ℕ) → amount ≤ x → out x ≡ m x)
        × IsAt words (p + amount) (get_entropy random (some m) amount s).2
  unfolding get_entropy
  get_entropy_lem amount p m s h at =
      let (done, far, near, after) = fill_next (λ i v. v) amount 0 p m s at in
      let out = (fill_entropy random (λ i v. v) amount 0 m s).1 in
      let small = le_not_ltb amount h in
      (
        out,
        rw (small, done) refl,
        rw small refl,
        λ k l. same_place (λ i v. v) out (omega arith) refl (near k l),
        λ x l. far x (inr (omega (arith, l))),
        rw small after,
      )
