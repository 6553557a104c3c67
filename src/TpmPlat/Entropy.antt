-- ===== src/TpmPlat/Entropy.antt =====
-- The bytes that platform/pal_baremetal/tgt_tfa_fvp/src/pal_tpm_tcg_platform.c takes from the
-- platform's generator of 64-bit words, `GetRandomNumber64`, which is a parameter: its result, the
-- word it stores, and what is left of the world.
use ff_a_acs.Base.{
  ℕ, ◌≡◌, ◌≢◌, arith, zero, suc, ◌+◌, ◌*◌, ◌/◌, ◌%◌, ◌^◌, Bool, true, false, Option, none, some,
  ltb, leb, ◌==◌, if◌then◌else◌,
}
use ff_a_acs.TpmPlat.{Globals}
use ff_a_acs.Base.Bytes.{Bytes}
use Prim.Native.Nat.{bit_xor}

pub record Source (W : Type 0) : Type 0 where
  pub globals : Globals
  pub world : W

-- Byte `i` of a word, the lowest first.
unfoldable pub byte_of : (word i : ℕ) → ℕ
byte_of word i = word / 2 ^ (i * 8) % 256

unfoldable pub put_byte : Bytes → ℕ → ℕ → Bytes
put_byte m i v x = if x == i then v else m x

pub put_byte_at : (m : Bytes) (i v : ℕ) → put_byte m i v i ≡ v
unfolding put_byte
put_byte_at m i v = ground arith

pub put_byte_other : (m : Bytes) (i v x : ℕ) → x ≢ i → put_byte m i v x ≡ m x
unfolding put_byte
put_byte_other m i v x h = ground arith

module _ {W : Type 0} (random : W → ℕ × ℕ × W) where
  -- `none` where the generator fails.
  unfoldable pub next_entropy_byte : Source W → Option ℕ × Source W
  unfolding byte_of
  next_entropy_byte s =
      let g = s.globals in
      let (status, word, w') = random s.world in
      if leb 8 g.entropy_offset
      then (if status == 0
          then (none, record { globals = record g { entropy_word = word }; world = w' })
          else (
            some (byte_of word 0),
            record { globals = record g { entropy_word = word; entropy_offset = 1 }; world = w' },
          ))
      else (
        some (byte_of g.entropy_word g.entropy_offset),
        record s { globals = record g { entropy_offset = g.entropy_offset + 1 } },
      )

  -- The loop of `_plat__GetEPS` and of `_plat__GetEntropy` from index `i` on, for `n` bytes: it ends
  -- early where the generator fails.
  unfoldable pub fill_entropy : (ℕ → ℕ → ℕ) → (n i : ℕ) → Bytes → Source W → Bool × Bytes × Source W
  unfolding next_entropy_byte put_byte
  fill_entropy mix zero i m s = (true, m, s)
  fill_entropy mix (suc n) i m s =
      let (b, s') = next_entropy_byte s in
      elim b [
        | none ↦ (false, m, s')
        | some v ↦ fill_entropy mix n (i + 1) (put_byte m i (mix i v)) s'
      ]

  unfoldable pub get_eps : (size : ℕ) → Option Bytes → Source W → Option Bytes × Source W
  unfolding fill_entropy
  get_eps size none s = (none, s)
  get_eps size (some seed) s =
      let (done, seed', s') =
        fill_entropy (λ i v. bit_xor (bit_xor 0xe0 (i % 256)) v % 256)
          (if ltb 32 size then 32 else size) 0 seed s in
      (some seed', s')

  -- The result, of which `none` is -1, and the buffer.
  unfoldable pub get_entropy :
      Option Bytes → (amount : ℕ) → Source W → Option ℕ × Option Bytes × Source W
  unfolding fill_entropy
  get_entropy none amount s = (none, none, s)
  get_entropy (some m) amount s =
      let (done, m', s') = fill_entropy (λ i v. v) amount 0 m s in
      if ltb 64 amount then (none, some m, s) else (if done then some amount else none, some m', s')
