-- ===== src/Gic/Lines.antt =====
-- Which interrupts the calls of Gic enable and disable, on a distributor that behaves as documented: a
-- word written to a set-enable register enables the interrupts of its 1 bits, and one written to a
-- clear-enable register disables them, for each of the 32 registers; what is
-- written to a byte, as targets and priorities are, does neither.
use ff_a_acs.Base.{
  ℕ, zero, suc, ◌+◌, ◌*◌, ◌/◌, ◌%◌, ◌^◌, ◌<◌, ◌≡◌, refl, ap, ◌∙◌, arith, Bool, false, not, ◌&&◌,
  ◌||◌, ◌==◌,
}
use ff_a_acs.Gic.{Mmio, isenabler, icenabler, register, gicd_write, gicd_set}

-- Bit `b` of a word.
unfoldable pub bit : (b word : ℕ) → Bool
bit zero word = word % 2 == 1
bit (suc b) word = bit b (word / 2)

bit_zero : (b : ℕ) → bit b 0 ≡ false
unfolding bit
bit_zero zero = refl
bit_zero (suc b) = bit_zero b

double : (a : ℕ) → 2 ^ suc a ≡ 2 * 2 ^ a
double a = omega arith

bit_power : (a b : ℕ) → bit b (2 ^ a) ≡ (a == b)
unfolding bit
bit_power zero zero = refl
bit_power zero (suc b) = bit_zero b ∙ ground arith
bit_power (suc a) zero = let e = double a in ground (arith, e)
bit_power (suc a) (suc b) = ap (bit b) (half a) ∙ bit_power a b ∙ ground arith
  where
    half : (a : ℕ) → 2 ^ suc a / 2 ≡ 2 ^ a
    half a = omega arith

pub record IsDistributor {D : Type 0} (mmio : Mmio D) (base : ℕ) (enabled : D → ℕ → Bool)
    : Type 0 where
  pub sets :
      (n word j : ℕ) (d : D)
      → n < 32
      → enabled (mmio.write32 (base + 0x100 + n * 4) word d) j
        ≡ (enabled d j || ((j / 32 == n) && bit (j % 32) word))
  pub bytes : (a value j : ℕ) (d : D) → enabled (mmio.write8 a value d) j ≡ enabled d j
  pub clears :
      (n word j : ℕ) (d : D)
      → n < 32
      → enabled (mmio.write32 (base + 0x180 + n * 4) word d) j
        ≡ (enabled d j && not ((j / 32 == n) && bit (j % 32) word))

-- A bit of the register of an interrupt is the interrupt's own.
pub own_line : (i j : ℕ) → ((j / 32 == i / 32) && bit (j % 32) (2 ^ (i % 32))) ≡ (j == i)
own_line i j = rw (bit_power (i % 32) (j % 32)) (ground arith)

-- Of the 1024 lines, enabling an interrupt enables that one and leaves the others as they are, and disabling it disables
-- that one only.
pub gicd_set-enabled :
    {D : Type 0} (mmio : Mmio D) (base : ℕ) (enabled : D → ℕ → Bool) (i j : ℕ) (d : D)
    → IsDistributor mmio base enabled
    → i < 1024
    → (enabled (gicd_set mmio isenabler base i d) j ≡ (enabled d j || (j == i)))
      × (enabled (gicd_set mmio icenabler base i d) j ≡ (enabled d j && not (j == i)))
unfolding gicd_set gicd_write register
gicd_set-enabled mmio base enabled i j d dist l = (
  dist.sets (i / 32) (2 ^ (i % 32)) j d (omega (arith, l))
      ∙ ap (λ b. enabled d j || b) (own_line i j),
  dist.clears (i / 32) (2 ^ (i % 32)) j d (omega (arith, l))
      ∙ ap (λ b. enabled d j && not b) (own_line i j),
)
