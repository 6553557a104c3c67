-- ===== src/Base/Bits.antt =====
-- Bitwise operations on unsigned integers, by their binary digits.
use Prim.Native.Nat.{ℕ, zero, suc, ◌+◌, ◌*◌, ◌/◌, ◌%◌}
use mathlib.Core.Bool.{◌||◌}
use ff_a_acs.Base.Tests.{◌==◌, if◌then◌else◌}

-- `a | b` on the lowest `w` bits.
unfoldable pub bit_or : ℕ → ℕ → ℕ → ℕ
bit_or zero a b = 0
bit_or (suc w) a b =
    let rest = bit_or w (a / 2) (b / 2) in
    (if (a % 2 == 1) || (b % 2 == 1) then 1 else 0) + 2 * rest

abbrev pub or64 : ℕ → ℕ → ℕ
or64 a b = bit_or 64 a b

-- `a & ~(b - 1)` for a power of two `b`.
abbrev pub mask_down : ℕ → ℕ → ℕ
mask_down a b = a / b * b
