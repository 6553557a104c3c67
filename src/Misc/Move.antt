-- ===== src/Misc/Move.antt =====
-- `val_memmove` copies as if the source were read in full before the first byte is written.
use ff_a_acs.Base.{ℕ, zero, suc, ◌+◌, ◌-◌, ◌<◌, ◌≡◌, ◌&&◌, leb, ltb, if◌then◌else◌, arith, ap}
use ff_a_acs.Misc.{Ram, poke, copy_up, copy_down, memmove}

-- What address x holds when the n bytes from s on stand from d on.
abbrev pub moved : Ram → ℕ → ℕ → ℕ → ℕ → ℕ
moved m d s n x = if leb d x && ltb x (d + n) then m (s + (x - d)) else m x

same_address : (m : Ram) (a b : ℕ) → a ≡ b → m a ≡ m b
same_address m a b e = ap m e

copy_up_lem : (m : Ram) (d s n x : ℕ) → d < s → copy_up m d s n x ≡ moved m d s n x
unfolding copy_up poke
copy_up_lem m d s zero x h = ground arith
copy_up_lem m d s (suc n) x h = ground (
  arith,
  copy_up_lem (poke m d (m s)) (d + 1) (s + 1) n x (omega arith),
  same_address m (s + 1 + (x - (d + 1))) (s + (x - d)),
  same_address m s (s + (x - d)),
)

copy_down_lem : (m : Ram) (d s n x : ℕ) → s < d → copy_down m d s n x ≡ moved m d s n x
unfolding copy_down poke
copy_down_lem m d s zero x h = ground arith
copy_down_lem m d s (suc n) x h = ground (
  arith,
  copy_down_lem (poke m (d + n) (m (s + n))) d s n x h,
  same_address m (s + n) (s + (x - d)),
)

-- Whatever the overlap of the n bytes at the source and those at the destination, the destination
-- ends up with the bytes that the source held before, and every other address keeps its own.
pub memmove_lem : (m : Ram) (d s n x : ℕ) → memmove m d s n x ≡ moved m d s n x
unfolding memmove
memmove_lem m d s n x =
    ground (arith, copy_up_lem m d s n x, copy_down_lem m d s n x, same_address m x (s + (x - d)))
