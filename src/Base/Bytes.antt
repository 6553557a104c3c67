-- ===== src/Base/Bytes.antt =====
-- What the C library's `memcpy`, `memmove`, `memset` and `memcmp` do to memory as a function from
-- offsets to bytes, and the laws of these.
use Prim.Native.Nat.{ℕ, zero, suc, ◌+◌, ◌-◌, ◌≤◌, ◌<◌}
use mathlib.Core.Path.{◌≡◌, refl, sym, ap, ◌∙◌}
use mathlib.Core.Logic.{◌⊎◌}
use mathlib.Core.Bool.{Bool, true, ◌&&◌}
use native.Mathlib.Omega.{arith}
use ff_a_acs.Base.Tests.{ltb, leb, ◌==◌, if◌then◌else◌}

abbrev pub Bytes : Type 0
Bytes = ℕ → ℕ

-- The source is read before anything is written.
unfoldable pub copy_bytes : Bytes → ℕ → Bytes → ℕ → ℕ → Bytes
copy_bytes m dest from source n x =
    if leb dest x && ltb x (dest + n) then from (source + (x - dest)) else m x

unfoldable pub fill_bytes : Bytes → ℕ → ℕ → ℕ → Bytes
fill_bytes m dest value n x = if leb dest x && ltb x (dest + n) then value else m x

-- Whether `memcmp` gives 0.
unfoldable pub same_bytes : Bytes → ℕ → Bytes → ℕ → ℕ → Bool
same_bytes a i b j zero = true
same_bytes a i b j (suc n) = let rest = same_bytes a (i + 1) b (j + 1) n in (a i == b j) && rest

pub copy_bytes_inside :
    (m : Bytes) (dest : ℕ) (from : Bytes) (source n k : ℕ)
    → k < n
    → copy_bytes m dest from source n (dest + k) ≡ from (source + k)
unfolding copy_bytes
copy_bytes_inside m dest from source n k h = ground arith

pub copy_bytes_whole :
    (m from : Bytes) (source n k : ℕ) → k < n → copy_bytes m 0 from source n k ≡ from (source + k)
unfolding copy_bytes
copy_bytes_whole m from source n k h = ground arith

pub copy_bytes_outside :
    (m : Bytes) (dest : ℕ) (from : Bytes) (source n x : ℕ)
    → (x < dest) ⊎ (dest + n ≤ x)
    → copy_bytes m dest from source n x ≡ m x
unfolding copy_bytes
copy_bytes_outside m dest from source n x h = ground arith

pub fill_bytes_inside :
    (m : Bytes) (dest value n x : ℕ) → dest ≤ x → x < dest + n → fill_bytes m dest value n x ≡ value
unfolding fill_bytes
fill_bytes_inside m dest value n x h k = ground arith

pub fill_bytes_outside :
    (m : Bytes) (dest value n x : ℕ)
    → (x < dest) ⊎ (dest + n ≤ x)
    → fill_bytes m dest value n x ≡ m x
unfolding fill_bytes
fill_bytes_outside m dest value n x h = ground arith

-- `k` places behind the next one.
next_place : (a : Bytes) (i k : ℕ) → a (i + 1 + k) ≡ a (i + suc k)
next_place a i k = ap a (omega arith)

pub same_bytes_refl :
    (n : ℕ) (a : Bytes) (i : ℕ) (b : Bytes) (j : ℕ)
    → ((k : ℕ) → k < n → a (i + k) ≡ b (j + k))
    → same_bytes a i b j n ≡ true
unfolding same_bytes
same_bytes_refl zero a i b j h = refl
same_bytes_refl (suc n) a i b j h =
    let head = h 0 (omega arith) in
    let rest =
      same_bytes_refl n a (i + 1) b (j + 1)
        (λ k l. next_place a i k ∙ h (suc k) (omega (arith, l)) ∙ sym (next_place b j k)) in
    ground (arith, head, rest)

pub same_bytes_sound :
    (n : ℕ) (a : Bytes) (i : ℕ) (b : Bytes) (j : ℕ)
    → same_bytes a i b j n ≡ true
    → (k : ℕ) → k < n
    → a (i + k) ≡ b (j + k)
unfolding same_bytes
same_bytes_sound zero a i b j h k l = omega (arith, l)
same_bytes_sound (suc n) a i b j h zero l = ground (arith, h)
same_bytes_sound (suc n) a i b j h (suc k) l =
    sym (next_place a i k)
    ∙ same_bytes_sound n a (i + 1) b (j + 1) (ground (arith, h)) k (omega (arith, l))
    ∙ next_place b j k
