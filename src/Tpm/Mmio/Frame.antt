-- ===== src/Tpm/Mmio/Frame.antt =====
-- What the MMIO accessors change and what they leave alone.
use ff_a_acs.Base.{
  ℕ, zero, suc, ◌+◌, ◌%◌, ◌^◌, ◌≤◌, ◌<◌, ◌≡◌, ◌⊎◌, refl, List, [], ◌∷◌, ◌++◌, map, arith, length,
}
use mathlib.Core.Path.{ap₂}
use ff_a_acs.Tpm.Mmio.{
  Memory, write8, read32, write32, be32_read, be32_write, copy_from_mmio, copy_to_mmio,
}

-- A word lies outside a range of bytes.
abbrev pub Apart : ℕ → ℕ → ℕ → Type 0
Apart a lo n = (a + 4 ≤ lo) ⊎ (lo + n ≤ a)

pub read32-write32 : (m : Memory) (a v : ℕ) → v < 2 ^ 32 → read32 (write32 m a v) a ≡ v
unfolding read32 write32
read32-write32 m a v h = ground arith

pub write32_other : (m : Memory) (a v b : ℕ) → ((b < a) ⊎ (a + 4 ≤ b)) → write32 m a v b ≡ m b
unfolding write32
write32_other m a v b h = ground arith

pub read32_same :
    (m g : Memory) (a : ℕ)
    → g a ≡ m a
    → g (a + 1) ≡ m (a + 1)
    → g (a + 2) ≡ m (a + 2)
    → g (a + 3) ≡ m (a + 3)
    → read32 g a ≡ read32 m a
unfolding read32
read32_same m g a p q r s = rw (p, q, r, s)

pub read32-write32_other :
    (m : Memory) (a v b : ℕ) → Apart b a 4 → read32 (write32 m a v) b ≡ read32 m b
read32-write32_other m a v b h =
    read32_same m (write32 m a v) b (write32_other m a v b (omega arith))
      (write32_other m a v (b + 1) (omega arith)) (write32_other m a v (b + 2) (omega arith))
      (write32_other m a v (b + 3) (omega arith))

pub copy_to_mmio_other :
    (m : Memory) (dst : ℕ) (src : List ℕ) (n b : ℕ)
    → ((b < dst) ⊎ (dst + n ≤ b))
    → copy_to_mmio m dst src n b ≡ m b
unfolding copy_to_mmio
copy_to_mmio_other m dst src zero b h = refl
copy_to_mmio_other m dst [] (suc n) b h =
    ground (arith, copy_to_mmio_other (write8 m dst 0) (dst + 1) [] n b)
copy_to_mmio_other m dst (x ∷ src) (suc n) b h =
    ground (arith, copy_to_mmio_other (write8 m dst x) (dst + 1) src n b)

pub read32-copy_to_mmio :
    (m : Memory) (dst : ℕ) (src : List ℕ) (n b : ℕ)
    → Apart b dst n
    → read32 (copy_to_mmio m dst src n) b ≡ read32 m b
read32-copy_to_mmio m dst src n b h =
    read32_same m (copy_to_mmio m dst src n) b (copy_to_mmio_other m dst src n b (omega arith))
      (copy_to_mmio_other m dst src n (b + 1) (omega arith))
      (copy_to_mmio_other m dst src n (b + 2) (omega arith))
      (copy_to_mmio_other m dst src n (b + 3) (omega arith))

-- Reading back what was written gives the bytes of the source.
pub copy_from-copy_to :
    (m : Memory) (dst : ℕ) (src : List ℕ)
    → copy_from_mmio (copy_to_mmio m dst src (length src)) dst (length src) ≡ map (λ b. b % 256) src
unfolding copy_from_mmio copy_to_mmio
copy_from-copy_to m dst [] = refl
copy_from-copy_to m dst (x ∷ src) =
    ap₂ ◌∷◌ (ground (arith, copy_to_mmio_other (write8 m dst x) (dst + 1) src (length src) dst))
      (copy_from-copy_to (write8 m dst x) (dst + 1) src)

pub be32_read-write : (v : ℕ) (rest : List ℕ) → v < 2 ^ 32 → be32_read (be32_write v ++ rest) 0 ≡ v
unfolding be32_read be32_write
be32_read-write v rest h = omega arith
