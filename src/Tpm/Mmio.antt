-- ===== src/Tpm/Mmio.antt =====
-- The CRB registers: val/inc/val_tpm_crb.h and the MMIO accessors of
-- platform/pal_baremetal/tgt_tfa_fvp/src/pal_mmio.c. The window is memory of bytes, and a 32-bit
-- access is little-endian, as AArch64 is set up to be.
pub mod Frame
use ff_a_acs.Base.{
  ℕ, zero, suc, ◌+◌, ◌*◌, ◌/◌, ◌%◌, ◌^◌, Bool, ◌==◌, if◌then◌else◌, List, [], ◌∷◌, ◌++◌, get_or,
}

abbrev pub Memory : Type 0
Memory = ℕ → ℕ

unfoldable pub read8 : Memory → ℕ → ℕ
read8 m a = m a % 256

unfoldable pub write8 : Memory → ℕ → ℕ → Memory
write8 m a v b = if b == a then v % 256 else m b

unfoldable pub read32 : Memory → ℕ → ℕ
unfolding read8
read32 m a =
    read8 m a + 256 * read8 m (a + 1) + 65536 * read8 m (a + 2) + 16777216 * read8 m (a + 3)

unfoldable pub write32 : Memory → ℕ → ℕ → Memory
unfolding write8
write32 m a v =
    write8 (write8 (write8 (write8 m a v) (a + 1) (v / 256)) (a + 2) (v / 65536)) (a + 3)
      (v / 16777216)

-- VAL_TPM_CRB_BASE and the layout below it.
abbrev pub crb_base : ℕ
crb_base = 0x88f00000

abbrev pub locality_size : ℕ
locality_size = 0x1000

abbrev pub data_buffer_size : ℕ
data_buffer_size = 0x400

abbrev pub locality_max : ℕ
locality_max = 4

abbrev pub locality_base : ℕ → ℕ
locality_base l = crb_base + l * locality_size

abbrev pub loc_ctrl : ℕ → ℕ
loc_ctrl l = locality_base l + 0x008

abbrev pub loc_sts : ℕ → ℕ
loc_sts l = locality_base l + 0x00c

abbrev pub ctrl_start : ℕ → ℕ
ctrl_start l = locality_base l + 0x04c

abbrev pub data_buffer : ℕ → ℕ
data_buffer l = locality_base l + 0x080

-- The bytes that a read at `p` of a buffer sees; past its end the model reads 0.
abbrev pub byte_at : List ℕ → ℕ → ℕ
byte_at p i = get_or p i 0 % 256

unfoldable pub be32_read : List ℕ → ℕ → ℕ
be32_read p i =
    byte_at p i * 16777216 + byte_at p (i + 1) * 65536 + byte_at p (i + 2) * 256 + byte_at p (i + 3)

unfoldable pub be32_write : ℕ → List ℕ
be32_write v = v / 16777216 % 256 ∷ v / 65536 % 256 ∷ v / 256 % 256 ∷ v % 256 ∷ []

-- `val_tpm_copy_from_mmio`: the `size` bytes from `src`.
unfoldable pub copy_from_mmio : Memory → ℕ → ℕ → List ℕ
unfolding read8
copy_from_mmio m src zero = []
copy_from_mmio m src (suc n) = read8 m src ∷ copy_from_mmio m (src + 1) n

-- `val_tpm_copy_to_mmio`: the first `size` bytes of `src`, written from `dst` on.
unfoldable pub copy_to_mmio : Memory → ℕ → List ℕ → ℕ → Memory
unfolding write8
copy_to_mmio m dst src zero = m
copy_to_mmio m dst [] (suc n) = copy_to_mmio (write8 m dst 0) (dst + 1) [] n
copy_to_mmio m dst (b ∷ src) (suc n) = copy_to_mmio (write8 m dst b) (dst + 1) src n
