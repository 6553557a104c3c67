-- ===== src/Drivers/Memory.antt =====
-- The driver of the non-volatile memory, platform/driver/src/pal_nvm.c, and the calls of
-- platform/pal_baremetal/tgt_tfa_fvp/src/pal_driver.c that val/src/val_framework.c makes of it. A buffer
-- is bytes by their offset.
use ff_a_acs.Base.{ℕ, zero, suc, ◌+◌, ◌*◌, ◌/◌, ◌%◌, ◌^◌, ◌==◌, if◌then◌else◌}
use ff_a_acs.Base.Bytes.{Bytes}
use ff_a_acs.Ffa.{Args}
use ff_a_acs.Nvm.{Driver}

-- The platform's calls for bytes.
pub record Mmio (D : Type 0) : Type 0 where
  pub read8 : ℕ → D → ℕ × D
  pub write8 : ℕ → ℕ → D → D

-- A word in memory, its lowest byte first.
abbrev pub word_bytes : ℕ → Bytes
word_bytes word i = word / 256 ^ i % 256

abbrev pub bytes_word : Bytes → ℕ
bytes_word b = b 0 + 256 * b 1 + 65536 * b 2 + 16777216 * b 3

module _ {D : Type 0} (mmio : Mmio D) (nvm_base : ℕ) where
  -- The loops for `n` bytes from byte `i` on.
  unfoldable pub write_bytes : (n i offset : ℕ) → Bytes → D → D
  write_bytes zero i offset buffer d = d
  write_bytes (suc n) i offset buffer d =
      write_bytes n (suc i) offset buffer (mmio.write8 (nvm_base + offset + i) (buffer i) d)

  unfoldable pub read_bytes : (n i offset : ℕ) → Bytes → D → Bytes × D
  read_bytes zero i offset buffer d = (buffer, d)
  read_bytes (suc n) i offset buffer d =
      let (byte, d1) = mmio.read8 (nvm_base + offset + i) d in
      read_bytes n (suc i) offset (λ x. if x == i then byte else buffer x) d1

  -- The status is always PAL_SUCCESS, 0.
  unfoldable pub driver_nvm_write : (offset : ℕ) → Bytes → (size : ℕ) → D → ℕ × D
  unfolding write_bytes
  driver_nvm_write offset buffer size d = (0, write_bytes size 0 offset buffer d)

  unfoldable pub driver_nvm_read : (offset : ℕ) → Bytes → (size : ℕ) → D → ℕ × Bytes × D
  unfolding read_bytes
  driver_nvm_read offset buffer size d =
      let (bytes, d1) = read_bytes size 0 offset buffer d in (0, bytes, d1)

  -- `pal_nvm_write` and `pal_nvm_read` on the words that the framework keeps. The direct request is
  -- an argument.
  unfoldable pub pal_nvm : (Args → D → Args × D) → Driver D
  pal_nvm send = record {
    nvm_write = λ offset word d. driver_nvm_write offset (word_bytes word) 4 d;
    nvm_read = λ offset d.
        let (status, bytes, d1) = driver_nvm_read offset (λ _. 0) 4 d in
        (status, bytes_word bytes, d1);
    send_direct_req = send;
  }
