-- ===== src/Drivers/Refclk.antt =====
-- The timers of the reference clock, platform/driver/src/pal_ap_refclk_timer.c. The physical and the
-- virtual timer have the same calls on registers of their own.
use ff_a_acs.Base.{ℕ, ◌+◌, ◌*◌, ◌/◌, ◌%◌, ◌^◌, ◌-◌, Bool, true, false}
use Prim.Native.Nat.{bit_and, bit_or}

pub data Timer : Type 0 where
  physical virtual : Timer

-- CNTPCT and CNTVCT
abbrev pub count_off : Timer → ℕ
count_off physical = 0
count_off virtual = 8

abbrev pub cntfrq_off : ℕ
cntfrq_off = 0x10

-- CNTP_CVAL and CNTV_CVAL
abbrev pub cval_off : Timer → ℕ
cval_off physical = 0x20
cval_off virtual = 0x30

-- CNTP_CTL and CNTV_CTL
abbrev pub ctl_off : Timer → ℕ
ctl_off physical = 0x2c
ctl_off virtual = 0x3c

pub record Mmio (D : Type 0) : Type 0 where
  pub read32 : ℕ → D → ℕ × D
  pub write32 : ℕ → ℕ → D → D
  pub write64 : ℕ → ℕ → D → D

-- A control word of 32 bits, with ENABLE (1) or IMASK (2) or both out of it.
unfoldable pub without_enable : ℕ → ℕ
without_enable word = bit_and word (2 ^ 32 - 1 - 1)

unfoldable pub without_mask : ℕ → ℕ
without_mask word = bit_and word (2 ^ 32 - 1 - 2)

unfoldable pub without_both : ℕ → ℕ
without_both word = bit_and word (2 ^ 32 - 1 - 3)

-- The control word behind a disable, and the one that starts the timer.
unfoldable pub disabled : (int_mask : Bool) → ℕ → ℕ
disabled true word = without_enable (bit_or word 2)
disabled false word = without_both word

unfoldable pub started : (irq_enable : Bool) → ℕ → ℕ
started true word = bit_or (without_mask word) 1
started false word = bit_or (bit_or word 2) 1

module _ {D : Type 0} (mmio : Mmio D) (base : ℕ) where
  unfoldable pub refclk_disable : Timer → (int_mask : Bool) → D → D
  refclk_disable t int_mask d =
      let (word, d1) = mmio.read32 (base + ctl_off t) d in
      mmio.write32 (base + ctl_off t) (disabled int_mask word) d1

  -- The count is read as 32 bits, and the product is one of 32 bits. A frequency below 1 MHz, which the
  -- code asserts against, gives a timeout of 0.
  unfoldable pub refclk_set : Timer → (us_timeout : ℕ) → (irq_enable : Bool) → D → D
  refclk_set t us_timeout irq_enable d =
      let d1 = refclk_disable t false d in
      let (freq, d2) = mmio.read32 (base + cntfrq_off) d1 in
      let (count, d3) = mmio.read32 (base + count_off t) d2 in
      let d4 =
        mmio.write64 (base + cval_off t) (count + (freq / 1000000 * us_timeout) % 2 ^ 32) d3 in
      let (word, d5) = mmio.read32 (base + ctl_off t) d4 in
      mmio.write32 (base + ctl_off t) (started irq_enable word) d5
