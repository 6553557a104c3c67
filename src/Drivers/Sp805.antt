-- ===== src/Drivers/Sp805.antt =====
-- The watchdog driver, platform/driver/src/pal_sp805_watchdog.c.
use ff_a_acs.Base.{ℕ, ◌+◌, ◌*◌, ◌/◌, ◌%◌, ◌^◌}

abbrev pub load_off : ℕ
load_off = 0

abbrev pub ctrl_off : ℕ
ctrl_off = 8

abbrev pub int_clr_off : ℕ
int_clr_off = 0xc

abbrev pub lock_off : ℕ
lock_off = 0xc00

abbrev pub unlock_access : ℕ
unlock_access = 0x1acce551

-- SP805_WDOG_CTRL_RESEN | SP805_WDOG_CTRL_INTEN
abbrev pub run_and_reset : ℕ
run_and_reset = 3

module _ {D : Type 0} (write32 : (a value : ℕ) → D → D) where
  unfoldable pub sp805_write_wdog_load : (base value : ℕ) → D → D
  sp805_write_wdog_load base value d = write32 (base + load_off) value d

  unfoldable pub sp805_write_wdog_ctrl : (base value : ℕ) → D → D
  sp805_write_wdog_ctrl base value d = write32 (base + ctrl_off) value d

  unfoldable pub sp805_write_wdog_int_clr : (base value : ℕ) → D → D
  sp805_write_wdog_int_clr base value d = write32 (base + int_clr_off) value d

  unfoldable pub sp805_write_wdog_lock : (base value : ℕ) → D → D
  sp805_write_wdog_lock base value d = write32 (base + lock_off) value d

  -- The product of milliseconds and the clock is one of 32 bits.
  unfoldable pub driver_sp805_twdog_start : (clk_hz base ms : ℕ) → D → D
  driver_sp805_twdog_start clk_hz base ms d =
      let wd_cycles = ms * clk_hz % 2 ^ 32 / 1000 in
      let d1 = sp805_write_wdog_lock base unlock_access d in
      let d2 = sp805_write_wdog_load base wd_cycles d1 in
      let d3 = sp805_write_wdog_ctrl base run_and_reset d2 in sp805_write_wdog_lock base 0 d3

  unfoldable pub driver_ns_wdog_start : (ns_base ms : ℕ) → D → D
  driver_ns_wdog_start ns_base ms d = write32 ns_base 1 (write32 (ns_base + 8) ms d)

  unfoldable pub driver_ns_wdog_stop : (ns_base : ℕ) → D → D
  driver_ns_wdog_stop ns_base d = write32 ns_base 0 d

  unfoldable pub driver_sp805_wdog_start : (load_value base : ℕ) → D → D
  driver_sp805_wdog_start load_value base d =
      let d1 = sp805_write_wdog_lock base unlock_access d in
      let d2 = sp805_write_wdog_load base load_value d1 in
      let d3 = sp805_write_wdog_ctrl base run_and_reset d2 in sp805_write_wdog_lock base 0 d3

  unfoldable pub driver_sp805_wdog_stop : (base : ℕ) → D → D
  driver_sp805_wdog_stop base d =
      let d1 = sp805_write_wdog_lock base unlock_access d in
      let d2 = sp805_write_wdog_ctrl base 0 d1 in sp805_write_wdog_lock base 0 d2

  unfoldable pub driver_sp805_wdog_refresh : (base : ℕ) → D → D
  driver_sp805_wdog_refresh base d =
      let d1 = sp805_write_wdog_lock base unlock_access d in
      let d2 = sp805_write_wdog_int_clr base 1 d1 in sp805_write_wdog_lock base 0 d2
