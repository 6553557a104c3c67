-- ===== src/Drivers/Tests.antt =====
-- A watchdog that keeps what it shows, and runs of the drivers.
use ff_a_acs.Base.{ℕ, ◌*◌, ◌/◌, ◌%◌, ◌^◌, ◌≡◌, refl, Bool, true, false, ◌==◌, if◌then◌else◌}
use ff_a_acs.Drivers.Sp805.{
  load_off, ctrl_off, int_clr_off, lock_off, driver_sp805_twdog_start, driver_sp805_wdog_start,
  driver_sp805_wdog_stop, driver_sp805_wdog_refresh, driver_ns_wdog_start, driver_ns_wdog_stop,
}
use ff_a_acs.Drivers.Locked.{
  View, IsWatchdog, running_from, driver_sp805_lem, lock_with, load_with, control_with, reload,
}
use ff_a_acs.Drivers.Refclk.{
  Mmio, physical, refclk_set, refclk_disable, started, without_mask, disabled, without_both,
}

abbrev write : ℕ → ℕ → View → View
write a value v =
    if a == lock_off
    then lock_with value v
    else if a == load_off
    then load_with value v
    else if a == ctrl_off
    then control_with value v
    else if a == int_clr_off
    then reload v
    else v

write-IsWatchdog : IsWatchdog write 0 (λ v. v)
write-IsWatchdog = record {
  locks = λ value v. refl;
  loads = λ value v. refl;
  controls = λ value v. refl;
  clears = λ value v. refl;
}

abbrev old : View
old = record { locked = true; running = true; load = 100; counter = 7 }

driver_sp805_lem_example :
    (driver_sp805_wdog_start write 5 0 old ≡ running_from 5)
    × (driver_sp805_twdog_start write 32768 0 2000 old
        ≡ running_from (2000 * 32768 % 2 ^ 32 / 1000))
    × (driver_sp805_wdog_stop write 0 old ≡ record old { locked = true; running = false })
    × (driver_sp805_wdog_refresh write 0 old ≡ record old { locked = true; counter = 100 })
driver_sp805_lem_example = driver_sp805_lem write 0 (λ v. v) 5 32768 2000 old write-IsWatchdog

abbrev put : ℕ → ℕ → (ℕ → ℕ) → ℕ → ℕ
put a value m i = if i == a then value else m i

ns_wdog_runs : driver_ns_wdog_stop put 0x40 (driver_ns_wdog_start put 0x40 9 (λ _. 0)) 0x48 ≡ 9
unfolding driver_ns_wdog_stop driver_ns_wdog_start
ns_wdog_runs = refl

abbrev registers : Mmio (ℕ → ℕ)
registers = record { read32 = λ a m. (m a, m); write32 = put; write64 = put }

-- 50 MHz, and the count and the control word 5.
abbrev clock : ℕ → ℕ
clock i = if i == 0x10 then 50000000 else 5

abbrev set_for : Bool → ℕ → ℕ
set_for irq = refclk_set registers 0 physical 3 irq clock

refclk_set_compare : set_for true 0x20 ≡ 155
unfolding refclk_set refclk_disable started without_mask disabled without_both
refclk_set_compare = refl

refclk_set_started : (set_for true 0x2c ≡ 5) × (set_for false 0x2c ≡ 7)
unfolding refclk_set refclk_disable started without_mask disabled without_both
refclk_set_started = (refl, refl)
