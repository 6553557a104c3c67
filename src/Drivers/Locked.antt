-- ===== src/Drivers/Locked.antt =====
-- What the calls of Sp805 make of a watchdog that behaves as documented: unless the lock register
-- holds the key, the others ignore what is written to them.
use ff_a_acs.Base.{
  ℕ, ◌+◌, ◌*◌, ◌/◌, ◌%◌, ◌^◌, ◌≡◌, refl, ap, ◌∙◌, Bool, true, false, not, ◌&&◌, ◌==◌, if◌then◌else◌,
}
use ff_a_acs.Drivers.Sp805.{
  load_off, ctrl_off, int_clr_off, lock_off, unlock_access, run_and_reset, sp805_write_wdog_load,
  sp805_write_wdog_ctrl, sp805_write_wdog_int_clr, sp805_write_wdog_lock, driver_sp805_twdog_start,
  driver_sp805_wdog_start, driver_sp805_wdog_stop, driver_sp805_wdog_refresh,
}

pub record View : Type 0 where
  pub locked : Bool
  pub running : Bool
  pub load : ℕ
  pub counter : ℕ

-- What the registers do with a word that is written to them. A counter that is started_view anew starts from
-- the load value.
abbrev pub lock_with : ℕ → View → View
lock_with value v = record v { locked = not (value == unlock_access) }

abbrev unless_locked : (View → View) → View → View
unless_locked f v = if v.locked then v else f v

abbrev pub load_with : ℕ → View → View
load_with value = unless_locked (λ v. record v { load = value; counter = value })

abbrev pub control_with : ℕ → View → View
control_with value = unless_locked (λ v. record v {
  running = value % 2 == 1;
  counter = if (value % 2 == 1) && not v.running then v.load else v.counter;
})

abbrev pub reload : View → View
reload = unless_locked (λ v. record v { counter = v.load })

pub record IsWatchdog {D : Type 0} (write32 : ℕ → ℕ → D → D) (base : ℕ) (view : D → View)
    : Type 0 where
  pub locks :
      (value : ℕ) (d : D) → view (write32 (base + lock_off) value d) ≡ lock_with value (view d)
  pub loads :
      (value : ℕ) (d : D) → view (write32 (base + load_off) value d) ≡ load_with value (view d)
  pub controls :
      (value : ℕ) (d : D) → view (write32 (base + ctrl_off) value d) ≡ control_with value (view d)
  pub clears : (value : ℕ) (d : D) → view (write32 (base + int_clr_off) value d) ≡ reload (view d)

-- A watchdog that runs from a value on.
abbrev pub running_from : ℕ → View
running_from value = record { locked = true; running = true; load = value; counter = value }

same_counter : (value : ℕ) (b : Bool) → (if b then value else value) ≡ value
same_counter value true = refl
same_counter value false = refl

started_view :
    (value : ℕ) (v : View)
    → lock_with 0 (control_with run_and_reset (load_with value (lock_with unlock_access v)))
      ≡ running_from value
started_view value v =
    ap {B = View} (λ c. record { locked = true; running = true; load = value; counter = c })
      (same_counter value (not v.running))

-- Whatever state a watchdog that behaves as documented is in: either start leaves it running from the
-- cycles asked for, stop leaves it stopped and refresh at its load value, each with the rest as it was
-- and with the registers locked.
pub driver_sp805_lem :
    {D : Type 0} (write32 : ℕ → ℕ → D → D) (base : ℕ) (view : D → View) (value clk_hz ms : ℕ)
    (d : D)
    → IsWatchdog write32 base view
    → (view (driver_sp805_wdog_start write32 value base d) ≡ running_from value)
      × (view (driver_sp805_twdog_start write32 clk_hz base ms d)
          ≡ running_from (ms * clk_hz % 2 ^ 32 / 1000))
      × (view (driver_sp805_wdog_stop write32 base d)
          ≡ record (view d) { locked = true; running = false })
      × (view (driver_sp805_wdog_refresh write32 base d)
          ≡ record (view d) { locked = true; counter = (view d).load })
unfolding driver_sp805_wdog_start driver_sp805_twdog_start driver_sp805_wdog_stop
    driver_sp805_wdog_refresh sp805_write_wdog_lock sp805_write_wdog_load sp805_write_wdog_ctrl
    sp805_write_wdog_int_clr
driver_sp805_lem write32 base view value clk_hz ms d w = (
  begun value,
  begun (ms * clk_hz % 2 ^ 32 / 1000),
  w.locks 0 _ ∙ ap (lock_with 0) (w.controls 0 _ ∙ ap (control_with 0) (w.locks unlock_access d)),
  w.locks 0 _ ∙ ap (lock_with 0) (w.clears 1 _ ∙ ap reload (w.locks unlock_access d)),
)
  where
    begun :
        (n : ℕ)
        → view (
            write32 (base + lock_off) 0 (
              write32
                (base + ctrl_off)
                run_and_reset
                (write32 (base + load_off) n (write32 (base + lock_off) unlock_access d))))
          ≡ running_from n
    begun n =
        w.locks 0 _
        ∙ ap (lock_with 0) (
            w.controls run_and_reset _
            ∙ ap (control_with run_and_reset)
                (w.loads n _ ∙ ap (load_with n) (w.locks unlock_access d)))
        ∙ started_view n (view d)
