-- ===== src/Framework.antt =====
-- The progress of a regression run: val/src/val_framework.c, the bookkeeping in non-volatile memory
-- around each test and the look at it after a reset. Framework/Run has `val_test_dispatch` of
-- val/src/val_test_dispatch.c, Framework/Watchdog the watchdog's calls. What the file calls of the
-- platform's shared code, which is not in the repository, is the record `Env`.
mod Run
mod Watchdog
mod Order
mod Course
mod Saved
mod Tests
use ff_a_acs.Base.{ℕ, ◌+◌, Bool, true, false, Option, none, some, List, ◌!=◌, if◌then◌else◌}

-- The words of non-volatile memory, by the index of VAL_NVM_OFFSET.
pub data Index : Type 0 where
  cur_suite_num cur_test_num end_test_num test_progress : Index
  total_pass total_fail total_skip total_error : Index

pub record TestInfo : Type 0 where
  pub suite_num : ℕ
  pub test_num : ℕ
  pub last_test_num : ℕ
  pub progress : ℕ

pub record Report : Type 0 where
  pub pass : ℕ
  pub failed : ℕ
  pub skip : ℕ
  pub error : ℕ

abbrev pub zero_report : Report
zero_report = record { pass = 0; failed = 0; skip = 0; error = 0 }

-- A value, VAL_ERROR or an early return, or VAL_PANIC, which ends the simulation.
pub data Result {ℓ} (A : Type ℓ) : Type ℓ where
  ok : A → Result A
  err panic : Result A

abbrev pub Io : Type 0 → Type 0 → Type 0
Io W A = W → Result A × W

module _ {W : Type 0} where
  abbrev pub pure : {A : Type 0} → A → Io W A
  pure a w = (ok a, w)

  -- What follows a call that returns a value.
  abbrev pub continue : {A B : Type 0} → Result A × W → (A → Io W B) → Result B × W
  continue (ok a, w) f = f a w
  continue (err, w) f = (err, w)
  continue (panic, w) f = (panic, w)

  infixl 5 ◌>>=◌ ◌>>◌
  abbrev pub ◌>>=◌ : {A B : Type 0} → Io W A → (A → Io W B) → Io W B
  (m >>= f) w = continue (m w) f

  abbrev pub ◌>>◌ : {A B : Type 0} → Io W A → Io W B → Io W B
  m >> k = m >>= λ _. k

-- A status is 0 where the call succeeds.
pub record Env (W : Type 0) : Type 0 where
  pub nvm_write : Index → ℕ → W → ℕ × W
  pub nvm_read : Index → W → ℕ × ℕ × W
  pub wd_enable : W → ℕ × W
  pub wd_disable : W → ℕ × W
  pub clear_status : W → W
  pub is_reboot_run : ℕ → Bool
  pub reset_test_info : TestInfo → TestInfo
  pub reset_report : Report → Report
  pub test_start : ℕ
  pub test_end : ℕ
  pub test_fail : ℕ
  pub test_rebooting : ℕ
  pub invalid_test_num : ℕ

module _ {W : Type 0} (env : Env W) where
  -- A write whose failure panics, and one whose failure is handed on.
  unfoldable pub write_or_panic : Index → ℕ → Io W (Unit {0})
  write_or_panic i word w =
      let (status, w1) = env.nvm_write i word w in if status != 0 then (panic, w1) else (ok tt, w1)

  unfoldable pub write : Index → ℕ → Io W (Unit {0})
  write i word w =
      let (status, w1) = env.nvm_write i word w in if status != 0 then (err, w1) else (ok tt, w1)

  unfoldable pub read : Index → Io W ℕ
  read i w =
      let (status, word, w1) = env.nvm_read i w in if status != 0 then (err, w1) else (ok word, w1)

  unfoldable pub or_panic : (W → ℕ × W) → Io W (Unit {0})
  or_panic call w = let (status, w1) = call w in if status != 0 then (panic, w1) else (ok tt, w1)

  unfoldable pub test_init : Io W (Unit {0})
  test_init w =
      (write_or_panic test_progress env.test_start >> or_panic env.wd_enable) (env.clear_status w)

  unfoldable pub test_exit : Io W (Unit {0})
  test_exit = or_panic env.wd_disable >> write_or_panic test_progress env.test_end

  unfoldable pub reprogram_watchdog : Io W (Unit {0})
  reprogram_watchdog = or_panic env.wd_disable >> or_panic env.wd_enable

  unfoldable pub set_reboot_flag : Io W (Unit {0})
  set_reboot_flag = write_or_panic test_progress env.test_rebooting

  unfoldable pub reset_reboot_flag : Io W (Unit {0})
  reset_reboot_flag = write_or_panic test_progress env.test_fail

  unfoldable pub write_report : Report → Io W (Unit {0})
  write_report r = do
    write total_pass r.pass
    write total_fail r.failed
    write total_skip r.skip
    write total_error r.error

  unfoldable pub read_report : Io W Report
  read_report = do
    pass ← read total_pass
    failed ← read total_fail
    skip ← read total_skip
    error ← read total_error
    pure (record { pass = pass; failed = failed; skip = skip; error = error })

  unfoldable pub read_info : Io W TestInfo
  read_info = do
    suite ← read cur_suite_num
    test ← read cur_test_num
    last ← read end_test_num
    progress ← read test_progress
    pure (record { suite_num = suite; test_num = test; last_test_num = last; progress = progress })

  unfoldable pub write_info : TestInfo → Io W (Unit {0})
  write_info t = do
    write cur_suite_num t.suite_num
    write cur_test_num t.test_num
    write end_test_num t.last_test_num
    write test_progress t.progress

  unfoldable pub start_over : TestInfo → Io W TestInfo
  start_over info = do
    write_info (env.reset_test_info info)
    write_report (env.reset_report zero_report)
    pure (env.reset_test_info info)

  -- A start from power on, told by the progress word, resets what is kept.
  unfoldable pub get_last_run_test_info : Io W TestInfo
  get_last_run_test_info = do
    info ← read_info
    if env.is_reboot_run info.progress then pure info else start_over info
