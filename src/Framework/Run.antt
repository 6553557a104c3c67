-- ===== src/Framework/Run.antt =====
-- `val_test_dispatch` of val/src/val_test_dispatch.c: the tests of the list one by one, from the first
-- one after power on or from the one in which the system was reset. The list of tests and what else
-- the file calls is the record `Suite`.
use ff_a_acs.Base.{ℕ, zero, suc, ◌+◌, ◌-◌, Bool, true, false, ◌==◌, if◌then◌else◌}
use ff_a_acs.Framework.{
  Report, zero_report, TestInfo, Io, Result, ok, pure, ◌>>=◌, ◌>>◌, Env, cur_suite_num,
  cur_test_num, end_test_num, write, read_report, write_report, get_last_run_test_info, test_init,
  test_exit,
}

-- The entries of `test_list` by their number: whether there is a function, the suite, and whether the
-- name is a given one. `sync` is `val_send_sync_ep_info`, which may panic; `is_supported` is
-- `val_check_test_abi_support`.
pub record Suite (W : Type 0) : Type 0 where
  pub env : Env W
  pub open env use *
  pub total_tests : ℕ
  pub has_entry : ℕ → Bool
  pub suite_of : ℕ → ℕ
  pub is_start : ℕ → Bool
  pub is_end : ℕ → Bool
  pub sort_indices : ℕ → ℕ → ℕ × ℕ
  pub sync : W → Result (Unit {0}) × W
  pub set_current : ℕ → W → W
  pub is_supported : ℕ → W → Bool × W
  pub run_entry : ℕ → W → W
  pub handle_reboot_result : ℕ → W → W
  pub report_status : W → ℕ × W
  pub update_report : ℕ → Report → Report

-- What the loop keeps between its rounds; the suite it keeps is the one of the test.
pub record Round : Type 0 where
  pub reboot : Bool
  pub report : Report

-- The loops over the list in the build with a range: the last of `n` tests from `t` on that passes.
unfoldable pub last_match : (ℕ → Bool) → (n t found : ℕ) → ℕ
last_match is zero t found = found
last_match is (suc n) t found = last_match is n (t + 1) (if is t then t else found)

module _ {W : Type 0} (s : Suite W) where
  unfoldable pub do_step : (W → W) → Io W (Unit {0})
  do_step f w = (ok tt, f w)

  unfoldable pub ask : {A : Type 0} → (W → A × W) → Io W A
  ask f w = let (a, w1) = f w in (ok a, w1)

  -- A test that was run, from its result on.
  unfoldable pub account : Io W Report
  account = do
    result ← ask s.report_status
    old ← read_report s.env
    write_report s.env (s.update_report result old)
    pure (s.update_report result old)

  unfoldable pub start_test : ℕ → Io W Bool
  start_test i = do test_init s.env; do_step (s.run_entry i); test_exit s.env; pure true

  -- A test that the firmware does not support is left without a result.
  unfoldable pub attempt : ℕ → Io W Bool
  attempt i = do
    do_step (s.set_current i)
    supported ← ask (s.is_supported i)
    if supported then start_test i else pure false

  unfoldable pub run_test : ℕ → Io W Bool
  run_test i = do write s.env cur_suite_num (s.suite_of i); write s.env cur_test_num i; attempt i

  -- The round in which a run goes on after a reset looks at the test's progress and does not run it.
  unfoldable pub reboot_round : (progress : ℕ) → Io W Round
  reboot_round progress = do
    do_step (s.handle_reboot_result progress)
    report ← account
    pure (record { reboot = false; report = report })

  unfoldable pub plain_round : Round → Bool → Io W Round
  plain_round r false = pure r
  plain_round r true = do report ← account; pure (record { reboot = false; report = report })

  unfoldable pub round : (progress i : ℕ) → Round → Io W Round
  round progress i r = if r.reboot then reboot_round progress else (run_test i >>= plain_round r)

  -- The rounds for the `n` tests from `i` on, up to the end of the list.
  unfoldable pub rounds : (progress n i : ℕ) → Round → Io W Report
  rounds progress zero i r = pure r.report
  rounds progress (suc n) i r =
      let rest = round progress i r >>= rounds progress n (i + 1) in
      if s.has_entry i then rest else pure r.report

  -- The first and the last number after power on, from test 1 on.
  unfoldable pub whole_range : (ranged : Bool) → ℕ × ℕ
  whole_range false = (1, s.total_tests)
  whole_range true =
      s.sort_indices (last_match s.is_start (s.total_tests - 1 - 1) 1 0)
        (last_match s.is_end (s.total_tests - 1 - 1) 1 0)

  unfoldable pub run_range : (first last progress : ℕ) → Bool → Io W Report
  run_range first last progress reboot =
      rounds progress (last + 1 - first) first (record { reboot = reboot; report = zero_report })

  unfoldable pub fresh_run : (ranged : Bool) → TestInfo → Io W Report
  fresh_run ranged info = do
    write s.env end_test_num (whole_range ranged).1
    run_range (whole_range ranged).0 (whole_range ranged).1 info.progress false

  unfoldable pub resumed_run : TestInfo → Io W Report
  resumed_run info = run_range info.test_num info.last_test_num info.progress true

  -- The report that is printed at the end.
  unfoldable pub test_dispatch : (ranged : Bool) → Io W Report
  test_dispatch ranged = do
    s.sync
    info ← get_last_run_test_info s.env
    if info.test_num == s.env.invalid_test_num then fresh_run ranged info else resumed_run info
