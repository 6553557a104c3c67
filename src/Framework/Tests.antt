-- ===== src/Framework/Tests.antt =====
-- A regression run of four tests, of which the third is not supported, in an environment that keeps
-- its memory and the tests that were run.
use ff_a_acs.Base.{
  ℕ, ◌+◌, ◌-◌, ◌≡◌, refl, arith, Bool, false, List, [], ◌∷◌, ◌==◌, ◌!=◌, leb, ◌&&◌, if◌then◌else◌,
}
use ff_a_acs.Framework.{
  Index, cur_suite_num, cur_test_num, end_test_num, test_progress, total_pass, total_fail,
  total_skip, total_error, zero_report, ok, Env,
}
use ff_a_acs.Framework.Run.{Suite, test_dispatch}
use ff_a_acs.Framework.Order.{IsSound, Runs}
use ff_a_acs.Framework.Course.{numbers, take_while, filter, push_all}
use ff_a_acs.Framework.Saved.{test_dispatch-resumed}

record World : Type 0 where
  words : Index → ℕ
  tests : List ℕ

abbrev number : Index → ℕ
number cur_suite_num = 0
number cur_test_num = 1
number end_test_num = 2
number test_progress = 3
number total_pass = 4
number total_fail = 5
number total_skip = 6
number total_error = 7

abbrev env : Env World
env = record {
  nvm_write = λ i x w. (0, record w { words = λ j. if number j == number i then x else w.words j });
  nvm_read = λ i w. (0, w.words i, w);
  wd_enable = λ w. (0, w);
  wd_disable = λ w. (0, w);
  clear_status = λ w. w;
  is_reboot_run = λ p. leb 1 p && leb p 4;
  reset_test_info =
      λ t. record { suite_num = 0; test_num = 999; last_test_num = 999; progress = 0 };
  reset_report = λ r. zero_report;
  test_start = 1;
  test_end = 2;
  test_fail = 3;
  test_rebooting = 4;
  invalid_test_num = 999;
}

abbrev supported : ℕ → Bool
supported i = i != 3

abbrev suite : Suite World
suite = record {
  env = env;
  total_tests = 5;
  has_entry = λ i. leb i 4;
  suite_of = λ i. 0;
  is_start = λ i. i == 1;
  is_end = λ i. i == 4;
  sort_indices = λ a b. (a, b);
  sync = λ w. (ok tt, w);
  set_current = λ i w. w;
  is_supported = λ i w. (supported i, w);
  run_entry = λ i w. record w { tests = i ∷ w.tests };
  handle_reboot_result = λ p w. w;
  report_status = λ w. (0, w);
  update_report = λ result r. record r { pass = r.pass + 1 };
}

suite-IsSound : IsSound suite (λ w. w.words) (λ w. w.tests) supported
suite-IsSound = record {
  write_status = λ i x w. refl;
  write_ran = λ i x w. refl;
  read_status = λ i w. refl;
  read_word = λ i w. refl;
  read_ran = λ i w. refl;
  read_mem = λ i w. refl;
  enable_status = λ w. refl;
  enable_ran = λ w. refl;
  disable_status = λ w. refl;
  disable_ran = λ w. refl;
  clear_ran = λ w. refl;
  sync_ok = λ w. refl;
  sync_ran = λ w. refl;
  sync_mem = λ w. refl;
  current_ran = λ i w. refl;
  supported_is = λ i w. refl;
  supported_ran = λ i w. refl;
  entry_ran = λ i w. refl;
  reboot_ran = λ p w. refl;
  report_ran = λ w. refl;
}

-- After power on the words are not those of a run.
abbrev power_on : World
power_on = record { words = λ _. 77; tests = [] }

-- The reset came in test 1 of 5.
abbrev after_reset : World
after_reset = record {
  words = λ i. if number i == 1 then 1 else if number i == 2 then 5 else 4;
  tests = [];
}

test_dispatch-resumed_example : Runs (test_dispatch suite false) after_reset (λ _ w'.
    w'.tests ≡ push_all (filter supported (take_while (λ i. leb i 4) (numbers (5 - 1) (1 + 1)))) [])
test_dispatch-resumed_example =
    test_dispatch-resumed suite (λ w. w.words) (λ w. w.tests) supported suite-IsSound after_reset
      refl (omega arith) (omega arith) refl

-- The tests of the first run, the latest first.
three_tests :
    push_all (filter supported (take_while (λ i. leb i 4) (numbers 5 1))) [] ≡ 4 ∷ 2 ∷ 1 ∷ []
unfolding push_all filter take_while numbers
three_tests = refl
