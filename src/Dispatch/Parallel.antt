-- ===== src/Dispatch/Parallel.antt =====
-- The tests on other processors: `val_secondary_cpu_test_entry` on VM1 and
-- `val_get_multi_pe_test_status` of val/src/val_test_dispatch.c over `g_mp_state`.
use ff_a_acs.Base.{
  ℕ, zero, suc, ◌-◌, ◌≡◌, ◌==◌, ◌!=◌, ◌||◌, if◌then◌else◌, Option, none, some, arith, refl, false,
}

-- VAL_MP_STATE_INPROGRESS and its siblings of val/inc/val.h.
abbrev pub mp_state_inprogress : ℕ
mp_state_inprogress = 105

abbrev pub mp_state_complete : ℕ
mp_state_complete = 106

abbrev pub mp_state_wait : ℕ
mp_state_wait = 107

pub record MpState : Type 0 where
  pub current_test_num : ℕ
  pub other_pe_test_state : ℕ → ℕ
  pub other_pe_test_result : ℕ → ℕ

unfoldable pub set_at : (ℕ → ℕ) → ℕ → ℕ → ℕ → ℕ
set_at f i v j = if j == i then v else f j

-- `invalid` is VAL_STATUS_INVALID, of a header outside the repository; `sleep` is what the other
-- processors do to the state while this one sleeps for a millisecond.
module _ (invalid : ℕ) (sleep : MpState → MpState) where
  -- The two writes of a processor that runs its test, around the run.
  unfoldable pub secondary_begins : ℕ → MpState → MpState
  secondary_begins cpu s = record s {
    other_pe_test_state = set_at (s.other_pe_test_state) cpu mp_state_inprogress;
  }

  unfoldable pub secondary_ends : ℕ → ℕ → MpState → MpState
  secondary_ends cpu status s = record s {
    other_pe_test_result = set_at (s.other_pe_test_result) cpu status;
    other_pe_test_state = set_at (s.other_pe_test_state) cpu mp_state_complete;
  }

  -- The loop, on fuel, with its counter.
  unfoldable pub wait_for_pe : ℕ → ℕ → ℕ → MpState → Option MpState
  wait_for_pe zero cpu count s = none
  wait_for_pe (suc fuel) cpu count s =
      let rest = wait_for_pe fuel cpu (count - 1) (sleep s) in
      if (s.other_pe_test_state cpu != mp_state_inprogress) || (count == 5) then some s else rest

  -- The status of a test that is complete; `none` is a panic.
  unfoldable pub collect_status : ℕ → MpState → Option ℕ × MpState
  collect_status cpu s =
      if s.other_pe_test_state cpu == mp_state_complete
      then (
        some (s.other_pe_test_result cpu),
        record s {
          other_pe_test_state = set_at (s.other_pe_test_state) cpu mp_state_wait;
          other_pe_test_result = set_at (s.other_pe_test_result) cpu invalid;
        },
      )
      else (none, s)

  unfoldable pub get_multi_pe_test_status : ℕ → ℕ → ℕ → MpState → Option (Option ℕ × MpState)
  get_multi_pe_test_status fuel cpu test_num s =
      if s.current_test_num != test_num
      then some (none, s)
      else elim (wait_for_pe fuel cpu 5 s) [ none ↦ none | some t ↦ some (collect_status cpu t) ]

  wait_for_pe-at_once : (fuel cpu : ℕ) (s : MpState) → wait_for_pe (suc fuel) cpu 5 s ≡ some s
  unfolding wait_for_pe
  wait_for_pe-at_once fuel cpu s = ground arith

  not_equal : (a b : ℕ) → a ≡ b → (a != b) ≡ false
  not_equal a b e = ground arith

  -- The dispatcher does not wait for another processor: whatever that one would do meanwhile, the
  -- call gives what stands in the state at once, so it panics where the test is still in progress,
  -- with fuel for one round and the number of the current test.
  pub get_multi_pe_test_status_lem :
      (fuel cpu test_num : ℕ) (s : MpState)
      → s.current_test_num ≡ test_num
      → get_multi_pe_test_status (suc fuel) cpu test_num s ≡ some (collect_status cpu s)
  unfolding get_multi_pe_test_status
  get_multi_pe_test_status_lem fuel cpu test_num s e =
      rw (not_equal (s.current_test_num) test_num e, wait_for_pe-at_once fuel cpu s) refl
