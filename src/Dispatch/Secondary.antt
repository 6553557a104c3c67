-- ===== src/Dispatch/Secondary.antt =====
-- The loop of a secondary processor on an endpoint other than the dispatcher,
-- `val_sec_cpu_wait_for_test_fn_req` of val/src/val_test_dispatch.c: it runs server tests only.
use ff_a_acs.Base.{ℕ, zero, suc, ◌%◌, ◌^◌, ◌==◌, ◌!=◌, if◌then◌else◌, Option, none, some}
use ff_a_acs.Ffa.{Args, zero_args, direct_req_32}
use ff_a_acs.Ffa.Messages.{ffa_msg_wait, ffa_msg_send_direct_resp_32}
use ff_a_acs.Dispatch.{get_test_num, get_test_type}
use ff_a_acs.Dispatch.Serve.{Round, leave, panic, answer, answer_frame}

-- `server_fn` gives a test's function for secondary processors, where it has one.
module _ {W : Type 0} (server_fn : ℕ → Option (Args → W → ℕ × W)) where
  unfoldable pub sec_cpu_execute_server_test_fn : Args → W → Option ℕ × W
  sec_cpu_execute_server_test_fn a w = elim (server_fn (get_test_num a.arg3)) [
    | none ↦ (none, w)
    | some f ↦ let (status, w') = f a w in (some status, w')
  ]

  unfoldable pub sec_cpu_round : Args → W → Round W
  sec_cpu_round a w =
      let (status, w') = sec_cpu_execute_server_test_fn a w in
      if a.fid != direct_req_32
      then leave w
      else if get_test_type (a.arg3 % 2 ^ 32) == 1
      then elim status [ none ↦ panic w' | some s ↦ answer (answer_frame a s) w' ]
      else panic w

  unfoldable pub sec_cpu_loop : (W → Args → Args × W) → ℕ → Args × W → Option (Round W)
  sec_cpu_loop conduit zero (a, w) = none
  sec_cpu_loop conduit (suc fuel) (a, w) = elim (sec_cpu_round a w) [
    | answer f w' ↦ sec_cpu_loop conduit fuel (ffa_msg_send_direct_resp_32 conduit w' f)
    | leave w' ↦ some (leave w')
    | panic w' ↦ some (panic w')
  ]

  unfoldable pub sec_cpu_wait_for_test_fn_req : (W → Args → Args × W) → ℕ → W → Option (Round W)
  sec_cpu_wait_for_test_fn_req conduit fuel w =
      sec_cpu_loop conduit fuel (ffa_msg_wait conduit w zero_args)
