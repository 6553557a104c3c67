-- ===== src/Dispatch/Serve.antt =====
-- `val_wait_for_test_fn_req`: the loop in which an endpoint other than the dispatcher serves the
-- requests that it gets, in the build without the TPM. A panic ends the simulation.
use ff_a_acs.Base.{ℕ, zero, suc, ◌%◌, ◌^◌, ◌==◌, ◌!=◌, if◌then◌else◌, Option, none, some}
use ff_a_acs.Ffa.{Args, zero_args, direct_req_32, direct_resp_32, sender_id, receiver_id, endpoints}
use ff_a_acs.Ffa.Messages.{ffa_msg_wait, ffa_msg_send_direct_resp_32}
use ff_a_acs.Nvm.{Driver, Caller, nvmem_write, nvmem_read}
use ff_a_acs.Dispatch.{get_test_num, get_test_type}

-- The endpoint: its non-volatile memory, its watchdog, the endpoint table's update, and the test
-- functions, which are `none` where the test has none.
pub record Node (W : Type 0) : Type 0 where
  pub driver : Driver W
  pub caller : Caller
  pub nvm_size : ℕ
  pub wd_enable : W → ℕ × W
  pub wd_disable : W → ℕ × W
  pub sync_ep_info : Args → W → W
  pub client_fn : ℕ → Option (ℕ → W → ℕ × W)
  pub server_fn : ℕ → Option (Args → W → ℕ × W)

-- One round: the loop is left, the simulation ends, or an answer is sent.
pub data Round (W : Type 0) : Type 0 where
  leave : W → Round W
  panic : W → Round W
  answer : Args → W → Round W

-- NVM_WRITE_SERVICE to EP_INFO_SYNC_SERVICE of val/inc/val.h.
abbrev pub nvm_write_service : ℕ
nvm_write_service = 0xffaa

abbrev pub nvm_read_service : ℕ
nvm_read_service = 0xffbb

abbrev pub wd_enable_service : ℕ
wd_enable_service = 0xffcc

abbrev pub wd_disable_service : ℕ
wd_disable_service = 0xffdd

abbrev pub ep_info_sync_service : ℕ
ep_info_sync_service = 0xffee

-- The answer to a request, from its receiver to its sender.
unfoldable pub answer_frame : Args → ℕ → Args
answer_frame a value = record zero_args {
  fid = direct_resp_32;
  arg1 = endpoints (receiver_id a.arg1) (sender_id a.arg1);
  arg3 = value;
}

module _ {W : Type 0} (n : Node W) where
  unfoldable pub execute_client_test_fn : ℕ → W → Option ℕ × W
  execute_client_test_fn run_data w = elim (n.client_fn (get_test_num run_data)) [
    | none ↦ (none, w)
    | some f ↦ let (status, w') = f run_data w in (some status, w')
  ]

  unfoldable pub execute_server_test_fn : Args → W → Option ℕ × W
  execute_server_test_fn a w = elim (n.server_fn (get_test_num a.arg3)) [
    | none ↦ (none, w)
    | some f ↦ let (status, w') = f a w in (some status, w')
  ]

  unfoldable pub serve_write : Args → W → Round W
  serve_write a w =
      let (status, w') =
        nvmem_write (n.driver) (n.caller) (n.nvm_size) (a.arg4 % 2 ^ 32) (some (a.arg6 % 2 ^ 32))
          (a.arg5) w in
      if status != 0 then panic w' else answer (answer_frame a 0) w'

  -- The buffer is not set before the read; the model starts it with 0.
  unfoldable pub serve_read : Args → W → Round W
  serve_read a w =
      let (status, buffer, w') =
        nvmem_read (n.driver) (n.caller) (n.nvm_size) (a.arg4 % 2 ^ 32) (some 0) (a.arg5) w in
      if status != 0
      then panic w'
      else answer (answer_frame a (elim buffer [ none ↦ 0 | some word ↦ word ])) w'

  -- A watchdog call of either kind.
  unfoldable pub serve_watchdog : (W → ℕ × W) → Args → W → Round W
  serve_watchdog call a w =
      let (status, w') = call w in if status != 0 then panic w' else answer (answer_frame a 0) w'

  -- The test function that the word names; none where there is none.
  unfoldable pub execute_test_fn : Args → W → Option ℕ × W
  execute_test_fn a w =
      if get_test_type (a.arg3 % 2 ^ 32) == 1
      then execute_server_test_fn a w
      else execute_client_test_fn (a.arg3 % 2 ^ 32) w

  unfoldable pub serve_test : Args → W → Round W
  serve_test a w =
      let (status, w') = execute_test_fn a w in
      elim status [ none ↦ panic w' | some s ↦ answer (answer_frame a s) w' ]

  unfoldable pub serve_round : Args → W → Round W
  serve_round a w =
      let service = a.arg3 % 2 ^ 32 % 65536 in
      if a.fid != direct_req_32
      then leave w
      else if service == nvm_write_service
      then serve_write a w
      else if service == nvm_read_service
      then serve_read a w
      else if service == wd_enable_service
      then serve_watchdog (n.wd_enable) a w
      else if service == wd_disable_service
      then serve_watchdog (n.wd_disable) a w
      else if service == ep_info_sync_service
      then answer (answer_frame a 0) (n.sync_ep_info a w)
      else serve_test a w

  -- The loop behind a request, on fuel: sending an answer also waits for the next request.
  unfoldable pub serve_loop : (W → Args → Args × W) → ℕ → Args × W → Option (Round W)
  serve_loop conduit zero (a, w) = none
  serve_loop conduit (suc fuel) (a, w) = elim (serve_round a w) [
    | answer f w' ↦ serve_loop conduit fuel (ffa_msg_send_direct_resp_32 conduit w' f)
    | leave w' ↦ some (leave w')
    | panic w' ↦ some (panic w')
  ]

  unfoldable pub wait_for_test_fn_req : (W → Args → Args × W) → ℕ → W → Option (Round W)
  wait_for_test_fn_req conduit fuel w = serve_loop conduit fuel (ffa_msg_wait conduit w zero_args)
