-- ===== src/Dispatch/Execute.antt =====
-- How the dispatcher starts a test: `val_execute_test`, the check of the endpoints before it, and
-- the calls between client and server, of val/src/val_test_dispatch.c in the build without the TPM.
use ff_a_acs.Base.{
  ℕ, ◌%◌, ◌^◌, Bool, not, ◌&&◌, ◌||◌, ◌==◌, ◌!=◌, ltb, leb, if◌then◌else◌, Option, none, some,
}
use ff_a_acs.Ffa.{Args, zero_args, direct_resp_32, endpoints}
use ff_a_acs.Ffa.Messages.{ffa_msg_send_direct_req_32, ffa_msg_send_direct_resp_32}
use ff_a_acs.Ffa.Session.{val_success, val_error, get_curr_endpoint_id}
use ff_a_acs.Dispatch.{
  test_run_data, get_client_logic_id, get_server_logic_id, add_test_type, get_test_num,
}

-- The logical ids of val/inc/val_def.h.
abbrev pub no_server_ep : ℕ
no_server_ep = 0

abbrev pub sp1 : ℕ
sp1 = 1

abbrev pub sp2 : ℕ
sp2 = 2

abbrev pub sp3 : ℕ
sp3 = 3

abbrev pub sp4 : ℕ
sp4 = 4

abbrev pub vm1 : ℕ
vm1 = 5

abbrev pub vm2 : ℕ
vm2 = 6

abbrev pub vm3 : ℕ
vm3 = 7

-- The platform's switches.
pub record Config : Type 0 where
  pub multi_vm : Bool  -- PLATFORM_NS_HYP_MULTI_VM
  pub has_sp : Bool  -- PLATFORM_SP_EL is not -1
  pub sp_and_spmc_el1 : Bool
  pub sp_sends_direct_req : Bool
  pub vm_sends_direct_resp : Bool

-- The dispatcher's endpoint. VAL_SKIP_CHECK and the RESULT macros come from a header outside the
-- repository.
pub record Master (W : Type 0) : Type 0 where
  pub config : Config
  pub conduit : W → Args → Args × W
  pub ep_present : ℕ → Bool
  pub endpoint_id : ℕ → ℕ
  pub client_test : ℕ → Option (ℕ → W → ℕ × W)
  pub set_status : W → ℕ → W
  pub skip_check : ℕ
  pub result_skip : ℕ → ℕ
  pub result_pass : ℕ → ℕ
  pub result_fail : ℕ → ℕ

unfoldable pub either_is : ℕ → ℕ → ℕ → Bool
either_is client server id = (client == id) || (server == id)

module _ {W : Type 0} (d : Master W) where
  unfoldable pub check_ep_compile_status : ℕ → ℕ → ℕ
  check_ep_compile_status client server =
      if not (d.ep_present client) || (not (d.ep_present server) && (server != no_server_ep))
      then d.skip_check
      else val_success

  unfoldable pub validate_test_config : ℕ → ℕ → ℕ
  unfolding check_ep_compile_status either_is
  validate_test_config client server =
      if not (d.config.multi_vm) && (either_is client server vm2 || either_is client server vm3)
      then d.skip_check
      else if not (d.config.has_sp)
          && (either_is client server sp1
              || (either_is client server sp2
                  || (either_is client server sp3 || either_is client server sp4)))
      then d.skip_check
      else if d.config.sp_and_spmc_el1
          && (either_is client server sp2
              || (either_is client server sp3 || either_is client server sp4))
      then d.skip_check
      else if not (d.config.sp_sends_direct_req) && (leb client sp4 && (server != no_server_ep))
      then d.skip_check
      else if not (d.config.vm_sends_direct_resp) && (ltb sp4 server && (server != no_server_ep))
      then d.skip_check
      else check_ep_compile_status client server

  -- What the caller gets, which is also what is kept as the test's status.
  unfoldable pub result_of : ℕ → ℕ
  result_of status =
      if status == d.skip_check
      then d.result_skip status
      else if status == val_success
      then d.result_pass status
      else d.result_fail status

  unfoldable pub conclude : ℕ × W → ℕ × W
  conclude (status, w) = (result_of status, d.set_status w (result_of status))

  -- What the dispatcher makes of the answer of the endpoint that ran the client.
  unfoldable pub reply_status : Args → ℕ
  reply_status payload = if payload.fid == direct_resp_32 then payload.arg3 % 2 ^ 32 else val_error

  unfoldable pub run_request : ℕ → ℕ → ℕ → Args
  run_request my_id client run_data = record zero_args {
    arg1 = endpoints my_id (d.endpoint_id client);
    arg3 = run_data;
  }

  -- A client on another endpoint; `none` is a panic.
  unfoldable pub request_client : ℕ → ℕ → W → Option (ℕ × W)
  request_client client run_data w =
      let (id, w1) = get_curr_endpoint_id (d.conduit) w in
      elim id [
        | none ↦ none
        | some my_id ↦
            let (payload, w2) =
              ffa_msg_send_direct_req_32 (d.conduit) w1 (run_request my_id client run_data) in
            some (reply_status payload, w2)
      ]

  unfoldable pub execute_client_here : ℕ → W → Option (ℕ × W)
  execute_client_here run_data w = elim (d.client_test (get_test_num run_data)) [
    | none ↦ none
    | some f ↦ some (f run_data w)
  ]

  unfoldable pub start_client : ℕ → ℕ → ℕ → W → Option (ℕ × W)
  start_client client server run_data w =
      if client == vm1
      then execute_client_here run_data w
      else if server == vm1
      then some (val_error, w)
      else request_client client run_data w

  unfoldable pub execute_test : ℕ → ℕ → ℕ → W → Option (ℕ × W)
  execute_test test_num client server w =
      let run_data = test_run_data test_num client server 0 in
      let status = validate_test_config client server in
      if status != val_success
      then some (conclude (status, w))
      else elim (start_client client server run_data w) [ none ↦ none | some r ↦ some (conclude r) ]

  -- The frame that a client sends to its server, and the one that the server answers with.
  unfoldable pub select_server_fn_direct : ℕ → ℕ → ℕ → ℕ → ℕ → W → Args × W
  select_server_fn_direct run_data x4 x5 x6 x7 w =
      let client = get_client_logic_id run_data in
      let server = get_server_logic_id run_data in
      ffa_msg_send_direct_req_32 (d.conduit) w (record zero_args {
        arg1 = endpoints (d.endpoint_id client) (d.endpoint_id server);
        arg3 = add_test_type run_data 1;
        arg4 = x4;
        arg5 = x5;
        arg6 = x6;
        arg7 = x7;
      })

  unfoldable pub resp_client_fn_direct : ℕ → ℕ → ℕ → ℕ → ℕ → ℕ → W → Args × W
  resp_client_fn_direct run_data x3 x4 x5 x6 x7 w =
      let client = get_client_logic_id run_data in
      let server = get_server_logic_id run_data in
      ffa_msg_send_direct_resp_32 (d.conduit) w (record zero_args {
        arg1 = endpoints (d.endpoint_id server) (d.endpoint_id client);
        arg3 = x3;
        arg4 = x4;
        arg5 = x5;
        arg6 = x6;
        arg7 = x7;
      })
