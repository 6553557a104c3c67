-- ===== src/Dispatch/Tests.antt =====
-- Runs of the dispatcher, and its theorems at them.
use ff_a_acs.Base.{ℕ, ◌+◌, bit_or, ◌≡◌, ◌==◌, true, false, refl, arith, some, none, if◌then◌else◌}
use ff_a_acs.Ffa.{Args, zero_args, direct_req_32, receiver_id}
use ff_a_acs.Ffa.Call.{ffa_smccc}
use ff_a_acs.Ffa.Session.{get_curr_endpoint_id}
use ff_a_acs.Nvm.{Driver, Caller}
use ff_a_acs.Dispatch.{test_run_data, get_test_num, get_test_type}
use ff_a_acs.Dispatch.Serve.{Node, Round, answer, leave, panic, serve_round}
use ff_a_acs.Dispatch.Execute.{Master, validate_test_config, result_of, execute_test}
use ff_a_acs.Dispatch.Delegate.{Relays, execute_test-delegated}
use ff_a_acs.Dispatch.Parallel.{
  MpState, mp_state_inprogress, collect_status, get_multi_pe_test_status,
  get_multi_pe_test_status_lem,
}

-- SP1, whose memory is one word, the world itself, and whose test 7 succeeds.
abbrev cell : Driver ℕ
cell = record {
  nvm_write = λ offset word w. (0, word);
  nvm_read = λ offset w. (0, w, w);
  send_direct_req = λ a w. (zero_args, w);
}

abbrev sp1_caller : Caller
sp1_caller = record {
  is_sp1 = true;
  endpoint_id = 0x8001;
  sp1_id = 0x8001;
  nvm_write_service = 0xffaa;
  nvm_read_service = 0xffbb;
}

abbrev sp1_node : Node ℕ
sp1_node = record {
  driver = cell;
  caller = sp1_caller;
  nvm_size = 64;
  wd_enable = λ w. (0, w);
  wd_disable = λ w. (0, w);
  sync_ep_info = λ a w. w;
  client_fn = λ n. if n == 7 then some (λ x w. (0, w + 1)) else none;
  server_fn = λ n. none;
}

-- What comes back to the sender of a request.
abbrev outcome : Round ℕ → Args × ℕ
outcome (answer f t) = (f, t)
outcome (leave t) = (zero_args, t)
outcome (panic t) = (zero_args, t)

outcome-answer : (r : Round ℕ) (f : Args) (t : ℕ) → r ≡ answer f t → outcome r ≡ (f, t)
outcome-answer r f t e = rw e refl

-- The dispatcher over firmware that knows its id and brings requests for SP1 there.
abbrev firmware : ℕ → Args → Args × ℕ
firmware w a =
    if a.fid == direct_req_32
    then if receiver_id a.arg1 == 0x8001 then outcome (serve_round sp1_node a w) else (zero_args, w)
    else (record zero_args { arg2 = 1 }, w)

abbrev master : Master ℕ
master = record {
  config = record {
    multi_vm = true;
    has_sp = true;
    sp_and_spmc_el1 = false;
    sp_sends_direct_req = true;
    vm_sends_direct_resp = true;
  };
  conduit = firmware;
  ep_present = λ i. true;
  endpoint_id = λ i. 0x8000 + i;
  client_test = λ n. none;
  set_status = λ w r. w;
  skip_check = 2;
  result_skip = λ s. s + 512;
  result_pass = λ s. s + 256;
  result_fail = λ s. s + 768;
}

matches : (x y : ℕ) → x ≡ y → (x == y) ≡ true
matches x y e = ground arith

firmware-request :
    (a f : Args) (w t : ℕ)
    → a.fid ≡ direct_req_32
    → receiver_id a.arg1 ≡ 0x8001
    → serve_round sp1_node a w ≡ answer f t
    → firmware w a ≡ (f, t)
firmware-request a f w t e i r =
    rw (matches a.fid direct_req_32 e, matches (receiver_id a.arg1) 0x8001 i)
      (outcome-answer (serve_round sp1_node a w) f t r)

identified : (w : ℕ) → get_curr_endpoint_id firmware w ≡ (some 1, w)
unfolding get_curr_endpoint_id ffa_smccc
identified w = refl

abbrev master-Relays : Relays master sp1_node 1 0x8001
master-Relays = record { identify = identified; relay = firmware-request }

execute_test-delegated_example : execute_test master 7 1 0 0 ≡ some (result_of master 0, 1)
unfolding validate_test_config test_run_data bit_or get_test_type get_test_num
execute_test-delegated_example =
    execute_test-delegated master sp1_node 1 0x8001 master-Relays (omega arith) 7 1 0 2055
      (λ x w. (0, w + 1)) 0 0 1 (omega arith) (omega arith) refl refl refl (omega arith)
      (omega arith) refl refl refl (omega arith)

-- A processor that would be ready after one millisecond.
abbrev running : MpState
running = record {
  current_test_num = 7;
  other_pe_test_state = λ i. mp_state_inprogress;
  other_pe_test_result = λ i. 0;
}

waits_for_nobody :
    get_multi_pe_test_status 255 (λ s. s) 6 1 7 running
    ≡ some (collect_status 255 (λ s. s) 1 running)
waits_for_nobody = get_multi_pe_test_status_lem 255 (λ s. s) 5 1 7 running refl
