-- ===== src/Dispatch/Delegate.antt =====
-- A test whose client runs on another endpoint: the dispatcher's `val_execute_test` and that
-- endpoint's `val_wait_for_test_fn_req` together.
use ff_a_acs.Base.{ℕ, ◌%◌, ◌^◌, ◌<◌, ◌≡◌, ◌≢◌, ◌==◌, false, refl, arith, ◌∙◌, some}
use ff_a_acs.Ffa.{Args, direct_req_32, receiver_id, endpoints}
use ff_a_acs.Ffa.Messages.{ffa_msg_send_direct_req_32}
use ff_a_acs.Ffa.Session.{val_success, get_curr_endpoint_id}
use ff_a_acs.Dispatch.{test_run_data, get_test_num, get_test_type}
use ff_a_acs.Dispatch.Serve.{
  Node, answer, answer_frame, serve_round, serve_test, execute_client_test_fn, execute_test_fn,
}
use ff_a_acs.Dispatch.Execute.{
  Master, vm1, validate_test_config, result_of, conclude, reply_status, run_request, request_client,
  start_client, execute_test,
}

-- The firmware tells the dispatcher its id, and brings a direct request whose receiver is the endpoint
-- `node_id` to that endpoint's loop and the answer back. Of requests to others it says nothing.
pub record Relays {W : Type 0} (d : Master W) (n : Node W) (my_id node_id : ℕ) : Type 0 where
  pub identify : (w : W) → get_curr_endpoint_id (d.conduit) w ≡ (some my_id, w)
  pub relay :
      (a f : Args) (w t : W)
      → a.fid ≡ direct_req_32
      → receiver_id a.arg1 ≡ node_id
      → serve_round n a w ≡ answer f t
      → d.conduit w a ≡ (f, t)

-- A request for a client test that no service id hides.
pub record IsTestRun (a : Args) (run_data : ℕ) : Type 0 where
  pub fid : a.fid ≡ direct_req_32
  pub word : a.arg3 ≡ run_data
  pub small : run_data < 2 ^ 32
  pub low : run_data % 2048 < 1024
  pub type : get_test_type run_data ≡ 0

low_word : (x y : ℕ) → x ≡ y → y < 2 ^ 32 → x % 2 ^ 32 ≡ y
low_word x y e h = omega arith

not_equal : (a b : ℕ) → a ≢ b → (a == b) ≡ false
not_equal a b h = ground arith

module _ {W : Type 0} (n : Node W) (a : Args) (run_data : ℕ) (r : IsTestRun a run_data) where
  serve_round-test : (w : W) → serve_round n a w ≡ serve_test n a w
  unfolding serve_round
  serve_round-test w = ground (arith, r.fid, r.word, r.small, r.low)

  execute_test_fn-client :
      (f : ℕ → W → ℕ × W) (status : ℕ) (w t : W)
      → n.client_fn (get_test_num run_data) ≡ some f
      → f run_data w ≡ (status, t)
      → execute_test_fn n a w ≡ (some status, t)
  unfolding execute_test_fn execute_client_test_fn
  execute_test_fn-client f status w t e ef =
      let word = low_word (a.arg3) run_data (r.word) (r.small) in
      rw (word, r.type, execute_client_test_fn, e, word, ef) refl

  serve_test-client :
      (f : ℕ → W → ℕ × W) (status : ℕ) (w t : W)
      → n.client_fn (get_test_num run_data) ≡ some f
      → f run_data w ≡ (status, t)
      → serve_test n a w ≡ answer (answer_frame a status) t
  unfolding serve_test
  serve_test-client f status w t e ef =
      let run = execute_test_fn-client f status w t e ef in rw (serve_test, run, run) refl

received : (from to id : ℕ) → to ≡ id → id < 65536 → receiver_id (endpoints from to) ≡ id
received from to id e l = omega (arith, e, l)

module _ {W : Type 0} (d : Master W) (n : Node W) (my_id node_id : ℕ)
    (relays : Relays d n my_id node_id) (id16 : node_id < 65536) where
  unfoldable sent : ℕ → ℕ → Args
  sent client run_data = record (run_request d my_id client run_data) { fid = direct_req_32 }

  request-relayed :
      (client run_data : ℕ) (f : Args) (w t : W)
      → d.endpoint_id client ≡ node_id
      → serve_round n (sent client run_data) w ≡ answer f t
      → ffa_msg_send_direct_req_32 (d.conduit) w (run_request d my_id client run_data) ≡ (f, t)
  unfolding ffa_msg_send_direct_req_32 run_request sent
  request-relayed client run_data f w t same e =
      relays.relay (sent client run_data) f w t refl
        (received my_id (d.endpoint_id client) node_id same id16) e

  answer_status :
      (a : Args) (status : ℕ) → status < 2 ^ 32 → reply_status d (answer_frame a status) ≡ status
  unfolding reply_status answer_frame
  answer_status a status h = omega arith

  request_client-served :
      (client run_data : ℕ) (f : ℕ → W → ℕ × W) (status : ℕ) (w t : W)
      → d.endpoint_id client ≡ node_id
      → run_data < 2 ^ 32
      → run_data % 2048 < 1024
      → get_test_type run_data ≡ 0
      → n.client_fn (get_test_num run_data) ≡ some f
      → f run_data w ≡ (status, t)
      → status < 2 ^ 32
      → request_client d client run_data w ≡ some (status, t)
  unfolding request_client sent run_request
  request_client-served client run_data f status w t at small low type e ef ok =
      let a = sent client run_data in
      let r : IsTestRun a run_data = record {
        fid = refl;
        word = refl;
        small = small;
        low = low;
        type = type;
      } in
      let served =
        request-relayed client run_data (answer_frame a status) w t at (
          serve_round-test n a run_data r w ∙ serve_test-client n a run_data r f status w t e ef) in
      rw (request_client, relays.identify w, relays.identify w, served, answer_status a status ok)
        refl

  -- A test that the configuration allows, whose client and server are not VM1, and whose client is the
  -- endpoint of a node that has a function for it, where the run's word is one of 32 bits, does not look
  -- like a service id and asks for a client, and the firmware brings requests for that endpoint's id to
  -- the node: the dispatcher gets what it makes of the 32-bit status that this function returns there,
  -- and keeps it.
  pub execute_test-delegated :
      (test_num client server run_data : ℕ) (f : ℕ → W → ℕ × W) (status : ℕ) (w t : W)
      → client ≢ vm1
      → server ≢ vm1
      → d.endpoint_id client ≡ node_id
      → validate_test_config d client server ≡ val_success
      → test_run_data test_num client server 0 ≡ run_data
      → run_data < 2 ^ 32
      → run_data % 2048 < 1024
      → get_test_type run_data ≡ 0
      → n.client_fn (get_test_num run_data) ≡ some f
      → f run_data w ≡ (status, t)
      → status < 2 ^ 32
      → execute_test d test_num client server w
        ≡ some (result_of d status, d.set_status t (result_of d status))
  unfolding execute_test start_client conclude
  execute_test-delegated test_num client server run_data f status w t nc ns at valid word small low
        type e ef ok =
      rw
        (
          execute_test,
          valid,
          start_client,
          word,
          not_equal client vm1 nc,
          not_equal server vm1 ns,
          request_client-served client run_data f status w t at small low type e ef ok,
        )
        refl
