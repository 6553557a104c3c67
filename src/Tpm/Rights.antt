-- ===== src/Tpm/Rights.antt =====
-- Who may register, unregister and finish, and what answer goes where.
use ff_a_acs.Base.{◌&&◌, ◌==◌, leb, if◌then◌else◌, ℕ, ◌≡◌, ◌≢◌, arith}
use ff_a_acs.Ffa.{Args, sender_id, receiver_id, direct_req_64, direct_resp_64}
use ff_a_acs.Tpm.State.{Platform, Service, crb_ok, u32}
use ff_a_acs.Tpm.Service.{
  notif_supported, apply_locality_request, start_locality_request, clear_registration,
}
use ff_a_acs.Tpm.Handler.{
  may_defer, handle_finish, handle_start, start_locality, start_command_request, feature_info,
  handle_register, handle_unregister, handle_request,
}
use ff_a_acs.Tpm.Valid.{start_command-SameControl}

-- The registration, the outstanding notification and the saved requests.
pub record Untouched {W : Type 0} (s t : Service W) : Type 0 where
  pub registered : t.registered ≡ s.registered
  pub client : t.client ≡ s.client
  pub service : t.service ≡ s.service
  pub id : t.id ≡ s.id
  pub outstanding : t.outstanding ≡ s.outstanding
  pub pending_locality_valid : t.pending_locality_valid ≡ s.pending_locality_valid
  pub pending_locality : t.pending_locality ≡ s.pending_locality
  pub pending_locality_ctrl : t.pending_locality_ctrl ≡ s.pending_locality_ctrl
  pub pending_command_valid : t.pending_command_valid ≡ s.pending_command_valid
  pub pending_command_locality : t.pending_command_locality ≡ s.pending_command_locality
  pub pending_command_size : t.pending_command_size ≡ s.pending_command_size
  pub pending_cmd : t.pending_cmd ≡ s.pending_cmd

module _ {W : Type 0} (p : Platform W) where
  -- Registration succeeds exactly if the endpoint supports notifications, no client is registered,
  -- the type word is 0 and the id is at most 255. Then the sender becomes the client, the receiver
  -- the service, and nothing is outstanding; otherwise the state is as before.
  pub handle_register_lem :
      (s : Service W) (a : Args) (sender receiver : ℕ)
      → let r = handle_register p s a sender receiver in
        let accepts =
          notif_supported p && ((s.registered == 0) && ((a.arg5 == 0) && leb a.arg6 255)) in
        ((r.status == crb_ok) ≡ accepts)
        × (r.state ≡ (
            if accepts
            then record s {
              client = sender;
              service = receiver;
              id = a.arg6;
              registered = 1;
              outstanding = 0;
            }
            else s))
  unfolding handle_register
  handle_register_lem s a sender receiver = ground arith

  handle_start-Untouched :
      (s : Service W) (a : Args) (sender receiver : ℕ)
      → s.client ≢ sender
      → Untouched s (handle_start p s a sender receiver).state
  unfolding handle_start start_locality start_command_request may_defer start_locality_request
      apply_locality_request
  handle_start-Untouched s a sender receiver n =
      ground (arith, start_command-SameControl p s (u32 a.arg6))

  handle_register-Untouched :
      (s : Service W) (a : Args) (sender receiver : ℕ)
      → s.registered ≢ 0
      → Untouched s (handle_register p s a sender receiver).state
  unfolding handle_register
  handle_register-Untouched s a sender receiver h = ground arith

  handle_unregister-Untouched :
      (s : Service W) (sender : ℕ)
      → s.client ≢ sender
      → Untouched s (handle_unregister p s sender).state
  unfolding handle_unregister
  handle_unregister-Untouched s sender n = ground arith

  handle_finish-Untouched :
      (s : Service W) (sender : ℕ)
      → s.client ≢ sender
      → Untouched s (handle_finish p s sender).state
  unfolding handle_finish
  handle_finish-Untouched s sender n = ground arith

  -- While a client is registered, a request of any other sender leaves the registration, the
  -- outstanding notification and every saved request alone.
  pub handle_request-foreign :
      (s : Service W) (a : Args)
      → s.registered ≢ 0
      → s.client ≢ sender_id a.arg1
      → Untouched s (handle_request p s a).1
  unfolding handle_request feature_info
  handle_request-foreign s a h n =
      let sender = sender_id a.arg1 in
      let receiver = receiver_id a.arg1 in
      ground (
        arith,
        handle_start-Untouched s a sender receiver n,
        handle_register-Untouched s a sender receiver h,
        handle_unregister-Untouched s sender n,
        handle_finish-Untouched s sender n,
      )

  -- The client that registers and then unregisters, with nothing started between, leaves the
  -- registration globals at their initial values.
  pub unregister-register :
      (s : Service W) (a : Args) (sender receiver : ℕ)
      → (handle_register p s a sender receiver).status ≡ crb_ok
      → let r = handle_unregister p (handle_register p s a sender receiver).state sender in
        (r.status ≡ crb_ok) × (r.state ≡ clear_registration s)
  unfolding handle_register handle_unregister
  unregister-register s a sender receiver h = ground arith

  -- Every answer goes back from the receiver to the sender of the request, and by the 64-bit call
  -- exactly if the request came by it.
  reply_routed :
      (s : Service W) (a : Args)
      → let out = (handle_request p s a).0 in
        (sender_id out.arg1 ≡ receiver_id a.arg1)
        × (receiver_id out.arg1 ≡ sender_id a.arg1)
        × ((out.fid == direct_resp_64) ≡ (a.fid == direct_req_64))
  unfolding handle_request
  reply_routed s a = (omega arith, omega arith, ground arith)
