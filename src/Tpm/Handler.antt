-- ===== src/Tpm/Handler.antt =====
-- `val_tpm_crb_service_is_request` and `val_tpm_crb_service_handle_request`, a function for each
-- service call.
use ff_a_acs.Base.{ℕ, ◌/◌, ◌%◌, Bool, not, ◌&&◌, ◌||◌, ltb, ◌==◌, ◌!=◌, if◌then◌else◌}
use ff_a_acs.Ffa.{
  Args, zero_args, direct_req_32, direct_req_64, direct_resp_32, direct_resp_64, sender_id,
  receiver_id, endpoints,
}
use ff_a_acs.Tpm.Mmio.{
  read32, write32, loc_ctrl, data_buffer, data_buffer_size, locality_max, be32_read, copy_from_mmio,
}
use ff_a_acs.Tpm.State.{
  Platform, Service, zero_buffer, u32, crb_ok, crb_ok_results_returned, crb_nofunc, crb_notsup,
  crb_invarg, crb_already, crb_denied, get_interface_version, get_feature_info, start,
  register_notification, unregister_notification, finish_notified, feature_notification,
  service_version,
}
use ff_a_acs.Tpm.Service.{
  Ran, failed, notif_supported, command_notify_eligible, apply_locality_request,
  start_locality_request, clear_registration, signal_notification, start_command,
  complete_pending_command,
}

-- `payload == NULL` does not occur: both callers pass the address of a variable.
unfoldable pub is_request : Args → Bool
is_request a =
    ((a.fid == direct_req_64) || (a.fid == direct_req_32)) && (u32 a.arg4 / 65536 == 0x0f00)

module _ {W : Type 0} where
  -- The client that registered is calling, and no notification is outstanding.
  unfoldable pub may_defer : Service W → ℕ → ℕ → Bool
  may_defer s sender receiver =
      (s.registered != 0)
      && ((s.client == sender) && ((s.service == receiver) && (s.outstanding == 0)))

  -- The state in which a locality request waits for finish_notified.
  unfoldable pub save_locality_request : Service W → ℕ → Service W
  save_locality_request s l = record s {
    pending_locality = l;
    pending_locality_ctrl = read32 s.mmio (loc_ctrl l);
    mmio = write32 s.mmio (loc_ctrl l) 0;
    pending_locality_valid = 1;
  }

  unfoldable pub save_command : Service W → ℕ → Service W
  save_command s l =
      let cmd = copy_from_mmio s.mmio (data_buffer l) data_buffer_size in
      record s {
        pending_command_locality = l;
        pending_cmd = cmd;
        pending_command_size = be32_read cmd 2;
        pending_command_valid = 1;
      }

  unfoldable pub drop_command : Service W → Service W
  drop_command s = record s {
    pending_command_valid = 0;
    pending_command_size = 0;
    pending_cmd = zero_buffer;
  }

  unfoldable pub finish_locality : Service W → Service W
  finish_locality s = record (apply_locality_request s s.pending_locality s.pending_locality_ctrl) {
    pending_locality_valid = 0;
    pending_locality = 0;
    pending_locality_ctrl = 0;
  }

  -- The direct response; sending it also waits for the next request.
  unfoldable pub reply : Args → Ran W → Args
  reply a r = record zero_args {
    fid = if a.fid == direct_req_64 then direct_resp_64 else direct_resp_32;
    arg1 = endpoints (receiver_id a.arg1) (sender_id a.arg1);
    arg4 = r.status;
    arg5 = r.value;
    arg6 = r.rc;
  }

module _ {W : Type 0} (p : Platform W) where
  unfoldable pub feature_info : Service W → ℕ → Ran W
  unfolding notif_supported
  feature_info s arg5 =
      failed
        (if u32 arg5 == feature_notification
          then if notif_supported p then crb_ok else crb_notsup
          else crb_invarg)
        s

  unfoldable pub defer_locality_request : Service W → ℕ → ℕ → ℕ → Service W
  unfolding save_locality_request
  defer_locality_request s l sender receiver =
      let (sent, s') = signal_notification p (save_locality_request s l) sender receiver in
      if sent
      then s'
      else record (apply_locality_request (record s' { pending_locality_valid = 0 }) l
          s'.pending_locality_ctrl) { pending_locality_ctrl = 0 }

  unfoldable pub start_locality : Service W → ℕ → ℕ → ℕ → Ran W
  unfolding may_defer
  start_locality s l sender receiver = failed crb_ok (
      if may_defer s sender receiver
      then defer_locality_request s l sender receiver
      else start_locality_request s l)

  unfoldable pub defer_command : Service W → ℕ → ℕ → ℕ → Ran W
  unfolding save_command drop_command
  defer_command s l sender receiver =
      let (sent, s') = signal_notification p (save_command s l) sender receiver in
      if sent then failed crb_ok s' else start_command p (drop_command s') l

  unfoldable pub start_command_request : Service W → ℕ → ℕ → ℕ → Ran W
  unfolding may_defer
  start_command_request s l sender receiver =
      if may_defer s sender receiver && command_notify_eligible s l
      then defer_command s l sender receiver
      else start_command p s l

  unfoldable pub handle_start : Service W → Args → ℕ → ℕ → Ran W
  handle_start s a sender receiver =
      if ltb 0xff a.arg5 || ltb locality_max a.arg6
      then failed crb_invarg s
      else if u32 a.arg5 == 1
      then start_locality s (u32 a.arg6) sender receiver
      else if u32 a.arg5 == 0
      then start_command_request s (u32 a.arg6) sender receiver
      else failed crb_invarg s

  unfoldable pub handle_register : Service W → Args → ℕ → ℕ → Ran W
  unfolding notif_supported
  handle_register s a sender receiver =
      if ltb 0x1ffff a.arg5
        || (ltb 0xff a.arg6 || ((u32 a.arg5 / 65536 != 0) || (u32 a.arg5 % 65536 != 0)))
      then failed crb_invarg s
      else if not (notif_supported p)
      then failed crb_notsup s
      else if s.registered != 0
      then failed crb_already s
      else failed crb_ok (record s {
        client = sender;
        service = receiver;
        id = u32 a.arg6;
        registered = 1;
        outstanding = 0;
      })

  unfoldable pub handle_unregister : Service W → ℕ → Ran W
  unfolding notif_supported clear_registration
  handle_unregister s sender =
      if not (notif_supported p)
      then failed crb_notsup s
      else if (s.registered == 0) || (s.client != sender)
      then failed crb_denied s
      else if s.outstanding != 0
      then failed crb_denied s
      else failed crb_ok (clear_registration s)

  unfoldable pub finish_command : Service W → Ran W
  finish_command s =
      let r = complete_pending_command p s s.pending_command_locality s.pending_command_size in
      record r {
        state = record (r.state) {
          pending_command_valid = 0;
          pending_command_locality = 0;
          pending_command_size = 0;
          pending_cmd = zero_buffer;
        };
      }

  -- The request that finish_notified completes, and what is reset behind it.
  unfoldable pub finish_pending : Service W → Ran W
  unfolding finish_locality finish_command
  finish_pending s =
      if s.pending_locality_valid != 0
      then failed crb_ok (finish_locality s)
      else if s.pending_command_valid != 0
      then finish_command s
      else failed crb_ok s

  unfoldable pub handle_finish : Service W → ℕ → Ran W
  unfolding notif_supported
  handle_finish s sender =
      if not (notif_supported p)
      then failed crb_notsup s
      else if (s.registered == 0) || ((s.client != sender) || (s.outstanding == 0))
      then failed crb_denied s
      else let r = finish_pending s in record r { state = record (r.state) { outstanding = 0 } }

  unfoldable pub dispatch : Service W → Args → Ran W
  dispatch s a =
      let f = u32 a.arg4 in
      let sender = sender_id a.arg1 in
      let receiver = receiver_id a.arg1 in
      if f == get_interface_version
      then record { status = crb_ok_results_returned; value = service_version; rc = 0; state = s }
      else if f == get_feature_info
      then feature_info s a.arg5
      else if f == start
      then handle_start s a sender receiver
      else if f == register_notification
      then handle_register s a sender receiver
      else if f == unregister_notification
      then handle_unregister s sender
      else if f == finish_notified
      then handle_finish s sender
      else failed crb_nofunc s

  unfoldable pub handle_request : Service W → Args → Args × Service W
  unfolding dispatch reply
  handle_request s a = let r = dispatch s a in (reply a r, r.state)
