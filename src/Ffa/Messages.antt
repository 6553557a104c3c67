-- ===== src/Ffa/Messages.antt =====
-- Messages between endpoints and the completion calls: val/src/val_ffa_abi.c.
use ff_a_acs.Base.{Bool, if◌then◌else◌, true, false}
use ff_a_acs.Ffa.{Args, direct_req_32, error_32, direct_resp_32, direct_resp_64, direct_req_64}
use ff_a_acs.Ffa.Ids.{
  fid_console_log_32, fid_console_log_64, fid_msg_poll_32, fid_msg_send2_32, fid_msg_send_32,
  fid_msg_send_direct_req2_64, fid_msg_send_direct_resp2_64, fid_msg_wait_32, fid_run_32,
  fid_success_32, fid_success_64, fid_yield_32,
}
use ff_a_acs.Ffa.Call.{call_32, call_64, call_ext}

module _ {W : Type 0} (conduit : W → Args → Args × W) where
  unfoldable pub ffa_error : W → Args → Args × W
  unfolding call_64
  ffa_error = call_64 conduit error_32

  unfoldable pub ffa_success : Bool → W → Args → Args × W
  unfolding call_64 call_32
  ffa_success arch64 =
      if arch64 then call_64 conduit fid_success_64 else call_32 conduit fid_success_32

  unfoldable pub ffa_success_32 : W → Args → Args × W
  unfolding ffa_success
  ffa_success_32 = ffa_success false

  unfoldable pub ffa_success_64 : W → Args → Args × W
  unfolding ffa_success
  ffa_success_64 = ffa_success true

  unfoldable pub ffa_msg_send_direct_req2 : W → Args → Args × W
  unfolding call_ext
  ffa_msg_send_direct_req2 = call_ext conduit fid_msg_send_direct_req2_64

  unfoldable pub ffa_msg_send_direct_req : Bool → W → Args → Args × W
  unfolding call_64
  ffa_msg_send_direct_req arch64 =
      if arch64 then call_64 conduit direct_req_64 else call_64 conduit direct_req_32

  unfoldable pub ffa_msg_send_direct_req_32 : W → Args → Args × W
  unfolding ffa_msg_send_direct_req
  ffa_msg_send_direct_req_32 = ffa_msg_send_direct_req false

  unfoldable pub ffa_msg_send_direct_req_64 : W → Args → Args × W
  unfolding ffa_msg_send_direct_req
  ffa_msg_send_direct_req_64 = ffa_msg_send_direct_req true

  unfoldable pub ffa_msg_send_direct_resp : Bool → W → Args → Args × W
  unfolding call_64
  ffa_msg_send_direct_resp arch64 =
      if arch64 then call_64 conduit direct_resp_64 else call_64 conduit direct_resp_32

  unfoldable pub ffa_msg_send_direct_resp_32 : W → Args → Args × W
  unfolding ffa_msg_send_direct_resp
  ffa_msg_send_direct_resp_32 = ffa_msg_send_direct_resp false

  unfoldable pub ffa_msg_send_direct_resp_64 : W → Args → Args × W
  unfolding ffa_msg_send_direct_resp
  ffa_msg_send_direct_resp_64 = ffa_msg_send_direct_resp true

  unfoldable pub ffa_msg_send_direct_resp2 : W → Args → Args × W
  unfolding call_ext
  ffa_msg_send_direct_resp2 = call_ext conduit fid_msg_send_direct_resp2_64

  unfoldable pub ffa_msg_send : W → Args → Args × W
  unfolding call_32
  ffa_msg_send = call_32 conduit fid_msg_send_32

  unfoldable pub ffa_msg_send2 : W → Args → Args × W
  unfolding call_32
  ffa_msg_send2 = call_32 conduit fid_msg_send2_32

  unfoldable pub ffa_msg_wait : W → Args → Args × W
  unfolding call_32
  ffa_msg_wait = call_32 conduit fid_msg_wait_32

  unfoldable pub ffa_msg_poll : W → Args → Args × W
  unfolding call_32
  ffa_msg_poll = call_32 conduit fid_msg_poll_32

  unfoldable pub ffa_yield : W → Args → Args × W
  unfolding call_32
  ffa_yield = call_32 conduit fid_yield_32

  unfoldable pub ffa_run : W → Args → Args × W
  unfolding call_32
  ffa_run = call_32 conduit fid_run_32

  unfoldable pub ffa_console_log : Bool → W → Args → Args × W
  unfolding call_ext call_32
  ffa_console_log arch64 =
      if arch64 then call_ext conduit fid_console_log_64 else call_32 conduit fid_console_log_32

  unfoldable pub ffa_console_log_32 : W → Args → Args × W
  unfolding ffa_console_log
  ffa_console_log_32 = ffa_console_log false

  unfoldable pub ffa_console_log_64 : W → Args → Args × W
  unfolding ffa_console_log
  ffa_console_log_64 = ffa_console_log true
