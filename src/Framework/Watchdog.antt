-- ===== src/Framework/Watchdog.antt =====
-- `val_wd_enable` and `val_wd_disable` of val/src/val_framework.c. SP1 programs the watchdog, the others
-- send it a request; an endpoint that is interrupted before the watchdog is off is run again, on fuel.
use ff_a_acs.Base.{ℕ, zero, suc, Bool, true, false, Option, none, some, ◌==◌, ◌!=◌, if◌then◌else◌}
use ff_a_acs.Ffa.{Args, zero_args, direct_resp_32, endpoints}
use ff_a_acs.Ffa.Ids.{fid_interrupt_32}
use ff_a_acs.Ffa.Messages.{ffa_msg_send_direct_req_32, ffa_run}
use ff_a_acs.Nvm.{Caller}

-- WD_ENABLE_SERVICE and WD_DISABLE_SERVICE
abbrev pub wd_enable_service : ℕ
wd_enable_service = 0xffcc

abbrev pub wd_disable_service : ℕ
wd_disable_service = 0xffdd

unfoldable pub wd_frame : Caller → (service : ℕ) → Args
wd_frame c service = record zero_args { arg1 = endpoints c.endpoint_id c.sp1_id; arg3 = service }

unfoldable pub wd_status : Args → ℕ
wd_status a = if a.fid != direct_resp_32 then 1 else 0

module _ {W : Type 0} (conduit : W → Args → Args × W) (local : W → ℕ × W) (c : Caller) where
  -- SKIP_WD_PROGRAMMING leaves the watchdog alone. `local` is the platform's call.
  unfoldable pub wd_enable : (skip : Bool) → W → ℕ × W
  wd_enable true w = (0, w)
  wd_enable false w =
      let (payload, w1) = ffa_msg_send_direct_req_32 conduit w (wd_frame c wd_enable_service) in
      if c.is_sp1 then local w else (wd_status payload, w1)

  unfoldable pub wd_run_again : ℕ → Args → W → Option (Args × W)
  wd_run_again zero payload w = none
  wd_run_again (suc fuel) payload w =
      let (payload', w') = ffa_run conduit w (record zero_args { arg1 = payload.arg1 }) in
      let rest = wd_run_again fuel payload' w' in
      if payload.fid == fid_interrupt_32 then rest else some (payload, w)

  unfoldable pub wd_disable : (skip : Bool) → (fuel : ℕ) → W → Option (ℕ × W)
  wd_disable true fuel w = some (0, w)
  wd_disable false fuel w =
      let (payload, w1) = ffa_msg_send_direct_req_32 conduit w (wd_frame c wd_disable_service) in
      if c.is_sp1 then some (local w) else elim (wd_run_again fuel payload w1) [
        | none ↦ none
        | some (payload', w2) ↦ some (wd_status payload', w2)
      ]
