-- ===== src/Tpm/Service.antt =====
-- The functions of val/src/val_tpm_crb_service.c, over an arbitrary platform.
use ff_a_acs.Base.{
  ℕ, ◌/◌, ◌%◌, ◌^◌, Bool, true, false, not, ◌&&◌, ◌||◌, List, [], ◌∷◌, ltb, leb, ◌==◌, ◌!=◌,
  if◌then◌else◌, zero, suc,
}
use ff_a_acs.Ffa.{Args, zero_args, error_32, endpoints}
use ff_a_acs.Tpm.Mmio.{
  read32, write32, loc_ctrl, loc_sts, ctrl_start, data_buffer, data_buffer_size, locality_max,
  be32_read, copy_from_mmio, copy_to_mmio,
}
use ff_a_acs.Tpm.State.{
  Response, null, in_place, elsewhere, Platform, Service, no_locality, zero_buffer, crb_ok,
  crb_inv_crb_ctrl_data,
}

-- `val_tpm_copy`: the first `size` bytes of `src` over those of `dst`; past its end a read of the
-- source gives 0.
unfoldable pub copy : List ℕ → List ℕ → ℕ → List ℕ
copy dst src zero = dst
copy [] src (suc n) = []
copy (d ∷ dst) [] (suc n) = 0 ∷ copy dst [] n
copy (d ∷ dst) (b ∷ src) (suc n) = b % 256 ∷ copy dst src n

-- What a call that runs a command hands back: its status, and what it stored through
-- `rsp_size_out` and `rc_out`, both 0 before the call.
pub record Ran (W : Type 0) : Type 0 where
  pub status : ℕ
  pub value : ℕ
  pub rc : ℕ
  pub state : Service W

abbrev pub failed : {W : Type 0} → ℕ → Service W → Ran W
failed e s = record { status = e; value = 0; rc = 0; state = s }

abbrev pub is_null : Response → Bool
is_null null = true
is_null _ = false

-- `g_tpm_rsp` as the execution leaves it, zeroed before.
unfoldable pub left_by : Response → List ℕ
left_by (in_place buf) = buf
left_by _ = zero_buffer

-- `g_tpm_rsp` after the response has been brought there.
unfoldable pub collect : Response → ℕ → List ℕ
unfolding copy
collect null n = zero_buffer
collect (in_place buf) n = buf
collect (elsewhere buf) n = copy zero_buffer buf n

module _ {W : Type 0} where
  unfoldable pub command_notify_eligible : Service W → ℕ → Bool
  command_notify_eligible s l =
      (s.active_locality == l)
      && ((read32 s.mmio (loc_sts l) % 2 != 0) && (read32 s.mmio (ctrl_start l) % 2 != 0))

  abbrev set_loc_sts : Service W → ℕ → ℕ → Service W
  set_loc_sts s l v = record s { mmio = write32 s.mmio (loc_sts l) v }

  -- Always returns CRB_OK. Bit 0 of the control word is requestAccess, bit 1 relinquish.
  unfoldable pub apply_locality_request : Service W → ℕ → ℕ → Service W
  apply_locality_request s l ctrl =
      if ctrl % 4 == 0
      then set_loc_sts s l (if s.active_locality == l then 1 else 0)
      else if ctrl % 2 != 0
      then (if ltb locality_max s.active_locality || (s.active_locality == l)
          then set_loc_sts (record s { active_locality = l }) l 1
          else set_loc_sts s l 0)
      else if s.active_locality == l
      then record (set_loc_sts s l 0) { active_locality = no_locality }
      else set_loc_sts s l 0

  -- Reads the control word of locality `l` and clears it.
  unfoldable pub start_locality_request : Service W → ℕ → Service W
  unfolding apply_locality_request
  start_locality_request s l =
      apply_locality_request (record s { mmio = write32 s.mmio (loc_ctrl l) 0 }) l
        (read32 s.mmio (loc_ctrl l))

  unfoldable pub clear_registration : Service W → Service W
  clear_registration s = record s {
    client = 0;
    service = 0;
    id = 0;
    registered = 0;
    outstanding = 0;
    pending_locality_valid = 0;
    pending_locality = 0;
    pending_locality_ctrl = 0;
    pending_command_valid = 0;
    pending_command_locality = 0;
    pending_command_size = 0;
    pending_cmd = zero_buffer;
  }

  -- Writes the response and clears the start bit if the command ran.
  unfoldable pub publish : Ran W → ℕ → Ran W
  publish r l =
      if r.status == crb_ok
      then record r {
        state = record (r.state) {
          mmio =
              write32 (copy_to_mmio r.state.mmio (data_buffer l) r.state.rsp r.value) (ctrl_start l)
                0;
        };
      }
      else r

module _ {W : Type 0} (p : Platform W) where
  unfoldable pub notif_supported : Bool
  notif_supported = p.ep_properties / 8 % 2 != 0

  -- The part of `val_tpm_execute_command_buffer` behind the copy of the command.
  unfoldable pub run_command : Service W → ℕ → Ran W
  unfolding left_by collect
  run_command s size =
      let (out, w) = p.execute s.world size s.cmd in
      if (out.status != 0) || (is_null out.response || ltb data_buffer_size out.size)
      then failed crb_inv_crb_ctrl_data (record s { world = w; rsp = left_by out.response })
      else let rsp = collect out.response out.size in
        record {
          status = crb_ok;
          value = out.size;
          rc = if leb 10 out.size then be32_read rsp 6 else crb_inv_crb_ctrl_data;
          state = record s { world = w; rsp = rsp };
        }

  -- `val_tpm_execute_command_buffer` on `g_tpm_cmd` itself.
  unfoldable pub execute_own_buffer : Service W → ℕ → Ran W
  unfolding run_command
  execute_own_buffer s size =
      if ltb data_buffer_size size then failed crb_inv_crb_ctrl_data s else run_command s size

  -- The same on another buffer, which is copied to `g_tpm_cmd` first.
  unfoldable pub execute_other_buffer : Service W → List ℕ → ℕ → Ran W
  unfolding run_command copy
  execute_other_buffer s buf size =
      if ltb data_buffer_size size
      then failed crb_inv_crb_ctrl_data s
      else run_command (record s { cmd = copy zero_buffer buf size }) size

  unfoldable pub notification_bitmap : ℕ → ℕ
  notification_bitmap n = if ltb n 64 then 2 ^ n else p.wide_shift n % 2 ^ 64

  unfoldable pub notification_args : Service W → ℕ → ℕ → Args
  unfolding notification_bitmap
  notification_args s client service = record zero_args {
    arg1 = endpoints service client;
    arg2 = if p.delay_sri then 2 else 0;
    arg3 = notification_bitmap s.id % 2 ^ 32;
    arg4 = notification_bitmap s.id / 2 ^ 32;
  }

  unfoldable pub signal_notification : Service W → ℕ → ℕ → Bool × Service W
  signal_notification s client service =
      if not notif_supported
        || ((s.registered == 0)
            || ((s.outstanding != 0) || ((s.client != client) || (s.service != service))))
      then (false, s)
      else let (fid, w) = p.notification_set s.world (notification_args s client service) in
        if fid != error_32
        then (true, record s { world = w; outstanding = 1 })
        else (false, record s { world = w })

  unfoldable pub start_command : Service W → ℕ → Ran W
  unfolding execute_own_buffer publish
  start_command s l =
      if (s.active_locality != l) || (read32 s.mmio (loc_sts l) % 2 == 0)
      then failed crb_ok s
      else if read32 s.mmio (ctrl_start l) % 2 == 0
      then failed crb_ok s
      else let cmd = copy_from_mmio s.mmio (data_buffer l) data_buffer_size in
        publish (execute_own_buffer (record s { cmd = cmd }) (be32_read cmd 2)) l

  unfoldable pub complete_pending_command : Service W → ℕ → ℕ → Ran W
  unfolding execute_other_buffer publish
  complete_pending_command s l size = publish (execute_other_buffer s s.pending_cmd size) l
