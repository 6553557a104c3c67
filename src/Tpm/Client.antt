-- ===== src/Tpm/Client.antt =====
-- The client side of the TPM service: val/src/val_tpm_crb_common_abi.c, in the bare-metal build
-- without a hypervisor of the normal world. Here are the requests and the accesses to the CRB
-- window; Tpm/Client/Notify has the notifications.
pub mod Notify
pub mod Relay
pub mod Cleanup
pub mod Holdings
pub mod Released
mod Cleaned
pub mod Access
mod Tests
use ff_a_acs.Base.{
  ℕ, zero, suc, ◌+◌, ◌-◌, ◌*◌, ◌/◌, ◌%◌, ◌^◌, Bool, true, false, ◌||◌, ◌==◌, ◌!=◌, ltb, leb,
  if◌then◌else◌, Option, none, some, List, [], ◌∷◌, ◌++◌, replicate,
}
use ff_a_acs.Ffa.{Args, zero_args, direct_resp_64, endpoints, error_32}
use ff_a_acs.Ffa.Messages.{ffa_msg_send_direct_req_64}
use ff_a_acs.Ffa.Session.{val_success, val_error}
use ff_a_acs.Tpm.Mmio.{
  Memory, write32, loc_ctrl, crb_base, locality_size, locality_max, byte_at, be32_read, be32_write,
  copy_from_mmio, copy_to_mmio,
}
use ff_a_acs.Tpm.State.{
  u32, start, crb_ok, crb_notsup, crb_nofunc, get_feature_info, feature_notification,
  finish_notified,
}

-- What the client runs on: the conduit of its FF-A calls, the CRB window, the platform's interrupt
-- controller and the flag that the interrupt handler sets. The registration calls return whether
-- they failed.
pub record Host (W : Type 0) : Type 0 where
  pub conduit : W → Args → Args × W
  pub mmio : W → Memory
  pub set_mmio : W → Memory → W
  pub irq_register : W → ℕ → Bool × W
  pub irq_unregister : W → ℕ → Bool × W
  pub irq_enable : W → ℕ → ℕ → W
  pub irq_disable : W → ℕ → W
  pub sri_seen : W → ℕ
  pub set_sri_seen : W → ℕ → W
  pub skip_check : ℕ  -- VAL_SKIP_CHECK, of a header outside the repository

unfoldable pub request_frame : ℕ → ℕ → ℕ → ℕ → ℕ → ℕ → Args
request_frame sender tpm_sp function_id arg0 arg1 arg2 = record zero_args {
  arg1 = endpoints sender tpm_sp;
  arg4 = function_id;
  arg5 = arg0;
  arg6 = arg1;
  arg7 = arg2;
}

-- What `val_tpm_send_and_expect` makes of the answer.
unfoldable pub expect : Args → ℕ → ℕ
expect payload expected =
    if payload.fid != direct_resp_64
    then val_error
    else if u32 payload.arg4 != expected
    then val_error
    else val_success

-- What `val_tpm_notification_feature_supported` makes of the answer.
unfoldable pub feature_status : ℕ → Args → ℕ
feature_status skip_check payload =
    if payload.fid != direct_resp_64
    then val_error
    else if u32 payload.arg4 == crb_ok
    then val_success
    else if (u32 payload.arg4 == crb_notsup) || (u32 payload.arg4 == crb_nofunc)
    then skip_check
    else val_error

module _ {W : Type 0} (h : Host W) where
  -- The callers pass the address of a variable, so that `payload` is not NULL.
  unfoldable pub send_abi : W → ℕ → ℕ → ℕ → ℕ → ℕ → ℕ → Args × W
  unfolding request_frame
  send_abi w sender tpm_sp function_id arg0 arg1 arg2 =
      ffa_msg_send_direct_req_64 (h.conduit) w
        (request_frame sender tpm_sp function_id arg0 arg1 arg2)

  unfoldable pub send_and_expect : W → ℕ → ℕ → ℕ → ℕ → ℕ → ℕ → ℕ → ℕ × W
  unfolding expect
  send_and_expect w sender tpm_sp function_id arg0 arg1 arg2 expected =
      let (payload, w') = send_abi w sender tpm_sp function_id arg0 arg1 arg2 in
      (expect payload expected, w')

  unfoldable pub relinquish_locality : W → ℕ → ℕ → ℕ → ℕ × W
  relinquish_locality w sender tpm_sp locality =
      if ltb locality_max locality
      then (val_error, w)
      else send_and_expect (h.set_mmio w (write32 (h.mmio w) (loc_ctrl locality) 2)) sender tpm_sp
          start 1 locality 0 crb_ok

  unfoldable pub notification_feature_supported : W → ℕ → ℕ → ℕ × W
  unfolding feature_status
  notification_feature_supported w sender tpm_sp =
      let (payload, w') = send_abi w sender tpm_sp get_feature_info feature_notification 0 0 in
      (feature_status (h.skip_check) payload, w')

  unfoldable pub client_finish_notified : W → ℕ → ℕ → ℕ → ℕ × W
  client_finish_notified w sender tpm_sp expected =
      send_and_expect w sender tpm_sp finish_notified 0 0 0 expected

abbrev pub crb_end : ℕ
crb_end = crb_base + (locality_max + 1) * locality_size

unfoldable pub mmio_range_valid : ℕ → ℕ → ℕ
mmio_range_valid addr size =
    if size == 0
    then val_success
    else if ltb crb_end crb_base || (ltb addr crb_base || leb crb_end addr)
    then val_error
    else if ltb (crb_end - addr) size
    then val_error
    else val_success

-- `none` is a NULL source.
unfoldable pub crb_copy_to_mmio : Memory → ℕ → Option (List ℕ) → ℕ → ℕ × Memory
crb_copy_to_mmio m dst none size = (val_error, m)
crb_copy_to_mmio m dst (some src) size =
    if mmio_range_valid dst size != val_success
    then (val_error, m)
    else (val_success, copy_to_mmio m dst src size)

-- The list behind its first `n` elements.
unfoldable pub drop : ℕ → List ℕ → List ℕ
drop zero xs = xs
drop (suc n) [] = []
drop (suc n) (x ∷ xs) = drop n xs

-- The status and the contents of the destination afterwards; `none` is a NULL destination.
unfoldable pub crb_copy_from_mmio : Memory → Option (List ℕ) → ℕ → ℕ → ℕ → ℕ × Option (List ℕ)
unfolding drop
crb_copy_from_mmio m none dst_size src size = (val_error, none)
crb_copy_from_mmio m (some dst) dst_size src size =
    if ltb dst_size size || (mmio_range_valid src size != val_success)
    then (val_error, some dst)
    else (val_success, some (copy_from_mmio m src size ++ drop size dst))

unfoldable pub be16_read : List ℕ → ℕ → ℕ
be16_read p i = byte_at p i * 256 + byte_at p (i + 1)

unfoldable pub be16_write : ℕ → List ℕ
be16_write v = v / 256 % 256 ∷ v % 256 ∷ []

-- The 18 bytes of a command, its count where there is room for it, and zeros.
unfoldable pub get_capability_header : ℕ → List ℕ
unfolding be16_write be32_write
get_capability_header cmd_size =
    be16_write 0x8001
    ++ (be32_write cmd_size ++ (be32_write 0x17a ++ (be32_write 6 ++ be32_write 0x100)))

-- What `val_tpm_prepare_get_capability` writes to a buffer that is not NULL.
unfoldable pub prepare_get_capability : ℕ → List ℕ
unfolding get_capability_header
prepare_get_capability cmd_size =
    if ltb cmd_size 18
    then replicate cmd_size 0
    else if leb 22 cmd_size
    then get_capability_header cmd_size ++ (be32_write 1 ++ replicate (cmd_size - 22) 0)
    else get_capability_header cmd_size ++ replicate (cmd_size - 18) 0

-- The size and the response code that a valid header gives; `none` is VAL_ERROR, or a NULL buffer.
unfoldable pub validate_response_header : Option (List ℕ) → ℕ → Option (ℕ × ℕ)
unfolding be16_read
validate_response_header none rsp_buf_size = none
validate_response_header (some rsp) rsp_buf_size =
    if ltb rsp_buf_size 10 || (be16_read rsp 0 != 0x8001)
    then none
    else if ltb (be32_read rsp 2) 10 || ltb rsp_buf_size (be32_read rsp 2)
    then none
    else some (be32_read rsp 2, be32_read rsp 6)
