-- ===== src/Ffa/Session.antt =====
-- What val/src/val_ffa_abi.c builds on single calls: the id of the running endpoint, the RX/TX
-- buffers, and the check of the registers that a call reserves.
use ff_a_acs.Base.{
  ℕ, zero, suc, ◌+◌, ◌-◌, ◌%◌, ◌^◌, Bool, true, ◌&&◌, ◌==◌, if◌then◌else◌, Option, none, some, List,
  [], ◌∷◌,
}
use ff_a_acs.Ffa.{Args, zero_args, error_32, endpoints}
use ff_a_acs.Ffa.Ids.{fid_id_get_32}
use ff_a_acs.Ffa.Call.{ffa_smccc}
use ff_a_acs.Ffa.Messages.{ffa_msg_send_direct_req_64}
use ff_a_acs.Ffa.Setup.{ffa_rxtx_map_32, ffa_rxtx_map_64, ffa_rxtx_unmap, ffa_rx_release}

-- VAL_SUCCESS is declared outside the repository, whose code tests for it as 0.
abbrev pub val_success : ℕ
val_success = 0

abbrev pub val_error : ℕ
val_error = 1

-- The status that a frame's function id stands for.
unfoldable pub status_of : Args → ℕ
status_of a = if a.fid == error_32 then val_error else val_success

-- The frame that maps the buffers. `val_mem_virt_to_phys` is the identity: the mapping is flat.
unfoldable pub rxtx_frame : ℕ → ℕ → ℕ → Args
rxtx_frame tx_buf rx_buf page_count = record zero_args {
  arg1 = tx_buf;
  arg2 = rx_buf;
  arg3 = page_count;
}

module _ {W : Type 0} (conduit : W → Args → Args × W) where
  -- `none` is VAL_PANIC, which does not return.
  unfoldable pub get_curr_endpoint_id : W → Option ℕ × W
  get_curr_endpoint_id w =
      let (ret, w') = ffa_smccc conduit w fid_id_get_32 zero_args in
      (if ret.fid == error_32 then none else some (ret.arg2 % 65536), w')

  unfoldable pub rxtx_map_64 : W → ℕ → ℕ → ℕ → ℕ × W
  unfolding rxtx_frame status_of
  rxtx_map_64 w tx_buf rx_buf page_count =
      let (payload, w') = ffa_rxtx_map_64 conduit w (rxtx_frame tx_buf rx_buf page_count) in
      (status_of payload, w')

  unfoldable pub rxtx_map_32 : W → ℕ → ℕ → ℕ → ℕ × W
  unfolding rxtx_frame status_of
  rxtx_map_32 w tx_buf rx_buf page_count =
      let (payload, w') = ffa_rxtx_map_32 conduit w (rxtx_frame tx_buf rx_buf page_count) in
      (status_of payload, w')

  unfoldable pub rxtx_unmap : W → ℕ × W
  unfolding status_of
  rxtx_unmap w = let (payload, w') = ffa_rxtx_unmap conduit w zero_args in (status_of payload, w')

  unfoldable pub rx_release : W → ℕ × W
  unfolding status_of
  rx_release w = let (payload, w') = ffa_rx_release conduit w zero_args in (status_of payload, w')

-- `val_ffa_mem_handle_share` of val/src/val_ffa_helpers.c: the handle in a direct request.
unfoldable pub mem_handle_share : {W : Type 0} → (W → Args → Args × W) → ℕ → ℕ → ℕ → W → ℕ × W
unfolding status_of
mem_handle_share conduit sender recipient handle w =
    let frame = record zero_args { arg1 = endpoints sender recipient; arg3 = handle } in
    let (payload, w') = ffa_msg_send_direct_req_64 conduit w frame in (status_of payload, w')

unfoldable pub registers : Args → List ℕ
registers a = a.fid ∷ a.arg1 ∷ a.arg2 ∷ a.arg3 ∷ a.arg4 ∷ a.arg5 ∷ a.arg6 ∷ a.arg7 ∷ []

-- The loop from the index `count`, over the registers that it passes and those it reads.
unfoldable pub all_zero_from : ℕ → List ℕ → Bool
all_zero_from count [] = true
all_zero_from zero (x ∷ xs) = (x == 0) && all_zero_from 0 xs
all_zero_from (suc count) (x ∷ xs) = all_zero_from count xs

-- `uint32_t count = 8 - param_count`
unfoldable pub first_reserved : ℕ → ℕ
first_reserved param_count = (2 ^ 32 + 8 - param_count) % 2 ^ 32

unfoldable pub reserve_param_check : Args → ℕ → ℕ
unfolding registers all_zero_from first_reserved
reserve_param_check a param_count =
    if all_zero_from (first_reserved param_count) (registers a) then val_success else val_error
