-- ===== src/Ffa/Setup.antt =====
-- Version, features, identities and the RX/TX buffers: val/src/val_ffa_abi.c.
use ff_a_acs.Base.{ℕ, Bool, if◌then◌else◌, true, false}
use ff_a_acs.Ffa.{Args, zero_args}
use ff_a_acs.Ffa.Ids.{
  fid_features_32, fid_id_get_32, fid_partition_info_get_32, fid_partition_info_get_regs_64,
  fid_rxtx_map_32, fid_rxtx_map_64, fid_rxtx_unmap_32, fid_rx_release_32, fid_spm_id_get_32,
  fid_version_32, fid_secondary_ep_register_64,
}
use ff_a_acs.Ffa.Call.{call_32, call_64, call_ext}

module _ {W : Type 0} (conduit : W → Args → Args × W) where
  unfoldable pub ffa_version : W → Args → Args × W
  unfolding call_32
  ffa_version = call_32 conduit fid_version_32

  unfoldable pub ffa_features : W → Args → Args × W
  unfolding call_32
  ffa_features = call_32 conduit fid_features_32

  unfoldable pub ffa_id_get : W → Args → Args × W
  unfolding call_32
  ffa_id_get = call_32 conduit fid_id_get_32

  unfoldable pub ffa_spm_id_get : W → Args → Args × W
  unfolding call_32
  ffa_spm_id_get = call_32 conduit fid_spm_id_get_32

  unfoldable pub ffa_rx_release : W → Args → Args × W
  unfolding call_32
  ffa_rx_release = call_32 conduit fid_rx_release_32

  unfoldable pub ffa_rxtx_map : Bool → W → Args → Args × W
  unfolding call_64 call_32
  ffa_rxtx_map arch64 =
      if arch64 then call_64 conduit fid_rxtx_map_64 else call_32 conduit fid_rxtx_map_32

  unfoldable pub ffa_rxtx_map_32 : W → Args → Args × W
  unfolding ffa_rxtx_map
  ffa_rxtx_map_32 = ffa_rxtx_map false

  unfoldable pub ffa_rxtx_map_64 : W → Args → Args × W
  unfolding ffa_rxtx_map
  ffa_rxtx_map_64 = ffa_rxtx_map true

  unfoldable pub ffa_rxtx_unmap : W → Args → Args × W
  unfolding call_32
  ffa_rxtx_unmap = call_32 conduit fid_rxtx_unmap_32

  unfoldable pub ffa_partition_info_get : W → Args → Args × W
  unfolding call_32
  ffa_partition_info_get = call_32 conduit fid_partition_info_get_32

  unfoldable pub ffa_partition_info_get_regs : W → Args → Args × W
  unfolding call_ext
  ffa_partition_info_get_regs = call_ext conduit fid_partition_info_get_regs_64

  -- The address of the boot entry of the secondary processors is the platform's.
  unfoldable pub ffa_secondary_ep_register_64 : ℕ → W → Args × W
  unfolding call_64
  ffa_secondary_ep_register_64 boot_entry w =
      call_64 conduit fid_secondary_ep_register_64 w (record zero_args { arg1 = boot_entry })
