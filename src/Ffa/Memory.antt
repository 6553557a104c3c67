-- ===== src/Ffa/Memory.antt =====
-- The memory management calls: val/src/val_ffa_abi.c.
use ff_a_acs.Base.{Bool, if◌then◌else◌, true, false}
use ff_a_acs.Ffa.{Args}
use ff_a_acs.Ffa.Ids.{
  fid_mem_donate_32, fid_mem_donate_64, fid_mem_lend_32, fid_mem_lend_64, fid_mem_perm_get_32,
  fid_mem_perm_get_64, fid_mem_perm_set_32, fid_mem_perm_set_64, fid_mem_reclaim_32,
  fid_mem_relinquish_32, fid_mem_retrieve_req_32, fid_mem_retrieve_req_64, fid_mem_share_32,
  fid_mem_share_64,
}
use ff_a_acs.Ffa.Call.{call_32, call_64}

module _ {W : Type 0} (conduit : W → Args → Args × W) where
  unfoldable pub ffa_mem_donate : Bool → W → Args → Args × W
  unfolding call_64 call_32
  ffa_mem_donate arch64 =
      if arch64 then call_64 conduit fid_mem_donate_64 else call_32 conduit fid_mem_donate_32

  unfoldable pub ffa_mem_donate_32 : W → Args → Args × W
  unfolding ffa_mem_donate
  ffa_mem_donate_32 = ffa_mem_donate false

  unfoldable pub ffa_mem_donate_64 : W → Args → Args × W
  unfolding ffa_mem_donate
  ffa_mem_donate_64 = ffa_mem_donate true

  unfoldable pub ffa_mem_lend : Bool → W → Args → Args × W
  unfolding call_64 call_32
  ffa_mem_lend arch64 =
      if arch64 then call_64 conduit fid_mem_lend_64 else call_32 conduit fid_mem_lend_32

  unfoldable pub ffa_mem_lend_32 : W → Args → Args × W
  unfolding ffa_mem_lend
  ffa_mem_lend_32 = ffa_mem_lend false

  unfoldable pub ffa_mem_lend_64 : W → Args → Args × W
  unfolding ffa_mem_lend
  ffa_mem_lend_64 = ffa_mem_lend true

  unfoldable pub ffa_mem_share : Bool → W → Args → Args × W
  unfolding call_64 call_32
  ffa_mem_share arch64 =
      if arch64 then call_64 conduit fid_mem_share_64 else call_32 conduit fid_mem_share_32

  unfoldable pub ffa_mem_share_32 : W → Args → Args × W
  unfolding ffa_mem_share
  ffa_mem_share_32 = ffa_mem_share false

  unfoldable pub ffa_mem_share_64 : W → Args → Args × W
  unfolding ffa_mem_share
  ffa_mem_share_64 = ffa_mem_share true

  unfoldable pub ffa_mem_retrieve : Bool → W → Args → Args × W
  unfolding call_64 call_32
  ffa_mem_retrieve arch64 =
      if arch64
      then call_64 conduit fid_mem_retrieve_req_64
      else call_32 conduit fid_mem_retrieve_req_32

  unfoldable pub ffa_mem_retrieve_32 : W → Args → Args × W
  unfolding ffa_mem_retrieve
  ffa_mem_retrieve_32 = ffa_mem_retrieve false

  unfoldable pub ffa_mem_retrieve_64 : W → Args → Args × W
  unfolding ffa_mem_retrieve
  ffa_mem_retrieve_64 = ffa_mem_retrieve true

  unfoldable pub ffa_mem_relinquish : W → Args → Args × W
  unfolding call_32
  ffa_mem_relinquish = call_32 conduit fid_mem_relinquish_32

  unfoldable pub ffa_mem_reclaim : W → Args → Args × W
  unfolding call_32
  ffa_mem_reclaim = call_32 conduit fid_mem_reclaim_32

  unfoldable pub ffa_mem_perm_set : Bool → W → Args → Args × W
  unfolding call_64 call_32
  ffa_mem_perm_set arch64 =
      if arch64 then call_64 conduit fid_mem_perm_set_64 else call_32 conduit fid_mem_perm_set_32

  unfoldable pub ffa_mem_perm_set_32 : W → Args → Args × W
  unfolding ffa_mem_perm_set
  ffa_mem_perm_set_32 = ffa_mem_perm_set false

  unfoldable pub ffa_mem_perm_set_64 : W → Args → Args × W
  unfolding ffa_mem_perm_set
  ffa_mem_perm_set_64 = ffa_mem_perm_set true

  unfoldable pub ffa_mem_perm_get : Bool → W → Args → Args × W
  unfolding call_64 call_32
  ffa_mem_perm_get arch64 =
      if arch64 then call_64 conduit fid_mem_perm_get_64 else call_32 conduit fid_mem_perm_get_32

  unfoldable pub ffa_mem_perm_get_32 : W → Args → Args × W
  unfolding ffa_mem_perm_get
  ffa_mem_perm_get_32 = ffa_mem_perm_get false

  unfoldable pub ffa_mem_perm_get_64 : W → Args → Args × W
  unfolding ffa_mem_perm_get
  ffa_mem_perm_get_64 = ffa_mem_perm_get true
