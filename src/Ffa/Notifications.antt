-- ===== src/Ffa/Notifications.antt =====
-- The notification calls: val/src/val_ffa_abi.c.
use ff_a_acs.Ffa.{Args}
use ff_a_acs.Ffa.Ids.{
  fid_notification_bind, fid_notification_bitmap_create, fid_notification_bitmap_destroy,
  fid_notification_get, fid_notification_info_get_32, fid_notification_info_get_64,
  fid_notification_set, fid_notification_unbind,
}
use ff_a_acs.Ffa.Call.{call_32, call_64}

module _ {W : Type 0} (conduit : W → Args → Args × W) where
  unfoldable pub ffa_notification_bitmap_create : W → Args → Args × W
  unfolding call_32
  ffa_notification_bitmap_create = call_32 conduit fid_notification_bitmap_create

  unfoldable pub ffa_notification_bitmap_destroy : W → Args → Args × W
  unfolding call_32
  ffa_notification_bitmap_destroy = call_32 conduit fid_notification_bitmap_destroy

  unfoldable pub ffa_notification_bind : W → Args → Args × W
  unfolding call_32
  ffa_notification_bind = call_32 conduit fid_notification_bind

  unfoldable pub ffa_notification_unbind : W → Args → Args × W
  unfolding call_32
  ffa_notification_unbind = call_32 conduit fid_notification_unbind

  unfoldable pub ffa_notification_set : W → Args → Args × W
  unfolding call_32
  ffa_notification_set = call_32 conduit fid_notification_set

  unfoldable pub ffa_notification_get : W → Args → Args × W
  unfolding call_32
  ffa_notification_get = call_32 conduit fid_notification_get

  unfoldable pub ffa_notification_info_get_32 : W → Args → Args × W
  unfolding call_32
  ffa_notification_info_get_32 = call_32 conduit fid_notification_info_get_32

  unfoldable pub ffa_notification_info_get_64 : W → Args → Args × W
  unfolding call_64
  ffa_notification_info_get_64 = call_64 conduit fid_notification_info_get_64
