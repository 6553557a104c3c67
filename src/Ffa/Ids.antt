-- ===== src/Ffa/Ids.antt =====
-- The function ids of val/inc/val_ffa.h that the calls of val/src/val_ffa_abi.c use.
use ff_a_acs.Base.{ℕ}

abbrev pub fid_success_32 : ℕ
fid_success_32 = 0x84000061

abbrev pub fid_interrupt_32 : ℕ
fid_interrupt_32 = 0x84000062

abbrev pub fid_version_32 : ℕ
fid_version_32 = 0x84000063

abbrev pub fid_features_32 : ℕ
fid_features_32 = 0x84000064

abbrev pub fid_rx_release_32 : ℕ
fid_rx_release_32 = 0x84000065

abbrev pub fid_rxtx_map_32 : ℕ
fid_rxtx_map_32 = 0x84000066

abbrev pub fid_rxtx_unmap_32 : ℕ
fid_rxtx_unmap_32 = 0x84000067

abbrev pub fid_partition_info_get_32 : ℕ
fid_partition_info_get_32 = 0x84000068

abbrev pub fid_id_get_32 : ℕ
fid_id_get_32 = 0x84000069

abbrev pub fid_msg_poll_32 : ℕ
fid_msg_poll_32 = 0x8400006a

abbrev pub fid_msg_wait_32 : ℕ
fid_msg_wait_32 = 0x8400006b

abbrev pub fid_yield_32 : ℕ
fid_yield_32 = 0x8400006c

abbrev pub fid_run_32 : ℕ
fid_run_32 = 0x8400006d

abbrev pub fid_msg_send_32 : ℕ
fid_msg_send_32 = 0x8400006e

abbrev pub fid_mem_donate_32 : ℕ
fid_mem_donate_32 = 0x84000071

abbrev pub fid_mem_lend_32 : ℕ
fid_mem_lend_32 = 0x84000072

abbrev pub fid_mem_share_32 : ℕ
fid_mem_share_32 = 0x84000073

abbrev pub fid_mem_retrieve_req_32 : ℕ
fid_mem_retrieve_req_32 = 0x84000074

abbrev pub fid_mem_relinquish_32 : ℕ
fid_mem_relinquish_32 = 0x84000076

abbrev pub fid_mem_reclaim_32 : ℕ
fid_mem_reclaim_32 = 0x84000077

abbrev pub fid_notification_bitmap_create : ℕ
fid_notification_bitmap_create = 0x8400007d

abbrev pub fid_notification_bitmap_destroy : ℕ
fid_notification_bitmap_destroy = 0x8400007e

abbrev pub fid_notification_bind : ℕ
fid_notification_bind = 0x8400007f

abbrev pub fid_notification_unbind : ℕ
fid_notification_unbind = 0x84000080

abbrev pub fid_notification_set : ℕ
fid_notification_set = 0x84000081

abbrev pub fid_notification_get : ℕ
fid_notification_get = 0x84000082

abbrev pub fid_notification_info_get_32 : ℕ
fid_notification_info_get_32 = 0x84000083

abbrev pub fid_spm_id_get_32 : ℕ
fid_spm_id_get_32 = 0x84000085

abbrev pub fid_msg_send2_32 : ℕ
fid_msg_send2_32 = 0x84000086

abbrev pub fid_mem_perm_get_32 : ℕ
fid_mem_perm_get_32 = 0x84000088

abbrev pub fid_mem_perm_set_32 : ℕ
fid_mem_perm_set_32 = 0x84000089

abbrev pub fid_console_log_32 : ℕ
fid_console_log_32 = 0x8400008a

abbrev pub fid_success_64 : ℕ
fid_success_64 = 0xc4000061

abbrev pub fid_rxtx_map_64 : ℕ
fid_rxtx_map_64 = 0xc4000066

abbrev pub fid_mem_donate_64 : ℕ
fid_mem_donate_64 = 0xc4000071

abbrev pub fid_mem_lend_64 : ℕ
fid_mem_lend_64 = 0xc4000072

abbrev pub fid_mem_share_64 : ℕ
fid_mem_share_64 = 0xc4000073

abbrev pub fid_mem_retrieve_req_64 : ℕ
fid_mem_retrieve_req_64 = 0xc4000074

abbrev pub fid_secondary_ep_register_64 : ℕ
fid_secondary_ep_register_64 = 0xc4000087

abbrev pub fid_notification_info_get_64 : ℕ
fid_notification_info_get_64 = 0xc4000083

abbrev pub fid_mem_perm_get_64 : ℕ
fid_mem_perm_get_64 = 0xc4000088

abbrev pub fid_mem_perm_set_64 : ℕ
fid_mem_perm_set_64 = 0xc4000089

abbrev pub fid_console_log_64 : ℕ
fid_console_log_64 = 0xc400008a

abbrev pub fid_msg_send_direct_req2_64 : ℕ
fid_msg_send_direct_req2_64 = 0xc400008d

abbrev pub fid_msg_send_direct_resp2_64 : ℕ
fid_msg_send_direct_resp2_64 = 0xc400008e

abbrev pub fid_partition_info_get_regs_64 : ℕ
fid_partition_info_get_regs_64 = 0xc400008b
