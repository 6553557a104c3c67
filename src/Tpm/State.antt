-- ===== src/Tpm/State.antt =====
-- The state of the TPM service and what it needs of the platform.
use ff_a_acs.Base.{ℕ, ◌+◌, ◌%◌, ◌^◌, Bool, List, replicate}
use ff_a_acs.Ffa.{Args}
use ff_a_acs.Tpm.Mmio.{Memory, data_buffer_size, locality_max}

-- Where `pal_tpm_execute_command` leaves the response: nowhere, in the buffer that it was given
-- (whose new contents these are), or in another one.
pub data Response : Type 0 where
  null : Response
  in_place : List ℕ → Response
  elsewhere : List ℕ → Response

pub record Executed : Type 0 where
  pub status : ℕ
  pub size : ℕ
  pub response : Response

-- The TPM and the FF-A firmware are no code of this repository: what they do to the rest of the
-- world, `W`, and what they answer, is open.
pub record Platform (W : Type 0) : Type 0 where
  pub execute : W → ℕ → List ℕ → Executed × W
  pub notification_set : W → Args → ℕ × W  -- the `fid` of the answer
  pub ep_properties : ℕ  -- of the endpoint table's entry TPM_SP
  pub delay_sri : Bool  -- no hypervisor below VM1, and not a Linux build
  pub wide_shift : ℕ → ℕ  -- `1ULL << n` from n = 64 on, which C leaves undefined

-- The globals of val_tpm_crb_service.c, with the CRB window and the world.
pub record Service (W : Type 0) : Type 0 where
  pub world : W
  pub mmio : Memory
  pub cmd : List ℕ
  pub rsp : List ℕ
  pub active_locality : ℕ
  pub client : ℕ
  pub service : ℕ
  pub id : ℕ
  pub registered : ℕ
  pub outstanding : ℕ
  pub pending_locality_valid : ℕ
  pub pending_locality : ℕ
  pub pending_locality_ctrl : ℕ
  pub pending_command_valid : ℕ
  pub pending_command_locality : ℕ
  pub pending_command_size : ℕ
  pub pending_cmd : List ℕ

abbrev pub no_locality : ℕ
no_locality = locality_max + 1

abbrev pub zero_buffer : List ℕ
zero_buffer = replicate data_buffer_size 0

-- The globals' initial values.
unfoldable pub init : {W : Type 0} → W → Memory → Service W
init w m = record {
  world = w;
  mmio = m;
  cmd = zero_buffer;
  rsp = zero_buffer;
  active_locality = no_locality;
  client = 0;
  service = 0;
  id = 0;
  registered = 0;
  outstanding = 0;
  pending_locality_valid = 0;
  pending_locality = 0;
  pending_locality_ctrl = 0;
  pending_command_valid = 0;
  pending_command_locality = 0;
  pending_command_size = 0;
  pending_cmd = zero_buffer;
}

-- `uint32_t` casts.
abbrev pub u32 : ℕ → ℕ
u32 n = n % 2 ^ 32

-- Status codes of val/inc/val_tpm_crb_ffa.h.
abbrev pub crb_ok : ℕ
crb_ok = 0x05000001

abbrev pub crb_ok_results_returned : ℕ
crb_ok_results_returned = 0x05000002

abbrev pub crb_nofunc : ℕ
crb_nofunc = 0x8e000001

abbrev pub crb_notsup : ℕ
crb_notsup = 0x8e000002

abbrev pub crb_invarg : ℕ
crb_invarg = 0x8e000005

abbrev pub crb_inv_crb_ctrl_data : ℕ
crb_inv_crb_ctrl_data = 0x8e000006

abbrev pub crb_already : ℕ
crb_already = 0x8e000009

abbrev pub crb_denied : ℕ
crb_denied = 0x8e00000a

-- Function ids.
abbrev pub get_interface_version : ℕ
get_interface_version = 0x0f000001

abbrev pub get_feature_info : ℕ
get_feature_info = 0x0f000101

abbrev pub start : ℕ
start = 0x0f000201

abbrev pub register_notification : ℕ
register_notification = 0x0f000301

abbrev pub unregister_notification : ℕ
unregister_notification = 0x0f000401

abbrev pub finish_notified : ℕ
finish_notified = 0x0f000501

abbrev pub feature_notification : ℕ
feature_notification = 0xfea70000

-- CRB_SERVICE_VERSION: major 1, minor 0.
abbrev pub service_version : ℕ
service_version = 65536
