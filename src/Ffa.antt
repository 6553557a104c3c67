-- ===== src/Ffa.antt =====
-- The FF-A call frame `ffa_args_t` and the function ids of val/inc/val_ffa.h that the other
-- modules use. Registers are 64-bit words, kept as plain numbers.
pub mod Ids
pub mod Call
pub mod Messages
pub mod Resume
pub mod Schedule
pub mod Setup
pub mod Session
pub mod Support
pub mod Memory
pub mod Notifications
mod Tests
use ff_a_acs.Base.{ℕ, ◌+◌, ◌*◌, ◌/◌, ◌%◌, List, replicate}

pub record Args : Type 0 where
  pub fid : ℕ
  pub arg1 : ℕ
  pub arg2 : ℕ
  pub arg3 : ℕ
  pub arg4 : ℕ
  pub arg5 : ℕ
  pub arg6 : ℕ
  pub arg7 : ℕ
  pub ext_args : List ℕ

-- `val_memset(&payload, 0, sizeof(ffa_args_t))`
abbrev pub zero_args : Args
zero_args = record {
  fid = 0;
  arg1 = 0;
  arg2 = 0;
  arg3 = 0;
  arg4 = 0;
  arg5 = 0;
  arg6 = 0;
  arg7 = 0;
  ext_args = replicate 10 0;
}

abbrev pub error_32 : ℕ
error_32 = 0x84000060

abbrev pub direct_req_32 : ℕ
direct_req_32 = 0x8400006f

abbrev pub direct_resp_32 : ℕ
direct_resp_32 = 0x84000070

abbrev pub direct_req_64 : ℕ
direct_req_64 = 0xc400006f

abbrev pub direct_resp_64 : ℕ
direct_resp_64 = 0xc4000070

-- The sender and the receiver in `arg1`, and the word that carries a pair of them.
abbrev pub sender_id : ℕ → ℕ
sender_id a = a / 65536 % 65536

abbrev pub receiver_id : ℕ → ℕ
receiver_id a = a % 65536

abbrev pub endpoints : ℕ → ℕ → ℕ
endpoints from to = from * 65536 + to
