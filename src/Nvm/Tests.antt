-- ===== src/Nvm/Tests.antt =====
-- Runs of the non-volatile memory, val/src/val_framework.c.
use ff_a_acs.Base.{ℕ, ◌+◌, false}
use ff_a_acs.Ffa.{zero_args}
use ff_a_acs.Nvm.{Driver, Caller}

-- A driver that counts its calls.
abbrev counting : Driver ℕ
counting = record {
  nvm_write = λ offset word n. (0, n + 1);
  nvm_read = λ offset n. (0, 7, n + 1);
  send_direct_req = λ a n. (zero_args, n + 1);
}

abbrev sp2 : Caller
sp2 = record {
  is_sp1 = false;
  endpoint_id = 0x8002;
  sp1_id = 0x8001;
  nvm_write_service = 0xffaa;
  nvm_read_service = 0xffbb;
}
