-- ===== src/Drivers/Runs.antt =====
-- SP1 over the platform's non-volatile memory at 0x100, and a VM that reaches it.
use ff_a_acs.Base.{ℕ, ◌≡◌, true, false, refl, arith, some, none, ◌==◌, if◌then◌else◌}
use ff_a_acs.Base.Bytes.{Bytes}
use ff_a_acs.Ffa.{Args, zero_args, direct_req_32, receiver_id}
use ff_a_acs.Nvm.{Driver, Caller, nvmem_write, nvmem_read}
use ff_a_acs.Dispatch.Serve.{Node, Round, answer, leave, panic, serve_round}
use ff_a_acs.Dispatch.Remote.{Reaches}
use ff_a_acs.Drivers.Memory.{Mmio, pal_nvm}
use ff_a_acs.Drivers.Stored.{KeepsBytes, nvmem_read-nvmem_write}

abbrev put : ℕ → ℕ → Bytes → Bytes
put a byte m x = if x == a then byte else m x

abbrev flash : Mmio Bytes
flash = record { read8 = λ a m. (m a, m); write8 = put }

flash-KeepsBytes : KeepsBytes flash (λ m. m)
flash-KeepsBytes = record { reads = λ a d. refl; writes = λ a byte x d l. refl }

abbrev unsent : Args → Bytes → Args × Bytes
unsent a m = (zero_args, m)

abbrev sp1_caller : Caller
sp1_caller = record {
  is_sp1 = true;
  endpoint_id = 0x8001;
  sp1_id = 0x8001;
  nvm_write_service = 0xffaa;
  nvm_read_service = 0xffbb;
}

abbrev sp1_node : Node Bytes
sp1_node = record {
  driver = pal_nvm flash 0x100 unsent;
  caller = sp1_caller;
  nvm_size = 64;
  wd_enable = λ w. (0, w);
  wd_disable = λ w. (0, w);
  sync_ep_info = λ a w. w;
  client_fn = λ n. none;
  server_fn = λ n. none;
}

-- What comes back to the sender of a request.
abbrev outcome : Round Bytes → Args × Bytes
outcome (answer f t) = (f, t)
outcome (leave t) = (zero_args, t)
outcome (panic t) = (zero_args, t)

abbrev remote : Driver Bytes
remote = record {
  nvm_write = λ offset word w. (1, w);
  nvm_read = λ offset w. (1, 0, w);
  send_direct_req = λ a w.
      if receiver_id a.arg1 == 0x8001
      then outcome (serve_round sp1_node (record a { fid = direct_req_32 }) w)
      else (zero_args, w);
}

abbrev vm_caller : Caller
vm_caller = record sp1_caller { is_sp1 = false; endpoint_id = 1 }

matches : (x y : ℕ) → x ≡ y → (x == y) ≡ true
matches x y e = ground arith

outcome-answer : (r : Round Bytes) (f : Args) (t : Bytes) → r ≡ answer f t → outcome r ≡ (f, t)
outcome-answer r f t e = rw e refl

abbrev remote-Reaches : Reaches remote vm_caller sp1_node
remote-Reaches = record {
  elsewhere = refl;
  here = refl;
  write_service = refl;
  read_service = refl;
  id16 = omega arith;
  relay = λ a f w t i e.
      rw (matches (receiver_id a.arg1) 0x8001 i)
        (outcome-answer (serve_round sp1_node (record a { fid = direct_req_32 }) w) f t e);
}

nvmem_read-nvmem_write_example :
    (t : Bytes) × (nvmem_write remote vm_caller 64 8 (some 0x12345) 4 (λ _. 0) ≡ (0, t))
    × (nvmem_read remote vm_caller 64 8 (some 0) 4 t ≡ (0, some 0x12345, t))
nvmem_read-nvmem_write_example =
    nvmem_read-nvmem_write flash (λ m. m) 0x100 unsent remote vm_caller sp1_node 8 0x12345 (λ _. 0)
      flash-KeepsBytes remote-Reaches refl (omega arith) (omega arith) (omega arith)
