-- ===== src/Nvm.antt =====
-- Non-volatile memory, val/src/val_framework.c: `val_nvmem_write` and `val_nvmem_read`, as they are
-- built with the platform's NVM programming and with the array `g_nvmem` in its place. The platform's
-- driver and the direct request to SP1 are arguments. A buffer is a word, or none for NULL.
mod Laws
mod Tests
use ff_a_acs.Base.{
  ℕ, zero, suc, ◌+◌, ◌*◌, ◌/◌, ◌%◌, ◌^◌, Bool, true, false, ◌||◌, Option, none, some, ltb, ◌==◌,
  ◌!=◌, if◌then◌else◌,
}
use ff_a_acs.Ffa.{Args, zero_args, direct_resp_32, endpoints}

-- 0 where the access is allowed.
unfoldable pub nvm_check_bounds : (nvm_size offset : ℕ) → Option ℕ → (size : ℕ) → ℕ
nvm_check_bounds nvm_size offset none size = 1
nvm_check_bounds nvm_size offset (some word) size =
    if ltb nvm_size offset
    then 1
    else if ltb nvm_size ((offset + size) % 2 ^ 64)
    then 1
    else if size != 4
    then 1
    else 0

-- The four bytes of a word at an offset, the lowest first.
unfoldable pub put_word : (ℕ → ℕ) → (offset word : ℕ) → ℕ → ℕ
put_word m offset word x =
    if x == offset
    then word % 256
    else if x == offset + 1
    then word / 256 % 256
    else if x == offset + 2
    then word / 65536 % 256
    else if x == offset + 3
    then word / 16777216 % 256
    else m x

unfoldable pub get_word : (ℕ → ℕ) → (offset : ℕ) → ℕ
get_word m offset =
    m offset + 256 * m (offset + 1) + 65536 * m (offset + 2) + 16777216 * m (offset + 3)

-- With SKIP_NVM_PROGRAMMING: `g_nvmem` holds the bytes.
module _ (nvm_size : ℕ) where
  unfoldable pub ram_write : (offset : ℕ) → Option ℕ → (size : ℕ) → (ℕ → ℕ) → ℕ × (ℕ → ℕ)
  unfolding nvm_check_bounds put_word
  ram_write offset none size m = (1, m)
  ram_write offset (some word) size m =
      if nvm_check_bounds nvm_size offset (some word) size == 0
      then (0, put_word m offset word)
      else (1, m)

  -- The status, and the buffer.
  unfoldable pub ram_read : (offset : ℕ) → Option ℕ → (size : ℕ) → (ℕ → ℕ) → ℕ × Option ℕ
  unfolding nvm_check_bounds get_word
  ram_read offset buffer size m =
      if nvm_check_bounds nvm_size offset buffer size == 0
      then (0, some (get_word m offset))
      else (1, buffer)

-- The driver of the platform over its state, and the answer to a direct request.
pub record Driver (S : Type 0) : Type 0 where
  pub nvm_write : (offset word : ℕ) → S → ℕ × S
  pub nvm_read : (offset : ℕ) → S → ℕ × ℕ × S
  pub send_direct_req : Args → S → Args × S

-- The service ids of a request to SP1, and the ids of the current endpoint and of SP1.
pub record Caller : Type 0 where
  pub is_sp1 : Bool
  pub endpoint_id : ℕ
  pub sp1_id : ℕ
  pub nvm_write_service : ℕ
  pub nvm_read_service : ℕ

module _ {S : Type 0} (p : Driver S) (c : Caller) (nvm_size : ℕ) where
  abbrev pub request : (service offset size word : ℕ) → Args
  request service offset size word = record zero_args {
    arg1 = endpoints c.endpoint_id c.sp1_id;
    arg3 = service;
    arg4 = offset;
    arg5 = size;
    arg6 = word;
  }

  -- The word of the buffer is taken before the bounds are checked; a NULL buffer, whose access the
  -- language leaves undefined, is taken for an error here.
  unfoldable pub nvmem_write : (offset : ℕ) → Option ℕ → (size : ℕ) → S → ℕ × S
  unfolding nvm_check_bounds
  nvmem_write offset none size s = (1, s)
  nvmem_write offset (some word) size s =
      let (reply, s1) = p.send_direct_req (request c.nvm_write_service offset size word) s in
      if nvm_check_bounds nvm_size offset (some word) size != 0
      then (1, s)
      else if c.is_sp1
      then p.nvm_write offset word s
      else if reply.fid != direct_resp_32
      then (1, s1)
      else (0, s1)

  -- The status, the buffer and the state.
  unfoldable pub nvmem_read : (offset : ℕ) → Option ℕ → (size : ℕ) → S → ℕ × Option ℕ × S
  unfolding nvm_check_bounds
  nvmem_read offset buffer size s =
      let (status, word, s1) = p.nvm_read offset s in
      let (reply, s2) = p.send_direct_req (request c.nvm_read_service offset size 0) s in
      if nvm_check_bounds nvm_size offset buffer size != 0
      then (1, buffer, s)
      else if c.is_sp1
      then (status, some word, s1)
      else if reply.fid != direct_resp_32
      then (1, buffer, s2)
      else (0, some (reply.arg3 % 2 ^ 32), s2)
