-- ===== src/TpmPlat.antt =====
-- The platform side of the TPM, platform/pal_baremetal/tgt_tfa_fvp/src/pal_tpm_tcg_platform.c: its
-- globals, the non-volatile memory, the clock and the failure record. TpmPlat/Entropy has the
-- generator of bytes and what is filled from it, TpmPlat/Identity the fixed answers and the PCRs.
-- Memory is a function from offsets to bytes; a buffer is such a function, or none for NULL.
mod Entropy
mod Identity
mod Laws
mod Stream
mod Pcrs
mod Startup
mod Ready
mod Commands
mod Tests
use ff_a_acs.Base.{
  ℕ, zero, suc, ◌+◌, ◌-◌, ◌%◌, ◌^◌, Bool, true, false, ◌&&◌, ◌||◌, Option, none, some, ltb, leb,
  ◌==◌, ◌!=◌, if◌then◌else◌,
}
use ff_a_acs.Base.Bytes.{Bytes, copy_bytes, fill_bytes, same_bytes}

pub record Failure : Type 0 where
  pub code : ℕ
  pub location : ℕ
  pub function : Option ℕ
  pub line : ℕ
  pub in_failure_mode : ℕ

pub record Globals : Type 0 where
  pub nv : Bytes
  pub nv_written : Bytes
  pub nv_ready : ℕ
  pub nv_needs_manufacture : ℕ
  pub time_ms : ℕ
  pub timer_reset : ℕ
  pub timer_stopped : ℕ
  pub entropy_word : ℕ
  pub entropy_offset : ℕ
  pub failure : Failure

abbrev pub no_failure : Failure
no_failure = record { code = 0; location = 0; function = none; line = 0; in_failure_mode = 0 }

unfoldable pub start : Globals
start = record {
  nv = λ _. 0;
  nv_written = λ _. 0;
  nv_ready = 0;
  nv_needs_manufacture = 1;
  time_ms = 0;
  timer_reset = 0;
  timer_stopped = 0;
  entropy_word = 0;
  entropy_offset = 8;
  failure = no_failure;
}

unfoldable pub timer_restarted : Globals → Globals
timer_restarted s = record s { timer_stopped = 0 }

unfoldable pub timer_reset_now : Globals → Globals
timer_reset_now s = record s { time_ms = 0; timer_reset = 1; timer_stopped = 0 }

-- `_plat__RealTime` and `_plat__TimerRead`, which do the same.
unfoldable pub timer_read : Globals → ℕ × Globals
timer_read s = let t = (s.time_ms + 1) % 2 ^ 64 in (t, record s { time_ms = t })

unfoldable pub timer_was_reset : Globals → ℕ × Globals
timer_was_reset s = (s.timer_reset, record s { timer_reset = 0 })

unfoldable pub timer_was_stopped : Globals → ℕ × Globals
timer_was_stopped s = (s.timer_stopped, record s { timer_stopped = 0 })

-- `_plat__NVEnable` and `_plat__SetNvAvail`; `_plat__NVDisable` and `_plat__ClearNvAvail`.
unfoldable pub set_nv_avail : Globals → Globals
set_nv_avail s = record s { nv_ready = 1 }

unfoldable pub clear_nv_avail : Globals → Globals
clear_nv_avail s = record s { nv_ready = 0 }

unfoldable pub get_nv_ready_state : Globals → ℕ
get_nv_ready_state s = if s.nv_ready != 0 then 0 else 1

-- NV_MEMORY_SIZE is the build's.
module _ (nv_size : ℕ) where
  unfoldable pub nv_range_valid : (offset size : ℕ) → Bool
  nv_range_valid offset size =
      if size == 0 then true else if leb nv_size offset then false else leb size (nv_size - offset)

  -- The result, and the buffer.
  unfoldable pub nv_memory_read : (offset size : ℕ) → Option Bytes → Globals → ℕ × Option Bytes
  nv_memory_read offset size none s = (0, none)
  nv_memory_read offset size (some buffer) s =
      if nv_range_valid offset size
      then (if size == 0
          then (1, some buffer)
          else (1, some (copy_bytes buffer 0 s.nv offset size)))
      else (0, some buffer)

  -- `none` is -1.
  unfoldable pub nv_get_changed_status : (offset size : ℕ) → Option Bytes → Globals → Option ℕ
  nv_get_changed_status offset size none s = none
  nv_get_changed_status offset size (some buffer) s =
      if nv_range_valid offset size
      then (if size == 0
          then some 0
          else if same_bytes s.nv offset buffer 0 size
          then some 0
          else some 1)
      else none

  unfoldable pub nv_memory_write : (offset size : ℕ) → Option Bytes → Globals → ℕ × Globals
  nv_memory_write offset size none s = (0, s)
  nv_memory_write offset size (some buffer) s =
      if nv_range_valid offset size
      then (if size == 0 then (1, s) else (
        1,
        record s {
          nv = copy_bytes s.nv offset buffer 0 size;
          nv_written = fill_bytes s.nv_written offset 1 size;
          nv_needs_manufacture = 0;
        },
      ))
      else (0, s)

  unfoldable pub nv_memory_clear : (offset size : ℕ) → Globals → ℕ × Globals
  nv_memory_clear offset size s =
      if nv_range_valid offset size
      then (if size == 0 then (1, s) else (
        1,
        record s {
          nv = fill_bytes s.nv offset 0xff size;
          nv_written = fill_bytes s.nv_written offset 1 size;
          nv_needs_manufacture = 1;
        },
      ))
      else (0, s)

  unfoldable pub nv_memory_move : (source dest size : ℕ) → Globals → ℕ × Globals
  nv_memory_move source dest size s =
      if nv_range_valid source size && nv_range_valid dest size
      then (if size == 0 then (1, s) else (
        1,
        record s {
          nv = copy_bytes s.nv dest s.nv source size;
          nv_written = fill_bytes s.nv_written dest 1 size;
          nv_needs_manufacture = 0;
        },
      ))
      else (0, s)

unfoldable pub reset_failure_data : Globals → Globals
reset_failure_data s = record s { failure = no_failure }

-- The stores of `_plat__Fail`, which does not return. `int` words arrive by their 32 bits.
unfoldable pub fail : (function : Option ℕ) → (line location code : ℕ) → Globals → Globals
fail function line location code s = record s {
  failure = record {
    code = code % 2 ^ 32;
    location = location;
    function = function;
    line = line % 2 ^ 32;
    in_failure_mode = 1;
  };
}
