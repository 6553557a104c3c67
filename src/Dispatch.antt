-- ===== src/Dispatch.antt =====
-- The test dispatcher of val/src/val_test_dispatch.c: the word that names a test run, what an
-- endpoint does with a request (Dispatch/Serve), how the dispatcher starts a test
-- (Dispatch/Execute) and how it collects the status of another processor (Dispatch/Parallel).
pub mod Serve
pub mod Remote
pub mod Execute
pub mod Delegate
pub mod Parallel
pub mod Secondary
mod Tests
use ff_a_acs.Base.{ℕ, ◌*◌, ◌+◌, ◌/◌, ◌%◌, ◌^◌, bit_or}

-- The macros of val/inc/val.h over 32-bit words.
unfoldable pub test_run_data : ℕ → ℕ → ℕ → ℕ → ℕ
test_run_data test_num client server test_type =
    bit_or 32 (bit_or 32 (bit_or 32 test_num (client * 2 ^ 11)) (server * 2 ^ 15))
      (test_type * 2 ^ 19)

unfoldable pub get_test_num : ℕ → ℕ
get_test_num x = x % 1024

unfoldable pub get_client_logic_id : ℕ → ℕ
get_client_logic_id x = x / 2 ^ 11 % 16

unfoldable pub get_server_logic_id : ℕ → ℕ
get_server_logic_id x = x / 2 ^ 15 % 16

unfoldable pub get_test_type : ℕ → ℕ
get_test_type x = x / 2 ^ 19 % 16

-- The four bits of the type replaced.
unfoldable pub add_test_type : ℕ → ℕ → ℕ
add_test_type y x = y / 2 ^ 23 * 2 ^ 23 + x % 16 * 2 ^ 19 + y % 2 ^ 19
