-- ===== src/Ffa/Tests.antt =====
-- Runs of the FF-A calls, and their theorems at them.
use ff_a_acs.Base.{
  ℕ, zero, suc, ◌≡◌, ◌==◌, Bool, ◌&&◌, ◌||◌, true, if◌then◌else◌, refl, arith, some,
}
use ff_a_acs.Ffa.{Args, zero_args, direct_resp_64}
use ff_a_acs.Ffa.Resume.{direct_req}
use ff_a_acs.Ffa.Schedule.{Turn, Schedules, direct_req_returns}
use ff_a_acs.Ffa.Session.{reserve_param_check, val_success, val_error}
use ff_a_acs.Ffa.Support.{mark_supported_fid, is_ffa_feature_supported}

-- Firmware with a receiver 5, that it starts for a direct request of endpoint 1 and runs on for its own
-- word only, and that is interrupted as many times as the world says.
abbrev wakes : Args → Bool
wakes a =
    ((a.fid == 0xc400006f) && (a.arg1 == 0x10005)) || ((a.fid == 0x8400006d) && (a.arg1 == 0x50000))

abbrev answer : Args
answer = record zero_args { fid = direct_resp_64; arg4 = 7 }

abbrev turn : ℕ → Args × ℕ
turn zero = (answer, 0)
turn (suc k) = (record zero_args { fid = 0x84000062; arg1 = 0x50000 }, k)

abbrev busy : ℕ → Args → Args × ℕ
busy w a = if wakes a then turn w else (zero_args, w)

abbrev ping : Args
ping = record zero_args { arg1 = 0x10005 }

wakes_request : (a : Args) → a.fid ≡ 0xc400006f → a.arg1 ≡ 0x10005 → wakes a ≡ true
wakes_request a e f = ground (arith, e, f)

wakes_run : (a : Args) → a.fid ≡ 0x8400006d → a.arg1 ≡ 0x50000 → wakes a ≡ true
wakes_run a e f = ground (arith, e, f)

busy-Turn : (w : ℕ) (a : Args) → wakes a ≡ true → Turn (λ w. w) 0x50000 answer w (busy w a)
busy-Turn zero a e = rw e refl
busy-Turn (suc k) a e = rw e (refl, refl, refl)

busy-Schedules : Schedules busy true 0x10005 0x50000 answer (λ w. w)
busy-Schedules = record {
  starts = λ w f e i. busy-Turn w f (wakes_request f e i);
  runs = λ w f e i. busy-Turn w f (wakes_run f e i);
  word = omega arith;
  answers = omega arith;
}

direct_req_returns_example : (t : ℕ) × (direct_req busy true 3 2 2 ping ≡ some (answer, t))
direct_req_returns_example =
    direct_req_returns busy true 0x10005 0x50000 answer (λ w. w) busy-Schedules 3 0 2 ping refl
      (omega arith)

-- The last two registers are checked for 2, and none for 9, whatever they hold.
reserve_param_check_two : reserve_param_check (record zero_args { arg6 = 1 }) 2 ≡ val_error
unfolding reserve_param_check
reserve_param_check_two = refl

reserve_param_check_nine : reserve_param_check (record zero_args { arg6 = 1 }) 9 ≡ val_success
unfolding reserve_param_check
reserve_param_check_nine = refl

-- A call that is marked as supported is so without asking, and one that is not in the list is not.
marked :
    is_ffa_feature_supported busy (mark_supported_fid (λ i. 0) 0x84000067 true) 0x84000067 3
    ≡ (val_success, 3)
unfolding is_ffa_feature_supported mark_supported_fid
marked = refl

unlisted : is_ffa_feature_supported busy (λ i. 1) 5 3 ≡ (val_error, 3)
unfolding is_ffa_feature_supported
unlisted = refl
