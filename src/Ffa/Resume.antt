-- ===== src/Ffa/Resume.antt =====
-- The calls that a pending interrupt can cut short: in a Linux build, and on an endpoint below a
-- hypervisor, `val_ffa_run` and the direct requests of val/src/val_ffa_abi.c run the interrupted
-- endpoint again until another answer than FFA_INTERRUPT comes. The loops run on fuel.
use ff_a_acs.Base.{ℕ, zero, suc, ◌<◌, ◌==◌, Bool, true, false, Option, none, some, ◌≡◌, refl, arith}
use ff_a_acs.Ffa.{Args, zero_args}
use ff_a_acs.Ffa.Ids.{fid_interrupt_32}
use ff_a_acs.Ffa.Messages.{ffa_run, ffa_msg_send_direct_req, ffa_msg_send_direct_req2}

-- The frame that runs the interrupted endpoint again.
unfoldable pub run_again : Args → Args
run_again a = record zero_args { arg1 = a.arg1 }

unfoldable pub interrupted : Args → Bool
interrupted a = a.fid == fid_interrupt_32

module _ {W : Type 0} (conduit : W → Args → Args × W) where
  -- The loop of `val_ffa_run`.
  unfoldable pub run_loop : ℕ → Args × W → Option (Args × W)
  run_loop zero (a, w) = none
  run_loop (suc n) (a, w) = elim (interrupted a) [
    | true ↦ run_loop n (ffa_run conduit w (run_again a))
    | false ↦ some (a, w)
  ]

  unfoldable pub run_resumed : ℕ → W → Args → Option (Args × W)
  run_resumed n w a = run_loop n (ffa_run conduit w a)

  -- The loop behind a direct request, which calls `val_ffa_run` in each round.
  unfoldable pub request_loop : ℕ → ℕ → Args × W → Option (Args × W)
  request_loop fuel zero (a, w) = none
  request_loop fuel (suc n) (a, w) = elim (interrupted a) [
    | true ↦ elim (run_resumed fuel w (run_again a)) [
      | none ↦ none
      | some r ↦ request_loop fuel n r
    ]
    | false ↦ some (a, w)
  ]

  unfoldable pub direct_req : Bool → ℕ → ℕ → W → Args → Option (Args × W)
  direct_req arch64 fuel n w a = request_loop fuel n (ffa_msg_send_direct_req conduit arch64 w a)

  unfoldable pub direct_req2 : ℕ → ℕ → W → Args → Option (Args × W)
  direct_req2 fuel n w a = request_loop fuel n (ffa_msg_send_direct_req2 conduit w a)

  -- From an answer, k runs of the endpoint that each end in an interrupt but the last lead to
  -- another answer.
  pub data Resumes : Args × W → ℕ → Args × W → Type 0 where
    answered : {a : Args} {w : W} → interrupted a ≡ false → Resumes (a, w) 0 (a, w)
    again :
        {a : Args} {w : W} {k : ℕ} {r : Args × W}
        → interrupted a ≡ true
        → Resumes (ffa_run conduit w (run_again a)) k r
        → Resumes (a, w) (suc k) r

  Resumes-answer : {x r : Args × W} {k : ℕ} → Resumes x k r → interrupted (r.0) ≡ false
  Resumes-answer (answered e) = e
  Resumes-answer (again e s) = Resumes-answer s

  run_loop-Resumes :
      (n : ℕ) {x r : Args × W} {k : ℕ} → Resumes x k r → k < n → run_loop n x ≡ some r
  unfolding run_loop
  run_loop-Resumes zero s h = ground arith
  run_loop-Resumes (suc n) (answered e) h = rw (run_loop, e) refl
  run_loop-Resumes (suc n) (again e s) h = rw (run_loop, e) (run_loop-Resumes n s (omega arith))

  request_loop-answer :
      (fuel n : ℕ) (x : Args × W) → interrupted (x.0) ≡ false → request_loop fuel (suc n) x ≡ some x
  unfolding request_loop
  request_loop-answer fuel n (a, w) e = rw (request_loop, e) refl

  pub request_loop-Resumes :
      (fuel n : ℕ) {x r : Args × W} {k : ℕ}
      → Resumes x k r
      → k < fuel
      → request_loop fuel (suc (suc n)) x ≡ some r
  unfolding request_loop run_resumed
  request_loop-Resumes fuel n (answered e) h = rw (request_loop, e) refl
  request_loop-Resumes fuel n (again e s) h =
      rw (request_loop, e, run_loop-Resumes fuel s (omega arith))
        (request_loop-answer fuel n _ (Resumes-answer s))
