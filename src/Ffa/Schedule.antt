-- ===== src/Ffa/Schedule.antt =====
-- The direct requests of val/src/val_ffa_abi.c over firmware that interrupts the receiver: the firmware
-- is described by the frames of the FF-A specification, in its own numbers.
use ff_a_acs.Base.{
  ℕ, zero, suc, ◌^◌, ◌<◌, ◌≡◌, ◌≢◌, Bool, true, false, some, refl, ap, subst, sym, ◌∙◌, arith,
  if◌then◌else◌, replicate,
}
use ff_a_acs.Ffa.{Args}
use ff_a_acs.Ffa.Call.{low_words, call_32, call_64, ffa_smccc}
use ff_a_acs.Ffa.Messages.{ffa_run, ffa_msg_send_direct_req}
use ff_a_acs.Ffa.Resume.{
  Resumes, answered, again, interrupted, run_again, direct_req, request_loop-Resumes,
}

-- What comes back while `k` interrupts are still to come: the reply, or FFA_INTERRUPT with the word of
-- the interrupted endpoint, after which one interrupt less is to come.
abbrev pub Turn : {W : Type 0} → (W → ℕ) → (target : ℕ) → (reply : Args) → ℕ → Args × W → Type 0
Turn left target reply zero r = r.0 ≡ reply
Turn left target reply (suc k) r = (r.0.fid ≡ 0x84000062) × (r.0.arg1 ≡ target) × (left r.1 ≡ k)

-- The firmware starts the receiver for a direct request with these ids, and runs it on for FFA_RUN with
-- its word, the id and the processor, and for no other. `left` is how often it will be interrupted.
pub record Schedules {W : Type 0} (conduit : W → Args → Args × W) (arch64 : Bool) (ids target : ℕ)
    (reply : Args) (left : W → ℕ) : Type 0 where
  pub starts :
      (w : W) (f : Args)
      → f.fid ≡ (if arch64 then 0xc400006f else 0x8400006f)
      → f.arg1 ≡ ids
      → Turn left target reply (left w) (conduit w f)
  pub runs :
      (w : W) (f : Args)
      → f.fid ≡ 0x8400006d
      → f.arg1 ≡ target
      → Turn left target reply (left w) (conduit w f)
  pub word : target < 2 ^ 32
  pub answers : reply.fid ≢ 0x84000062

not_interrupted : (a : Args) → a.fid ≢ 0x84000062 → interrupted a ≡ false
unfolding interrupted
not_interrupted a d = ground (arith, d)

is_interrupted : (a : Args) → a.fid ≡ 0x84000062 → interrupted a ≡ true
unfolding interrupted
is_interrupted a e = ground (arith, e)

-- The frame that a direct request sends.
sent :
    {W : Type 0} (conduit : W → Args → Args × W) (arch64 : Bool) (w : W) (a : Args)
    → ffa_msg_send_direct_req conduit arch64 w a
      ≡ conduit w
          (record a { fid = if arch64 then 0xc400006f else 0x8400006f; ext_args = replicate 10 0 })
unfolding ffa_msg_send_direct_req call_64 ffa_smccc
sent conduit true w a = refl
sent conduit false w a = refl

module _ {W : Type 0} (conduit : W → Args → Args × W) (arch64 : Bool) (ids target : ℕ)
    (reply : Args) (left : W → ℕ) (firmware : Schedules conduit arch64 ids target reply left) where
  run-Turn :
      (a : Args) (w : W)
      → a.arg1 ≡ target
      → Turn left target reply (left w) (ffa_run conduit w (run_again a))
  unfolding ffa_run call_32 ffa_smccc low_words run_again
  run-Turn a w e = let small = firmware.word in firmware.runs w _ refl (omega (arith, e, small))

  request-Turn :
      (a : Args) (w : W)
      → a.arg1 ≡ ids
      → Turn left target reply (left w) (ffa_msg_send_direct_req conduit arch64 w a)
  request-Turn a w e =
      subst (Turn left target reply (left w)) (sym (sent conduit arch64 w a))
        (firmware.starts w _ refl e)

  resumed :
      (k : ℕ) (x : Args × W) → Turn left target reply k x → (t : W) × Resumes conduit x k (reply, t)
  resumed zero (a, w) e = (
    w,
    subst (λ r. Resumes conduit (a, w) 0 (r, w)) e
        (answered (not_interrupted a (λ i. firmware.answers (ap (λ r. r.fid) (sym e) ∙ i)))),
  )
  resumed (suc k) (a, w) (i, e, l) =
      let (t, s) = resumed k (ffa_run conduit w (run_again a)) (
        subst (λ m. Turn left target reply m (ffa_run conduit w (run_again a))) l
          (run-Turn a w e)) in
      (t, again (is_interrupted a i) s)

  -- A direct request of either width, over firmware that starts the receiver for it and then, each time
  -- the receiver is interrupted, runs it on only for FFA_RUN with its 32-bit word, up to a reply that is
  -- not FFA_INTERRUPT: with fuel above the number of interrupts for the inner loop and two rounds of the
  -- outer one, the call returns that reply.
  pub direct_req_returns :
      (fuel n : ℕ) (w : W) (a : Args)
      → a.arg1 ≡ ids
      → left w < fuel
      → (t : W) × (direct_req conduit arch64 fuel (suc (suc n)) w a ≡ some (reply, t))
  unfolding direct_req
  direct_req_returns fuel n w a e l =
      let (t, s) =
        resumed (left w) (ffa_msg_send_direct_req conduit arch64 w a) (request-Turn a w e) in
      (t, request_loop-Resumes conduit fuel n s l)
