-- ===== src/Framework/Course.antt =====
-- Which tests the rounds of Framework/Run run and in which order.
use ff_a_acs.Base.{
  ℕ, zero, suc, ◌+◌, ◌≡◌, refl, sym, ap, ◌∙◌, Bool, true, false, List, [], ◌∷◌, inl, inr,
  if◌then◌else◌, Bool-cases,
}
use ff_a_acs.Framework.{Index, continue, pure, ◌>>=◌}
use ff_a_acs.Framework.Run.{
  Suite, Round, do_step, run_test, reboot_round, plain_round, round, rounds,
}
use ff_a_acs.Framework.Order.{IsSound, Runs, bind, account-Quiet, run_test_lem, Attempted}

-- The numbers from `i` on.
unfoldable pub numbers : (n i : ℕ) → List ℕ
numbers zero i = []
numbers (suc n) i = i ∷ numbers n (i + 1)

unfoldable pub take_while : (ℕ → Bool) → List ℕ → List ℕ
take_while p [] = []
take_while p (x ∷ xs) = let rest = take_while p xs in if p x then x ∷ rest else []

unfoldable pub filter : (ℕ → Bool) → List ℕ → List ℕ
filter p [] = []
filter p (x ∷ xs) = let rest = filter p xs in if p x then x ∷ rest else rest

-- A record of what was run, the latest first, with more tests run in their order.
unfoldable pub push_all : List ℕ → List ℕ → List ℕ
push_all [] l = l
push_all (i ∷ is) l = push_all is (i ∷ l)

module _ {W : Type 0} (s : Suite W) (mem : W → Index → ℕ) (ran : W → List ℕ) (supported : ℕ → Bool)
    (sound : IsSound s mem ran supported) where
  -- After a round the run goes on without a reset.
  abbrev AfterRound : (i : ℕ) → Bool → W → Round → W → Type 0
  AfterRound i reboot w r w' =
      (r.reboot ≡ false)
      × (ran w' ≡ (if reboot then ran w else (if supported i then i ∷ ran w else ran w)))

  reboot_round_lem :
      (progress i : ℕ) (w : W) → Runs (reboot_round s progress) w (AfterRound i true w)
  unfolding reboot_round do_step
  reboot_round_lem progress i w =
      let w1 = s.handle_reboot_result progress w in
      let (rep, w2, e, r) = account-Quiet s mem ran supported sound w1 in
      (
        record { reboot = false; report = rep },
        w2,
        ap (λ x. continue x (λ rep. pure (record { reboot = false; report = rep }))) e,
        (refl, r ∙ sound.reboot_ran progress w),
      )

  plain_round_lem :
      (i : ℕ) (r : Round) (b : Bool) (w w1 : W)
      → r.reboot ≡ false
      → Attempted s mem ran supported sound i w b w1
      → Runs (plain_round s r b) w1 (AfterRound i false w)
  unfolding plain_round
  plain_round_lem i r false w w1 off (b, e) = (r, w1, refl, (off, e))
  plain_round_lem i r true w w1 off (b, e) =
      let (rep, w2, f, q) = account-Quiet s mem ran supported sound w1 in
      (
        record { reboot = false; report = rep },
        w2,
        ap (λ x. continue x (λ rep. pure (record { reboot = false; report = rep }))) f,
        (refl, q ∙ e),
      )

  round_reboot :
      (progress i : ℕ) (r : Round) (w : W)
      → r.reboot ≡ true
      → Runs (round s progress i r) w (AfterRound i true w)
  unfolding round
  round_reboot progress i r w e =
      let (r1, w1, f, q) = reboot_round_lem progress i w in
      (
        r1,
        w1,
        ap (λ b. (if b then reboot_round s progress else (run_test s i >>= plain_round s r)) w) e
            ∙ f,
        q,
      )

  round_plain :
      (progress i : ℕ) (r : Round) (w : W)
      → r.reboot ≡ false
      → Runs (round s progress i r) w (AfterRound i false w)
  unfolding round
  round_plain progress i r w e =
      let (r1, w1, f, q) =
        bind (run_test s i) (plain_round s r) w (run_test_lem s mem ran supported sound i w)
          (λ b w1 done. plain_round_lem i r b w w1 e done) in
      (
        r1,
        w1,
        ap (λ b. (if b then reboot_round s progress else (run_test s i >>= plain_round s r)) w) e
            ∙ f,
        q,
      )

  -- The tests of `n` numbers from `i` on that are run, where no reset is looked at.
  abbrev pub course : (n i : ℕ) → List ℕ
  course n i = filter supported (take_while s.has_entry (numbers n i))

  abbrev pub Ran : List ℕ → W → W → Type 0
  Ran tests w w' = ran w' ≡ push_all tests (ran w)

  course_ends : (n i : ℕ) (l : List ℕ) → s.has_entry i ≡ false → push_all (course (suc n) i) l ≡ l
  unfolding numbers take_while filter push_all
  course_ends n i l e = rw (numbers, take_while, e) refl

  course_goes_on :
      (n i : ℕ) (l : List ℕ)
      → s.has_entry i ≡ true
      → push_all (course (suc n) i) l
        ≡ push_all (course n (i + 1)) (if supported i then i ∷ l else l)
  unfolding numbers take_while filter push_all
  course_goes_on n i l e = elim (Bool-cases (supported i)) [
    | inl f ↦ rw (e, f) refl
    | inr f ↦ rw (e, f) refl
  ]

  pub rounds_lem :
      (progress n i : ℕ) (r : Round) (w : W)
      → r.reboot ≡ false
      → Runs (rounds s progress n i r) w (λ _ w'. Ran (course n i) w w')
  unfolding rounds numbers take_while filter push_all
  rounds_lem progress zero i r w off = (r.report, w, refl, refl)
  rounds_lem progress (suc n) i r w off = elim (Bool-cases (s.has_entry i)) [
    | inr e ↦ (r.report, w, rw (rounds, e) refl, sym (course_ends n i (ran w) e))
    | inl e ↦
        let (rep, w2, f, q) =
          bind
            {Q = λ _ w'.
              ran w' ≡ push_all (course n (i + 1)) (if supported i then i ∷ ran w else ran w)}
            (round s progress i r) (rounds s progress n (i + 1)) w (round_plain progress i r w off)
            (λ r1 w1 after.
              let (rep, w2, f, q) = rounds_lem progress n (i + 1) r1 w1 after.0 in
              (rep, w2, f, q ∙ ap (push_all (course n (i + 1))) after.1)) in
        (rep, w2, rw (rounds, e) f, q ∙ sym (course_goes_on n i (ran w) e))
  ]

  pub resumed_lem :
      (progress n i : ℕ) (r : Round) (w : W)
      → r.reboot ≡ true
      → s.has_entry i ≡ true
      → Runs (rounds s progress (suc n) i r) w (λ _ w'. Ran (course n (i + 1)) w w')
  unfolding rounds
  resumed_lem progress n i r w on e =
      let (rep, w2, f, q) =
        bind {Q = λ _ w'. ran w' ≡ push_all (course n (i + 1)) (ran w)} (round s progress i r)
          (rounds s progress n (i + 1)) w (round_reboot progress i r w on)
          (λ r1 w1 after.
            let (rep, w2, f, q) = rounds_lem progress n (i + 1) r1 w1 after.0 in
            (rep, w2, f, q ∙ ap (push_all (course n (i + 1))) after.1)) in
      (rep, w2, rw (rounds, e) f, q)
