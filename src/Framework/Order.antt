-- ===== src/Framework/Order.antt =====
-- The calls of Framework in an environment without failures: which of them run no test, and what
-- `run_test` of Framework/Run does.
use ff_a_acs.Base.{
  ℕ, ◌≡◌, refl, sym, ap, ◌∙◌, Bool, true, false, List, ◌∷◌, inl, inr, if◌then◌else◌, Bool-cases,
}
use ff_a_acs.Framework.{
  Index, cur_suite_num, cur_test_num, test_progress, Report, Io, continue, ok, pure, ◌>>=◌, ◌>>◌,
  write, read, write_or_panic, or_panic, test_init, test_exit, write_report, read_report,
}
use ff_a_acs.Framework.Run.{Suite, do_step, ask, account, run_test, attempt, start_test}

-- An environment without failures: the non-volatile memory holds words, the record of the tests that
-- were run grows by the functions of the tests and by nothing else, and whether a test is supported
-- depends on its number.
pub record IsSound {W : Type 0} (s : Suite W) (mem : W → Index → ℕ) (ran : W → List ℕ)
    (supported : ℕ → Bool) : Type 0 where
  pub write_status : (i : Index) (x : ℕ) (w : W) → (s.nvm_write i x w).0 ≡ 0
  pub write_ran : (i : Index) (x : ℕ) (w : W) → ran (s.nvm_write i x w).1 ≡ ran w
  pub read_status : (i : Index) (w : W) → (s.nvm_read i w).0 ≡ 0
  pub read_word : (i : Index) (w : W) → (s.nvm_read i w).1 ≡ mem w i
  pub read_ran : (i : Index) (w : W) → ran (s.nvm_read i w).2 ≡ ran w
  pub read_mem : (i : Index) (w : W) → mem (s.nvm_read i w).2 ≡ mem w
  pub enable_status : (w : W) → (s.wd_enable w).0 ≡ 0
  pub enable_ran : (w : W) → ran (s.wd_enable w).1 ≡ ran w
  pub disable_status : (w : W) → (s.wd_disable w).0 ≡ 0
  pub disable_ran : (w : W) → ran (s.wd_disable w).1 ≡ ran w
  pub clear_ran : (w : W) → ran (s.clear_status w) ≡ ran w
  pub sync_ok : (w : W) → (s.sync w).0 ≡ ok tt
  pub sync_ran : (w : W) → ran (s.sync w).1 ≡ ran w
  pub sync_mem : (w : W) → mem (s.sync w).1 ≡ mem w
  pub current_ran : (i : ℕ) (w : W) → ran (s.set_current i w) ≡ ran w
  pub supported_is : (i : ℕ) (w : W) → (s.is_supported i w).0 ≡ supported i
  pub supported_ran : (i : ℕ) (w : W) → ran (s.is_supported i w).1 ≡ ran w
  pub entry_ran : (i : ℕ) (w : W) → ran (s.run_entry i w) ≡ i ∷ ran w
  pub reboot_ran : (p : ℕ) (w : W) → ran (s.handle_reboot_result p w) ≡ ran w
  pub report_ran : (w : W) → ran (s.report_status w).1 ≡ ran w

-- A call from a state returns a value, and the value and the state after it are as said.
abbrev pub Runs {ℓ} : {W A : Type 0} → Io W A → W → (A → W → Type ℓ) → Type ℓ
Runs {W} {A} m w P = (a : A) × (w' : W) × (m w ≡ (ok a, w')) × P a w'

pub bind :
    {W A B : Type 0} {P : A → W → Type 0} {Q : B → W → Type 0} (m : Io W A) (f : A → Io W B) (w : W)
    → Runs m w P
    → ((a : A) (w' : W) → P a w' → Runs (f a) w' Q)
    → Runs (m >>= f) w Q
bind m f w (a, w', e, p) k =
    let (b, w'', e', q) = k a w' p in (b, w'', ap (λ r. continue r f) e ∙ e', q)

module _ {W : Type 0} (s : Suite W) (mem : W → Index → ℕ) (ran : W → List ℕ) (supported : ℕ → Bool)
    (sound : IsSound s mem ran supported) where
  -- A call that runs no test.
  abbrev pub Quiet : {A : Type 0} → Io W A → Type 0
  Quiet m = (w : W) → Runs m w (λ a w'. ran w' ≡ ran w)

  pub in_turn :
      {A B : Type 0} (m : Io W A) (f : A → Io W B)
      → Quiet m
      → ((a : A) → Quiet (f a))
      → Quiet (m >>= f)
  in_turn m f p q w =
      bind m f w (p w) (λ a w' e. let (b, w'', e', r) = q a w' in (b, w'', e', r ∙ e))

  pub write-Quiet : (i : Index) (x : ℕ) → Quiet (write s.env i x)
  unfolding write
  write-Quiet i x w =
      (tt, (s.nvm_write i x w).1, rw (write, sound.write_status i x w) refl, sound.write_ran i x w)

  wop-Quiet : (i : Index) (x : ℕ) → Quiet (write_or_panic s.env i x)
  unfolding write_or_panic
  wop-Quiet i x w = (
    tt,
    (s.nvm_write i x w).1,
    rw (write_or_panic, sound.write_status i x w) refl,
    sound.write_ran i x w,
  )

  pub read-Quiet : (i : Index) → Quiet (read s.env i)
  unfolding read
  read-Quiet i w = (
    (s.nvm_read i w).1,
    (s.nvm_read i w).2,
    rw (read, sound.read_status i w) refl,
    sound.read_ran i w,
  )

  pub pure-Quiet : {A : Type 0} (a : A) → Quiet (pure a)
  pure-Quiet a w = (a, w, refl, refl)

  enable-Quiet : Quiet (or_panic s.env s.wd_enable)
  unfolding or_panic
  enable-Quiet w =
      (tt, (s.wd_enable w).1, rw (or_panic, sound.enable_status w) refl, sound.enable_ran w)

  disable-Quiet : Quiet (or_panic s.env s.wd_disable)
  unfolding or_panic
  disable-Quiet w =
      (tt, (s.wd_disable w).1, rw (or_panic, sound.disable_status w) refl, sound.disable_ran w)

  pub write_report-Quiet : (r : Report) → Quiet (write_report s.env r)
  unfolding write_report
  write_report-Quiet r = in_turn _ _ (write-Quiet _ _) (λ _.
      in_turn _ _ (write-Quiet _ _) (λ _. in_turn _ _ (write-Quiet _ _) (λ _. write-Quiet _ _)))

  read_report-Quiet : Quiet (read_report s.env)
  unfolding read_report
  read_report-Quiet = in_turn _ _ (read-Quiet _) (λ _.
      in_turn _ _ (read-Quiet _)
        (λ _. in_turn _ _ (read-Quiet _) (λ _. in_turn _ _ (read-Quiet _) (λ _. pure-Quiet _))))

  pub account-Quiet : Quiet (account s)
  unfolding account ask
  account-Quiet =
      in_turn _ _ (λ w. ((s.report_status w).0, (s.report_status w).1, refl, sound.report_ran w))
        (λ result. in_turn _ _ read_report-Quiet (λ old.
          in_turn _ _ (write_report-Quiet (s.update_report result old))
            (λ _. pure-Quiet (s.update_report result old))))

  test_init-Quiet : Quiet (test_init s.env)
  unfolding test_init
  test_init-Quiet w =
      let (a, w', e, r) =
        in_turn _ _ (wop-Quiet test_progress s.test_start) (λ _. enable-Quiet) (s.clear_status w) in
      (a, w', e, r ∙ sound.clear_ran w)

  test_exit-Quiet : Quiet (test_exit s.env)
  unfolding test_exit
  test_exit-Quiet = in_turn _ _ disable-Quiet (λ _. wop-Quiet test_progress s.test_end)

  abbrev pub Attempted : (i : ℕ) → W → Bool → W → Type 0
  Attempted i w b w' = (b ≡ supported i) × (ran w' ≡ (if supported i then i ∷ ran w else ran w))

  start_test_lem :
      (i : ℕ) (w : W) → Runs (start_test s i) w (λ b w'. (b ≡ true) × (ran w' ≡ i ∷ ran w))
  unfolding start_test do_step
  start_test_lem i w =
      bind (test_init s.env) (λ _. do_step s (s.run_entry i) >> (test_exit s.env >> pure true)) w
        (test_init-Quiet w)
        (λ _ w1 e1.
          bind (test_exit s.env) (λ _. pure true) (s.run_entry i w1)
            (test_exit-Quiet (s.run_entry i w1))
            (λ _ w2 r. (true, w2, refl, (refl, r ∙ sound.entry_ran i w1 ∙ ap (λ l. i ∷ l) e1))))

  -- A test that is supported is run, once; one that is not is passed over.
  attempt_lem : (i : ℕ) (w : W) → Runs (attempt s i) w (Attempted i w)
  unfolding attempt do_step ask
  attempt_lem i w =
      let w1 = s.set_current i w in
      let w2 = (s.is_supported i w1).1 in
      let same = sound.supported_ran i w1 ∙ sound.current_ran i w in
      elim (Bool-cases (supported i)) [
        | inl e ↦
            let (b, w3, f, (t, r)) = start_test_lem i w2 in
            (
              b,
              w3,
              rw (attempt, sound.supported_is i w1, e) f,
              (t ∙ sym e, rw e (r ∙ ap (λ l. i ∷ l) same)),
            )
        | inr e ↦ (false, w2, rw (attempt, sound.supported_is i w1, e) refl, (sym e, rw e same))
      ]

  pub run_test_lem : (i : ℕ) (w : W) → Runs (run_test s i) w (Attempted i w)
  unfolding run_test
  run_test_lem i w =
      bind (write s.env cur_suite_num (s.suite_of i))
        (λ _. write s.env cur_test_num i >> attempt s i) w
        (write-Quiet cur_suite_num (s.suite_of i) w)
        (λ _ w1 e1.
          bind (write s.env cur_test_num i) (λ _. attempt s i) w1 (write-Quiet cur_test_num i w1)
            (λ _ w2 e2.
              let (b, w3, f, (t, r)) = attempt_lem i w2 in
              (b, w3, f, (t, r ∙ ap (λ l. if supported i then i ∷ l else l) (e2 ∙ e1)))))
