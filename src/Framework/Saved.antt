-- ===== src/Framework/Saved.antt =====
-- Which tests a regression run, `test_dispatch` of Framework/Run, runs and in which order, from what
-- the non-volatile memory says.
use ff_a_acs.Base.{
  ℕ, ◌+◌, ◌-◌, ◌≤◌, ◌≡◌, ◌≢◌, refl, sym, ap, subst, ◌∙◌, arith, Bool, true, false, List, inl, inr,
  ◌==◌, if◌then◌else◌, Bool-cases,
}
use ff_a_acs.Framework.{
  Index, cur_suite_num, cur_test_num, end_test_num, test_progress, TestInfo, Report, zero_report,
  Io, pure, ◌>>=◌, ◌>>◌, read, write_report, write_info, read_info, start_over,
  get_last_run_test_info,
}
use ff_a_acs.Framework.Run.{Suite, rounds, run_range, fresh_run, resumed_run, test_dispatch}
use ff_a_acs.Framework.Order.{IsSound, Runs, bind, Quiet, in_turn, write-Quiet, write_report-Quiet}
use ff_a_acs.Framework.Course.{numbers, take_while, filter, push_all, resumed_lem}

-- What the non-volatile memory says of the last run.
unfoldable pub saved : (Index → ℕ) → TestInfo
saved m = record {
  suite_num = m cur_suite_num;
  test_num = m cur_test_num;
  last_test_num = m end_test_num;
  progress = m test_progress;
}

differs : {a b : ℕ} → a ≢ b → (a == b) ≡ false
differs d = ground (arith, d)

module _ {W : Type 0} (s : Suite W) (mem : W → Index → ℕ) (ran : W → List ℕ) (supported : ℕ → Bool)
    (sound : IsSound s mem ran supported) where
  read_lem :
      (i : Index) (w : W)
      → Runs (read s.env i) w (λ a w'. (a ≡ mem w i) × (ran w' ≡ ran w) × (mem w' ≡ mem w))
  unfolding read
  read_lem i w = (
    (s.nvm_read i w).1,
    (s.nvm_read i w).2,
    rw (read, sound.read_status i w) refl,
    (sound.read_word i w, sound.read_ran i w, sound.read_mem i w),
  )

  read_info_lem :
      (w : W) → Runs (read_info s.env) w (λ t w'. (t ≡ saved (mem w)) × (ran w' ≡ ran w))
  unfolding read_info saved
  read_info_lem w =
      let (a, w1, ea, (va, ra, ma)) = read_lem cur_suite_num w in
      let (b, w2, eb, (vb, rb, mb)) = read_lem cur_test_num w1 in
      let (c, w3, ec, (vc, rc, mc)) = read_lem end_test_num w2 in
      let (d, w4, ed, (vd, rd, md)) = read_lem test_progress w3 in
      (
        record { suite_num = a; test_num = b; last_test_num = c; progress = d },
        w4,
        rw (read_info, ea, eb, ec, ed) refl,
        (
          (λ j. record {
            suite_num = va j;
            test_num = (vb ∙ ap (λ m. m cur_test_num) ma) j;
            last_test_num = (vc ∙ ap (λ m. m end_test_num) (mb ∙ ma)) j;
            progress = (vd ∙ ap (λ m. m test_progress) (mc ∙ mb ∙ ma)) j;
          }),
          rd ∙ rc ∙ rb ∙ ra,
        ),
      )

  write_info-Quiet : (t : TestInfo) → Quiet s mem ran supported sound (write_info s.env t)
  unfolding write_info
  write_info-Quiet t =
      let step = λ (i : Index) (x : ℕ). write-Quiet s mem ran supported sound i x in
      in_turn s mem ran supported sound _ _ (step cur_suite_num t.suite_num) (λ _.
        in_turn s mem ran supported sound _ _ (step cur_test_num t.test_num) (λ _.
          in_turn s mem ran supported sound _ _ (step end_test_num t.last_test_num)
            (λ _. step test_progress t.progress)))

  start_over_lem :
      (t : TestInfo) (w : W)
      → Runs (start_over s.env t) w (λ t' w'. (t' ≡ s.reset_test_info t) × (ran w' ≡ ran w))
  unfolding start_over
  start_over_lem t w =
      bind (write_info s.env (s.reset_test_info t))
        (λ _. write_report s.env (s.reset_report zero_report) >> pure (s.reset_test_info t)) w
        (write_info-Quiet (s.reset_test_info t) w)
        (λ _ w1 e1.
          bind (write_report s.env (s.reset_report zero_report)) (λ _. pure (s.reset_test_info t))
            w1 (write_report-Quiet s mem ran supported sound (s.reset_report zero_report) w1)
            (λ _ w2 e2. (s.reset_test_info t, w2, refl, (refl, e2 ∙ e1))))

  after_info :
      (t : TestInfo) (w : W)
      → Runs (if s.is_reboot_run t.progress then pure t else start_over s.env t) w (λ t' w'.
        (t' ≡ (if s.is_reboot_run t.progress then t else s.reset_test_info t)) × (ran w' ≡ ran w))
  after_info t w = elim (Bool-cases (s.is_reboot_run t.progress)) [
    | inl e ↦ rw e (t, w, refl, (refl, refl))
    | inr e ↦ rw e (start_over_lem t w)
  ]

  -- After power on the information is the one that is reset to, and else the saved one.
  abbrev Found : (Index → ℕ) → TestInfo
  Found m = if s.is_reboot_run (saved m).progress then saved m else s.reset_test_info (saved m)

  get_last_run_lem :
      (w : W)
      → Runs (get_last_run_test_info s.env) w (λ t w'. (t ≡ Found (mem w)) × (ran w' ≡ ran w))
  unfolding get_last_run_test_info
  get_last_run_lem w =
      bind (read_info s.env)
        (λ t. if s.is_reboot_run t.progress then pure t else start_over s.env t) w (read_info_lem w)
        (λ t w1 (e, r).
          let (t', w2, f, (g, q)) = after_info t w1 in
          (
            t',
            w2,
            f,
            (g ∙ ap (λ u. if s.is_reboot_run u.progress then u else s.reset_test_info u) e, q ∙ r),
          ))

  dispatch_lem :
      (w : W) (P : W → Type 0)
      → ((t : TestInfo) (w1 : W)
          → t ≡ Found (mem w)
          → ran w1 ≡ ran w
          → Runs
              (if t.test_num == s.invalid_test_num then fresh_run s false t else resumed_run s t)
              w1
              (λ _ w'. P w'))
      → Runs (test_dispatch s false) w (λ _ w'. P w')
  unfolding test_dispatch
  dispatch_lem w P k =
      bind {P = λ _ w1. (ran w1 ≡ ran w) × (mem w1 ≡ mem w)} s.sync
        (λ _. get_last_run_test_info s.env >>= λ t.
          if t.test_num == s.invalid_test_num then fresh_run s false t else resumed_run s t)
        w
        (
          tt,
          (s.sync w).1,
          (λ j. (sound.sync_ok w j, (s.sync w).1)),
          (sound.sync_ran w, sound.sync_mem w),
        )
        (λ _ w1 (r1, m1).
          bind (get_last_run_test_info s.env)
            (λ t. if t.test_num == s.invalid_test_num then fresh_run s false t else resumed_run s t)
            w1 (get_last_run_lem w1) (λ t w2 (e, r2). k t w2 (e ∙ ap Found m1) (r2 ∙ r1)))

  abbrev plan : (n i : ℕ) → List ℕ
  plan n i = filter supported (take_while s.has_entry (numbers n i))

  abbrev Did : List ℕ → W → W → Type 0
  Did tests w w' = ran w' ≡ push_all tests (ran w)

  -- What follows the look at the memory, for some information.
  abbrev chosen : TestInfo → Io W Report
  chosen t = if t.test_num == s.invalid_test_num then fresh_run s false t else resumed_run s t

  resumed_chosen :
      (t : TestInfo) (w w1 : W)
      → t.test_num ≢ s.invalid_test_num
      → t.test_num ≤ t.last_test_num
      → s.has_entry t.test_num ≡ true
      → ran w1 ≡ ran w
      → Runs (chosen t) w1 (λ _ w'. Did (plan (t.last_test_num - t.test_num) (t.test_num + 1)) w w')
  unfolding resumed_run run_range
  resumed_chosen t w w1 some_test l here r =
      let left = t.last_test_num - t.test_num in
      let (rep, w2, g, q) =
        resumed_lem s mem ran supported sound t.progress left t.test_num
          (record { reboot = true; report = zero_report }) w1 refl here in
      rw (differs some_test) (
        rep,
        w2,
        ap
              (λ n.
                rounds s t.progress n t.test_num (record { reboot = true; report = zero_report })
                  w1)
              (omega (arith, l))
            ∙ g,
        q ∙ ap (push_all (plan left (t.test_num + 1))) r,
      )

  -- A run after a reset in a test, which the memory names: that test is not run again, and those behind
  -- it up to the saved end are run as in a run without the reset.
  pub test_dispatch-resumed :
      (w : W)
      → s.is_reboot_run (mem w test_progress) ≡ true
      → mem w cur_test_num ≢ s.invalid_test_num
      → mem w cur_test_num ≤ mem w end_test_num
      → s.has_entry (mem w cur_test_num) ≡ true
      → Runs (test_dispatch s false) w (λ _ w'.
        ran w'
        ≡ push_all
            (filter supported (
              take_while s.has_entry
                (numbers (mem w end_test_num - mem w cur_test_num) (mem w cur_test_num + 1))))
            (ran w))
  unfolding saved
  test_dispatch-resumed w e some_test l here = dispatch_lem w _ (λ t w1 f r.
      subst
        (λ u. Runs (chosen u) w1 (λ _ w'.
          Did (plan (mem w end_test_num - mem w cur_test_num) (mem w cur_test_num + 1)) w w'))
        (sym (f ∙ kept)) (resumed_chosen (saved (mem w)) w w1 some_test l here r))
    where
      kept : Found (mem w) ≡ saved (mem w)
      kept = rw e refl
