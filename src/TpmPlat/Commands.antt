-- ===== src/TpmPlat/Commands.antt =====
-- The set-up and two commands on a library that counts its commands and echoes requests.
use ff_a_acs.Base.{ℕ, suc, ◌≡◌, refl, true, [], ◌∷◌, ◌==◌, if◌then◌else◌}
use ff_a_acs.Tpm.State.{in_place}
use ff_a_acs.TpmPlat.{start, set_nv_avail}
use ff_a_acs.TpmPlat.Startup.{
  Library, TpmState, startup_done, begins, startup_accepted, manufactured, pal_tpm_startup,
  pal_tpm_init, pal_tpm_execute_command,
}
use ff_a_acs.TpmPlat.Ready.{all_sized, execute_all, run_all, execute_all-run_all}

abbrev counting : Library ℕ
counting = record {
  tpm_init = λ w. (w.0, 0);
  manufacture = λ w. (0, (record w.0 { nv_needs_manufacture = 0 }, w.1));
  run = λ capacity size bytes w.
      (if size == 12 then (10, in_place startup_done) else (size, in_place bytes), (w.0, suc w.1));
}

abbrev off : TpmState ℕ
off = record { initialized = 0; inner = (start, 7) }

abbrev on : TpmState ℕ
on = record {
  initialized = 1;
  inner = (record (set_nv_avail start) { nv_needs_manufacture = 0 }, 1);
}

sets_up : pal_tpm_init counting off ≡ (0, on)
unfolding pal_tpm_init pal_tpm_startup manufactured startup_accepted begins start set_nv_avail
sets_up = refl

sized : all_sized ((2, 8 ∷ 9 ∷ []) ∷ (1, 5 ∷ []) ∷ []) ≡ true
unfolding all_sized
sized = refl

execute_all-run_all_example : execute_all counting off ((2, 8 ∷ 9 ∷ []) ∷ (1, 5 ∷ []) ∷ []) ≡ (
  (run_all counting on.inner ((2, 8 ∷ 9 ∷ []) ∷ (1, 5 ∷ []) ∷ [])).0,
  record on { inner = (run_all counting on.inner ((2, 8 ∷ 9 ∷ []) ∷ (1, 5 ∷ []) ∷ [])).1 },
)
execute_all-run_all_example =
    execute_all-run_all counting off on 2 (8 ∷ 9 ∷ []) ((1, 5 ∷ []) ∷ []) sets_up sized

-- Three commands ran, that of the set-up among them.
counts : (execute_all counting off ((2, 8 ∷ 9 ∷ []) ∷ (1, 5 ∷ []) ∷ [])).1.inner.1 ≡ 3
unfolding execute_all pal_tpm_execute_command pal_tpm_init pal_tpm_startup manufactured
    startup_accepted begins start set_nv_avail
counts = refl
