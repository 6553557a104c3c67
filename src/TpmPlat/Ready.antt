-- ===== src/TpmPlat/Ready.antt =====
-- The commands of platform/pal_baremetal/tgt_tfa_fvp/src/pal_tpm.c one after another: the TPM is set up
-- once, and then each command is the library's own.
use ff_a_acs.Base.{
  ℕ, Bool, true, false, ◌&&◌, List, [], ◌∷◌, ◌==◌, ◌!=◌, ◌≡◌, refl, sym, ap, ◌∙◌, arith,
}
use ff_a_acs.Tpm.Mmio.{data_buffer_size}
use ff_a_acs.Tpm.State.{Executed}
use ff_a_acs.TpmPlat.{Globals}
use ff_a_acs.TpmPlat.Startup.{
  Library, TpmState, pal_tpm_startup, manufactured, pal_tpm_init, executed, pal_tpm_execute_command,
}

abbrev pub Request : Type 0
Request = ℕ × List ℕ

-- No request is empty.
unfoldable pub all_sized : List Request → Bool
all_sized [] = true
all_sized ((size, bytes) ∷ rest) = (size != 0) && all_sized rest

nonzero_case : (n : ℕ) → (n != 0) ≡ true → (n == 0) ≡ false
nonzero_case n e = ground (arith, e)

first_sized :
    (size : ℕ) (bytes : List ℕ) (rest : List Request)
    → all_sized ((size, bytes) ∷ rest) ≡ true
    → (size != 0) ≡ true
unfolding all_sized
first_sized size bytes rest a = ground (arith, a)

rest_sized :
    (size : ℕ) (bytes : List ℕ) (rest : List Request)
    → all_sized ((size, bytes) ∷ rest) ≡ true
    → all_sized rest ≡ true
unfolding all_sized
rest_sized size bytes rest a = ground (arith, a)

module _ {W : Type 0} (lib : Library W) where
  -- The answers of the service's platform to some requests, and the TPM after them.
  unfoldable pub execute_all : TpmState W → List Request → List Executed × TpmState W
  unfolding pal_tpm_execute_command
  execute_all s [] = ([], s)
  execute_all s ((size, bytes) ∷ rest) =
      let (out, s1) = pal_tpm_execute_command lib s size bytes in
      let (outs, s2) = execute_all s1 rest in (out ∷ outs, s2)

  -- The library alone.
  unfoldable pub run_all : Globals × W → List Request → List Executed × (Globals × W)
  run_all w [] = ([], w)
  run_all w ((size, bytes) ∷ rest) =
      let (out, w1) = lib.run data_buffer_size size bytes w in
      let (outs, w2) = run_all w1 rest in (executed out ∷ outs, w2)

  init-ready : (s : TpmState W) → (s.initialized != 0) ≡ true → pal_tpm_init lib s ≡ (0, s)
  unfolding pal_tpm_init
  init-ready s e = rw (e) refl

  -- A setup that succeeds leaves the TPM ready.
  init-initialized :
      (s : TpmState W)
      → (pal_tpm_init lib s).0 ≡ 0
      → ((pal_tpm_init lib s).1.initialized != 0) ≡ true
  unfolding pal_tpm_init pal_tpm_startup manufactured
  init-initialized s e = ground (arith, e)

  execute_ready :
      (s s1 : TpmState W)
      → (size : ℕ) → (bytes : List ℕ) → pal_tpm_init lib s ≡ (0, s1)
      → (size != 0) ≡ true
      → pal_tpm_execute_command lib s size bytes ≡ (
        executed (lib.run data_buffer_size size bytes s1.inner).0,
        record s1 { inner = (lib.run data_buffer_size size bytes s1.inner).1 },
      )
  unfolding pal_tpm_execute_command
  execute_ready s s1 size bytes i n = let e = nonzero_case size n in rw (i, e) refl

  ready_all :
      (s : TpmState W)
      → (requests : List Request) → (s.initialized != 0) ≡ true
      → all_sized requests ≡ true
      → execute_all s requests
        ≡ ((run_all s.inner requests).0, record s { inner = (run_all s.inner requests).1 })
  unfolding execute_all run_all
  ready_all s [] i a = refl
  ready_all s ((size, bytes) ∷ rest) i a =
      let e = execute_ready s s size bytes (init-ready s i) (first_sized size bytes rest a) in
      let w1 = (lib.run data_buffer_size size bytes s.inner).1 in
      let ih = ready_all (record s { inner = w1 }) rest i (rest_sized size bytes rest a) in
      rw (execute_all, e, ih) refl

  -- Where the setup succeeds, whatever it finds, some non-empty requests are answered as the library
  -- alone answers them from the state of the setup on: the later requests set nothing up again.
  pub execute_all-run_all :
      (s s1 : TpmState W)
      → (size : ℕ) → (bytes : List ℕ) → (rest : List Request) → pal_tpm_init lib s ≡ (0, s1)
      → all_sized ((size, bytes) ∷ rest) ≡ true
      → execute_all s ((size, bytes) ∷ rest) ≡ (
        (run_all s1.inner ((size, bytes) ∷ rest)).0,
        record s1 { inner = (run_all s1.inner ((size, bytes) ∷ rest)).1 },
      )
  unfolding execute_all run_all
  execute_all-run_all s s1 size bytes rest e a =
      let i = ap (λ p. p.1.initialized != 0) (sym e) ∙ init-initialized s (ap (λ p. p.0) e) in
      let first = execute_ready s s1 size bytes e (first_sized size bytes rest a) in
      let w1 = (lib.run data_buffer_size size bytes s1.inner).1 in
      let later = ready_all (record s1 { inner = w1 }) rest i (rest_sized size bytes rest a) in
      rw (execute_all, first, later) refl
