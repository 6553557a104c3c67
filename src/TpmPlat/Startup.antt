-- ===== src/TpmPlat/Startup.antt =====
-- The TPM behind the service, platform/pal_baremetal/tgt_tfa_fvp/src/pal_tpm.c: it is set up at the first
-- command. The TPM library, which is no code of the repository, is an argument; it works on the
-- platform's globals and a state of its own.
use ff_a_acs.Base.{ℕ, Bool, true, false, ◌&&◌, List, [], ◌∷◌, ◌==◌, ◌!=◌, if◌then◌else◌}
use ff_a_acs.Ffa.{Args}
use ff_a_acs.Tpm.Mmio.{data_buffer_size}
use ff_a_acs.Tpm.State.{Response, null, in_place, elsewhere, Executed, Platform, zero_buffer}
use ff_a_acs.TpmPlat.{Globals, set_nv_avail}

-- `_TPM_Init`, `TPM_Manufacture` with its status, and `ExecuteCommand`: the size and the place of
-- the response to a request, for a buffer of `capacity` bytes.
pub record Library (W : Type 0) : Type 0 where
  pub tpm_init : Globals × W → Globals × W
  pub manufacture : Globals × W → ℕ × (Globals × W)
  pub run : (capacity size : ℕ) → List ℕ → Globals × W → (ℕ × Response) × (Globals × W)

-- `g_pal_tpm_initialized`, and what the library works on.
pub record TpmState (W : Type 0) : Type 0 where
  pub initialized : ℕ
  pub inner : Globals × W

-- TPM2_Startup with TPM_SU_CLEAR, and the answer to it.
abbrev pub startup_clear_cmd : List ℕ
startup_clear_cmd = 0x80 ∷ 0x01 ∷ 0 ∷ 0 ∷ 0 ∷ 0x0c ∷ 0 ∷ 0 ∷ 0x01 ∷ 0x44 ∷ 0 ∷ 0 ∷ []

abbrev pub startup_done : List ℕ
startup_done = 0x80 ∷ 0x01 ∷ 0 ∷ 0 ∷ 0 ∷ 0x0a ∷ 0 ∷ 0 ∷ 0 ∷ 0 ∷ []

-- The bytes stand at the start of a buffer.
unfoldable pub begins : List ℕ → List ℕ → Bool
begins [] bs = true
begins (x ∷ xs) [] = false
begins (x ∷ xs) (b ∷ bs) = let rest = begins xs bs in (b == x) && rest

unfoldable pub startup_accepted : ℕ → Response → Bool
unfolding begins
startup_accepted size null = false
startup_accepted size (in_place bs) = (size == 10) && begins startup_done bs
startup_accepted size (elsewhere bs) = (size == 10) && begins startup_done bs

abbrev pub no_response : ℕ → Response → Bool
no_response size null = true
no_response size (in_place bs) = size == 0
no_response size (elsewhere bs) = size == 0

abbrev pub refused : Executed
refused = record { status = 1; size = data_buffer_size; response = in_place zero_buffer }

abbrev pub executed : (ℕ × Response) → Executed
executed (size, response) = record {
  status = if no_response size response then 1 else 0;
  size = size;
  response = response;
}

module _ {W : Type 0} (lib : Library W) where
  -- The status, 0 for success and 1 for PAL_TPM_INVALID_PARAMETER.
  unfoldable pub pal_tpm_startup : Globals × W → ℕ × (Globals × W)
  unfolding startup_accepted
  pal_tpm_startup w =
      let ((size, response), w1) = lib.run 10 12 startup_clear_cmd w in
      (if startup_accepted size response then 0 else 1, w1)

  unfoldable pub manufactured : Globals × W → ℕ × (Globals × W)
  manufactured w = if w.0.nv_needs_manufacture != 0 then lib.manufacture w else (0, w)

  -- `_plat__NVEnable` always succeeds.
  unfoldable pub pal_tpm_init : TpmState W → ℕ × TpmState W
  unfolding pal_tpm_startup manufactured set_nv_avail
  pal_tpm_init s =
      let w1 = lib.tpm_init (set_nv_avail s.inner.0, s.inner.1) in
      let (made, w2) = manufactured w1 in
      let (status, w3) = pal_tpm_startup w2 in
      if s.initialized != 0
      then (0, s)
      else if made != 0
      then (1, record s { inner = w2 })
      else if status != 0
      then (1, record s { inner = w3 })
      else (0, record { initialized = 1; inner = w3 })

  -- As the service calls it: with a request, and a cleared buffer for the response.
  unfoldable pub pal_tpm_execute_command : TpmState W → ℕ → List ℕ → Executed × TpmState W
  unfolding pal_tpm_init
  pal_tpm_execute_command s request_size request =
      let (status, s1) = pal_tpm_init s in
      let (out, w) = lib.run data_buffer_size request_size request s1.inner in
      if request_size == 0
      then (refused, s)
      else if status != 0
      then (refused, s1)
      else (executed out, record s1 { inner = w })

  -- The platform of the service.
  unfoldable pub pal_platform :
      (TpmState W → Args → ℕ × TpmState W)
      → (ep_properties : ℕ) → (delay_sri : Bool) → (wide_shift : ℕ → ℕ) → Platform (TpmState W)
  pal_platform notification_set ep_properties delay_sri wide_shift = record {
    execute = pal_tpm_execute_command;
    notification_set = notification_set;
    ep_properties = ep_properties;
    delay_sri = delay_sri;
    wide_shift = wide_shift;
  }
