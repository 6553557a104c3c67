-- ===== src/TpmPlat/Identity.antt =====
-- The fixed answers of platform/pal_baremetal/tgt_tfa_fvp/src/pal_tpm_tcg_platform.c: identity,
-- firmware secrets, manufacturer's data, capabilities, and the PCRs' start values.
use ff_a_acs.Base.{
  ℕ, ◌-◌, ◌%◌, Bool, true, false, ◌&&◌, ◌||◌, Option, none, some, List, [], ◌∷◌, get_or, ltb, leb,
  ◌==◌, ◌!=◌, if◌then◌else◌,
}
use ff_a_acs.Base.Bytes.{Bytes, fill_bytes}
use ff_a_acs.TpmPlat.Entropy.{put_byte}
use Prim.Native.Nat.{bit_xor, bit_and}

-- The loops `for (i = 0; i < n; i++) m[i] = f(i)` of this file.
unfoldable pub tabulate : (ℕ → ℕ) → (n : ℕ) → Bytes → Bytes
tabulate f n m i = if ltb i n then f i else m i

-- The count of bytes, and the buffer.
unfoldable pub get_unique : (which size : ℕ) → Option Bytes → ℕ × Option Bytes
unfolding tabulate
get_unique which size none = (0, none)
get_unique which size (some m) =
    if ltb 32 size
    then (0, some m)
    else (size, some (tabulate (λ i. bit_xor 0xa5 (i % 256)) size m))

abbrev pub manufacturer : ℕ
manufacturer = 0x41435320

unfoldable pub get_vendor_capability_code : ℕ → ℕ
get_vendor_capability_code index =
    if index == 1 then 0x41435320 else if index == 2 then 0x6654504d else 0

-- TpmFirmwareVersionHigh, TpmFirmwareVersionLow, TpmFirmwareSvn and TpmFirmwareMaxSvn.
abbrev pub firmware : ℕ × ℕ × ℕ × ℕ
firmware = (0x20260624, 0, 1, 255)

-- The status, of which `none` is -1, the buffer, and the size that is stored: `none` for a NULL
-- pointer to it.
unfoldable pub get_firmware_svn_secret :
    (svn size : ℕ) → Option Bytes → Option ℕ → Option ℕ × Option Bytes × Option ℕ
unfolding tabulate
get_firmware_svn_secret svn size none secret_size = (none, none, secret_size)
get_firmware_svn_secret svn size (some m) none = (none, some m, none)
get_firmware_svn_secret svn size (some m) (some old) =
    if ltb 32 size
    then (none, some m, some old)
    else (some 0, some (tabulate (λ i. bit_xor svn i % 256) size m), some size)

unfoldable pub get_firmware_secret :
    (size : ℕ) → Option Bytes → Option ℕ → Option ℕ × Option Bytes × Option ℕ
unfolding tabulate
get_firmware_secret size none secret_size = (none, none, secret_size)
get_firmware_secret size (some m) none = (none, some m, none)
get_firmware_secret size (some m) (some old) =
    if ltb 32 size
    then (none, some m, some old)
    else (some 0, some (tabulate (λ i. bit_xor 0x5a i % 256) size m), some size)

unfoldable pub get_manufacture_data : Option Bytes → (size : ℕ) → Option Bytes
unfolding tabulate
get_manufacture_data none size = none
get_manufacture_data (some m) size =
    some (tabulate (λ i. bit_xor 0xc3 (i % 256)) (if ltb 32 size then 32 else size) m)

pub record SpecCapability : Type 0 where
  pub spec_level : ℕ
  pub spec_version : ℕ
  pub spec_year : ℕ
  pub spec_day_of_year : ℕ
  pub platform_family : ℕ
  pub platform_level : ℕ
  pub platform_revision : ℕ
  pub platform_year : ℕ
  pub platform_day_of_year : ℕ

unfoldable pub get_spec_capability_value : Option SpecCapability → Option SpecCapability
get_spec_capability_value none = none
get_spec_capability_value (some old) = some (record {
  spec_level = 0;
  spec_version = 184;
  spec_year = 2025;
  spec_day_of_year = 79;
  platform_family = 1;
  platform_level = 0;
  platform_revision = 0x105;
  platform_year = 0;
  platform_day_of_year = 0;
})

-- The six members of `PCR_Attributes`, of a header outside the repository, in their order; the names
-- but for `resetLocality`, which the code reads as the fifth, are the model's.
pub record PcrAttributes : Type 0 where
  pub state_save : ℕ
  pub second : ℕ
  pub third : ℕ
  pub fourth : ℕ
  pub reset_locality : ℕ
  pub extend_locality : ℕ

abbrev row : ℕ → ℕ → ℕ → ℕ → ℕ → ℕ → PcrAttributes
row a b c d e f = record {
  state_save = a;
  second = b;
  third = c;
  fourth = d;
  reset_locality = e;
  extend_locality = f;
}

abbrev static_pcr : PcrAttributes
static_pcr = row 1 0 0 0 0 0x1f

unfoldable pub pcr_init_attributes : List PcrAttributes
pcr_init_attributes =
    static_pcr
    ∷ static_pcr
    ∷ static_pcr
    ∷ static_pcr
    ∷ static_pcr
    ∷ static_pcr
    ∷ static_pcr
    ∷ static_pcr
    ∷ static_pcr
    ∷ static_pcr
    ∷ static_pcr
    ∷ static_pcr
    ∷ static_pcr
    ∷ static_pcr
    ∷ static_pcr
    ∷ static_pcr
    ∷ row 0 0 0 0 0x0f 0x1f
    ∷ row 0 0 0 0 0x10 0x1c
    ∷ row 0 0 0 0 0x10 0x1c
    ∷ row 0 0 0 0 0x10 0x0c
    ∷ row 0 1 1 1 0x14 0x0e
    ∷ row 0 1 1 1 0x14 0x04
    ∷ row 0 1 1 1 0x14 0x04
    ∷ row 0 0 0 0 0x0f 0x1f
    ∷ []

-- IMPLEMENTATION_PCR is the size of the table.
abbrev pub number_of_pcrs : ℕ
number_of_pcrs = 24

unfoldable pub get_pcr_initialization_attributes : ℕ → PcrAttributes
unfolding pcr_init_attributes
get_pcr_initialization_attributes pcr =
    get_or pcr_init_attributes (if leb number_of_pcrs pcr then 0 else pcr) static_pcr

unfoldable pub default_value : ℕ → ℕ
unfolding get_pcr_initialization_attributes
default_value pcr =
    if bit_and (get_pcr_initialization_attributes pcr).reset_locality 0x10 != 0 then 0xff else 0

-- The build says which of the two algorithms it has, and their ids are of the TPM's headers.
unfoldable pub is_pcr_bank_default_active :
    (with_sha256 with_sha384 : Bool) → (sha256 sha384 : ℕ) → (alg : ℕ) → Bool
is_pcr_bank_default_active with_sha256 with_sha384 sha256 sha384 alg =
    if with_sha256 && (alg == sha256) then true else with_sha384 && (alg == sha384)

-- The digest size is `CryptHashGetDigestSize` of the algorithm, and HCRTM_PCR is of the TPM's headers.
-- The result says whether it is TPM_RC_SUCCESS; then the buffer and the length.
module _ (digest_size : ℕ → ℕ) (hcrtm_pcr : ℕ) where
  unfoldable pub get_initial_value_for_pcr :
      (pcr alg startup_locality : ℕ)
      → Option Bytes
      → (buffer_size : ℕ) → Option ℕ
      → Bool × Option Bytes × Option ℕ
  unfolding default_value
  get_initial_value_for_pcr pcr alg startup_locality none buffer_size len = (false, none, len)
  get_initial_value_for_pcr pcr alg startup_locality (some m) buffer_size none =
      (false, some m, none)
  get_initial_value_for_pcr pcr alg startup_locality (some m) buffer_size (some old) =
      let size = digest_size alg in
      let filled = fill_bytes m 0 (default_value pcr) size in
      if leb number_of_pcrs pcr || ((size == 0) || ltb buffer_size size)
      then (false, some m, some old)
      else (
        true,
        some (if pcr == hcrtm_pcr then put_byte filled (size - 1) startup_locality else filled),
        some size,
      )
