-- ===== src/TpmPlat/Pcrs.antt =====
-- The start values of the PCRs of TpmPlat/Identity, told apart by the PCR's number.
use ff_a_acs.Base.{
  ℕ, zero, suc, ◌+◌, ◌-◌, ◌≤◌, ◌<◌, ◌≡◌, ◌≢◌, refl, ◌∙◌, arith, true, false, some, ◌==◌, Bool-cases,
  inl, inr, ◌⊎◌, ◌&&◌, leb, ltb, ◌||◌, if◌then◌else◌,
}
use ff_a_acs.Base.Bytes.{Bytes, fill_bytes, fill_bytes_inside, fill_bytes_outside}
use ff_a_acs.TpmPlat.Entropy.{put_byte, put_byte_at, put_byte_other}
use ff_a_acs.TpmPlat.Identity.{
  get_initial_value_for_pcr, get_pcr_initialization_attributes, default_value, pcr_init_attributes,
}

-- The PCRs 17 to 22 are the ones that locality 4 resets.
unfoldable pub is_dynamic : ℕ → ℕ
is_dynamic pcr = if leb 17 pcr && leb pcr 22 then 0xff else 0

start_value : (pcr : ℕ) → pcr < 24 → default_value pcr ≡ is_dynamic pcr
unfolding default_value is_dynamic get_pcr_initialization_attributes pcr_init_attributes
start_value zero h = refl
start_value (suc zero) h = refl
start_value (suc (suc zero)) h = refl
start_value (suc (suc (suc zero))) h = refl
start_value (suc (suc (suc (suc zero)))) h = refl
start_value (suc (suc (suc (suc (suc zero))))) h = refl
start_value (suc (suc (suc (suc (suc (suc zero)))))) h = refl
start_value (suc (suc (suc (suc (suc (suc (suc zero))))))) h = refl
start_value (suc (suc (suc (suc (suc (suc (suc (suc zero)))))))) h = refl
start_value (suc (suc (suc (suc (suc (suc (suc (suc (suc zero))))))))) h = refl
start_value (suc (suc (suc (suc (suc (suc (suc (suc (suc (suc zero)))))))))) h = refl
start_value (suc (suc (suc (suc (suc (suc (suc (suc (suc (suc (suc zero))))))))))) h = refl
start_value (suc (suc (suc (suc (suc (suc (suc (suc (suc (suc (suc (suc zero)))))))))))) h = refl
start_value (suc (suc (suc (suc (suc (suc (suc (suc (suc (suc (suc (suc (suc zero))))))))))))) h =
    refl
start_value (suc (suc (suc (suc (suc (suc (suc (suc (suc (suc (suc (suc (suc (suc zero))))))))))))))
      h =
    refl
start_value
      (suc (suc (suc (suc (suc (suc (suc (suc (suc (suc (suc (suc (suc (suc (suc zero)))))))))))))))
      h =
    refl
start_value
      (suc (
        suc
          (suc (suc (suc (suc (suc (suc (suc (suc (suc (suc (suc (suc (suc (suc zero))))))))))))))))
      h =
    refl
start_value
      (suc (
        suc (
          suc (
            suc
              (suc (suc (suc (suc (suc (suc (suc (suc (suc (suc (suc (suc (suc zero)))))))))))))))))
      h =
    refl
start_value
      (suc (
        suc (
          suc (
            suc (
              suc (
                suc
                  (suc (suc (suc (suc (suc (suc (suc (suc (suc (suc (suc (suc zero))))))))))))))))))
      h =
    refl
start_value
      (suc (
        suc (
          suc (
            suc (
              suc (
                suc (
                  suc (
                    suc
                      (suc (suc (suc (suc (suc (suc (suc (suc (suc (suc (suc zero)))))))))))))))))))
      h =
    refl
start_value
      (suc (
        suc (
          suc (
            suc (
              suc (
                suc (
                  suc (
                    suc (
                      suc (
                        suc
                          (suc (suc (suc (suc (suc (suc (suc (suc (suc (suc zero))))))))))))))))))))
      h =
    refl
start_value
      (suc (
        suc (
          suc (
            suc (
              suc (
                suc (
                  suc (
                    suc (
                      suc (
                        suc (
                          suc (
                            suc
                              (suc (suc (suc (suc (suc (suc (suc (suc (suc zero)))))))))))))))))))))
      h =
    refl
start_value
      (suc (
        suc (
          suc (
            suc (
              suc (
                suc (
                  suc (
                    suc (
                      suc (
                        suc (
                          suc (
                            suc (
                              suc (
                                suc
                                  (suc (suc (suc (suc (suc (suc (suc (suc zero))))))))))))))))))))))
      h =
    refl
start_value
      (suc (
        suc (
          suc (
            suc (
              suc (
                suc (
                  suc (
                    suc (
                      suc (
                        suc (
                          suc (
                            suc (
                              suc (
                                suc (
                                  suc (
                                    suc
                                      (suc (suc (suc (suc (suc (suc (suc zero)))))))))))))))))))))))
      h =
    refl
start_value
      (suc (
        suc (
          suc (
            suc (
              suc (
                suc (
                  suc (
                    suc (
                      suc (
                        suc (
                          suc (
                            suc (
                              suc (
                                suc (
                                  suc (
                                    suc (
                                      suc
                                        (suc (suc (suc (suc (suc (suc (suc n))))))))))))))))))))))))
      h =
    omega (arith, h)

accepted :
    (pcr size buffer_size : ℕ)
    → pcr < 24
    → 0 < size
    → size ≤ buffer_size
    → (leb 24 pcr || ((size == 0) || ltb buffer_size size)) ≡ false
accepted pcr size buffer_size h k l = ground arith

inside :
    (m : Bytes) (pcr size x : ℕ)
    → pcr < 24
    → x < size
    → fill_bytes m 0 (default_value pcr) size x ≡ is_dynamic pcr
inside m pcr size x h near =
    fill_bytes_inside m 0 (default_value pcr) size x (omega arith) (omega (arith, near))
    ∙ start_value pcr h

-- For a PCR of the implementation, a buffer that holds the digest: every byte of it is the PCR's
-- start value, but for the last one of the PCR of the H-CRTM, which is the locality of the startup;
-- what lies behind the digest stays.
pub get_initial_value_for_pcr_lem :
    (digest_size : ℕ → ℕ) (hcrtm_pcr pcr alg startup_locality buffer_size old : ℕ) (m : Bytes)
    → pcr < 24
    → 0 < digest_size alg
    → digest_size alg ≤ buffer_size
    → (out : Bytes) × (get_initial_value_for_pcr digest_size hcrtm_pcr pcr alg startup_locality
          (some m)
          buffer_size
          (some old)
        ≡ (true, some out, some (digest_size alg)))
      × ((x : ℕ)
          → x < digest_size alg
          → (x + 1 ≢ digest_size alg) ⊎ (pcr ≢ hcrtm_pcr)
          → out x ≡ is_dynamic pcr)
      × (pcr ≡ hcrtm_pcr → out (digest_size alg - 1) ≡ startup_locality)
      × ((x : ℕ) → digest_size alg ≤ x → out x ≡ m x)
unfolding get_initial_value_for_pcr
get_initial_value_for_pcr_lem digest_size hcrtm_pcr pcr alg startup_locality buffer_size old m h k
      l =
    let size = digest_size alg in
    let filled = fill_bytes m 0 (default_value pcr) size in
    let ok = accepted pcr size buffer_size h k l in
    elim (Bool-cases (pcr == hcrtm_pcr)) [
      | inl e ↦ (
        put_byte filled (size - 1) startup_locality,
        rw (ok, e) refl,
        λ x near other.
            put_byte_other filled (size - 1) startup_locality x (ground (arith, near, other, e))
            ∙ inside m pcr size x h near,
        λ f. put_byte_at filled (size - 1) startup_locality,
        λ x far.
            put_byte_other filled (size - 1) startup_locality x (omega (arith, k, far))
            ∙ fill_bytes_outside m 0 (default_value pcr) size x (inr (omega (arith, far))),
      )
      | inr e ↦ (
        filled,
        rw (ok, e) refl,
        λ x near other. inside m pcr size x h near,
        λ f. ground (arith, f, e),
        λ x far. fill_bytes_outside m 0 (default_value pcr) size x (inr (omega (arith, far))),
      )
    ]
