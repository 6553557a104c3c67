-- ===== src/TpmPlat/Tests.antt =====
-- The TPM's platform side on small inputs.
use ff_a_acs.Base.{ℕ, suc, ◌+◌, ◌<◌, ◌≤◌, ◌≡◌, refl, arith, true, some, [], ◌∷◌}
use ff_a_acs.Base.Bytes.{Bytes}
use ff_a_acs.TpmPlat.{
  start, nv_memory_read, nv_memory_write, nv_get_changed_status, get_nv_ready_state, set_nv_avail,
  nv_range_valid,
}
use ff_a_acs.TpmPlat.Entropy.{Source, get_entropy}
use ff_a_acs.TpmPlat.Identity.{get_initial_value_for_pcr}
use ff_a_acs.TpmPlat.Laws.{
  nv_memory_read-nv_memory_write, write, clear, move, stores, IsTracked, start-IsTracked,
  stores-IsTracked,
}
use ff_a_acs.TpmPlat.Stream.{IsAt, stream, get_entropy_lem}
use ff_a_acs.TpmPlat.Pcrs.{get_initial_value_for_pcr_lem}

abbrev counting : Bytes
counting k = k + 1

abbrev blank : Bytes
blank _ = 0

refused_behind : (nv_memory_write 16 14 3 (some counting) start).0 ≡ 0
unfolding nv_memory_write nv_range_valid
refused_behind = refl

ready : get_nv_ready_state (set_nv_avail start) ≡ 0
unfolding get_nv_ready_state set_nv_avail
ready = refl

nv_memory_read-nv_memory_write_example :
    (out : Bytes) × (nv_memory_read 16 4 3
        (some blank)
        (nv_memory_write 16 4 3 (some counting) start).1
      ≡ (1, some out))
    × ((k : ℕ) → k < 3 → out k ≡ counting k)
    × (nv_get_changed_status 16 4 3 (some counting) (nv_memory_write 16 4 3 (some counting) start).1
        ≡ some 0)
nv_memory_read-nv_memory_write_example =
    nv_memory_read-nv_memory_write 16 4 3 counting blank start (omega arith)

stores-IsTracked_example :
    IsTracked 16
      (stores 16 (write 4 3 (some counting) ∷ move 4 6 3 ∷ clear 15 2 ∷ clear 0 2 ∷ []) start)
stores-IsTracked_example =
    stores-IsTracked 16 (write 4 3 (some counting) ∷ move 4 6 3 ∷ clear 15 2 ∷ clear 0 2 ∷ []) start
      (start-IsTracked 16)

-- The generator gives 1000, 1001, ...
abbrev random : ℕ → ℕ × ℕ × ℕ
random k = (1, k + 1000, suc k)

abbrev fresh_source : Source ℕ
fresh_source = record { globals = start; world = 0 }

fresh-IsAt : IsAt (λ k. k + 1000) 0 fresh_source
unfolding start
fresh-IsAt = record { fresh = λ h. (refl, refl); kept = λ h. omega (arith, h) }

get_entropy_lem_example :
    (out : Bytes) × ((get_entropy random (some blank) 12 fresh_source).0 ≡ some 12)
    × ((get_entropy random (some blank) 12 fresh_source).1 ≡ some out)
    × ((k : ℕ) → k < 12 → out k ≡ stream (λ k. k + 1000) (0 + k))
    × ((x : ℕ) → 12 ≤ x → out x ≡ blank x)
    × IsAt (λ k. k + 1000) (0 + 12) (get_entropy random (some blank) 12 fresh_source).2
get_entropy_lem_example =
    get_entropy_lem random (λ k. k + 1000) (λ k. refl) 12 0 blank fresh_source (omega arith)
      fresh-IsAt

-- The last byte of the digest of PCR 0 is the locality of the startup.
startup_locality_kept :
    (out : Bytes) × (get_initial_value_for_pcr (λ _. 4) 0 0 11 3 (some blank) 64 (some 0)
      ≡ (true, some out, some 4))
    × (out 3 ≡ 3)
startup_locality_kept =
    let (out, e, _, last, _) =
      get_initial_value_for_pcr_lem (λ _. 4) 0 0 11 3 64 0 blank (omega arith) (omega arith)
        (omega arith) in
    (out, e, last refl)
