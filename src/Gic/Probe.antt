-- ===== src/Gic/Probe.antt =====
-- The search for the redistributor frame of a processor in platform/driver/src/gic/pal_gic_v3.c ends, and
-- finds the first frame of the processor's affinity.
use ff_a_acs.Base.{
  ℕ, zero, suc, ◌+◌, ◌*◌, ◌<◌, ◌≡◌, refl, sym, ap, ◌∙◌, subst, arith, Bool, true, false, Option,
  some, ◌==◌, ◌||◌, Bool-cases, inl, inr, if◌then◌else◌,
}
use ff_a_acs.Gic.{Mmio}
use ff_a_acs.Gic.V3.{Driver, Interface, typer_value, is_last, frame_bytes, gicr_typer}
use ff_a_acs.Gic.Frames.{affinity, found_frame, find_frame, gicv3_probe_redistif_addr}

same : (i : ℕ) → i ≡ i + 0
same i = omega arith

moved : (i m : ℕ) → suc i + m ≡ i + suc m
moved i m = omega arith

first : (base : ℕ) → base ≡ base + 0 * frame_bytes
first base = omega arith

from_zero : (m : ℕ) → 0 + m ≡ m
from_zero m = omega arith

last_frame : (a b : Bool) → (a || b) ≡ true → a ≡ false → b ≡ true
last_frame true b e f = ground (arith, f)
last_frame false b e f = e

no_match : (a b : Bool) → (a || b) ≡ false → a ≡ false
no_match a b e = ground (arith, e)

not_last : (a b : Bool) → (a || b) ≡ false → b ≡ false
not_last a b e = ground (arith, e)

module _ {D : Type 0} (mmio : Mmio D) (cpu : Interface D) (typer : ℕ → ℕ) where
  -- The words of the frames from an address on, which a read does not change.
  abbrev pub Frames : ℕ → Type 0
  Frames base = (i : ℕ) (d : D) → cpu.read64 (base + i * frame_bytes + gicr_typer) d ≡ (typer i, d)

  abbrev pub matches : ℕ → Bool
  matches i = affinity mmio cpu == typer_value (typer i)

  -- The search ends at a frame that matches or is the last one.
  abbrev pub ends : ℕ → Bool
  ends i = matches i || is_last (typer i)

  module _ (s : Driver) (d : D) (base : ℕ) (frames : Frames base) where
    abbrev frame : ℕ → ℕ
    frame i = base + i * frame_bytes

    frame_next : (i : ℕ) → frame i + frame_bytes ≡ frame (suc i)
    frame_next i = omega arith

    find_frame_here :
        (fuel i : ℕ)
        → ends i ≡ true
        → find_frame mmio cpu (suc fuel) (frame i) (s, d)
          ≡ some (if matches i then found_frame mmio cpu s (frame i) else s, d)
    unfolding find_frame
    find_frame_here fuel i e = elim (Bool-cases (matches i)) [
      | inl m ↦ rw (find_frame, frames i d, m) refl
      | inr m ↦ rw (find_frame, frames i d, m, last_frame (matches i) (is_last (typer i)) e m) refl
    ]

    find_frame_later :
        (fuel i : ℕ)
        → ends i ≡ false
        → find_frame mmio cpu (suc fuel) (frame i) (s, d)
          ≡ find_frame mmio cpu fuel (frame (suc i)) (s, d)
    unfolding find_frame
    find_frame_later fuel i e =
        rw
          (
            find_frame,
            frames i d,
            no_match (matches i) (is_last (typer i)) e,
            not_last (matches i) (is_last (typer i)) e,
            frame_next i,
          )
          refl

    -- The result of a search that ends at a frame.
    abbrev pub ending : ℕ → Option (Driver × D)
    ending j = some (if matches j then found_frame mmio cpu s (frame j) else s, d)

    find_frame_lem :
        (m fuel i : ℕ)
        → m < fuel
        → ((k : ℕ) → k < m → ends (i + k) ≡ false)
        → ends (i + m) ≡ true
        → find_frame mmio cpu fuel (frame i) (s, d) ≡ ending (i + m)
    find_frame_lem m zero i l before e = absurd (omega (arith, l))
    find_frame_lem zero (suc fuel) i l before e =
        subst (λ j. ends j ≡ true → find_frame mmio cpu (suc fuel) (frame i) (s, d) ≡ ending j)
          (same i) (find_frame_here fuel i) e
    find_frame_lem (suc m) (suc fuel) i l before e =
        find_frame_later fuel i
          (subst (λ j. ends j ≡ false) (sym (same i)) (before 0 (omega arith)))
        ∙ subst (λ j. ends j ≡ true → find_frame mmio cpu fuel (frame (suc i)) (s, d) ≡ ending j)
            (moved i m)
            (find_frame_lem m fuel (suc i) (omega (arith, l)) (λ k lk.
              subst (λ j. ends j ≡ false) (sym (moved i k)) (before (suc k) (omega (arith, lk)))))
            e

  -- For a processor without a frame yet, frames whose TYPER reads do not change, and fuel for each frame up to
  -- the first one that matches the processor's affinity or is the last: the search returns, keeps that
  -- frame and the affinity for this processor where it matches, and changes nothing where it does not.
  pub gicv3_probe_redistif_addr_lem :
      (m fuel : ℕ) (s : Driver) (d : D)
      → Frames s.gicr_base
      → s.rdist_pcpu_base cpu.core_pos ≡ 0
      → ((k : ℕ) → k < m → ends k ≡ false)
      → ends m ≡ true
      → m < fuel
      → gicv3_probe_redistif_addr mmio cpu fuel (s, d)
        ≡ some (if matches m then found_frame mmio cpu s (s.gicr_base + m * frame_bytes) else s, d)
  unfolding gicv3_probe_redistif_addr
  gicv3_probe_redistif_addr_lem m fuel s d frames fresh before e l =
      rw (gicv3_probe_redistif_addr, fresh)
        (ap (λ b. find_frame mmio cpu fuel b (s, d)) (first s.gicr_base)
          ∙ subst
              (λ j.
                find_frame mmio cpu fuel (s.gicr_base + 0 * frame_bytes) (s, d)
                ≡ ending s d s.gicr_base frames j)
              (from_zero m)
              (find_frame_lem s d s.gicr_base frames m fuel 0 l
                (λ k lk. subst (λ j. ends j ≡ false) (sym (from_zero k)) (before k lk))
                (subst (λ j. ends j ≡ true) (sym (from_zero m)) e)))
