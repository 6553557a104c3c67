-- ===== src/Gic/Frames.antt =====
-- The redistributor frames of platform/driver/src/gic/pal_gic_v3.c: the search for the frame of a
-- processor, on fuel, and the context of the suspended processors.
use ff_a_acs.Base.{
  ℕ, zero, suc, ◌+◌, ◌*◌, Bool, not, ◌&&◌, Option, none, some, ◌==◌, ◌!=◌, if◌then◌else◌,
}
use ff_a_acs.Gic.{Mmio}
use ff_a_acs.Gic.V3.{
  Driver, Interface, put_context, typer_affinity, typer_value, is_last, affinity_mask, frame_bytes,
  gicr_typer, gicr_isenabler0, gicr_ipriorityr_base, gicr_icfgr1,
}
use Prim.Native.Nat.{bit_and}

module _ {D : Type 0} (mmio : Mmio D) (cpu : Interface D) where
  abbrev pub affinity : ℕ
  affinity = typer_affinity (bit_and cpu.mpidr affinity_mask)

  unfoldable pub found_frame : Driver → (base : ℕ) → Driver
  found_frame s base = record s {
    rdist_pcpu_base = λ i. if i == cpu.core_pos then base else s.rdist_pcpu_base i;
    mpidr_list = λ i. if i == cpu.core_pos then bit_and cpu.mpidr affinity_mask else s.mpidr_list i;
  }

  -- The loop over the frames; `none` means that the fuel ran out.
  unfoldable pub find_frame : ℕ → (base : ℕ) → Driver × D → Option (Driver × D)
  find_frame zero base (s, d) = none
  find_frame (suc fuel) base (s, d) =
      let (typer, d1) = cpu.read64 (base + gicr_typer) d in
      let rest = find_frame fuel (base + frame_bytes) (s, d1) in
      if affinity == typer_value typer
      then some (found_frame s base, d1)
      else if is_last typer
      then some (s, d1)
      else rest

  unfoldable pub gicv3_probe_redistif_addr : ℕ → Driver × D → Option (Driver × D)
  unfolding find_frame
  gicv3_probe_redistif_addr fuel (s, d) =
      if s.rdist_pcpu_base cpu.core_pos != 0
      then some (s, d)
      else find_frame fuel s.gicr_base (s, d)

  -- The loops over the priority registers, for `n` of them from `i` on.
  unfoldable pub read_priorities : (base n i : ℕ) → (ℕ → ℕ) × D → (ℕ → ℕ) × D
  read_priorities base zero i (p, d) = (p, d)
  read_priorities base (suc n) i (p, d) =
      let (word, d1) = mmio.read32 (base + gicr_ipriorityr_base + i * 4) d in
      read_priorities base n (i + 1) ((λ k. if k == i then word else p k), d1)

  unfoldable pub write_priorities : (base n i : ℕ) → (ℕ → ℕ) → D → D
  write_priorities base zero i p d = d
  write_priorities base (suc n) i p d =
      write_priorities base n (i + 1) p (mmio.write32 (base + gicr_ipriorityr_base + i * 4) (p i) d)

  -- A processor whose context is saved: the one that runs, and the suspended ones.
  unfoldable pub takes_part : Driver → (core : ℕ) → Bool
  takes_part s core = not ((core != cpu.core_pos) && not (s.contexts core).is_suspended)

  unfoldable pub save_frame : (core : ℕ) → Driver × D → Driver × D
  unfolding put_context read_priorities
  save_frame core (s, d) =
      let base = s.rdist_pcpu_base core in
      let (enabled, d1) = mmio.read32 (base + gicr_isenabler0) d in
      let (priorities, d2) = read_priorities base 8 0 ((s.contexts core).gicr_ipriorityr, d1) in
      let (config, d3) = mmio.read32 (base + gicr_icfgr1) d2 in
      (
        put_context s core (record (s.contexts core) {
          gicr_isenabler = enabled;
          gicr_ipriorityr = priorities;
          gicr_icfgr = config;
        }),
        d3,
      )

  unfoldable pub restore_frame : (core : ℕ) → Driver → D → D
  unfolding write_priorities
  restore_frame core s d =
      let base = s.rdist_pcpu_base core in
      let c = s.contexts core in
      mmio.write32 (base + gicr_isenabler0) c.gicr_isenabler (
        mmio.write32 (base + gicr_icfgr1) c.gicr_icfgr
          (write_priorities base 8 0 c.gicr_ipriorityr d))

  -- The loops over the processors, for `n` of them from `core` on.
  unfoldable pub save_frames : (n core : ℕ) → Driver × D → Driver × D
  unfolding takes_part save_frame
  save_frames zero core (s, d) = (s, d)
  save_frames (suc n) core (s, d) =
      save_frames n (core + 1) (if takes_part s core then save_frame core (s, d) else (s, d))

  unfoldable pub restore_frames : (n core : ℕ) → Driver → D → D
  unfolding takes_part restore_frame
  restore_frames zero core s d = d
  restore_frames (suc n) core s d =
      restore_frames n (core + 1) s (if takes_part s core then restore_frame core s d else d)

  unfoldable pub gicv3_save_sgi_ppi_context : (cpus : ℕ) → Driver × D → Driver × D
  unfolding save_frames
  gicv3_save_sgi_ppi_context cpus w = save_frames cpus 0 w

  unfoldable pub gicv3_restore_sgi_ppi_context : (cpus : ℕ) → Driver → D → D
  unfolding restore_frames
  gicv3_restore_sgi_ppi_context cpus s d = restore_frames cpus 0 s d
