-- ===== src/Gic/V3.antt =====
-- The GICv3 driver, platform/driver/src/gic/pal_gic_v3.c, on AArch64. The registers of the processor's
-- interface, its MPIDR and its position are arguments. Assertions are taken to be left out.
use ff_a_acs.Base.{
  ℕ, ◌+◌, ◌*◌, ◌/◌, ◌%◌, ◌^◌, ◌-◌, Bool, true, false, ltb, ◌==◌, ◌!=◌, if◌then◌else◌,
}
use ff_a_acs.Gic.{
  Mmio, isenabler, icenabler, ispendr, icpendr, ipriorityr, offset, gicd_read, gicd_set,
  gicd_get_isenabler,
}
use Prim.Native.Nat.{bit_and, bit_or}

-- `struct gicv3_pcpu_ctx`, the eight priority registers by their number.
pub record Context : Type 0 where
  pub is_suspended : Bool
  pub icc_igrpen1 : ℕ
  pub gicr_isenabler : ℕ
  pub gicr_ipriorityr : ℕ → ℕ
  pub gicr_icfgr : ℕ

-- The globals of the file.
pub record Driver : Type 0 where
  pub gicr_base : ℕ
  pub gicd_base : ℕ
  pub contexts : ℕ → Context
  pub rdist_pcpu_base : ℕ → ℕ
  pub mpidr_list : ℕ → ℕ

abbrev pub start : Driver
start = record {
  gicr_base = 0;
  gicd_base = 0;
  contexts = λ _. record {
    is_suspended = false;
    icc_igrpen1 = 0;
    gicr_isenabler = 0;
    gicr_ipriorityr = λ _. 0;
    gicr_icfgr = 0;
  };
  rdist_pcpu_base = λ _. 0;
  mpidr_list = λ core. if core == 0 then 2 ^ 64 - 1 else 0;
}

-- The processor that runs: its position, MPIDR and the registers of its interface.
pub record Interface (D : Type 0) : Type 0 where
  pub core_pos : ℕ
  pub mpidr : ℕ
  pub read_igrpen1 : D → ℕ × D
  pub write_igrpen1 : ℕ → D → D
  pub write_pmr : ℕ → D → D
  pub read_iar1 : D → ℕ × D
  pub write_eoir1 : ℕ → D → D
  pub write_sgi1r : ℕ → D → D
  pub read64 : ℕ → D → ℕ × D
  pub write64 : ℕ → ℕ → D → D

abbrev pub min_spi_id : ℕ
min_spi_id = 32

abbrev pub gicr_typer : ℕ
gicr_typer = 8

abbrev pub gicr_isenabler0 : ℕ
gicr_isenabler0 = 0x10100

abbrev pub gicr_icenabler0 : ℕ
gicr_icenabler0 = 0x10180

abbrev pub gicr_ispendr0 : ℕ
gicr_ispendr0 = 0x10200

abbrev pub gicr_icpendr0 : ℕ
gicr_icpendr0 = 0x10280

abbrev pub gicr_ipriorityr_base : ℕ
gicr_ipriorityr_base = 0x10400

abbrev pub gicr_icfgr1 : ℕ
gicr_icfgr1 = 0x10c04

-- The distance of two frames, `1 << GICR_PCPUBASE_SHIFT`.
abbrev pub frame_bytes : ℕ
frame_bytes = 0x20000

-- MPIDR_AFFINITY_MASK
abbrev pub affinity_mask : ℕ
affinity_mask = 0xff00ffffff

-- `gic_typer_affinity_from_mpidr`
unfoldable pub typer_affinity : ℕ → ℕ
typer_affinity mpidr =
    bit_or (bit_and mpidr (2 ^ 64 - 1 - 0xff00000000)) (bit_and mpidr 0xff00000000 / 256)

-- `MPIDR_AFF_ID`
unfoldable pub aff_id : (mpidr n : ℕ) → ℕ
aff_id mpidr n = (mpidr / 2 ^ (if n == 3 then 32 else 8 * n)) % 256

-- What a TYPER says of its frame.
unfoldable pub typer_value : ℕ → ℕ
typer_value typer = (typer / 2 ^ 32) % 2 ^ 32

unfoldable pub is_last : ℕ → Bool
is_last typer = (typer / 2 ^ 4) % 2 == 1

unfoldable pub gicv3_init : (gicr gicd : ℕ) → Driver → Driver
gicv3_init gicr gicd s = record s { gicr_base = gicr; gicd_base = gicd }

unfoldable pub put_context : Driver → ℕ → Context → Driver
put_context s core c = record s { contexts = λ i. if i == core then c else s.contexts i }

unfoldable pub sgi_value : (mpidr sgi : ℕ) → ℕ
unfolding aff_id
sgi_value mpidr sgi =
    bit_or
      (bit_or
        (bit_or (bit_or (aff_id mpidr 3 * 2 ^ 48) (aff_id mpidr 2 * 2 ^ 32))
          (aff_id mpidr 1 * 2 ^ 16))
        (2 ^ aff_id mpidr 0 % 2 ^ 16))
      (sgi % 16 * 2 ^ 24)

module _ {D : Type 0} (mmio : Mmio D) (cpu : Interface D) where
  unfoldable pub gicv3_enable_cpuif : D → D
  gicv3_enable_cpuif d = let (w, d1) = cpu.read_igrpen1 d in cpu.write_igrpen1 (bit_or w 1) d1

  unfoldable pub gicv3_setup_cpuif : D → D
  gicv3_setup_cpuif d = gicv3_enable_cpuif (cpu.write_pmr 0xff d)

  unfoldable pub gicv3_disable_cpuif : D → D
  gicv3_disable_cpuif d = let (w, d1) = cpu.read_igrpen1 d in cpu.write_igrpen1 (w - w % 2) d1

  unfoldable pub gicv3_save_cpuif_context : Driver × D → Driver × D
  unfolding put_context
  gicv3_save_cpuif_context (s, d) =
      let (w, d1) = cpu.read_igrpen1 d in
      (
        put_context s cpu.core_pos
            (record (s.contexts cpu.core_pos) { is_suspended = true; icc_igrpen1 = w % 2 ^ 32 }),
        d1,
      )

  unfoldable pub gicv3_restore_cpuif_context : Driver × D → Driver × D
  unfolding put_context
  gicv3_restore_cpuif_context (s, d) =
      let c = s.contexts cpu.core_pos in
      (
        put_context s cpu.core_pos (record c { is_suspended = false }),
        cpu.write_igrpen1 c.icc_igrpen1 (cpu.write_pmr 0xff d),
      )

  -- The registers of a frame for the interrupts of one processor.
  unfoldable pub gicr_get_isenabler0 : (base irq : ℕ) → D → ℕ × D
  gicr_get_isenabler0 base irq d =
      let (word, d1) = mmio.read32 (base + gicr_isenabler0) d in (bit_and word (2 ^ (irq % 32)), d1)

  unfoldable pub gicr_set_isenabler0 : (base irq : ℕ) → D → D
  gicr_set_isenabler0 base irq d = mmio.write32 (base + gicr_isenabler0) (2 ^ (irq % 32)) d

  unfoldable pub gicr_set_icenabler0 : (base irq : ℕ) → D → D
  gicr_set_icenabler0 base irq d = mmio.write32 (base + gicr_icenabler0) (2 ^ (irq % 32)) d

  unfoldable pub gicr_set_icpendr0 : (base irq : ℕ) → D → D
  gicr_set_icpendr0 base irq d = mmio.write32 (base + gicr_icpendr0) (2 ^ (irq % 32)) d

  -- The frame of the processor for its own interrupts, the distributor for the others.
  unfoldable pub gicv3_get_ipriorityr : (irq : ℕ) → Driver → D → ℕ × D
  gicv3_get_ipriorityr irq s d =
      if ltb irq min_spi_id
      then mmio.read8 (s.rdist_pcpu_base cpu.core_pos + gicr_ipriorityr_base + irq) d
      else mmio.read8 (s.gicd_base + offset ipriorityr + irq) d

  unfoldable pub gicv3_set_ipriorityr : (irq priority : ℕ) → Driver → D → D
  gicv3_set_ipriorityr irq priority s d =
      if ltb irq min_spi_id
      then mmio.write8 (s.rdist_pcpu_base cpu.core_pos + gicr_ipriorityr_base + irq)
          (bit_and priority 0xff) d
      else mmio.write8 (s.gicd_base + offset ipriorityr + irq) (bit_and priority 0xff) d

  unfoldable pub gicv3_send_sgi : (sgi core : ℕ) → Driver → D → D
  unfolding sgi_value
  gicv3_send_sgi sgi core s d = cpu.write_sgi1r (sgi_value (s.mpidr_list core) sgi) d

  unfoldable pub gicv3_set_intr_route : (irq core : ℕ) → Driver → D → D
  gicv3_set_intr_route irq core s d =
      cpu.write64 (s.gicd_base + 0x6000 + irq * 8) (s.mpidr_list core) d

  unfoldable pub gicv3_get_isenabler : (irq : ℕ) → Driver → D → ℕ × D
  gicv3_get_isenabler irq s d =
      if ltb irq min_spi_id
      then gicr_get_isenabler0 (s.rdist_pcpu_base cpu.core_pos) irq d
      else gicd_get_isenabler mmio s.gicd_base irq d

  unfoldable pub gicv3_set_isenabler : (irq : ℕ) → Driver → D → D
  gicv3_set_isenabler irq s d =
      if ltb irq min_spi_id
      then gicr_set_isenabler0 (s.rdist_pcpu_base cpu.core_pos) irq d
      else gicd_set mmio isenabler s.gicd_base irq d

  unfoldable pub gicv3_set_icenabler : (irq : ℕ) → Driver → D → D
  gicv3_set_icenabler irq s d =
      if ltb irq min_spi_id
      then gicr_set_icenabler0 (s.rdist_pcpu_base cpu.core_pos) irq d
      else gicd_set mmio icenabler s.gicd_base irq d

  unfoldable pub gicv3_get_ispendr : (irq : ℕ) → Driver → D → ℕ × D
  gicv3_get_ispendr irq s d =
      let (word, d1) =
        if ltb irq min_spi_id
        then mmio.read32 (s.rdist_pcpu_base cpu.core_pos + gicr_ispendr0) d
        else gicd_read mmio ispendr s.gicd_base irq d in
      (if bit_and word (2 ^ (irq % 32)) != 0 then 1 else 0, d1)

  unfoldable pub gicv3_set_icpendr : (irq : ℕ) → Driver → D → D
  gicv3_set_icpendr irq s d =
      if ltb irq min_spi_id
      then gicr_set_icpendr0 (s.rdist_pcpu_base cpu.core_pos) irq d
      else gicd_set mmio icpendr s.gicd_base irq d

  -- `gicv3_acknowledge_interrupt` and `gicv3_end_of_interrupt`
  unfoldable pub gicv3_acknowledge_interrupt : D → ℕ × D
  gicv3_acknowledge_interrupt d = let (w, d1) = cpu.read_iar1 d in (w % 2 ^ 24, d1)

  unfoldable pub gicv3_setup_distif : Driver → D → D
  gicv3_setup_distif s d =
      let (ctlr, d1) = mmio.read32 s.gicd_base d in mmio.write32 s.gicd_base (bit_or ctlr 2) d1
