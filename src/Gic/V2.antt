-- ===== src/Gic/V2.antt =====
-- The GICv2 driver, platform/driver/src/gic/pal_gic_v2.c. The base addresses are 32-bit words where the
-- code casts them; the position of the processor that runs is an argument.
use ff_a_acs.Base.{ℕ, zero, suc, ◌+◌, ◌*◌, ◌%◌, ◌^◌, ◌-◌, ◌==◌, ◌!=◌, if◌then◌else◌}
use ff_a_acs.Gic.{Mmio, isenabler, ispendr, ipriorityr, icfgr, gicd_read, gicd_write}
use Prim.Native.Nat.{bit_and, bit_or}

-- `struct gicv2_pcpu_ctx`, the eight priority registers by their number.
pub record Context : Type 0 where
  pub gicc_ctlr : ℕ
  pub gicd_isenabler0 : ℕ
  pub gicd_ipriorityr : ℕ → ℕ
  pub gicd_icfgr : ℕ

-- The globals of the file.
pub record Driver : Type 0 where
  pub contexts : ℕ → Context
  pub gicc_base : ℕ
  pub gicd_base : ℕ
  pub gic_cpu_id : ℕ → ℕ

abbrev pub no_context : Context
no_context = record { gicc_ctlr = 0; gicd_isenabler0 = 0; gicd_ipriorityr = λ _. 0; gicd_icfgr = 0 }

-- Only the first processor starts with UINT32_MAX.
unfoldable pub start : Driver
start = record {
  contexts = λ _. no_context;
  gicc_base = 0;
  gicd_base = 0;
  gic_cpu_id = λ core. if core == 0 then 2 ^ 32 - 1 else 0;
}

unfoldable pub low32 : ℕ → ℕ
low32 a = a % 2 ^ 32

unfoldable pub put_context : Driver → ℕ → Context → Driver
put_context s core c = record s { contexts = λ i. if i == core then c else s.contexts i }

unfoldable pub gicv2_init : (gicc gicd : ℕ) → Driver → Driver
gicv2_init gicc gicd s = record s { gicc_base = gicc; gicd_base = gicd }

module _ {D : Type 0} (mmio : Mmio D) where
  unfoldable pub enable_cpuif : Driver → D → D
  unfolding low32
  enable_cpuif s d = mmio.write32 (low32 s.gicc_base) 0x61 d

  -- `ctz` of the first target register; a word of 0, which the code asserts against, is the compiler's.
  unfoldable pub probe_gic_cpu_id : (ctz : ℕ → ℕ) → (core : ℕ) → Driver × D → Driver × D
  unfolding low32
  probe_gic_cpu_id ctz core (s, d) =
      let (word, d1) = mmio.read32 (low32 (s.gicd_base + 0x800)) d in
      (record s { gic_cpu_id = λ i. if i == core then ctz word else s.gic_cpu_id i }, d1)

  unfoldable pub setup_cpuif : Driver → D → D
  unfolding low32
  setup_cpuif s d = enable_cpuif s (mmio.write32 (low32 (s.gicc_base + 4)) 0xff d)

  unfoldable pub disable_cpuif : Driver → D → D
  unfolding low32
  disable_cpuif s d =
      let (ctlr, d1) = mmio.read32 (low32 s.gicc_base) d in
      mmio.write32 (low32 s.gicc_base) (bit_or (ctlr - ctlr % 2) 0x60) d1

  unfoldable pub save_cpuif_context : (core : ℕ) → Driver × D → Driver × D
  unfolding low32 put_context
  save_cpuif_context core (s, d) =
      let (ctlr, d1) = mmio.read32 (low32 s.gicc_base) d in
      (put_context s core (record (s.contexts core) { gicc_ctlr = ctlr }), d1)

  unfoldable pub restore_cpuif_context : (core : ℕ) → Driver → D → D
  unfolding low32
  restore_cpuif_context core s d =
      mmio.write32 (low32 s.gicc_base) (s.contexts core).gicc_ctlr
        (mmio.write32 (low32 (s.gicc_base + 4)) 0xff d)

  unfoldable pub setup_distif : Driver → D → D
  setup_distif s d =
      let (ctlr, d1) = mmio.read32 s.gicd_base d in mmio.write32 s.gicd_base (bit_or ctlr 1) d1

  -- The loops over the priority registers, for `n` of them from `i` on.
  unfoldable pub save_priorities : (base n i : ℕ) → (ℕ → ℕ) × D → (ℕ → ℕ) × D
  save_priorities base zero i (p, d) = (p, d)
  save_priorities base (suc n) i (p, d) =
      let (word, d1) = gicd_read mmio ipriorityr base (i * 4) d in
      save_priorities base n (i + 1) ((λ k. if k == i then word else p k), d1)

  unfoldable pub restore_priorities : (base n i : ℕ) → (ℕ → ℕ) → D → D
  restore_priorities base zero i p d = d
  restore_priorities base (suc n) i p d =
      restore_priorities base n (i + 1) p (gicd_write mmio ipriorityr base (i * 4) (p i) d)

  unfoldable pub save_sgi_ppi_context : (core : ℕ) → Driver × D → Driver × D
  unfolding put_context
  save_sgi_ppi_context core (s, d) =
      let (enabled, d1) = gicd_read mmio isenabler s.gicd_base 0 d in
      let (priorities, d2) =
        save_priorities s.gicd_base 8 0 ((s.contexts core).gicd_ipriorityr, d1) in
      let (config, d3) = gicd_read mmio icfgr s.gicd_base 16 d2 in
      (
        put_context s core (record (s.contexts core) {
          gicd_isenabler0 = enabled;
          gicd_ipriorityr = priorities;
          gicd_icfgr = config;
        }),
        d3,
      )

  unfoldable pub restore_sgi_ppi_context : (core : ℕ) → Driver → D → D
  restore_sgi_ppi_context core s d =
      let c = s.contexts core in
      gicd_write mmio isenabler s.gicd_base 0 c.gicd_isenabler0 (
        gicd_write mmio icfgr s.gicd_base 16 c.gicd_icfgr
          (restore_priorities s.gicd_base 8 0 c.gicd_ipriorityr d))

  unfoldable pub gicv2_send_sgi : (sgi core : ℕ) → Driver → D → D
  unfolding low32
  gicv2_send_sgi sgi core s d =
      mmio.write32 (low32 (s.gicd_base + 0xf00))
        (bit_or sgi (2 ^ s.gic_cpu_id core % 2 ^ 32 * 65536 % 2 ^ 32)) d

  unfoldable pub set_itargetsr : (irq core : ℕ) → Driver → D → D
  unfolding low32
  set_itargetsr irq core s d =
      mmio.write8 (low32 (s.gicd_base + 0x800 + irq)) (2 ^ s.gic_cpu_id core % 256) d

  unfoldable pub gicc_read_iar : Driver → D → ℕ × D
  unfolding low32
  gicc_read_iar s d = mmio.read32 (low32 (s.gicc_base + 0xc)) d

  unfoldable pub gicc_write_eoir : Driver → ℕ → D → D
  unfolding low32
  gicc_write_eoir s value d = mmio.write32 (low32 (s.gicc_base + 0x10)) value d

  unfoldable pub get_ispendr : Driver → (irq : ℕ) → D → ℕ × D
  get_ispendr s irq d =
      let (word, d1) = gicd_read mmio ispendr s.gicd_base irq d in
      (if bit_and word (2 ^ (irq % 32)) != 0 then 1 else 0, d1)
