-- ===== src/Gic/Private.antt =====
-- The GICv3 driver of Gic/V3 and Gic/Frames as the driver that Gic/Choice asks for, and what the calls of
-- Irq then do to the interrupts that a processor sees: the first 32 stand in its redistributor frame,
-- the others in the distributor.
use ff_a_acs.Base.{
  ℕ, ◌+◌, ◌*◌, ◌/◌, ◌%◌, ◌^◌, ◌<◌, ◌≤◌, ◌≡◌, sym, ap, ◌∙◌, arith, Bool, true, false, not, ◌&&◌,
  ◌||◌, ◌==◌, ltb, Option, none, some, Bool-cases, inl, inr,
}
use ff_a_acs.Irq.{Cpu, irq_enable, irq_disable, is_plat_spi}
use ff_a_acs.Gic.{Mmio, gicd_set, gicd_write, register}
use ff_a_acs.Gic.Choice.{Ops, arm_gic}
use ff_a_acs.Gic.Chain.{LeavesGic}
use ff_a_acs.Gic.Lines.{bit, own_line}
use ff_a_acs.Gic.V3.{
  Driver, Interface, gicr_isenabler0, gicr_icenabler0, gicv3_enable_cpuif, gicv3_disable_cpuif,
  gicv3_setup_cpuif, gicv3_setup_distif, gicv3_save_cpuif_context, gicv3_restore_cpuif_context,
  gicv3_get_ipriorityr, gicv3_set_ipriorityr, gicv3_send_sgi, gicv3_set_intr_route,
  gicv3_get_isenabler, gicv3_set_isenabler, gicv3_set_icenabler, gicv3_acknowledge_interrupt,
  gicv3_get_ispendr, gicv3_set_icpendr, gicr_set_isenabler0, gicr_set_icenabler0,
}
use ff_a_acs.Gic.Frames.{
  gicv3_probe_redistif_addr, gicv3_save_sgi_ppi_context, gicv3_restore_sgi_ppi_context,
}

module _ {D : Type 0} where
  abbrev on_device : (Driver → D → D) → Driver × D → Driver × D
  on_device f (s, d) = (s, f s d)

  abbrev asks_device : (Driver → D → ℕ × D) → Driver × D → ℕ × (Driver × D)
  asks_device f (s, d) = let (a, d1) = f s d in (a, (s, d1))

  abbrev last_known : Driver × D → Option (Driver × D) → Driver × D
  last_known w none = w
  last_known w (some w1) = w1

  -- With fuel for the search of the frames, which Gic/Probe shows to be enough.
  unfoldable pub v3_ops : Mmio D → Interface D → (cpus fuel : ℕ) → Ops (Driver × D)
  v3_ops mmio cpu cpus fuel = record {
    enable_cpuif = on_device (λ s. gicv3_enable_cpuif mmio cpu);
    disable_cpuif = on_device (λ s. gicv3_disable_cpuif mmio cpu);
    probe = λ w. last_known w (gicv3_probe_redistif_addr mmio cpu fuel w);
    setup_cpuif = on_device (λ s. gicv3_setup_cpuif mmio cpu);
    setup_distif = on_device (gicv3_setup_distif mmio cpu);
    save_cpuif_context = gicv3_save_cpuif_context mmio cpu;
    restore_cpuif_context = gicv3_restore_cpuif_context mmio cpu;
    save_sgi_ppi_context = gicv3_save_sgi_ppi_context mmio cpu cpus;
    restore_sgi_ppi_context = on_device (gicv3_restore_sgi_ppi_context mmio cpu cpus);
    get_ipriorityr = λ irq. asks_device (gicv3_get_ipriorityr mmio cpu irq);
    set_ipriorityr = λ irq priority. on_device (gicv3_set_ipriorityr mmio cpu irq priority);
    send_sgi = λ sgi core. on_device (gicv3_send_sgi mmio cpu sgi core);
    set_target = λ irq core. on_device (gicv3_set_intr_route mmio cpu irq core);
    get_isenabler = λ irq. asks_device (gicv3_get_isenabler mmio cpu irq);
    set_isenabler = λ irq. on_device (gicv3_set_isenabler mmio cpu irq);
    set_icenabler = λ irq. on_device (gicv3_set_icenabler mmio cpu irq);
    acknowledge = asks_device (λ s. gicv3_acknowledge_interrupt mmio cpu);
    get_ispendr = λ irq. asks_device (gicv3_get_ispendr mmio cpu irq);
    set_icpendr = λ irq. on_device (gicv3_set_icpendr mmio cpu irq);
    end_of_interrupt = λ raw. on_device (λ s. cpu.write_eoir1 raw);
  }

-- A redistributor frame and a distributor: which interrupts the processor sees as enabled.
pub record IsGicv3 {D : Type 0} (mmio : Mmio D) (cpu : Interface D) (frame base : ℕ)
    (enabled : D → ℕ → Bool) : Type 0 where
  pub own_sets :
      (word j : ℕ) (d : D)
      → enabled (mmio.write32 (frame + gicr_isenabler0) word d) j
        ≡ (enabled d j || ((j / 32 == 0) && bit (j % 32) word))
  pub own_clears :
      (word j : ℕ) (d : D)
      → enabled (mmio.write32 (frame + gicr_icenabler0) word d) j
        ≡ (enabled d j && not ((j / 32 == 0) && bit (j % 32) word))
  pub shared_sets :
      (n word j : ℕ) (d : D)
      → 1 ≤ n
      → n < 32
      → enabled (mmio.write32 (base + 0x100 + n * 4) word d) j
        ≡ (enabled d j || ((j / 32 == n) && bit (j % 32) word))
  pub shared_clears :
      (n word j : ℕ) (d : D)
      → 1 ≤ n
      → n < 32
      → enabled (mmio.write32 (base + 0x180 + n * 4) word d) j
        ≡ (enabled d j && not ((j / 32 == n) && bit (j % 32) word))
  pub bytes : (a value j : ℕ) (d : D) → enabled (mmio.write8 a value d) j ≡ enabled d j
  pub routes : (a value j : ℕ) (d : D) → enabled (cpu.write64 a value d) j ≡ enabled d j

-- The same for a line of the first register.
first_line : (i j : ℕ) → i / 32 ≡ 0 → ((j / 32 == 0) && bit (j % 32) (2 ^ (i % 32))) ≡ (j == i)
first_line i j z = ap (λ n. (j / 32 == n) && bit (j % 32) (2 ^ (i % 32))) (sym z) ∙ own_line i j

below : (i : ℕ) → ltb i 32 ≡ true → i / 32 ≡ 0
below i h = ground (arith, h)

behind : (i : ℕ) → ltb i 32 ≡ false → 1 ≤ i / 32
behind i h = ground (arith, h)

module _ {D : Type 0} (mmio : Mmio D) (cpu : Interface D) (enabled : D → ℕ → Bool) (s : Driver)
    (gic : IsGicv3 mmio cpu (s.rdist_pcpu_base cpu.core_pos) s.gicd_base enabled) (irq j : ℕ) where
  set_isenabler-enabled :
      (d : D)
      → irq < 1024
      → enabled (gicv3_set_isenabler mmio cpu irq s d) j ≡ (enabled d j || (j == irq))
  unfolding gicv3_set_isenabler gicr_set_isenabler0 gicd_set gicd_write register
  set_isenabler-enabled d l = elim (Bool-cases (ltb irq 32)) [
    | inl own ↦
        rw (gicv3_set_isenabler, own)
          (gic.own_sets (2 ^ (irq % 32)) j d
            ∙ ap (λ b. enabled d j || b) (first_line irq j (below irq own)))
    | inr shared ↦
        rw (gicv3_set_isenabler, shared)
          (gic.shared_sets (irq / 32) (2 ^ (irq % 32)) j d (behind irq shared) (omega (arith, l))
            ∙ ap (λ b. enabled d j || b) (own_line irq j))
  ]

  set_icenabler-enabled :
      (d : D)
      → irq < 1024
      → enabled (gicv3_set_icenabler mmio cpu irq s d) j ≡ (enabled d j && not (j == irq))
  unfolding gicv3_set_icenabler gicr_set_icenabler0 gicd_set gicd_write register
  set_icenabler-enabled d l = elim (Bool-cases (ltb irq 32)) [
    | inl own ↦
        rw (gicv3_set_icenabler, own)
          (gic.own_clears (2 ^ (irq % 32)) j d
            ∙ ap (λ b. enabled d j && not b) (first_line irq j (below irq own)))
    | inr shared ↦
        rw (gicv3_set_icenabler, shared)
          (gic.shared_clears (irq / 32) (2 ^ (irq % 32)) j d (behind irq shared) (omega (arith, l))
            ∙ ap (λ b. enabled d j && not b) (own_line irq j))
  ]

  set_ipriorityr-enabled :
      (priority : ℕ) (d : D)
      → enabled (gicv3_set_ipriorityr mmio cpu irq priority s d) j ≡ enabled d j
  unfolding gicv3_set_ipriorityr
  set_ipriorityr-enabled priority d = elim (Bool-cases (ltb irq 32)) [
    | inl own ↦ rw (gicv3_set_ipriorityr, own) (gic.bytes _ _ j d)
    | inr shared ↦ rw (gicv3_set_ipriorityr, shared) (gic.bytes _ _ j d)
  ]

  enabled_last :
      (w d : D)
      → irq < 1024
      → enabled w j ≡ enabled d j
      → enabled (gicv3_set_isenabler mmio cpu irq s w) j ≡ (enabled d j || (j == irq))
  enabled_last w d l e = set_isenabler-enabled w l ∙ ap (λ b. b || (j == irq)) e

-- With the GICv3 driver, for the first 1024 interrupts of a controller that behaves as documented and a
-- processor whose masks lie outside it: `pal_irq_enable` enables the interrupt, which is one of the
-- processor's own or a shared one, and leaves the others as they are, and `pal_irq_disable` disables
-- that one only.
pub irq_enable-seen :
    {D : Type 0} (mmio : Mmio D) (face : Interface D) (cpus fuel : ℕ) (v2 : Ops (Driver × D))
    (cpu : Cpu (Driver × D)) (enabled : D → ℕ → Bool) (irq priority j : ℕ) (s : Driver) (d : D)
    → IsGicv3 mmio face (s.rdist_pcpu_base face.core_pos) s.gicd_base enabled
    → LeavesGic cpu
    → irq < 1024
    → (enabled
          (irq_enable (arm_gic v2 (v3_ops mmio face cpus fuel) true) cpu irq priority (s, d)).1
          j
        ≡ (enabled d j || (j == irq)))
      × (enabled (irq_disable (arm_gic v2 (v3_ops mmio face cpus fuel) true) cpu irq (s, d)).1 j
          ≡ (enabled d j && not (j == irq)))
unfolding irq_enable irq_disable arm_gic v3_ops gicv3_set_intr_route
irq_enable-seen mmio face cpus fuel v2 cpu enabled irq priority j s d gic cpu_ok l = (
  elim (Bool-cases (is_plat_spi irq)) [
    | inl e ↦
        rw (cpu_ok.enables_fiq _, cpu_ok.enables _, cpu_ok.disables (s, d), e)
          (enabled_last mmio face enabled s gic irq j _ d l
            (set_ipriorityr-enabled mmio face enabled s gic irq j priority _ ∙ gic.routes _ _ j d))
    | inr e ↦
        rw (cpu_ok.enables_fiq _, cpu_ok.enables _, cpu_ok.disables (s, d), e)
          (enabled_last mmio face enabled s gic irq j _ d l
            (set_ipriorityr-enabled mmio face enabled s gic irq j priority d))
  ],
  set_icenabler-enabled mmio face enabled s gic irq j d l,
)
