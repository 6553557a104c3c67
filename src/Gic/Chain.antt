-- ===== src/Gic/Chain.antt =====
-- The GICv2 driver of Gic/V2 as the driver that Gic/Choice asks for, and what the calls of Irq then do
-- to the distributor.
use ff_a_acs.Base.{ℕ, ◌<◌, ◌≡◌, ap, ◌∙◌, Bool, false, not, ◌&&◌, ◌||◌, ◌==◌, Bool-cases, inl, inr}
use ff_a_acs.Irq.{Cpu, irq_enable, irq_disable, is_plat_spi}
use ff_a_acs.Gic.{
  Mmio, isenabler, icenabler, icpendr, gicd_set, gicd_get_isenabler, gicd_get_ipriorityr,
  gicd_set_ipriorityr,
}
use ff_a_acs.Gic.Choice.{Ops, arm_gic}
use ff_a_acs.Gic.V2.{
  Driver, enable_cpuif, disable_cpuif, probe_gic_cpu_id, setup_cpuif, setup_distif,
  save_cpuif_context, restore_cpuif_context, save_sgi_ppi_context, restore_sgi_ppi_context,
  gicv2_send_sgi, set_itargetsr, gicc_read_iar, gicc_write_eoir, get_ispendr,
}
use ff_a_acs.Gic.Lines.{IsDistributor, gicd_set-enabled}

-- A call that only reads or writes the device.
abbrev on_device : {D : Type 0} → (Driver → D → D) → Driver × D → Driver × D
on_device f (s, d) = (s, f s d)

abbrev asks_device : {D A : Type 0} → (Driver → D → A × D) → Driver × D → A × (Driver × D)
asks_device f (s, d) = let (a, d1) = f s d in (a, (s, d1))

unfoldable pub v2_ops : {D : Type 0} → Mmio D → (ctz : ℕ → ℕ) → (core : ℕ) → Ops (Driver × D)
v2_ops mmio ctz core = record {
  enable_cpuif = on_device (enable_cpuif mmio);
  disable_cpuif = on_device (disable_cpuif mmio);
  probe = probe_gic_cpu_id mmio ctz core;
  setup_cpuif = on_device (setup_cpuif mmio);
  setup_distif = on_device (setup_distif mmio);
  save_cpuif_context = save_cpuif_context mmio core;
  restore_cpuif_context = on_device (restore_cpuif_context mmio core);
  save_sgi_ppi_context = save_sgi_ppi_context mmio core;
  restore_sgi_ppi_context = on_device (restore_sgi_ppi_context mmio core);
  get_ipriorityr = λ irq. asks_device (λ s d. gicd_get_ipriorityr mmio s.gicd_base irq d);
  set_ipriorityr =
      λ irq priority. on_device (λ s d. gicd_set_ipriorityr mmio s.gicd_base irq priority d);
  send_sgi = λ sgi target. on_device (gicv2_send_sgi mmio sgi target);
  set_target = λ irq target. on_device (set_itargetsr mmio irq target);
  get_isenabler = λ irq. asks_device (λ s d. gicd_get_isenabler mmio s.gicd_base irq d);
  set_isenabler = λ irq. on_device (λ s d. gicd_set mmio isenabler s.gicd_base irq d);
  set_icenabler = λ irq. on_device (λ s d. gicd_set mmio icenabler s.gicd_base irq d);
  acknowledge = asks_device (gicc_read_iar mmio);
  get_ispendr = λ irq. asks_device (λ s d. get_ispendr mmio s irq d);
  set_icpendr = λ irq. on_device (λ s d. gicd_set mmio icpendr s.gicd_base irq d);
  end_of_interrupt = λ raw. on_device (λ s d. gicc_write_eoir mmio s raw d);
}

-- The processor's masks lie outside the controller.
pub record LeavesGic {W : Type 0} (cpu : Cpu W) : Type 0 where
  pub disables : (w : W) → cpu.disable_irq w ≡ w
  pub enables : (w : W) → cpu.enable_irq w ≡ w
  pub enables_fiq : (w : W) → cpu.enable_fiq w ≡ w

-- With the GICv2 driver, for the first 1024 lines of a distributor that behaves as documented and a
-- processor whose masks lie outside the controller: `pal_irq_enable` enables the interrupt and leaves
-- the other lines as they are, and `pal_irq_disable` disables that one only.
pub irq_enable-enabled :
    {D : Type 0} (mmio : Mmio D) (ctz : ℕ → ℕ) (v3 : Ops (Driver × D)) (cpu : Cpu (Driver × D))
    (enabled : D → ℕ → Bool) (irq priority j : ℕ) (s : Driver) (d : D)
    → IsDistributor mmio s.gicd_base enabled
    → LeavesGic cpu
    → irq < 1024
    → (enabled
          (irq_enable (arm_gic (v2_ops mmio ctz cpu.core_pos) v3 false) cpu irq priority (s, d)).1
          j
        ≡ (enabled d j || (j == irq)))
      × (enabled (irq_disable (arm_gic (v2_ops mmio ctz cpu.core_pos) v3 false) cpu irq (s, d)).1 j
          ≡ (enabled d j && not (j == irq)))
unfolding irq_enable irq_disable arm_gic v2_ops set_itargetsr gicd_set_ipriorityr
irq_enable-enabled {D = D} mmio ctz v3 cpu enabled irq priority j s d dist cpu_ok l = (
  elim (Bool-cases (is_plat_spi irq)) [
    | inl e ↦
        rw (cpu_ok.enables_fiq _, cpu_ok.enables _, cpu_ok.disables (s, d), e)
          (last _ (dist.bytes _ _ j _ ∙ dist.bytes _ _ j d))
    | inr e ↦
        rw (cpu_ok.enables_fiq _, cpu_ok.enables _, cpu_ok.disables (s, d), e)
          (last _ (dist.bytes _ _ j d))
  ],
  (gicd_set-enabled mmio s.gicd_base enabled irq j d dist l).1,
)
  where
    last :
        (w : D)
        → enabled w j ≡ enabled d j
        → enabled (gicd_set mmio isenabler s.gicd_base irq w) j ≡ (enabled d j || (j == irq))
    last w same =
        (gicd_set-enabled mmio s.gicd_base enabled irq j w dist l).0
        ∙ ap (λ b. b || (j == irq)) same
