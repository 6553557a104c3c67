-- ===== src/Gic/Tests.antt =====
-- A distributor that keeps the enabled interrupts, and the state of the driver.
use ff_a_acs.Base.{
  ℕ, ◌+◌, ◌*◌, ◌/◌, ◌%◌, ◌≡◌, refl, Bool, false, not, ◌&&◌, ◌||◌, ◌==◌, ◌-◌, ◌<◌, arith,
  if◌then◌else◌,
}
use ff_a_acs.Gic.{Mmio, ipriorityr, register}
use ff_a_acs.Gic.Lines.{bit, IsDistributor}
use ff_a_acs.Gic.V2.{Driver, start}
use ff_a_acs.Gic.Choice.{Ops, arm_gic}
use ff_a_acs.Gic.Chain.{v2_ops, irq_enable-enabled}
use ff_a_acs.Irq.{Cpu, irq_enable, irq_disable}

-- Set-enable registers from 0x1100 on and clear-enable registers from 0x1180 on.
unfoldable pub written : ℕ → ℕ → (ℕ → Bool) → ℕ → Bool
written a word d j =
    if a / 0x80 == 34
    then d j || ((j / 32 == (a - 0x1100) / 4) && bit (j % 32) word)
    else if a / 0x80 == 35
    then d j && not ((j / 32 == (a - 0x1180) / 4) && bit (j % 32) word)
    else d j

abbrev mmio : Mmio (ℕ → Bool)
mmio = record {
  read8 = λ a d. (0, d);
  read32 = λ a d. (0, d);
  write8 = λ a word d. d;
  write32 = written;
}

pub in_bank : (n bank at : ℕ) → n < 32 → at ≡ 32 * 4 * bank → (at + n * 4) / 0x80 ≡ bank
in_bank n bank at l e = omega (arith, l, e)

pub own : (n : ℕ) → ((0x1000 + 0x100 + n * 4) - 0x1100) / 4 ≡ n
own n = omega arith

pub own_clear : (n : ℕ) → ((0x1000 + 0x180 + n * 4) - 0x1180) / 4 ≡ n
own_clear n = omega arith

mmio-IsDistributor : IsDistributor mmio 0x1000 (λ d. d)
unfolding written
mmio-IsDistributor = record {
  sets = λ n word j d l. rw (written, in_bank n 34 0x1100 l refl, own n) refl;
  bytes = λ a value j d. refl;
  clears = λ n word j d l. rw (written, in_bank n 35 0x1180 l refl, own_clear n) refl;
}

abbrev masks : Cpu (Driver × (ℕ → Bool))
masks = record {
  core_pos = 0;
  disable_irq = λ w. w;
  enable_irq = λ w. w;
  enable_fiq = λ w. w;
  dsbish = λ w. w;
  interrupt_get = λ w. (0, w);
}

abbrev driver : Driver
driver = record start { gicd_base = 0x1000 }

abbrev ops : Ops (Driver × (ℕ → Bool))
ops = v2_ops mmio (λ _. 0) 0

irq_enable-enabled_example :
    ((irq_enable (arm_gic ops ops false) masks 40 3 (driver, λ _. false)).1 40
      ≡ (false || (40 == 40)))
    × ((irq_disable (arm_gic ops ops false) masks 40 (driver, λ _. false)).1 40
        ≡ (false && not (40 == 40)))
irq_enable-enabled_example =
    irq_enable-enabled mmio (λ _. 0) ops masks (λ d. d) 40 3 40 driver (λ _. false)
      mmio-IsDistributor
      (record { disables = λ w. refl; enables = λ w. refl; enables_fiq = λ w. refl }) (omega arith)

priority_register : register ipriorityr 0 9 ≡ 0x408
unfolding register
priority_register = refl
