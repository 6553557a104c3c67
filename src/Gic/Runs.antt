-- ===== src/Gic/Runs.antt =====
-- A GICv3 that keeps the enabled interrupts, and the search for a frame.
use ff_a_acs.Base.{
  ℕ, zero, suc, ◌+◌, ◌*◌, ◌/◌, ◌%◌, ◌^◌, ◌<◌, ◌≤◌, ◌≡◌, refl, Bool, true, false, not, ◌&&◌, ◌||◌,
  ◌==◌, some, arith, if◌then◌else◌,
}
use ff_a_acs.Irq.{Cpu, irq_enable, irq_disable}
use ff_a_acs.Gic.{Mmio}
use ff_a_acs.Gic.Choice.{Ops, arm_gic}
use ff_a_acs.Gic.Lines.{bit}
use ff_a_acs.Gic.Tests
use ff_a_acs.Gic.Tests.{in_bank, own, own_clear}
use ff_a_acs.Gic.V3.{
  Driver, Interface, start, typer_affinity, typer_value, is_last, sgi_value, aff_id,
}
use ff_a_acs.Gic.Frames.{found_frame, gicv3_probe_redistif_addr}
use ff_a_acs.Gic.Private.{IsGicv3, v3_ops, irq_enable-seen}
use ff_a_acs.Gic.Probe
use ff_a_acs.Gic.Probe.{gicv3_probe_redistif_addr_lem}

-- A frame at 0x20000 and a distributor at 0x1000.
unfoldable seen : ℕ → ℕ → (ℕ → Bool) → ℕ → Bool
seen a word d j =
    if a == 0x30100
    then d j || ((j / 32 == 0) && bit (j % 32) word)
    else if a == 0x30180
    then d j && not ((j / 32 == 0) && bit (j % 32) word)
    else Tests.written a word d j

abbrev mmio : Mmio (ℕ → Bool)
mmio = record {
  read8 = λ a d. (0, d);
  read32 = λ a d. (0, d);
  write8 = λ a word d. d;
  write32 = seen;
}

-- The frames at 0 and 0x20000, of which the second is the last and the processor's.
abbrev typer : ℕ → ℕ
typer i = if i == 1 then 3 * 2 ^ 32 + 16 else 0

abbrev face : Interface (ℕ → Bool)
face = record {
  core_pos = 0;
  mpidr = 0x80000003;
  read_igrpen1 = λ d. (0, d);
  write_igrpen1 = λ word d. d;
  write_pmr = λ word d. d;
  read_iar1 = λ d. (0, d);
  write_eoir1 = λ word d. d;
  write_sgi1r = λ word d. d;
  read64 = λ a d. (typer (a / 0x20000), d);
  write64 = λ a word d. d;
}

low : (at n w : ℕ) → n < 32 → at < 0x2000 → 0x10000 ≤ w → ((at + n * 4) == w) ≡ false
low at n w l u g = ground (arith, l, u, g)

mmio-IsGicv3 : IsGicv3 mmio face 0x20000 0x1000 (λ d. d)
unfolding seen Tests.written
mmio-IsGicv3 = record {
  own_sets = λ word j d. refl;
  own_clears = λ word j d. refl;
  shared_sets = λ n word j d one l.
      rw
        (
          seen,
          Tests.written,
          low 0x1100 n 0x30100 l (omega arith) (omega arith),
          low 0x1100 n 0x30180 l (omega arith) (omega arith),
          in_bank n 34 0x1100 l refl,
          own n,
        )
        refl;
  shared_clears = λ n word j d one l.
      rw
        (
          seen,
          Tests.written,
          low 0x1180 n 0x30100 l (omega arith) (omega arith),
          low 0x1180 n 0x30180 l (omega arith) (omega arith),
          in_bank n 35 0x1180 l refl,
          own_clear n,
        )
        refl;
  bytes = λ a value j d. refl;
  routes = λ a value j d. refl;
}

abbrev masks : Cpu (Driver × (ℕ → Bool))
masks = record {
  core_pos = 0;
  disable_irq = λ w. w;
  enable_irq = λ w. w;
  enable_fiq = λ w. w;
  dsbish = λ w. w;
  interrupt_get = λ w. (0, w);
}

abbrev driver : Driver
driver = record start { gicd_base = 0x1000; rdist_pcpu_base = λ _. 0x20000 }

abbrev ops : Ops (Driver × (ℕ → Bool))
ops = v3_ops mmio face 8 9

irq_enable-seen_example :
    ((irq_enable (arm_gic ops ops true) masks 27 3 (driver, λ _. false)).1 27
      ≡ (false || (27 == 27)))
    × ((irq_disable (arm_gic ops ops true) masks 27 (driver, λ _. false)).1 27
        ≡ (false && not (27 == 27)))
irq_enable-seen_example =
    irq_enable-seen mmio face 8 9 ops masks (λ d. d) 27 3 27 driver (λ _. false) mmio-IsGicv3
      (record { disables = λ w. refl; enables = λ w. refl; enables_fiq = λ w. refl }) (omega arith)

first_goes_on : (k : ℕ) → k < 1 → Probe.ends mmio face typer k ≡ false
unfolding typer_affinity typer_value is_last
first_goes_on zero l = refl
first_goes_on (suc k) l = absurd (omega (arith, l))

second_ends : Probe.ends mmio face typer 1 ≡ true
unfolding typer_affinity typer_value is_last
second_ends = refl

frame_word : (i : ℕ) → (0 + i * 0x20000 + 8) / 0x20000 ≡ i
frame_word i = omega arith

gicv3_probe_redistif_addr_lem_example :
    gicv3_probe_redistif_addr mmio face 2 (start, λ _. false)
    ≡ some (
      if Probe.matches mmio face typer 1
          then found_frame mmio face start (0 + 1 * 0x20000)
          else start,
      λ _. false,
    )
gicv3_probe_redistif_addr_lem_example =
    gicv3_probe_redistif_addr_lem mmio face typer 1 2 start (λ _. false)
      (λ i d. rw (frame_word i) refl) refl first_goes_on second_ends (omega arith)

-- Affinity 0.0.1.3, SGI 5.
sgi_of_core : sgi_value 0x103 5 ≡ 0x5010008
unfolding sgi_value aff_id
sgi_of_core = refl
