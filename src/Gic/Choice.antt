-- ===== src/Gic/Choice.antt =====
-- The choice between the two drivers, platform/driver/src/gic/pal_arm_gic_v2v3.c. What the file calls of
-- a driver is the record `Ops`, of which there is one for GICv2 and one for GICv3.
use ff_a_acs.Base.{ℕ, ◌%◌, Bool, true, false, ◌!=◌}
use ff_a_acs.Irq.{Gic}

pub record Ops (W : Type 0) : Type 0 where
  pub enable_cpuif : W → W
  pub disable_cpuif : W → W
  pub probe : W → W
  pub setup_cpuif : W → W
  pub setup_distif : W → W
  pub save_cpuif_context : W → W
  pub restore_cpuif_context : W → W
  pub save_sgi_ppi_context : W → W
  pub restore_sgi_ppi_context : W → W
  pub get_ipriorityr : ℕ → W → ℕ × W
  pub set_ipriorityr : (irq priority : ℕ) → W → W
  pub send_sgi : (sgi core : ℕ) → W → W
  pub set_target : (irq core : ℕ) → W → W
  pub get_isenabler : ℕ → W → ℕ × W
  pub set_isenabler : ℕ → W → W
  pub set_icenabler : ℕ → W → W
  pub acknowledge : W → ℕ × W
  pub get_ispendr : ℕ → W → ℕ × W
  pub set_icpendr : ℕ → W → W
  pub end_of_interrupt : ℕ → W → W

module _ {W : Type 0} (v2 v3 : Ops W) where
  -- `gicv3_detected`
  abbrev pub driver : Bool → Ops W
  driver true = v3
  driver false = v2

  unfoldable pub setup_local : Bool → W → W
  setup_local detected w = (driver detected).setup_cpuif ((driver detected).probe w)

  unfoldable pub restore_context_global : Bool → W → W
  restore_context_global detected w =
      (driver detected).restore_sgi_ppi_context ((driver detected).setup_distif w)

  unfoldable pub intr_enabled : Bool → ℕ → W → Bool × W
  intr_enabled detected irq w =
      let (word, w1) = (driver detected).get_isenabler irq w in (word != 0, w1)

  -- The interrupt and the raw value. GICv2 has the processor in the upper bits of the raw value.
  unfoldable pub intr_ack : Bool → W → ℕ × ℕ × W
  intr_ack true w = let (raw, w1) = v3.acknowledge w in (raw, raw, w1)
  intr_ack false w = let (raw, w1) = v2.acknowledge w in (raw % 1024, raw, w1)

  -- `is_gicv3_mode` and the calls that keep the base addresses are arguments. With GICv2 neither the
  -- distributor nor the processor's interface is set up.
  unfoldable pub init : (gicv3_mode : Bool) → (init_v2 init_v3 : W → W) → W → Bool × W
  unfolding setup_local
  init true init_v2 init_v3 w = (true, setup_local true (v3.setup_distif (init_v3 w)))
  init false init_v2 init_v3 w = (false, init_v2 w)

  -- The controller that the interrupt handlers of Irq work on.
  unfoldable pub arm_gic : Bool → Gic W
  unfolding intr_ack
  arm_gic detected = record {
    set_intr_target = (driver detected).set_target;
    set_intr_priority = (driver detected).set_ipriorityr;
    intr_enable = (driver detected).set_isenabler;
    intr_disable = (driver detected).set_icenabler;
    send_sgi = (driver detected).send_sgi;
    intr_ack = intr_ack detected;
    end_of_intr = (driver detected).end_of_interrupt;
  }
