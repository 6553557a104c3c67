-- ===== src/Irq.antt =====
-- The interrupt handlers of platform/pal_baremetal/tgt_tfa_fvp/src/pal_irq.c. The interrupt controller,
-- the processor's masks and the secure partition manager are the record `Gic` over a world of its own;
-- Gic/Choice fills the calls of the controller. A handler is a number, and none for NULL. Assertions
-- are taken to be left out.
mod Laws
mod Tests
use ff_a_acs.Base.{
  ℕ, ◌+◌, ◌-◌, Bool, true, false, ◌&&◌, Option, none, some, leb, ◌==◌, ◌!=◌, if◌then◌else◌,
}

unfoldable pub is_plat_spi : ℕ → Bool
is_plat_spi irq = leb 32 irq && leb irq 139

unfoldable pub is_ppi : ℕ → Bool
is_ppi irq = leb 16 irq && leb irq 31

unfoldable pub is_sgi : ℕ → Bool
is_sgi irq = leb irq 15

abbrev pub spurious_interrupt : ℕ
spurious_interrupt = 1023

-- The entries of the tables, by processor where the tables are.
pub data Slot : Type 0 where
  spi : ℕ → Slot
  ppi sgi : (core irq : ℕ) → Slot
  spurious : Slot

pub record Handlers : Type 0 where
  pub spi_table : ℕ → Option ℕ
  pub ppi_table : ℕ → ℕ → Option ℕ
  pub sgi_table : ℕ → ℕ → Option ℕ
  pub spurious_handler : Option ℕ

unfoldable pub no_handlers : Handlers
no_handlers = record {
  spi_table = λ _. none;
  ppi_table = λ _ _. none;
  sgi_table = λ _ _. none;
  spurious_handler = none;
}

-- `get_irq_handler`: the entry of an interrupt on a processor.
unfoldable pub slot_of : (core irq : ℕ) → Slot
unfolding is_plat_spi is_ppi is_sgi
slot_of core irq =
    if is_plat_spi irq
    then spi (irq - 32)
    else if is_ppi irq
    then ppi core (irq - 16)
    else if is_sgi irq
    then sgi core irq
    else spurious

unfoldable pub handler_at : Handlers → Slot → Option ℕ
handler_at t (spi n) = t.spi_table n
handler_at t (ppi core n) = t.ppi_table core n
handler_at t (sgi core n) = t.sgi_table core n
handler_at t spurious = t.spurious_handler

unfoldable pub put_handler : Handlers → Slot → Option ℕ → Handlers
put_handler t (spi n) h = record t { spi_table = λ i. if i == n then h else t.spi_table i }
put_handler t (ppi core n) h = record t {
  ppi_table = λ c i. if (c == core) && (i == n) then h else t.ppi_table c i;
}
put_handler t (sgi core n) h = record t {
  sgi_table = λ c i. if (c == core) && (i == n) then h else t.sgi_table c i;
}
put_handler t spurious h = record t { spurious_handler = h }

unfoldable pub handler_valid : Option ℕ → Bool → Bool
handler_valid none expect = if expect then false else true
handler_valid (some h) expect = expect

-- The status, of which `true` is 0 and `false` is -1.
unfoldable pub update_handler : (core irq : ℕ) → Option ℕ → Bool → Handlers → Bool × Handlers
update_handler core irq h expect t =
    let at = slot_of core irq in
    if handler_valid (handler_at t at) expect then (true, put_handler t at h) else (false, t)

unfoldable pub register_handler : (core irq : ℕ) → Option ℕ → Handlers → Bool × Handlers
register_handler core irq h t = update_handler core irq h false t

unfoldable pub unregister_handler : (core irq : ℕ) → Handlers → Bool × Handlers
unregister_handler core irq t = update_handler core irq none true t

-- What a handler is given: nothing for a spurious interrupt.
pub data IrqData : Type 0 where
  no_data : IrqData
  irq_number : ℕ → IrqData
  sgi_number : ℕ → IrqData

-- `intr_ack` gives the interrupt and the raw value; `interrupt_get` asks the partition manager.
pub record Gic (W : Type 0) : Type 0 where
  pub set_intr_target : (irq core : ℕ) → W → W
  pub set_intr_priority : (irq priority : ℕ) → W → W
  pub intr_enable : ℕ → W → W
  pub intr_disable : ℕ → W → W
  pub send_sgi : (irq core : ℕ) → W → W
  pub intr_ack : W → ℕ × ℕ × W
  pub end_of_intr : ℕ → W → W

pub record Cpu (W : Type 0) : Type 0 where
  pub core_pos : ℕ
  pub disable_irq : W → W
  pub enable_irq : W → W
  pub enable_fiq : W → W
  pub dsbish : W → W
  pub interrupt_get : W → ℕ × W

unfoldable pub irq_data : ℕ → IrqData
unfolding is_plat_spi is_ppi is_sgi
irq_data irq =
    if is_plat_spi irq
    then irq_number irq
    else if is_ppi irq
    then irq_number irq
    else if is_sgi irq
    then sgi_number irq
    else no_data

module _ {W : Type 0} (gic : Gic W) (cpu : Cpu W) where
  unfoldable pub irq_enable : (irq priority : ℕ) → W → W
  unfolding is_plat_spi
  irq_enable irq priority w =
      let w1 = cpu.disable_irq w in
      let w2 = if is_plat_spi irq then gic.set_intr_target irq cpu.core_pos w1 else w1 in
      cpu.enable_fiq (cpu.enable_irq (gic.intr_enable irq (gic.set_intr_priority irq priority w2)))

  unfoldable pub irq_disable : ℕ → W → W
  irq_disable irq w = gic.intr_disable irq w

  unfoldable pub send_sgi : (irq core : ℕ) → W → W
  send_sgi irq core w = cpu.enable_irq (gic.send_sgi irq core (cpu.dsbish w))

  unfoldable pub get_irq_num : W → ℕ × W
  get_irq_num w = let (irq, raw, w') = gic.intr_ack w in (irq, w')

  -- A handler may itself change the tables. The status, of which `true` is PAL_SUCCESS; `vm1` says for
  -- which endpoint the file is compiled.
  unfoldable pub handler_dispatcher :
      (call : ℕ → IrqData → Handlers × W → Handlers × W)
      → (vm1 : Bool) → Handlers × W
      → Bool × Handlers × W
  handler_dispatcher call true (t, w) =
      let (irq, raw, w1) = gic.intr_ack w in
      elim (handler_at t (slot_of cpu.core_pos irq)) [
        | none ↦ (false, t, w1)
        | some h ↦
            let (t2, w2) = call h (irq_data irq) (t, w1) in
            (true, t2, if irq != spurious_interrupt then gic.end_of_intr raw w2 else w2)
      ]
  handler_dispatcher call false (t, w) =
      let (irq, w1) = cpu.interrupt_get w in
      elim (handler_at t (slot_of cpu.core_pos irq)) [
        | none ↦ (false, t, w1)
        | some h ↦ let (t2, w2) = call h (irq_data irq) (t, w1) in (true, t2, w2)
      ]

  -- `arm_gic_init` at the addresses of the platform is an argument.
  unfoldable pub irq_setup : (init : W → W) → Handlers × W → Handlers × W
  unfolding no_handlers
  irq_setup init (t, w) = (no_handlers, init w)
