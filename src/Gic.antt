-- ===== src/Gic.antt =====
-- The distributor of the interrupt controller, platform/driver/src/gic/pal_gic_common.c, and its GICv2
-- drivers, pal_gic_v2.c (Gic/V2) and pal_gic_v3.c (Gic/V3) beside it. Registers are reached by the
-- platform's MMIO calls, which are an argument: what a register does with a word is the device's.
-- Assertions are taken to be left out.
mod V2
mod Choice
mod V3
mod Frames
mod Private
mod Probe
mod Chain
mod Lines
mod Tests
mod Runs
use ff_a_acs.Base.{ℕ, zero, suc, ◌+◌, ◌*◌, ◌/◌, ◌%◌, ◌^◌}
use Prim.Native.Nat.{bit_and}

pub record Mmio (D : Type 0) : Type 0 where
  pub read8 : ℕ → D → ℕ × D
  pub read32 : ℕ → D → ℕ × D
  pub write8 : ℕ → ℕ → D → D
  pub write32 : ℕ → ℕ → D → D

-- The registers of a bit or a field for each interrupt.
pub data Bank : Type 0 where
  isenabler icenabler ispendr icpendr isactiver icactiver ipriorityr icfgr : Bank

abbrev pub offset : Bank → ℕ
offset isenabler = 0x100
offset icenabler = 0x180
offset ispendr = 0x200
offset icpendr = 0x280
offset isactiver = 0x300
offset icactiver = 0x380
offset ipriorityr = 0x400
offset icfgr = 0xc00

-- How many interrupts a register holds.
abbrev pub per_register : Bank → ℕ
per_register isenabler = 32
per_register icenabler = 32
per_register ispendr = 32
per_register icpendr = 32
per_register isactiver = 32
per_register icactiver = 32
per_register ipriorityr = 4
per_register icfgr = 16

unfoldable pub register : Bank → (base irq : ℕ) → ℕ
register r base irq = base + offset r + irq / per_register r * 4

module _ {D : Type 0} (mmio : Mmio D) where
  unfoldable pub gicd_read : Bank → (base irq : ℕ) → D → ℕ × D
  gicd_read r base irq d = mmio.read32 (register r base irq) d

  unfoldable pub gicd_write : Bank → (base irq value : ℕ) → D → D
  gicd_write r base irq value d = mmio.write32 (register r base irq) value d

  -- The bit of one interrupt, in the banks of 32.
  unfoldable pub gicd_get_isenabler : (base irq : ℕ) → D → ℕ × D
  gicd_get_isenabler base irq d =
      let (word, d1) = gicd_read isenabler base irq d in (bit_and word (2 ^ (irq % 32)), d1)

  unfoldable pub gicd_set : Bank → (base irq : ℕ) → D → D
  gicd_set r base irq d = gicd_write r base irq (2 ^ (irq % 32)) d

  unfoldable pub gicd_get_ipriorityr : (base irq : ℕ) → D → ℕ × D
  gicd_get_ipriorityr base irq d =
      let (word, d1) = gicd_read ipriorityr base irq d in (bit_and word 0xff, d1)

  unfoldable pub gicd_set_ipriorityr : (base irq priority : ℕ) → D → D
  gicd_set_ipriorityr base irq priority d =
      mmio.write8 (base + offset ipriorityr + irq) (bit_and priority 0xff) d
