-- ===== src/Irq/Tests.antt =====
-- Interrupt handlers on an interrupt controller that records its last command.
use ff_a_acs.Base.{ℕ, ◌+◌, ◌≡◌, refl, arith, true, false, some, inr}
use ff_a_acs.Irq.{
  Handlers, Gic, Cpu, IrqData, irq_number, no_handlers, slot_of, handler_at, register_handler,
  unregister_handler, update_handler, handler_valid, handler_dispatcher, irq_enable, is_plat_spi,
}
use ff_a_acs.Irq.Laws.{register_handler_other, handler_dispatcher-register_handler}

-- The world is the number of the last interrupt that was ended; interrupt 40 is pending.
abbrev gic : Gic ℕ
gic = record {
  set_intr_target = λ irq core w. w;
  set_intr_priority = λ irq priority w. w;
  intr_enable = λ irq w. irq;
  intr_disable = λ irq w. w;
  send_sgi = λ irq core w. w;
  intr_ack = λ w. (40, 40, w);
  end_of_intr = λ raw w. raw;
}

abbrev cpu : Cpu ℕ
cpu = record {
  core_pos = 0;
  disable_irq = λ w. w;
  enable_irq = λ w. w;
  enable_fiq = λ w. w;
  dsbish = λ w. w;
  interrupt_get = λ w. (40, w);
}

abbrev call : ℕ → IrqData → Handlers × ℕ → Handlers × ℕ
call h d (t, w) = (t, w + 1)

enabled : irq_enable gic cpu 40 3 0 ≡ 40
unfolding irq_enable is_plat_spi
enabled = refl

unregister_refused : (unregister_handler 0 40 no_handlers).0 ≡ false
unfolding unregister_handler update_handler handler_valid handler_at slot_of no_handlers
unregister_refused = refl

other_core_untouched :
    handler_at (register_handler 0 20 (some 7) no_handlers).1 (slot_of 1 20)
    ≡ handler_at no_handlers (slot_of 1 20)
other_core_untouched =
    register_handler_other 0 1 20 20 (some 7) no_handlers (omega arith) (omega arith)
      (inr (omega arith, omega arith))

handler_dispatcher-register_handler_example :
    handler_dispatcher gic cpu call true ((register_handler 0 40 (some 7) no_handlers).1, 5)
    ≡ (true, (call 7 (irq_number 40) ((register_handler 0 40 (some 7) no_handlers).1, 5)).0, 40)
unfolding no_handlers handler_at slot_of
handler_dispatcher-register_handler_example =
    handler_dispatcher-register_handler gic cpu call 40 40 7 no_handlers 5 5 (omega arith) refl refl
