-- ===== src/Irq/Laws.antt =====
-- Registration of the interrupt handlers of Irq, and what the dispatcher makes of it.
use ff_a_acs.Base.{
  ℕ, ◌≤◌, ◌<◌, ◌≡◌, ◌≢◌, ◌⊎◌, refl, sym, arith, Bool, true, false, Option, none, some, inl, inr,
  ◌!=◌, leb, if◌then◌else◌, Bool-cases,
}
use ff_a_acs.Irq.{
  Slot, spi, ppi, sgi, spurious, Handlers, slot_of, handler_at, put_handler, handler_valid,
  update_handler, register_handler, unregister_handler, is_plat_spi, is_ppi, is_sgi, Gic, Cpu,
  handler_dispatcher, IrqData, irq_number, sgi_number, irq_data, spurious_interrupt,
}

handler_at-put_handler :
    (t : Handlers) (a : Slot) (h : Option ℕ) → handler_at (put_handler t a h) a ≡ h
unfolding handler_at put_handler
handler_at-put_handler t (spi n) h = ground arith
handler_at-put_handler t (ppi c n) h = ground arith
handler_at-put_handler t (sgi c n) h = ground arith
handler_at-put_handler t spurious h = refl

handler_at-put_handler_other :
    (t : Handlers) (a b : Slot) (h : Option ℕ)
    → a ≢ b
    → handler_at (put_handler t a h) b ≡ handler_at t b
unfolding handler_at put_handler
handler_at-put_handler_other t (spi n) (spi m) h d = ground (arith, d)
handler_at-put_handler_other t (spi n) (ppi c' m) h d = refl
handler_at-put_handler_other t (spi n) (sgi c' m) h d = refl
handler_at-put_handler_other t (spi n) spurious h d = refl
handler_at-put_handler_other t (ppi c n) (spi m) h d = refl
handler_at-put_handler_other t (ppi c n) (ppi c' m) h d = ground (arith, d)
handler_at-put_handler_other t (ppi c n) (sgi c' m) h d = refl
handler_at-put_handler_other t (ppi c n) spurious h d = refl
handler_at-put_handler_other t (sgi c n) (spi m) h d = refl
handler_at-put_handler_other t (sgi c n) (ppi c' m) h d = refl
handler_at-put_handler_other t (sgi c n) (sgi c' m) h d = ground (arith, d)
handler_at-put_handler_other t (sgi c n) spurious h d = refl
handler_at-put_handler_other t spurious (spi m) h d = refl
handler_at-put_handler_other t spurious (ppi c' m) h d = refl
handler_at-put_handler_other t spurious (sgi c' m) h d = refl
handler_at-put_handler_other t spurious spurious h d = absurd (d refl)

slot_of-injective :
    (core other irq irq' : ℕ)
    → irq < 140
    → irq' < 140
    → slot_of core irq ≡ slot_of other irq'
    → (irq ≡ irq') × ((core ≡ other) ⊎ (32 ≤ irq))
unfolding slot_of is_plat_spi is_ppi is_sgi
slot_of-injective core other irq irq' h k e = ground (arith, e)

none_valid :
    {a : Option ℕ} (expect : Bool)
    → a ≡ none
    → handler_valid a expect ≡ (if expect then false else true)
unfolding handler_valid
none_valid expect e = rw e refl

some_valid : {a : Option ℕ} {h : ℕ} {expect : Bool} → a ≡ some h → handler_valid a expect ≡ expect
unfolding handler_valid
some_valid e = rw e refl

not_spurious : (irq : ℕ) → irq < 140 → (irq != spurious_interrupt) ≡ true
not_spurious irq l = ground arith

update_kept :
    (core irq : ℕ) (h : Option ℕ) (expect : Bool) (t : Handlers)
    → handler_valid (handler_at t (slot_of core irq)) expect ≡ true
    → update_handler core irq h expect t ≡ (true, put_handler t (slot_of core irq) h)
unfolding update_handler
update_kept core irq h expect t e = rw (update_handler, e) refl

update_refused :
    (core irq : ℕ) (h : Option ℕ) (expect : Bool) (t : Handlers)
    → handler_valid (handler_at t (slot_of core irq)) expect ≡ false
    → update_handler core irq h expect t ≡ (false, t)
unfolding update_handler
update_refused core irq h expect t e = rw (update_handler, e) refl

-- An entry without a handler: the first registration is kept, a second is refused and changes
-- nothing, and taking the handler out leaves the entry without one again, after which taking it out
-- once more is refused.
register_handler-unregister_handler :
    (core irq h k : ℕ) (t : Handlers)
    → handler_at t (slot_of core irq) ≡ none
    → ((register_handler core irq (some h) t).0 ≡ true)
      × (handler_at (register_handler core irq (some h) t).1 (slot_of core irq) ≡ some h)
      × (register_handler core irq (some k) (register_handler core irq (some h) t).1
          ≡ (false, (register_handler core irq (some h) t).1))
      × ((unregister_handler core irq (register_handler core irq (some h) t).1).0 ≡ true)
      × (unregister_handler core irq
            (unregister_handler core irq (register_handler core irq (some h) t).1).1
          ≡ (false, (unregister_handler core irq (register_handler core irq (some h) t).1).1))
unfolding register_handler unregister_handler
register_handler-unregister_handler core irq h k t free =
    let at = slot_of core irq in
    let full = put_handler t at (some h) in
    let kept = handler_at-put_handler t at (some h) in
    let gone = handler_at-put_handler full at none in
    let first = update_kept core irq (some h) false t (none_valid false free) in
    let second = update_refused core irq (some k) false full (some_valid kept) in
    let out = update_kept core irq none true full (some_valid kept) in
    let again =
      update_refused core irq none true (put_handler full at none) (none_valid true gone) in
    rw (register_handler, unregister_handler, first, second, out, again)
      (refl, kept, refl, refl, refl)

-- What is registered for an interrupt on a processor leaves the handlers of the other interrupts, and
-- those of the other processors for a private interrupt, as they were.
pub register_handler_other :
    (core other irq irq' : ℕ) (h : Option ℕ) (t : Handlers)
    → irq < 140
    → irq' < 140
    → (irq ≢ irq') ⊎ ((core ≢ other) × (irq < 32))
    → handler_at (register_handler core irq h t).1 (slot_of other irq')
      ≡ handler_at t (slot_of other irq')
unfolding register_handler update_handler
register_handler_other core other irq irq' h t l m d =
    let at = slot_of core irq in
    elim (Bool-cases (handler_valid (handler_at t at) false)) [
      | inr e ↦ rw e refl
      | inl e ↦ rw e (
          handler_at-put_handler_other t at (slot_of other irq') h (λ same.
            let f = slot_of-injective core other irq irq' l m same in ground (arith, f, d)))
    ]

number :
    (irq : ℕ) → irq < 140 → irq_data irq ≡ (if leb irq 15 then sgi_number irq else irq_number irq)
unfolding irq_data is_plat_spi is_ppi is_sgi
number irq l = ground arith

dispatcher_calls :
    {W : Type 0} (gic : Gic W) (cpu : Cpu W) (call : ℕ → IrqData → Handlers × W → Handlers × W)
    {irq raw h : ℕ} (t : Handlers) {w w1 : W}
    → irq < 140
    → handler_at t (slot_of cpu.core_pos irq) ≡ some h
    → gic.intr_ack w ≡ (irq, raw, w1)
    → handler_dispatcher gic cpu call true (t, w) ≡ (
      true,
      (call h (irq_data irq) (t, w1)).0,
      gic.end_of_intr raw (call h (irq_data irq) (t, w1)).1,
    )
unfolding handler_dispatcher
dispatcher_calls gic cpu call {irq} t l kept ack =
    rw (handler_dispatcher, ack, kept, ack, not_spurious irq l) refl

-- In the build for VM1, for an acknowledged interrupt below 140 that had no handler until one was
-- registered for it on this processor: the dispatcher calls that handler with the interrupt's number,
-- once, and then tells the controller that it is done.
pub handler_dispatcher-register_handler :
    {W : Type 0} (gic : Gic W) (cpu : Cpu W) (call : ℕ → IrqData → Handlers × W → Handlers × W)
    (irq raw h : ℕ) (t : Handlers) (w w1 : W)
    → irq < 140
    → handler_at t (slot_of cpu.core_pos irq) ≡ none
    → gic.intr_ack w ≡ (irq, raw, w1)
    → handler_dispatcher gic cpu call true ((register_handler cpu.core_pos irq (some h) t).1, w) ≡ (
      true,
      (call h
          (if leb irq 15 then sgi_number irq else irq_number irq)
          ((register_handler cpu.core_pos irq (some h) t).1, w1)).0,
      gic.end_of_intr raw
          (call h
            (if leb irq 15 then sgi_number irq else irq_number irq)
            ((register_handler cpu.core_pos irq (some h) t).1, w1)).1,
    )
unfolding register_handler
handler_dispatcher-register_handler gic cpu call irq raw h t w w1 l free ack =
    let first = update_kept cpu.core_pos irq (some h) false t (none_valid false free) in
    let kept = handler_at-put_handler t (slot_of cpu.core_pos irq) (some h) in
    rw (register_handler, first, sym (number irq l))
      (dispatcher_calls gic cpu call (put_handler t (slot_of cpu.core_pos irq) (some h)) l kept ack)
