-- ===== src/Interrupt/Dispatch.antt =====
-- What an interrupt of src/kernel/interrupt.c calls after a handler is registered.
use geek_toy_os.Base.{ℕ, ◌==◌, ◌≡◌, ◌≢◌, refl, arith, true, false, some, [], ◌∷◌}
use geek_toy_os.Interrupt.{
  IsrInfo, eoi, handle, isr_irq, register_interrupt_handler, interrupt_handler,
}

-- After a handler is registered as an IRQ for a vector, an interrupt of that vector signals its end
-- and then calls the handler, and interrupts of every other vector call what they called before.
pub interrupt_handler-register_interrupt_handler :
    {Handler : Type 0} (handlers : ℕ → IsrInfo Handler) (vec other : ℕ) (h : Handler)
    → other ≢ vec
    → (interrupt_handler (register_interrupt_handler handlers vec isr_irq (some h)) vec
        ≡ eoi vec ∷ handle h ∷ [])
      × (interrupt_handler (register_interrupt_handler handlers vec isr_irq (some h)) other
          ≡ interrupt_handler handlers other)
unfolding interrupt_handler register_interrupt_handler
interrupt_handler-register_interrupt_handler handlers vec other h apart =
    let here : (vec == vec) ≡ true = ground arith in
    let there : (other == vec) ≡ false = ground (arith, apart) in (rw here refl, rw there refl)
