-- ===== src/Interrupt/Tests.antt =====
-- The handler table of src/kernel/interrupt.c with handlers named by numbers.
use geek_toy_os.Base.{ℕ, ◌≡◌, arith, none, some, [], ◌∷◌}
use geek_toy_os.Interrupt.{
  IsrInfo, eoi, handle, isr_irq, register_interrupt_handler, interrupt_handler,
}
use geek_toy_os.Interrupt.Dispatch.{interrupt_handler-register_interrupt_handler}

abbrev no_handlers : ℕ → IsrInfo ℕ
no_handlers vec = record { isr_type = 0; handler = none }

interrupt_handler_example :
    (interrupt_handler (register_interrupt_handler no_handlers 32 isr_irq (some 7)) 32
      ≡ eoi 32 ∷ handle 7 ∷ [])
    × (interrupt_handler (register_interrupt_handler no_handlers 32 isr_irq (some 7)) 33
        ≡ interrupt_handler no_handlers 33)
interrupt_handler_example =
    interrupt_handler-register_interrupt_handler no_handlers 32 33 7
      (λ e. absurd (omega (arith, e)))
