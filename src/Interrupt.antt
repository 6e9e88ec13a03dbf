-- ===== src/Interrupt.antt =====
-- src/kernel/interrupt.c: the table of interrupt handlers. What a handler does is left to the
-- parameter `Handler`; a run is the list of what `interrupt_handler` calls, in order.
pub mod Dispatch
pub mod Exceptions
mod Tests
use geek_toy_os.Base.{
  ℕ, Bool, true, false, ◌==◌, if◌then◌else◌, update, Option, none, some, List, [], ◌∷◌, ◌++◌,
}

-- `enum isr_type`
abbrev pub isr_irq : ℕ
isr_irq = 0

abbrev pub isr_exception : ℕ
isr_exception = 1

-- `struct isr_info`; a null handler is `none`.
pub record IsrInfo (Handler : Type 0) : Type 0 where
  pub isr_type : ℕ
  pub handler : Option Handler

-- A call of `interrupt_eoi` or of a handler.
pub data Call (Handler : Type 0) : Type 0 where
  eoi : (int_no : ℕ) → Call Handler
  handle : Handler → Call Handler

module _ {Handler : Type 0} where
  pub register_interrupt_handler :
      (ℕ → IsrInfo Handler) → (vec type : ℕ) → (h : Option Handler) → ℕ → IsrInfo Handler
  register_interrupt_handler handlers vec type h =
      update handlers vec (record { isr_type = type; handler = h })

  pub interrupt_handler : (ℕ → IsrInfo Handler) → (int_no : ℕ) → List (Call Handler)
  interrupt_handler handlers int_no =
      let info = handlers int_no in
      (if info.isr_type == isr_irq then eoi int_no ∷ [] else [])
      ++ (elim info.handler [ some h ↦ handle h ∷ [] | none ↦ [] ])
