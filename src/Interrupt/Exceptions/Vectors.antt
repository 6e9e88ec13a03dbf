-- ===== src/Interrupt/Exceptions/Vectors.antt =====
-- The vectors that `exception_init` of src/arch/x86/interrupt.c takes.
use geek_toy_os.Base.{
  ℕ, zero, suc, ◌+◌, ◌≡◌, arith, ◌∙◌, ◌&&◌, ◌||◌, ltb, leb, ◌==◌, if◌then◌else◌, some, [], ◌∷◌,
}
use geek_toy_os.Interrupt.{
  IsrInfo, handle, interrupt_handler, isr_exception, register_interrupt_handler,
}
use geek_toy_os.Interrupt.Exceptions.{exception_loop, exception_init}

module _ {Handler : Type 0} (h : Handler) where
  exception_loop_lem :
      (left i : ℕ) (handlers : ℕ → IsrInfo Handler) (vec : ℕ)
      → exception_loop h left i handlers vec ≡ (
          if leb i vec && ltb vec (i + left)
          then record { isr_type = isr_exception; handler = some h }
          else handlers vec)
  unfolding exception_loop register_interrupt_handler
  exception_loop_lem zero i handlers vec = ground arith
  exception_loop_lem (suc left) i handlers vec =
      exception_loop_lem left (i + 1) _ vec ∙ ground arith

  -- After `exception_init` the vectors below 32 and that of the NMI call the exception handler and
  -- send no end of interrupt; all others are as they were.
  pub interrupt_handler-exception_init :
      (handlers : ℕ → IsrInfo Handler) (vec : ℕ)
      → interrupt_handler (exception_init h handlers) vec
        ≡ (if ltb vec 32 || vec == 251 then handle h ∷ [] else interrupt_handler handlers vec)
  unfolding exception_init register_interrupt_handler interrupt_handler
  interrupt_handler-exception_init handlers vec =
      rw (exception_loop_lem 32 0 handlers vec) (ground arith)
