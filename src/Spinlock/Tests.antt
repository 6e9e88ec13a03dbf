-- ===== src/Spinlock/Tests.antt =====
-- Two cores at the lock of src/kernel/spinlock.c.
use geek_toy_os.Base.{◌≡◌, refl, arith}
use geek_toy_os.Spinlock.{
  State, holding, Steps, stay, step, call, exchange, start, enter, try_acquire,
}
use geek_toy_os.Spinlock.Exclusion.{Steps-IsExclusive}

-- Core 1 comes to the lock, core 2 too, and core 2 takes it; core 1 tries in vain.
abbrev contended : State
contended = try_acquire (try_acquire (enter (enter start 1) 2) 2) 1

run : Steps start contended
unfolding start enter try_acquire
run = step (step (step (step stay (call 1 refl)) (call 2 refl)) (exchange 2 refl)) (exchange 1 refl)

two_holds : contended.cores 2 ≡ holding
unfolding start enter try_acquire
two_holds = refl

Steps-IsExclusive_example : ¬ ((contended.cores 1 ≡ holding) × (contended.cores 2 ≡ holding))
Steps-IsExclusive_example = Steps-IsExclusive contended 1 2 run (λ e. absurd (omega (arith, e)))
