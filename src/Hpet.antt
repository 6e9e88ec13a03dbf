-- ===== src/Hpet.antt =====
-- src/arch/x86/hpet.c: the HPET, its registers words of 64 bits by their offsets, which hold what
-- was last written; and the start of the clock in src/arch/x86/clock.c. The check of `hpet_write`
-- after the store only logs.
pub mod Bits
pub mod Start
mod Tests
use geek_toy_os.Apic.{Override, ioapic_isa_to_gsi}
use geek_toy_os.Clock.{hz}
use geek_toy_os.Base.{
  ℕ, zero, suc, ◌+◌, ◌-◌, ◌*◌, ◌/◌, ◌%◌, ◌^◌, bit_and, bit_or, Bool, true, false, not, ◌&&◌, ◌==◌,
  if◌then◌else◌, update, u8, u64, Option, none, some, List, [], ◌∷◌,
}

abbrev pub Registers : Type 0
Registers = ℕ → ℕ

abbrev pub hpet_reg_cap : ℕ
hpet_reg_cap = 0x0

abbrev pub hpet_reg_cnf : ℕ
hpet_reg_cnf = 0x10

abbrev pub hpet_reg_counter : ℕ
hpet_reg_counter = 0xF0

-- `HPET_REG_TIMER(n)`; the configuration stands at 0 from there, the comparator at 8.
abbrev pub hpet_reg_timer : ℕ → ℕ
hpet_reg_timer n = n * 0x20 + 0x100

pub hpet_write : Registers → (reg val : ℕ) → Registers
hpet_write r reg val = update r reg (u64 val)

-- The store of 32 bits leaves the upper half of the register.
pub hpet_write32 : Registers → (reg val : ℕ) → Registers
hpet_write32 r reg val = update r reg (r reg / 2 ^ 32 * 2 ^ 32 + val % 2 ^ 32)

-- Whether the timer can be the clock: periodic, and wired to the interrupt.
pub usable : (gsi timer_cnf : ℕ) → Bool
usable gsi timer_cnf =
    not (bit_and timer_cnf 0x10 == 0) && not (bit_and timer_cnf (2 ^ (gsi + 32)) == 0)

-- The configuration of the clock's timer, and that of a timer put out of use.
pub clock_cnf : (gsi timer_cnf : ℕ) → ℕ
clock_cnf gsi timer_cnf =
    bit_or (bit_or (bit_and timer_cnf (2 ^ 64 - 1 - 0x7F4E)) (8 + 4 + 0x40))
      (bit_and gsi 0x1f * 2 ^ 9)

pub unused_cnf : (timer_cnf : ℕ) → ℕ
unused_cnf timer_cnf = bit_and timer_cnf (2 ^ 64 - 1 - 4)

pub set_timer : Registers → (i gsi target_cmp : ℕ) → Registers
set_timer r i gsi target_cmp =
    let r1 = hpet_write r (hpet_reg_timer i) (clock_cnf gsi (r (hpet_reg_timer i))) in
    let r2 = hpet_write32 r1 (hpet_reg_timer i + 8) target_cmp in
    hpet_write32 r2 (hpet_reg_timer i + 8) target_cmp

-- The registers and `valid_timer`.
pub record Timers : Type 0 where
  pub registers : Registers
  pub valid_timer : Option ℕ

is_none : Option ℕ → Bool
is_none none = true
is_none (some i) = false

-- A round of the loop over the timers.
pub timer_round : (i gsi target_cmp : ℕ) → Timers → Timers
unfolding is_none
timer_round i gsi target_cmp t =
    let timer_cnf = t.registers (hpet_reg_timer i) in
    if usable gsi timer_cnf && is_none t.valid_timer
    then record { registers = set_timer t.registers i gsi target_cmp; valid_timer = some i }
    else record t { registers = hpet_write t.registers (hpet_reg_timer i) (unused_cnf timer_cnf) }

pub timer_loop : (left i gsi target_cmp : ℕ) → Timers → Timers
timer_loop zero i gsi target_cmp t = t
timer_loop (suc left) i gsi target_cmp t =
    timer_loop left (suc i) gsi target_cmp (timer_round i gsi target_cmp t)

-- `hpet_init` once `acpi_find_table` has found the table and `arch_kmap` has mapped the registers;
-- `valid_timer` is none where it returns 0, for no timer. `none` is the fault of the division, where
-- the period times HZ is 0.
pub hpet_init : List Override → Registers → Option Timers
hpet_init overrides r =
    let gsi = ioapic_isa_to_gsi overrides 0 in
    let cap = r hpet_reg_cap in
    let tick = u64 (cap / 2 ^ 32 * hz) in
    let target_cmp = 1000000000000000 / tick in
    let num_timers = bit_and (cap / 2 ^ 8) 0x1f in
    let stopped = hpet_write (hpet_write r hpet_reg_cnf 0) hpet_reg_counter 0 in
    let timers =
      timer_loop (num_timers + 1) 0 gsi target_cmp
        (record { registers = stopped; valid_timer = none }) in
    if tick == 0 then none else some timers

pub hpet_start : Registers → Registers
hpet_start r = hpet_write r hpet_reg_cnf (1 + 2)

-- The bytes that `pit_start` puts on the ports, the first one first.
pub pit_start : List (ℕ × ℕ)
pit_start = (0x43, 0x34) ∷ (0x40, u8 (1193182 / hz)) ∷ (0x40, u8 (1193182 / hz / 2 ^ 8)) ∷ []

-- What `arch_clock_start` does, by `clock_type`.
pub data Started : Type 0 where
  by_hpet : Registers → Started
  by_pit : List (ℕ × ℕ) → Started

pub arch_clock_start : (clock_type : Bool) → Registers → Started
arch_clock_start clock_type r = if clock_type then by_hpet (hpet_start r) else by_pit pit_start
