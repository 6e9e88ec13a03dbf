-- ===== src/Lapic.antt =====
-- The registers of the local APIC in src/arch/x86/apic.c, by their offsets, and its set-up.
use geek_toy_os.Base.{
  ℕ, ◌+◌, ◌*◌, ◌/◌, ◌%◌, ◌^◌, bit_and, bit_or, ◌==◌, ◌||◌, if◌then◌else◌, update, u8, u32, sub32,
  sub64, Option, none, some, List, [], ◌∷◌, length,
}
use geek_toy_os.Apic.{Nmi, LapicInfo, find_lapic, kern_base}
use geek_toy_os.Interrupt.{IsrInfo, isr_irq, register_interrupt_handler}

abbrev pub reg_eoi : ℕ
reg_eoi = 0xB0

abbrev pub reg_lint0 : ℕ
reg_lint0 = 0x350

abbrev pub reg_lint1 : ℕ
reg_lint1 = 0x360

abbrev pub reg_icr0 : ℕ
reg_icr0 = 0x300

abbrev pub reg_icr1 : ℕ
reg_icr1 = 0x310

pub lapic_write : (ℕ → ℕ) → (reg_offset value : ℕ) → ℕ → ℕ
lapic_write registers reg_offset value = update registers reg_offset (u32 value)

-- `800` is decimal in the source.
pub nmi_value : (vec flags : ℕ) → ℕ
nmi_value vec flags =
    let n0 = bit_or 800 vec in
    let n1 = if bit_and flags 2 == 0 then n0 else bit_or n0 (2 ^ 13) in
    if bit_and flags 8 == 0 then n1 else bit_or n1 (2 ^ 15)

pub lapic_set_nmi : (ℕ → ℕ) → (vec : ℕ) → Nmi → ℕ → ℕ
lapic_set_nmi registers vec nmi_info =
    let nmi = nmi_value vec nmi_info.flags in
    if nmi_info.lint_num == 0
    then lapic_write registers reg_lint0 nmi
    else if nmi_info.lint_num == 1
    then lapic_write registers reg_lint1 nmi
    else registers

-- The end of interrupt is signalled when the in-service bit of the vector is set.
pub lapic_eoi : (ℕ → ℕ) → (vec : ℕ) → ℕ → ℕ
lapic_eoi registers vec =
    let reg = 0x100 + 0x10 * (vec / 32) in
    if bit_and (registers reg) (2 ^ (vec % 32)) == 0
    then registers
    else lapic_write registers reg_eoi 0

-- `none` is `panic`.
pub lapic_send_ipi : (lapic_base : ℕ) → (ℕ → ℕ) → (target flags : ℕ) → Option (ℕ → ℕ)
lapic_send_ipi lapic_base registers target flags =
    let r1 =
      if bit_and flags (3 * 2 ^ 18) == 0
      then lapic_write registers reg_icr1 (target * 2 ^ 24)
      else registers in
    if lapic_base == 0 then none else some (lapic_write r1 reg_icr0 flags)

pub lapic_id : (ℕ → ℕ) → ℕ
lapic_id registers = u8 (registers 0x20 / 2 ^ 24)

pub lapic_num : List LapicInfo → ℕ
lapic_num lapic_list = u8 (length lapic_list)

-- `lapic_timer_prepare`, which waits for a tick, starts the timer and stops it ten ticks later:
-- `current` is what the timer's count is then. The registers and the ticks in 10 ms.
pub lapic_timer_prepare : (ℕ → ℕ) → (current : ℕ) → (ℕ → ℕ) × ℕ
lapic_timer_prepare registers current =
    let started = lapic_write (lapic_write registers 0x3E0 3) 0x380 0xFFFFFFFF in
    (lapic_write started 0x320 0x10000, sub32 0xFFFFFFFF current / (100 / 10))

-- `lapic->ticks_per_10ms = period` for the entry that `find_lapic` returns.
pub set_ticks : (id period : ℕ) → List LapicInfo → List LapicInfo
set_ticks id period [] = []
set_ticks id period (l ∷ ls) =
    let rest = l ∷ set_ticks id period ls in
    if l.id == id then record l { ticks_per_10ms = period } ∷ ls else rest

-- `IRQ_LINT_TIMER`, `IRQ_NMI` and `IRQ_SPURIOUS`
abbrev pub irq_lint_timer : ℕ
irq_lint_timer = 254

abbrev pub irq_nmi : ℕ
irq_nmi = 251

abbrev pub irq_spurious : ℕ
irq_spurious = 255

-- `lapic_timer_enable`; `none` is the write through NULL for a processor that is not on the list.
pub lapic_timer_enable :
    (ℕ → ℕ) → (current : ℕ) → List LapicInfo → Option ((ℕ → ℕ) × List LapicInfo)
lapic_timer_enable registers current lapic_list =
    let id = lapic_id registers in
    let (r1, period) = lapic_timer_prepare registers current in
    let r2 = lapic_write (lapic_write r1 0x3E0 3) 0x320 (bit_or irq_lint_timer 0x20000) in
    let r3 = lapic_write r2 0x380 period in
    elim (find_lapic lapic_list id) [
      | none ↦ none
      | some _ ↦ some (r3, set_ticks id period lapic_list)
    ]

-- The loop of `lapic_enable` over the NMIs.
pub set_nmis : (acpi_id : ℕ) → List Nmi → (ℕ → ℕ) → ℕ → ℕ
set_nmis acpi_id [] registers = registers
set_nmis acpi_id (n ∷ ns) registers = set_nmis acpi_id ns (
    if n.acpi_id == acpi_id || n.acpi_id == 0xFF
    then lapic_set_nmi registers irq_nmi n
    else registers)

-- The entry of the processor is read for the first NMI only: `none` is a read through NULL, for a
-- processor that is not on the list.
pub nmi_registers : Option LapicInfo → List Nmi → (ℕ → ℕ) → Option (ℕ → ℕ)
nmi_registers lapic [] registers = some registers
nmi_registers none (n ∷ ns) registers = none
nmi_registers (some lapic) (n ∷ ns) registers = some (set_nmis lapic.acpi_id (n ∷ ns) registers)

-- What `lapic_enable` leaves: the value of `APIC_MSR`, the registers and the handlers.
pub record Enabled (Handler : Type 0) : Type 0 where
  pub apic_msr : ℕ
  pub registers : ℕ → ℕ
  pub handlers : ℕ → IsrInfo Handler

-- `lapic_enable`, with the handler of the scheduler; `APIC_MSR_ENABLE` is bit 11.
pub lapic_enable :
    {Handler : Type 0}
    → (sched_handler : Handler) → (lapic_base : ℕ) → List LapicInfo
    → List Nmi
    → (ℕ → ℕ)
    → (ℕ → IsrInfo Handler)
    → Option (Enabled Handler)
lapic_enable sched_handler lapic_base lapic_list nmi_list registers handlers =
    let id = lapic_id registers in
    elim (nmi_registers (find_lapic lapic_list id) nmi_list registers) [
      | none ↦ none
      | some r1 ↦
          let r2 = lapic_write r1 0xF0 (bit_or (bit_or (r1 0xF0) (2 ^ 8)) irq_spurious) in
          some (record {
            apic_msr = bit_or (sub64 lapic_base kern_base) (2 ^ 11);
            registers = lapic_write r2 reg_eoi 0;
            handlers =
                if id == 0
                then register_interrupt_handler handlers irq_lint_timer isr_irq (some sched_handler)
                else handlers;
          })
    ]
