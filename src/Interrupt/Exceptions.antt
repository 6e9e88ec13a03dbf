-- ===== src/Interrupt/Exceptions.antt =====
-- src/arch/x86/interrupt.c: exceptions, the two PICs, and the end of interrupt by the APIC or the
-- PICs; and `ioapic_init` of src/arch/x86/apic.c. Writes to ports are kept as a list, oldest first;
-- texts are lists of character codes.
pub mod Vectors
pub mod Lines
use geek_toy_os.Base.{
  ℕ, zero, suc, ◌+◌, ◌%◌, ◌^◌, Bool, true, false, ltb, leb, ◌==◌, if◌then◌else◌, u8, Option, none,
  some, List, [], ◌∷◌, ◌++◌, get_or,
}
use geek_toy_os.Apic.{Override, ioapic_isa_to_gsi}
use geek_toy_os.Ioapic.{Ioapic, gsi_to_ioapic, ioapic_redirect, ioapic_mask, ioapic_unmask}
use geek_toy_os.Lapic.{lapic_eoi}
use geek_toy_os.Interrupt.{IsrInfo, isr_exception, register_interrupt_handler}

abbrev pub io_pic1 : ℕ
io_pic1 = 0x20

abbrev pub io_pic2 : ℕ
io_pic2 = 0xA0

-- The writes of `pic_init`, as pairs of port and value.
pub pic_init : List (ℕ × ℕ)
pic_init =
    (io_pic1, 0x11)
    ∷ (io_pic2, 0x11)
    ∷ (io_pic1 + 1, 0x20)
    ∷ (io_pic2 + 1, 0x28)
    ∷ (io_pic1 + 1, 0x04)
    ∷ (io_pic2 + 1, 0x02)
    ∷ (io_pic1 + 1, 0x01)
    ∷ (io_pic2 + 1, 0x01)
    ∷ (io_pic1 + 1, 0xFF)
    ∷ (io_pic2 + 1, 0xFF)
    ∷ []

pub pic_eoi : (intr_no : ℕ) → List (ℕ × ℕ)
pic_eoi intr_no = (if leb 40 intr_no then (io_pic2, 0x20) ∷ [] else []) ++ (io_pic1, 0x20) ∷ []

-- `(unknown trap)`
abbrev unknown_trap : List ℕ
unknown_trap = 40 ∷ 117 ∷ 110 ∷ 107 ∷ 110 ∷ 111 ∷ 119 ∷ 110 ∷ 32 ∷ 116 ∷ 114 ∷ 97 ∷ 112 ∷ 41 ∷ []

abbrev pub intrnames : List (List ℕ)
intrnames =
    (68 ∷ 105 ∷ 118 ∷ 105 ∷ 100 ∷ 101 ∷ 32 ∷ 101 ∷ 114 ∷ 114 ∷ 111 ∷ 114 ∷ [])
    ∷ (68 ∷ 101 ∷ 98 ∷ 117 ∷ 103 ∷ [])
    ∷ (78 ∷ 111 ∷ 110 ∷ 45 ∷ 77 ∷ 97 ∷ 115 ∷ 107 ∷ 97 ∷ 98 ∷ 108 ∷ 101 ∷ 32 ∷ 73 ∷ 110 ∷ 116 ∷ 101
        ∷ 114 ∷ 114 ∷ 117 ∷ 112 ∷ 116 ∷ [])
    ∷ (66 ∷ 114 ∷ 101 ∷ 97 ∷ 107 ∷ 112 ∷ 111 ∷ 105 ∷ 110 ∷ 116 ∷ [])
    ∷ (79 ∷ 118 ∷ 101 ∷ 114 ∷ 102 ∷ 108 ∷ 111 ∷ 119 ∷ [])
    ∷ (66 ∷ 79 ∷ 85 ∷ 78 ∷ 68 ∷ 32 ∷ 82 ∷ 97 ∷ 110 ∷ 103 ∷ 101 ∷ 32 ∷ 69 ∷ 120 ∷ 99 ∷ 101 ∷ 101
        ∷ 100 ∷ 101 ∷ 100 ∷ [])
    ∷ (73 ∷ 110 ∷ 118 ∷ 97 ∷ 108 ∷ 105 ∷ 100 ∷ 32 ∷ 79 ∷ 112 ∷ 99 ∷ 111 ∷ 100 ∷ 101 ∷ [])
    ∷ (68 ∷ 101 ∷ 118 ∷ 105 ∷ 99 ∷ 101 ∷ 32 ∷ 78 ∷ 111 ∷ 116 ∷ 32 ∷ 65 ∷ 118 ∷ 97 ∷ 105 ∷ 108 ∷ 97
        ∷ 98 ∷ 108 ∷ 101 ∷ [])
    ∷ (68 ∷ 111 ∷ 117 ∷ 98 ∷ 108 ∷ 101 ∷ 32 ∷ 70 ∷ 97 ∷ 117 ∷ 108 ∷ 116 ∷ [])
    ∷ (67 ∷ 111 ∷ 112 ∷ 114 ∷ 111 ∷ 99 ∷ 101 ∷ 115 ∷ 115 ∷ 111 ∷ 114 ∷ 32 ∷ 83 ∷ 101 ∷ 103 ∷ 109
        ∷ 101 ∷ 110 ∷ 116 ∷ 32 ∷ 79 ∷ 118 ∷ 101 ∷ 114 ∷ 114 ∷ 117 ∷ 110 ∷ [])
    ∷ (73 ∷ 110 ∷ 118 ∷ 97 ∷ 108 ∷ 105 ∷ 100 ∷ 32 ∷ 84 ∷ 83 ∷ 83 ∷ [])
    ∷ (83 ∷ 101 ∷ 103 ∷ 109 ∷ 101 ∷ 110 ∷ 116 ∷ 32 ∷ 78 ∷ 111 ∷ 116 ∷ 32 ∷ 80 ∷ 114 ∷ 101 ∷ 115
        ∷ 101 ∷ 110 ∷ 116 ∷ [])
    ∷ (83 ∷ 116 ∷ 97 ∷ 99 ∷ 107 ∷ 32 ∷ 70 ∷ 97 ∷ 117 ∷ 108 ∷ 116 ∷ [])
    ∷ (71 ∷ 101 ∷ 110 ∷ 101 ∷ 114 ∷ 97 ∷ 108 ∷ 32 ∷ 80 ∷ 114 ∷ 111 ∷ 116 ∷ 101 ∷ 99 ∷ 116 ∷ 105
        ∷ 111 ∷ 110 ∷ [])
    ∷ (80 ∷ 97 ∷ 103 ∷ 101 ∷ 32 ∷ 70 ∷ 97 ∷ 117 ∷ 108 ∷ 116 ∷ [])
    ∷ (40 ∷ 117 ∷ 110 ∷ 107 ∷ 110 ∷ 111 ∷ 119 ∷ 110 ∷ 32 ∷ 116 ∷ 114 ∷ 97 ∷ 112 ∷ 41 ∷ [])
    ∷ (120 ∷ 56 ∷ 55 ∷ 32 ∷ 70 ∷ 80 ∷ 85 ∷ 32 ∷ 70 ∷ 108 ∷ 111 ∷ 97 ∷ 116 ∷ 105 ∷ 110 ∷ 103 ∷ 45
        ∷ 80 ∷ 111 ∷ 105 ∷ 110 ∷ 116 ∷ 32 ∷ 69 ∷ 114 ∷ 114 ∷ 111 ∷ 114 ∷ [])
    ∷ (65 ∷ 108 ∷ 105 ∷ 103 ∷ 110 ∷ 109 ∷ 101 ∷ 110 ∷ 116 ∷ 32 ∷ 67 ∷ 104 ∷ 101 ∷ 99 ∷ 107 ∷ [])
    ∷ (77 ∷ 97 ∷ 99 ∷ 104 ∷ 105 ∷ 110 ∷ 101 ∷ 45 ∷ 67 ∷ 104 ∷ 101 ∷ 99 ∷ 107 ∷ [])
    ∷ (83 ∷ 73 ∷ 77 ∷ 68 ∷ 32 ∷ 70 ∷ 108 ∷ 111 ∷ 97 ∷ 116 ∷ 105 ∷ 110 ∷ 103 ∷ 45 ∷ 80 ∷ 111 ∷ 105
        ∷ 110 ∷ 116 ∷ 32 ∷ 69 ∷ 120 ∷ 99 ∷ 101 ∷ 112 ∷ 116 ∷ 105 ∷ 111 ∷ 110 ∷ [])
    ∷ []

pub intrname : (intrno : ℕ) → List ℕ
intrname intrno = if ltb intrno 20 then get_or intrnames intrno unknown_trap else unknown_trap

-- The name and number that `exception_handler` panics with; `none` is a page fault, which it takes
-- for unreachable.
pub exception_handler : (int_no : ℕ) → Option (List ℕ × ℕ)
exception_handler int_no =
    let n = u8 int_no in
    let shown = if n == 251 then 2 else n in if n == 14 then none else some (intrname shown, shown)

-- The vectors from `i` up to `i + left`.
pub exception_loop :
    {Handler : Type 0} → (h : Handler) → (left i : ℕ) → (ℕ → IsrInfo Handler) → ℕ → IsrInfo Handler
exception_loop h zero i handlers = handlers
exception_loop h (suc left) i handlers =
    exception_loop h left (i + 1) (register_interrupt_handler handlers i isr_exception (some h))

pub exception_init :
    {Handler : Type 0} → (h : Handler) → (ℕ → IsrInfo Handler) → ℕ → IsrInfo Handler
exception_init h handlers =
    register_interrupt_handler (exception_loop h 32 0 handlers) 251 isr_exception (some h)

-- What the functions below read and change.
pub record Machine : Type 0 where
  pub apic_init_ok : Bool
  pub lapic : ℕ → ℕ
  pub ioapics : List Ioapic
  pub override_list : List Override
  pub ports : List (ℕ × ℕ)

-- The I/O APIC at an index changed.
pub change_at : (Ioapic → Ioapic) → List Ioapic → (i : ℕ) → List Ioapic
change_at f [] i = []
change_at f (a ∷ rest) zero = f a ∷ rest
change_at f (a ∷ rest) (suc i) = a ∷ change_at f rest i

-- A function on the I/O APIC of a GSI; `none` is the `panic` of `gsi_to_ioapic`.
pub on_ioapic : (Ioapic → Ioapic) → (gsi : ℕ) → Machine → Option Machine
on_ioapic f gsi s = elim (gsi_to_ioapic s.ioapics gsi 0) [
  | none ↦ none
  | some i ↦ some (record s { ioapics = change_at f s.ioapics i })
]

pub interrupt_eoi : (vec : ℕ) → Machine → Machine
interrupt_eoi vec s =
    if s.apic_init_ok
    then record s { lapic = lapic_eoi s.lapic vec }
    else record s { ports = s.ports ++ pic_eoi vec }

pub interrupt_enable_irq : (irq : ℕ) → Machine → Option Machine
interrupt_enable_irq irq s =
    let gsi = ioapic_isa_to_gsi s.override_list irq in
    if s.apic_init_ok then on_ioapic (λ a. ioapic_unmask a gsi) gsi s else some s

pub interrupt_disable_irq : (irq : ℕ) → Machine → Option Machine
interrupt_disable_irq irq s =
    let gsi = ioapic_isa_to_gsi s.override_list irq in
    if s.apic_init_ok then on_ioapic (λ a. ioapic_mask a gsi) gsi s else some s

-- `ioapic_redirect` and then `ioapic_mask` of `gsi`, for the APIC id of the first local APIC.
pub wire : (target_apic_id gsi flags : ℕ) → Option Machine → Option Machine
wire target_apic_id gsi flags none = none
wire target_apic_id gsi flags (some s) =
    on_ioapic (λ a. ioapic_mask (ioapic_redirect a gsi flags target_apic_id) gsi) gsi s

-- The interrupts of the PIC from `i` up to `i + left`, in `ioapic_init`.
pub wire_legacy : (target_apic_id left i : ℕ) → Option Machine → Option Machine
wire_legacy target_apic_id zero i s = s
wire_legacy target_apic_id (suc left) i s =
    wire_legacy target_apic_id left (i + 1) (wire target_apic_id i 0 s)

pub wire_overrides : (target_apic_id : ℕ) → List Override → Option Machine → Option Machine
wire_overrides target_apic_id [] s = s
wire_overrides target_apic_id (o ∷ os) s =
    wire_overrides target_apic_id os (wire target_apic_id o.gsi o.flags s)

pub ioapic_init : (target_apic_id : ℕ) → Machine → Option Machine
ioapic_init target_apic_id s =
    wire_overrides target_apic_id s.override_list (wire_legacy target_apic_id 16 0 (some s))
