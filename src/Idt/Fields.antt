-- ===== src/Idt/Fields.antt =====
-- What the processor reads back from the descriptors.
use geek_toy_os.Base.{
  ℕ, zero, suc, ◌+◌, ◌*◌, ◌/◌, ◌%◌, ◌^◌, ◌≤◌, ◌<◌, bit_and, bit_or, ◌==◌, ==_iff, ltb,
  if◌then◌else◌, u8, true, Bool-cases, inl, inr, ◌≡◌, refl, ◌∙◌, arith, low_mask, high_mask,
  or_disjoint,
}
use geek_toy_os.Idt.{
  IdtEntry, Descriptor, kernel_text, ist_none, ist_nmi, ist_double_fault, interrupt_gate, int_nmi,
  int_double_fault, gate, idt_set_gate, gate_loop, idt_init, set_ist, gdt_set_gate,
}

-- The address that the processor goes to, from the three fields of a gate.
abbrev pub target : IdtEntry → ℕ
target e = e.base_lo + e.base_mid * 2 ^ 16 + e.base_hi * 2 ^ 32

gate-target : (base flags : ℕ) → base < 2 ^ 64 → target (gate base flags) ≡ base
unfolding gate
gate-target base flags h =
    let a : bit_and base 65535 ≡ base % 2 ^ 16 = low_mask 16 base in
    let b : bit_and (base / 2 ^ 16) 65535 ≡ base / 2 ^ 16 % 2 ^ 16 = low_mask 16 (base / 2 ^ 16) in
    let c : bit_and (base / 2 ^ 32) 4294967295 ≡ base / 2 ^ 32 % 2 ^ 32 =
      low_mask 32 (base / 2 ^ 32) in
    rw (a, b, c) (omega (arith, h))

gate_loop-at :
    (left i v : ℕ) (isr_func : ℕ → ℕ) (entries : ℕ → IdtEntry)
    → i + left ≤ 256
    → v < i + left
    → gate_loop left i isr_func entries v
      ≡ (if ltb v i then entries v else gate (isr_func v) interrupt_gate)
unfolding gate_loop idt_set_gate
gate_loop-at zero i v isr_func entries fits lt = ground (arith, lt)
gate_loop-at (suc left) i v isr_func entries fits lt =
    let small : u8 (u8 i) ≡ i = omega (arith, fits) in
    rw small (
      gate_loop-at left (suc i) v isr_func _ (omega (arith, fits)) (omega (arith, lt))
      ∙ elim (Bool-cases (v == i)) [
        | inl e ↦ let e' : v ≡ i = (==_iff v i).0 e in rw e' (ground arith)
        | inr ne ↦ ground (arith, ne)
      ])

set_ist-at :
    (es : ℕ → IdtEntry) (num ist v : ℕ)
    → set_ist es num ist v ≡ record (es v) { ist = if v == num then ist else (es v).ist }
unfolding set_ist
set_ist-at es num ist v = elim (Bool-cases (v == num)) [
  | inl e ↦ let e' : v ≡ num = (==_iff v num).0 e in rw e' (ground arith)
  | inr ne ↦ rw ne refl
]

idt_init-at :
    (isr_func : ℕ → ℕ) (entries : ℕ → IdtEntry) (vec : ℕ)
    → vec < 256
    → idt_init isr_func entries vec ≡ record (gate (isr_func vec) interrupt_gate) {
      ist =
          if vec == int_nmi
          then ist_nmi
          else if vec == int_double_fault
          then ist_double_fault
          else ist_none;
    }
unfolding idt_init gate
idt_init-at isr_func entries vec lt =
    let es = gate_loop 256 0 isr_func entries in
    let at = gate_loop-at 256 0 vec isr_func entries (omega arith) (omega (arith, lt)) in
    let fresh : (if ltb vec 0 then entries vec else gate (isr_func vec) interrupt_gate)
        ≡ gate (isr_func vec) interrupt_gate =
      ground arith in
    rw (set_ist-at (set_ist es int_double_fault ist_double_fault) int_nmi ist_nmi vec)
      (rw (set_ist-at es int_double_fault ist_double_fault vec) (rw (at ∙ fresh) refl))

-- After `idt_init`, whatever the table held, the gate of every vector is an interrupt gate of the
-- kernel's code that leads to the vector's routine; double faults and NMIs have stacks of their own,
-- and no other vector has. The routines have addresses of 64 bits.
pub idt_init-target :
    (isr_func : ℕ → ℕ) (entries : ℕ → IdtEntry) (vec : ℕ)
    → vec < 256
    → isr_func vec < 2 ^ 64
    → let e = idt_init isr_func entries vec in
      (target e ≡ isr_func vec)
      × (e.sel ≡ kernel_text)
      × (e.flags ≡ interrupt_gate)
      × (e.ist ≡ (
          if vec == int_nmi
          then ist_nmi
          else if vec == int_double_fault
          then ist_double_fault
          else ist_none))
unfolding gate
idt_init-target isr_func entries vec lt small =
    let to = gate-target (isr_func vec) interrupt_gate small in
    rw (idt_init-at isr_func entries vec lt) (to, refl, refl, refl)

-- The base, the limit and the attributes that the processor reads from a segment's descriptor are
-- those that `gdt_set_gate` was given: 32 bits, 20 bits, and all but the four in the middle of 16.
pub gdt_set_gate-fields :
    (gdt : ℕ → Descriptor) (num base limit attr : ℕ)
    → base < 2 ^ 32
    → limit < 2 ^ 20
    → attr < 2 ^ 16
    → let d = gdt_set_gate gdt num base limit attr num in
      (d.base_low + d.base_middle * 2 ^ 16 + d.base_high * 2 ^ 24 ≡ base)
      × (d.limit_low + d.limit_high_attr2 % 16 * 2 ^ 16 ≡ limit)
      × (d.attr1 + d.limit_high_attr2 / 16 * 2 ^ 12 ≡ attr % 2 ^ 8 + attr / 2 ^ 12 * 2 ^ 12)
unfolding gdt_set_gate
gdt_set_gate-fields gdt num base limit attr h k l =
    let b0 : bit_and base 65535 ≡ base % 2 ^ 16 = low_mask 16 base in
    let b1 : bit_and (base / 2 ^ 16) 255 ≡ base / 2 ^ 16 % 2 ^ 8 = low_mask 8 (base / 2 ^ 16) in
    let b2 : bit_and (base / 2 ^ 24) 255 ≡ base / 2 ^ 24 % 2 ^ 8 = low_mask 8 (base / 2 ^ 24) in
    let l0 : bit_and limit 65535 ≡ limit % 2 ^ 16 = low_mask 16 limit in
    let l1 : bit_and (limit / 2 ^ 16) 15 ≡ limit / 2 ^ 16 % 2 ^ 4 = low_mask 4 (limit / 2 ^ 16) in
    let a0 : bit_and attr 255 ≡ attr % 2 ^ 8 = low_mask 8 attr in
    let a1 : bit_and (attr / 2 ^ 8) 240 ≡ attr / 2 ^ 12 * 2 ^ 4 =
      high_mask 4 (attr / 2 ^ 8) 15 ∙ rw (low_mask 4 (attr / 2 ^ 8 / 2 ^ 4)) (omega (arith, l)) in
    let both : bit_or (limit / 2 ^ 16 % 2 ^ 4) (attr / 2 ^ 12 * 2 ^ 4)
        ≡ limit / 2 ^ 16 % 2 ^ 4 + attr / 2 ^ 12 * 2 ^ 4 =
      or_disjoint 4 (limit / 2 ^ 16 % 2 ^ 4) (attr / 2 ^ 12) (omega arith) in
    let here : (num == num) ≡ true = ground arith in
    rw here
      (rw (b0, b1, b2, l0, l1, a0, a1, both) (omega (arith, h), omega (arith, k), omega (arith, l)))
