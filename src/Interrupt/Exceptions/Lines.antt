-- ===== src/Interrupt/Exceptions/Lines.antt =====
-- Enabling and disabling interrupts in src/arch/x86/interrupt.c.
use geek_toy_os.Base.{
  ℕ, zero, suc, ◌≡◌, ◌≢◌, refl, arith, ◌⊎◌, inl, inr, true, none, some, Option-cases, List, [], ◌∷◌,
  get_elem?, if-eq_of_true, ◌∙◌,
}
use geek_toy_os.Ioapic.{Ioapic, gsi_to_ioapic, ioapic_unmask}
use geek_toy_os.Apic.{ioapic_isa_to_gsi}
use geek_toy_os.Interrupt.Exceptions.{Machine, change_at, on_ioapic, interrupt_enable_irq}

get_elem?-change_at :
    (f : Ioapic → Ioapic) (apics : List Ioapic) (i j : ℕ)
    → j ≢ i
    → get_elem? (change_at f apics i) j ≡ get_elem? apics j
unfolding change_at
get_elem?-change_at f [] i j apart = refl
get_elem?-change_at f (a ∷ rest) zero zero apart = absurd (apart refl)
get_elem?-change_at f (a ∷ rest) zero (suc j) apart = refl
get_elem?-change_at f (a ∷ rest) (suc i) zero apart = refl
get_elem?-change_at f (a ∷ rest) (suc i) (suc j) apart =
    get_elem?-change_at f rest i j (λ e. apart (omega (arith, e)))

on_ioapic_panics :
    (f : Ioapic → Ioapic) (gsi : ℕ) (s : Machine)
    → gsi_to_ioapic s.ioapics gsi 0 ≡ none
    → on_ioapic f gsi s ≡ none
unfolding on_ioapic
on_ioapic_panics f gsi s e = rw (on_ioapic, e) refl

on_ioapic_found :
    (f : Ioapic → Ioapic) (gsi i : ℕ) (s : Machine)
    → gsi_to_ioapic s.ioapics gsi 0 ≡ some i
    → on_ioapic f gsi s ≡ some (record s { ioapics = change_at f s.ioapics i })
unfolding on_ioapic
on_ioapic_found f gsi i s e = rw (on_ioapic, e) refl

-- Enabling an interrupt through the APIC either panics, for a GSI of no I/O APIC, or changes the I/O
-- APIC of the GSI only.
pub interrupt_enable_irq_lem :
    (irq : ℕ) (s : Machine)
    → s.apic_init_ok ≡ true
    → (interrupt_enable_irq irq s ≡ none)
      ⊎ ((i : ℕ) × (s' : Machine) × (interrupt_enable_irq irq s ≡ some s')
          × (gsi_to_ioapic s.ioapics (ioapic_isa_to_gsi s.override_list irq) 0 ≡ some i)
          × ((j : ℕ) → j ≢ i → get_elem? s'.ioapics j ≡ get_elem? s.ioapics j))
unfolding interrupt_enable_irq
interrupt_enable_irq_lem irq s ready =
    let gsi = ioapic_isa_to_gsi s.override_list irq in
    elim (Option-cases (gsi_to_ioapic s.ioapics gsi 0)) [
      | inl e ↦ inl (if-eq_of_true _ _ ready ∙ on_ioapic_panics (λ a. ioapic_unmask a gsi) gsi s e)
      | inr (i, e) ↦ inr (
        i,
        record s { ioapics = change_at (λ a. ioapic_unmask a gsi) s.ioapics i },
        if-eq_of_true _ _ ready ∙ on_ioapic_found (λ a. ioapic_unmask a gsi) gsi i s e,
        e,
        λ j apart. get_elem?-change_at _ s.ioapics i j apart,
      )
    ]
