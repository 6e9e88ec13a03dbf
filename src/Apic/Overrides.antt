-- ===== src/Apic/Overrides.antt =====
-- The two maps between ISA interrupts and GSIs of src/arch/x86/apic.c.
use geek_toy_os.Base.{
  ℕ, ◌<◌, true, false, ◌==◌, u8, ◌≡◌, ◌≢◌, ◌⊎◌, refl, arith, ==_iff, Bool-cases, inl, inr, List, [],
  ◌∷◌,
}
use geek_toy_os.Apic.{Override, ioapic_isa_to_gsi, ioapic_gsi_to_isa}

-- An ISA interrupt is the source of an override.
abbrev pub IsOverridden : List Override → (isa : ℕ) → Type 0
IsOverridden [] isa = ⊥
IsOverridden (o ∷ os) isa = (o.source ≡ isa) ⊎ IsOverridden os isa

-- A GSI is none of the targets.
abbrev pub IsFree : List Override → (gsi : ℕ) → Type 0
IsFree [] gsi = Unit
IsFree (o ∷ os) gsi = (o.gsi ≢ gsi) × IsFree os gsi

-- No two overrides share a GSI, and each fits a byte, as `u8` is what the code returns.
abbrev pub AreDistinct : List Override → Type 0
AreDistinct [] = Unit
AreDistinct (o ∷ os) = (o.gsi < 256) × IsFree os o.gsi × AreDistinct os

-- The GSI of an overridden interrupt is one of the targets.
not_free :
    (os : List Override) (isa gsi : ℕ)
    → IsOverridden os isa
    → AreDistinct os
    → IsFree os gsi
    → ioapic_isa_to_gsi os isa ≢ gsi
unfolding ioapic_isa_to_gsi
not_free [] isa gsi i d f = absurd i
not_free (o ∷ os) isa gsi i (small, apart, d) (other, f) = elim (Bool-cases (o.source == isa)) [
  | inl here ↦ rw here (ground (arith, small, other))
  | inr there ↦
      rw there
        (elim i [ inl e ↦ absurd (ground (arith, there, e)) | inr j ↦ not_free os isa gsi j d f ])
]

-- An interrupt with an override goes to its GSI and back to itself, when no two overrides share a
-- GSI and every GSI fits a byte.
pub ioapic_gsi_to_isa-ioapic_isa_to_gsi :
    (os : List Override) (isa : ℕ)
    → IsOverridden os isa
    → AreDistinct os
    → ioapic_gsi_to_isa os (ioapic_isa_to_gsi os isa) ≡ isa
unfolding ioapic_isa_to_gsi ioapic_gsi_to_isa
ioapic_gsi_to_isa-ioapic_isa_to_gsi [] isa i d = absurd i
ioapic_gsi_to_isa-ioapic_isa_to_gsi (o ∷ os) isa i (small, apart, d) =
    elim (Bool-cases (o.source == isa)) [
      | inl here ↦
          let flat : u8 o.gsi ≡ o.gsi = omega (arith, small) in
          let own : (o.gsi == o.gsi) ≡ true = (==_iff o.gsi o.gsi).1 refl in
          rw here (rw flat (rw own ((==_iff o.source isa).0 here)))
      | inr there ↦ elim i [
        | inl e ↦ absurd (ground (arith, there, e))
        | inr j ↦
            let missed : (o.gsi == ioapic_isa_to_gsi os isa) ≡ false =
              ground (arith, not_free os isa o.gsi j d apart) in
            rw there (rw missed (ioapic_gsi_to_isa-ioapic_isa_to_gsi os isa j d))
      ]
    ]
