-- ===== src/Paging/Walk/Keeps.antt =====
-- The shape of the tables that `pgdir_walk` keeps: no table is shared by two parts of the address
-- space; and what a change of some entries leaves alone.
use geek_toy_os.Base.{
  ℕ, zero, suc, ◌+◌, ◌*◌, ◌<◌, true, Option, some, ◌≡◌, refl, Bool-cases, inl, inr, ◌⊎◌,
}
use geek_toy_os.Paging.Walk.{ptaddr}
use geek_toy_os.Paging.Walk.Translate.{part, slot, leads, translate_at, part-eq, slot-lt}

-- Which part of the address space a page is a table for, if any: the level of its entries, and the
-- part that they divide.
abbrev pub Owner : Type 0
Owner = ℕ → Option (ℕ × ℕ)

-- The table that an entry leads to is a table for the part that the entry stands for.
abbrev pub Edges : Owner → (ℕ → ℕ → ℕ) → Type 0
Edges own word =
    (p l k i : ℕ)
    → own p ≡ some (suc l, k)
    → i < 512
    → leads (suc l) (word p i) ≡ true
    → own (ptaddr (word p i)) ≡ some (l, k * 512 + i)

-- Two memories in which a table for the address has the same entry, or the same translation.
abbrev pub Alike : Owner → (word word' : ℕ → ℕ → ℕ) → (vaddr : ℕ) → Type 0
Alike own word word' vaddr =
    (p l : ℕ)
    → own p ≡ some (l, part (suc l) vaddr)
    → (word' p (slot l vaddr) ≡ word p (slot l vaddr))
      ⊎ (translate_at l word' p vaddr ≡ translate_at l word p vaddr)

pub translate_at-Alike :
    (own : Owner) (word word' : ℕ → ℕ → ℕ) (vaddr : ℕ)
    → Edges own word
    → Alike own word word' vaddr
    → (l p : ℕ) → own p ≡ some (l, part (suc l) vaddr)
    → translate_at l word' p vaddr ≡ translate_at l word p vaddr
unfolding translate_at
translate_at-Alike own word word' vaddr edges alike zero p at = elim (alike p zero at) [
  | inr same ↦ same
  | inl same ↦ rw same refl
]
translate_at-Alike own word word' vaddr edges alike (suc l) p at = elim (alike p (suc l) at) [
  | inr same ↦ same
  | inl same ↦ rw same (elim (Bool-cases (leads (suc l) (word p (slot (suc l) vaddr)))) [
    | inr ends ↦ rw ends refl
    | inl down ↦
        let child = edges p l _ _ at (slot-lt (suc l) vaddr) down in
        let child' = rw (part-eq (suc l) vaddr) at child in
        rw down (translate_at-Alike own word word' vaddr edges alike l _ child')
  ])
]
