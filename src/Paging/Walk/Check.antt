-- ===== src/Paging/Walk/Check.antt =====
-- `check_pgtable` finds the address that the processor would.
use geek_toy_os.Base.{
  ℕ, ◌+◌, ◌-◌, ◌*◌, ◌/◌, ◌%◌, ◌^◌, ◌<◌, bit_and, some, ◌≡◌, refl, sym, ap, ◌∙◌, arith, Bool-cases,
  inl, inr, low_mask, high_mask, or_disjoint, or_comm,
}
use geek_toy_os.Paging.Walk.{
  Tables, is_present, is_large, ptaddr, page_address, pgdir_walk, walk_pu, walk_pd, walk_pt,
  check_pgtable, pux, pgx, mapped_at, null_pte,
}
use geek_toy_os.Paging.Walk.Translate.{slot, leads, in_page, translate, translate_at}
use geek_toy_os.Paging.Walk.Outcome.{ptx-eq, pdx-eq, pux-eq, pgx-eq}

page_address-eq :
    (shift pde va : ℕ)
    → pde < 2 ^ 64
    → (high : ℕ) → high * 2 ^ shift ≡ 2 ^ 64 - 2 ^ shift
    → bit_and (pde / 2 ^ shift) high ≡ pde / 2 ^ shift
    → va % 2 ^ shift < 2 ^ shift
    → page_address shift pde va ≡ pde / 2 ^ shift * 2 ^ shift + va % 2 ^ shift
unfolding page_address
page_address-eq shift pde va small high scaled kept lt =
    let low = low_mask shift va in
    let top : bit_and pde (high * 2 ^ shift) ≡ bit_and (pde / 2 ^ shift) high * 2 ^ shift =
      high_mask shift pde high in
    let top' : bit_and pde (2 ^ 64 - 2 ^ shift) ≡ pde / 2 ^ shift * 2 ^ shift =
      ap (bit_and pde) (sym scaled) ∙ top ∙ ap (λ (n : ℕ). n * 2 ^ shift) kept in
    let joined = or_disjoint shift (va % 2 ^ shift) (pde / 2 ^ shift) lt in
    rw (top', low, or_comm (pde / 2 ^ shift * 2 ^ shift) (va % 2 ^ shift), joined) (omega arith)

pte_address : (pde va : ℕ) → pde < 2 ^ 64 → page_address 12 pde va ≡ in_page 0 pde va
unfolding in_page
pte_address pde va small =
    page_address-eq 12 pde va small (2 ^ 52 - 1) refl
      (low_mask 52 (pde / 2 ^ 12) ∙ omega (arith, small)) (omega arith)
    ∙ omega arith

pde_address : (pde va : ℕ) → pde < 2 ^ 64 → page_address 21 pde va ≡ in_page 1 pde va
unfolding in_page
pde_address pde va small =
    page_address-eq 21 pde va small (2 ^ 43 - 1) refl
      (low_mask 43 (pde / 2 ^ 21) ∙ omega (arith, small)) (omega arith)
    ∙ omega arith

pue_address : (pde va : ℕ) → pde < 2 ^ 64 → page_address 30 pde va ≡ in_page 2 pde va
unfolding in_page
pue_address pde va small =
    page_address-eq 30 pde va small (2 ^ 34 - 1) refl
      (low_mask 34 (pde / 2 ^ 30) ∙ omega (arith, small)) (omega arith)
    ∙ omega arith

-- The part of the walk from a table on, without PG_ALLOC.
walk_pd-translate :
    (t : Tables) (table index va pa : ℕ)
    → ((p i : ℕ) → t.word p i < 2 ^ 64)
    → translate_at 1 t.word (ptaddr (t.word table index)) va ≡ some pa
    → (walk_pd t table index va 0).paddr ≡ some pa
unfolding walk_pd walk_pt translate_at leads mapped_at
walk_pd-translate t table index va pa small h =
    let pde = ptaddr (t.word table index) in
    let e = t.word pde (slot 1 va) in
    rw (pdx-eq va) (elim (Bool-cases (is_present e)) [
      | inr absent ↦ absurd (cc (rw absent at h))
      | inl here ↦ elim (Bool-cases (is_large e)) [
        | inl big ↦ rw (here, big, pde_address e va (small pde (slot 1 va))) (rw (here, big) at h)
        | inr down ↦
            let h' = rw (here, down) at h in
            let l = t.word (ptaddr e) (slot 0 va) in
            rw (here, down, ptx-eq va, pte_address l va (small (ptaddr e) (slot 0 va)))
              (elim (Bool-cases (is_present l)) [
                | inl on ↦ rw on at h'
                | inr off ↦ absurd (cc (rw off at h'))
              ])
      ]
    ])

walk_pu-translate :
    (t : Tables) (table index va pa : ℕ)
    → ((p i : ℕ) → t.word p i < 2 ^ 64)
    → translate_at 2 t.word (ptaddr (t.word table index)) va ≡ some pa
    → (walk_pu t table index va 0).paddr ≡ some pa
unfolding walk_pu leads mapped_at translate_at
walk_pu-translate t table index va pa small h =
    let pde = ptaddr (t.word table index) in
    let e = t.word pde (slot 2 va) in
    rw (pux-eq va) (elim (Bool-cases (is_present e)) [
      | inr absent ↦ absurd (cc (rw absent at h))
      | inl here ↦ elim (Bool-cases (is_large e)) [
        | inl big ↦ rw (here, big, pue_address e va (small pde (slot 2 va))) (rw (here, big) at h)
        | inr down ↦
            rw (here, down) (walk_pd-translate t pde (slot 2 va) va pa small (rw (here, down) at h))
      ]
    ])

pgdir_walk-translate :
    (t : Tables) (kernel_pgd va pa : ℕ)
    → ((p i : ℕ) → t.word p i < 2 ^ 64)
    → translate t.word kernel_pgd va ≡ some pa
    → (pgdir_walk t kernel_pgd va 0).paddr ≡ some pa
unfolding pgdir_walk leads translate_at
pgdir_walk-translate t kernel_pgd va pa small h =
    let e = t.word kernel_pgd (slot 3 va) in
    rw (pgx-eq va) (elim (Bool-cases (is_present e)) [
      | inr absent ↦ absurd (cc (rw absent at h))
      | inl here ↦ rw here (walk_pu-translate t kernel_pgd (slot 3 va) va pa small (rw here at h))
    ])

walk_pd-same : (t : Tables) (table index va : ℕ) → (walk_pd t table index va 0).tables ≡ t
unfolding walk_pd walk_pt mapped_at null_pte
walk_pd-same t table index va = ground arith

walk_pu-same : (t : Tables) (table index va : ℕ) → (walk_pu t table index va 0).tables ≡ t
unfolding walk_pu mapped_at null_pte
walk_pu-same t table index va =
    ground (arith, walk_pd-same t (ptaddr (t.word table index)) (pux va) va)

pgdir_walk-same : (t : Tables) (pgdir va : ℕ) → (pgdir_walk t pgdir va 0).tables ≡ t
unfolding pgdir_walk null_pte
pgdir_walk-same t pgdir va = ground (arith, walk_pu-same t pgdir (pgx va) va)

-- Where the processor takes an address to a physical one, `check_pgtable` returns that one; and its
-- walk, without PG_ALLOC, leaves the tables as they are. No word of the tables has a bit from 52 on
-- set, such as NX: those the processor leaves out of the address, and `check_pgtable` does not.
pub check_pgtable-translate :
    (t : Tables) (kernel_pgd va pa : ℕ)
    → ((p i : ℕ) → t.word p i < 2 ^ 52)
    → translate t.word kernel_pgd va ≡ some pa
    → (check_pgtable t kernel_pgd va ≡ pa) × ((pgdir_walk t kernel_pgd va 0).tables ≡ t)
unfolding check_pgtable
check_pgtable-translate t kernel_pgd va pa small h = (
  rw (pgdir_walk-translate t kernel_pgd va pa (λ p i. omega (arith, small p i)) h, check_pgtable)
      refl,
  pgdir_walk-same t kernel_pgd va,
)
