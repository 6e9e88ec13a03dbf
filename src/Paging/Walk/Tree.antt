-- ===== src/Paging/Walk/Tree.antt =====
-- The invariant of the tables, and the steps that keep it.
use geek_toy_os.Base.{
  ℕ, suc, ◌+◌, ◌%◌, ◌^◌, ◌≤◌, ◌<◌, bit_or, true, false, ◌==◌, ==_iff, if◌then◌else◌, Option, none,
  some, ◌≡◌, ◌≢◌, ◌∙◌, arith, Bool-cases, inl, inr, ◌⊎◌, or_flags,
}
use geek_toy_os.Paging.{level_size}
use geek_toy_os.Paging.Walk.{Tables, ptaddr, is_present, is_large}
use geek_toy_os.Paging.Walk.Translate.{
  part, leads, translate_at, is_present-eq, is_large-eq, ptaddr-eq,
}
use geek_toy_os.Paging.Walk.Keeps.{Owner, Edges}

-- The large pages are aligned, and the pages that `mm_phy_page_zalloc` is still to return are page
-- frames, apart from one another and from the tables.
pub record IsTree (own : Owner) (t : Tables) : Type 0 where
  pub edges : Edges own t.word
  pub flat :
      (p l k i : ℕ)
      → own p ≡ some (suc l, k)
      → i < 512
      → is_present (t.word p i) ≡ true
      → leads (suc l) (t.word p i) ≡ false
      → (t.word p i < 2 ^ 64) × (t.word p i % level_size (suc l) ≡ t.word p i % 4096)
  pub fresh : (n : ℕ) → t.taken ≤ n → own (t.page n) ≡ none
  pub apart : (m n : ℕ) → t.taken ≤ m → m < n → t.page n ≢ t.page m
  pub frame : (n : ℕ) → t.taken ≤ n → t.page n % 4096 ≡ 0

-- `own'` knows the tables of `own`; at the levels above `level` their entries are as before, and
-- every table translates as before.
pub record Kept (level : ℕ) (own : Owner) (t : Tables) (own' : Owner) (t' : Tables) : Type 0 where
  pub tree : IsTree own' t'
  pub old : (p l k : ℕ) → own p ≡ some (l, k) → own' p ≡ some (l, k)
  pub above : (p l k i : ℕ) → own p ≡ some (l, k) → level < l → t'.word p i ≡ t.word p i
  pub kept :
      (p l vaddr : ℕ)
      → own p ≡ some (l, part (suc l) vaddr)
      → translate_at l t'.word p vaddr ≡ translate_at l t.word p vaddr

abbrev pub claim : Owner → (page level k : ℕ) → Owner
claim own page level k p = if p == page then some (level, k) else own p

pub claimed : (own : Owner) (page level k : ℕ) → claim own page level k page ≡ some (level, k)
claimed own page level k = ground arith

pub unclaimed : (own : Owner) (page level k p : ℕ) → p ≢ page → claim own page level k p ≡ own p
unclaimed own page level k p ne = ground (arith, ne)

-- `|` with the flags of a directory entry.
pub new_entry :
    (f : ℕ)
    → f % 4096 ≡ 0
    → (bit_or f 3 ≡ f + 3)
      × (is_present (f + 3) ≡ true)
      × (is_large (f + 3) ≡ false)
      × (ptaddr (f + 3) ≡ f)
new_entry f even = (
  or_flags f 3 even (omega arith),
  rw (is_present-eq (f + 3)) (ground (arith, even)),
  rw (is_large-eq (f + 3)) (ground (arith, even)),
  ptaddr-eq (f + 3) ∙ omega (arith, even),
)

pub new_leads : (l f : ℕ) → f % 4096 ≡ 0 → leads l (f + 3) ≡ true
unfolding leads
new_leads l f even = let (_, here, small, _) = new_entry f even in rw (here, small) (ground arith)

pub pair_parts :
    {a b c d : ℕ} → ◌≡◌ {A = Option (ℕ × ℕ)} (some (a, b)) (some (c, d)) → (a ≡ c) × (b ≡ d)
pair_parts e = (cc, cc)

pub same_number : (a b : ℕ) → (a ≡ b) ⊎ (a ≢ b)
same_number a b = elim (Bool-cases (a == b)) [
  | inl e ↦ inl ((==_iff a b).0 e)
  | inr e ↦ inr (λ h. ground arith)
]
