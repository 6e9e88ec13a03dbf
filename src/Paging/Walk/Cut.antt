-- ===== src/Paging/Walk/Cut.antt =====
-- The words that `expand_page` writes: pages of the level below, which go where the large one went.
use geek_toy_os.Base.{
  ℕ, zero, suc, ◌+◌, ◌-◌, ◌*◌, ◌/◌, ◌%◌, ◌^◌, ◌≤◌, ◌<◌, bit_and, bit_or, true, false, ◌&&◌, ltb,
  ◌==◌, ==_iff, if◌then◌else◌, some, ◌≡◌, refl, sym, ◌∙◌, arith, Bool-cases, inl, inr, u64,
  or_flags, low_mask,
}
use geek_toy_os.Base.Bits.{all_below, all_below_sound}
use geek_toy_os.Paging.{level_size, pte_ps}
use geek_toy_os.Paging.Walk.{ptaddr, pgoff, is_present, expand_attr, expanded}
use geek_toy_os.Paging.Walk.Translate.{
  part, slot, leads, in_page, translate_at, translate_at-zero, translate_at-ends, is_present-eq,
  is_large-eq, ptaddr-eq,
}

attr_table :
    all_below 4096 (λ x.
      let a = expand_attr x in
      if ltb a 4096
        && a % 2 == x % 2
        && ltb (bit_or 128 a) 4096
        && bit_or 128 a % 2 == x % 2
        && bit_or 128 a / 128 % 2 == 1
        && bit_or 0 a == a
      then true
      else false)
    ≡ true
unfolding all_below expand_attr pgoff
attr_table = refl

-- The flags of the new entries.
record CutFlags (level e flags : ℕ) : Type 0 where
  small : flags < 4096
  odd : flags % 2 ≡ e % 2
  large : level ≡ 1 → flags / 128 % 2 ≡ 1

flags_lem :
    (level e : ℕ)
    → level ≤ 1
    → CutFlags level e (bit_or (if level == 0 then 0 else pte_ps) (expand_attr e))
unfolding expand_attr pgoff
flags_lem level e le =
    let off : bit_and e 4095 ≡ e % 4096 = low_mask 12 e in
    let idem : bit_and (e % 4096) 4095 ≡ e % 4096 = low_mask 12 (e % 4096) ∙ omega arith in
    let h = all_below_sound 4096 _ (e % 4096) attr_table (omega arith) in
    let h' = rw idem at h in
    rw off (elim (Bool-cases (level == 0)) [
      | inl zero_ ↦ rw zero_ (record {
        small = ground (arith, h');
        odd = ground (arith, h');
        large = λ one. ground (arith, zero_, one);
      })
      | inr one_ ↦ rw one_ (record {
        small = ground (arith, h');
        odd = ground (arith, h');
        large = λ one. ground (arith, h');
      })
    ])

-- The word that `expand_page` writes at index `j`.
abbrev pub cut : (level e j : ℕ) → ℕ
cut level e j = expanded (ptaddr e) (expand_attr e) level j

pub record CutFrom (level e j v : ℕ) : Type 0 where
  pub here : is_present v ≡ true
  pub stop : level ≡ 1 → leads 1 v ≡ false
  pub top : v < 2 ^ 64
  pub even : level ≡ 1 → v % 2 ^ 21 ≡ v % 4096
  pub same :
      (vaddr : ℕ) → slot level vaddr ≡ j → in_page level v vaddr ≡ in_page (suc level) e vaddr

-- From the sum of the parts of the word.
cut_from :
    (level e j flags : ℕ)
    → level ≤ 1
    → e < 2 ^ 64
    → e % level_size (suc level) ≡ e % 4096
    → e % 2 ≡ 1
    → j < 512
    → CutFlags level e flags
    → CutFrom level e j (e - e % 4096 + level_size level * j + flags)
unfolding leads in_page slot part
cut_from zero e j flags le top flat odd lt fl = record {
  here = rw (is_present-eq (e - e % 4096 + 4096 * j + flags)) (ground (arith, fl.odd, odd));
  stop = λ h. absurd (omega (arith, h));
  top = omega (arith, fl.small, top, flat, lt);
  even = λ h. absurd (omega (arith, h));
  same = λ vaddr h. omega (arith, h, flat, fl.small, lt);
}
cut_from (suc zero) e j flags le top flat odd lt fl = record {
  here = rw (is_present-eq (e - e % 4096 + 4096 * 512 * j + flags)) (ground (arith, fl.odd, odd));
  stop = λ h.
      rw
        (
          is_present-eq (e - e % 4096 + 4096 * 512 * j + flags),
          is_large-eq (e - e % 4096 + 4096 * 512 * j + flags),
        )
        (ground (arith, fl.odd, odd, fl.large refl));
  top = omega (arith, fl.small, top, flat, lt);
  even = λ h. omega (arith, fl.small, flat);
  same = λ vaddr h. omega (arith, h, flat, fl.small, lt);
}
cut_from (suc (suc level)) e j flags le top flat odd lt fl = absurd (omega (arith, le))

cut-eq :
    (level e j : ℕ)
    → level ≤ 1
    → e < 2 ^ 64
    → e % level_size (suc level) ≡ e % 4096
    → j < 512
    → cut level e j
      ≡ e
        - e % 4096
        + level_size level * j
        + bit_or (if level == 0 then 0 else pte_ps) (expand_attr e)
unfolding expanded
cut-eq zero e j le top flat lt =
    let small = (flags_lem 0 e le).small in
    let sum : u64 (e - e % 4096 + 4096 * j) ≡ e - e % 4096 + 4096 * j =
      omega (arith, top, flat, lt) in
    rw (ptaddr-eq e) (rw sum (or_flags _ _ (omega arith) small))
cut-eq (suc zero) e j le top flat lt =
    let small = (flags_lem 1 e le).small in
    let sum : u64 (e - e % 4096 + 4096 * 512 * j) ≡ e - e % 4096 + 4096 * 512 * j =
      omega (arith, top, flat, lt) in
    rw (ptaddr-eq e) (rw sum (or_flags _ _ (omega arith) small))
cut-eq (suc (suc level)) e j le top flat lt = absurd (omega (arith, le))

pub cut-CutFrom :
    (level e j : ℕ)
    → level ≤ 1
    → e < 2 ^ 64
    → e % level_size (suc level) ≡ e % 4096
    → is_present e ≡ true
    → j < 512
    → CutFrom level e j (cut level e j)
cut-CutFrom level e j le top flat here lt =
    let odd : e % 2 ≡ 1 = (==_iff (e % 2) 1).0 (sym (is_present-eq e) ∙ here) in
    rw (cut-eq level e j le top flat lt)
      (cut_from level e j _ le top flat odd lt (flags_lem level e le))

-- A table of such words translates by them.
pub cut-translate :
    (level e j v : ℕ) (word : ℕ → ℕ → ℕ) (f vaddr : ℕ)
    → level ≤ 1
    → CutFrom level e j v
    → word f (slot level vaddr) ≡ v
    → translate_at level word f vaddr ≡ some (in_page level v vaddr)
cut-translate zero e j v word f vaddr le c h = translate_at-zero word f vaddr v h ∙ rw c.here refl
cut-translate (suc zero) e j v word f vaddr le c h =
    translate_at-ends 0 word f vaddr v h (c.stop refl) ∙ rw c.here refl
cut-translate (suc (suc level)) e j v word f vaddr le c h = absurd (omega (arith, le))
