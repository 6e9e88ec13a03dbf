-- ===== src/Format/Formats/Unknown.antt =====
-- The default case of `vprintfmt` in src/lib/printfmt.c, which goes back to the `%` of the escape.
use geek_toy_os.Base.{
  ℕ, zero, suc, ◌+◌, ◌-◌, ◌≤◌, ◌<◌, ◌≡◌, refl, ap, arith, ◌∙◌, Bool, true, false, ◌||◌, ◌&&◌, ◌==◌,
  List, [], ◌∷◌, ◌++◌, length, length-append, get_or, inl, inr, ◌⊎◌,
}
use geek_toy_os.MemOps.{Mem}
use geek_toy_os.Format.Formats.{Flags, no_flags, again, unknown, switch, rewind, escape}
use geek_toy_os.Format.Formats.Fuel.{puts, puts_char, puts-escape, escape_again, escape_unknown}
use geek_toy_os.Format.Formats.Conversions.{is_known, is_plain, puts-plain}

-- `-`, `0`, `#`, `.` and `l`
unfoldable pub is_flag : ℕ → Bool
is_flag c = c == 45 || c == 48 || c == 35 || c == 46 || c == 108

unfoldable pub are_flags : List ℕ → Bool
are_flags [] = true
are_flags (c ∷ cs) = is_flag c && are_flags cs

-- No `%` among the flags.
are_flags-plain : (p : List ℕ) → are_flags p ≡ true → is_plain p ≡ true
unfolding are_flags is_flag is_plain
are_flags-plain [] h = refl
are_flags-plain (c ∷ cs) h = ground (arith, h, are_flags-plain cs)

flag_char :
    (p rest : List ℕ) (j : ℕ)
    → are_flags p ≡ true
    → j < length p
    → (get_or (p ++ rest) j 0 == 37) ≡ false
unfolding are_flags is_flag
flag_char [] rest j h lt = absurd (omega (arith, lt))
flag_char (c ∷ cs) rest zero h lt = ground (arith, h)
flag_char (c ∷ cs) rest (suc j) h lt = flag_char cs rest j (ground (arith, h)) (omega (arith, lt))

-- The way back from behind the flags ends at their start.
rewind-flags :
    (p rest : List ℕ) (k : ℕ) → are_flags p ≡ true → k ≤ length p → rewind (p ++ rest) k ≡ p ++ rest
unfolding rewind
rewind-flags p rest zero h le = refl
rewind-flags p rest (suc k) h le =
    rw (flag_char p rest k h (omega (arith, le))) (rewind-flags p rest k h (omega (arith, le)))

module _ (m : Mem) (longest : ℕ) (args : ℕ → ℕ) where
  flag_switch :
      (c : ℕ) (rest : List ℕ) (f : Flags) (i : ℕ)
      → is_flag c ≡ true
      → (f' : Flags) × (switch m longest args c rest f i ≡ again f' rest i)
  unfolding switch is_flag
  flag_switch c rest f i h =
      let which : (c ≡ 45) ⊎ ((c ≡ 48) ⊎ ((c ≡ 35) ⊎ ((c ≡ 46) ⊎ (c ≡ 108)))) = ground (arith, h) in
      elim which [
        | inl e ↦ rw e (_, refl)
        | inr (inl e) ↦ rw e (_, refl)
        | inr (inr (inl e)) ↦ rw e (_, refl)
        | inr (inr (inr (inl e))) ↦ rw e (_, refl)
        | inr (inr (inr (inr e))) ↦ rw e (_, refl)
      ]

  unknown_after :
      (c : ℕ) (rest : List ℕ) (f : Flags) (i : ℕ)
      → is_known c ≡ false
      → switch m longest args c rest f i ≡ unknown
  unfolding switch is_known
  unknown_after c rest f i h = ground (arith, h)

  escape-flags :
      (fuel : ℕ) (start p : List ℕ) (c : ℕ) (rest : List ℕ) (f : Flags) (i : ℕ)
      → length p < fuel
      → are_flags p ≡ true
      → is_known c ≡ false
      → escape m longest args fuel start (p ++ c ∷ rest) f i
        ≡ (37 ∷ [], rewind start (length start - length (c ∷ rest)), i)
  unfolding are_flags
  escape-flags zero start p c rest f i lt flags new = absurd (omega (arith, lt))
  escape-flags (suc fuel) start [] c rest f i lt flags new =
      escape_unknown m longest args fuel start c rest f i (unknown_after c rest f i new)
  escape-flags (suc fuel) start (d ∷ p) c rest f i lt flags new =
      let (f', e) = flag_switch d (p ++ c ∷ rest) f i (ground (arith, flags)) in
      escape_again m longest args fuel start d (p ++ c ∷ rest) f i f' (p ++ c ∷ rest) i e
      ∙ escape-flags fuel start p c rest f' i (omega (arith, lt)) (ground (arith, flags)) new

  -- A `%` with flags (`-`, `0`, `#`, `.` or `l`, any number of them) before a character that is no
  -- flag, digit or conversion is put as it stands, with the flags and the character, and takes no
  -- argument: the format goes on behind the character with the same one.
  pub puts-literally :
      (p : List ℕ) (c : ℕ) (rest : List ℕ) (i : ℕ)
      → are_flags p ≡ true
      → is_known c ≡ false
      → puts m longest args (37 ∷ (p ++ c ∷ rest)) i ≡ 37 ∷ (p ++ c ∷ puts m longest args rest i)
  unfolding is_known
  puts-literally p c rest i flags new =
      let start = p ++ c ∷ rest in
      let whole : length start ≡ length p + length (c ∷ rest) = length-append p (c ∷ rest) in
      let gone : length start - length (c ∷ rest) ≡ length p = omega (arith, whole) in
      let plain : (c == 37) ≡ false = ground (arith, new) in
      puts-escape m longest args start i _ _ _ (
        escape-flags (length start) start p c rest no_flags i (omega (arith, whole)) flags new
        ∙ ap (λ (l : List ℕ). (37 ∷ [], l, i))
            (ap (rewind start) gone ∙ rewind-flags p (c ∷ rest) (length p) flags (omega arith)))
      ∙ ap (λ (l : List ℕ). 37 ∷ l)
          (puts-plain m longest args p (c ∷ rest) i (are_flags-plain p flags)
            ∙ ap (λ (l : List ℕ). p ++ l) (puts_char m longest args c rest i plain))
