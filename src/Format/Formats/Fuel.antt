-- ===== src/Format/Formats/Fuel.antt =====
-- The loop of `vprintfmt` in src/lib/printfmt.c ends within the length of the format.
use geek_toy_os.Base.{
  ℕ, zero, suc, ◌+◌, ◌-◌, ◌*◌, ◌≤◌, ◌≡◌, refl, ap, arith, inl, inr, ◌∙◌, false, ◌||◌, ltb, ◌==◌,
  Bool-cases, if-eq_of_false, if◌then◌else◌, u32, List, [], ◌∷◌, ◌++◌, length, get_or,
}
use geek_toy_os.MemOps.{Mem}
use geek_toy_os.Format.Formats.{
  Flags, no_flags, Step, again, emit, unknown, take_digits, switch, drop, rewind, settle, escape,
  vprintfmt_loop,
}

drop-shorter : (k : ℕ) (xs : List ℕ) → length (drop k xs) ≤ length xs
unfolding drop
drop-shorter zero xs = omega arith
drop-shorter (suc k) [] = omega arith
drop-shorter (suc k) (x ∷ xs) = omega (arith, drop-shorter k xs)

rewind-shorter : (start : List ℕ) (k : ℕ) → length (rewind start k) ≤ length start
unfolding rewind
rewind-shorter start zero = omega arith
rewind-shorter start (suc k) = elim (Bool-cases (get_or start k 0 == 37)) [
  | inl there ↦ rw there (drop-shorter (suc k) start)
  | inr before ↦ rw before (rewind-shorter start k)
]

pub rewind_here : (start : List ℕ) → rewind start (length start - length start) ≡ start
unfolding rewind
rewind_here start = let none_ : length start - length start ≡ 0 = omega arith in rw none_ refl

take_digits-shorter :
    (precision : ℕ) (rest : List ℕ) → length (take_digits precision rest).1 ≤ length rest
unfolding take_digits
take_digits-shorter precision [] = omega arith
take_digits-shorter precision (ch ∷ rest) = elim (Bool-cases (ltb ch 48 || ltb 57 ch)) [
  | inl stop ↦ rw stop (omega arith)
  | inr digit ↦
      rw digit (omega (arith, take_digits-shorter (u32 (precision * 10 + (ch - 48))) rest))
]

-- The length of what is left of the format after a pass.
left : Step → ℕ
left (again f rest i) = length rest
left (emit out rest i) = length rest
left unknown = 0

module _ (m : Mem) (longest : ℕ) (args : ℕ → ℕ) where
  left-switch :
      (ch : ℕ) (rest : List ℕ) (f : Flags) (i : ℕ)
      → left (switch m longest args ch rest f i) ≤ length rest
  unfolding switch left
  left-switch ch rest f i = ground (arith, take_digits-shorter (ch - 48) rest)

  escape-shorter :
      (fuel : ℕ) (start now : List ℕ) (f : Flags) (i : ℕ)
      → length now ≤ length start
      → length (escape m longest args fuel start now f i).1 ≤ length start
  unfolding escape settle left
  escape-shorter zero start now f i h = rewind-shorter start (length start - length now)
  escape-shorter (suc fuel) start [] f i h = rewind-shorter start (length start)
  escape-shorter (suc fuel) start (ch ∷ rest) f i h =
      after (λ rest' f' i' h'. escape-shorter fuel start rest' f' i' h')
        (switch m longest args ch rest f i) (left-switch ch rest f i)
    where
      after :
          ((rest' : List ℕ) (f' : Flags) (i' : ℕ)
            → length rest' ≤ length start
            → length (escape m longest args fuel start rest' f' i').1 ≤ length start)
          → (s : Step) → left s ≤ length rest
          → length
              (settle start
                (ch ∷ rest)
                i
                (λ f' rest' i'. escape m longest args fuel start rest' f' i')
                s).1
            ≤ length start
      after shorter (again f' rest' i') p = shorter rest' f' i' (omega (arith, h, p))
      after shorter (emit out rest' i') p = omega (arith, h, p)
      after shorter unknown p = rewind-shorter start (length start - length (ch ∷ rest))

  -- What a round of the loop puts, the rest of the format and the next argument.
  round : (ch : ℕ) → (rest : List ℕ) → (i : ℕ) → List ℕ × List ℕ × ℕ
  round ch rest i =
      if ch == 37
      then escape m longest args (length rest) rest rest no_flags i
      else (ch ∷ [], rest, i)

  round-shorter : (ch : ℕ) (rest : List ℕ) (i : ℕ) → length (round ch rest i).1 ≤ length rest
  unfolding round
  round-shorter ch rest i = elim (Bool-cases (ch == 37)) [
    | inl percent ↦ rw percent (escape-shorter (length rest) rest rest no_flags i (omega arith))
    | inr plain ↦ rw plain (omega arith)
  ]

  -- With fuel for each character of the format, `vprintfmt` puts the same whatever the fuel is: the
  -- loop has ended by itself.
  pub vprintfmt_loop_ended :
      (fuel more : ℕ) (fmt : List ℕ) (i : ℕ)
      → length fmt ≤ fuel
      → length fmt ≤ more
      → vprintfmt_loop m longest args fuel fmt i ≡ vprintfmt_loop m longest args more fmt i
  unfolding vprintfmt_loop round
  vprintfmt_loop_ended zero zero fmt i h k = refl
  vprintfmt_loop_ended zero (suc more) [] i h k = refl
  vprintfmt_loop_ended (suc fuel) zero [] i h k = refl
  vprintfmt_loop_ended zero (suc more) (ch ∷ rest) i h k = absurd (omega (arith, h))
  vprintfmt_loop_ended (suc fuel) zero (ch ∷ rest) i h k = absurd (omega (arith, k))
  vprintfmt_loop_ended (suc fuel) (suc more) [] i h k = refl
  vprintfmt_loop_ended (suc fuel) (suc more) (ch ∷ rest) i h k =
      let e = round ch rest i in
      let short : length (round ch rest i).1 ≤ length rest = round-shorter ch rest i in
      ap (λ out. e.0 ++ out)
        (vprintfmt_loop_ended fuel more e.1 e.2 (omega (arith, short, h)) (omega (arith, short, k)))

  -- The loop from argument `i` on with the length of the format as fuel.
  abbrev pub puts : (fmt : List ℕ) → (i : ℕ) → List ℕ
  puts fmt i = vprintfmt_loop m longest args (length fmt) fmt i

  puts-round :
      (ch : ℕ) (rest : List ℕ) (i : ℕ)
      → puts (ch ∷ rest) i ≡ (round ch rest i).0 ++ puts (round ch rest i).1 (round ch rest i).2
  unfolding vprintfmt_loop round
  puts-round ch rest i =
      let e = round ch rest i in
      let short : length (round ch rest i).1 ≤ length rest = round-shorter ch rest i in
      ap (λ out. e.0 ++ out)
        (vprintfmt_loop_ended (length rest) (length e.1) e.1 e.2 short (omega arith))

  pub puts_char :
      (ch : ℕ) (rest : List ℕ) (i : ℕ) → (ch == 37) ≡ false → puts (ch ∷ rest) i ≡ ch ∷ puts rest i
  unfolding round
  puts_char ch rest i plain =
      puts-round ch rest i
      ∙ ap (λ (e : List ℕ × List ℕ × ℕ). e.0 ++ puts e.1 e.2) (if-eq_of_false _ _ plain)

  pub puts-escape :
      (rest : List ℕ) (i : ℕ) (out left_ : List ℕ) (i' : ℕ)
      → escape m longest args (length rest) rest rest no_flags i ≡ (out, left_, i')
      → puts (37 ∷ rest) i ≡ out ++ puts left_ i'
  unfolding round
  puts-escape rest i out left_ i' e =
      puts-round 37 rest i ∙ ap (λ (e : List ℕ × List ℕ × ℕ). e.0 ++ puts e.1 e.2) e

  pub escape_again :
      (fuel : ℕ) (start : List ℕ) (ch : ℕ) (rest : List ℕ) (f : Flags) (i : ℕ) (f' : Flags)
      (rest' : List ℕ) (i' : ℕ)
      → switch m longest args ch rest f i ≡ again f' rest' i'
      → escape m longest args (suc fuel) start (ch ∷ rest) f i
        ≡ escape m longest args fuel start rest' f' i'
  unfolding escape settle
  escape_again fuel start ch rest f i f' rest' i' e =
      ap (settle start (ch ∷ rest) i (λ f' rest' i'. escape m longest args fuel start rest' f' i'))
        e

  pub escape_put :
      (fuel : ℕ) (start : List ℕ) (ch : ℕ) (rest : List ℕ) (f : Flags) (i : ℕ) (out rest' : List ℕ)
      (i' : ℕ)
      → switch m longest args ch rest f i ≡ emit out rest' i'
      → escape m longest args (suc fuel) start (ch ∷ rest) f i ≡ (out, rest', i')
  unfolding escape settle
  escape_put fuel start ch rest f i out rest' i' e =
      ap (settle start (ch ∷ rest) i (λ f' rest' i'. escape m longest args fuel start rest' f' i'))
        e

  pub escape_unknown :
      (fuel : ℕ) (start : List ℕ) (ch : ℕ) (rest : List ℕ) (f : Flags) (i : ℕ)
      → switch m longest args ch rest f i ≡ unknown
      → escape m longest args (suc fuel) start (ch ∷ rest) f i
        ≡ (37 ∷ [], rewind start (length start - length (ch ∷ rest)), i)
  unfolding escape settle
  escape_unknown fuel start ch rest f i e =
      ap (settle start (ch ∷ rest) i (λ f' rest' i'. escape m longest args fuel start rest' f' i'))
        e

  pub escape_end :
      (fuel : ℕ) (f : Flags) (i : ℕ) → escape m longest args fuel [] [] f i ≡ (37 ∷ [], [], i)
  unfolding escape rewind
  escape_end zero f i = refl
  escape_end (suc fuel) f i = refl
