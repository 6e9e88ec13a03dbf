-- ===== src/Format/Formats/Conversions.antt =====
-- The conversions of `vprintfmt` in src/lib/printfmt.c.
use geek_toy_os.Base.{
  ℕ, ◌+◌, ◌-◌, ◌^◌, ◌≤◌, ◌≡◌, refl, ap, arith, ◌∙◌, Bool, true, false, not, ◌||◌, ◌&&◌, leb, ◌==◌,
  u32, List, [], ◌∷◌, ◌++◌, length,
}
use geek_toy_os.MemOps.{Mem}
use geek_toy_os.Format.{printnum}
use geek_toy_os.Format.Digits.{read_number, printnum_lem}
use geek_toy_os.Format.Formats.{
  Flags, no_flags, again, emit, take_digits, process_precision, format_number, switch, positive,
}
use geek_toy_os.Format.Formats.Fuel.{puts, puts_char, puts-escape, escape_again, escape_put}

-- No character is a `%`.
unfoldable pub is_plain : List ℕ → Bool
is_plain [] = true
is_plain (ch ∷ chs) = not (ch == 37) && is_plain chs

-- A character that the switch of `vprintfmt` has a case for.
unfoldable pub is_known : ℕ → Bool
is_known c =
    c == 35
    || c == 37
    || c == 42
    || c == 45
    || c == 46
    || (leb 48 c && leb c 57)
    || c == 99
    || c == 100
    || c == 101
    || c == 108
    || c == 111
    || c == 112
    || c == 115
    || c == 117
    || c == 120

unsigned_number :
    (padc width base slot : ℕ) (sgn : Bool)
    → format_number
        (record {
          padc = padc;
          width = width;
          precision = 2 ^ 32 - 1;
          lflag = 0;
          sgnflag = sgn;
          altflag = false;
        })
        base
        slot
      ≡ printnum (u32 slot) base (positive width) padc
unfolding format_number
unsigned_number padc width base slot sgn =
    let small : (sgn && leb (2 ^ 63) (u32 slot)) ≡ false = ground arith in rw small refl

module _ (m : Mem) (longest : ℕ) (args : ℕ → ℕ) where
  -- Text without `%` before a format is put as it is, and takes no argument.
  pub puts-plain :
      (text fmt : List ℕ) (i : ℕ)
      → is_plain text ≡ true
      → puts m longest args (text ++ fmt) i ≡ text ++ puts m longest args fmt i
  unfolding is_plain
  puts-plain [] fmt i h = refl
  puts-plain (ch ∷ chs) fmt i h =
      let plain : (ch == 37) ≡ false = ground (arith, h) in
      let later : is_plain chs ≡ true = ground (arith, h) in
      puts_char m longest args ch (chs ++ fmt) i plain
      ∙ ap (λ out. ch ∷ out) (puts-plain chs fmt i later)

  -- A digit from 1 on before a conversion is the width.
  width_switch :
      (w : ℕ) (rest : List ℕ) (i : ℕ)
      → 1 ≤ w
      → w ≤ 9
      → switch m longest args (48 + w) (120 ∷ rest) (record no_flags { padc = 48 }) i
        ≡ again (record no_flags { padc = 48; width = w }) (120 ∷ rest) i
  unfolding switch take_digits process_precision
  width_switch w rest i some_ small =
      let value : 48 + w - 48 ≡ w = omega arith in rw value (ground (arith, some_, small))

  -- A conversion without flags takes one argument slot.
  pub puts_put :
      (c : ℕ) (rest : List ℕ) (i : ℕ) (out : List ℕ) (i' : ℕ)
      → switch m longest args c rest no_flags i ≡ emit out rest i'
      → puts m longest args (37 ∷ c ∷ rest) i ≡ out ++ puts m longest args rest i'
  puts_put c rest i out i' e =
      puts-escape m longest args (c ∷ rest) i _ _ _
        (escape_put m longest args (length rest) (c ∷ rest) c rest no_flags i _ _ _ e)

  -- Without flags, `%u`, `%o` and `%x` put the low 32 bits of the next argument in base 10, 8 and 16,
  -- and so does `%d` in base 10, which thus never puts a sign; `%c` puts the character, and `%%` a
  -- `%` and takes no argument.
  pub puts_conversions :
      (rest : List ℕ) (i : ℕ)
      → (puts m longest args (37 ∷ 117 ∷ rest) i
          ≡ printnum (u32 (args i)) 10 0 32 ++ puts m longest args rest (i + 1))
        × (puts m longest args (37 ∷ 111 ∷ rest) i
            ≡ printnum (u32 (args i)) 8 0 32 ++ puts m longest args rest (i + 1))
        × (puts m longest args (37 ∷ 120 ∷ rest) i
            ≡ printnum (u32 (args i)) 16 0 32 ++ puts m longest args rest (i + 1))
        × (puts m longest args (37 ∷ 100 ∷ rest) i
            ≡ printnum (u32 (args i)) 10 0 32 ++ puts m longest args rest (i + 1))
        × (puts m longest args (37 ∷ 99 ∷ rest) i ≡ u32 (args i) ∷ puts m longest args rest (i + 1))
        × (puts m longest args (37 ∷ 37 ∷ rest) i ≡ 37 ∷ puts m longest args rest i)
  unfolding switch
  puts_conversions rest i =
      let number = λ (base : ℕ) (sgn : Bool). unsigned_number 32 (2 ^ 32 - 1) base (args i) sgn in
      (
        puts_put 117 rest i _ _ (ap (λ out. emit out rest (i + 1)) (number 10 false)),
        puts_put 111 rest i _ _ (ap (λ out. emit out rest (i + 1)) (number 8 false)),
        puts_put 120 rest i _ _ (ap (λ out. emit out rest (i + 1)) (number 16 false)),
        puts_put 100 rest i _ _ (ap (λ out. emit out rest (i + 1)) (number 10 true)),
        puts_put 99 rest i _ _ (refl),
        puts_put 37 rest i _ _ (refl),
      )

  -- `%0`, a width of one digit and `x` put a text that reads back in base 16 as the low 32 bits of the
  -- argument.
  pub read_number-puts :
      (w : ℕ) (rest : List ℕ) (i : ℕ)
      → 1 ≤ w
      → w ≤ 9
      → (out : List ℕ) × (puts m longest args (37 ∷ 48 ∷ (48 + w) ∷ 120 ∷ rest) i
          ≡ out ++ puts m longest args rest (i + 1))
        × (read_number 16 0 out ≡ u32 (args i))
  unfolding switch
  read_number-puts w rest i some_ small =
      let f : Flags = record no_flags { padc = 48 } in
      let g : Flags = record f { width = w } in
      let out = printnum (u32 (args i)) 16 (positive w) 48 in
      (
        out,
        puts-escape m longest args (48 ∷ (48 + w) ∷ 120 ∷ rest) i _ _ _ (
            escape_again m longest args _ _ 48 _ no_flags i f _ i (refl)
            ∙ escape_again m longest args _ _ (48 + w) (120 ∷ rest) f i g (120 ∷ rest) i
                (width_switch w rest i some_ small)
            ∙ escape_put m longest args _ _ 120 rest g i out rest (i + 1)
                (ap (λ out. emit out rest (i + 1)) (unsigned_number 48 w 16 (args i) false))),
        printnum_lem (u32 (args i)) 16 (positive w) (omega arith) (omega arith),
      )
