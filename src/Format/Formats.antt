-- ===== src/Format/Formats.antt =====
-- `vprintfmt` of src/lib/printfmt.c: the characters that a format puts. A format is the list of its
-- characters up to the NUL, `args` are the argument slots from the first on, and `longest` bounds
-- the strings in memory. An `int` is its 32-bit pattern.
pub mod Fuel
pub mod Conversions
pub mod Unknown
mod Tests
use geek_toy_os.Base.{
  ℕ, zero, suc, ◌+◌, ◌-◌, ◌*◌, ◌/◌, ◌%◌, ◌^◌, min, Bool, true, false, not, ◌&&◌, ◌||◌, ltb, leb,
  ◌==◌, if◌then◌else◌, u32, u64, Option, List, [], ◌∷◌, ◌++◌, length, get_or,
}
use geek_toy_os.MemOps.{Mem}
use geek_toy_os.Strings.{char_int}
use geek_toy_os.Format.{printnum, vsnprintf}
use geek_toy_os.Format.Errors.{max_error, error_text}

abbrev pub is_negative : ℕ → Bool
is_negative w = leb (2 ^ 31) w

-- What is left of a count in a loop `for (; width > 0; width--)`.
abbrev pub positive : ℕ → ℕ
positive w = if is_negative w then 0 else w

-- The variables of one escape.
pub record Flags : Type 0 where
  pub padc : ℕ
  pub width : ℕ
  pub precision : ℕ
  pub lflag : ℕ
  pub sgnflag : Bool
  pub altflag : Bool

abbrev pub no_flags : Flags
no_flags = record {
  padc = 32;
  width = 2 ^ 32 - 1;
  precision = 2 ^ 32 - 1;
  lflag = 0;
  sgnflag = false;
  altflag = false;
}

-- What a character of an escape leads to: `goto reswitch` with flags, rest of the format and next
-- argument; the end of the escape with what it puts; or the default case.
pub data Step : Type 0 where
  again : Flags → (rest : List ℕ) → (i : ℕ) → Step
  emit : (out rest : List ℕ) → (i : ℕ) → Step
  unknown : Step

-- The digits of a width or precision.
pub take_digits : (precision : ℕ) → List ℕ → ℕ × List ℕ
take_digits precision [] = (precision, [])
take_digits precision (ch ∷ rest) =
    let more = take_digits (u32 (precision * 10 + (ch - 48))) rest in
    if ltb ch 48 || ltb 57 ch then (precision, ch ∷ rest) else more

-- `process_precision`
pub process_precision : (precision : ℕ) → Flags → Flags
process_precision precision f =
    if is_negative f.width
    then record f { width = precision; precision = 2 ^ 32 - 1 }
    else record f { precision = precision }

-- The characters from `p` to the NUL.
pub chars_at : Mem → (longest p : ℕ) → List ℕ
chars_at m zero p = []
chars_at m (suc longest) p =
    let rest = chars_at m longest (p + 1) in if m p == 0 then [] else m p ∷ rest

pub put_string : (altflag : Bool) → (precision : ℕ) → List ℕ → List ℕ
put_string altflag precision [] = []
put_string altflag precision (ch ∷ chs) =
    let left = if is_negative precision then precision else precision - 1 in
    let rest = put_string altflag left chs in
    let shown = if altflag && (ltb ch 32 || ltb 126 ch) then 63 else char_int ch in
    if precision == 0 then [] else shown ∷ rest

-- `count` times `ch`.
pub repeat : (count ch : ℕ) → List ℕ
repeat zero ch = []
repeat (suc count) ch = ch ∷ repeat count ch

-- Case 's', for the characters of the string.
pub format_string : Flags → List ℕ → List ℕ
format_string f chs =
    let len = if is_negative f.precision then length chs else min (length chs) f.precision in
    let left_pad = ltb 0 (positive f.width) && not (f.padc == 45) in
    let shown = put_string f.altflag f.precision chs in
    (if left_pad then repeat (positive f.width - len) f.padc else [])
    ++ shown
    ++ (if left_pad then [] else repeat (positive f.width - length shown) 32)

-- `(null)`
abbrev null_text : List ℕ
null_text = 40 ∷ 110 ∷ 117 ∷ 108 ∷ 108 ∷ 41 ∷ []

-- From `number:` on, for the argument slot.
pub format_number : Flags → (base slot : ℕ) → List ℕ
format_number f base slot =
    let num = if f.lflag == 0 then u32 slot else u64 slot in
    let negative = f.sgnflag && leb (2 ^ 63) num in
    (if negative then 45 ∷ [] else [])
    ++ printnum (if negative then 2 ^ 64 - num else num) base (positive f.width) f.padc

-- Case 'e'; the two nested calls of `printfmt` put their text with no flags. The negative of
-- -2^31 is itself, for which the source reads before the table.
pub format_error : (slot : ℕ) → List ℕ
format_error slot =
    let w = u32 slot in
    let err = if is_negative w then u32 (2 ^ 32 - w) else w in
    if leb max_error err
    then 101 ∷ 114 ∷ 114 ∷ 111 ∷ 114 ∷ 32 ∷ []
      ++ format_number (record no_flags { sgnflag = true }) 10 err
    else format_string no_flags (error_text err)

-- Where an escape goes on after a pass of the switch.
-- The characters after the first `k`.
pub drop : ℕ → List ℕ → List ℕ
drop zero xs = xs
drop (suc k) [] = []
drop (suc k) (x ∷ xs) = drop k xs

-- `for (fmt--; fmt[-1] != '%'; fmt--)`, with `fmt` after the first `k` characters of `start`, before
-- which the `%` of the escape stands.
pub rewind : (start : List ℕ) → (k : ℕ) → List ℕ
rewind start zero = start
rewind start (suc k) =
    let rest = rewind start k in if get_or start k 0 == 37 then drop (suc k) start else rest

pub settle :
    (start now : List ℕ)
    → (i : ℕ) → (reswitch : Flags → List ℕ → ℕ → List ℕ × List ℕ × ℕ) → Step
    → List ℕ × List ℕ × ℕ
settle start now i reswitch (again f' rest' i') = reswitch f' rest' i'
settle start now i reswitch (emit out rest' i') = (out, rest', i')
settle start now i reswitch unknown = (37 ∷ [], rewind start (length start - length now), i)

module _ (m : Mem) (longest : ℕ) (args : ℕ → ℕ) where
  -- One pass of the switch, at character `ch` with `rest` after it.
  pub switch : (ch : ℕ) → (rest : List ℕ) → Flags → (i : ℕ) → Step
  switch ch rest f i =
      if ch == 45
      then again (record f { padc = 45 }) rest i
      else if ch == 48
      then again (record f { padc = 48 }) rest i
      else if leb 49 ch && leb ch 57
      then again (process_precision (take_digits (ch - 48) rest).0 f) (take_digits (ch - 48) rest).1
          i
      else if ch == 42
      then again (process_precision (u32 (args i)) f) rest (i + 1)
      else if ch == 46
      then again (if is_negative f.width then record f { width = 0 } else f) rest i
      else if ch == 35
      then again (record f { altflag = true }) rest i
      else if ch == 108
      then again (if ltb f.lflag 2 then record f { lflag = f.lflag + 1 } else f) rest i
      else if ch == 99
      then emit (u32 (args i) ∷ []) rest (i + 1)
      else if ch == 101
      then emit (format_error (args i)) rest (i + 1)
      else if ch == 115
      then emit (format_string f (if args i == 0 then null_text else chars_at m longest (args i)))
          rest (i + 1)
      else if ch == 100
      then emit (format_number (record f { sgnflag = true }) 10 (args i)) rest (i + 1)
      else if ch == 117
      then emit (format_number f 10 (args i)) rest (i + 1)
      else if ch == 111
      then emit (format_number f 8 (args i)) rest (i + 1)
      else if ch == 112
      then emit (48 ∷ 120 ∷ [] ++ format_number (record f { lflag = 3 }) 16 (args i)) rest (i + 1)
      else if ch == 120
      then emit (format_number f 16 (args i)) rest (i + 1)
      else if ch == 37
      then emit (37 ∷ []) rest i
      else unknown

  -- From `reswitch` on, in an escape whose first character is the head of `start`; the end of the
  -- format is a character like any other that the switch does not know.
  pub escape : (fuel : ℕ) → (start now : List ℕ) → Flags → (i : ℕ) → List ℕ × List ℕ × ℕ
  escape zero start now f i = (37 ∷ [], rewind start (length start - length now), i)
  escape (suc fuel) start [] f i = (37 ∷ [], rewind start (length start), i)
  escape (suc fuel) start (ch ∷ rest) f i =
      settle start (ch ∷ rest) i (λ f' rest' i'. escape fuel start rest' f' i') (switch ch rest f i)

  -- The loop of `vprintfmt`; each round takes a character or an escape.
  pub vprintfmt_loop : (fuel : ℕ) → (fmt : List ℕ) → (i : ℕ) → List ℕ
  vprintfmt_loop zero fmt i = []
  vprintfmt_loop (suc fuel) [] i = []
  vprintfmt_loop (suc fuel) (ch ∷ rest) i =
      let e = if ch == 37 then escape (length rest) rest rest no_flags i else (ch ∷ [], rest, i) in
      e.0 ++ vprintfmt_loop fuel e.1 e.2

  pub vprintfmt : (fmt : List ℕ) → List ℕ
  vprintfmt fmt = vprintfmt_loop (length fmt) fmt 0

  -- `snprintf`, for strings that do not lie in the buffer.
  pub snprintf : (buf n : ℕ) → (fmt : List ℕ) → Option (Mem × ℕ)
  snprintf buf n fmt = vsnprintf m buf n (vprintfmt fmt)
