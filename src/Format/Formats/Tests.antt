-- ===== src/Format/Formats/Tests.antt =====
-- `vprintfmt` of src/lib/printfmt.c on short formats.
use geek_toy_os.Base.{ℕ, ◌+◌, ◌==◌, if◌then◌else◌, u32, ◌≡◌, arith, refl, List, [], ◌∷◌, ◌++◌}
use geek_toy_os.MemOps.{Mem}
use geek_toy_os.Format.{printnum, printnum_loop, digit, pads}
use geek_toy_os.Format.Digits.{read_number}
use geek_toy_os.Format.Formats.{
  take_digits, process_precision, format_number, switch, settle, escape, vprintfmt_loop, vprintfmt,
}
use geek_toy_os.Format.Formats.Fuel.{puts, vprintfmt_loop_ended}
use geek_toy_os.Format.Formats.Conversions.{read_number-puts, is_known}
use geek_toy_os.Format.Formats.Unknown.{are_flags, is_flag, puts-literally}

abbrev blank : Mem
blank a = 7

-- "a%08x%d" and what is put for 255 and 7.
abbrev two_args : ℕ → ℕ
two_args i = if i == 0 then 255 else 7

mixed :
    vprintfmt blank 9 two_args (97 ∷ 37 ∷ 48 ∷ 56 ∷ 120 ∷ 37 ∷ 100 ∷ [])
    ≡ 97 ∷ 48 ∷ 48 ∷ 48 ∷ 48 ∷ 48 ∷ 48 ∷ 102 ∷ 102 ∷ 55 ∷ []
unfolding vprintfmt vprintfmt_loop escape settle switch take_digits process_precision format_number
    printnum printnum_loop digit pads
mixed = refl

vprintfmt_loop_ended_example :
    vprintfmt_loop blank 9 two_args 4 (37 ∷ 120 ∷ 33 ∷ []) 0
    ≡ vprintfmt_loop blank 9 two_args 3 (37 ∷ 120 ∷ 33 ∷ []) 0
vprintfmt_loop_ended_example =
    vprintfmt_loop_ended blank 9 two_args 4 3 (37 ∷ 120 ∷ 33 ∷ []) 0 (omega arith) (omega arith)

-- `%-lq!`
puts-literally_example :
    puts blank 9 two_args (37 ∷ 45 ∷ 108 ∷ 113 ∷ 33 ∷ []) 0
    ≡ 37 ∷ 45 ∷ 108 ∷ 113 ∷ puts blank 9 two_args (33 ∷ []) 0
unfolding is_known are_flags is_flag
puts-literally_example = puts-literally blank 9 two_args (45 ∷ 108 ∷ []) 113 (33 ∷ []) 0 refl refl

read_number-puts_example :
    (out : List ℕ) × (puts blank 9 two_args (37 ∷ 48 ∷ (48 + 8) ∷ 120 ∷ 33 ∷ []) 0
      ≡ out ++ puts blank 9 two_args (33 ∷ []) (0 + 1))
    × (read_number 16 0 out ≡ u32 (two_args 0))
read_number-puts_example =
    read_number-puts blank 9 two_args 8 (33 ∷ []) 0 (omega arith) (omega arith)
