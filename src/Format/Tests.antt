-- ===== src/Format/Tests.antt =====
-- src/lib/printfmt.c on concrete numbers and buffers.
use geek_toy_os.Base.{
  ℕ, ◌+◌, ◌-◌, min, ◌==◌, if◌then◌else◌, u32, ◌≡◌, ◌≢◌, ◌<◌, ◌⊎◌, arith, refl, List, [], ◌∷◌,
  length, some, none,
}
use geek_toy_os.MemOps.{Mem}
use geek_toy_os.Format.{printnum, vsnprintf, printnum_loop, digit, pads}
use geek_toy_os.Format.Digits.{read_number, printnum_lem}
use geek_toy_os.Format.Buffer.{stored, vsnprintf_lem}

-- " ff"
padded : printnum 255 16 3 32 ≡ 32 ∷ 102 ∷ 102 ∷ []
unfolding printnum printnum_loop digit pads
padded = refl

printnum_example : read_number 16 0 (printnum 48879 16 8 48) ≡ 48879
printnum_example = printnum_lem 48879 16 8 (omega arith) (omega arith)

abbrev hello : List ℕ
hello = 104 ∷ 101 ∷ 108 ∷ 108 ∷ 111 ∷ []

abbrev blank : Mem
blank a = 7

abbrev buffer : ℕ
buffer = 500

abbrev room : ℕ
room = 4

vsnprintf_example :
    ((vsnprintf blank buffer room hello ≡ none) × ((buffer ≡ 0) ⊎ (room ≡ 0)))
    ⊎ ((m' : Mem) × (buffer ≢ 0)
        × (0 < room)
        × (vsnprintf blank buffer room hello ≡ some (m', u32 (length hello)))
        × ((a : ℕ)
            → m' a ≡ (
                if a == buffer + min (length hello) (room - 1)
                then 0
                else stored buffer (buffer + room - 1) hello blank a)))
vsnprintf_example = vsnprintf_lem blank buffer room hello
