-- ===== src/Format.antt =====
-- src/lib/printfmt.c: the digits of `printnum` and the buffer of `vsnprintf`. What is put is the
-- list of the characters in order: `vsnprintf` takes those that `vprintfmt` puts, which
-- Format/Formats has.
pub mod Digits
pub mod Buffer
pub mod Errors
pub mod Formats
mod Tests
use geek_toy_os.Base.{
  ℕ, zero, suc, ◌+◌, ◌-◌, ◌*◌, ◌/◌, ◌%◌, ◌^◌, Bool, true, false, ltb, leb, ◌==◌, if◌then◌else◌,
  update, u8, u32, Option, none, some, List, [], ◌∷◌, ◌++◌,
}
use geek_toy_os.MemOps.{Mem}

-- `"0123456789abcdef"[d]`
pub digit : ℕ → ℕ
digit d = if ltb d 10 then 48 + d else 87 + d

-- `while (--width > 0) putch(padc, putdat)`; a width below 1 is held as 0, which pads as little.
pub pads : (left padc : ℕ) → List ℕ
pads zero padc = []
pads (suc left) padc = padc ∷ pads left padc

-- `printnum`; each call divides by the base, so the fuel `num` is enough for bases from 2 on.
pub printnum_loop : (fuel num base width padc : ℕ) → List ℕ
printnum_loop zero num base width padc = pads (width - 1) padc ++ digit (num % base) ∷ []
printnum_loop (suc fuel) num base width padc =
    let rest = printnum_loop fuel (num / base) base (width - 1) padc in
    (if leb base num then rest else pads (width - 1) padc) ++ digit (num % base) ∷ []

pub printnum : (num base width padc : ℕ) → List ℕ
printnum num base width padc = printnum_loop num num base width padc

-- `struct sprintbuf`, with the memory it writes to.
pub record Sprintbuf : Type 0 where
  pub buf : ℕ
  pub ebuf : ℕ
  pub cnt : ℕ
  pub mem : Mem

pub sprintputch : (ch : ℕ) → Sprintbuf → Sprintbuf
sprintputch ch b =
    let b' = record b { cnt = u32 (b.cnt + 1) } in
    if ltb b.buf b.ebuf then record b' { mem = update b.mem b.buf (u8 ch); buf = b.buf + 1 } else b'

-- `vprintfmt` putting its characters.
pub put_all : List ℕ → Sprintbuf → Sprintbuf
put_all [] b = b
put_all (ch ∷ chs) b = put_all chs (sprintputch ch b)

-- `vsnprintf` for the characters that `vprintfmt` puts; `none` is `-E_INVAL`.
pub vsnprintf : Mem → (buf n : ℕ) → (out : List ℕ) → Option (Mem × ℕ)
vsnprintf m buf n out =
    let b = put_all out (record { buf = buf; ebuf = buf + n - 1; cnt = 0; mem = m }) in
    if buf == 0 then none else if ltb n 1 then none else some (update b.mem b.buf 0, b.cnt)
