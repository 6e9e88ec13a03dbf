-- ===== src/Calendar/Strftime.antt =====
-- `strftime` of src/lib/time.c. A format is the list of its characters up to the NUL; a `%` at its
-- end, after which the source reads on behind the NUL, ends it here.
use geek_toy_os.Base.{
  ℕ, ◌+◌, ◌-◌, ◌%◌, ◌≡◌, refl, arith, Bool, true, false, not, ◌&&◌, ◌==◌, if◌then◌else◌, update,
  none, some, List, [], ◌∷◌,
}
use geek_toy_os.MemOps.{Mem}
use geek_toy_os.Format.Formats.{snprintf}
use geek_toy_os.Calendar.{Tm}

-- The memory and the place `p`.
pub record Output : Type 0 where
  pub mem : Mem
  pub p : ℕ

-- `*p++ = ch`
pub put_literal : (ch : ℕ) → Output → Output
put_literal ch o = record { mem = update o.mem o.p ch; p = o.p + 1 }

-- `put_digit`, with the format `%0*d`; `-E_INVAL` is -2.
pub put_digit : (s max alignz d : ℕ) → Output → Output
put_digit s max alignz d o =
    elim (snprintf o.mem 0 (λ i. if i == 0 then alignz else d) o.p (max - (o.p - s))
      (37 ∷ 48 ∷ 42 ∷ 100 ∷ [])) [
        | none ↦ record o { p = o.p - 2 }
        | some (m, count) ↦ record { mem = m; p = o.p + count }
      ]

-- The character after a `%`.
pub directive : (s max ch : ℕ) → Tm → Output → Output
directive s max ch t o =
    if ch == 37
    then put_literal ch o
    else if ch == 100
    then put_digit s max 2 t.tm_mday o
    else if ch == 72
    then put_digit s max 2 t.tm_hour o
    else if ch == 73
    then put_digit s max 2 ((t.tm_hour + 11) % 12 + 1) o
    else if ch == 77
    then put_digit s max 2 t.tm_min o
    else if ch == 109
    then put_digit s max 2 (t.tm_mon + 1) o
    else if ch == 83
    then put_digit s max 2 t.tm_sec o
    else if ch == 89
    then put_digit s max 0 (t.tm_year + 1900) o
    else if ch == 121
    then put_digit s max 2 ((t.tm_year + 1900) % 100) o
    else o

-- The loop, where `after` says that a `%` was read before.
pub strftime_loop : (s max : ℕ) → Tm → (after : Bool) → (fmt : List ℕ) → Output → Output
strftime_loop s max t after [] o = o
strftime_loop s max t true (ch ∷ rest) o = strftime_loop s max t false rest (directive s max ch t o)
strftime_loop s max t false (ch ∷ rest) o =
    strftime_loop s max t (ch == 37) rest (if ch == 37 then o else put_literal ch o)

-- The memory and the length that is returned.
pub strftime : Mem → (s max : ℕ) → (fmt : List ℕ) → Tm → Mem × ℕ
strftime m s max fmt t =
    let o = strftime_loop s max t false fmt (record { mem = m; p = s }) in (o.mem, o.p - s)

-- No character is a `%`.
is_text : List ℕ → Bool
is_text [] = true
is_text (ch ∷ chs) = not (ch == 37) && is_text chs

put_text : List ℕ → Output → Output
put_text [] o = o
put_text (ch ∷ chs) o = put_text chs (put_literal ch o)

-- Text without `%` is stored as it is.
strftime_loop_text :
    (s max : ℕ) (t : Tm) (text : List ℕ) (o : Output)
    → is_text text ≡ true
    → strftime_loop s max t false text o ≡ put_text text o
unfolding strftime_loop is_text put_text
strftime_loop_text s max t [] o h = refl
strftime_loop_text s max t (ch ∷ chs) o h =
    let plain : (ch == 37) ≡ false = ground (arith, h) in
    let later : is_text chs ≡ true = ground (arith, h) in
    rw plain (strftime_loop_text s max t chs (put_literal ch o) later)
