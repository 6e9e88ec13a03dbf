-- ===== src/Paging/Walk/Translate.antt =====
-- What the processor makes of the tables: the address that a virtual one goes to, level by level,
-- where no entry has a bit from 52 on set (NX and the bits that are ignored), which it would leave
-- out of the address. The port sets none for physical addresses below 2 ^ 52.
use geek_toy_os.Base.{
  ℕ, zero, suc, ◌+◌, ◌-◌, ◌*◌, ◌/◌, ◌%◌, ◌^◌, ◌<◌, bit_and, Bool, true, false, not, ◌&&◌, ◌||◌,
  ◌==◌, if◌then◌else◌, Option, none, some, ◌≡◌, refl, ap, arith,
}
use geek_toy_os.Base.Bits.{bit_and-one}
use geek_toy_os.Base.{high_mask}
use geek_toy_os.Paging.{level_size}
use geek_toy_os.Paging.Walk.{ptaddr, is_present, is_large}

-- The part of the address that the levels from `level` on look at, by its low 48 bits, and the
-- index at that level.
unfoldable pub part : (level vaddr : ℕ) → ℕ
part zero vaddr = vaddr % 2 ^ 48 / 4096
part (suc level) vaddr = part level vaddr / 512

unfoldable pub slot : (level vaddr : ℕ) → ℕ
slot level vaddr = part level vaddr % 512

-- The address in a page of the level.
unfoldable pub in_page : (level entry vaddr : ℕ) → ℕ
in_page level entry vaddr = entry - entry % level_size level + vaddr % level_size level

-- Whether an entry of a level above 0 leads to a table: the uppermost has no large pages.
unfoldable pub leads : (level entry : ℕ) → Bool
leads level entry = is_present entry && (level == 3 || not (is_large entry))

unfoldable pub translate_at : (level : ℕ) → (ℕ → ℕ → ℕ) → (table vaddr : ℕ) → Option ℕ
translate_at zero word table vaddr =
    let e = word table (slot zero vaddr) in
    if is_present e then some (in_page zero e vaddr) else none
translate_at (suc level) word table vaddr =
    let e = word table (slot (suc level) vaddr) in
    let rest = translate_at level word (ptaddr e) vaddr in
    if leads (suc level) e
    then rest
    else if is_present e
    then some (in_page (suc level) e vaddr)
    else none

abbrev pub translate : (ℕ → ℕ → ℕ) → (root vaddr : ℕ) → Option ℕ
translate word root vaddr = translate_at 3 word root vaddr

pub part-eq : (level vaddr : ℕ) → part (suc level) vaddr * 512 + slot level vaddr ≡ part level vaddr
unfolding part slot
part-eq level vaddr = omega arith

pub slot-lt : (level vaddr : ℕ) → slot level vaddr < 512
unfolding slot
slot-lt level vaddr = omega arith

-- The same part at a level means the same part above, and the same index.
pub part_above :
    (level a b : ℕ) → part level a ≡ part level b → part (suc level) a ≡ part (suc level) b
unfolding part
part_above level a b h = ap (λ (n : ℕ). n / 512) h

pub slot_same : (level a b : ℕ) → part level a ≡ part level b → slot level a ≡ slot level b
unfolding slot
slot_same level a b h = ap (λ (n : ℕ). n % 512) h

pub is_present-eq : (e : ℕ) → is_present e ≡ (e % 2 == 1)
unfolding is_present
is_present-eq e = rw (bit_and-one e) (ground arith)

pub is_large-eq : (e : ℕ) → is_large e ≡ (e / 128 % 2 == 1)
unfolding is_large
is_large-eq e =
    let one : bit_and (e / 2 ^ 7) 1 ≡ e / 2 ^ 7 % 2 = bit_and-one (e / 2 ^ 7) in
    let h : bit_and e (1 * 2 ^ 7) ≡ bit_and (e / 2 ^ 7) 1 * 2 ^ 7 = high_mask 7 e 1 in
    rw h (rw one (ground arith))

pub ptaddr-eq : (e : ℕ) → ptaddr e ≡ e - e % 4096
unfolding ptaddr
ptaddr-eq e = refl

-- One level down, where the entry leads to a table.
pub translate_at-leads :
    (level : ℕ) (word : ℕ → ℕ → ℕ) (table vaddr e : ℕ)
    → word table (slot (suc level) vaddr) ≡ e
    → leads (suc level) e ≡ true
    → translate_at (suc level) word table vaddr ≡ translate_at level word (ptaddr e) vaddr
unfolding translate_at
translate_at-leads level word table vaddr e here down = rw (here, down) refl

-- At an entry that is the last: every one of level 0, and those that lead to no table.
pub translate_at-zero :
    (word : ℕ → ℕ → ℕ) (table vaddr e : ℕ)
    → word table (slot zero vaddr) ≡ e
    → translate_at zero word table vaddr
      ≡ (if is_present e then some (in_page zero e vaddr) else none)
unfolding translate_at
translate_at-zero word table vaddr e here = rw here refl

pub translate_at-ends :
    (level : ℕ) (word : ℕ → ℕ → ℕ) (table vaddr e : ℕ)
    → word table (slot (suc level) vaddr) ≡ e
    → leads (suc level) e ≡ false
    → translate_at (suc level) word table vaddr
      ≡ (if is_present e then some (in_page (suc level) e vaddr) else none)
unfolding translate_at
translate_at-ends level word table vaddr e here stop = rw (here, stop) refl
