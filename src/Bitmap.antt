-- ===== src/Bitmap.antt =====
-- src/lib/bitmap.c: a bitmap over an array of bytes. `map` holds the array's bytes by index; an
-- `int` result is its 32-bit pattern, so -1 is `not_found`.
pub mod Byte
pub mod Set
pub mod Find
mod Tests
use geek_toy_os.Base.{
  ℕ, zero, suc, ◌+◌, ◌-◌, ◌*◌, ◌/◌, ◌%◌, ◌^◌, min, bit_and, bit_or, Bool, true, false, not, ◌&&◌,
  ltb, ◌==◌, if◌then◌else◌, update, u8, u32, u64, sub64, align,
}
use geek_toy_os.MemOps.{Mem, memset}

pub record Bitmap : Type 0 where
  pub map : Mem
  pub size : ℕ

abbrev pub bitmap_init : Mem → ℕ → Bitmap
bitmap_init arr size = record { map = arr; size = size }

-- -1 as an `int`.
abbrev pub not_found : ℕ
not_found = 2 ^ 32 - 1

-- `bit_mask(k)`, and `~x` on an `int`.
abbrev pub bit_mask : ℕ → ℕ
bit_mask k = 2 ^ k - 1

abbrev pub not32 : ℕ → ℕ
not32 x = 2 ^ 32 - 1 - x

-- The local variables that both functions compute first.
pub record Span : Type 0 where
  pub start_byte : ℕ
  pub end_byte : ℕ
  pub start_bound_bit : ℕ
  pub end_bound_bit : ℕ

abbrev pub span : (size start len : ℕ) → Span
span size start len =
    let start_bit = min size start in
    let end_bit = min size (u64 (start + len)) in
    let start_byte = align start_bit 8 / 8 in
    let end_byte = end_bit / 8 in
    record {
      start_byte = start_byte;
      end_byte = end_byte;
      start_bound_bit = sub64 (start_byte * 8) start_bit;
      end_bound_bit = sub64 end_bit (end_byte * 8);
    }

-- The masks, as they stand in a `u8`.
pub head_mask : ℕ → ℕ
head_mask k = u8 (not32 (bit_mask (8 - k)))

pub tail_mask : ℕ → ℕ
tail_mask k = u8 (bit_mask k)

pub same_mask : ℕ → ℕ → ℕ
same_mask j k = u8 (bit_and (not32 (bit_mask (8 - j))) (bit_mask k))

-- `|= mask` or `&= ~mask` on a byte of the array.
pub put : Bool → (mask byte : ℕ) → ℕ
put true mask byte = u8 (bit_or byte mask)
put false mask byte = u8 (bit_and byte (not32 mask))

pub put_at : Bool → (mask i : ℕ) → Mem → Mem
put_at value mask i m = update m i (put value mask (m i))

-- The three steps of `bitmap_set` after the case of one byte.
pub set_head : Bool → Span → Mem → Mem
set_head value r m =
    if r.start_bound_bit == 0
    then m
    else put_at value (head_mask r.start_bound_bit) (sub64 r.start_byte 1) m

pub set_middle : Bool → Span → Mem → Mem
set_middle value r m =
    if ltb r.start_byte r.end_byte
    then memset m r.start_byte (if value then 0xff else 0) (sub64 r.end_byte r.start_byte)
    else m

pub set_tail : Bool → Span → Mem → Mem
set_tail value r m =
    if r.end_bound_bit == 0 then m else put_at value (tail_mask r.end_bound_bit) r.end_byte m

pub bitmap_set : Bitmap → Bool → (start len : ℕ) → Bitmap
bitmap_set b value start len =
    let r = span b.size start len in
    record b {
      map =
          if ltb r.end_byte r.start_byte
          then put_at value (same_mask r.start_bound_bit r.end_bound_bit) (sub64 r.start_byte 1)
              b.map
          else set_tail value r (set_middle value r (set_head value r b.map));
    }

-- `byte &= mask` or `byte |= ~mask`, and the byte that holds no bit looked for.
pub filtered : Bool → (mask byte : ℕ) → ℕ
filtered true mask byte = u8 (bit_and byte mask)
filtered false mask byte = u8 (bit_or byte (not32 mask))

abbrev pub skip : Bool → ℕ
skip value = if value then 0 else 0xff

-- `while (byte & 1) { pos++; byte >>= 1; }`: a byte has eight bits, so eight rounds do.
pub trailing_ones : (fuel byte : ℕ) → ℕ
trailing_ones zero byte = 0
trailing_ones (suc fuel) byte =
    let rest = suc (trailing_ones fuel (byte / 2)) in if byte % 2 == 1 then rest else 0

-- The label `_found`.
pub found : Bool → (byte found_byte : ℕ) → ℕ
found value byte found_byte =
    let byte' = if value then u8 (not32 byte) else byte in
    u32 (found_byte * 8 + trailing_ones 8 byte')

pub find_tail : Bool → Span → Mem → ℕ
find_tail value r m =
    let byte = filtered value (tail_mask r.end_bound_bit) (m r.end_byte) in
    if r.end_bound_bit == 0
    then not_found
    else if byte == skip value
    then not_found
    else found value byte r.end_byte

-- The loop over whole bytes from index `i`, with `left` of them to go.
pub find_middle : Bool → Span → Mem → (left i : ℕ) → ℕ
find_middle value r m zero i = find_tail value r m
find_middle value r m (suc left) i =
    let rest = find_middle value r m left (i + 1) in
    if m i == skip value then rest else found value (m i) i

pub find_in_byte : Bool → (mask i otherwise : ℕ) → Mem → ℕ
find_in_byte value mask i otherwise m =
    let byte = filtered value mask (m i) in
    if byte == skip value then otherwise else found value byte i

-- `bitmap_find` once its local variables are set.
pub find_span : Bool → Span → Mem → ℕ
find_span value r m =
    let rest = find_middle value r m (r.end_byte - r.start_byte) r.start_byte in
    if ltb r.end_byte r.start_byte
    then find_in_byte value (same_mask r.start_bound_bit r.end_bound_bit) (sub64 r.start_byte 1)
        not_found m
    else if r.start_bound_bit == 0
    then rest
    else find_in_byte value (head_mask r.start_bound_bit) (sub64 r.start_byte 1) rest m

pub bitmap_find : Bitmap → Bool → (start len : ℕ) → ℕ
bitmap_find b value start len = find_span value (span b.size start len) b.map
