-- ===== src/Screen/Pixel.antt =====
-- `screen_put_pixel` of src/drivers/video.c writes the bytes of one pixel.
use geek_toy_os.Base.{
  ℕ, zero, suc, ◌+◌, ◌-◌, ◌*◌, ◌/◌, ◌%◌, ◌^◌, ◌≤◌, ◌<◌, bit_and, bit_or, ◌≡◌, refl, ap, arith, u8,
  u64, inl, inr, ◌∙◌, true, false, ltb, leb, ◌==◌, Bool-cases, ◌&&◌, if◌then◌else◌, update,
  low_mask, high_mask, or_disjoint,
}
use native.Mathlib.Nat.{mul-le-mul_left, mul-le-mul_right, mul_comm}
use geek_toy_os.MemOps.{Mem}
use geek_toy_os.Screen.Rows.{IsLaidOut}
use geek_toy_os.Screen.{ScreenInfo, load_le, store_le, pixel_write, screen_put_pixel}

-- Byte `i` of a number.
abbrev pub byte_at : (value i : ℕ) → ℕ
byte_at value zero = u8 value
byte_at value (suc i) = byte_at (value / 2 ^ 8) i

store_le_lem :
    (n : ℕ) (m : Mem) (a value x : ℕ)
    → store_le m a n value x ≡ (if leb a x && ltb x (a + n) then byte_at value (x - a) else m x)
unfolding store_le
store_le_lem zero m a value x = ground arith
store_le_lem (suc n) m a value x = elim (Bool-cases (ltb a x)) [
  | inl after ↦
      let e : x - a ≡ suc (x - (a + 1)) = ground (arith, after) in
      store_le_lem n (update m a (u8 value)) (a + 1) (value / 2 ^ 8) x
      ∙ rw e (ground (arith, after))
  | inr upto ↦ elim (Bool-cases (x == a)) [
    | inl here ↦
        let e : x - a ≡ 0 = ground (arith, here) in
        store_le_lem n (update m a (u8 value)) (a + 1) (value / 2 ^ 8) x
        ∙ rw e (ground (arith, here))
    | inr before ↦
        store_le_lem n (update m a (u8 value)) (a + 1) (value / 2 ^ 8) x
        ∙ ground (arith, before, upto)
  ]
]

-- The pixel of three bytes is written as four, the last as it was.
merged_bytes :
    (pixel c i : ℕ)
    → c < 256
    → i < 4
    → byte_at (pixel % 2 ^ 24 + c * 2 ^ 24) i ≡ (if ltb i 3 then byte_at pixel i else c)
merged_bytes pixel c zero h small = omega arith
merged_bytes pixel c (suc zero) h small = omega arith
merged_bytes pixel c (suc (suc zero)) h small = omega arith
merged_bytes pixel c (suc (suc (suc zero))) h small = omega (arith, h)
merged_bytes pixel c (suc (suc (suc (suc i)))) h small = absurd (omega (arith, small))

merged_word :
    (m : Mem) (p pixel : ℕ)
    → ((a : ℕ) → m a < 256)
    → bit_or (bit_and pixel 0xFFFFFF) (bit_and (load_le m p 4) 0xFF000000)
      ≡ pixel % 2 ^ 24 + m (p + 3) * 2 ^ 24
unfolding load_le
merged_word m p pixel bytes =
    let word = load_le m p 4 in
    let last : m (p + 1 + 1 + 1) ≡ m (p + 3) = ap m (omega arith) in
    let top : word / 2 ^ 24 % 2 ^ 8 ≡ m (p + 3) =
      omega (arith, last, bytes p, bytes (p + 1), bytes (p + 1 + 1), bytes (p + 1 + 1 + 1)) in
    let below : bit_and pixel 0xFFFFFF ≡ pixel % 2 ^ 24 = low_mask 24 pixel in
    let above : bit_and word 0xFF000000 ≡ m (p + 3) * 2 ^ 24 =
      high_mask 24 word 0xFF ∙ ap (λ n. n * 2 ^ 24) (low_mask 8 (word / 2 ^ 24) ∙ top) in
    rw (below, above) (or_disjoint 24 (pixel % 2 ^ 24) (m (p + 3)) (omega arith))

masked_bytes : (n value i : ℕ) → i < n → n ≤ 2 → byte_at (value % 2 ^ (8 * n)) i ≡ byte_at value i
masked_bytes zero value i h small = absurd (omega (arith, h))
masked_bytes (suc zero) value zero h small = omega arith
masked_bytes (suc (suc zero)) value zero h small = omega arith
masked_bytes (suc (suc zero)) value (suc zero) h small = omega arith
masked_bytes (suc (suc zero)) value (suc (suc i)) h small = absurd (omega (arith, h))
masked_bytes (suc zero) value (suc i) h small = absurd (omega (arith, h))
masked_bytes (suc (suc (suc n))) value i h small = absurd (omega (arith, small))

same_inside :
    (m : Mem) (p x n u v : ℕ)
    → ((i : ℕ) → i < n → byte_at u i ≡ byte_at v i)
    → (if leb p x && ltb x (p + n) then byte_at u (x - p) else m x)
      ≡ (if leb p x && ltb x (p + n) then byte_at v (x - p) else m x)
same_inside m p x n u v same = elim (Bool-cases (leb p x && ltb x (p + n))) [
  | inl within ↦ rw within (same (x - p) (ground (arith, within)))
  | inr out ↦ rw out refl
]

-- The fourth byte of the word keeps its value.
fourth_kept :
    (m : Mem) (p pixel x : ℕ)
    → ((a : ℕ) → m a < 256)
    → (if leb p x && ltb x (p + 4)
        then byte_at (pixel % 2 ^ 24 + m (p + 3) * 2 ^ 24) (x - p)
        else m x)
      ≡ (if leb p x && ltb x (p + 3) then byte_at pixel (x - p) else m x)
fourth_kept m p pixel x bytes = elim (Bool-cases (leb p x && ltb x (p + 4))) [
  | inl within ↦
      let merged =
        merged_bytes pixel (m (p + 3)) (x - p) (bytes (p + 3)) (ground (arith, within)) in
      elim (Bool-cases (ltb x (p + 3))) [
        | inl inside ↦
            let e : ltb (x - p) 3 ≡ true = ground (arith, within, inside) in
            let both : leb p x ≡ true = ground (arith, within) in
            rw (within, both, inside) (merged ∙ rw e refl)
        | inr last ↦
            let e : ltb (x - p) 3 ≡ false = ground (arith, within, last) in
            let both : leb p x ≡ true = ground (arith, within) in
            let at : p + 3 ≡ x = ground (arith, within, last) in
            rw (within, both, last) (merged ∙ rw e (ap m at))
      ]
  | inr out ↦ ground (arith, out)
]

-- `pixel_write` for a pixel of one to four bytes changes exactly these bytes.
pub pixel_write_lem :
    (m : Mem) (psize p pixel x : ℕ)
    → ((a : ℕ) → m a < 256)
    → 1 ≤ psize
    → psize ≤ 4
    → pixel_write m psize p pixel x
      ≡ (if leb p x && ltb x (p + psize) then byte_at pixel (x - p) else m x)
unfolding pixel_write
pixel_write_lem m zero p pixel x bytes some_ small = absurd (omega (arith, some_))
pixel_write_lem m (suc zero) p pixel x bytes some_ small =
    let masked : bit_and pixel 0xFF ≡ pixel % 2 ^ 8 = low_mask 8 pixel in
    rw masked (
      store_le_lem 1 m p (pixel % 2 ^ 8) x
      ∙ same_inside m p x 1 _ _ (λ i h. masked_bytes 1 pixel i h (omega arith)))
pixel_write_lem m (suc (suc zero)) p pixel x bytes some_ small =
    let masked : bit_and pixel 0xFFFF ≡ pixel % 2 ^ 16 = low_mask 16 pixel in
    rw masked (
      store_le_lem 2 m p (pixel % 2 ^ 16) x
      ∙ same_inside m p x 2 _ _ (λ i h. masked_bytes 2 pixel i h (omega arith)))
pixel_write_lem m (suc (suc (suc zero))) p pixel x bytes some_ small =
    rw (merged_word m p pixel bytes) (store_le_lem 4 m p _ x ∙ fourth_kept m p pixel x bytes)
pixel_write_lem m (suc (suc (suc (suc zero)))) p pixel x bytes some_ small =
    store_le_lem 4 m p pixel x
pixel_write_lem m (suc (suc (suc (suc (suc n))))) p pixel x bytes some_ small =
    absurd (omega (arith, small))

-- Where a pixel lies in the back buffer.
abbrev pub pixel_place : ScreenInfo → (x y : ℕ) → ℕ
pixel_place info x y = info.buffer + (info.pitch * y + x * info.bpp)

-- The bytes of a pixel on the screen lie in its row.
pub pixel_in_row :
    {info : ScreenInfo} {x : ℕ}
    → IsLaidOut info
    → x < info.width
    → x * info.bpp + info.bpp ≤ info.pitch
pixel_in_row {info} {x} laid h =
    omega
      (arith, laid.row, mul-le-mul_right {m = x + 1} {n = info.width} info.bpp (omega (arith, h)))

-- `screen_put_pixel` in a laid out buffer, for pixels of one to four bytes, stores the bytes of the
-- pixel's number lowest first at the pixel's place when the point lies on the screen, and changes
-- no other byte; off the screen it changes nothing.
pub screen_put_pixel_lem :
    (info : ScreenInfo) (x y pixel a : ℕ) (m : Mem)
    → IsLaidOut info
    → 1 ≤ info.bpp
    → info.bpp ≤ 4
    → ((a : ℕ) → m a < 256)
    → screen_put_pixel info x y pixel m a ≡ (
        if ltb x info.width
          && ltb y info.height
          && leb (pixel_place info x y) a
          && ltb a (pixel_place info x y + info.bpp)
        then byte_at pixel (a - pixel_place info x y)
        else m a)
unfolding screen_put_pixel
screen_put_pixel_lem info x y pixel a m laid some_ small bytes =
    elim (Bool-cases (leb info.width x)) [
      | inl right ↦ rw right (ground (arith, right))
      | inr across ↦ elim (Bool-cases (leb info.height y)) [
        | inl below ↦ rw (across, below) (ground (arith, below))
        | inr down ↦
            let ltx : ltb x info.width ≡ true = ground (arith, across) in
            let lty : ltb y info.height ≡ true = ground (arith, down) in
            let place : u64 (info.buffer + y * info.pitch + x * info.bpp) ≡ pixel_place info x y =
              omega (
                arith,
                laid.buffer_top,
                some_,
                mul_comm y info.pitch,
                pixel_in_row {info = info} {x = x} laid (ground (arith, across)),
                mul-le-mul_left {m = y + 1} {n = info.height} info.pitch (ground (arith, down)),
              ) in
            rw (across, down, place, ltx, lty)
              (pixel_write_lem m info.bpp (pixel_place info x y) pixel a bytes some_ small)
      ]
    ]
