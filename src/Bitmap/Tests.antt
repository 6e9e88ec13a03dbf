-- ===== src/Bitmap/Tests.antt =====
-- The bitmap of src/lib/bitmap.c on concrete arrays.
use geek_toy_os.Base.{true, ◌≡◌, arith}
use geek_toy_os.Bitmap.{Bitmap, bitmap_set, bitmap_find}
use geek_toy_os.Bitmap.Byte.{bit_at}
use geek_toy_os.Bitmap.Set.{bitmap_set_lem}
use geek_toy_os.Bitmap.Find.{IsFirst, bitmap_find-IsFirst}

-- Twenty bits, all clear.
abbrev twenty : Bitmap
twenty = record { map = λ i. 0; size = 20 }

bitmap_set_example : bit_at (bitmap_set twenty true 3 10).map 5 ≡ 1
bitmap_set_example = bitmap_set_lem twenty true 3 10 5 (omega arith) (omega arith)

bitmap_find_example : IsFirst true twenty.map 3 13 (bitmap_find twenty true 3 10)
bitmap_find_example =
    bitmap_find-IsFirst twenty true 3 10 (λ i. omega arith) (omega arith) (omega arith)
