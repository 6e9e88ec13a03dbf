-- ===== src/MemOps.antt =====
-- The byte memory of the kernel and the routines of src/lib/string.c that move bytes.
-- A pointer is its address. Memory is total: an access out of any object reads or writes the
-- byte that lies there.
pub mod Copy
pub mod Move
pub mod Bytes
mod Tests
use geek_toy_os.Base.{
  ℕ, zero, suc, ◌+◌, ◌-◌, ◌%◌, Bool, ltb, leb, ◌==◌, if◌then◌else◌, update, u8, align, align_down,
  sub64, ◌&&◌, ◌^◌, ◌≡◌, arith,
}

abbrev pub Mem : Type 0
Mem = ℕ → ℕ

-- `*(long *) d = *(long *) s`: all eight bytes are read before the first is written.
pub copy_word : Mem → ℕ → ℕ → Mem
copy_word m d s a = if leb d a && ltb a (d + 8) then m (s + (a - d)) else m a

-- Where the first byte loop of `memcpy` stands when it ends.
pub record Cursor : Type 0 where
  pub mem : Mem
  pub d : ℕ
  pub s : ℕ
  pub sz : ℕ

-- `while (sz > 0 && d < dptr)`
pub head_loop : (dptr sz d s : ℕ) → Mem → Cursor
head_loop dptr zero d s m = record { mem = m; d = d; s = s; sz = 0 }
head_loop dptr (suc sz) d s m =
    let rest = head_loop dptr sz (d + 1) (s + 1) (update m d (m s)) in
    if ltb d dptr then rest else record { mem = m; d = d; s = s; sz = suc sz }

-- The word loop. Its test reads `d`, which the loop leaves alone, so `open` is fixed; `sz` is
-- signed and only compared with 0, so a step below 0 is a step to 0 here. The fuel is `sz`.
pub word_loop : (going : Bool) → (fuel sz d s : ℕ) → Mem → Cursor
word_loop going zero sz d s m = record { mem = m; d = d; s = s; sz = sz }
word_loop going (suc fuel) sz d s m =
    let rest = word_loop going fuel (sz - 8) (d + 8) (s + 8) (copy_word m d s) in
    if ltb 0 sz && going then rest else record { mem = m; d = d; s = s; sz = sz }

-- The last byte loop.
pub tail_loop : (sz d s : ℕ) → Mem → Mem
tail_loop zero d s m = m
tail_loop (suc sz) d s m = tail_loop sz (d + 1) (s + 1) (update m d (m s))

-- From `long* sptr` to the end of `memcpy`.
pub after_head : (dptr dptr_end sz d s : ℕ) → Mem → Mem
after_head dptr dptr_end sz d s m =
    let w = word_loop (ltb d dptr_end) sz sz dptr s m in
    if s % 8 == 0 then tail_loop w.sz w.d w.s w.mem else tail_loop sz d s m

-- `ssize_t sz = n`: a count of 2 ^ 63 or more is negative there, and no loop runs.
abbrev pub signed_count : ℕ → ℕ
signed_count n = if ltb n (2 ^ 63) then n else 0

pub memcpy : Mem → (dst src n : ℕ) → Mem
memcpy m dst src n =
    let c = head_loop (align dst 8) (signed_count n) dst src m in
    after_head (align dst 8) (align_down (dst + n) 8) c.sz c.d c.s c.mem

-- `*(--d) = *(--s)`, `n` times.
pub back_loop : (n d s : ℕ) → Mem → Mem
back_loop zero d s m = m
back_loop (suc n) d s m = back_loop n (d - 1) (s - 1) (update m (d - 1) (m (s - 1)))

pub memmove : Mem → (dst src n : ℕ) → Mem
memmove m dst src n =
    if leb n (sub64 dst src) then memcpy m dst src n else back_loop n (dst + n) (src + n) m

unfoldable pub memset : Mem → (p ch size : ℕ) → Mem
memset m p ch zero = m
memset m p ch (suc size) = memset (update m p (u8 ch)) (p + 1) ch size

pub memset_lem :
    (m : Mem) (p ch size a : ℕ)
    → memset m p ch size a ≡ (if leb p a && ltb a (p + size) then u8 ch else m a)
unfolding memset
memset_lem m p ch zero a = ground arith
memset_lem m p ch (suc size) a = ground (arith, memset_lem (update m p (u8 ch)) (p + 1) ch size a)
