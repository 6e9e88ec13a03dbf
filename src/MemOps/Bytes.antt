-- ===== src/MemOps/Bytes.antt =====
-- The routines of src/lib/string.c that move bytes leave bytes.
use geek_toy_os.Base.{
  ℕ, zero, suc, ◌+◌, ◌-◌, ◌%◌, ◌<◌, Bool, ltb, leb, ◌==◌, ◌&&◌, update, arith, Bool-cases, inl, inr,
  align, align_down, sub64,
}
use geek_toy_os.MemOps.{
  signed_count, Mem, copy_word, head_loop, word_loop, tail_loop, after_head, memcpy, back_loop,
  memmove,
}

abbrev AllBytes : Mem → Type 0
AllBytes m = (a : ℕ) → m a < 256

update-AllBytes : (m : Mem) (d s : ℕ) → AllBytes m → AllBytes (update m d (m s))
update-AllBytes m d s h a = ground (arith, h a, h s)

copy_word-AllBytes : (m : Mem) (d s : ℕ) → AllBytes m → AllBytes (copy_word m d s)
unfolding copy_word
copy_word-AllBytes m d s h a = ground (arith, h a, h (s + (a - d)))

head_loop-AllBytes :
    (dptr sz d s : ℕ) (m : Mem) → AllBytes m → AllBytes (head_loop dptr sz d s m).mem
unfolding head_loop
head_loop-AllBytes dptr zero d s m h = h
head_loop-AllBytes dptr (suc sz) d s m h = elim (Bool-cases (ltb d dptr)) [
  | inl on ↦
      rw on
        (head_loop-AllBytes dptr sz (d + 1) (s + 1) (update m d (m s)) (update-AllBytes m d s h))
  | inr off ↦ rw off h
]

word_loop-AllBytes :
    (going : Bool) (fuel sz d s : ℕ) (m : Mem)
    → AllBytes m
    → AllBytes (word_loop going fuel sz d s m).mem
unfolding word_loop
word_loop-AllBytes going zero sz d s m h = h
word_loop-AllBytes going (suc fuel) sz d s m h = elim (Bool-cases (ltb 0 sz && going)) [
  | inl on ↦ rw on (
      word_loop-AllBytes going fuel (sz - 8) (d + 8) (s + 8) (copy_word m d s)
        (copy_word-AllBytes m d s h))
  | inr off ↦ rw off h
]

tail_loop-AllBytes : (sz d s : ℕ) (m : Mem) → AllBytes m → AllBytes (tail_loop sz d s m)
unfolding tail_loop
tail_loop-AllBytes zero d s m h = h
tail_loop-AllBytes (suc sz) d s m h =
    tail_loop-AllBytes sz (d + 1) (s + 1) (update m d (m s)) (update-AllBytes m d s h)

pub memcpy-AllBytes : (m : Mem) (dst src n : ℕ) → AllBytes m → AllBytes (memcpy m dst src n)
unfolding memcpy after_head
memcpy-AllBytes m dst src n h =
    let sz = signed_count n in
    let c = head_loop (align dst 8) sz dst src m in
    let head = head_loop-AllBytes (align dst 8) sz dst src m h in
    let going = ltb c.d (align_down (dst + n) 8) in
    let words = word_loop-AllBytes going c.sz c.sz (align dst 8) c.s c.mem head in
    elim (Bool-cases (c.s % 8 == 0)) [
      | inl even ↦ rw even (tail_loop-AllBytes _ _ _ _ words)
      | inr odd ↦ rw odd (tail_loop-AllBytes _ _ _ _ head)
    ]

back_loop-AllBytes : (n d s : ℕ) (m : Mem) → AllBytes m → AllBytes (back_loop n d s m)
unfolding back_loop
back_loop-AllBytes zero d s m h = h
back_loop-AllBytes (suc n) d s m h =
    back_loop-AllBytes n (d - 1) (s - 1) (update m (d - 1) (m (s - 1)))
      (update-AllBytes m (d - 1) (s - 1) h)

pub memmove-AllBytes : (m : Mem) (dst src n : ℕ) → AllBytes m → AllBytes (memmove m dst src n)
unfolding memmove
memmove-AllBytes m dst src n h = elim (Bool-cases (leb n (sub64 dst src))) [
  | inl forward ↦ rw forward (memcpy-AllBytes m dst src n h)
  | inr back ↦ rw back (back_loop-AllBytes n (dst + n) (src + n) m h)
]
