-- ===== src/Format/Buffer.antt =====
-- `vsnprintf` of src/lib/printfmt.c stays in its buffer.
use geek_toy_os.Base.{
  ℕ, suc, ◌+◌, ◌-◌, ◌^◌, ◌≤◌, ◌<◌, min, true, false, ◌&&◌, ltb, leb, ◌==◌, if◌then◌else◌, update,
  u8, u32, none, some, List, [], ◌∷◌, length, get_or, ◌≡◌, refl, arith, Bool-cases, inl, inr, ◌∙◌,
  ◌⊎◌, ==_iff, ◌≢◌,
}
use geek_toy_os.MemOps.{Mem}
use geek_toy_os.Format.{Sprintbuf, sprintputch, put_all, vsnprintf}

-- What address `a` holds once `out` stands from `buf` on, as far as `ebuf`.
abbrev pub stored : (buf ebuf : ℕ) → List ℕ → Mem → Mem
stored buf ebuf out m a =
    if leb buf a && ltb a (min (buf + length out) ebuf) then u8 (get_or out (a - buf) 0) else m a

get_or-cons :
    (ch : ℕ) (chs : List ℕ) (a buf : ℕ)
    → buf < a
    → get_or (ch ∷ chs) (a - buf) 0 ≡ get_or chs (a - (buf + 1)) 0
get_or-cons ch chs a buf h = let e : a - buf ≡ suc (a - (buf + 1)) = omega (arith, h) in rw e refl

get_or-here : (ch : ℕ) (chs : List ℕ) (buf : ℕ) → get_or (ch ∷ chs) (buf - buf) 0 ≡ ch
get_or-here ch chs buf = let e : buf - buf ≡ 0 = omega arith in rw e refl

sprintputch_stored :
    (ch : ℕ) (b : Sprintbuf)
    → ltb b.buf b.ebuf ≡ true
    → sprintputch ch b ≡ record {
      buf = b.buf + 1;
      ebuf = b.ebuf;
      cnt = u32 (b.cnt + 1);
      mem = update b.mem b.buf (u8 ch);
    }
unfolding sprintputch
sprintputch_stored ch b room = rw room refl

sprintputch_dropped :
    (ch : ℕ) (b : Sprintbuf)
    → ltb b.buf b.ebuf ≡ false
    → sprintputch ch b ≡ record b { cnt = u32 (b.cnt + 1) }
unfolding sprintputch
sprintputch_dropped ch b full = rw full refl

put_all_cons :
    (ch : ℕ) (chs : List ℕ) (b c : Sprintbuf)
    → sprintputch ch b ≡ c
    → put_all (ch ∷ chs) b ≡ put_all chs c
unfolding put_all
put_all_cons ch chs b c e = rw e refl

put_all_lem :
    (out : List ℕ) (b : Sprintbuf) (a : ℕ)
    → b.buf ≤ b.ebuf
    → b.cnt < 2 ^ 32
    → ((put_all out b).buf ≡ min (b.buf + length out) b.ebuf)
      × ((put_all out b).cnt ≡ u32 (b.cnt + length out))
      × ((put_all out b).mem a ≡ stored b.buf b.ebuf out b.mem a)
put_all_lem [] b a le small =
    unfold put_all in (omega (arith, le), omega (arith, small), ground arith)
put_all_lem (ch ∷ chs) b a le small = elim (Bool-cases (ltb b.buf b.ebuf)) [
  | inr full ↦
      let (x, y, z) = put_all_lem chs (record b { cnt = u32 (b.cnt + 1) }) a le (omega arith) in
      rw (put_all_cons ch chs b _ (sprintputch_dropped ch b full))
        (x ∙ ground (arith, full, le), y ∙ omega arith, z ∙ ground (arith, full, le))
  | inl room ↦
      let (x, y, z) =
        put_all_lem chs
          (record {
            buf = b.buf + 1;
            ebuf = b.ebuf;
            cnt = u32 (b.cnt + 1);
            mem = update b.mem b.buf (u8 ch);
          })
          a (ground (arith, room)) (omega arith) in
      rw (put_all_cons ch chs b _ (sprintputch_stored ch b room))
        (x ∙ omega arith, y ∙ omega arith, z ∙ cell room)
]
  where
    cell :
        ltb b.buf b.ebuf ≡ true
        → stored (b.buf + 1) b.ebuf chs (update b.mem b.buf (u8 ch)) a
          ≡ stored b.buf b.ebuf (ch ∷ chs) b.mem a
    cell room = elim (Bool-cases (leb a b.buf)) [
      | inr after ↦ ground (arith, after, get_or-cons ch chs a b.buf (ground (arith, after)))
      | inl upto ↦ elim (Bool-cases (a == b.buf)) [
        | inl here ↦ at_buf room ((==_iff _ _).0 here)
        | inr before ↦ ground (arith, upto, before)
      ]
    ]
      where
        at_buf :
            ltb b.buf b.ebuf ≡ true
            → a ≡ b.buf
            → stored (b.buf + 1) b.ebuf chs (update b.mem b.buf (u8 ch)) a
              ≡ stored b.buf b.ebuf (ch ∷ chs) b.mem a
        at_buf room e = rw e (ground (arith, room, get_or-here ch chs b.buf))

-- `vsnprintf` into a buffer of `n` bytes that does not wrap stores the first `n - 1` characters it is
-- given, or all when they are fewer, then a NUL, and writes nowhere else; it returns how many
-- characters there were, and -E_INVAL exactly for a null buffer or no room at all.
pub vsnprintf_lem :
    (m : Mem) (buf n : ℕ) (out : List ℕ)
    → ((vsnprintf m buf n out ≡ none) × ((buf ≡ 0) ⊎ (n ≡ 0)))
      ⊎ ((m' : Mem) × (buf ≢ 0)
          × (0 < n)
          × (vsnprintf m buf n out ≡ some (m', u32 (length out)))
          × ((a : ℕ)
              → m' a ≡ (
                  if a == buf + min (length out) (n - 1)
                  then 0
                  else stored buf (buf + n - 1) out m a)))
unfolding vsnprintf
vsnprintf_lem m buf n out = elim (Bool-cases (buf == 0)) [
  | inl null ↦ inl (rw null refl, inl ((==_iff _ _).0 null))
  | inr some_buf ↦ elim (Bool-cases (ltb n 1)) [
    | inl no_room ↦ inl (rw some_buf (rw no_room refl), inr (ground (arith, no_room)))
    | inr room ↦
        let b : Sprintbuf = record { buf = buf; ebuf = buf + n - 1; cnt = 0; mem = m } in
        let all = λ (a : ℕ). put_all_lem out b a (ground (arith, room)) (omega arith) in
        let (end_, count, _) = all 0 in
        let count' : (put_all out b).cnt ≡ u32 (length out) = omega (arith, count) in
        let last : (put_all out b).buf ≡ buf + min (length out) (n - 1) =
          ground (arith, end_, room) in
        inr (
          update (put_all out b).mem (put_all out b).buf 0,
          ground (arith, some_buf),
          ground (arith, room),
          rw some_buf (rw room (rw count' refl)),
          λ a. rw last (ground (arith, (all a).2)),
        )
  ]
]
