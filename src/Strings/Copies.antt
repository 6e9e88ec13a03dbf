-- ===== src/Strings/Copies.antt =====
-- The functions of src/lib/string.c that run to a NUL. The fuel bounds the characters they pass.
use geek_toy_os.Base.{ℕ, zero, suc, ◌+◌, ◌&&◌, not, ◌==◌, if◌then◌else◌, update, sub32, u32}
use geek_toy_os.MemOps.{Mem}
use geek_toy_os.Strings.{char_int}

-- `while (*temp != '\0') temp++`
pub to_end : (fuel : ℕ) → Mem → (temp : ℕ) → ℕ
to_end zero m temp = temp
to_end (suc fuel) m temp = let rest = to_end fuel m (temp + 1) in if m temp == 0 then temp else rest

-- `while ((*temp++ = *src++) != '\0')`
pub copy_loop : (fuel : ℕ) → Mem → (temp src : ℕ) → Mem
copy_loop zero m temp src = m
copy_loop (suc fuel) m temp src =
    let m' = update m temp (m src) in
    let rest = copy_loop fuel m' (temp + 1) (src + 1) in if m src == 0 then m' else rest

pub strcpy : (fuel : ℕ) → Mem → (p_dst p_src : ℕ) → Mem
strcpy fuel m p_dst p_src = copy_loop fuel m p_dst p_src

pub strcat : (fuel : ℕ) → Mem → (dst src : ℕ) → Mem
strcat fuel m dst src =
    if dst == 0 then m else if src == 0 then m else copy_loop fuel m (to_end fuel m dst) src

-- `while (n > 0 && (*temp++ = *src++) != '\0')`
pub strncat_loop : (n : ℕ) → Mem → (temp src : ℕ) → Mem
strncat_loop zero m temp src = m
strncat_loop (suc n) m temp src =
    let m' = update m temp (m src) in
    let rest = strncat_loop n m' (temp + 1) (src + 1) in if m src == 0 then m' else rest

pub strncat : (fuel : ℕ) → Mem → (dst src n : ℕ) → Mem
strncat fuel m dst src n =
    if dst == 0 then m else if src == 0 then m else strncat_loop n m (to_end fuel m dst) src

pub strcmp_loop : (fuel : ℕ) → Mem → (p1 p2 : ℕ) → ℕ
strcmp_loop zero m p1 p2 = sub32 (char_int (m p1)) (char_int (m p2))
strcmp_loop (suc fuel) m p1 p2 =
    let rest = strcmp_loop fuel m (p1 + 1) (p2 + 1) in
    if not (m p1 == 0) && not (m p2 == 0) && (m p1 == m p2)
    then rest
    else sub32 (char_int (m p1)) (char_int (m p2))

pub strcmp : (fuel : ℕ) → Mem → (s1 s2 : ℕ) → ℕ
strcmp fuel m s1 s2 =
    if s1 == 0
    then sub32 (u32 s1) (u32 s2)
    else if s2 == 0
    then sub32 (u32 s1) (u32 s2)
    else strcmp_loop fuel m s1 s2

-- `for (p = s; *p; p++) { if (*p == c) break; }`
pub strchr_loop : (fuel : ℕ) → Mem → (p c : ℕ) → ℕ
strchr_loop zero m p c = p
strchr_loop (suc fuel) m p c =
    let rest = strchr_loop fuel m (p + 1) c in if m p == 0 then p else if m p == c then p else rest

pub strchr : (fuel : ℕ) → Mem → (s c : ℕ) → ℕ
strchr fuel m s c =
    let p = strchr_loop fuel m s c in if s == 0 then 0 else if m p == c then p else 0

pub strrchr_loop : (fuel : ℕ) → Mem → (s c r : ℕ) → ℕ
strrchr_loop zero m s c r = r
strrchr_loop (suc fuel) m s c r =
    let rest = strrchr_loop fuel m (s + 1) c (if m s == c then s else r) in
    if m s == 0 then r else rest

pub strrchr : (fuel : ℕ) → Mem → (s c : ℕ) → ℕ
strrchr fuel m s c = if s == 0 then 0 else strrchr_loop fuel m s c 0
