-- ===== src/Buddy/Cover.antt =====
-- The frames that the free lists of a zone hold, frame by frame.
use geek_toy_os.Base.{
  ℕ, zero, suc, ◌+◌, ◌^◌, ◌≤◌, ◌<◌, Bool, true, false, ltb, leb, ◌==◌, ◌&&◌, if◌then◌else◌, update,
  ◌≡◌, ◌≢◌, refl, ap, arith, List, [], ◌∷◌, ◌++◌, length, Bool-cases, inl, inr, ==_iff,
}
use native.Mathlib.Nat.{pow-suc}
use native.Mathlib.Decide.{ℕ_discrete}
use geek_toy_os.Buddy.{Zone, max_order, erase}

-- 1 where the frame `f` lies in the block of order `o` at `q`, and 0 elsewhere.
abbrev pub holds : (o f q : ℕ) → ℕ
holds o f q = if leb q f && ltb f (q + 2 ^ o) then 1 else 0

-- How many of the blocks of order `o` at `qs` hold the frame.
unfoldable pub covered : (o f : ℕ) → (qs : List ℕ) → ℕ
covered o f [] = 0
covered o f (q ∷ qs) = holds o f q + covered o f qs

-- How many blocks of the lists of the orders below `n` hold it.
unfoldable pub pile : (ℕ → List ℕ) → (f n : ℕ) → ℕ
pile l f zero = 0
pile l f (suc n) = pile l f n + covered n f (l n)

-- How many free blocks of the zone hold the frame.
unfoldable pub cover : Zone → (f : ℕ) → ℕ
cover z f = pile z.free_pages f max_order

-- Whether the list has the block.
unfoldable pub on_list : ℕ → List ℕ → Bool
on_list p [] = false
on_list p (q ∷ qs) = if p == q then true else on_list p qs

pub holds-pair : (o f h : ℕ) → holds (suc o) f h ≡ holds o f h + holds o f (h + 2 ^ o)
holds-pair o f h = rw (pow-suc 2 o) (ground arith)

pub covered-append :
    (o f q : ℕ) (qs : List ℕ) → covered o f (qs ++ q ∷ []) ≡ covered o f qs + holds o f q
unfolding covered
covered-append o f q [] = omega arith
covered-append o f q (p ∷ qs) = omega (arith, covered-append o f q qs)

pub covered-erase :
    (o f p : ℕ) (qs : List ℕ)
    → on_list p qs ≡ true
    → (covered o f (erase p qs) + holds o f p ≡ covered o f qs)
      × (length (erase p qs) + 1 ≡ length qs)
unfolding covered on_list erase
covered-erase o f p [] h = absurd cc
covered-erase o f p (q ∷ qs) h = elim (Bool-cases (p == q)) [
  | inl here ↦ let e : p ≡ q = (==_iff p q).0 here in rw here (rw e (omega arith), omega arith)
  | inr later ↦
      let (c, n) = covered-erase o f p qs (rw later at h) in
      rw later (omega (arith, c), omega (arith, n))
]

pile-update_above :
    (l : ℕ → List ℕ) (f o : ℕ) (v : List ℕ) (n : ℕ) → n ≤ o → pile (update l o v) f n ≡ pile l f n
unfolding pile
pile-update_above l f o v zero h = refl
pile-update_above l f o v (suc n) h =
    let other : update l o v n ≡ l n = ground (arith, h) in
    rw (other, pile-update_above l f o v n (omega (arith, h))) refl

pile-update_top :
    (l : ℕ → List ℕ) (f n : ℕ) (v : List ℕ)
    → pile (update l n v) f (suc n) + covered n f (l n) ≡ pile l f (suc n) + covered n f v
unfolding pile
pile-update_top l f n v =
    let here : update l n v n ≡ v = ground arith in
    omega (arith, ap (covered n f) here, pile-update_above l f n v n (omega arith))

pile-update_rest :
    (l : ℕ → List ℕ) (f o : ℕ) (v : List ℕ) (n : ℕ)
    → o ≢ n
    → pile (update l o v) f n + covered o f (l o) ≡ pile l f n + covered o f v
    → pile (update l o v) f (suc n) + covered o f (l o) ≡ pile l f (suc n) + covered o f v
unfolding pile
pile-update_rest l f o v n ne ih =
    let other : update l o v n ≡ l n = ground (arith, ne) in
    omega (arith, ap (covered n f) other, ih)

pub pile-update :
    (l : ℕ → List ℕ) (f o : ℕ) (v : List ℕ) (n : ℕ)
    → o < n
    → pile (update l o v) f n + covered o f (l o) ≡ pile l f n + covered o f v
pile-update l f o v zero h = absurd (omega (arith, h))
pile-update l f o v (suc n) h = elim (ℕ_discrete o n) [
  | yes e ↦ rw e (pile-update_top l f n v)
  | no ne ↦ pile-update_rest l f o v n ne (pile-update l f o v n (omega (arith, h, ne)))
]
