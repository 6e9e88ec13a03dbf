-- ===== src/Buddy/Weight.antt =====
-- Pages on the free lists of a zone, counted by the `count` fields of its free areas.
use geek_toy_os.Base.{ℕ, zero, suc, ◌+◌, ◌*◌, ◌^◌, ◌≤◌, ◌<◌, update, ◌≡◌, ◌≢◌, refl, arith}
use native.Mathlib.Decide.{ℕ_discrete}
use geek_toy_os.Buddy.{Zone, max_order}

-- The pages in the blocks of the orders below `n`.
unfoldable pub weigh : (ℕ → ℕ) → (n : ℕ) → ℕ
weigh c zero = 0
weigh c (suc n) = weigh c n + c n * 2 ^ n

weigh-update_above : (c : ℕ → ℕ) (o v n : ℕ) → n ≤ o → weigh (update c o v) n ≡ weigh c n
unfolding weigh
weigh-update_above c o v zero h = refl
weigh-update_above c o v (suc n) h = ground (arith, weigh-update_above c o v n)

weigh-update_top :
    (c : ℕ → ℕ) (n v : ℕ) → weigh (update c n v) (suc n) + c n * 2 ^ n ≡ weigh c (suc n) + v * 2 ^ n
unfolding weigh
weigh-update_top c n v = ground (arith, weigh-update_above c n v n)

weigh-update_rest :
    (c : ℕ → ℕ) (o v n : ℕ)
    → o ≢ n
    → weigh (update c o v) n + c o * 2 ^ o ≡ weigh c n + v * 2 ^ o
    → weigh (update c o v) (suc n) + c o * 2 ^ o ≡ weigh c (suc n) + v * 2 ^ o
unfolding weigh
weigh-update_rest c o v n ne ih = ground arith

pub weigh-update :
    (c : ℕ → ℕ) (o v n : ℕ) → o < n → weigh (update c o v) n + c o * 2 ^ o ≡ weigh c n + v * 2 ^ o
weigh-update c o v zero h = absurd (omega arith)
weigh-update c o v (suc n) h = elim (ℕ_discrete o n) [
  | yes e ↦ rw e (weigh-update_top c n v)
  | no ne ↦ weigh-update_rest c o v n ne (weigh-update c o v n (omega arith))
]

-- The pages in all blocks of the zone.
unfoldable pub free_total : Zone → ℕ
free_total z = weigh z.count max_order
