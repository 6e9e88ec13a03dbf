-- ===== src/Spinlock/Exclusion.antt =====
-- Mutual exclusion and progress of the lock of src/kernel/spinlock.c.
use geek_toy_os.Base.{
  ℕ, true, false, ◌==◌, ==_iff, update, ◌≡◌, ◌≢◌, ◌⊎◌, refl, sym, arith, Bool-cases, inl, inr, ap,
  ◌∙◌,
}
use geek_toy_os.Spinlock.{
  Place, outside, spinning, holding, State, try_acquire, enter, release, Step, call, exchange,
  leave, Steps, stay, step, start,
}

-- The lock is 0 and no core holds it, or it is 1 and one core does.
IsHeld : State → Type 0
IsHeld s =
    ((s.lock ≡ 0) × ((core : ℕ) → s.cores core ≢ holding))
    ⊎ ((s.lock ≡ 1)
        × ((owner : ℕ) × (s.cores owner ≡ holding)
            × ((core : ℕ) → s.cores core ≡ holding → core ≡ owner)))

-- A core that holds the lock after another core moved held it before.
still_held :
    (f : ℕ → Place) (i j : ℕ) (p : Place) → p ≢ holding → update f i p j ≡ holding → f j ≡ holding
still_held f i j p h e = elim (Bool-cases (j == i)) [
  | inl same ↦ absurd (h (rw same at e))
  | inr other ↦ rw other at e
]

untouched : (f : ℕ → Place) (i j : ℕ) (p : Place) → i ≢ j → update f i p j ≡ f j
untouched f i j p h = ground (arith, h)

outside≢holding : outside ≢ holding
outside≢holding = λ e. cc

spinning≢holding : spinning ≢ holding
spinning≢holding = λ e. cc

Step-IsHeld : {s t : State} → Step s t → IsHeld s → IsHeld t
unfolding IsHeld enter try_acquire release
Step-IsHeld (call {s} core out) (inl (free, none_)) =
    inl (free, λ c e. none_ c (still_held s.cores core c spinning spinning≢holding e))
Step-IsHeld (call {s} core out) (inr (taken, (owner, mine, alone))) = inr (
  taken,
  (
    owner,
    untouched s.cores core owner spinning
          (λ e. outside≢holding (sym out ∙ ap (λ c. s.cores c) e ∙ mine))
        ∙ mine,
    λ c e. alone c (still_held s.cores core c spinning spinning≢holding e),
  ),
)
Step-IsHeld (exchange {s} core spin) (inl (free, none_)) =
    let won : (s.lock == 0) ≡ true = (==_iff _ _).1 free in
    inr (
      refl,
      (
        core,
        rw won (ground arith),
        λ c e. elim (Bool-cases (c == core)) [
          | inl same ↦ (==_iff _ _).0 same
          | inr other ↦ absurd (none_ c (rw other at e))
        ],
      ),
    )
Step-IsHeld (exchange {s} core spin) (inr (taken, (owner, mine, alone))) =
    let lost : (s.lock == 0) ≡ false = ground (arith, taken) in
    inr (
      refl,
      (
        owner,
        rw lost (
            untouched s.cores core owner spinning
              (λ e. spinning≢holding (sym spin ∙ ap (λ c. s.cores c) e ∙ mine))
            ∙ mine),
        λ c e. alone c (still_held s.cores core c spinning spinning≢holding (rw lost at e)),
      ),
    )
Step-IsHeld (leave {s} core held) (inl (free, none_)) = absurd (none_ core held)
Step-IsHeld (leave {s} core held) (inr (taken, (owner, mine, alone))) = inl (
  refl,
  λ c e.
      let before = still_held s.cores core c outside outside≢holding e in
      let same : c ≡ core = alone c before ∙ sym (alone core held) in
      outside≢holding (sym (rw same (ground arith)) ∙ e),
)

Steps-IsHeld : {s t : State} → Steps s t → IsHeld s → IsHeld t
Steps-IsHeld stay h = h
Steps-IsHeld (step before last) h = Step-IsHeld last (Steps-IsHeld before h)

-- In every state that the cores can reach from a free lock, in whatever order they run, no two
-- cores are between `acquire` and `release`.
pub Steps-IsExclusive :
    (t : State) (a b : ℕ)
    → Steps start t
    → a ≢ b
    → ¬ ((t.cores a ≡ holding) × (t.cores b ≡ holding))
unfolding IsHeld start
Steps-IsExclusive t a b run apart (p, q) =
    elim (Steps-IsHeld run (inl (refl, λ core e. outside≢holding e))) [
      | inl (_, none_) ↦ none_ a p
      | inr (_, (owner, _, alone)) ↦ apart (alone a p ∙ sym (alone b q))
    ]
