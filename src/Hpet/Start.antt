-- ===== src/Hpet/Start.antt =====
-- `hpet_init` takes the first timer that can be the clock and puts all others out of use.
use geek_toy_os.Base.{
  ℕ, zero, suc, ◌+◌, ◌*◌, ◌/◌, ◌%◌, ◌^◌, ◌≤◌, ◌<◌, bit_and, true, false, ◌==◌, if◌then◌else◌, u64,
  Option, none, some, List, ◌≡◌, ◌≢◌, refl, sym, ap, ◌∙◌, arith, Bool-cases, ==_iff, inl, inr, ◌⊎◌,
}
use native.Mathlib.Nat.{zero-add}
use geek_toy_os.Apic.{Override, ioapic_isa_to_gsi}
use geek_toy_os.Clock.{hz}
use geek_toy_os.Hpet.Bits.{IsMeant, timers-IsMeant}
use geek_toy_os.Hpet.{
  Registers, Timers, hpet_reg_cap, hpet_reg_timer, hpet_reg_cnf, hpet_reg_counter, hpet_write,
  hpet_write32, set_timer, usable, clock_cnf, unused_cnf, timer_round, timer_loop, hpet_init,
  is_none,
}

-- The timers from `i` on, up to `top`, are out of use.
abbrev pub Unused : (r r' : Registers) → (i top : ℕ) → Type 0
Unused r r' i top =
    (j : ℕ) → i ≤ j → j < top → r' (hpet_reg_timer j) ≡ u64 (unused_cnf (r (hpet_reg_timer j)))

-- The first usable of the timers from `i` up to `top` is the clock and all others are out of use.
pub data IsChosen (gsi cmp : ℕ) (r r' : Registers) (i top : ℕ) : Option ℕ → Type 0 where
  nothing :
      {valid : Option ℕ}
      → valid ≡ none
      → ((j : ℕ) → i ≤ j → j < top → usable gsi (r (hpet_reg_timer j)) ≡ false)
      → Unused r r' i top
      → IsChosen gsi cmp r r' i top valid
  chosen :
      {valid : Option ℕ} (k : ℕ)
      → valid ≡ some k
      → i ≤ k
      → k < top
      → usable gsi (r (hpet_reg_timer k)) ≡ true
      → ((j : ℕ) → i ≤ j → j < k → usable gsi (r (hpet_reg_timer j)) ≡ false)
      → r' (hpet_reg_timer k) ≡ u64 (clock_cnf gsi (r (hpet_reg_timer k)))
      → r' (hpet_reg_timer k + 8) % 2 ^ 32 ≡ cmp % 2 ^ 32
      → Unused r r' i k
      → Unused r r' (suc k) top
      → IsChosen gsi cmp r r' i top valid

module _ (gsi cmp : ℕ) where
  after_write :
      (r : Registers) (i v reg : ℕ)
      → (hpet_write r (hpet_reg_timer i) v reg ≡ (if reg == hpet_reg_timer i then u64 v else r reg))
  unfolding hpet_write
  after_write r i v reg = refl

  -- A round for a timer that is not chosen.
  put_out : (i : ℕ) → Timers → Timers
  put_out i t = record t {
    registers =
        hpet_write t.registers (hpet_reg_timer i) (unused_cnf (t.registers (hpet_reg_timer i)));
  }

  round-some :
      (i k : ℕ) (t : Timers) → t.valid_timer ≡ some k → timer_round i gsi cmp t ≡ put_out i t
  unfolding timer_round is_none put_out
  round-some i k t e = elim (Bool-cases (usable gsi (t.registers (hpet_reg_timer i)))) [
    | inl h ↦ rw (h, e) refl
    | inr h ↦ rw h refl
  ]

  round-unusable :
      (i : ℕ) (t : Timers)
      → usable gsi (t.registers (hpet_reg_timer i)) ≡ false
      → timer_round i gsi cmp t ≡ put_out i t
  unfolding timer_round put_out
  round-unusable i t h = rw h refl

  round-usable :
      (i : ℕ) (t : Timers)
      → t.valid_timer ≡ none
      → usable gsi (t.registers (hpet_reg_timer i)) ≡ true
      → timer_round i gsi cmp t
        ≡ record { registers = set_timer t.registers i gsi cmp; valid_timer = some i }
  unfolding timer_round is_none
  round-usable i t e h = rw (h, e) refl

  put_out-registers :
      (i : ℕ) (t : Timers)
      → ((put_out i t).registers (hpet_reg_timer i)
          ≡ u64 (unused_cnf (t.registers (hpet_reg_timer i))))
        × ((reg : ℕ) → reg ≢ hpet_reg_timer i → (put_out i t).registers reg ≡ t.registers reg)
        × ((put_out i t).valid_timer ≡ t.valid_timer)
  unfolding put_out hpet_write
  put_out-registers i t = (ground arith, λ reg ne. ground (arith, ne), refl)

  loop_step :
      (left i : ℕ) (t t1 : Timers)
      → timer_round i gsi cmp t ≡ t1
      → timer_loop (suc left) i gsi cmp t ≡ timer_loop left (suc i) gsi cmp t1
  unfolding timer_loop
  loop_step left i t t1 h = ap (λ (u : Timers). timer_loop left (suc i) gsi cmp u) h

  loop_end : (i : ℕ) (t : Timers) → timer_loop zero i gsi cmp t ≡ t
  unfolding timer_loop
  loop_end i t = refl

  -- Once a timer is chosen.
  set_timer-registers :
      (i : ℕ) (r : Registers)
      → (set_timer r i gsi cmp (hpet_reg_timer i) ≡ u64 (clock_cnf gsi (r (hpet_reg_timer i))))
        × (set_timer r i gsi cmp (hpet_reg_timer i + 8) % 2 ^ 32 ≡ cmp % 2 ^ 32)
        × ((reg : ℕ)
            → reg ≢ hpet_reg_timer i
            → reg ≢ hpet_reg_timer i + 8
            → set_timer r i gsi cmp reg ≡ r reg)
  unfolding set_timer hpet_write hpet_write32
  set_timer-registers i r = (ground arith, ground arith, λ reg ne ne'. ground (arith, ne, ne'))

  timer_loop-some :
      (left i k : ℕ) (t : Timers)
      → t.valid_timer ≡ some k
      → let t' = timer_loop left i gsi cmp t in
        (t'.valid_timer ≡ some k)
        × ((reg : ℕ) → reg < hpet_reg_timer i → t'.registers reg ≡ t.registers reg)
        × Unused t.registers t'.registers i (i + left)
  timer_loop-some zero i k t e =
      rw (loop_end i t) (e, λ reg h. refl, λ j low high. absurd (omega (arith, low, high)))
  timer_loop-some (suc left) i k t e =
      let (here, apart, valid) = put_out-registers i t in
      let (valid', below, out) = timer_loop-some left (suc i) k (put_out i t) (valid ∙ e) in
      rw (loop_step left i t (put_out i t) (round-some i k t e)) (
        (
          valid',
          λ reg h. below reg (omega (arith, h)) ∙ apart reg (λ e'. omega (arith, h, e')),
          λ j low high. elim (Bool-cases (j == i)) [
            | inl same ↦
                let e' : j ≡ i = (==_iff j i).0 same in
                rw e' (below (hpet_reg_timer i) (omega arith) ∙ here)
            | inr other ↦
                let gt : suc i ≤ j = ground (arith, low, other) in
                out j gt (omega (arith, high))
                ∙ ap (λ (c : ℕ). u64 (unused_cnf c))
                    (apart (hpet_reg_timer j) (λ e'. omega (arith, gt, e')))
          ],
        ))

  -- A timer before those that the loop goes on with.
  later_lem :
      {valid : Option ℕ} {r' r1 : Registers} (left i : ℕ) (t : Timers)
      → usable gsi (t.registers (hpet_reg_timer i)) ≡ false
      → r' (hpet_reg_timer i) ≡ u64 (unused_cnf (t.registers (hpet_reg_timer i)))
      → ((reg : ℕ) → reg ≢ hpet_reg_timer i → r1 reg ≡ t.registers reg)
      → IsChosen gsi cmp r1 r' (suc i) (suc i + left) valid
      → IsChosen gsi cmp t.registers r' i (i + suc left) valid
  later_lem {r' = r'} {r1 = r1} left i t no_ here apart c =
      let same : (j : ℕ) → suc i ≤ j → r1 (hpet_reg_timer j) ≡ t.registers (hpet_reg_timer j) =
        λ j gt. apart (hpet_reg_timer j) (λ e'. omega (arith, gt, e')) in
      let first : (top : ℕ)
          → ((j : ℕ) → suc i ≤ j → j < top → usable gsi (r1 (hpet_reg_timer j)) ≡ false)
          → (j : ℕ) → i ≤ j
          → j < top
          → usable gsi (t.registers (hpet_reg_timer j)) ≡ false =
        λ top all j low high. elim (Bool-cases (j == i)) [
          | inl e ↦ let e' : j ≡ i = (==_iff j i).0 e in rw e' no_
          | inr ne ↦
              let gt : suc i ≤ j = ground (arith, low, ne) in
              ap (usable gsi) (sym (same j gt)) ∙ all j gt high
        ] in
      let later : (from top : ℕ)
          → suc i ≤ from
          → Unused r1 r' from top
          → Unused t.registers r' from top =
        λ from top gt u j low high.
          u j low high ∙ ap (λ (c : ℕ). u64 (unused_cnf c)) (same j (omega (arith, gt, low))) in
      let out : (top : ℕ) → Unused r1 r' (suc i) top → Unused t.registers r' i top =
        λ top u j low high. elim (Bool-cases (j == i)) [
          | inl e ↦ let e' : j ≡ i = (==_iff j i).0 e in rw e' here
          | inr ne ↦ later (suc i) top (omega arith) u j (ground (arith, low, ne)) high
        ] in
      let top_ : suc i + left ≡ i + suc left = omega arith in
      elim c [
        | nothing e all u ↦
            rw (sym top_) (nothing e (first (suc i + left) all) (out (suc i + left) u))
        | chosen k e low high yes_ all cnf count u u' ↦
            let old = same k low in
            rw (sym top_) (
              chosen k e (omega (arith, low)) high (ap (usable gsi) (sym old) ∙ yes_) (first k all)
                (cnf ∙ ap (λ (c : ℕ). u64 (clock_cnf gsi c)) old) count (out k u)
                (later (suc k) (suc i + left) (omega (arith, low)) u'))
      ]

  timer_loop-IsChosen :
      (left i : ℕ) (t : Timers)
      → t.valid_timer ≡ none
      → let t' = timer_loop left i gsi cmp t in
        ((reg : ℕ) → reg < hpet_reg_timer i → t'.registers reg ≡ t.registers reg)
        × IsChosen gsi cmp t.registers t'.registers i (i + left) t'.valid_timer
  timer_loop-IsChosen zero i t e = rw (loop_end i t) (
      (
        λ reg h. refl,
        nothing e (λ j low high. absurd (omega (arith, low, high)))
            (λ j low high. absurd (omega (arith, low, high))),
      ))
  timer_loop-IsChosen (suc left) i t e =
      elim (Bool-cases (usable gsi (t.registers (hpet_reg_timer i)))) [
        | inl yes_ ↦
            let t1 : Timers = record {
              registers = set_timer t.registers i gsi cmp;
              valid_timer = some i;
            } in
            let (here, count, apart) = set_timer-registers i t.registers in
            let (valid, below, out) = timer_loop-some left (suc i) i t1 refl in
            rw (loop_step left i t t1 (round-usable i t e yes_)) (
              (
                λ reg h.
                    below reg (omega (arith, h))
                    ∙ apart reg (λ e'. omega (arith, h, e')) (λ e'. omega (arith, h, e')),
                chosen i valid (omega arith) (omega arith) yes_
                    (λ j low high. absurd (omega (arith, low, high)))
                    (below (hpet_reg_timer i) (omega arith) ∙ here)
                    (ap (λ (c : ℕ). c % 2 ^ 32) (below (hpet_reg_timer i + 8) (omega arith))
                      ∙ count)
                    (λ j low high. absurd (omega (arith, low, high)))
                    (λ j low high.
                      out j low (omega (arith, high))
                      ∙ ap (λ (c : ℕ). u64 (unused_cnf c))
                          (apart (hpet_reg_timer j) (λ e'. omega (arith, low, e'))
                            (λ e'. omega (arith, low, e')))),
              ))
        | inr no_ ↦
            let (here, apart, same) = put_out-registers i t in
            let (below, rest) = timer_loop-IsChosen left (suc i) (put_out i t) (same ∙ e) in
            rw (loop_step left i t (put_out i t) (round-unusable i t no_)) (
              (
                λ reg h. below reg (omega (arith, h)) ∙ apart reg (λ e'. omega (arith, h, e')),
                later_lem left i t no_ (below (hpet_reg_timer i) (omega arith) ∙ here) apart rest,
              ))
      ]

IsChosen-same :
    {valid : Option ℕ} {r' : Registers} (gsi cmp : ℕ) (r1 r : Registers) (i top : ℕ)
    → ((j : ℕ) → r1 (hpet_reg_timer j) ≡ r (hpet_reg_timer j))
    → IsChosen gsi cmp r1 r' i top valid
    → IsChosen gsi cmp r r' i top valid
IsChosen-same {r' = r'} gsi cmp r1 r i top same c =
    let unusable : (a b : ℕ)
        → ((j : ℕ) → a ≤ j → j < b → usable gsi (r1 (hpet_reg_timer j)) ≡ false)
        → (j : ℕ) → a ≤ j
        → j < b
        → usable gsi (r (hpet_reg_timer j)) ≡ false =
      λ a b all j low high. ap (usable gsi) (sym (same j)) ∙ all j low high in
    let unused : (a b : ℕ) → Unused r1 r' a b → Unused r r' a b =
      λ a b u j low high. u j low high ∙ ap (λ (v : ℕ). u64 (unused_cnf v)) (same j) in
    elim c [
      | nothing e all u ↦ nothing e (unusable i top all) (unused i top u)
      | chosen k e low high yes_ all cnf count u u' ↦
          chosen k e low high (ap (usable gsi) (sym (same k)) ∙ yes_) (unusable i k all)
            (cnf ∙ ap (λ (v : ℕ). u64 (clock_cnf gsi v)) (same k)) count (unused i k u)
            (unused (suc k) top u')
    ]

-- `hpet_init`, where the period times HZ is not 0, gives the first timer that can be periodic and
-- wired to the clock's interrupt, by bits 4 and 32 on of its configuration, the configuration of the
-- clock, bit by bit, and the count of a tick, and puts all others of the device out of use by
-- clearing bit 2; it finds no timer, with all of them out of use, exactly when there is none. The
-- device stands still, with its counter at 0. Where the product is 0, the division faults.
pub hpet_init-IsChosen :
    (overrides : List Override) (r : Registers)
    → let gsi = ioapic_isa_to_gsi overrides 0 in
      let tick = u64 (r hpet_reg_cap / 2 ^ 32 * hz) in
      ((tick ≡ 0) × (hpet_init overrides r ≡ none))
      ⊎ ((t : Timers) × (tick ≢ 0)
          × (hpet_init overrides r ≡ some t)
          × (t.registers hpet_reg_cnf ≡ 0)
          × (t.registers hpet_reg_counter ≡ 0)
          × IsChosen gsi
              (1000000000000000 / tick)
              r
              t.registers
              0
              (bit_and (r hpet_reg_cap / 2 ^ 8) 0x1f + 1)
              t.valid_timer
          × IsMeant gsi)
unfolding hpet_init hpet_write
hpet_init-IsChosen overrides r =
    let gsi = ioapic_isa_to_gsi overrides 0 in
    let tick = u64 (r hpet_reg_cap / 2 ^ 32 * hz) in
    let cmp = 1000000000000000 / tick in
    let count = bit_and (r hpet_reg_cap / 2 ^ 8) 0x1f + 1 in
    let stopped = hpet_write (hpet_write r hpet_reg_cnf 0) hpet_reg_counter 0 in
    let t : Timers = record { registers = stopped; valid_timer = none } in
    let (below, c) = timer_loop-IsChosen gsi cmp count 0 t refl in
    elim (Bool-cases (tick == 0)) [
      | inl fault ↦ inl ((==_iff _ _).0 fault, rw fault refl)
      | inr runs ↦ inr (
        timer_loop count 0 gsi cmp t,
        ground (arith, runs),
        rw runs refl,
        below hpet_reg_cnf (omega arith) ∙ refl,
        below hpet_reg_counter (omega arith) ∙ refl,
        IsChosen-same gsi cmp stopped r 0 count (λ j. ground arith) (rw (zero-add count) at c),
        timers-IsMeant gsi,
      )
    ]
