-- ===== src/Apic/Tables.antt =====
-- `parse_madt` of src/arch/x86/apic.c ends and keeps its tables within their arrays.
use geek_toy_os.Base.{
  ◌^◌, u64, ℕ, zero, suc, ◌+◌, ◌≤◌, ◌<◌, Bool, true, false, ltb, leb, ◌==◌, if◌then◌else◌, ◌≡◌,
  refl, arith, Bool-cases, inl, inr, List, [], ◌∷◌, ◌++◌, length, length-append, some,
}
use geek_toy_os.MemOps.{Mem}
use geek_toy_os.Apic.{
  max_lapics, max_ioapics, max_nmis, max_overrides, sizeof_header, read_u32, State, add_lapic,
  add_ioapic, add_override, add_nmi, parse_entry, parse_loop, finish, parse_madt, kmap_addr,
}

-- No table is longer than its array.
pub record IsBounded (s : State) : Type 0 where
  pub lapics : length s.lapic_list ≤ max_lapics
  pub ioapics : length s.ioapic_list ≤ max_ioapics
  pub overrides : length s.override_list ≤ max_overrides
  pub nmis : length s.nmi_list ≤ max_nmis

pushed :
    {A : Type 0} (n : ℕ) (xs : List A) (x : A)
    → leb n (length xs) ≡ false
    → length (xs ++ x ∷ []) ≤ n
pushed n xs x room = rw (length-append xs (x ∷ [])) (ground (arith, room))

add_lapic-IsBounded : (m : Mem) (hd : ℕ) (s : State) → IsBounded s → IsBounded (add_lapic m hd s)
unfolding add_lapic
add_lapic-IsBounded m hd s b = elim (Bool-cases (read_u32 m (hd + 4) == 0)) [
  | inl off ↦ rw off b
  | inr on ↦ elim (Bool-cases (leb max_lapics (length s.lapic_list))) [
    | inl full ↦ rw on (rw full b)
    | inr room ↦ rw on (
        rw room (record {
          lapics = pushed max_lapics s.lapic_list _ room;
          ioapics = b.ioapics;
          overrides = b.overrides;
          nmis = b.nmis;
        }))
  ]
]

add_ioapic-IsBounded : (m : Mem) (hd : ℕ) (s : State) → IsBounded s → IsBounded (add_ioapic m hd s)
unfolding add_ioapic
add_ioapic-IsBounded m hd s b = elim (Bool-cases (leb max_ioapics (length s.ioapic_list))) [
  | inl full ↦ rw full b
  | inr room ↦ rw room (record {
    lapics = b.lapics;
    ioapics = pushed max_ioapics s.ioapic_list _ room;
    overrides = b.overrides;
    nmis = b.nmis;
  })
]

add_override-IsBounded :
    (m : Mem) (hd : ℕ) (s : State) → IsBounded s → IsBounded (add_override m hd s)
unfolding add_override
add_override-IsBounded m hd s b = elim (Bool-cases (leb max_overrides (length s.override_list))) [
  | inl full ↦ rw full b
  | inr room ↦ rw room (record {
    lapics = b.lapics;
    ioapics = b.ioapics;
    overrides = pushed max_overrides s.override_list _ room;
    nmis = b.nmis;
  })
]

add_nmi-IsBounded : (m : Mem) (hd : ℕ) (s : State) → IsBounded s → IsBounded (add_nmi m hd s)
unfolding add_nmi
add_nmi-IsBounded m hd s b = elim (Bool-cases (leb max_nmis (length s.nmi_list))) [
  | inl full ↦ rw full b
  | inr room ↦ rw room (record {
    lapics = b.lapics;
    ioapics = b.ioapics;
    overrides = b.overrides;
    nmis = pushed max_nmis s.nmi_list _ room;
  })
]

choose : (P : State → Type 0) (t : Bool) (a b : State) → P a → P b → P (if t then a else b)
choose P true a b p q = p
choose P false a b p q = q

parse_entry-IsBounded :
    (m : Mem) (hd : ℕ) (s : State) → IsBounded s → IsBounded (parse_entry m hd s)
unfolding parse_entry
parse_entry-IsBounded m hd s b = choose IsBounded (m hd == 0) _ _ (add_lapic-IsBounded m hd s b) (
    choose IsBounded (m hd == 1) _ _ (add_ioapic-IsBounded m hd s b) (
      choose IsBounded (m hd == 2) _ _ (add_override-IsBounded m hd s b) (
        choose IsBounded (m hd == 4) _ _ (add_nmi-IsBounded m hd s b) (
          choose IsBounded (m hd == 5) _ _
            (record {
              lapics = b.lapics;
              ioapics = b.ioapics;
              overrides = b.overrides;
              nmis = b.nmis;
            })
            b))))

-- The entries from `hd` up to `end_`: none has length 0 or reaches the top of the addresses.
pub data IsTable (m : Mem) : (hd end_ : ℕ) → Type 0 where
  done : {hd end_ : ℕ} → end_ ≤ hd → IsTable m hd end_
  entry :
      {hd end_ : ℕ}
      → hd < end_
      → 0 < m (hd + 1)
      → hd + m (hd + 1) < 2 ^ 64
      → IsTable m (hd + m (hd + 1)) end_
      → IsTable m hd end_

parse_loop-IsBounded :
    (fuel : ℕ) (m : Mem) (hd end_ : ℕ) (s : State)
    → end_ ≤ hd + fuel
    → IsTable m hd end_
    → IsBounded s
    → (t : State) × (parse_loop fuel m hd end_ s ≡ some t) × IsBounded t
unfolding parse_loop
parse_loop-IsBounded zero m hd end_ s enough table b =
    let over : ltb hd end_ ≡ false = ground (arith, enough) in (s, rw over refl, b)
parse_loop-IsBounded (suc fuel) m hd end_ s enough (done past) b =
    let over : ltb hd end_ ≡ false = ground (arith, past) in (s, rw over refl, b)
parse_loop-IsBounded (suc fuel) m hd end_ s enough (entry more long low rest) b =
    let go : ltb hd end_ ≡ true = ground (arith, more) in
    let (t, e, c) =
      parse_loop-IsBounded fuel m (hd + m (hd + 1)) end_ (parse_entry m hd s)
        (omega (arith, enough, long)) rest (parse_entry-IsBounded m hd s b) in
    let flat : u64 (hd + m (hd + 1)) ≡ hd + m (hd + 1) = omega (arith, low) in
    (t, rw (go, flat) e, c)

-- `parse_madt` of a table none of whose entries has length 0 or reaches the top of the addresses
-- ends, after at most as many entries
-- as the table has bytes, with no table longer than its array, whatever the entries say and however
-- many there are.
pub parse_madt-IsBounded :
    (m : Mem) (madt : ℕ) (s : State)
    → IsTable m (madt + sizeof_header + 8) (madt + read_u32 m (madt + 4))
    → IsBounded s
    → (t : State) × (parse_madt (read_u32 m (madt + 4)) m madt s ≡ some t) × IsBounded t
unfolding parse_madt finish
parse_madt-IsBounded m madt s table b =
    let (t, e, c) =
      parse_loop-IsBounded (read_u32 m (madt + 4)) m (madt + sizeof_header + 8)
        (madt + read_u32 m (madt + 4)) (record s { lapic_base = read_u32 m (madt + sizeof_header) })
        (omega arith) table
        (record {
          lapics = b.lapics;
          ioapics = b.ioapics;
          overrides = b.overrides;
          nmis = b.nmis;
        }) in
    (
      record t { lapic_base = kmap_addr t.lapic_base },
      rw e refl,
      record { lapics = c.lapics; ioapics = c.ioapics; overrides = c.overrides; nmis = c.nmis },
    )
