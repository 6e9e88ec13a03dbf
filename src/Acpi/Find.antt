-- ===== src/Acpi/Find.antt =====
-- `acpi_find_table` finds the first table with the signature.
use geek_toy_os.Base.{
  ℕ, zero, suc, ◌+◌, ◌*◌, ◌^◌, ◌≤◌, ◌<◌, Bool, true, false, ltb, ◌==◌, u64, ◌≡◌, ◌≢◌, ◌↔◌, refl,
  sym, ◌∙◌, arith, Bool-cases, ==_iff, inl, inr,
}
use geek_toy_os.MemOps.{Mem}
use geek_toy_os.Strings.{memcmp}
use geek_toy_os.Strings.Bounds.{AreBytes, memcmp_lem}
use geek_toy_os.Apic.{read_u32}
use geek_toy_os.Mboot.{null}
use geek_toy_os.Paging.Walk.{kaddr}
use geek_toy_os.Paging.Walk.Remap.{arch_kmap-address}
use geek_toy_os.Acpi.{
  State, sizeof_header, kmap, acpi_remap, entry_size, read_entry, iter_loop, acpi_iter,
  check_signature, acpi_find_table,
}

-- Where the `i`th entry of the table stands, and the table that it points to.
abbrev pub entry_addr : State → (i : ℕ) → ℕ
entry_addr s i = s.acpi_sdt_header + sizeof_header + i * entry_size s

abbrev pub table_at : Mem → State → (i : ℕ) → ℕ
table_at m s i = kaddr (read_entry m s (entry_addr s i))

abbrev pub HasSignature : Mem → (signature table : ℕ) → Type 0
HasSignature m signature table = (k : ℕ) → k < 4 → m (table + k) ≡ m (signature + k)

-- Of the `n` entries from the one at `entry` on, the result is the first that the handler takes, or
-- NULL if it takes none.
pub data IsFirst (found : ℕ → Bool) (table : ℕ → ℕ) (i n result : ℕ) : Type 0 where
  none_ :
      result ≡ null
      → ((j : ℕ) → i ≤ j → j < n → found (table j) ≡ false)
      → IsFirst found table i n result
  at :
      (k : ℕ)
      → i ≤ k
      → k < n
      → result ≡ table k
      → found (table k) ≡ true
      → ((j : ℕ) → i ≤ j → j < k → found (table j) ≡ false)
      → IsFirst found table i n result

acpi_remap-address : (m : Mem) (s : State) (phy : ℕ) → (acpi_remap m s phy).1 ≡ kaddr phy
unfolding acpi_remap kmap
acpi_remap-address m s phy = arch_kmap-address s.page_1gb _ s.kernel_pgd phy _

acpi_remap-same :
    (m : Mem) (s : State) (phy : ℕ)
    → ((acpi_remap m s phy).0.acpi_revision ≡ s.acpi_revision)
      × ((acpi_remap m s phy).0.acpi_sdt_header ≡ s.acpi_sdt_header)
unfolding acpi_remap kmap
acpi_remap-same m s phy = (refl, refl)

next_entry : (base i size : ℕ) → base + i * size + size ≡ base + suc i * size
next_entry base i size = grind arith

before_end : (base i n size : ℕ) → i < n → 0 < size → base + i * size < base + n * size
before_end base i n size h pos = grind arith

within_end : (base i n size : ℕ) → i ≤ n → base + i * size ≤ base + n * size
within_end base i n size h = grind arith

IsFirst-later :
    (found : ℕ → Bool) (table : ℕ → ℕ) (i n result : ℕ)
    → found (table i) ≡ false
    → IsFirst found table (suc i) n result
    → IsFirst found table i n result
IsFirst-later found table i n result no_ (none_ e all) = none_ e (λ j low high.
    elim (Bool-cases (j == i)) [
      | inl same ↦ let e' : j ≡ i = (==_iff j i).0 same in rw e' no_
      | inr other ↦ all j (ground (arith, low, other)) high
    ])
IsFirst-later found table i n result no_ (at k low high e yes_ before) =
    at k (omega (arith, low)) high e yes_ (λ j lo hi. elim (Bool-cases (j == i)) [
      | inl same ↦ let e' : j ≡ i = (==_iff j i).0 same in rw e' no_
      | inr other ↦ before j (ground (arith, lo, other)) hi
    ])

module _ (m : Mem) (handler : ℕ → Bool) (s : State) (n : ℕ)
    (top : s.acpi_sdt_header + sizeof_header + n * entry_size s + 8 < 2 ^ 64) where
  iter_loop-IsFirst :
      (left i : ℕ) (s' : State)
      → s'.acpi_revision ≡ s.acpi_revision
      → i ≤ n
      → n ≤ i + left
      → IsFirst handler
          (table_at m s)
          i
          n
          (iter_loop left m handler
            (entry_addr s i)
            (s.acpi_sdt_header + sizeof_header + n * entry_size s)
            s').1
  unfolding iter_loop
  iter_loop-IsFirst zero i s' rev le enough =
      none_ refl (λ j low high. absurd (omega (arith, le, enough, low, high)))
  iter_loop-IsFirst (suc left) i s' rev le enough =
      let base = s.acpi_sdt_header + sizeof_header in
      let size = entry_size s in
      let end_ = base + n * size in
      let pos : 0 < size = ground arith in
      let mapped = acpi_remap m s' (read_entry m s' (entry_addr s i)) in
      let address : mapped.1 ≡ table_at m s i =
        acpi_remap-address m s' (read_entry m s' (entry_addr s i)) ∙ rw rev refl in
      let rev' = (acpi_remap-same m s' (read_entry m s' (entry_addr s i))).0 ∙ rev in
      elim (Bool-cases (i == n)) [
        | inl done ↦
            let e : i ≡ n = (==_iff i n).0 done in
            let stop : ltb (entry_addr s i) end_ ≡ false = rw e (ground arith) in
            rw stop (none_ refl (λ j low high. absurd (omega (arith, e, low, high))))
        | inr more ↦
            let lt : i < n = ground (arith, more, le) in
            let go : ltb (entry_addr s i) end_ ≡ true =
              ground (arith, before_end base i n size lt pos) in
            rw go (elim (Bool-cases (handler mapped.1)) [
              | inl yes_ ↦ rw yes_ (
                  at i (omega arith) lt address (rw (sym address) yes_)
                    (λ j low high. absurd (omega (arith, low, high))))
              | inr no_ ↦
                  let step : u64 (entry_addr s i + entry_size s') ≡ entry_addr s (suc i) = rw rev (
                    omega (
                      arith,
                      next_entry base i size,
                      within_end base (suc i) n size (omega (arith, lt)),
                      top,
                    )) in
                  rw (no_, step)
                    (IsFirst-later handler (table_at m s) i n _ (rw (sym address) no_) (
                      iter_loop-IsFirst left (suc i) mapped.0 rev' (omega (arith, lt))
                        (omega (arith, enough))))
            ])
      ]

count-le : (n size : ℕ) → 0 < size → n ≤ n * size
count-le n size pos = grind arith

check_signature_iff :
    (m : Mem) (signature table : ℕ)
    → AreBytes m
    → (check_signature m signature table ≡ true) ↔ HasSignature m signature table
unfolding check_signature
check_signature_iff m signature table bytes =
    let (to, back) = memcmp_lem m table signature 4 bytes in
    let (yes_, no_) = ==_iff (memcmp m table signature 4) 0 in (λ h. to (yes_ h), λ h. no_ (back h))

-- `acpi_find_table` returns the kernel's address of the first table, in the order of the entries of
-- the RSDT or XSDT, whose first four bytes are those of the signature, and NULL exactly when there
-- is none. The memory holds bytes; the RSDT or XSDT is there, with the length of its head and `n`
-- entries, and its end is below the top of the addresses.
pub acpi_find_table-IsFirst :
    (m : Mem) (signature n : ℕ) (s : State)
    → AreBytes m
    → s.acpi_sdt_header ≢ null
    → s.acpi_sdt_header + sizeof_header + n * entry_size s + 8 < 2 ^ 64
    → read_u32 m (s.acpi_sdt_header + 4) ≡ sizeof_header + n * entry_size s
    → IsFirst (check_signature m signature) (table_at m s) 0 n (acpi_find_table m signature s).1
      × ((table : ℕ) → (check_signature m signature table ≡ true) ↔ HasSignature m signature table)
unfolding acpi_find_table acpi_iter
acpi_find_table-IsFirst m signature n s bytes there top len =
    let size = entry_size s in
    let some_ : (s.acpi_sdt_header == null) ≡ false = ground (arith, there) in
    let first : u64 (s.acpi_sdt_header + sizeof_header) ≡ entry_addr s 0 =
      omega (arith, top, within_end (s.acpi_sdt_header + sizeof_header) 0 n size (omega arith)) in
    let last : u64 (s.acpi_sdt_header + (sizeof_header + n * size))
        ≡ s.acpi_sdt_header + sizeof_header + n * size =
      omega (arith, top) in
    let pos : 0 < size = ground arith in
    (
      rw (some_, len, first, last)
          (iter_loop-IsFirst m (check_signature m signature) s n top (sizeof_header + n * size) 0 s
            refl (omega arith) (omega (arith, count-le n size pos))),
      λ table. check_signature_iff m signature table bytes,
    )
