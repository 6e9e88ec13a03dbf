-- ===== src/Paging/Walk/Tests.antt =====
-- The tables of src/arch/x86_64/mm.c at concrete inputs: empty ones, and one page of 2 MiB.
use geek_toy_os.Base.{
  ℕ, ◌+◌, ◌-◌, ◌*◌, ◌/◌, ◌^◌, ◌<◌, bit_or, true, false, ◌&&◌, ◌==◌, if◌then◌else◌, none, some, ◌≡◌,
  refl, arith, inr, [], align, align_down,
}
use geek_toy_os.Paging.{Entry, pgsize}
use geek_toy_os.Paging.Walk.{
  Tables, write_entry, map_tables, kern_base, arch_kmap, check_pgtable, pgdir_walk, ptaddr,
  is_present, is_large, pgx, pux, pdx, walk_pu, walk_pd, fill, zalloc, store, entry_at,
}
use geek_toy_os.Paging.Walk.Translate.{
  translate, translate_at, leads, in_page, is_present-eq, part, slot,
}
use geek_toy_os.Paging.Walk.Keeps.{Owner}
use geek_toy_os.Paging.Walk.Tree.{IsTree}
use geek_toy_os.Paging.Walk.Write.{IsPage, Written, write_entry-Written}
use geek_toy_os.Paging.Walk.Region.{IsMapped, map_tables-IsMapped}
use geek_toy_os.Paging.Walk.Check.{check_pgtable-translate}
use geek_toy_os.Paging.Walk.Remap.{IsLargeAt, write_entry-small, arch_kmap-short}
use geek_toy_os.Paging.Walk.Mapped.{entry_word}

abbrev empty_tables : Tables
empty_tables = record { word = λ p i. 0; page = λ n. 4096 * (n + 2); taken = 0; freed = [] }

abbrev one_owner : Owner
one_owner p = if p == 4096 then some (3, 0) else none

empty-IsTree : IsTree one_owner empty_tables
unfolding leads
empty-IsTree =
    let absent : is_present 0 ≡ false = is_present-eq 0 in
    record {
      edges = λ p l k i at lt down. absurd (cc (rw absent at down));
      flat = λ p l k i at lt here stop. absurd (cc (rw absent at here));
      fresh = λ n h. ground arith;
      apart = λ m n h lt e. omega (arith, lt, e);
      frame = λ n h. omega arith;
    }

empty-translate : (root a : ℕ) → translate empty_tables.word root a ≡ none
unfolding translate_at leads is_present
empty-translate root a = refl

-- A little over 3 GiB of the direct mapping, from 1 GiB less a bit on.
map_tables-IsMapped_example :
    IsMapped empty_tables
      (map_tables true empty_tables 4096 (kern_base + 2 ^ 30 - 5000) (2 ^ 30 - 5000) 3300000000 2)
      4096
      kern_base
      ((kern_base + 2 ^ 30 - 5000) / 2 ^ 48)
      (align_down (kern_base + 2 ^ 30 - 5000) pgsize)
      (align (kern_base + 2 ^ 30 - 5000 + 3300000000) pgsize)
map_tables-IsMapped_example =
    map_tables-IsMapped true one_owner empty_tables 4096 (kern_base + 2 ^ 30 - 5000) (2 ^ 30 - 5000)
      3300000000 2 empty-IsTree refl (omega arith) (omega arith) refl (omega arith) refl
      (omega arith) (λ a low lt. empty-translate 4096 a)

-- A page of 2 MiB, once written.
abbrev large_page : ℕ → Entry
large_page paddr = record {
  vaddr = 2 ^ 21 * 3;
  paddr = paddr;
  level = 1;
  value = bit_or (bit_or paddr 3) 128;
}

large_word-IsPage : (n : ℕ) → n < 1000 → IsPage 1 (bit_or (bit_or (2 ^ 21 * n) 3) 128)
large_word-IsPage n h =
    (entry_word 1 (2 ^ 21 * n) 3 (omega arith) (omega arith) (omega (arith, h)) (omega arith)
      refl).0

abbrev large_tables : Tables
large_tables = write_entry empty_tables 4096 (large_page (2 ^ 21 * 7))

large-Written :
    Written empty_tables large_tables 4096 1 (2 ^ 21 * 3) (large_page (2 ^ 21 * 7)).value
large-Written =
    write_entry-Written one_owner empty_tables 4096 (large_page (2 ^ 21 * 7)) (omega arith)
      empty-IsTree refl (inr (empty-translate 4096 (2 ^ 21 * 3)))
      (large_word-IsPage 7 (omega arith))

large-IsLargeAt : IsLargeAt large_tables.word 4096 (2 ^ 21 * 3)
unfolding write_entry pgdir_walk walk_pu walk_pd fill store zalloc entry_at slot part leads
    is_present is_large ptaddr pgx pux pdx
large-IsLargeAt = record { upper = refl; middle = refl; here = refl; large = refl }

write_entry-small_example :
    Written large_tables
      (write_entry large_tables 4096 (large_page (2 ^ 21 * 9)))
      4096
      0
      (2 ^ 21 * 3)
      (large_page (2 ^ 21 * 9)).value
write_entry-small_example =
    write_entry-small large-Written.own large_tables 4096 (large_page (2 ^ 21 * 9))
      large-Written.tree large-Written.top refl (large_word-IsPage 9 (omega arith)) large-IsLargeAt

-- A table of a table with a page of 1 GiB at the start.
abbrev flat_tables : Tables
flat_tables = record {
  word = λ p i.
      if p == 4096 && i == 0 then 8192 + 3 else if p == 8192 && i == 0 then 2 ^ 30 * 7 + 131 else 0;
  page = λ n. 4096 * (n + 3);
  taken = 0;
  freed = [];
}

flat_small : (p i : ℕ) → flat_tables.word p i < 2 ^ 52
flat_small p i = ground arith

flat_translate : translate flat_tables.word 4096 1234 ≡ some (2 ^ 30 * 7 + 1234)
unfolding translate_at slot part leads is_present is_large ptaddr in_page
flat_translate = refl

check_pgtable-translate_example :
    (check_pgtable flat_tables 4096 1234 ≡ 2 ^ 30 * 7 + 1234)
    × ((pgdir_walk flat_tables 4096 1234 0).tables ≡ flat_tables)
check_pgtable-translate_example =
    check_pgtable-translate flat_tables 4096 1234 (2 ^ 30 * 7 + 1234) flat_small flat_translate

-- A range of 4096 bytes from an odd address on reaches into a second page.
arch_kmap-short_example :
    translate
      (arch_kmap false empty_tables 4096 (2 ^ 30 + 100) 4096).0.word
      4096
      ((arch_kmap false empty_tables 4096 (2 ^ 30 + 100) 4096).1 + (4096 - 1))
    ≡ none
arch_kmap-short_example =
    arch_kmap-short false one_owner empty_tables 4096 (2 ^ 30 + 100) 4096 empty-IsTree refl
      (omega arith) (omega arith) (omega arith) (λ a low lt. empty-translate 4096 a)
