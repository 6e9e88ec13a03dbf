-- ===== src/Paging32/Tests.antt =====
-- The tables of the i386 port at concrete inputs: an empty directory, and a page full of sevens.
use geek_toy_os.Base.{◌+◌, ◌*◌, ◌≡◌, refl, arith, [], ◌==◌, if◌then◌else◌, min, sub32}
use geek_toy_os.Paging.Walk.{Tables, page_address}
use geek_toy_os.Paging.Walk.Translate.{is_present-eq}
use geek_toy_os.Paging32.{pdx, ptx, map_page, check_pgtable, map_kernel, arch_map_region}
use geek_toy_os.Paging32.Stale.{map_page-stale, map_kernel-low}

abbrev used_page : Tables
used_page = record {
  word = λ p i. if p == 8192 then 7 else 0;
  page = λ n. 4096 * (n + 2);
  taken = 0;
  freed = [];
}

map_page-stale_example :
    check_pgtable (map_page used_page 4096 0x1000 0x5000 2) 4096 0x2000
    ≡ page_address 12 (used_page.word 8192 (ptx 0x2000)) 0x2000
unfolding ptx pdx
map_page-stale_example =
    map_page-stale used_page 4096 0x1000 0x2000 0x5000 2 (is_present-eq 0) refl (omega arith) refl
      (omega arith)

map_kernel-low_example :
    map_kernel used_page 4096 0x8000000
    ≡ arch_map_region used_page 4096 0xC0400000 0x400000
        (sub32 (min 0x8000000 0x28000000) 0x400000)
        258
map_kernel-low_example = map_kernel-low used_page 4096 0x8000000 (omega arith)
