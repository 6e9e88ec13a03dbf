-- ===== src/Paging/Tests.antt =====
-- A region of src/arch/x86_64/mm.c that takes pages of all three sizes.
use geek_toy_os.Base.{◌+◌, ◌-◌, ◌^◌, true, align, align_down, arith, refl}
use geek_toy_os.Paging.{pgsize, map_perm, arch_map_region}
use geek_toy_os.Paging.Tiling.{IsTiling, arch_map_region-IsTiling}

-- From 1 GiB less a page and a bit, for a little over 3 GiB.
arch_map_region_example :
    IsTiling
      (2 ^ 40)
      (map_perm 2)
      (align_down (2 ^ 41 - 5000) pgsize)
      (align (2 ^ 41 - 5000 + 3300000000) pgsize)
      (arch_map_region true (2 ^ 41 - 5000) (2 ^ 40 - 5000) 3300000000 2)
arch_map_region_example =
    arch_map_region-IsTiling true (2 ^ 41 - 5000) (2 ^ 40 - 5000) 3300000000 2 (omega arith)
      (omega arith) refl (omega arith)
