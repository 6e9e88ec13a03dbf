-- ===== src/Mboot/Tests.antt =====
-- Boot information with a tag of the command line, a memory map of two entries and the end.
use geek_toy_os.Base.{◌+◌, ◌≡◌, refl, arith, some, [], ◌∷◌, ◌==◌, if◌then◌else◌}
use geek_toy_os.MemOps.{Mem}
use geek_toy_os.Mboot.{mboot_get_mboot_info, for_mmap}
use geek_toy_os.Mboot.Tags.{
  IsTags, first_of, mboot_get_mboot_info-first_of, for_mmap-entries, entries_from,
}

-- At 1008 a tag of type 1 and size 13, at 1024 one of type 6 and size 64, at 1088 the end.
abbrev boot_info : Mem
boot_info a =
    if a == 1008
    then 1
    else if a == 1012
    then 13
    else if a == 1024
    then 6
    else if a == 1028
    then 64
    else if a == 1032
    then 24
    else if a == 1056
    then 1
    else 0

boot_info-IsTags : IsTags boot_info 1008 ((1008, 1) ∷ (1024, 6) ∷ [])
boot_info-IsTags =
    IsTags.more refl refl (omega arith) (omega arith) (omega arith)
      (IsTags.more refl refl (omega arith) (omega arith) (omega arith) (IsTags.last refl))

mboot_get_mboot_info-first_of_example :
    mboot_get_mboot_info 9 boot_info 1000 6 ≡ some (first_of 6 ((1008, 1) ∷ (1024, 6) ∷ []))
mboot_get_mboot_info-first_of_example =
    mboot_get_mboot_info-first_of boot_info 1000 6 9 ((1008, 1) ∷ (1024, 6) ∷ []) (omega arith)
      boot_info-IsTags (omega arith)

for_mmap-entries_example : for_mmap 9 boot_info 1024 ≡ entries_from boot_info 2 24 (1024 + 16)
for_mmap-entries_example =
    for_mmap-entries boot_info 1024 2 9 (omega arith) (omega arith) (omega arith) refl (omega arith)
