-- ===== src/Paging/Tests.antt =====
-- The theorems on the page tables at inputs that meet their hypotheses.
use os.Base.{◌≡◌, refl, arith}
use os.Pmm.Tests.{one, one_mem}
use os.Paging.{make_phys_writable, replace_identity_pdpt, virt_to_phys_on, map_page, unmap_page}
use os.Paging.Frame.{Settled, Keeps-Settled}
use os.Paging.Grant.{Spare-Outside}
use os.Paging.Raise.{AllWritable}
use os.Paging.Writable.{make_phys_writable-AllWritable}
use os.Paging.Identity.{virt_to_phys_on-replace_identity_pdpt}
use os.Paging.Map.{
  virt_to_phys_on-map_page, unmap_page-map_page, map_page-Settled, map_page-unchanged,
  virt_to_phys_on-map_page_others,
}
use os.Paging.Fixtures.{
  one-Settled, one-Clear, one-Spare, no_entry, way, low_mem, low, tables, low-IsBytes, low-Outside,
  low-Keeps, tables-Clear, tables-Settled, tables-Spare, top_entry, low_entry, low_way,
  low-Separate, read_only, read_only-IsBytes, read_only-Way,
}

virt_to_phys_on-map_page_example :
    virt_to_phys_on (map_page one 0x10000 0x400123 0x5000 2).mem 0x10000 0x400123 ≡ 0x5123
virt_to_phys_on-map_page_example =
    virt_to_phys_on-map_page 0x10000 0x400123 one-Settled one-Spare way 0x5000 2 refl (omega arith)
      (omega arith)

unmap_page-map_page_example :
    virt_to_phys_on
      (unmap_page (map_page one 0x10000 0x400123 0x5000 2) 0x10000 0x400123).mem
      0x10000
      0x400123
    ≡ 0
unmap_page-map_page_example =
    unmap_page-map_page 0x10000 0x400123 one-Settled one-Spare way 0x5000 2 refl (omega arith)
      (omega arith)

map_page-Settled_example : Settled (map_page one 0x10000 0x400123 0x5000 2)
map_page-Settled_example = map_page-Settled 0x10000 0x400123 one-Settled one-Spare way 0x5000 2

map_page-unchanged_example : (map_page one 0x10000 0x400123 0x5000 2).mem 0x20008 ≡ one_mem 0x20008
map_page-unchanged_example =
    map_page-unchanged 0x10000 0x400123 one-Settled one-Spare way 0x5000 2 0x20000 0x20008
      (one-Clear 0x20000 (omega arith) (omega arith)) refl
      (omega arith, λ ne e. absurd (ground (arith, no_entry))) (omega arith) (omega arith)

virt_to_phys_on-replace_identity_pdpt_example :
    virt_to_phys_on (replace_identity_pdpt tables 0x10000).mem 0x10000 0x123456 ≡ 0x123456
virt_to_phys_on-replace_identity_pdpt_example =
    virt_to_phys_on-replace_identity_pdpt 0x10000 (tables-Clear 0x10000 (omega arith) (omega arith))
      refl (rw top_entry refl) (rw top_entry refl)
      (rw top_entry (tables-Clear 0x20000 (omega arith) (omega arith))) 0x123456 tables-Settled
      tables-Spare (omega arith) (rw (top_entry, low_entry) refl) (rw (top_entry, low_entry) refl)

virt_to_phys_on-map_page_others_example :
    virt_to_phys_on (map_page low 0x10000 0x400123 0x5000 2).mem 0x10000 0x40000000
    ≡ virt_to_phys_on low_mem 0x10000 0x40000000
virt_to_phys_on-map_page_others_example =
    virt_to_phys_on-map_page_others 0x10000 0x400123 (Keeps-Settled low-Keeps one-Settled)
      (Spare-Outside (one-Clear 0x10000 (omega arith) (omega arith)) low-IsBytes low-Outside
        one-Spare)
      low_way 0x5000 2 0x40000000 low-Separate

make_phys_writable-AllWritable_example :
    AllWritable (make_phys_writable read_only 0x10000 0x1234) 4 0x10000 0x1234
    × (virt_to_phys_on (make_phys_writable read_only 0x10000 0x1234) 0x10000 0x1234
        ≡ virt_to_phys_on read_only 0x10000 0x1234)
make_phys_writable-AllWritable_example =
    make_phys_writable-AllWritable read_only 0x10000 0x1234 read_only-IsBytes read_only-Way
