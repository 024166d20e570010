-- ===== src/Vmm/Tests.antt =====
-- The theorems on virtual memory at inputs that meet their hypotheses.
use os.Base.{◌≡◌, refl, [], false, arith}
use os.Base.Memory.{Memory, load, store, fill}
use os.Bitmap
use os.Pmm
use os.Pmm.Table.{desc}
use os.Pmm.Malloc.{taken}
use os.Pmm.Tests.{one}
use os.Paging.Fixtures.{one-Settled}
use os.Vmm.{
  Vmm, VmmState, vmm_malloc, use_pages, alloc_pages, vmm_free, record_address, record_size,
  release_records,
}
use os.Vmm.Records.{free_record, free_records, IsAccepted, release_records-half}
use os.Vmm.Rollback.{Outcome, alloc_pages-Outcome, vmm_malloc-Restored}

abbrev kernel_vmm : Vmm
kernel_vmm = record {
  flag = 3;
  descriptor = 0xFFFF800000000000;
  desc = record { address = 0xFFFF800000001000; page_size = 0; bytes = 0 };
  pml4 = 0x10000;
  alloc_record = 0;
  alloc_record_num = 0;
  is_user = false;
}

abbrev st : VmmState
st = record { pmm = one; cr3 = 0x10000; current = kernel_vmm; error_code = 0 }

-- There are 16 pages.
too_many : (vmm_malloc st 0x10001).0 ≡ 0
unfolding vmm_malloc use_pages alloc_pages Pmm.malloc Pmm.malloc_loop Bitmap.alloc_bits
    Bitmap.alloc_loop Bitmap.scan Bitmap.get_bit Bitmap.set_bits Pmm.page_offset Pmm.read_desc
    Pmm.init_bitmap Pmm.store_desc Pmm.store_bitmap load store fill Bitmap.init
    Bitmap.bitmap_bit_size Bitmap.put_bit Bitmap.set_bit
too_many = refl

one_sizes : ((desc one 0).kind ≡ 1) × ((desc one 0).bitmap.bit_size ≡ 16)
unfolding Pmm.read_desc Pmm.init_bitmap Pmm.store_desc Pmm.store_bitmap load store fill Bitmap.init
    Bitmap.bitmap_bit_size
one_sizes = (refl, refl)

vmm_malloc-Restored_example : taken (vmm_malloc st 0x10001).1.pmm 0 3 ≡ taken one 0 3
vmm_malloc-Restored_example =
    (vmm_malloc-Restored st 0x10001 one-Settled (λ e. omega (arith, e)) too_many 0 3
      (omega arith, one_sizes.0) (omega (arith, one_sizes))).1

alloc_pages-Outcome_example : Outcome one 3 (alloc_pages 3 one [])
alloc_pages-Outcome_example = alloc_pages-Outcome one-Settled 3

-- Two records of a page each, of addresses that are mapped to nothing.
abbrev record_mem : Memory
record_mem =
    store (store (store (store (λ _. 0) 0 8 0xFFFF800000001000) 8 8 0x1000) 16 8 0xFFFF800000002000)
      24 8 0x1000

abbrev two_records : VmmState
two_records = record {
  pmm = record { mem = record_mem; base = 0x1000; num = 0 };
  cr3 = 0x10000;
  current = record {
    flag = 3;
    descriptor = 0xFFFF800000000000;
    desc = record { address = 0xFFFF800000003000; page_size = 2; bytes = 0x2000 };
    pml4 = 0x10000;
    alloc_record = 0;
    alloc_record_num = 2;
    is_user = false;
  };
  error_code = 0;
}

first_record :
    (record_address two_records 0 ≡ 0xFFFF800000001000) × (record_size two_records 0 ≡ 0x1000)
unfolding load store
first_record = (refl, refl)

one_left : (free_record two_records 0).current.alloc_record_num ≡ 1
unfolding vmm_free first_record
one_left = refl

two-IsAccepted : IsAccepted 2 two_records 0
two-IsAccepted lt = (
  (λ e. omega (arith, e, first_record)),
  (λ e. omega (arith, e, first_record)),
  rw first_record.0 refl,
  λ lt'. absurd (omega (arith, one_left, lt')),
)

release_records-half_example :
    (release_records 2 two_records 0 ≡ free_records 1 two_records 0)
    × ((release_records 2 two_records 0).current.alloc_record_num ≡ 1)
release_records-half_example = release_records-half two_records 2 refl (omega arith) two-IsAccepted
