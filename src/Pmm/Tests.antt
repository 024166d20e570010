-- ===== src/Pmm/Tests.antt =====
-- The theorems on the page allocator at inputs that meet their hypotheses.
use os.Base.{ℕ, ◌+◌, ◌<◌, ◌≡◌, refl, ◌≢◌, inr, arith, u32}
use os.Base.Memory.{Memory, IsBytes, load, store, fill, store-IsBytes, fill-IsBytes}
use os.Bitmap
use os.Bitmap.{Bitmap}
use os.MemoryMap.{MemoryMap, UefiDescriptor, is_memory_available}
use os.Pmm.{
  Pmm, read_desc, store_desc, store_bitmap, init_bitmap, starts_new, init_round, malloc,
  malloc_loop, free, page_offset,
}
use os.Pmm.Table.{desc, InOrder}
use os.Pmm.Malloc.{FirstPage, malloc-FirstPage}
use os.Pmm.Free.{malloc-free, malloc-malloc-ne}
use os.Pmm.Overlap.{init_round-bitmap_on_next}

abbrev sixteen_pages : UefiDescriptor
sixteen_pages = record {
  kind = 7;
  physical_start = 0x100000;
  virtual_start = 0;
  number_of_pages = 16;
  attribute = 0;
}

abbrev firmware : MemoryMap
firmware = record {
  map_size = 40;
  descriptor_size = 40;
  descriptor_version = 1;
  stack_addr = 0x9000;
  buffer = 0x8000;
  os_desc_addr = 0x1000;
}

-- An empty table at 0x1000, and the table after one round of the initialisation.
abbrev empty : Pmm
empty = record { mem = λ _. 0; base = 0x1000; num = 0 }

abbrev pub one_mem : Memory
one_mem = init_bitmap (store_desc (λ _. 0) 0x1000 sixteen_pages 1) 0x1000 16

abbrev pub one : Pmm
one = record { mem = one_mem; base = 0x1000; num = 1 }

first_round : init_round firmware empty sixteen_pages ≡ one
unfolding init_round starts_new is_memory_available
first_round = refl

pub one-desc : desc one 0 ≡ record {
  kind = 1;
  physical_start = 0x100000;
  address = 0;
  pages = 16;
  bitmap = record { bit_size = 16; bits = 0x1030 };
}
unfolding read_desc init_bitmap store_desc store_bitmap load store fill Bitmap.init
    Bitmap.bitmap_bit_size
one-desc = refl

store_desc-IsBytes :
    (m : Memory) (a : ℕ) (edc : UefiDescriptor) (kind : ℕ)
    → IsBytes m
    → IsBytes (store_desc m a edc kind)
unfolding store_desc
store_desc-IsBytes m a edc kind h = store-IsBytes _ a 4 kind (
    store-IsBytes _ (a + 24) 8 edc.number_of_pages (
      store-IsBytes _ (a + 16) 8 edc.virtual_start
        (store-IsBytes _ (a + 8) 8 edc.physical_start h)))

init_bitmap-IsBytes : (m : Memory) (a pages : ℕ) → IsBytes m → IsBytes (init_bitmap m a pages)
unfolding init_bitmap store_bitmap Bitmap.init
init_bitmap-IsBytes m a pages h = store-IsBytes _ (a + 40) 8 (a + 48) (
    store-IsBytes _ (a + 32) 4 (u32 pages)
      (fill-IsBytes m (a + 48) 0 (Bitmap.bitmap_bit_size (u32 pages)) (omega arith) h))

pub one_mem-IsBytes : IsBytes one_mem
one_mem-IsBytes =
    init_bitmap-IsBytes _ 0x1000 16
      (store_desc-IsBytes (λ _. 0) 0x1000 sixteen_pages 1 (λ a. omega arith))

-- A table of one descriptor whose fields are those of `one-desc`.
module _ (s : Pmm) (num : s.num ≡ 1) (base : s.base ≡ 0x1000) (bytes : IsBytes s.mem)
    (fields : desc s 0 ≡ desc one 0) where
  pub only : (i : ℕ) → i < s.num → i ≡ 0
  only i lt = omega arith

  pub bounds :
      ((desc s 0).bitmap.bits ≡ 0x1030)
      × ((desc s 0).bitmap.bit_size ≡ 16)
      × ((desc s 0).pages ≡ 16)
      × ((desc s 0).physical_start ≡ 0x100000)
  bounds = rw (fields, one-desc) (refl, refl, refl, refl)

  one-InOrder : InOrder s
  one-InOrder = record {
    bytes = bytes;
    apart = λ i j av lt. rw (only i av.0, only j lt) (inr (omega (arith, bounds)));
    sized = λ i av. rw (only i av.0) (omega (arith, bounds));
    regions = λ i j av av' ne. absurd (ne (omega (arith, only i av.0, only j av'.0)));
  }

pub one_table : InOrder one
one_table = one-InOrder one refl refl one_mem-IsBytes refl

malloc-FirstPage_example : FirstPage one (malloc one 1)
malloc-FirstPage_example =
    malloc-FirstPage one one_mem-IsBytes (λ i lt av. omega (arith, (one_table.sized i (lt, av))))

malloc-one : (malloc one 1).0 ≡ 0x100000
unfolding malloc malloc_loop Bitmap.alloc_bits Bitmap.alloc_loop Bitmap.scan Bitmap.get_bit
    Bitmap.set_bits page_offset one-desc
malloc-one = refl

first_page : (malloc one 1).0 ≢ 0
first_page e = omega (arith, malloc-one)

malloc-free_example : (free (malloc one 1).1 (malloc one 1).0 1).mem 0x1030 ≡ one_mem 0x1030
malloc-free_example = malloc-free one_table first_page 0x1030

second_page : (malloc (malloc one 1).1 1).0 ≡ 0x101000
unfolding malloc-one Bitmap.put_bit
second_page = refl

malloc-malloc-ne_example : (malloc one 1).0 ≢ (malloc (malloc one 1).1 1).0
malloc-malloc-ne_example = malloc-malloc-ne one_table first_page (λ e. omega (arith, second_page))

init_round-bitmap_on_next_example :
    ((init_round firmware empty sixteen_pages).num ≡ 1)
    × ((read_desc (init_round firmware empty sixteen_pages).mem 0x1000).bitmap.bits ≡ 0x1030)
unfolding first_round
init_round-bitmap_on_next_example =
    init_round-bitmap_on_next firmware empty sixteen_pages (omega arith) refl refl (omega arith)

-- A second region, not next to the first.
abbrev four_pages : UefiDescriptor
four_pages = record {
  kind = 7;
  physical_start = 0x200000;
  virtual_start = 0;
  number_of_pages = 4;
  attribute = 0;
}

abbrev two : Pmm
two = record {
  mem = init_bitmap (store_desc one_mem 0x1030 four_pages 1) 0x1030 4;
  base = 0x1000;
  num = 2;
}

second_round : init_round firmware one four_pages ≡ two
unfolding first_round one-desc
second_round = refl

two-IsBytes : IsBytes two.mem
two-IsBytes =
    init_bitmap-IsBytes _ 0x1030 4 (store_desc-IsBytes one_mem 0x1030 four_pages 1 one_mem-IsBytes)

two-kinds :
    ((desc two 0).kind ≡ 1)
    × ((desc two 1).kind ≡ 1)
    × ((desc two 0).bitmap.bits ≡ 0x1030)
    × ((desc two 0).bitmap.bit_size ≡ 16)
unfolding one-desc
two-kinds = (refl, refl, refl, refl)
