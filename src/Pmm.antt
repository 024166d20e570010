-- ===== src/Pmm.antt =====
-- Kernel/mm/pmm.c: the physical page allocator. Its table of descriptors and their bitmaps lie in
-- one memory, so that a bitmap that runs into the table is seen to change it.
-- The firmware's map is read at the start of each round: it does not overlap the table.
pub mod Table
pub mod Malloc
pub mod Free
pub mod Overlap
pub mod Tests
use os.Base.{
  ℕ, zero, suc, ◌+◌, ◌-◌, ◌*◌, ◌/◌, ◌^◌, Bool, true, false, Option, none, some, not, ◌&&◌, ◌||◌,
  ltb, leb, ◌==◌, if◌then◌else◌, u32, u64,
}
use os.Base.Memory.{Memory, load, store}
use os.Bitmap
use os.Bitmap.{Bitmap}
use os.MemoryMap.{
  MemoryMap, UefiDescriptor, uefi_descriptor, check_memory_map, is_memory_available,
  max_descriptors, analysis_memory_map,
}

abbrev pub page_size : ℕ
page_size = 4096

abbrev pub os_available_memory : ℕ
os_available_memory = 1

abbrev pub os_unavailable_memory : ℕ
os_unavailable_memory = 2

-- sizeof(OS_MEMORY_DESCRIPTOR)
abbrev pub desc_size : ℕ
desc_size = 48

-- OS_MEMORY_DESCRIPTOR
pub record Desc : Type 0 where
  pub kind : ℕ
  pub physical_start : ℕ
  pub address : ℕ
  pub pages : ℕ
  pub bitmap : Bitmap

-- `MemDescAddr[i]`, for the table at `base`
abbrev pub desc_at : ℕ → ℕ → ℕ
desc_at base i = base + desc_size * i

unfoldable pub read_desc : Memory → ℕ → Desc
read_desc m a = record {
  kind = load m a 4;
  physical_start = load m (a + 8) 8;
  address = load m (a + 16) 8;
  pages = load m (a + 24) 8;
  bitmap = record { bit_size = load m (a + 32) 4; bits = load m (a + 40) 8 };
}

-- The allocator's globals: MemDescAddr, MemDescNum and memory.
pub record Pmm : Type 0 where
  pub mem : Memory
  pub base : ℕ
  pub num : ℕ

unfoldable pub store_bitmap : Memory → ℕ → Bitmap → Memory
store_bitmap m a bm = store (store m (a + 32) 4 bm.bit_size) (a + 40) 8 bm.bits

-- BitmapInit of the bitmap of the descriptor at `a`, whose bytes are put right behind it.
unfoldable pub init_bitmap : Memory → ℕ → ℕ → Memory
init_bitmap m a pages =
    let (m', bm) = Bitmap.init m (a + desc_size) (u32 pages) false in store_bitmap m' a bm

-- The four assignments that start a new descriptor.
unfoldable pub store_desc : Memory → ℕ → UefiDescriptor → ℕ → Memory
store_desc m a edc kind =
    let m1 = store m (a + 8) 8 edc.physical_start in
    let m2 = store m1 (a + 16) 8 edc.virtual_start in
    let m3 = store m2 (a + 24) 8 edc.number_of_pages in store m3 a 4 kind

-- Does the descriptor start a new entry of the table?
unfoldable pub starts_new : Pmm → UefiDescriptor → ℕ → Bool
starts_new s edc kind =
    let last = read_desc s.mem (desc_at s.base (s.num - 1)) in
    (s.num == 0)
    || (not (last.kind == kind)
        || not (edc.physical_start == u64 (last.physical_start + last.pages * page_size)))

-- One round of Init_Physical_Memory_Manager.
unfoldable pub init_round : MemoryMap → Pmm → UefiDescriptor → Pmm
init_round map s edc =
    let new = desc_at s.base s.num in
    let last = desc_at s.base (s.num - 1) in
    let grown = u64 ((read_desc s.mem last).pages + edc.number_of_pages) in
    if edc.physical_start == 0
    then s
    else (if is_memory_available map edc
        then (if starts_new s edc os_available_memory
            then record s {
              mem =
                  init_bitmap (store_desc s.mem new edc os_available_memory) new
                    edc.number_of_pages;
              num = s.num + 1;
            }
            else record s { mem = init_bitmap (store s.mem (last + 24) 8 grown) last grown })
        else (if starts_new s edc os_unavailable_memory
            then record s { mem = store_desc s.mem new edc os_unavailable_memory; num = s.num + 1 }
            else record s { mem = store s.mem (last + 24) 8 grown }))

unfoldable pub init_loop : MemoryMap → ℕ → ℕ → Pmm → Pmm
init_loop map zero a s = s
init_loop map (suc left) a s =
    init_loop map left (a + 1)
      (init_round map s (uefi_descriptor s.mem (analysis_memory_map map a)))

-- Init_Physical_Memory_Manager: the status, and the state.
unfoldable pub init : MemoryMap → Pmm → ℕ × Pmm
init map s =
    if not (check_memory_map map == 0)
    then (1, s)
    else (if map.os_desc_addr == 0 then (2, record s { base = 0 }) else (
      0,
      init_loop map (max_descriptors map) 0 (record s { base = map.os_desc_addr; num = 0 }),
    ))

-- GetMemoryTotalSize, in KB
unfoldable pub total_loop : Pmm → ℕ → ℕ → ℕ → ℕ
total_loop s zero a size = size
total_loop s (suc left) a size =
    total_loop s left (a + 1) (u64 (size + (read_desc s.mem (desc_at s.base a)).pages * 4))

unfoldable pub get_memory_total_size : Pmm → ℕ
get_memory_total_size s = total_loop s s.num 0 0

-- `index << PAGE_SHIFT`: the shift is done in `int`, and its result is extended by its sign.
unfoldable pub page_offset : ℕ → ℕ
page_offset index =
    let x = u32 (index * page_size) in if ltb x (2 ^ 31) then x else 2 ^ 64 - 2 ^ 32 + x

-- The loop of Pmm_Malloc at index `i`, with `left` descriptors to go.
unfoldable pub malloc_loop : Pmm → ℕ → ℕ → ℕ → ℕ × Pmm
malloc_loop s pages zero i = (0, s)
malloc_loop s pages (suc left) i =
    let d = read_desc s.mem (desc_at s.base i) in
    let (start, m') = Bitmap.alloc_bits s.mem d.bitmap false pages in
    let rest = malloc_loop (record s { mem = m' }) pages left (i + 1) in
    let skip = malloc_loop s pages left (i + 1) in
    if d.kind == os_available_memory
    then elim start [
      | some index ↦ (u64 (d.physical_start + page_offset index), record s { mem = m' })
      | none ↦ rest
    ]
    else skip

-- Pmm_Malloc, for a number of pages that is not negative
unfoldable pub malloc : Pmm → ℕ → ℕ × Pmm
malloc s pages = malloc_loop s pages s.num 0

unfoldable pub free_loop : Pmm → ℕ → ℕ → ℕ → ℕ → Pmm
free_loop s target pages zero i = s
free_loop s target pages (suc left) i =
    let d = read_desc s.mem (desc_at s.base i) in
    let end_addr = u64 (d.physical_start + u64 (d.pages * page_size)) in
    let index = u32 ((target - d.physical_start) / page_size) in
    let rest = free_loop s target pages left (i + 1) in
    if (d.kind == os_available_memory) && (leb d.physical_start target && ltb target end_addr)
    then record s { mem = Bitmap.set_bits s.mem d.bitmap index pages false }
    else rest

-- Pmm_Free
unfoldable pub free : Pmm → ℕ → ℕ → Pmm
free s addr pages = free_loop s addr pages s.num 0
