-- ===== src/MemoryMap.antt =====
-- Kernel/mm/EfiMemDesc.c: the firmware's memory map. Its descriptors are read out of memory.
-- A pointer is a number, and NULL is 0. The printing functions are not modelled.
pub mod Largest
mod Tests
use os.Base.{
  ℕ, zero, suc, ◌+◌, ◌*◌, ◌/◌, Bool, true, false, ◌&&◌, ◌||◌, ltb, leb, ◌==◌, if◌then◌else◌, u32,
  u64,
}
use os.Base.Memory.{Memory, load}

-- UEFI_MEMORY_MAP
pub record MemoryMap : Type 0 where
  pub map_size : ℕ
  pub descriptor_size : ℕ
  pub descriptor_version : ℕ
  pub stack_addr : ℕ
  pub buffer : ℕ
  pub os_desc_addr : ℕ

-- UEFI_MEMORY_DESCRIPTOR, without its padding
pub record UefiDescriptor : Type 0 where
  pub kind : ℕ
  pub physical_start : ℕ
  pub virtual_start : ℕ
  pub number_of_pages : ℕ
  pub attribute : ℕ

unfoldable pub uefi_descriptor : Memory → ℕ → UefiDescriptor
uefi_descriptor m a = record {
  kind = load m a 4;
  physical_start = load m (a + 8) 8;
  virtual_start = load m (a + 16) 8;
  number_of_pages = load m (a + 24) 8;
  attribute = load m (a + 32) 8;
}

abbrev pub boot_services_code : ℕ
boot_services_code = 3

abbrev pub boot_services_data : ℕ
boot_services_data = 4

abbrev pub conventional_memory : ℕ
conventional_memory = 7

-- CheckMemoryMap: the number of fields that are missing
unfoldable pub check_memory_map : MemoryMap → ℕ
check_memory_map map =
    (if map.buffer == 0 then 1 else 0)
    + (if map.map_size == 0 then 1 else 0)
    + (if map.descriptor_size == 0 then 1 else 0)
    + (if map.descriptor_version == 0 then 1 else 0)
    + (if map.stack_addr == 0 then 1 else 0)

-- IsMemoryAvailable
unfoldable pub is_memory_available : MemoryMap → UefiDescriptor → Bool
is_memory_available map desc =
    if desc.physical_start == map.stack_addr
    then false
    else (desc.kind == conventional_memory)
      || ((desc.kind == boot_services_code) || (desc.kind == boot_services_data))

-- The number of descriptors, a `uint32_t` quotient.
unfoldable pub max_descriptors : MemoryMap → ℕ
max_descriptors map = u32 (map.map_size / map.descriptor_size)

-- AnalysisMemoryMap: the address of a descriptor, or NULL for an index out of bounds.
unfoldable pub analysis_memory_map : MemoryMap → ℕ → ℕ
analysis_memory_map map num =
    let addr = map.buffer + map.descriptor_size * num in
    if leb (max_descriptors map) num then 0 else addr

-- FindLargestAvailableBlock: the loop at index `i` with `left` descriptors to go, the size of the
-- largest block so far and its address.
unfoldable pub largest_loop : Memory → MemoryMap → ℕ → ℕ → ℕ → ℕ → ℕ
largest_loop m map zero i largest_size largest = largest
largest_loop m map (suc left) i largest_size largest =
    let a = map.buffer + i * map.descriptor_size in
    let desc = uefi_descriptor m a in
    let size = u64 (desc.number_of_pages * 4096) in
    let better = (desc.kind == conventional_memory) && ltb largest_size size in
    largest_loop m map left (i + 1) (if better then size else largest_size)
      (if better then a else largest)

unfoldable pub find_largest_available_block : Memory → MemoryMap → ℕ
find_largest_available_block m map = largest_loop m map (max_descriptors map) 0 0 0
