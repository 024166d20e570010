-- ===== src/MemoryMap/Tests.antt =====
-- The theorem on the largest block at a map of two descriptors.
use os.Base.{◌≡◌, refl}
use os.Base.Memory.{Memory, store, load}
use os.MemoryMap.{
  MemoryMap, max_descriptors, uefi_descriptor, largest_loop, find_largest_available_block,
}

abbrev two_blocks : MemoryMap
two_blocks = record {
  map_size = 96;
  descriptor_size = 48;
  descriptor_version = 1;
  stack_addr = 7;
  buffer = 1000;
  os_desc_addr = 5000;
}

-- Conventional blocks of 3 and of 9 pages.
abbrev firmware : Memory
firmware = store (store (store (store (λ _. 0) 1000 4 7) 1024 8 3) 1048 4 7) 1072 8 9

second_is_largest : find_largest_available_block firmware two_blocks ≡ 1048
unfolding find_largest_available_block largest_loop uefi_descriptor max_descriptors store load
second_is_largest = refl
