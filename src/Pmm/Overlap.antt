-- ===== src/Pmm/Overlap.antt =====
-- Init_Physical_Memory_Manager puts a bitmap where the next descriptor goes.
use os.Base.{ℕ, zero, suc, ◌+◌, ◌^◌, ◌<◌, ◌≡◌, refl, ◌≢◌, true, false, arith, ◌∙◌, ==_ne, subst}
use os.Base.Memory.{Memory, IsBytes, load, load-store, load_ext}
use os.Bitmap
use os.Bitmap.{Bitmap, get_bit, put_bit, set_bits}
use os.Pmm.Table.{desc, Available, mark}
use os.Pmm.Malloc.{taken, Answer, exhausted, granted, malloc-Answer}
use os.MemoryMap.{MemoryMap, UefiDescriptor, is_memory_available}
use os.Pmm.{
  Pmm, read_desc, desc_at, desc_size, os_available_memory, init_round, init_bitmap, store_desc,
  store_bitmap, starts_new, malloc,
}

-- The bitmap of a descriptor that BitmapInit has just set up starts right behind the descriptor.
bits-init_bitmap :
    (m : Memory) (a pages : ℕ)
    → a + desc_size < 2 ^ 64
    → (read_desc (init_bitmap m a pages) a).bitmap.bits ≡ a + desc_size
unfolding read_desc init_bitmap store_bitmap Bitmap.init
bits-init_bitmap m a pages h = load-store _ (a + 40) 8 (a + desc_size) (omega arith)

-- A round that starts a new available descriptor puts its bitmap at the place of the next descriptor
-- of the table.
pub init_round-bitmap_on_next :
    (map : MemoryMap) (s : Pmm) (edc : UefiDescriptor)
    → edc.physical_start ≢ 0
    → is_memory_available map edc ≡ true
    → starts_new s edc os_available_memory ≡ true
    → desc_at s.base (s.num + 1) < 2 ^ 64
    → let s' = init_round map s edc in
      (s'.num ≡ s.num + 1)
      × ((read_desc s'.mem (desc_at s.base s.num)).bitmap.bits ≡ desc_at s'.base s'.num)
unfolding init_round
init_round-bitmap_on_next map s edc nonzero avail new fits =
    rw (==_ne edc.physical_start 0 nonzero, avail, new)
      (
        refl,
        bits-init_bitmap (store_desc s.mem (desc_at s.base s.num) edc os_available_memory)
              (desc_at s.base s.num) edc.number_of_pages (omega arith)
            ∙ omega arith,
      )

-- The bits of a bitmap that lies on a descriptor whose type is OS_AVAILABLE_MEMORY: the first is
-- set, the next is not, and taking that one changes the type to 3.
module _ (m : Memory) (bm : Bitmap) (bytes : IsBytes m)
    (kind : load m bm.bits 4 ≡ os_available_memory) where
  low_byte : m bm.bits ≡ 1
  low_byte = unfold load in omega (arith, bytes bm.bits)

  bit_zero : get_bit m bm 0 ≡ true
  bit_zero = unfold get_bit in ground (arith, low_byte)

  bit_one : get_bit m bm 1 ≡ false
  bit_one = unfold get_bit in ground (arith, low_byte)

  kind_after : 1 < bm.bit_size → load (set_bits m bm 1 1 true) bm.bits 4 ≡ 3
  kind_after some_bits =
      unfold load set_bits put_bit in ground (arith, low_byte, bytes (bm.bits), kind, rest)
    where
      rest : load (set_bits m bm 1 1 true) (bm.bits + 1) 3 ≡ load m (bm.bits + 1) 3
      rest =
          load_ext m (set_bits m bm 1 1 true) (bm.bits + 1) 3
            (λ x p q. unfold set_bits put_bit in ground arith)

-- The first descriptor's bitmap lies on the second descriptor, and both are available.
record Overlapping (s : Pmm) : Type 0 where
  bytes : IsBytes s.mem
  one : Available s 0
  two : Available s 1
  on : (desc s 0).bitmap.bits ≡ desc_at s.base 1
  some_bits : 1 < (desc s 0).bitmap.bit_size

module _ {s : Pmm} (o : Overlapping s) where
  kind_two : load s.mem (desc s 0).bitmap.bits 4 ≡ os_available_memory
  kind_two = rw o.on (unfold read_desc in o.two.1)

  page_zero : taken s 0 0 ≡ true
  page_zero = bit_zero s.mem (desc s 0).bitmap o.bytes kind_two

  page_one : taken s 0 1 ≡ false
  page_one = bit_one s.mem (desc s 0).bitmap o.bytes kind_two

  kind_three : (desc (mark s 0 1 1 true) 1).kind ≡ 3
  unfolding read_desc
  kind_three =
      subst (λ a. load (mark s 0 1 1 true).mem a 4 ≡ 3) o.on
        (kind_after s.mem (desc s 0).bitmap o.bytes kind_two o.some_bits)

  Disabled_of : {out : ℕ × Pmm} → Answer s 0 s.num out → (desc out.1 1).kind ≡ 3
  Disabled_of (exhausted full) =
      let all_taken : taken s 0 1 ≡ true = full 0 1 (omega arith) o.one.0 o.one.1 o.some_bits in
      cc page_one
  Disabled_of (granted zero zero g) = cc (page_zero, g.was_free)
  Disabled_of (granted zero (suc zero) g) = kind_three
  Disabled_of (granted zero (suc (suc p)) g) = cc (page_one, g.first 1 (omega arith))
  Disabled_of (granted (suc k) p g) =
      cc (page_one, g.earlier 0 1 (omega arith) (omega arith) o.one.1 o.some_bits)

-- Where the first descriptor's bitmap lies on the second descriptor, as the initialisation puts it,
-- and both are available, Pmm_Malloc(1) changes the type of the second descriptor to 3, which is no
-- memory type: its pages are lost.
pub malloc-disables_next :
    (s : Pmm)
    → IsBytes s.mem
    → Available s 0
    → Available s 1
    → (desc s 0).bitmap.bits ≡ desc_at s.base 1
    → 1 < (desc s 0).bitmap.bit_size
    → (desc (malloc s 1).1 1).kind ≡ 3
malloc-disables_next s bytes one two on some_bits =
    Disabled_of (record { bytes = bytes; one = one; two = two; on = on; some_bits = some_bits })
      (malloc-Answer s bytes)
