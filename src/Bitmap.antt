-- ===== src/Bitmap.antt =====
-- Kernel/mm/bitmap.c: a bitmap over bytes in memory.
-- Counters of type `int` and `uint32_t` are plain numbers here: they stay below `bit_size`, and the
-- model reads as the code where `bit_size` is below 2 ^ 31. `none` is the -1 of BitmapAllocBits.
pub mod Bits
pub mod Alloc
pub mod First
pub mod Defects
mod Tests
use os.Base.{
  ℕ, zero, suc, ◌+◌, ◌-◌, ◌/◌, ◌%◌, Bool, true, false, Option, none, some, ltb, ◌==◌, same,
  if◌then◌else◌, u32, ◌<<<◌, ◌>>>◌, bit_and, bit_or,
}
use os.Base.Memory.{Memory, store8, fill}

-- bitmap_t: `bits` is an address.
pub record Bitmap : Type 0 where
  pub bit_size : ℕ
  pub bits : ℕ

-- BitmapBitSize
unfoldable pub bitmap_bit_size : ℕ → ℕ
bitmap_bit_size bit_size = u32 (bit_size + 8 - 1) / 8

-- BitmapGetBit
unfoldable pub get_bit : Memory → Bitmap → ℕ → Bool
get_bit m bm index = (m (bm.bits + index / 8) >>> (index % 8)) % 2 == 1

-- The new value of the byte that holds a bit; `~` keeps the low 8 bits.
unfoldable pub put_bit : ℕ → ℕ → Bool → ℕ
put_bit byte k value = if value then bit_or byte (1 <<< k) else bit_and byte (255 - (1 <<< k))

unfoldable pub set_bit : Memory → Bitmap → ℕ → Bool → Memory
set_bit m bm index value =
    let a = bm.bits + index / 8 in store8 m a (put_bit (m a) (index % 8) value)

-- BitmapSetBits: the loop runs `size` rounds at most and stops at the end of the bitmap.
unfoldable pub set_bits : Memory → Bitmap → ℕ → ℕ → Bool → Memory
unfolding set_bit
set_bits m bm index zero value = m
set_bits m bm index (suc n) value =
    let rest = set_bits (set_bit m bm index value) bm (index + 1) n value in
    if ltb index bm.bit_size then rest else m

-- BitmapInit
unfoldable pub init : Memory → ℕ → ℕ → Bool → Memory × Bitmap
init m bits bit_size value =
    let bytes = bitmap_bit_size bit_size in
    (fill m bits (if value then 0xff else 0) bytes, record { bit_size = bit_size; bits = bits })

-- How the inner loop of BitmapAllocBits ends: the rounds left (`size - i`), `sidx`, and whether
-- `ridx` was kept.
pub record Scan : Type 0 where
  pub left : ℕ
  pub sidx : ℕ
  pub kept : Bool

module _ (m : Memory) (bm : Bitmap) (value : Bool) where
  unfoldable pub scan : ℕ → ℕ → Scan
  scan zero sidx = record { left = 0; sidx = sidx; kept = true }
  scan (suc left) sidx =
      let rest = scan left (sidx + 1) in
      if ltb sidx bm.bit_size
      then (if same (get_bit m bm sidx) value
          then rest
          else record { left = suc left; sidx = sidx + 1; kept = false })
      else record { left = suc left; sidx = sidx; kept = true }

  -- The outer loop. Each round moves `sidx` on, so that `bit_size - sidx` rounds are enough, and
  -- with none left the loop's test has failed.
  unfoldable pub alloc_loop : ℕ → ℕ → ℕ → Option ℕ → Option ℕ × Memory
  alloc_loop size zero sidx ridx = (ridx, m)
  alloc_loop size (suc f) sidx ridx =
      let skip = alloc_loop size f (sidx + 1) ridx in
      let run = scan (size - 1) sidx in
      let again = alloc_loop size f run.sidx (if run.kept then some sidx else none) in
      if ltb sidx bm.bit_size
      then (if same (get_bit m bm sidx) value
          then (if run.left == 0 then (some sidx, set_bits m bm sidx size true) else again)
          else skip)
      else (ridx, m)

-- BitmapAllocBits
unfoldable pub alloc_bits : Memory → Bitmap → Bool → ℕ → Option ℕ × Memory
alloc_bits m bm value size = alloc_loop m bm value size bm.bit_size 0 none
