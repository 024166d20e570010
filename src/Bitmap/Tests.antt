-- ===== src/Bitmap/Tests.antt =====
-- The theorems on bitmaps at inputs that meet their hypotheses.
use os.Base.{ℕ, zero, suc, ◌+◌, ◌<◌, ◌≡◌, refl, true, false, some, arith}
use os.Base.Memory.{Memory, IsBytes, store8}
use os.Bitmap.{Bitmap, get_bit, set_bits, scan, alloc_loop, alloc_bits}
use os.Bitmap.Bits.{set_bits_undo}
use os.Bitmap.First.{FirstFree, alloc_bits-FirstFree}
use os.Bitmap.Defects.{alloc_bits-takes_used_bit}

-- Twelve bits at address 100: bits 0, 1, 3 and 9 are taken.
abbrev bytes : Memory
bytes = store8 (store8 (λ _. 0) 100 11) 101 2

abbrev twelve : Bitmap
twelve = record { bit_size = 12; bits = 100 }

bytes-IsBytes : IsBytes bytes
bytes-IsBytes a = ground arith

first_free : (alloc_bits bytes twelve false 1).0 ≡ some 2
unfolding alloc_bits alloc_loop scan get_bit
first_free = refl

-- Bits 2 and 3 for a run of two free bits, though bit 3 is taken.
run_of_two : (alloc_bits bytes twelve false 2).0 ≡ some 2
unfolding alloc_bits alloc_loop scan get_bit
run_of_two = refl

-- No run of four free bits in front of bit 4; and bits 4 to 8 are five.
run_of_five : (alloc_bits bytes twelve false 5).0 ≡ some 4
unfolding alloc_bits alloc_loop scan get_bit
run_of_five = refl

set_bits_undo_example : set_bits (set_bits bytes twelve 2 1 true) twelve 2 1 false 100 ≡ bytes 100
set_bits_undo_example = set_bits_undo bytes twelve 2 100 bytes-IsBytes (omega arith) bit_two
  where
    bit_two : get_bit bytes twelve 2 ≡ false
    bit_two = unfold get_bit in refl

alloc_bits-FirstFree_example : FirstFree bytes twelve (alloc_bits bytes twelve false 1)
alloc_bits-FirstFree_example = alloc_bits-FirstFree bytes twelve bytes-IsBytes

-- Bit 0 free and bit 1 taken.
abbrev second_used : Memory
second_used = store8 (λ _. 0) 100 2

alloc_bits-takes_used_bit_example :
    alloc_bits second_used twelve false 2 ≡ (some 0, set_bits second_used twelve 0 2 true)
alloc_bits-takes_used_bit_example =
    alloc_bits-takes_used_bit second_used twelve 0 (omega arith) free used
  where
    free : (j : ℕ) → j < 0 + 1 → get_bit second_used twelve j ≡ false
    free zero p = unfold get_bit in refl
    free (suc j) p = absurd (omega arith)

    used : get_bit second_used twelve (0 + 1) ≡ true
    used = unfold get_bit in refl

abbrev all_free : Memory
all_free a = 0
