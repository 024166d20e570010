-- ===== src/Bitmap/Bits.antt =====
-- What BitmapSetBits and BitmapInit leave in each bit.
use os.Base.{
  passes, passes_at, ℕ, zero, suc, ◌+◌, ◌-◌, ◌/◌, ◌%◌, ◌≤◌, ◌<◌, ◌^◌, ◌≡◌, refl, ◌⊎◌, Bool, true,
  false, not, ◌&&◌, ◌||◌, ltb, leb, ◌==◌, same, if◌then◌else◌, arith,
}
use os.Base.Memory.{Memory, IsBytes, fill_lem}
use os.Bitmap.{Bitmap, bitmap_bit_size, get_bit, put_bit, set_bit, set_bits, init}

abbrev bit : ℕ → ℕ → Bool
bit byte k = byte / 2 ^ k % 2 == 1

put_table : Bool → ℕ → ℕ → ℕ → Bool
unfolding put_bit
put_table v b k j =
    same (bit (put_bit b k v) j) (if j == k then v else bit b j) && ltb (put_bit b k v) 256

abbrev put_byte : Bool → ℕ → Bool
put_byte v b = passes (λ k. passes (put_table v b k) 8) 8

put_table_set : passes (put_byte true) 256 ≡ true
unfolding passes put_table
put_table_set = refl

put_table_clear : passes (put_byte false) 256 ≡ true
unfolding passes put_table
put_table_clear = refl

put_bit_lem :
    (v : Bool) (b k j : ℕ)
    → b < 256
    → k < 8
    → j < 8
    → (bit (put_bit b k v) j ≡ (if j == k then v else bit b j)) × (put_bit b k v < 256)
unfolding put_table
put_bit_lem v b k j hb hk hj = ground (arith, entry v)
  where
    row : (w : Bool) → passes (put_byte w) 256 ≡ true → put_table w b k j ≡ true
    row w t =
        passes_at (put_table w b k) 8 hj
          (passes_at (λ k. passes (put_table w b k) 8) 8 hk (passes_at (put_byte w) 256 hb t))

    entry : (w : Bool) → put_table w b k j ≡ true
    entry true = row true put_table_set
    entry false = row false put_table_clear

module _ (m : Memory) (bm : Bitmap) (bytes : IsBytes m) where
  pub get_bit-set_bit :
      (i j : ℕ) (v : Bool)
      → get_bit (set_bit m bm i v) bm j ≡ (if j == i then v else get_bit m bm j)
  unfolding get_bit set_bit
  get_bit-set_bit i j v =
      ground (arith, bytes (bm.bits + i / 8), put_bit_lem v (m (bm.bits + i / 8)) (i % 8) (j % 8))

  pub set_bit-IsBytes : (i : ℕ) (v : Bool) → IsBytes (set_bit m bm i v)
  unfolding set_bit
  set_bit-IsBytes i v x =
      ground
        (arith, bytes x, bytes (bm.bits + i / 8), put_bit_lem v (m (bm.bits + i / 8)) (i % 8) 0)

-- The bits that a call of BitmapSetBits reaches: from `index` on, `n` of them at most, inside the
-- bitmap.
abbrev pub reached : Bitmap → ℕ → ℕ → ℕ → Bool
reached bm index n j = leb index j && (ltb j (index + n) && ltb j bm.bit_size)

-- BitmapSetBits gives `value` to exactly the bits that it reaches, and keeps every other bit, those
-- behind the bitmap included.
pub get_bit-set_bits :
    (n : ℕ) (m : Memory) (bm : Bitmap) (index : ℕ) (value : Bool) (j : ℕ)
    → IsBytes m
    → get_bit (set_bits m bm index n value) bm j
      ≡ (if reached bm index n j then value else get_bit m bm j)
unfolding set_bits
get_bit-set_bits zero m bm index value j bytes = ground arith
get_bit-set_bits (suc n) m bm index value j bytes = ground (
  arith,
  get_bit-set_bits n (set_bit m bm index value) bm (index + 1) value j
      (set_bit-IsBytes m bm bytes index value),
  get_bit-set_bit m bm bytes index j value,
)

pub set_bits-IsBytes :
    (n : ℕ) (m : Memory) (bm : Bitmap) (index : ℕ) (value : Bool)
    → IsBytes m
    → IsBytes (set_bits m bm index n value)
unfolding set_bits
set_bits-IsBytes zero m bm index value bytes x = bytes x
set_bits-IsBytes (suc n) m bm index value bytes x = ground (
  arith,
  bytes x,
  set_bits-IsBytes n (set_bit m bm index value) bm (index + 1) value
      (set_bit-IsBytes m bm bytes index value) x,
)

-- BitmapSetBits writes nothing outside the bytes that hold the bitmap.
pub set_bits-outside :
    (n : ℕ) (m : Memory) (bm : Bitmap) (index : ℕ) (value : Bool) (x : ℕ)
    → (x < bm.bits) ⊎ (bm.bits + (bm.bit_size + 7) / 8 ≤ x)
    → set_bits m bm index n value x ≡ m x
unfolding set_bits set_bit
set_bits-outside zero m bm index value x away = refl
set_bits-outside (suc n) m bm index value x away =
    ground (arith, set_bits-outside n (set_bit m bm index value) bm (index + 1) value x)

abbrev full_test : ℕ → Bool
full_test j = bit 0xff j && not (bit 0 j)

full_byte : passes full_test 8 ≡ true
unfolding passes
full_byte = refl

-- BitmapInit gives `value` to every bit of the new bitmap.
pub get_bit-init :
    (m : Memory) (bits bit_size : ℕ) (value : Bool) (j : ℕ)
    → bit_size < 2 ^ 31
    → j < bit_size
    → let (m', bm) = init m bits bit_size value in get_bit m' bm j ≡ value
unfolding init get_bit bitmap_bit_size
get_bit-init m bits bit_size value j small inside = ground (
  arith,
  fill_lem m bits (if value then 0xff else 0) ((bit_size + 8 - 1) % 2 ^ 32 / 8) (bits + j / 8),
  passes_at full_test {k = j % 8} 8 (omega arith) full_byte,
)

abbrev undo_test : ℕ → ℕ → Bool
undo_test b k = bit b k || (put_bit (put_bit b k true) k false == b)

undo_table : passes (λ b. passes (undo_test b) 8) 256 ≡ true
unfolding passes put_bit
undo_table = refl

put_bit_undo :
    (b k : ℕ) → b < 256 → k < 8 → bit b k ≡ false → put_bit (put_bit b k true) k false ≡ b
put_bit_undo b k hb hk free = ground (
  arith,
  passes_at (undo_test b) 8 hk (passes_at (λ b. passes (undo_test b) 8) 256 hb undo_table),
)

-- Setting a free bit and clearing it again gives every byte back.
pub set_bits_undo :
    (m : Memory) (bm : Bitmap) (p x : ℕ)
    → IsBytes m
    → p < bm.bit_size
    → get_bit m bm p ≡ false
    → set_bits (set_bits m bm p 1 true) bm p 1 false x ≡ m x
unfolding set_bits set_bit get_bit
set_bits_undo m bm p x bytes lt free =
    ground (arith, bytes (bm.bits + p / 8), put_bit_undo (m (bm.bits + p / 8)) (p % 8))
