-- ===== src/Bitmap/First.antt =====
-- BitmapAllocBits finds the first run, and the rounds that the model gives it are enough.
use os.Base.{
  ℕ, zero, suc, ◌+◌, ◌-◌, ◌≤◌, ◌<◌, ◌≡◌, refl, ◌≢◌, Bool, true, false, Option, none, some, ltb,
  ◌==◌, same, if◌then◌else◌, arith, Bool-cases, ltb→lt, inl, inr, sym,
}
use os.Base.Memory.{Memory, IsBytes}
use os.Bitmap.{Bitmap, get_bit, set_bits, scan, alloc_loop, alloc_bits}
use os.Bitmap.Bits.{get_bit-set_bits}
use os.Bitmap.Alloc.{Allocated, scan-Scanned, short, broken, alloc_end, alloc_loop-Allocated}

module _ (m : Memory) (bm : Bitmap) (value : Bool) where
  -- All `size` bits from `r` on are in the bitmap and have the value.
  abbrev pub IsRun : ℕ → ℕ → Type 0
  IsRun size r =
      (r + size ≤ bm.bit_size) × ((j : ℕ) → r ≤ j → j < r + size → get_bit m bm j ≡ value)

  abbrev FoundBy : ℕ → Option ℕ × Memory → Type 0
  FoundBy r out = (k : ℕ) × (out.0 ≡ some k) × (k ≤ r)

  module _ (size : ℕ) (pos : 1 ≤ size) where
    alloc_loop-FoundBy :
        (f sidx r : ℕ)
        → bm.bit_size ≤ sidx + f
        → sidx ≤ r
        → IsRun size r
        → FoundBy r (alloc_loop m bm value size f sidx none)
    unfolding alloc_loop
    alloc_loop-FoundBy zero sidx r h le (fits, run) = absurd (omega arith)
    alloc_loop-FoundBy (suc f) sidx r h le (fits, run) = elim (Bool-cases (ltb sidx bm.bit_size)) [
      | inr off ↦ absurd (ground arith)
      | inl on ↦ elim (Bool-cases (same (get_bit m bm sidx) value)) [
        | inr other ↦
            let ne : sidx ≢ r = λ e. ground (arith, run sidx) in
            rw (on, other)
              (alloc_loop-FoundBy f (sidx + 1) r (omega arith) (omega arith) (fits, run))
        | inl hit ↦
            let lt : sidx < bm.bit_size = ltb→lt sidx bm.bit_size on in
            let s = scan m bm value (size - 1) sidx in
            let sc = scan-Scanned m bm value (size - 1) sidx in
            elim (Bool-cases ((scan m bm value (size - 1) sidx).left == 0)) [
              | inl full ↦ rw (on, hit, full) (sidx, refl, le)
              | inr part ↦ elim (Bool-cases (scan m bm value (size - 1) sidx).kept) [
                | inl kept ↦
                    let w = short m bm value size pos sidx lt sc part kept in
                    rw (on, hit, part, kept, alloc_end m bm value size f s.sidx (some sidx) w.off)
                      (sidx, refl, le)
                | inr lost ↦
                    let w = broken m bm value size pos sidx lt sc part lost in
                    let before : s.sidx ≤ r =
                      ground (arith, run (s.sidx - 1), w.miss, w.moved, w.near) in
                    rw (on, hit, part, lost)
                      (alloc_loop-FoundBy f s.sidx r (omega (arith, w.moved)) before (fits, run))
              ]
            ]
      ]
    ]

  alloc_loop-fuel :
      (size f g sidx : ℕ) (ridx : Option ℕ)
      → 1 ≤ size
      → bm.bit_size ≤ sidx + f
      → bm.bit_size ≤ sidx + g
      → alloc_loop m bm value size f sidx ridx ≡ alloc_loop m bm value size g sidx ridx
  unfolding alloc_loop
  alloc_loop-fuel size zero g sidx ridx pos p q =
      sym (alloc_end m bm value size g sidx ridx (omega arith))
  alloc_loop-fuel size (suc f) zero sidx ridx pos p q =
      alloc_end m bm value size (suc f) sidx ridx (omega arith)
  alloc_loop-fuel size (suc f) (suc g) sidx ridx pos p q = ground (
    arith,
    alloc_loop-fuel size f g (sidx + 1) ridx,
    alloc_loop-fuel size f g (scan m bm value (size - 1) sidx).sidx (some sidx),
    alloc_loop-fuel size f g (scan m bm value (size - 1) sidx).sidx none,
    (scan-Scanned m bm value (size - 1) sidx).moved,
    (scan-Scanned m bm value (size - 1) sidx).stop,
  )

  -- The rounds of BitmapAllocBits are enough: more of them give the same result.
  pub alloc_bits-fuel :
      (size f : ℕ)
      → 1 ≤ size
      → bm.bit_size ≤ f
      → alloc_loop m bm value size f 0 none ≡ alloc_bits m bm value size
  unfolding alloc_bits
  alloc_bits-fuel size f pos h =
      alloc_loop-fuel size f bm.bit_size 0 none pos (omega arith) (omega arith)

  -- A call with a size of at least 1 does what `Allocated` says: with -1 nothing is written; with an
  -- index, the bits looked at have the value, and they are set if the run fits.
  pub alloc_bits-Allocated :
      (size : ℕ) → 1 ≤ size → Allocated m bm value size 0 (alloc_bits m bm value size)
  unfolding alloc_bits
  alloc_bits-Allocated size pos =
      alloc_loop-Allocated m bm value size pos bm.bit_size 0 (omega arith)

  -- If the bitmap holds a run of `size` bits with the value, BitmapAllocBits returns an index, and
  -- none behind the first such run.
  pub alloc_bits_complete :
      (size r : ℕ)
      → 1 ≤ size
      → IsRun size r
      → (k : ℕ) × ((alloc_bits m bm value size).0 ≡ some k) × (k ≤ r)
  unfolding alloc_bits
  alloc_bits_complete size r pos is =
      alloc_loop-FoundBy size pos bm.bit_size 0 r (omega arith) (omega arith) is

-- What a request for one free bit promises.
abbrev pub FirstFree : Memory → Bitmap → Option ℕ × Memory → Type 0
FirstFree m bm (none, m') = ((j : ℕ) → j < bm.bit_size → get_bit m bm j ≡ true) × (m' ≡ m)
FirstFree m bm (some r, m') =
    (r < bm.bit_size)
    × (get_bit m bm r ≡ false)
    × ((j : ℕ) → j < r → get_bit m bm j ≡ true)
    × (m' ≡ set_bits m bm r 1 true)
    × ((j : ℕ) → get_bit m' bm j ≡ (if j == r then true else get_bit m bm j))

one_free :
    (m : Memory) (bm : Bitmap) (j : ℕ)
    → j < bm.bit_size
    → get_bit m bm j ≡ false
    → IsRun m bm false 1 j
one_free m bm j lt free = (omega arith, λ i p q. let e : i ≡ j = omega arith in rw e free)

FirstFree-of :
    (m : Memory) (bm : Bitmap) (out : Option ℕ × Memory)
    → IsBytes m
    → Allocated m bm false 1 0 out
    → ((r : ℕ) → IsRun m bm false 1 r → (k : ℕ) × (out.0 ≡ some k) × (k ≤ r))
    → FirstFree m bm out
FirstFree-of m bm (none, m') bytes e first = (
  λ j lt. elim (Bool-cases (get_bit m bm j)) [
    | inl taken ↦ taken
    | inr open_bit ↦ cc ((first j (one_free m bm j lt open_bit)).1)
  ],
  e,
)
FirstFree-of m bm (some r, m') bytes (le, lt, free, run, e) first =
    let set_one : m' ≡ set_bits m bm r 1 true = ground (arith, e) in
    (
      lt,
      free,
      λ j p. elim (Bool-cases (get_bit m bm j)) [
        | inl taken ↦ taken
        | inr open_bit ↦
            let found = first j (one_free m bm j (omega arith) open_bit) in
            absurd (ground (arith, found.1, found.2))
      ],
      set_one,
      λ j. rw set_one (ground (arith, get_bit-set_bits 1 m bm r true j bytes)),
    )

-- A request for one free bit takes the lowest free bit, sets it and no other, and fails, with no
-- change, only if every bit is taken.
pub alloc_bits-FirstFree :
    (m : Memory) (bm : Bitmap) → IsBytes m → FirstFree m bm (alloc_bits m bm false 1)
alloc_bits-FirstFree m bm bytes =
    FirstFree-of m bm (alloc_bits m bm false 1) bytes
      (alloc_bits-Allocated m bm false 1 (omega arith))
      (λ r is. alloc_bits_complete m bm false 1 r (omega arith) is)
