-- ===== src/Bitmap/Defects.antt =====
-- Where BitmapAllocBits does not keep what its callers rely on.
use os.Base.{ℕ, zero, suc, ◌+◌, ◌-◌, ◌≤◌, ◌<◌, ◌≡◌, true, false, none, some, arith, sym, ◌∙◌}
use os.Base.Memory.{Memory}
use os.Bitmap.{Bitmap, get_bit, set_bits, scan, alloc_loop, alloc_bits}
use os.Bitmap.Alloc.{alloc_end}
use os.Bitmap.First.{alloc_bits-fuel}

module _ (m : Memory) (bm : Bitmap) where
  -- The inner loop looks at `left` bits from `sidx` on and accepts them.
  scan_accepts :
      (left sidx : ℕ)
      → sidx + left ≤ bm.bit_size
      → ((j : ℕ) → sidx ≤ j → j < sidx + left → get_bit m bm j ≡ false)
      → scan m bm false left sidx ≡ record { left = 0; sidx = sidx + left; kept = true }
  unfolding scan
  scan_accepts zero sidx h free = ground arith
  scan_accepts (suc left) sidx h free = ground (
    arith,
    free sidx,
    scan_accepts left (sidx + 1) (omega arith) (λ j p q. free j (omega arith) (omega arith)),
  )

  -- The inner loop runs off the end of a bitmap whose bits are all free, and keeps `ridx`.
  scan_runs_off :
      (left sidx : ℕ)
      → sidx ≤ bm.bit_size
      → bm.bit_size < sidx + left
      → ((j : ℕ) → j < bm.bit_size → get_bit m bm j ≡ false)
      → let s = scan m bm false left sidx in
        (s.kept ≡ true) × (s.left ≡ sidx + left - bm.bit_size) × (s.sidx ≡ bm.bit_size)
  unfolding scan
  scan_runs_off zero sidx le h free = absurd (omega arith)
  scan_runs_off (suc left) sidx le h free = ground (arith, free sidx, scan_runs_off left (sidx + 1))

  -- A request for `n + 2` bits succeeds at bit 0 when the first `n + 1` bits are free and the last
  -- bit of the run is taken: that bit is handed out a second time.
  pub alloc_bits-takes_used_bit :
      (n : ℕ)
      → n + 1 < bm.bit_size
      → ((j : ℕ) → j < n + 1 → get_bit m bm j ≡ false)
      → get_bit m bm (n + 1) ≡ true
      → alloc_bits m bm false (n + 2) ≡ (some 0, set_bits m bm 0 (n + 2) true)
  alloc_bits-takes_used_bit n lt free used =
      sym (alloc_bits-fuel m bm false (n + 2) (suc bm.bit_size) (omega arith) (omega arith))
      ∙ first_round
    where
      first_round :
          alloc_loop m bm false (n + 2) (suc bm.bit_size) 0 none
          ≡ (some 0, set_bits m bm 0 (n + 2) true)
      first_round =
          unfold alloc_loop in
          ground (
            arith,
            free 0,
            scan_accepts (n + 2 - 1) 0 (omega arith) (λ j p q. free j (omega arith)),
          )

  -- A request for more than `bit_size + 1` bits of a bitmap whose bits are all free returns index 0
  -- and marks nothing.
  pub alloc_bits-too_long :
      (size : ℕ)
      → 0 < bm.bit_size
      → bm.bit_size + 1 < size
      → ((j : ℕ) → j < bm.bit_size → get_bit m bm j ≡ false)
      → alloc_bits m bm false size ≡ (some 0, m)
  alloc_bits-too_long size some_bits long free =
      sym (alloc_bits-fuel m bm false size (suc bm.bit_size) (omega arith) (omega arith))
      ∙ first_round
    where
      ran :
          let s = scan m bm false (size - 1) 0 in
          (s.kept ≡ true) × (s.left ≡ 0 + (size - 1) - bm.bit_size) × (s.sidx ≡ bm.bit_size)
      ran = scan_runs_off (size - 1) 0 (omega arith) (omega arith) free

      first_round : alloc_loop m bm false size (suc bm.bit_size) 0 none ≡ (some 0, m)
      first_round =
          unfold alloc_loop in
          ground (
            arith,
            free 0,
            ran,
            alloc_end m bm false size bm.bit_size (scan m bm false (size - 1) 0).sidx (some 0),
          )
