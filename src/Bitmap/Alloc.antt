-- ===== src/Bitmap/Alloc.antt =====
-- BitmapAllocBits: what its loops find, and that they end by their tests.
use os.Base.{
  ℕ, zero, suc, ◌+◌, ◌-◌, ◌≤◌, ◌<◌, ◌≡◌, refl, ◌≢◌, inl, inr, Bool, true, false, Option, none, some,
  ltb, ◌==◌, same, if◌then◌else◌, arith, Bool-cases, leb, le→ltb, ltb→lt,
}
use os.Base.Memory.{Memory}
use os.Bitmap.{Bitmap, get_bit, set_bits, Scan, scan, alloc_loop}

module _ (m : Memory) (bm : Bitmap) (value : Bool) where
  -- What the inner loop has seen when it stops.
  pub record Scanned (left sidx : ℕ) (s : Scan) : Type 0 where
    pub run : (j : ℕ) → sidx ≤ j → j + (if s.kept then 0 else 1) < s.sidx → get_bit m bm j ≡ value
    pub count : s.sidx + s.left ≡ sidx + left + (if s.kept then 0 else 1)
    pub inside : sidx ≤ bm.bit_size → s.sidx ≤ bm.bit_size
    pub moved : sidx + (if s.kept then 0 else 1) ≤ s.sidx
    pub stop : s.left ≢ 0 → s.kept ≡ true → bm.bit_size ≤ s.sidx
    pub miss : s.kept ≡ false → (s.left ≢ 0) × (get_bit m bm (s.sidx - 1) ≢ value)

  -- One more round in front of a scan.
  scan_on :
      (left sidx : ℕ) {s : Scan}
      → get_bit m bm sidx ≡ value
      → ltb sidx bm.bit_size ≡ true
      → Scanned left (sidx + 1) s
      → Scanned (suc left) sidx s
  scan_on left sidx {s} hit on rest = record {
    run = λ j p q. elim (Bool-cases (j == sidx)) [
      | inl e ↦ ground arith
      | inr ne ↦ rest.run j (ground arith) q
    ];
    count = omega (arith, rest.count);
    inside = λ h. rest.inside (ground arith);
    moved = omega (arith, rest.moved);
    stop = rest.stop;
    miss = rest.miss;
  }

  pub scan-Scanned : (left sidx : ℕ) → Scanned left sidx (scan m bm value left sidx)
  unfolding scan
  scan-Scanned zero sidx = record {
    run = λ j p q. absurd (omega arith);
    count = omega arith;
    inside = λ h. h;
    moved = omega arith;
    stop = λ h. absurd (h refl);
    miss = λ h. cc;
  }
  scan-Scanned (suc left) sidx = elim (Bool-cases (ltb sidx bm.bit_size)) [
    | inr off ↦ rw off (record {
      run = λ j p q. absurd (omega arith);
      count = omega arith;
      inside = λ h. h;
      moved = omega arith;
      stop = λ h k. ground arith;
      miss = λ h. cc;
    })
    | inl on ↦ elim (Bool-cases (same (get_bit m bm sidx) value)) [
      | inr other ↦
          rw (on, other)
            (record {
              run = λ j p q. absurd (omega arith);
              count = omega arith;
              inside = λ h. ground arith;
              moved = omega arith;
              stop = λ h k. cc;
              miss = λ h. (omega arith, ground arith);
            })
      | inl hit ↦ rw (on, hit) (scan_on left sidx (ground arith) on (scan-Scanned left (sidx + 1)))
    ]
  ]

  -- The result of BitmapAllocBits for `size` bits, started at `sidx`. With -1 nothing was written.
  -- With an index `r`, the bits from `r` on have the value looked for, but for the last of the
  -- `size`; if those fit into the bitmap they have been set, and if not nothing was written.
  abbrev pub Allocated : ℕ → ℕ → Option ℕ × Memory → Type 0
  Allocated size sidx (none, m') = m' ≡ m
  Allocated size sidx (some r, m') =
      (sidx ≤ r)
      × (r < bm.bit_size)
      × (get_bit m bm r ≡ value)
      × ((j : ℕ) → r ≤ j → j < bm.bit_size → j + 1 < r + size → get_bit m bm j ≡ value)
      × (m' ≡ (if leb (r + size) (bm.bit_size + 1) then set_bits m bm r size true else m))

  pub alloc_end :
      (size f sidx : ℕ) (ridx : Option ℕ)
      → bm.bit_size ≤ sidx
      → alloc_loop m bm value size f sidx ridx ≡ (ridx, m)
  unfolding alloc_loop
  alloc_end size zero sidx ridx h = refl
  alloc_end size (suc f) sidx ridx h = rw (le→ltb sidx bm.bit_size h)

  Allocated-from :
      (size a b : ℕ) (out : Option ℕ × Memory) → a ≤ b → Allocated size b out → Allocated size a out
  Allocated-from size a b (none, m') h e = e
  Allocated-from size a b (some r, m') h (p, q, v, run, e) = (omega arith, q, v, run, e)

  module _ (size : ℕ) (pos : 1 ≤ size) where
    -- What one scan from a bit with the value tells.
    pub record Whole (sidx : ℕ) : Type 0 where
      pub fits : sidx + size ≤ bm.bit_size + 1
      pub run : (j : ℕ) → sidx ≤ j → j + 1 < sidx + size → get_bit m bm j ≡ value

    pub record Short (sidx : ℕ) (s : Scan) : Type 0 where
      pub long : bm.bit_size + 1 < sidx + size
      pub off : bm.bit_size ≤ s.sidx
      pub run : (j : ℕ) → sidx ≤ j → j < bm.bit_size → get_bit m bm j ≡ value

    pub record Broken (sidx : ℕ) (s : Scan) : Type 0 where
      pub moved : sidx < s.sidx
      pub near : s.sidx < sidx + size
      pub inside : s.sidx ≤ bm.bit_size
      pub miss : get_bit m bm (s.sidx - 1) ≢ value

    pub whole :
        (sidx : ℕ) {s : Scan}
        → sidx < bm.bit_size
        → Scanned (size - 1) sidx s
        → (s.left == 0) ≡ true
        → Whole sidx
    whole sidx {s} lt sc full =
        let none_left : s.left ≡ 0 = ground arith in
        let kept : s.kept ≡ true = elim (Bool-cases s.kept) [
          | inl e ↦ e
          | inr e ↦ absurd ((sc.miss e).0 none_left)
        ] in
        record {
          fits = ground (arith, sc.count, sc.inside);
          run = λ j p q. sc.run j p (ground (arith, sc.count));
        }

    pub short :
        (sidx : ℕ) {s : Scan}
        → sidx < bm.bit_size
        → Scanned (size - 1) sidx s
        → (s.left == 0) ≡ false
        → s.kept ≡ true
        → Short sidx s
    short sidx {s} lt sc part kept =
        let some_left : s.left ≢ 0 = ground arith in
        let off : bm.bit_size ≤ s.sidx = sc.stop some_left kept in
        record {
          long = ground (arith, sc.count);
          off = off;
          run = λ j p q. sc.run j p (rw kept (omega arith));
        }

    pub broken :
        (sidx : ℕ) {s : Scan}
        → sidx < bm.bit_size
        → Scanned (size - 1) sidx s
        → (s.left == 0) ≡ false
        → s.kept ≡ false
        → Broken sidx s
    broken sidx {s} lt sc part lost = record {
      moved = ground (arith, sc.moved);
      near = ground (arith, sc.count);
      inside = sc.inside (omega arith);
      miss = (sc.miss lost).1;
    }

    -- One round of the outer loop, by the ways in which it can go.
    pub alloc_loop-Allocated :
        (f sidx : ℕ)
        → bm.bit_size ≤ sidx + f
        → Allocated size sidx (alloc_loop m bm value size f sidx none)
    unfolding alloc_loop
    alloc_loop-Allocated zero sidx h = refl
    alloc_loop-Allocated (suc f) sidx h = elim (Bool-cases (ltb sidx bm.bit_size)) [
      | inr off ↦ rw off refl
      | inl on ↦ elim (Bool-cases (same (get_bit m bm sidx) value)) [
        | inr other ↦
            rw (on, other)
              (Allocated-from size sidx (sidx + 1) _ (omega arith)
                (alloc_loop-Allocated f (sidx + 1) (omega arith)))
        | inl hit ↦
            let lt : sidx < bm.bit_size = ltb→lt sidx bm.bit_size on in
            let s = scan m bm value (size - 1) sidx in
            let sc = scan-Scanned (size - 1) sidx in
            let at : get_bit m bm sidx ≡ value = ground arith in
            elim (Bool-cases ((scan m bm value (size - 1) sidx).left == 0)) [
              | inl full ↦
                  let w = whole sidx lt sc full in
                  rw (on, hit, full)
                    (omega arith, lt, at, λ j p q. w.run j p, ground (arith, w.fits))
              | inr part ↦ elim (Bool-cases (scan m bm value (size - 1) sidx).kept) [
                | inl kept ↦
                    let w = short sidx lt sc part kept in
                    rw (on, hit, part, kept, alloc_end size f s.sidx (some sidx) w.off)
                      (omega arith, lt, at, λ j p q r. w.run j p q, ground (arith, w.long))
                | inr lost ↦
                    let w = broken sidx lt sc part lost in
                    let next : sidx ≤ s.sidx = omega (arith, w.moved) in
                    rw (on, hit, part, lost)
                      (Allocated-from size sidx s.sidx _ next
                        (alloc_loop-Allocated f s.sidx (omega (arith, w.moved))))
              ]
            ]
      ]
    ]
