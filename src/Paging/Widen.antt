-- ===== src/Paging/Widen.antt =====
-- The loop of replace_identity_pdpt.
use os.Base.{
  ℕ, zero, suc, ◌+◌, ◌*◌, ◌/◌, ◌%◌, ◌^◌, ◌≤◌, ◌<◌, ◌≡◌, inl, inr, true, ◌==◌, if◌then◌else◌, refl,
  ◌∙◌, arith, Bool-cases, bit_or,
}
use os.Base.Bits.{bit_or_digit, bit_or_one, bit_or_sum}
use os.Base.Memory.{Memory, IsBytes, load-lt, load-store, load-store_disjoint, store-IsBytes}
use os.Pmm.{page_size}
use os.Paging.{slot, present, huge, read_pte, write_pte, widen}
use os.Paging.Frame.{Away}

pub bit_or_two : (a : ℕ) → bit_or a 2 ≡ a / 4 * 4 + 2 + a % 2
bit_or_two a = omega (arith, bit_or_digit a 2, bit_or_one (a / 2))

-- The entry that widen makes of entry `j`
abbrev pub whole : Memory → ℕ → ℕ → ℕ
whole m old j =
    let e = read_pte m (slot old j) in if huge e then bit_or e 2 else bit_or (j * 2 ^ 30) 0xA3

whole_bounded : (m : Memory) (old j : ℕ) → IsBytes m → j < 512 → whole m old j < 2 ^ 64
whole_bounded m old j bytes lt =
    let e = load-lt m (slot old j) 8 bytes in
    let s = bit_or_sum 30 j 0xA3 (omega arith) in
    let t = bit_or_two (read_pte m (slot old j)) in ground arith

-- A write to the page at `new` leaves the entries of the page at `old`.
old_stays :
    (m : Memory) (old new i j v : ℕ)
    → Away new page_size old page_size
    → i < 512
    → j < 512
    → read_pte (write_pte m (slot new i) v) (slot old j) ≡ read_pte m (slot old j)
old_stays m old new i j v away li lj =
    load-store_disjoint m (slot new i) 8 v (slot old j) 8 (ground arith)

widen-IsBytes : (n : ℕ) (m : Memory) (old new i : ℕ) → IsBytes m → IsBytes (widen m old new i n)
unfolding widen
widen-IsBytes zero m old new i bytes = bytes
widen-IsBytes (suc n) m old new i bytes = elim (Bool-cases (present (read_pte m (slot old i)))) [
  | inl on ↦ rw on (
      widen-IsBytes n (write_pte m (slot new i) (whole m old i)) old new (i + 1)
        (store-IsBytes m (slot new i) 8 (whole m old i) bytes))
  | inr off ↦ rw off (widen-IsBytes n m old new (i + 1) bytes)
]

module _ (old new : ℕ) (away : Away new page_size old page_size) where
  -- Entries below `i` stay.
  widen_before :
      (n : ℕ) (m : Memory) (i j : ℕ)
      → i + n ≤ 512
      → j < i
      → read_pte (widen m old new i n) (slot new j) ≡ read_pte m (slot new j)
  unfolding widen
  widen_before zero m i j le lt = refl
  widen_before (suc n) m i j le lt = elim (Bool-cases (present (read_pte m (slot old i)))) [
    | inl on ↦ rw on (
        widen_before n (write_pte m (slot new i) (whole m old i)) (i + 1) j (omega arith)
          (omega arith)
        ∙ load-store_disjoint m (slot new i) 8 (whole m old i) (slot new j) 8 (inl (omega arith)))
    | inr off ↦ rw off (widen_before n m (i + 1) j (omega arith) (omega arith))
  ]

  -- A present entry becomes a large page.
  pub widen_lem :
      (n : ℕ) (m : Memory) (i j : ℕ)
      → IsBytes m
      → i + n ≤ 512
      → i ≤ j
      → j < i + n
      → present (read_pte m (slot old j)) ≡ true
      → read_pte (widen m old new i n) (slot new j) ≡ whole m old j
  unfolding widen
  widen_lem zero m i j bytes le ge lt on = absurd (omega arith)
  widen_lem (suc n) m i j bytes le ge lt on = elim (Bool-cases (i == j)) [
    | inl eq ↦
        let e : j ≡ i = ground arith in
        let on' : present (read_pte m (slot old i)) ≡ true = rw e at on in
        rw (e, on')
          (widen_before n (write_pte m (slot new i) (whole m old i)) (i + 1) i (omega arith)
              (omega arith)
            ∙ load-store m (slot new i) 8 (whole m old i)
                (whole_bounded m old i bytes (omega arith)))
    | inr ne ↦ elim (Bool-cases (present (read_pte m (slot old i)))) [
      | inr off ↦
          rw off (widen_lem n m (i + 1) j bytes (omega arith) (ground arith) (omega arith) on)
      | inl on_i ↦
          let m1 = write_pte m (slot new i) (whole m old i) in
          let stays : read_pte m1 (slot old j) ≡ read_pte m (slot old j) =
            old_stays m old new i j (whole m old i) away (omega arith) (omega arith) in
          rw on_i (
            widen_lem n m1 (i + 1) j (store-IsBytes m (slot new i) 8 (whole m old i) bytes)
              (omega arith) (ground arith) (omega arith) (rw stays on)
            ∙ rw stays refl)
    ]
  ]
