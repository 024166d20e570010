-- ===== src/Vmm/Marks.antt =====
-- The state while some pages are taken that were free.
use Prim.{Unit}
use os.Base.{
  has, ℕ, ◌+◌, ◌/◌, ◌<◌, ◌≡◌, ◌≢◌, inl, inr, Bool, false, List, [], ◌∷◌, ◌||◌, ◌&&◌, ◌==◌, ap,
  arith, Bool-cases, if◌then◌else◌,
}
use os.Base.Memory.{Memory}
use os.Bitmap.{get_bit}
use os.Bitmap.Bits.{get_bit-set_bits, set_bits-outside}
use os.Pmm.{Pmm}
use os.Pmm.Table.{desc, Available, mark}
use os.Pmm.Malloc.{taken}
use os.Paging.Frame.{IsFree, page_of, Settled, Keeps}

-- Memory `m` is that of `s` but for the pages of the list, which are taken.
pub record Held (s : Pmm) (m : Memory) (got : List ℕ) : Type 0 where
  pub keeps : Keeps s m
  pub marks :
      (k q : ℕ)
      → Available s k
      → q < (desc s k).bitmap.bit_size
      → get_bit m (desc s k).bitmap q ≡ taken s k q || has (page_of s k q) got

-- The list has different free pages.
abbrev pub Pages : Pmm → List ℕ → Type 0
Pages s [] = Unit {0}
Pages s (a ∷ rest) =
    ((k : ℕ) × (p : ℕ) × IsFree s k p × (a ≡ page_of s k p)) × (has a rest ≡ false) × Pages s rest

module _ {s : Pmm} (t : Settled s) where
  -- Different pages have different addresses.
  pub page_of-ne :
      (k p j q : ℕ)
      → Available s k
      → p < (desc s k).bitmap.bit_size
      → Available s j
      → q < (desc s j).bitmap.bit_size
      → ((j == k) && (q == p)) ≡ false
      → page_of s j q ≢ page_of s k p
  page_of-ne k p j q av lt av' lt' ne e = elim (Bool-cases (j == k)) [
    | inr other ↦
        let ne' : k ≢ j = ground arith in
        absurd
          (ground (arith, t.order.regions k j av av' ne', t.order.sized k av, t.order.sized j av'))
    | inl eq ↦
        let ej : j ≡ k = ground arith in
        let start : (desc s j).physical_start ≡ (desc s k).physical_start =
          ap (λ (z : ℕ). (desc s z).physical_start) ej in
        absurd (ground arith)
  ]

  pub get_bit-mark :
      (k p : ℕ) (v : Bool) (j q : ℕ)
      → Available s k
      → p < (desc s k).bitmap.bit_size
      → Available s j
      → q < (desc s j).bitmap.bit_size
      → get_bit (mark s k p 1 v).mem (desc s j).bitmap q
        ≡ (if (j == k) && (q == p) then v else taken s j q)
  unfolding get_bit
  get_bit-mark k p v j q av lt av' lt' = elim (Bool-cases (j == k)) [
    | inl eq ↦
        let e : j ≡ k = ground arith in
        let lt'' : q < (desc s k).bitmap.bit_size = rw e at lt' in
        rw e (ground (arith, get_bit-set_bits 1 s.mem (desc s k).bitmap p v q t.order.bytes))
    | inr other ↦
        let ne : k ≢ j = ground arith in
        ground (
          arith,
          t.bitmaps_apart k j av av' ne,
          set_bits-outside 1 s.mem (desc s k).bitmap p v ((desc s j).bitmap.bits + q / 8),
        )
  ]
