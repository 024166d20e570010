-- ===== src/MemoryMap/Largest.antt =====
-- FindLargestAvailableBlock against the set of conventional blocks.
use os.Base.{
  ℕ, zero, suc, ◌+◌, ◌*◌, ◌≤◌, ◌<◌, ◌≡◌, refl, ◌⊎◌, inl, inr, Bool, true, false, ◌&&◌, ltb, ◌==◌,
  arith, if◌then◌else◌, u64, Bool-cases, subst,
}
use native.Mathlib.Nat.{add-zero}
use os.Base.Memory.{Memory}
use os.MemoryMap.{
  MemoryMap, UefiDescriptor, uefi_descriptor, conventional_memory, max_descriptors, largest_loop,
  find_largest_available_block,
}

module _ (m : Memory) (map : MemoryMap) where
  abbrev pub block : ℕ → UefiDescriptor
  block i = uefi_descriptor m (map.buffer + i * map.descriptor_size)

  -- The bytes of a conventional block; 0 for any other.
  abbrev pub size_of : ℕ → ℕ
  size_of i =
      if (block i).kind == conventional_memory then u64 ((block i).number_of_pages * 4096) else 0

  -- `a` is a block of the greatest size among the first `n`, or NULL if all those sizes are 0.
  abbrev pub IsBiggest : ℕ → ℕ → Type 0
  IsBiggest n a =
      ((a ≡ 0) × ((j : ℕ) → j < n → size_of j ≡ 0))
      ⊎ ((i : ℕ) × (i < n)
          × (a ≡ map.buffer + i * map.descriptor_size)
          × (0 < size_of i)
          × ((j : ℕ) → j < n → size_of j ≤ size_of i))

  data SoFar (i size a : ℕ) : Type 0 where
    nothing : size ≡ 0 → a ≡ 0 → ((j : ℕ) → j < i → size_of j ≡ 0) → SoFar i size a
    best :
        (k : ℕ)
        → k < i
        → a ≡ map.buffer + k * map.descriptor_size
        → size ≡ size_of k
        → 0 < size_of k
        → ((j : ℕ) → j < i → size_of j ≤ size_of k)
        → SoFar i size a

  abbrev better : ℕ → ℕ → Bool
  better i size =
      ((block i).kind == conventional_memory) && ltb size (u64 ((block i).number_of_pages * 4096))

  SoFar-step :
      (i size a : ℕ)
      → SoFar i size a
      → SoFar
          (i + 1)
          (if better i size then u64 ((block i).number_of_pages * 4096) else size)
          (if better i size then map.buffer + i * map.descriptor_size else a)
  SoFar-step i size a (nothing e null none_yet) = elim (Bool-cases (better i size)) [
    | inl yes_better ↦
        rw yes_better (best i (omega arith) refl (ground arith) (ground arith) (λ j p. upto j p))
    | inr worse ↦ rw worse (nothing e null (λ j p. rest j p worse))
  ]
    where
      upto : (j : ℕ) → j < i + 1 → size_of j ≤ size_of i
      upto j p = elim (Bool-cases (j == i)) [
        | inl same_index ↦ let e' : j ≡ i = ground arith in rw e' (omega arith)
        | inr ne ↦ omega (arith, none_yet j (ground arith))
      ]

      rest : (j : ℕ) → j < i + 1 → better i size ≡ false → size_of j ≡ 0
      rest j p worse = elim (Bool-cases (j == i)) [
        | inl same_index ↦ let e' : j ≡ i = ground arith in rw e' (ground arith)
        | inr ne ↦ none_yet j (ground arith)
      ]
  SoFar-step i size a (best k lt e at big all) = elim (Bool-cases (better i size)) [
    | inl yes_better ↦
        rw yes_better
          (best i (omega arith) refl (ground arith) (ground arith) (λ j p. upto j p yes_better))
    | inr worse ↦ rw worse (best k (omega arith) e at big (λ j p. rest j p worse))
  ]
    where
      upto : (j : ℕ) → j < i + 1 → better i size ≡ true → size_of j ≤ size_of i
      upto j p gain = elim (Bool-cases (j == i)) [
        | inl same_index ↦ let e' : j ≡ i = ground arith in rw e' (omega arith)
        | inr ne ↦ let old : size_of j ≤ size_of k = all j (ground arith) in ground arith
      ]

      rest : (j : ℕ) → j < i + 1 → better i size ≡ false → size_of j ≤ size_of k
      rest j p worse = elim (Bool-cases (j == i)) [
        | inl same_index ↦ let e' : j ≡ i = ground arith in rw e' (ground arith)
        | inr ne ↦ all j (ground arith)
      ]

  SoFar-cast : {i k s a : ℕ} → i ≡ k → SoFar i s a → SoFar k s a
  SoFar-cast {s} {a} e h = subst (λ n. SoFar n s a) e h

  largest_loop-SoFar :
      (left i size a : ℕ)
      → SoFar i size a
      → (s : ℕ) × SoFar (i + left) s (largest_loop m map left i size a)
  unfolding largest_loop
  largest_loop-SoFar zero i size a h = (size, rw add-zero h)
  largest_loop-SoFar (suc left) i size a h =
      let (s, got) = largest_loop-SoFar left (i + 1) _ _ (SoFar-step i size a h) in
      (s, SoFar-cast (omega arith) got)

  IsBiggest-of : (n s a : ℕ) → SoFar n s a → IsBiggest n a
  IsBiggest-of n s a (nothing e null all) = inl (null, all)
  IsBiggest-of n s a (best k lt e at big all) = inr (k, lt, e, big, all)

  -- FindLargestAvailableBlock returns a conventional block of the greatest size in bytes (taken
  -- modulo 2 ^ 64), and NULL exactly when the size of each conventional block is 0.
  pub find_largest-IsBiggest : IsBiggest (max_descriptors map) (find_largest_available_block m map)
  unfolding find_largest_available_block
  find_largest-IsBiggest =
      let (s, got) =
        largest_loop-SoFar (max_descriptors map) 0 0 0
          (nothing refl refl (λ j p. absurd (omega arith))) in
      IsBiggest-of (max_descriptors map) s _ (SoFar-cast (omega arith) got)
