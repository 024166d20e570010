-- ===== src/Pmm/Malloc.antt =====
-- Pmm_Malloc for one page, and Pmm_Free of that page.
use os.Base.{
  ℕ, zero, suc, ◌+◌, ◌*◌, ◌^◌, ◌≤◌, ◌<◌, ◌≡◌, inl, inr, Bool, true, false, Option, none, some, ◌==◌,
  u64, arith, Bool-cases,
}
use os.Base.Memory.{Memory, IsBytes}
use os.Bitmap.{get_bit, alloc_bits}
use os.Bitmap.First.{FirstFree, alloc_bits-FirstFree}
use os.Pmm.{Pmm, os_available_memory, page_offset, page_size, malloc_loop, malloc}
use os.Pmm.Table.{desc, mark}

-- The bit of page `p` of descriptor `k`: is the page taken?
abbrev pub taken : Pmm → ℕ → ℕ → Bool
taken s k p = get_bit s.mem (desc s k).bitmap p

-- All pages of the available descriptors from `i` up to `k` are taken.
abbrev pub FullUpTo : Pmm → ℕ → ℕ → Type 0
FullUpTo s i k =
    (j p : ℕ)
    → i ≤ j
    → j < k
    → (desc s j).kind ≡ os_available_memory
    → p < (desc s j).bitmap.bit_size
    → taken s j p ≡ true

-- Descriptor `k` gives its page `p`: the first free page of the first descriptor that has one.
pub record Grants (s : Pmm) (i n k p : ℕ) : Type 0 where
  pub from : i ≤ k
  pub below : k < n
  pub kind : (desc s k).kind ≡ os_available_memory
  pub inside : p < (desc s k).bitmap.bit_size
  pub was_free : taken s k p ≡ false
  pub first : (q : ℕ) → q < p → taken s k q ≡ true
  pub earlier : FullUpTo s i k

pub data Answer (s : Pmm) (i n : ℕ) : ℕ × Pmm → Type 0 where
  exhausted : FullUpTo s i n → Answer s i n (0, s)
  granted :
      (k p : ℕ)
      → Grants s i n k p
      → Answer s i n (u64 ((desc s k).physical_start + page_offset p), mark s k p 1 true)

-- The pages of descriptor `i` are all taken, if it is available.
abbrev FullAt : Pmm → ℕ → Type 0
FullAt s i =
    (p : ℕ)
    → (desc s i).kind ≡ os_available_memory
    → p < (desc s i).bitmap.bit_size
    → taken s i p ≡ true

FullUpTo-cons : (s : Pmm) (i k : ℕ) → FullAt s i → FullUpTo s (i + 1) k → FullUpTo s i k
FullUpTo-cons s i k here full j p a b = elim (Bool-cases (j == i)) [
  | inl e ↦ let e' : j ≡ i = ground arith in rw e' (here p)
  | inr ne ↦ full j p (ground arith) b
]

Answer-next :
    (s : Pmm) (i n : ℕ) {out : ℕ × Pmm} → FullAt s i → Answer s (i + 1) n out → Answer s i n out
Answer-next s i n here (exhausted full) = exhausted (FullUpTo-cons s i n here full)
Answer-next s i n here (granted k p g) = granted k p (record {
  from = omega (arith, g.from);
  below = g.below;
  kind = g.kind;
  inside = g.inside;
  was_free = g.was_free;
  first = g.first;
  earlier = FullUpTo-cons s i k here g.earlier;
})

-- What the body of the loop makes of the answer of the bitmap.
Answer-here :
    (s : Pmm) (left i n : ℕ) (out : Option ℕ × Memory)
    → i < n
    → (desc s i).kind ≡ os_available_memory
    → FirstFree s.mem (desc s i).bitmap out
    → Answer s (i + 1) n (malloc_loop s 1 left (i + 1))
    → Answer s i n (elim out.0 [
      | some index ↦ (u64 ((desc s i).physical_start + page_offset index), record s { mem = out.1 })
      | none ↦ malloc_loop (record s { mem = out.1 }) 1 left (i + 1)
    ])
Answer-here s left i n (none, m') lt kind (all_taken, e) rest =
    rw e (Answer-next s i n (λ p _. all_taken p) rest)
Answer-here s left i n (some p, m') lt kind (inside, was_free, before, e, _) rest = rw e (
    granted i p (record {
      from = omega arith;
      below = lt;
      kind = kind;
      inside = inside;
      was_free = was_free;
      first = before;
      earlier = λ j q a b. absurd (omega arith);
    }))

malloc_loop-Answer :
    (s : Pmm) (left i n : ℕ) → n ≡ i + left → IsBytes s.mem → Answer s i n (malloc_loop s 1 left i)
unfolding malloc_loop
malloc_loop-Answer s zero i n e bytes = exhausted (λ j p a b. absurd (omega arith))
malloc_loop-Answer s (suc left) i n e bytes =
    let rest = malloc_loop-Answer s left (i + 1) n (omega arith) bytes in
    elim (Bool-cases ((desc s i).kind == os_available_memory)) [
      | inl avail ↦ rw avail (
          Answer-here s left i n (alloc_bits s.mem (desc s i).bitmap false 1) (omega arith)
            (ground arith) (alloc_bits-FirstFree s.mem (desc s i).bitmap bytes) rest)
      | inr other ↦ rw other (Answer-next s i n (λ p kind. cc (kind_eq s i kind other)) rest)
    ]
  where
    kind_eq :
        (s : Pmm) (i : ℕ)
        → (desc s i).kind ≡ os_available_memory
        → ((desc s i).kind == os_available_memory) ≡ false
        → true ≡ false
    kind_eq s i kind other = ground arith

-- The answer of Pmm_Malloc(1), with the address as the code computes it.
pub malloc-Answer : (s : Pmm) → IsBytes s.mem → Answer s 0 s.num (malloc s 1)
unfolding malloc
malloc-Answer s bytes = malloc_loop-Answer s s.num 0 s.num (omega arith) bytes

pub page_offset_lem : (p : ℕ) → p < 2 ^ 19 → page_offset p ≡ p * page_size
unfolding page_offset
page_offset_lem p h = ground arith

-- The bitmap of an available region has at most 2 ^ 19 pages, which end within the address space.
abbrev pub IsNarrow : Pmm → Type 0
IsNarrow s =
    (i : ℕ)
    → i < s.num
    → (desc s i).kind ≡ os_available_memory
    → ((desc s i).bitmap.bit_size ≤ 2 ^ 19)
      × ((desc s i).physical_start + (desc s i).bitmap.bit_size * page_size ≤ 2 ^ 64)

-- NULL with nothing changed if all pages are taken, or else the first free page of the first available
-- region that has one, which is marked.
pub data FirstPage (s : Pmm) : ℕ × Pmm → Type 0 where
  no_page : FullUpTo s 0 s.num → FirstPage s (0, s)
  page :
      (k p : ℕ)
      → Grants s 0 s.num k p
      → FirstPage s ((desc s k).physical_start + p * page_size, mark s k p 1 true)

FirstPage-Answer : {s : Pmm} {out : ℕ × Pmm} → IsNarrow s → Answer s 0 s.num out → FirstPage s out
FirstPage-Answer narrow (exhausted full) = no_page full
FirstPage-Answer {s} narrow (granted k p g) =
    let (few, ends) = narrow k g.below g.kind in
    let addr : u64 ((desc s k).physical_start + page_offset p)
        ≡ (desc s k).physical_start + p * page_size =
      omega (arith, g.inside, few, ends, page_offset_lem p (omega (arith, g.inside, few))) in
    rw addr (page k p g)

-- Pmm_Malloc(1) hands out the address of the first free page of the first available region that has
-- one, marks that page and changes nothing else; it returns NULL with nothing changed if no page is
-- free. Memory holds bytes, and the bitmap of an available region has at most 2 ^ 19 pages (2 GB),
-- which end within the address space.
pub malloc-FirstPage : (s : Pmm) → IsBytes s.mem → IsNarrow s → FirstPage s (malloc s 1)
malloc-FirstPage s bytes narrow = FirstPage-Answer narrow (malloc-Answer s bytes)
