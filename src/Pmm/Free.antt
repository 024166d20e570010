-- ===== src/Pmm/Free.antt =====
-- Pmm_Free gives back what Pmm_Malloc(1) handed out, and no page is handed out twice.
use os.Base.{
  ℕ, zero, suc, ◌+◌, ◌-◌, ◌*◌, ◌/◌, ◌≤◌, ◌<◌, ◌≡◌, refl, ◌≢◌, inl, inr, Bool, true, false, ◌==◌,
  leb, ltb, ◌&&◌, u32, u64, arith, ap, Bool-cases, sym, ◌∙◌, subst,
}
use os.Bitmap.{get_bit}
use os.Bitmap.Bits.{get_bit-set_bits, set_bits_undo}
use os.Pmm.{Pmm, Desc, os_available_memory, page_size, page_offset, malloc, free_loop, free}
use os.Pmm.Table.{desc, Available, InOrder, mark, end_of, desc-mark, mark-InOrder}
use os.Pmm.Malloc.{Grants, Answer, exhausted, granted, page_offset_lem, malloc-Answer}

abbrev Within : ℕ → Desc → Type 0
Within target d = (d.physical_start ≤ target) × (target < end_of d)

-- The test of Pmm_Free.
abbrev hit : Pmm → ℕ → ℕ → Bool
hit s i target =
    ((desc s i).kind == os_available_memory)
    && (leb (desc s i).physical_start target
        && ltb target (u64 ((desc s i).physical_start + u64 ((desc s i).pages * page_size))))

module _ {s : Pmm} (t : InOrder s) (k target : ℕ) (av : Available s k)
    (inside : Within target (desc s k)) where
  hit_self : hit s k target ≡ true
  hit_self = ground (arith, av, inside, t.sized k av)

  hit_other : (i : ℕ) → i < s.num → i ≢ k → hit s i target ≡ false
  hit_other i lt ne = elim (Bool-cases ((desc s i).kind == os_available_memory)) [
    | inr other ↦ rw other
    | inl kind ↦
        let av' : Available s i = (lt, ground arith) in
        ground (arith, inside, t.sized i av', t.regions i k av' av ne)
  ]

  free_loop-mark :
      (pages left i : ℕ)
      → i ≤ k
      → k < i + left
      → i + left ≤ s.num
      → free_loop s target pages left i
        ≡ mark s k (u32 ((target - (desc s k).physical_start) / page_size)) pages false
  unfolding free_loop
  free_loop-mark pages zero i le lt in_table = absurd (omega arith)
  free_loop-mark pages (suc left) i le lt in_table = elim (Bool-cases (i == k)) [
    | inl e ↦ let e' : i ≡ k = ground arith in rw (e', hit_self)
    | inr ne ↦
        let ne' : i ≢ k = ground arith in
        rw (hit_other i (omega arith) ne')
          (free_loop-mark pages left (i + 1) (omega arith) (omega arith) (omega arith))
  ]

  pub free-mark :
      (pages : ℕ)
      → free s target pages
        ≡ mark s k (u32 ((target - (desc s k).physical_start) / page_size)) pages false
  unfolding free
  free-mark pages = free_loop-mark pages s.num 0 (omega arith) (omega (arith, av.0)) (omega arith)

module _ {s : Pmm} (t : InOrder s) {k p : ℕ} (g : Grants s 0 s.num k p) where
  grant_av : Available s k
  grant_av = (g.below, g.kind)

  pub grant_page : p < (desc s k).pages
  grant_page = omega (arith, g.inside, t.sized k grant_av)

  -- The address handed out, with no wrap.
  pub grant_addr :
      u64 ((desc s k).physical_start + page_offset p) ≡ (desc s k).physical_start + p * page_size
  grant_addr = omega (
    arith,
    grant_page,
    t.sized k grant_av,
    page_offset_lem p (omega (arith, grant_page, t.sized k grant_av)),
  )

  grant-Within : Within ((desc s k).physical_start + p * page_size) (desc s k)
  grant-Within = omega (arith, grant_page)

  grant-InOrder : InOrder (mark s k p 1 true)
  grant-InOrder = mark-InOrder t k p 1 true grant_av

  grant-desc : (j : ℕ) → j < s.num → desc (mark s k p 1 true) j ≡ desc s j
  grant-desc = desc-mark t k p 1 true grant_av

  grant_index :
      u32 ((((desc s k).physical_start + p * page_size) - (desc s k).physical_start) / page_size)
      ≡ p
  grant_index = omega (arith, grant_page, t.sized k grant_av)

  grant-free :
      (x : ℕ)
      → (free (mark s k p 1 true) ((desc s k).physical_start + p * page_size) 1).mem x ≡ s.mem x
  grant-free x =
      let same = grant-desc k g.below in
      rw
        (
          free-mark grant-InOrder k ((desc s k).physical_start + p * page_size)
              (g.below, rw same g.kind) (rw same grant-Within) 1,
          same,
          grant_index,
        )
        (set_bits_undo s.mem (desc s k).bitmap p x t.bytes g.inside g.was_free)

-- A valid table stays valid.
malloc-InOrder_of : {s : Pmm} {out : ℕ × Pmm} → InOrder s → Answer s 0 s.num out → InOrder out.1
malloc-InOrder_of t (exhausted full) = t
malloc-InOrder_of t (granted k p g) = grant-InOrder t g

-- Pmm_Malloc(1) keeps a table in order that is in order (bitmaps off the table and no longer than
-- their regions, regions below 2 GB and disjoint).
pub malloc-InOrder : {s : Pmm} → InOrder s → InOrder (malloc s 1).1
malloc-InOrder {s} t = malloc-InOrder_of t (malloc-Answer s t.bytes)

abbrev Undone : Pmm → ℕ × Pmm → Type 0
Undone s out = (x : ℕ) → (free out.1 out.0 1).mem x ≡ s.mem x

malloc-free_of :
    {s : Pmm} {out : ℕ × Pmm} → InOrder s → Answer s 0 s.num out → out.0 ≢ 0 → Undone s out
malloc-free_of t (exhausted full) ne = absurd (ne refl)
malloc-free_of t (granted k p g) ne = rw (grant_addr t g) (grant-free t g)

-- With a table in order, freeing the page that Pmm_Malloc(1) has just handed out, if there was one,
-- gives every byte of memory back.
pub malloc-free :
    {s : Pmm}
    → InOrder s
    → (malloc s 1).0 ≢ 0
    → (x : ℕ) → (free (malloc s 1).1 (malloc s 1).0 1).mem x ≡ s.mem x
malloc-free {s} t ne = malloc-free_of t (malloc-Answer s t.bytes) ne

-- A grant after a grant, by its facts about the first state.
module _ {s : Pmm} (t : InOrder s) {k p j q : ℕ} (g : Grants s 0 s.num k p)
    (g' : Grants (mark s k p 1 true) 0 s.num j q) where
  again_av : Available s j
  again_av = (g'.below, rw (grant-desc t g j g'.below) at g'.kind)

  again_page : q < (desc s j).pages
  again_page =
      let inside : q < (desc s j).bitmap.bit_size = rw (grant-desc t g j g'.below) at g'.inside in
      omega (arith, t.sized j again_av)

  again_free : get_bit (mark s k p 1 true).mem (desc s j).bitmap q ≡ false
  again_free = rw (grant-desc t g j g'.below) at g'.was_free

  pages_ne : k ≡ j → p ≢ q
  pages_ne e eq =
      let free_bit : get_bit (mark s k p 1 true).mem (desc s k).bitmap p ≡ false =
        subst (λ z. get_bit (mark s k p 1 true).mem (desc s k).bitmap z ≡ false) (sym eq)
          (subst (λ z. get_bit (mark s k p 1 true).mem (desc s z).bitmap q ≡ false) (sym e)
            again_free) in
      ground
        (arith, free_bit, get_bit-set_bits 1 s.mem (desc s k).bitmap p true p t.bytes, g.inside)

  -- The two pages have different addresses.
  grants_ne : (desc s k).physical_start + p * page_size ≢ (desc s j).physical_start + q * page_size
  grants_ne e = elim (Bool-cases (k == j)) [
    | inl eq ↦
        let eq' : k ≡ j = ground arith in
        let same_start : (desc s k).physical_start ≡ (desc s j).physical_start =
          ap (λ (z : ℕ). (desc s z).physical_start) eq' in
        pages_ne eq' (omega arith)
    | inr ne ↦
        omega
          (arith, grant_page t g, again_page, t.regions k j (grant_av t g) again_av (ground arith))
  ]

Distinct_of :
    {s : Pmm} {k p : ℕ} {out : ℕ × Pmm} (t : InOrder s) (g : Grants s 0 s.num k p)
    → Answer (mark s k p 1 true) 0 s.num out
    → out.0 ≢ 0
    → u64 ((desc s k).physical_start + page_offset p) ≢ out.0
Distinct_of t g (exhausted full) ne = λ e. absurd (ne refl)
Distinct_of {s} {k} {p} t g (granted j q g') ne = λ e.
    let start : (desc (mark s k p 1 true) j).physical_start ≡ (desc s j).physical_start =
      ap (λ (d : Desc). d.physical_start) (grant-desc t g j g'.below) in
    grants_ne t g g' (
      sym (grant_addr t g)
      ∙ e
      ∙ grant_addr (grant-InOrder t g) g'
      ∙ ap (λ (a : ℕ). a + q * page_size) start)

distinct_of :
    {s : Pmm} {out : ℕ × Pmm} (t : InOrder s)
    → Answer s 0 s.num out
    → out.0 ≢ 0
    → (malloc out.1 1).0 ≢ 0
    → out.0 ≢ (malloc out.1 1).0
distinct_of t (exhausted full) ne ne' = absurd (ne refl)
distinct_of t (granted k p g) ne ne' =
    Distinct_of t g (malloc-Answer (mark _ k p 1 true) (grant-InOrder t g).bytes) ne'

-- With a table in order, two pages that Pmm_Malloc(1) hands out one after the other are different.
pub malloc-malloc-ne :
    {s : Pmm}
    → InOrder s
    → (malloc s 1).0 ≢ 0
    → (malloc (malloc s 1).1 1).0 ≢ 0
    → (malloc s 1).0 ≢ (malloc (malloc s 1).1 1).0
malloc-malloc-ne {s} t ne ne' = distinct_of t (malloc-Answer s t.bytes) ne ne'
