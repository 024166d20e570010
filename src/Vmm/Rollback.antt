-- ===== src/Vmm/Rollback.antt =====
-- The pages that Vmm_Malloc takes, and gives back when it fails.
use Prim.{tt}
use os.Base.{
  length, length-append, ℕ, zero, suc, ◌+◌, ◌-◌, ◌*◌, ◌/◌, ◌≤◌, ◌<◌, ◌≡◌, ◌≢◌, inl, inr, Bool, true,
  false, Option, none, some, List, [], ◌∷◌, ◌++◌, ◌||◌, ltb, ◌==◌, refl, ap, ◌∙◌, u32, u64, arith,
  Bool-cases, if◌then◌else◌,
}
use os.Base.Memory.{Memory}
use os.Bitmap.{get_bit}
use os.Pmm
use os.Pmm.{Pmm, page_size, page_offset}
use os.Pmm.Table.{desc, Available, mark, end_of}
use os.Pmm.Malloc.{taken, Grants, Answer, exhausted, granted, malloc-Answer}
use os.Pmm.Free.{grant_addr, free-mark}
use os.Paging.Frame.{IsFree, page_of, Settled, Keeps-self}
use os.Paging.{map_page}
use os.Vmm.{
  free_pages, alloc_pages, vmm_map_range, use_pages, vmm_malloc, VmmState, virt_end, pages_of,
}
use os.Vmm.Marks.{Held, Pages}
use os.Vmm.Held.{
  now, now-Settled, now-desc, now-Available, Pages-snoc, Held-take, Held-give, free_before,
  not_held,
}

module _ {s : Pmm} (t : Settled s) where
  -- Pmm_Free of a page that is held
  free-Held :
      {m : Memory} {a : ℕ} {rest : List ℕ} (h : Held s m (a ∷ rest)) (k p : ℕ)
      → IsFree s k p
      → a ≡ page_of s k p
      → Pmm.free (now t h) a 1 ≡ mark (now t h) k p 1 false
  free-Held {m} {a} h k p f ea =
      let same = now-desc t h k f.0.0 in
      let start : (desc (now t h) k).physical_start ≡ (desc s k).physical_start =
        ap (λ d. d.physical_start) same in
      let pages : (desc (now t h) k).pages ≡ (desc s k).pages = ap (λ d. d.pages) same in
      let fits = t.order.sized k f.0 in
      let inside : ((desc (now t h) k).physical_start ≤ a) × (a < end_of (desc (now t h) k)) =
        omega (arith, fits, f.1) in
      let index : u32 ((a - (desc (now t h) k).physical_start) / page_size) ≡ p =
        omega (arith, fits, f.1) in
      rw (free-mark (now-Settled t h).order k a (now-Available t h k f.0) inside 1, index) refl

  -- All the pages are given back.
  free_pages-Held :
      (pages : List ℕ) {m : Memory}
      → Held s m pages
      → Pages s pages
      → (m' : Memory) × (free_pages (record s { mem = m }) pages ≡ record s { mem = m' })
        × Held s m' []
  unfolding free_pages
  free_pages-Held [] {m} h all = (m, refl, h)
  free_pages-Held (a ∷ rest) h ((k, p, f, ea), ne, all) =
      rw (free-Held h k p f ea) (free_pages-Held rest (Held-give t h k p f ea ne) all)

-- What the loop of Vmm_Malloc ends with: all is as before, or `n` different free pages are held.
pub data Outcome (s : Pmm) (n : ℕ) : Option (List ℕ) × Pmm → Type 0 where
  failed : (m : Memory) → Held s m [] → Outcome s n (none, record s { mem = m })
  held :
      (m : Memory) (pages : List ℕ)
      → Held s m pages
      → Pages s pages
      → length pages ≡ n
      → Outcome s n (some pages, record s { mem = m })

-- The loop with `n` pages to go ends so.
abbrev Gets : Pmm → ℕ → ℕ → Type 0
Gets s total n =
    (m : Memory) (got : List ℕ)
    → Held s m got
    → Pages s got
    → total ≡ n + length got
    → Outcome s total (alloc_pages n (record s { mem = m }) got)

module _ {s : Pmm} (t : Settled s) (total : ℕ) where
  failed_of :
      {m : Memory} {got : List ℕ}
      → Held s m got
      → Pages s got
      → Outcome s total (none, free_pages (record s { mem = m }) got)
  failed_of {m} {got} h all = let (m', e, h') = free_pages-Held t got h all in rw e (failed m' h')

  granted_addr :
      {m : Memory} {got : List ℕ} {k p : ℕ} (h : Held s m got) (g : Grants (now t h) 0 s.num k p)
      → u64 ((desc (now t h) k).physical_start + page_offset p) ≡ page_of s k p
  granted_addr {k = k} {p} h g =
      grant_addr (now-Settled t h).order g
      ∙ ap (λ d. d.physical_start + p * page_size) (now-desc t h k g.below)

  Outcome-of :
      (n : ℕ) {m : Memory} {got : List ℕ} {out : ℕ × Pmm} (h : Held s m got)
      → Pages s got
      → total ≡ suc n + length got
      → Gets s total n
      → Answer (now t h) 0 s.num out
      → Outcome s total (
          if out.0 == 0
          then (none, free_pages out.1 got)
          else alloc_pages n out.1 (got ++ (out.0 ∷ [])))
  Outcome-of n h all e gets (exhausted full) = failed_of h all
  Outcome-of n {got = got} h all e gets (granted k p g) =
      let f = free_before t h g in
      let some_page : (page_of s k p == 0) ≡ false = ground (arith, t.start k f.0) in
      rw (granted_addr h g, some_page)
        (gets (mark (now t h) k p 1 true).mem (got ++ (page_of s k p ∷ [])) (Held-take t h g)
          (Pages-snoc s (page_of s k p) got all (k, p, f, refl) (not_held t h g))
          (omega (arith, length-append got (page_of s k p ∷ []))))

  alloc_pages-Gets : (n : ℕ) → Gets s total n
  unfolding alloc_pages
  alloc_pages-Gets zero m got h all e = held m got h all (omega (arith, e))
  alloc_pages-Gets (suc n) m got h all e =
      Outcome-of n h all e (alloc_pages-Gets n) (malloc-Answer (now t h) h.keeps.bytes)

  empty-Held : Held s s.mem []
  empty-Held = record { keeps = Keeps-self t; marks = λ k q av lt. ground arith }

-- Vmm_Malloc's loop gets as many different free pages as it is asked for, or gives all of them back.
-- Condition: the allocator's tables are
-- settled (memory holds bytes; the bitmaps overlap neither the table of descriptors nor each other and
-- are no longer than their regions; the available regions are disjoint, below 2 GB each, end below
-- 2 ^ 64, start at page boundaries other than 0, and hold none of the allocator's tables).
pub alloc_pages-Outcome : {s : Pmm} → Settled s → (n : ℕ) → Outcome s n (alloc_pages n s [])
alloc_pages-Outcome {s} t n = alloc_pages-Gets t n n s.mem [] (empty-Held t n) tt (omega arith)

-- Non-zero pages are all mapped.
vmm_map_range-maps :
    {s : Pmm} (t : Settled s) (pages : List ℕ) (now : Pmm) (cr3 virt flags : ℕ)
    → Pages s pages
    → (vmm_map_range now cr3 virt pages flags).0 ≡ true
unfolding vmm_map_range
vmm_map_range-maps t [] now cr3 virt flags all = refl
vmm_map_range-maps t (a ∷ rest) now cr3 virt flags ((k, p, f, ea), _, all) =
    let some_page : (a == 0) ≡ false = ground (arith, t.start k f.0) in
    rw some_page (
      vmm_map_range-maps t rest (map_page now cr3 virt a flags) cr3 (u64 (virt + page_size)) flags
        all)

-- Each page is as free as before.
abbrev pub Restored : Pmm → Pmm → Type 0
Restored s s' =
    (k q : ℕ)
    → Available s k
    → q < (desc s k).bitmap.bit_size
    → (desc s' k ≡ desc s k) × (taken s' k q ≡ taken s k q)

Held-Restored : {s : Pmm} {m : Memory} → Held s m [] → Restored s (record s { mem = m })
Held-Restored {s} {m} h k q av lt =
    let same = h.keeps.same k av.0 in
    let bit : get_bit m (desc s k).bitmap q ≡ taken s k q =
      h.marks k q av lt ∙ or_false (taken s k q) in
    (same, rw same bit)
  where
    or_false : (b : Bool) → (b || false) ≡ b
    or_false b = ground arith

self-Restored : (s : Pmm) → Restored s s
self-Restored s k q av lt = (refl, refl)

use_pages-Restored :
    (st : VmmState) {n : ℕ} (pages : ℕ) {out : Option (List ℕ) × Pmm}
    → Settled st.pmm
    → st.current.desc.address ≢ 0
    → Outcome st.pmm n out
    → (use_pages st pages out).0 ≡ 0
    → Restored st.pmm (use_pages st pages out).1.pmm
unfolding use_pages
use_pages-Restored st pages t ne (failed m h) e = Held-Restored h
use_pages-Restored st pages t ne (held m ps h all _) e =
    let maps =
      vmm_map_range-maps t ps (record st.pmm { mem = m }) st.cr3 st.current.desc.address
        st.current.flag all in
    absurd (ne (rw maps at e))

-- Is there no room up to the last address?
abbrev past_end : VmmState → ℕ → Bool
past_end st size =
    ltb (virt_end st.current) (u64 (st.current.desc.address + u64 (pages_of size * page_size)))

-- Vmm_Malloc that returns NULL leaves each page as free as it was. Conditions: the next virtual address
-- is not 0, and the allocator's tables are
-- settled (memory holds bytes; the bitmaps overlap neither the table of descriptors nor each other and
-- are no longer than their regions; the available regions are disjoint, below 2 GB each, end below
-- 2 ^ 64, start at page boundaries other than 0, and hold none of the allocator's tables).
pub vmm_malloc-Restored :
    (st : VmmState) (size : ℕ)
    → Settled st.pmm
    → st.current.desc.address ≢ 0
    → (vmm_malloc st size).0 ≡ 0
    → Restored st.pmm (vmm_malloc st size).1.pmm
unfolding vmm_malloc
vmm_malloc-Restored st size t ne e = elim (Bool-cases (size == 0)) [
  | inl c ↦ rw c (self-Restored st.pmm)
  | inr c1 ↦ elim (Bool-cases (st.current.descriptor == 0)) [
    | inl c ↦ rw (c1, c) (self-Restored st.pmm)
    | inr c2 ↦ elim (Bool-cases (past_end st size)) [
      | inl c ↦ rw (c1, c2, c) (self-Restored st.pmm)
      | inr c3 ↦
          rw (c1, c2, c3)
            (use_pages-Restored st (pages_of size) t ne (alloc_pages-Outcome t (pages_of size))
              (rw (c1, c2, c3) at e))
    ]
  ]
]
