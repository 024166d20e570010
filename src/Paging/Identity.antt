-- ===== src/Paging/Identity.antt =====
-- replace_identity_pdpt: the low addresses are mapped to themselves.
use os.Base.{ℕ, ◌+◌, ◌*◌, ◌/◌, ◌%◌, ◌^◌, ◌<◌, ◌≡◌, true, false, refl, sym, ap, ◌∙◌, arith, bit_or}
use os.Base.Bits.{bit_or_sum}
use os.Base.Memory.{Memory, load_ext, load-store, load-store_disjoint}
use os.Pmm.{Pmm, page_size}
use os.Paging.{
  slot, index, present, huge, page_mask, read_pte, write_pte, lookup_tables, virt_to_phys_on, widen,
  replace_identity_pdpt,
}
use os.Paging.Frame.{Away, IsAligned, Settled, Clear}
use os.Paging.Grant.{Spare}
use os.Paging.Widen.{bit_or_two, whole, widen_lem}
use os.Paging.Fresh.{Fresh, Page, fresh, malloc_page-Page}

or_large : (j : ℕ) → j < 512 → bit_or (j * 2 ^ 30) 0xA3 ≡ j * 2 ^ 30 + 0xA3
or_large j lt = bit_or_sum 30 j 0xA3 (omega arith)

-- The new entry of the first table
abbrev first_entry : ℕ → ℕ → ℕ
first_entry new e = bit_or (bit_or new (e % page_size)) 2

first_entry_lem :
    (new e : ℕ)
    → IsAligned new
    → new < 2 ^ 64
    → present e ≡ true
    → huge e ≡ false
    → (first_entry new e < 2 ^ 64)
      × (present (first_entry new e) ≡ true)
      × (huge (first_entry new e) ≡ false)
      × (page_mask (first_entry new e) ≡ new)
first_entry_lem new e al lt on small =
    let by_page : new ≡ new / page_size * 2 ^ 12 = omega arith in
    let sum : bit_or new (e % page_size) ≡ new + e % page_size =
      ap (λ z. bit_or z (e % page_size)) by_page
      ∙ bit_or_sum 12 (new / page_size) (e % page_size) (omega arith)
      ∙ ap (λ z. z + e % page_size) (sym by_page) in
    rw (sum, bit_or_two (new + e % page_size))
      (omega arith, ground arith, ground arith, omega arith)

module _ {s : Pmm} (pml4 : ℕ) (c : Clear s pml4) (al : IsAligned pml4)
    (on : present (read_pte s.mem pml4) ≡ true) (small : huge (read_pte s.mem pml4) ≡ false)
    (c_old : Clear s (page_mask (read_pte s.mem pml4))) where
  abbrev e : ℕ
  e = read_pte s.mem pml4

  abbrev old : ℕ
  old = page_mask e

  module _ {p : ℕ} {m : Memory} (f : Fresh s 0 p m) (v : ℕ) (low : v < 2 ^ 39)
      (there : present (read_pte s.mem (slot old (index 2 v))) ≡ true)
      (fine : huge (read_pte s.mem (slot old (index 2 v))) ≡ false) where
    abbrev final : Memory
    final = write_pte (widen m old p 0 512) pml4 (first_entry p e)

    p_old : Away p page_size old page_size
    p_old = let ne = f.others old c_old in let al_p = f.aligned in ground arith

    old_entry : read_pte m (slot old (index 2 v)) ≡ read_pte s.mem (slot old (index 2 v))
    old_entry =
        load_ext s.mem m (slot old (index 2 v)) 8
          (λ x a b. f.unchanged old x c_old (omega arith) (omega arith))

    new_entry : read_pte final (slot p (index 2 v)) ≡ index 2 v * 2 ^ 30 + 0xA3
    new_entry =
        let j = index 2 v in
        let ne = f.others pml4 c in
        let al_p = f.aligned in
        let off : Away pml4 8 (slot p j) 8 = ground arith in
        let was : present (read_pte m (slot old j)) ≡ true = rw old_entry there in
        let narrow : huge (read_pte m (slot old j)) ≡ false = rw old_entry fine in
        let large : whole m old j ≡ bit_or (j * 2 ^ 30) 0xA3 = rw narrow refl in
        load-store_disjoint (widen m old p 0 512) pml4 8 (first_entry p e) (slot p j) 8
          (ground (arith, off))
        ∙ widen_lem old p p_old 512 m 0 j f.keeps.bytes (omega arith) (omega arith) (omega arith)
            was
        ∙ large
        ∙ or_large j (omega arith)

    first : read_pte final pml4 ≡ first_entry p e
    first =
        load-store (widen m old p 0 512) pml4 8 (first_entry p e)
          (first_entry_lem p e f.aligned f.bounded on small).0

    identity : virt_to_phys_on final pml4 v ≡ v
    unfolding virt_to_phys_on lookup_tables
    identity =
        let (_, on', narrow, mask) = first_entry_lem p e f.aligned f.bounded on small in
        let top : slot pml4 (index 3 v) ≡ pml4 = omega arith in
        let on'' : present (index 2 v * 2 ^ 30 + 0xA3) ≡ true = ground arith in
        let large : huge (index 2 v * 2 ^ 30 + 0xA3) ≡ true = ground arith in
        rw (top, first, on', narrow, mask, new_entry, on'', large) (omega arith)

  identity_of :
      {out : ℕ × Pmm} (v : ℕ)
      → Page s 0 out
      → v < 2 ^ 39
      → present (read_pte s.mem (slot old (index 2 v))) ≡ true
      → huge (read_pte s.mem (slot old (index 2 v))) ≡ false
      → virt_to_phys_on
          (write_pte (widen out.1.mem old out.0 0 512) pml4 (first_entry out.0 e))
          pml4
          v
        ≡ v
  identity_of v (fresh p m f) = identity f v

  -- replace_identity_pdpt maps an address below 512 GB to itself if the old second table had an
  -- entry for it that is no large page. Conditions: the allocator's tables are settled (memory
  -- holds bytes; the bitmaps overlap neither the table of descriptors nor each other and are no
  -- longer than their regions; the available regions are disjoint, below 2 GB each, end below 2 ^
  -- 64, start at page boundaries other than 0, and hold none of the allocator's tables); a page is
  -- free; the first table is at a page boundary, its first entry is present and no large page, and
  -- that table and the old second one are in pages that are neither free nor the allocator's.
  pub virt_to_phys_on-replace_identity_pdpt :
      (v : ℕ)
      → Settled s
      → Spare s 1
      → v < 2 ^ 39
      → present (read_pte s.mem (slot old (index 2 v))) ≡ true
      → huge (read_pte s.mem (slot old (index 2 v))) ≡ false
      → virt_to_phys_on (replace_identity_pdpt s pml4).mem pml4 v ≡ v
  unfolding replace_identity_pdpt
  virt_to_phys_on-replace_identity_pdpt v t sp low there fine =
      rw on (identity_of v (malloc_page-Page t sp) low there fine)
