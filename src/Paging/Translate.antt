-- ===== src/Paging/Translate.antt =====
-- The translation of an address, and the walk without creation, over a way that is there.
use os.Base.{
  ℕ, zero, suc, ◌+◌, ◌*◌, ◌/◌, ◌%◌, ◌^◌, ◌<◌, ◌≡◌, inl, inr, false, ◌==◌, refl, sym, ap, ◌∙◌, arith,
  Bool-cases, if◌then◌else◌, bit_or, u64,
}
use os.Base.Bits.{bit_or_sum, bit_or_one}
use os.Base.Memory.{Memory, load-store_disjoint}
use os.Pmm.{Pmm, page_size}
use os.Paging.{
  slot, index, present, page_mask, read_pte, write_pte, walk_entry, walk_tables, replace,
  lookup_tables,
}
use os.Paging.Frame.{Away, IsAligned}
use os.Paging.Path.{entry_of, Reaches}
use os.Paging.Entry.{walk_entry_kept}
use os.Paging.Walk.{rest_of, rest_of-suc, walk_tables_step}

-- A write of the last entry leaves the entries on the way.
upper_entry :
    (m : Memory) (level t vaddr a v : ℕ)
    → Away a 8 t page_size
    → entry_of (write_pte m a v) level t vaddr ≡ entry_of m level t vaddr
upper_entry m level t vaddr a v off =
    load-store_disjoint m a 8 v (slot t (index level vaddr)) 8 (ground arith)

pub Reaches-write :
    (m : Memory) (level t vaddr a v : ℕ)
    → Reaches m level t vaddr a
    → Reaches (write_pte m a v) level t vaddr a
Reaches-write m zero t vaddr a v e = e
Reaches-write m (suc level) t vaddr a v (p, h, off, r) =
    rw (upper_entry m (suc level) t vaddr a v off)
      (p, h, off, Reaches-write m level (page_mask (entry_of m (suc level) t vaddr)) vaddr a v r)

-- The translation over a way that is there.
pub lookup-Reaches :
    (m : Memory) (level t vaddr a : ℕ)
    → Reaches m level t vaddr a
    → lookup_tables (suc level) m t vaddr
      ≡ (if present (read_pte m a) then u64 (page_mask (read_pte m a) + vaddr % page_size) else 0)
unfolding lookup_tables
lookup-Reaches m zero t vaddr a e = rw e (ground arith)
lookup-Reaches m (suc level) t vaddr a (p, h, off, r) =
    let more : (suc level == 0) ≡ false = ground arith in
    rw (lookup_tables, p, h, more)
      (lookup-Reaches m level (page_mask (entry_of m (suc level) t vaddr)) vaddr a r)

-- The walk without creation over it
walk_last :
    (s : Pmm) (a : ℕ) (vaddr : ℕ)
    → rest_of false 0 vaddr a (walk_entry s 0 a false)
      ≡ (if present (read_pte s.mem a) then (a, s) else (0, s))
unfolding walk_entry replace
walk_last s a vaddr = elim (Bool-cases (present (read_pte s.mem a))) [
  | inl e ↦ rw e refl
  | inr e ↦ rw e refl
]

pub walk-Reaches :
    (s : Pmm) (level t vaddr a : ℕ)
    → Reaches s.mem level t vaddr a
    → walk_tables (suc level) s t vaddr false
      ≡ (if present (read_pte s.mem a) then (a, s) else (0, s))
walk-Reaches s zero t vaddr a e =
    rw (walk_tables_step s 0 t vaddr false, e) (walk_last s (slot t (index 0 vaddr)) vaddr)
walk-Reaches s (suc level) t vaddr a (p, h, off, r) =
    let b = slot t (index (suc level) vaddr) in
    rw
      (
        walk_tables_step s (suc level) t vaddr false,
        walk_entry_kept s (suc level) b false (ground (arith, p, h)),
        rest_of-suc false level vaddr b s,
      )
      (walk-Reaches s level (page_mask (read_pte s.mem b)) vaddr a r)

-- Of an address of a page, translated by an entry of a last table
pub pte_lem :
    (phys flags : ℕ)
    → IsAligned phys
    → phys < 2 ^ 64
    → flags < page_size
    → (bit_or (bit_or phys flags) 1 < 2 ^ 64)
      × (page_mask (bit_or (bit_or phys flags) 1) ≡ phys)
      × (bit_or (bit_or phys flags) 1 % 2 ≡ 1)
pte_lem phys flags al lt small =
    let whole : phys ≡ phys / page_size * 2 ^ 12 = omega arith in
    let sum : bit_or phys flags ≡ phys + flags =
      ap (λ z. bit_or z flags) whole
      ∙ bit_or_sum 12 (phys / page_size) flags (omega arith)
      ∙ ap (λ z. z + flags) (sym whole) in
    rw (sum, bit_or_one) (omega arith)
