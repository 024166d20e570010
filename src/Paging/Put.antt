-- ===== src/Paging/Put.antt =====
-- What map_page leaves after a walk that finds the last entry.
use os.Base.{
  ℕ, ◌+◌, ◌%◌, ◌^◌, ◌≤◌, ◌<◌, ◌≡◌, ◌⊎◌, true, false, ◌==◌, ◌∙◌, refl, arith, if◌then◌else◌, bit_or,
}
use os.Base.Memory.{Memory, load-store, store-IsBytes, store-outside}
use os.Pmm.{Pmm, page_size}
use os.Paging.{
  present, page_mask, read_pte, write_pte, walk_tables, walk_page_table, map_page, unmap_page,
  virt_to_phys_on,
}
use os.Paging.Frame.{Away, IsAligned, Settled, Clear, Outside, Outside-Keeps, Keeps-Settled}
use os.Paging.Path.{Avoids}
use os.Paging.Separate.{Separate}
use os.Paging.Found.{Walked, Found, found}
use os.Paging.Translate.{Reaches-write, lookup-Reaches, walk-Reaches, pte_lem}

-- What map_page does with the answer of the walk.
abbrev put : ℕ → ℕ → ℕ × Pmm → Pmm
put phys flags (a, s) =
    if a == 0 then s else record s { mem = write_pte s.mem a (bit_or (bit_or phys flags) 1) }

positive_test : (a : ℕ) → 0 < a → (a == 0) ≡ false
positive_test a h = ground arith

pub map_page_lem :
    (s : Pmm) (cr3 virt phys flags : ℕ)
    → map_page s cr3 virt phys flags ≡ put phys flags (walk_tables 4 s cr3 virt true)
unfolding map_page walk_page_table
map_page_lem s cr3 virt phys flags = refl

entry_outside : (a x : ℕ) → a % 8 ≡ 0 → Away (page_mask a) page_size x 1 → (x < a) ⊎ (a + 8 ≤ x)
entry_outside a x al off = ground arith

module _ {s : Pmm} {cr3 virt a : ℕ} {m : Memory} (w : Walked s 3 cr3 virt a m)
    (phys flags : ℕ) where
  put_found :
      put phys flags (a, record s { mem = m })
      ≡ record s { mem = write_pte m a (bit_or (bit_or phys flags) 1) }
  put_found = let ne : (a == 0) ≡ false = positive_test a w.positive in rw ne refl

  pte-Outside : Outside (page_mask a) m (write_pte m a (bit_or (bit_or phys flags) 1))
  pte-Outside x off =
      let al = w.aligned in
      store-outside m a 8 (bit_or (bit_or phys flags) 1) x (entry_outside a x al off)

  put-Settled : Settled s → Settled (put phys flags (a, record s { mem = m }))
  put-Settled t = rw put_found (
      Keeps-Settled
        (Outside-Keeps w.home (store-IsBytes m a 8 (bit_or (bit_or phys flags) 1) w.keeps.bytes)
          pte-Outside)
        (Keeps-Settled w.keeps t))

  put-unchanged :
      (u x : ℕ)
      → Clear s u
      → IsAligned u
      → Avoids s.mem 4 cr3 virt u
      → u ≤ x
      → x < u + page_size
      → (put phys flags (a, record s { mem = m })).mem x ≡ s.mem x
  put-unchanged u x c al av le lt =
      let off : (x < a) ⊎ (a + 8 ≤ x) = ground (arith, w.away u c al av) in
      rw put_found
        (store-outside m a 8 (bit_or (bit_or phys flags) 1) x off ∙ w.unchanged u x c al av le lt)

  module _ (al : IsAligned phys) (lt : phys < 2 ^ 64) (small : flags < page_size) where
    abbrev v : ℕ
    v = bit_or (bit_or phys flags) 1

    stored : read_pte (write_pte m a v) a ≡ v
    stored = load-store m a 8 v (pte_lem phys flags al lt small).0

    put-translated :
        virt_to_phys_on (put phys flags (a, record s { mem = m })).mem cr3 virt
        ≡ phys + virt % page_size
    unfolding virt_to_phys_on
    put-translated =
        let yes : present v ≡ true = ground (arith, pte_lem phys flags al lt small) in
        rw
          (
            put_found,
            lookup-Reaches (write_pte m a v) 3 cr3 virt a
                (Reaches-write m 3 cr3 virt a v w.reaches),
            stored,
            yes,
          )
          (omega (arith, pte_lem phys flags al lt small))

    -- The walk of unmap_page finds the entry, and the address is no longer translated.
    put-unmapped :
        virt_to_phys_on
          (unmap_page (put phys flags (a, record s { mem = m })) cr3 virt).mem
          cr3
          virt
        ≡ 0
    unfolding virt_to_phys_on unmap_page walk_page_table
    put-unmapped =
        let yes : present v ≡ true = ground (arith, pte_lem phys flags al lt small) in
        let m' = write_pte m a v in
        let m0 = write_pte m' a 0 in
        let r = Reaches-write m 3 cr3 virt a v w.reaches in
        rw
          (
            put_found,
            walk-Reaches (record s { mem = m' }) 3 cr3 virt a r,
            stored,
            yes,
            positive_test a w.positive,
            stored,
            yes,
            lookup-Reaches m0 3 cr3 virt a (Reaches-write m' 3 cr3 virt a 0 r),
            load-store m' a 8 0 (omega arith),
          )
          refl

pub translated_of :
    {s : Pmm} {cr3 virt : ℕ} {out : ℕ × Pmm} (phys flags : ℕ)
    → Found s 3 cr3 virt out
    → IsAligned phys
    → phys < 2 ^ 64
    → flags < page_size
    → (virt_to_phys_on (put phys flags out).mem cr3 virt ≡ phys + virt % page_size)
      × (virt_to_phys_on (unmap_page (put phys flags out) cr3 virt).mem cr3 virt ≡ 0)
translated_of phys flags (found a m w) al lt small =
    (put-translated w phys flags al lt small, put-unmapped w phys flags al lt small)

pub Found-Settled :
    {s : Pmm} {cr3 virt : ℕ} {out : ℕ × Pmm} (phys flags : ℕ)
    → Found s 3 cr3 virt out
    → Settled s
    → Settled (put phys flags out)
Found-Settled phys flags (found a m w) t = put-Settled w phys flags t

pub unchanged_of :
    {s : Pmm} {cr3 virt : ℕ} {out : ℕ × Pmm} (phys flags : ℕ)
    → Found s 3 cr3 virt out
    → (u x : ℕ) → Clear s u
    → IsAligned u
    → Avoids s.mem 4 cr3 virt u
    → u ≤ x
    → x < u + page_size
    → (put phys flags out).mem x ≡ s.mem x
unchanged_of phys flags (found a m w) = put-unchanged w phys flags

pub others_of :
    {s : Pmm} {cr3 virt : ℕ} {out : ℕ × Pmm} (phys flags w : ℕ)
    → Found s 3 cr3 virt out
    → Separate s 4 cr3 virt w
    → virt_to_phys_on (put phys flags out).mem cr3 w ≡ virt_to_phys_on s.mem cr3 w
unfolding virt_to_phys_on
others_of phys flags w (found a m walked) sep =
    rw (put_found walked phys flags) (walked.others (bit_or (bit_or phys flags) 1) w sep)
