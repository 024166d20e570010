-- ===== src/Paging/Found.antt =====
-- The way as it is after a round of walk_page_table.
use os.Base.{ℕ, suc, ◌+◌, ◌%◌, ◌≤◌, ◌<◌, ◌≡◌, ◌≢◌, ◌⊎◌, true, false, refl, ◌∙◌, arith}
use os.Base.Memory.{Memory, load, load_ext, load-store_disjoint}
use os.Pmm.{Pmm, page_size}
use os.Paging.{slot, index, page_mask, write_pte, lookup_tables}
use os.Paging.Frame.{Away, IsAligned, Clear, Keeps}
use os.Paging.Entry.{does}
use os.Paging.Path.{entry_of, Avoids, Reaches}
use os.Paging.Separate.{Aside, IsOff, Separate, SamePages, lookup_ext, lookup-Aside}

-- What the walk leaves: the way to the last entry, with the clear pages that it avoids as they were.
pub record Walked (s : Pmm) (level t vaddr a : ℕ) (m : Memory) : Type 0 where
  pub reaches : Reaches m level t vaddr a
  pub positive : 0 < a
  pub keeps : Keeps s m
  pub aligned : a % 8 ≡ 0
  pub home : Clear (record s { mem = m }) (page_mask a)
  pub unchanged :
      (u x : ℕ)
      → Clear s u
      → IsAligned u
      → Avoids s.mem (suc level) t vaddr u
      → u ≤ x
      → x < u + page_size
      → m x ≡ s.mem x
  pub away :
      (u : ℕ) → Clear s u → IsAligned u → Avoids s.mem (suc level) t vaddr u → Away a 8 u page_size
  -- The entries of `t` for other addresses
  pub siblings :
      (x : ℕ)
      → t ≤ x
      → x < t + page_size
      → (x < slot t (index level vaddr)) ⊎ (slot t (index level vaddr) + 8 ≤ x)
      → m x ≡ s.mem x
  -- With any last entry, the other addresses are translated as before.
  pub others :
      (v w : ℕ)
      → Separate s (suc level) t vaddr w
      → lookup_tables (suc level) (write_pte m a v) t w ≡ lookup_tables (suc level) s.mem t w

pub data Found (s : Pmm) (level t vaddr : ℕ) : ℕ × Pmm → Type 0 where
  found :
      (a : ℕ) (m : Memory)
      → Walked s level t vaddr a m
      → Found s level t vaddr (a, record s { mem = m })

-- A page of zeros leads nowhere.
pub zero_entry :
    (m : Memory) (level p vaddr : ℕ)
    → ((x : ℕ) → p ≤ x → x < p + page_size → m x ≡ 0)
    → entry_of m level p vaddr ≡ 0
unfolding load
zero_entry m level p vaddr zeros =
    load_ext (λ _. 0) m (slot p (index level vaddr)) 8
      (λ x a b. zeros x (omega arith) (omega arith))

does_not : (level : ℕ) → does level 0 ≡ false
does_not level = refl

-- What the memory of a walk gives for an address that parts from it at table `t`.
module _ {s : Pmm} (level t vaddr : ℕ) {a : ℕ} {m : Memory}
    (unchanged : (u x : ℕ)
      → Clear s u
      → IsAligned u
      → Avoids s.mem (suc level) t vaddr u
      → u ≤ x
      → x < u + page_size
      → m x ≡ s.mem x)
    (away : (u : ℕ)
      → Clear s u
      → IsAligned u
      → Avoids s.mem (suc level) t vaddr u
      → Away a 8 u page_size)
    (v : ℕ) where
  pub same_pages : SamePages (IsOff s (suc level) t vaddr) s.mem (write_pte m a v)
  same_pages u l w (c, al, av) =
      let b = slot u (index l w) in
      let off = away u c al av in
      load-store_disjoint m a 8 v b 8 (ground (arith, off))
      ∙ load_ext s.mem m b 8 (λ x p q. unchanged u x c al av (omega arith) (omega arith))

  module _
      (siblings : (x : ℕ)
        → t ≤ x
        → x < t + page_size
        → (x < slot t (index level vaddr)) ⊎ (slot t (index level vaddr) + 8 ≤ x)
        → m x ≡ s.mem x)
      (home : (a ≡ slot t (index level vaddr)) ⊎ Away a 8 t page_size) (w : ℕ)
      (ne : index level w ≢ index level vaddr) where
    other_entry : entry_of (write_pte m a v) level t w ≡ entry_of s.mem level t w
    other_entry =
        let b = slot t (index level w) in
        load-store_disjoint m a 8 v b 8 (ground arith)
        ∙ load_ext s.mem m b 8 (λ x p q. siblings x (omega arith) (omega arith) (ground arith))

    pub others_apart :
        (level ≢ 0
          → does level (entry_of s.mem level t w) ≡ true
          → Aside
              (IsOff s (suc level) t vaddr)
              s.mem
              level
              (page_mask (entry_of s.mem level t w))
              w)
        → lookup_tables (suc level) (write_pte m a v) t w ≡ lookup_tables (suc level) s.mem t w
    others_apart off = lookup_ext level s.mem (write_pte m a v) t t w other_entry (λ n0 d.
        lookup-Aside level (IsOff s (suc level) t vaddr) s.mem (write_pte m a v)
          (page_mask (entry_of s.mem level t w)) w same_pages (off n0 d))

-- The entry of a clear page that the rest of the walk avoids stays.
pub entry_stays :
    {s : Pmm} {level next vaddr a : ℕ} {m : Memory} (above t : ℕ)
    → Walked s level next vaddr a m
    → Clear s t
    → IsAligned t
    → Avoids s.mem (suc level) next vaddr t
    → entry_of m above t vaddr ≡ entry_of s.mem above t vaddr
entry_stays {s} {vaddr = vaddr} {m = m} above t w c al av =
    load_ext s.mem m (slot t (index above vaddr)) 8
      (λ x p q. w.unchanged t x c al av (omega arith) (omega arith))
