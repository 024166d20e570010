-- ===== src/Paging/Path.antt =====
-- The tables on the way of walk_page_table.
use Prim.{Unit}
use os.Base.{ℕ, zero, suc, ◌<◌, ◌≡◌, ◌≢◌, true, false}
use os.Base.Memory.{Memory}
use os.Pmm.{Pmm, page_size}
use os.Paging.{slot, index, present, huge, page_mask, read_pte}
use os.Paging.Frame.{Away, IsAligned, Clear}
use os.Paging.Entry.{does}

-- The entry of a table for an address.
abbrev pub entry_of : Memory → ℕ → ℕ → ℕ → ℕ
entry_of m level t vaddr = read_pte m (slot t (index level vaddr))

-- The walk from table `t` on, with `n` levels to go, does not go through the page at `u`.
abbrev pub Avoids : Memory → ℕ → ℕ → ℕ → ℕ → Type 0
Avoids m zero t vaddr u = Unit {0}
Avoids m (suc level) t vaddr u =
    (u ≢ t)
    × (level ≢ 0
        → does level (entry_of m level t vaddr) ≡ true
        → Avoids m level (page_mask (entry_of m level t vaddr)) vaddr u)

-- The tables that the walk goes through are at clear pages other than 0, and are all different.
abbrev pub Tables : Pmm → ℕ → ℕ → ℕ → Type 0
Tables s zero t vaddr = Unit {0}
Tables s (suc level) t vaddr =
    Clear s t
    × IsAligned t
    × (0 < t)
    × (level ≢ 0
        → does level (entry_of s.mem level t vaddr) ≡ true
        → Tables s level (page_mask (entry_of s.mem level t vaddr)) vaddr
          × Avoids s.mem level (page_mask (entry_of s.mem level t vaddr)) vaddr t)

-- In memory `m`, present entries that are no large pages lead from table `t` of a level to the last
-- entry, at `a`; a write there changes none of them.
abbrev pub Reaches : Memory → ℕ → ℕ → ℕ → ℕ → Type 0
Reaches m zero t vaddr a = a ≡ slot t (index 0 vaddr)
Reaches m (suc level) t vaddr a =
    (present (entry_of m (suc level) t vaddr) ≡ true)
    × (huge (entry_of m (suc level) t vaddr) ≡ false)
    × Away a 8 t page_size
    × Reaches m level (page_mask (entry_of m (suc level) t vaddr)) vaddr a
