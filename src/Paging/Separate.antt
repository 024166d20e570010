-- ===== src/Paging/Separate.antt =====
-- Addresses whose translation a walk for another address does not touch.
use Prim.{Unit}
use os.Base.{
  ℕ, zero, suc, ◌≡◌, ◌≢◌, ◌⊎◌, inl, inr, true, false, ◌||◌, ◌==◌, refl, arith, Bool-cases,
}
use os.Base.Memory.{Memory}
use os.Pmm.{Pmm}
use os.Paging.{index, present, huge, page_mask, lookup_tables}
use os.Paging.Frame.{IsAligned, Clear}
use os.Paging.Entry.{does}
use os.Paging.Path.{entry_of, Avoids}

-- The addresses part at this level or below.
abbrev pub Later : ℕ → ℕ → ℕ → Type 0
Later zero v w = Unit {0}
Later (suc level) v w =
    (index level w ≢ index level v)
    ⊎ ((index level w ≡ index level v) × (level ≢ 0) × Later level v w)

-- The tables for `w` from `u` on, with `n` levels to go, are at pages with `P`.
abbrev pub Aside : (ℕ → Type 0) → Memory → ℕ → ℕ → ℕ → Type 0
Aside P m zero u w = Unit {0}
Aside P m (suc level) u w =
    P u
    × (level ≢ 0
        → does level (entry_of m level u w) ≡ true
        → Aside P m level (page_mask (entry_of m level u w)) w)

-- A page that the walk for `v` from table `t` on, with `n` levels to go, leaves alone
abbrev pub IsOff : Pmm → ℕ → ℕ → ℕ → ℕ → Type 0
IsOff s n t v u = Clear s u × IsAligned u × Avoids s.mem n t v u

-- From table `t` on, the ways for `v` and `w` part: the tables of `w` behind that point are at pages
-- that the walk for `v` leaves alone. Up to that point there is no large page.
abbrev pub Separate : Pmm → ℕ → ℕ → ℕ → ℕ → Type 0
Separate s zero t v w = Unit {0}
Separate s (suc level) t v w =
    ((index level w ≢ index level v)
      × (level ≢ 0
          → does level (entry_of s.mem level t w) ≡ true
          → Aside (IsOff s (suc level) t v) s.mem level (page_mask (entry_of s.mem level t w)) w))
    ⊎ ((index level w ≡ index level v)
        × (level ≢ 0)
        × (((present (entry_of s.mem level t w) ≡ false) × Later level v w)
            ⊎ ((does level (entry_of s.mem level t w) ≡ true)
                × Separate s level (page_mask (entry_of s.mem level t w)) v w)))

-- The pages with `P` are the same in both memories.
abbrev pub SamePages : (ℕ → Type 0) → Memory → Memory → Type 0
SamePages P m m' = (u level w : ℕ) → P u → entry_of m' level u w ≡ entry_of m level u w

-- An entry that does is followed, another one is final.
pub lookup_ext :
    (level : ℕ) (m m' : Memory) (t t' w : ℕ)
    → entry_of m' level t' w ≡ entry_of m level t w
    → (level ≢ 0
        → does level (entry_of m level t w) ≡ true
        → lookup_tables level m' (page_mask (entry_of m level t w)) w
          ≡ lookup_tables level m (page_mask (entry_of m level t w)) w)
    → lookup_tables (suc level) m' t' w ≡ lookup_tables (suc level) m t w
unfolding lookup_tables
lookup_ext level m m' t t' w e deeper =
    let en = entry_of m level t w in
    rw e (elim (Bool-cases (present en)) [
      | inr off ↦ rw off refl
      | inl on ↦ elim (Bool-cases ((level == 0) || huge en)) [
        | inl final ↦ rw (on, final) refl
        | inr more ↦ rw (on, more) (deeper (ground arith) (ground arith))
      ]
    ])

pub lookup-Aside :
    (level : ℕ) (P : ℕ → Type 0) (m m' : Memory) (u w : ℕ)
    → SamePages P m m'
    → Aside P m level u w
    → lookup_tables level m' u w ≡ lookup_tables level m u w
unfolding lookup_tables
lookup-Aside zero P m m' u w same off = refl
lookup-Aside (suc level) P m m' u w same (here, off) =
    lookup_ext level m m' u u w (same u level w here)
      (λ ne d. lookup-Aside level P m m' (page_mask (entry_of m level u w)) w same (off ne d))
