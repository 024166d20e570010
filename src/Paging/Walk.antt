-- ===== src/Paging/Walk.antt =====
-- walk_page_table with creation, over tables that do not run into each other.
use os.Base.{
  ℕ, zero, suc, ◌+◌, ◌<◌, ◌≡◌, inl, inr, Bool, true, false, ◌==◌, refl, arith, Bool-cases,
}
use os.Pmm.{Pmm}
use os.Paging.{slot, index, page_mask, read_pte, walk_entry, walk_tables}
use os.Paging.Frame.{IsAligned, Settled, Clear, Keeps-Settled, Keeps-Clear, Keeps-self}
use os.Paging.Grant.{Spare, Spare-less}
use os.Paging.Entry.{Made, made, does, new_table-Made, walk_entry_kept, walk_entry_new}
use os.Paging.Path.{Tables, entry_of}
use os.Paging.Found.{Found}
use os.Paging.Follow.{Found-kept, Tables-new, Found-made, Found-last}

-- What is left of the walk, after the entry at `a` of a table of a level.
abbrev pub rest_of : Bool → ℕ → ℕ → ℕ → Bool × Pmm → ℕ × Pmm
rest_of create level vaddr a out = elim out.0 [
  | false ↦ (0, out.1)
  | true ↦ elim (level == 0) [
    | true ↦ (a, out.1)
    | false ↦ walk_tables level out.1 (page_mask (read_pte out.1.mem a)) vaddr create
  ]
]

pub rest_of-suc :
    (create : Bool) (level vaddr a : ℕ) (s : Pmm)
    → rest_of create (suc level) vaddr a (true, s)
      ≡ walk_tables (suc level) s (page_mask (read_pte s.mem a)) vaddr create
rest_of-suc create level vaddr a s =
    let more : (suc level == 0) ≡ false = ground arith in rw (rest_of, more) refl

pub walk_tables_step :
    (s : Pmm) (level t vaddr : ℕ) (create : Bool)
    → walk_tables (suc level) s t vaddr create
      ≡ rest_of create level vaddr
          (slot t (index level vaddr))
          (walk_entry s level (slot t (index level vaddr)) create)
unfolding walk_tables
walk_tables_step s level t vaddr create = refl

Found-last_made :
    {s : Pmm} {n t : ℕ} (vaddr : ℕ) {out : Bool × Pmm}
    → Clear s t
    → IsAligned t
    → 0 < t
    → Made s n t (slot t (index 0 vaddr)) out
    → Found s 0 t vaddr (rest_of true 0 vaddr (slot t (index 0 vaddr)) out)
Found-last_made {t = t} vaddr c al pos (made p m f) =
    Found-last vaddr f.keeps (Keeps-Clear f.keeps t c) al pos f.unchanged f.siblings

-- The walk from a table of a level on is as it should be.
abbrev WalksFrom : ℕ → ℕ → Type 0
WalksFrom level vaddr =
    (s : Pmm) (t : ℕ)
    → Settled s
    → Spare s (suc level)
    → Tables s (suc level) t vaddr
    → Found s level t vaddr (walk_tables (suc level) s t vaddr true)

Found-next :
    {s : Pmm} (level : ℕ) {t : ℕ} (vaddr : ℕ) {out : Bool × Pmm}
    → Settled s
    → Clear s t
    → IsAligned t
    → does (suc level) (entry_of s.mem (suc level) t vaddr) ≡ false
    → WalksFrom level vaddr
    → Made s (suc level) t (slot t (index (suc level) vaddr)) out
    → Found s
        (suc level)
        t
        vaddr
        (rest_of true (suc level) vaddr (slot t (index (suc level) vaddr)) out)
Found-next {s} level {t} vaddr st c al new walks (made p m f) =
    let mask : page_mask (p + 7) ≡ p = omega (arith, f.aligned) in
    let a = slot t (index (suc level) vaddr) in
    rw (rest_of-suc true level vaddr a (record s { mem = m }), f.entry, mask)
      (Found-made level vaddr c al f new (
        walks (record s { mem = m }) p (Keeps-Settled f.keeps st) f.spare
          (Tables-new level vaddr c al f)))

walk-zero : (vaddr : ℕ) → WalksFrom 0 vaddr
walk-zero vaddr s t st sp (c, al, pos, _) =
    let a = slot t (index 0 vaddr) in
    rw (walk_tables_step s 0 t vaddr true) (elim (Bool-cases (does 0 (read_pte s.mem a))) [
      | inl ok ↦ rw (walk_entry_kept s 0 a true ok) (
          Found-last vaddr (Keeps-self st) c al pos (λ u x cu au ne le lt. refl)
            (λ x le lt off. refl))
      | inr new ↦
          Found-last_made vaddr c al pos
            (walk_entry_new 0 new (new_table-Made st sp c al (omega arith)))
    ])

walk-suc : (level vaddr : ℕ) → WalksFrom level vaddr → WalksFrom (suc level) vaddr
walk-suc level vaddr walks s t st sp (c, al, pos, go) =
    let a = slot t (index (suc level) vaddr) in
    rw (walk_tables_step s (suc level) t vaddr true)
      (elim (Bool-cases (does (suc level) (read_pte s.mem a))) [
        | inl ok ↦
            let rest = go (omega arith) ok in
            rw (walk_entry_kept s (suc level) a true ok, rest_of-suc true level vaddr a s)
              (Found-kept level vaddr c al ok rest.1
                (walks s (page_mask (read_pte s.mem a)) st (Spare-less sp) rest.0))
        | inr new ↦
            Found-next level vaddr st c al new walks
              (walk_entry_new (suc level) new (new_table-Made st sp c al (omega arith)))
      ])

-- The walk finds the last entry.
pub walk_tables-Found : (level vaddr : ℕ) → WalksFrom level vaddr
walk_tables-Found zero vaddr = walk-zero vaddr
walk_tables-Found (suc level) vaddr = walk-suc level vaddr (walk_tables-Found level vaddr)
