-- ===== src/Paging/Writable.antt =====
-- make_phys_writable: the entries on the way to a page.
use Prim.{tt}
use os.Base.{
  ℕ, zero, suc, ◌≡◌, ◌≢◌, inl, inr, true, false, not, ◌&&◌, ◌||◌, ◌==◌, refl, sym, ap, subst, ◌∙◌,
  arith, Bool-cases, bit_or,
}
use os.Base.Memory.{Memory, IsBytes, load_ext, load-lt, load-store}
use os.Paging.{
  slot, index, present, huge, page_mask, read_pte, write_pte, lookup_tables, virt_to_phys_on,
  make_writable, make_phys_writable,
}
use os.Paging.Entry.{does}
use os.Paging.Path.{entry_of}
use os.Paging.Separate.{lookup_ext}
use os.Paging.Follow.{lookup_follow}
use os.Paging.Raise.{
  Way, AllWritable, Same, Way-Same, Avoids-Same, upper, follows, next, below, make_writable-outside,
  marked, upper-entry, upper-IsBytes,
}

lookup-Same :
    (n : ℕ) (m m' : Memory) (t v : ℕ)
    → Same m m' n t v
    → lookup_tables n m' t v ≡ lookup_tables n m t v
unfolding lookup_tables
lookup-Same zero m m' t v same = refl
lookup-Same (suc level) m m' t v (e, same) =
    lookup_ext level m m' t t v e
      (λ n0 d. lookup-Same level m m' (page_mask (entry_of m level t v)) v (same n0 d))

-- The entries on the way are writable, and the translation is the one before.
abbrev Raised : ℕ → Memory → Memory → ℕ → ℕ → Type 0
Raised n m mf t v = AllWritable mf n t v × (lookup_tables n mf t v ≡ lookup_tables n m t v)

Raised-none :
    (level : ℕ) (m : Memory) (t v : ℕ)
    → present (entry_of m level t v) ≡ false
    → Raised (suc level) m m t v
Raised-none level m t v none = ((λ on. absurd (ground arith)), refl)

Raised-leaf :
    (level : ℕ) (m : Memory) (t v : ℕ)
    → IsBytes m
    → let e = entry_of m level t v in
      present e ≡ true
      → ((level == 0) || huge e) ≡ true
      → Raised (suc level) m (write_pte m (slot t (index level v)) (bit_or e 2)) t v
unfolding lookup_tables
Raised-leaf level m t v bytes on leaf =
    let b = slot t (index level v) in
    let e = entry_of m level t v in
    let (fits, is_writable, same_present, same_huge, same_mask) = marked e (load-lt m b 8 bytes) in
    let now : read_pte (write_pte m b (bit_or e 2)) b ≡ bit_or e 2 =
      load-store m b 8 (bit_or e 2) fits in
    (
      rw now (λ _. (is_writable, λ n0 d. absurd (ground arith))),
      rw (now, same_present, same_huge, same_mask, on, leaf) refl,
    )

Raised-more :
    (level : ℕ) (m mf : Memory) (t v : ℕ)
    → IsBytes m
    → let e = entry_of m level t v in
      present e ≡ true
      → level ≢ 0
      → does level e ≡ true
      → entry_of mf level t v ≡ bit_or e 2
      → AllWritable mf level (page_mask e) v
      → lookup_tables level mf (page_mask e) v ≡ lookup_tables level m (page_mask e) v
      → Raised (suc level) m mf t v
Raised-more level m mf t v bytes on n0 d now all same =
    let e = entry_of m level t v in
    let (_, is_writable, same_present, same_huge, same_mask) =
      marked e (load-lt m (slot t (index level v)) 8 bytes) in
    let narrow : huge e ≡ false = ground arith in
    (
      rw (now, same_mask) (λ _. (is_writable, λ _ _. all)),
      lookup_follow level mf t v (bit_or e 2) now n0 (same_present ∙ on) (same_huge ∙ narrow)
          ∙ ap (λ z. lookup_tables level mf z v) same_mask
          ∙ same
          ∙ sym (lookup_follow level m t v e refl n0 on narrow),
    )

make_writable-Raised :
    (n : ℕ) (m : Memory) (t v : ℕ)
    → IsBytes m
    → Way m n t v
    → Raised n m (make_writable n m t v) t v
unfolding make_writable
make_writable-Raised zero m t v bytes way = (tt, refl)
make_writable-Raised (suc level) m t v bytes (at, top, way) =
    let b = slot t (index level v) in
    let e = read_pte m b in
    let deep = next level m t v at in
    let ends = λ (z : Memory). Raised (suc level) m z t v in
    elim (Bool-cases (present e)) [
      | inr none ↦
          let end : make_writable (suc level) m t v ≡ m = rw none refl in
          subst ends (sym end) (Raised-none level m t v none)
      | inl on ↦ elim (Bool-cases ((level == 0) || ((not (level == 3)) && huge e))) [
        | inl leaf ↦
            let end : make_writable (suc level) m t v ≡ write_pte m b (bit_or e 2) =
              rw (on, leaf) refl in
            subst ends (sym end) (Raised-leaf level m t v bytes on (ground arith))
        | inr more ↦
            let (n0, d) = follows level e top on more in
            let (way', av_t) = way n0 d in
            let same = below level m t v at way' av_t in
            let way'' = Way-Same level m (upper m b) deep v same way' in
            let mf = make_writable level (upper m b) deep v in
            let (all, kept) =
              make_writable-Raised level (upper m b) deep v (upper-IsBytes m b bytes) way'' in
            let stays : entry_of mf level t v ≡ bit_or e 2 =
              load_ext (upper m b) mf b 8 (λ x p q.
                make_writable-outside level (upper m b) deep v t x at way''
                  (Avoids-Same level m (upper m b) deep v t same av_t) (omega arith) (omega arith))
              ∙ upper-entry m b bytes in
            let end : make_writable (suc level) m t v ≡ mf = rw (on, more) refl in
            subst ends (sym end) (
              Raised-more level m mf t v bytes on n0 d stays all
                (kept ∙ lookup-Same level m (upper m b) deep v same))
      ]
    ]

-- After make_phys_writable every present entry on the way to an address is writable, and the address
-- is translated as before. The tables on the way are different pages, and the entry of the first table
-- is no large page. Memory holds bytes.
pub make_phys_writable-AllWritable :
    (m : Memory) (cr3 v : ℕ)
    → IsBytes m
    → Way m 4 cr3 v
    → AllWritable (make_phys_writable m cr3 v) 4 cr3 v
      × (virt_to_phys_on (make_phys_writable m cr3 v) cr3 v ≡ virt_to_phys_on m cr3 v)
unfolding make_phys_writable virt_to_phys_on
make_phys_writable-AllWritable m cr3 v bytes way = make_writable-Raised 4 m cr3 v bytes way
