-- ===== src/Paging/Entry.antt =====
-- An entry of a table on the way, where walk_page_table may put a new table into it.
use os.Base.{
  ℕ, suc, ◌+◌, ◌*◌, ◌/◌, ◌^◌, ◌≤◌, ◌<◌, ◌≡◌, ◌≢◌, ◌⊎◌, inl, inr, Bool, true, false, not, ◌&&◌, ◌||◌,
  ◌==◌, sym, ap, ◌∙◌, arith, Bool-cases, if◌then◌else◌, bit_or,
}
use os.Base.Bits.{bit_or_sum}
use os.Base.Memory.{Memory, IsBytes, load-store, store-outside, store-IsBytes}
use os.Pmm.{Pmm, page_size}
use os.Paging.{slot, present, huge, read_pte, write_pte, new_table, replace, walk_entry}
use os.Paging.Frame.{
  IsAligned, Settled, Clear, Keeps, Outside, Outside-Keeps, Keeps-Clear, Keeps-trans,
}
use os.Paging.Grant.{Spare, Spare-Outside}
use os.Paging.Fresh.{Fresh, Page, fresh, malloc_page-Page}

-- In memory `m` the entry at `a` of table `t` leads to the new table `p`, whose entries are 0; the
-- clear pages but `t` and the other entries of `t` are as they were, and `n` free pages are left.
pub record Leads (s : Pmm) (n t a p : ℕ) (m : Memory) : Type 0 where
  pub keeps : Keeps s m
  pub own : Clear (record s { mem = m }) p
  pub positive : 0 < p
  pub aligned : IsAligned p
  pub entry : read_pte m a ≡ p + 7
  pub zeros : (x : ℕ) → p ≤ x → x < p + page_size → m x ≡ 0
  pub others : (u : ℕ) → Clear s u → u ≢ p
  pub unchanged :
      (u x : ℕ) → Clear s u → IsAligned u → u ≢ t → u ≤ x → x < u + page_size → m x ≡ s.mem x
  pub siblings : (x : ℕ) → t ≤ x → x < t + page_size → (x < a) ⊎ (a + 8 ≤ x) → m x ≡ s.mem x
  pub spare : Spare (record s { mem = m }) n

pub data Made (s : Pmm) (n t a : ℕ) : Bool × Pmm → Type 0 where
  made : (p : ℕ) (m : Memory) → Leads s n t a p m → Made s n t a (true, record s { mem = m })

-- Two pages are the same or do not meet.
pub aligned_apart :
    (t u x : ℕ)
    → IsAligned t
    → IsAligned u
    → u ≢ t
    → u ≤ x
    → x < u + page_size
    → (x < t) ⊎ (t + page_size ≤ x)
aligned_apart t u x at au ne le lt = omega arith

table_entry : (p : ℕ) → IsAligned p → bit_or p 7 ≡ p + 7
table_entry p al =
    let whole : p ≡ p / page_size * 2 ^ 12 = omega arith in
    ap (λ z. bit_or z 7) whole
    ∙ bit_or_sum 12 (p / page_size) 7 (omega arith)
    ∙ ap (λ z. z + 7) (sym whole)

module _ {s : Pmm} {n t i p : ℕ} {m : Memory} (c : Clear s t) (al : IsAligned t) (lt : i < 512)
    (f : Fresh s n p m) where
  abbrev a : ℕ
  a = slot t i

  abbrev linked : Memory
  linked = write_pte m a (bit_or p 7)

  own_table : Clear (record s { mem = m }) t
  own_table = Keeps-Clear f.keeps t c

  linked-outside : (x : ℕ) → (x < t) ⊎ (t + page_size ≤ x) → linked x ≡ m x
  linked-outside x off = ground (arith, store-outside m a 8 (bit_or p 7) x)

  linked-Outside : Outside t m linked
  linked-Outside x off = linked-outside x (ground arith)

  linked_bytes : IsBytes linked
  linked_bytes = store-IsBytes m a 8 (bit_or p 7) f.keeps.bytes

  linked-Keeps : Keeps (record s { mem = m }) linked
  linked-Keeps = Outside-Keeps own_table linked_bytes linked-Outside

  linked-Leads : Leads s n t a p linked
  linked-Leads = record {
    keeps = Keeps-trans f.keeps linked-Keeps;
    own = Keeps-Clear linked-Keeps p f.own;
    positive = f.positive;
    aligned = f.aligned;
    entry =
        load-store m a 8 (bit_or p 7) (omega (arith, table_entry p f.aligned, f.bounded, f.aligned))
        ∙ table_entry p f.aligned;
    zeros = λ x le le'.
        let ne : p ≢ t = λ e. f.others t c (sym e) in
        linked-outside x (aligned_apart t p x al f.aligned ne le le') ∙ f.zeros x le le';
    others = f.others;
    unchanged = λ u x cu au ne le le'.
        linked-outside x (aligned_apart t u x al au ne le le') ∙ f.unchanged u x cu le le';
    siblings = λ x le le' off. store-outside m a 8 (bit_or p 7) x off ∙ f.unchanged t x c le le';
    spare = Spare-Outside own_table linked_bytes linked-Outside f.spare;
  }

  new_table_of :
      Made s n t a
        (if p == 0 then (false, record s { mem = m }) else (true, record s { mem = linked }))
  new_table_of =
      let ne : (p == 0) ≡ false = ground (arith, f.positive) in rw ne (made p linked linked-Leads)

Made-page :
    {s : Pmm} {n t i : ℕ} {out : ℕ × Pmm}
    → Clear s t
    → IsAligned t
    → i < 512
    → Page s n out
    → Made s n t (slot t i) (
        if out.0 == 0
        then (false, out.1)
        else (true, record out.1 { mem = write_pte out.1.mem (slot t i) (bit_or out.0 7) }))
Made-page c al lt (fresh p m f) = new_table_of c al lt f

-- With a free page, a new table is put into an entry of a clear table.
pub new_table-Made :
    {s : Pmm} {n t i : ℕ}
    → Settled s
    → Spare s (suc n)
    → Clear s t
    → IsAligned t
    → i < 512
    → Made s n t (slot t i) (new_table s (slot t i))
unfolding new_table
new_table-Made st sp c al lt = Made-page c al lt (malloc_page-Page st sp)

-- Will the entry do as it is?
abbrev pub does : ℕ → ℕ → Bool
does level e = present e && ((level == 0) || not (huge e))

pub walk_entry_kept :
    (s : Pmm) (level a : ℕ) (create : Bool)
    → does level (read_pte s.mem a) ≡ true
    → walk_entry s level a create ≡ (true, s)
unfolding walk_entry replace
walk_entry_kept s level a create e =
    let p : present (read_pte s.mem a) ≡ true = ground (arith, e) in
    let h : (not (level == 0) && huge (read_pte s.mem a)) ≡ false = ground (arith, e) in rw (p, h)

-- An entry with a new table needs no second one.
again_of :
    {s : Pmm} {n t a : ℕ} {out : Bool × Pmm} (level : ℕ)
    → Made s n t a out
    → Made s n t a (
        if out.0
        then replace out.1 a true (not (level == 0) && huge (read_pte out.1.mem a))
        else (false, out.1))
unfolding replace
again_of {a = a} level (made p m f) =
    let h : (not (level == 0) && huge (read_pte m a)) ≡ false =
      ground (arith, f.entry, f.aligned) in
    rw h (made p m f)

pub walk_entry_new :
    {s : Pmm} {n t a : ℕ} (level : ℕ)
    → does level (read_pte s.mem a) ≡ false
    → Made s n t a (new_table s a)
    → Made s n t a (walk_entry s level a true)
unfolding walk_entry replace
walk_entry_new {s} {a = a} level e new = elim (Bool-cases (present (read_pte s.mem a))) [
  | inr missing ↦ rw missing (again_of level new)
  | inl there ↦
      let h : (not (level == 0) && huge (read_pte s.mem a)) ≡ true = ground (arith, e) in
      rw (there, h) new
]
