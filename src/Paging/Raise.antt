-- ===== src/Paging/Raise.antt =====
-- The loop of make_phys_writable.
use Prim.{Unit, tt}
use os.Base.{
  ℕ, zero, suc, ◌+◌, ◌^◌, ◌≤◌, ◌<◌, ◌≡◌, ◌≢◌, ◌⊎◌, inl, inr, true, false, not, ◌&&◌, ◌||◌, ◌==◌,
  if◌then◌else◌, refl, sym, ◌∙◌, arith, Bool-cases, bit_or,
}
use os.Base.Memory.{Memory, IsBytes, load_ext, load-lt, load-store, store-outside, store-IsBytes}
use os.Pmm.{page_size}
use os.Paging.{slot, index, present, huge, writable, page_mask, read_pte, write_pte, make_writable}
use os.Paging.Frame.{IsAligned}
use os.Paging.Entry.{aligned_apart, does}
use os.Paging.Path.{entry_of, Avoids}
use os.Paging.Widen.{bit_or_two}

-- The tables on the way are different, and the entry of the first one is no large page.
abbrev pub Way : Memory → ℕ → ℕ → ℕ → Type 0
Way m zero t v = Unit {0}
Way m (suc level) t v =
    IsAligned t
    × (level ≡ 3 → huge (entry_of m level t v) ≡ false)
    × (level ≢ 0
        → does level (entry_of m level t v) ≡ true
        → Way m level (page_mask (entry_of m level t v)) v
          × Avoids m level (page_mask (entry_of m level t v)) v t)

-- The present entries on the way are writable.
abbrev pub AllWritable : Memory → ℕ → ℕ → ℕ → Type 0
AllWritable m zero t v = Unit {0}
AllWritable m (suc level) t v =
    present (entry_of m level t v) ≡ true
    → (writable (entry_of m level t v) ≡ true)
      × (level ≢ 0
          → does level (entry_of m level t v) ≡ true
          → AllWritable m level (page_mask (entry_of m level t v)) v)

-- The entries on the way are the same.
abbrev pub Same : Memory → Memory → ℕ → ℕ → ℕ → Type 0
Same m m' zero t v = Unit {0}
Same m m' (suc level) t v =
    (entry_of m' level t v ≡ entry_of m level t v)
    × (level ≢ 0
        → does level (entry_of m level t v) ≡ true
        → Same m m' level (page_mask (entry_of m level t v)) v)

-- The memories agree but for the page at `u`.
abbrev But : ℕ → Memory → Memory → Type 0
But u m m' = (x : ℕ) → (x < u) ⊎ (u + page_size ≤ x) → m' x ≡ m x

Same-But :
    (n : ℕ) (m m' : Memory) (t v u : ℕ)
    → IsAligned u
    → But u m m'
    → Way m n t v
    → Avoids m n t v u
    → Same m m' n t v
Same-But zero m m' t v u al but way av = tt
Same-But (suc level) m m' t v u al but (at, _, way) (ne, av) = (
  load_ext m m' (slot t (index level v)) 8
      (λ x p q. but x (aligned_apart u t x al at (λ e. ne (sym e)) (omega arith) (omega arith))),
  λ n0 d. Same-But level m m' (page_mask (entry_of m level t v)) v u al but (way n0 d).0 (av n0 d),
)

pub Avoids-Same :
    (n : ℕ) (m m' : Memory) (t v u : ℕ) → Same m m' n t v → Avoids m n t v u → Avoids m' n t v u
Avoids-Same zero m m' t v u same av = tt
Avoids-Same (suc level) m m' t v u (e, same) (ne, av) = (
  ne,
  rw e
      (λ n0 d. Avoids-Same level m m' (page_mask (entry_of m level t v)) v u (same n0 d) (av n0 d)),
)

pub Way-Same : (n : ℕ) (m m' : Memory) (t v : ℕ) → Same m m' n t v → Way m n t v → Way m' n t v
Way-Same zero m m' t v same way = tt
Way-Same (suc level) m m' t v (e, same) (at, top, way) = (
  at,
  rw e top,
  rw e (λ n0 d.
      let next = page_mask (entry_of m level t v) in
      (
        Way-Same level m m' next v (same n0 d) (way n0 d).0,
        Avoids-Same level m m' next v t (same n0 d) (way n0 d).1,
      )),
)

-- What make_writable leaves to the tables below
abbrev pub upper : Memory → ℕ → Memory
upper m a = if writable (read_pte m a) then m else write_pte m a (bit_or (read_pte m a) 2)

pub upper-But : (m : Memory) (t i : ℕ) → i < 512 → But t m (upper m (slot t i))
upper-But m t i lt x off = elim (Bool-cases (writable (read_pte m (slot t i)))) [
  | inl w ↦ rw w refl
  | inr w ↦ rw w (store-outside m (slot t i) 8 (bit_or (read_pte m (slot t i)) 2) x (ground arith))
]

-- An entry that is followed does.
pub follows :
    (level e : ℕ)
    → (level ≡ 3 → huge e ≡ false)
    → present e ≡ true
    → ((level == 0) || ((not (level == 3)) && huge e)) ≡ false
    → (level ≢ 0) × (does level e ≡ true)
follows level e top on more = elim (Bool-cases (level == 3)) [
  | inl three ↦ let narrow = top (ground arith) in ground arith
  | inr other ↦ ground arith
]

-- The way below a table, when its entry has been made writable.
module _ (level : ℕ) (m : Memory) (t v : ℕ) (at : IsAligned t) where
  abbrev a : ℕ
  a = slot t (index level v)

  abbrev pub next : ℕ
  next = page_mask (read_pte m a)

  pub below : Way m level next v → Avoids m level next v t → Same m (upper m a) level next v
  below way av =
      Same-But level m (upper m a) next v t at (upper-But m t (index level v) (omega arith)) way av

pub make_writable-outside :
    (n : ℕ) (m : Memory) (t v u x : ℕ)
    → IsAligned u
    → Way m n t v
    → Avoids m n t v u
    → u ≤ x
    → x < u + page_size
    → make_writable n m t v x ≡ m x
unfolding make_writable
make_writable-outside zero m t v u x al way av le lt = refl
make_writable-outside (suc level) m t v u x al (at, top, way) (ne, av) le lt =
    let b = slot t (index level v) in
    let e = read_pte m b in
    let deep = next level m t v at in
    let off = aligned_apart t u x at al ne le lt in
    elim (Bool-cases (present e)) [
      | inr none ↦ rw none refl
      | inl on ↦ elim (Bool-cases ((level == 0) || ((not (level == 3)) && huge e))) [
        | inl leaf ↦ rw (on, leaf) (store-outside m b 8 (bit_or e 2) x (ground (arith, off)))
        | inr more ↦
            let (n0, d) = follows level e top on more in
            let (way', av_t) = way n0 d in
            let same = below level m t v at way' av_t in
            rw (on, more)
              (make_writable-outside level (upper m b) deep v u x al
                  (Way-Same level m (upper m b) deep v same way')
                  (Avoids-Same level m (upper m b) deep v u same (av n0 d)) le lt
                ∙ upper-But m t (index level v) (omega arith) x off)
      ]
    ]

-- With the second bit set
pub marked :
    (e : ℕ)
    → e < 2 ^ 64
    → (bit_or e 2 < 2 ^ 64)
      × (writable (bit_or e 2) ≡ true)
      × (present (bit_or e 2) ≡ present e)
      × (huge (bit_or e 2) ≡ huge e)
      × (page_mask (bit_or e 2) ≡ page_mask e)
marked e lt = rw (bit_or_two e) (omega arith, ground arith, ground arith, ground arith, omega arith)

kept_writable : (e : ℕ) → writable e ≡ true → bit_or e 2 ≡ e
kept_writable e w = let h = bit_or_two e in ground arith

pub upper-entry :
    (m : Memory) (b : ℕ) → IsBytes m → read_pte (upper m b) b ≡ bit_or (read_pte m b) 2
upper-entry m b bytes = elim (Bool-cases (writable (read_pte m b))) [
  | inl w ↦ rw w (sym (kept_writable (read_pte m b) w))
  | inr w ↦
      rw w
        (load-store m b 8 (bit_or (read_pte m b) 2) (marked (read_pte m b) (load-lt m b 8 bytes)).0)
]

pub upper-IsBytes : (m : Memory) (b : ℕ) → IsBytes m → IsBytes (upper m b)
upper-IsBytes m b bytes = elim (Bool-cases (writable (read_pte m b))) [
  | inl w ↦ rw w bytes
  | inr w ↦ rw w (store-IsBytes m b 8 (bit_or (read_pte m b) 2) bytes)
]
