-- ===== src/Vmm/Held.antt =====
-- The steps that take a page and give it back.
use Prim.{tt}
use os.Base.{
  has, ℕ, ◌<◌, ◌≡◌, inl, inr, Bool, true, false, List, [], ◌∷◌, ◌++◌, ◌||◌, ◌&&◌, ◌==◌, refl, sym,
  ap, ◌∙◌, arith, Bool-cases, if◌then◌else◌,
}
use os.Base.Memory.{Memory}
use os.Bitmap.{get_bit}
use os.Bitmap.Bits.{set_bits-IsBytes}
use os.Pmm.{Pmm}
use os.Pmm.Table.{desc, Available, mark, desc-mark}
use os.Pmm.Malloc.{taken, Grants}
use os.Paging.Frame.{IsFree, page_of, Settled, Keeps-Settled, IsFree_before}
use os.Vmm.Marks.{Held, Pages, page_of-ne, get_bit-mark}

module _ {s : Pmm} (t : Settled s) {m : Memory} {got : List ℕ} (h : Held s m got) where
  abbrev pub now : Pmm
  now = record s { mem = m }

  pub now-Settled : Settled now
  now-Settled = Keeps-Settled h.keeps t

  pub now-desc : (j : ℕ) → j < s.num → desc now j ≡ desc s j
  now-desc = h.keeps.same

  pub now-Available : (j : ℕ) → Available s j → Available now j
  now-Available j av = (av.0, rw (now-desc j av.0) av.1)

  -- A page of `s` is marked, and the list says so.
  Held-mark :
      (k p : ℕ) (v : Bool) (got' : List ℕ)
      → Available s k
      → p < (desc s k).bitmap.bit_size
      → ((j q : ℕ)
          → Available s j
          → q < (desc s j).bitmap.bit_size
          → (if (j == k) && (q == p) then v else taken s j q || has (page_of s j q) got)
            ≡ taken s j q || has (page_of s j q) got')
      → Held s (mark now k p 1 v).mem got'
  Held-mark k p v got' av lt fits = record {
    keeps = record {
      bytes = set_bits-IsBytes 1 m (desc now k).bitmap p v h.keeps.bytes;
      same = same_desc;
      free = λ j q av' lt' e. let b = marks j q av' lt' in ground arith;
    };
    marks = marks;
  }
    where
      same_desc : (j : ℕ) → j < s.num → desc (mark now k p 1 v) j ≡ desc s j
      same_desc j lt' =
          desc-mark now-Settled.order k p 1 v (now-Available k av) j lt' ∙ now-desc j lt'

      marks :
          (j q : ℕ)
          → Available s j
          → q < (desc s j).bitmap.bit_size
          → get_bit (mark now k p 1 v).mem (desc s j).bitmap q
            ≡ taken s j q || has (page_of s j q) got'
      marks j q av' lt' =
          let same = now-desc j av'.0 in
          let lt1 : p < (desc now k).bitmap.bit_size = rw (now-desc k av.0) lt in
          let lt2 : q < (desc now j).bitmap.bit_size = rw same lt' in
          let bit =
            get_bit-mark now-Settled k p v j q (now-Available k av) lt1 (now-Available j av') lt2 in
          let bit' : get_bit (mark now k p 1 v).mem (desc s j).bitmap q
              ≡ (if (j == k) && (q == p) then v else get_bit m (desc s j).bitmap q) =
            rw same at bit in
          bit'
          ∙ ap (λ z. if (j == k) && (q == p) then v else z) (h.marks j q av' lt')
          ∙ fits j q av' lt'

has-snoc : (x a : ℕ) (got : List ℕ) → has x (got ++ (a ∷ [])) ≡ has x got || (x == a)
has-snoc x a [] = ground arith
has-snoc x a (b ∷ got) = let rest = has-snoc x a got in ground arith

pub Pages-snoc :
    (s : Pmm) (a : ℕ) (got : List ℕ)
    → Pages s got
    → ((k : ℕ) × (p : ℕ) × IsFree s k p × (a ≡ page_of s k p))
    → has a got ≡ false
    → Pages s (got ++ (a ∷ []))
Pages-snoc s a [] pages new e = (new, refl, tt)
Pages-snoc s a (b ∷ got) (first, ne, pages) new e = (
  first,
  (let last = has-snoc b a got in ground arith),
  Pages-snoc s a got pages new (ground arith),
)

-- The page of a descriptor and an index that are those of another page
same_page :
    (s : Pmm) (k p j q : ℕ)
    → ((j == k) && (q == p)) ≡ true
    → (page_of s j q ≡ page_of s k p) × (taken s j q ≡ taken s k p)
same_page s k p j q e =
    let ej : j ≡ k = ground arith in let eq' : q ≡ p = ground arith in rw (ej, eq') (refl, refl)

module _ {s : Pmm} (t : Settled s) {m : Memory} {got : List ℕ} (h : Held s m got) where
  module _ {k p : ℕ} (g : Grants (now t h) 0 s.num k p) where
    abbrev a : ℕ
    a = page_of s k p

    pub free_before : IsFree s k p
    free_before = IsFree_before h.keeps k p ((g.below, g.kind), g.inside, g.was_free)

    pub not_held : has a got ≡ false
    not_held =
        let same = now-desc t h k g.below in
        let free_bit : get_bit m (desc s k).bitmap p ≡ false = rw same at g.was_free in
        let b = h.marks k p free_before.0 free_before.1 in ground arith

    pub Held-take : Held s (mark (now t h) k p 1 true).mem (got ++ (a ∷ []))
    Held-take = Held-mark t h k p true (got ++ (a ∷ [])) free_before.0 free_before.1 (λ j q av lt.
        elim (Bool-cases ((j == k) && (q == p))) [
          | inl e ↦
              let last = has-snoc (page_of s j q) a got in
              let eq = same_page s k p j q e in rw e (ground arith)
          | inr e ↦
              let last = has-snoc (page_of s j q) a got in
              let ne = page_of-ne t k p j q free_before.0 free_before.1 av lt e in
              rw e (ground arith)
        ])

-- A page is given back.
pub Held-give :
    {s : Pmm} (t : Settled s) {m : Memory} {a : ℕ} {rest : List ℕ} (h : Held s m (a ∷ rest))
    (k p : ℕ)
    → IsFree s k p
    → a ≡ page_of s k p
    → has a rest ≡ false
    → Held s (mark (now t h) k p 1 false).mem rest
Held-give {s} t {a = a} {rest} h k p f ea ne = Held-mark t h k p false rest f.0 f.1 (λ j q av lt.
    elim (Bool-cases ((j == k) && (q == p))) [
      | inl e ↦
          let eq = same_page s k p j q e in
          let there : page_of s j q ≡ a = eq.0 ∙ sym ea in rw (e, there) (ground (arith, f.2))
      | inr e ↦ let ne' = page_of-ne t k p j q f.0 f.1 av lt e in rw e (ground arith)
    ])
