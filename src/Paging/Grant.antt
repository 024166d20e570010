-- ===== src/Paging/Grant.antt =====
-- What the allocator's tables are like after it has handed out a page.
use os.Base.{
  ℕ, suc, ◌+◌, ◌/◌, ◌<◌, ◌≡◌, ◌≢◌, ◌⊎◌, inl, inr, Bool, true, false, ◌&&◌, ◌==◌, if◌then◌else◌, sym,
  ap, ◌∙◌, arith, Bool-cases,
}
use os.Base.Memory.{Memory, IsBytes}
use os.Bitmap.{get_bit}
use os.Bitmap.Bits.{get_bit-set_bits, set_bits-outside, set_bits-IsBytes}
use os.Pmm.{Pmm, page_size}
use os.Pmm.Table.{desc, Available, mark, desc-mark}
use os.Pmm.Malloc.{taken, Grants}
use os.Pmm.Free.{grant_page}
use os.Paging.Frame.{
  Away, IsFree, page_of, Settled, Clear, Keeps, Outside, Outside-IsFree, IsFree_before,
  Available_before,
}

-- There are `n` free pages.
pub record Spare (s : Pmm) (n : ℕ) : Type 0 where
  pub region : ℕ → ℕ
  pub page : ℕ → ℕ
  pub free : (i : ℕ) → i < n → IsFree s (region i) (page i)
  pub distinct : (i j : ℕ) → i < n → j < n → i ≢ j → (region i ≢ region j) ⊎ (page i ≢ page j)

pub Spare-less : {s : Pmm} {n : ℕ} → Spare s (suc n) → Spare s n
Spare-less sp = record {
  region = sp.region;
  page = sp.page;
  free = λ i lt. sp.free i (omega arith);
  distinct = λ i j p q. sp.distinct i j (omega arith) (omega arith);
}

-- A write into a clear page leaves them.
pub Spare-Outside :
    {s : Pmm} {n t : ℕ} {m : Memory}
    → Clear s t
    → IsBytes m
    → Outside t s.mem m
    → Spare s n
    → Spare (record s { mem = m }) n
Spare-Outside c bytes off sp = record {
  region = sp.region;
  page = sp.page;
  free = λ i lt. Outside-IsFree c bytes off (sp.region i) (sp.page i) (sp.free i lt);
  distinct = sp.distinct;
}

module _ {s : Pmm} (t : Settled s) {k p : ℕ} (g : Grants s 0 s.num k p) where
  abbrev after : Pmm
  after = mark s k p 1 true

  av_of : Available s k
  av_of = (g.below, g.kind)

  pub IsFree-grant : IsFree s k p
  IsFree-grant = (av_of, g.inside, g.was_free)

  taken-same :
      (q : ℕ)
      → q < (desc s k).bitmap.bit_size
      → p ≢ q
      → get_bit after.mem (desc s k).bitmap q ≡ taken s k q
  taken-same q lt ne =
      ground (arith, get_bit-set_bits 1 s.mem (desc s k).bitmap p true q t.order.bytes)

  taken-apart :
      (j q : ℕ)
      → Available s j
      → q < (desc s j).bitmap.bit_size
      → k ≢ j
      → get_bit after.mem (desc s j).bitmap q ≡ taken s j q
  unfolding get_bit
  taken-apart j q av lt ne = ground (
    arith,
    t.bitmaps_apart k j av_of av ne,
    set_bits-outside 1 s.mem (desc s k).bitmap p true ((desc s j).bitmap.bits + q / 8),
  )

  -- Other pages are as free as before.
  taken-other :
      (j q : ℕ)
      → Available s j
      → q < (desc s j).bitmap.bit_size
      → (k ≢ j) ⊎ (p ≢ q)
      → get_bit after.mem (desc s j).bitmap q ≡ taken s j q
  taken-other j q av lt (inl ne) = taken-apart j q av lt ne
  taken-other j q av lt (inr ne) = elim (Bool-cases (j == k)) [
    | inr other ↦ taken-apart j q av lt (ground arith)
    | inl eq ↦
        let e : j ≡ k = ground arith in
        let lt' : q < (desc s k).bitmap.bit_size = rw e at lt in rw e (taken-same q lt' ne)
  ]

  taken_self : get_bit after.mem (desc s k).bitmap p ≡ true
  taken_self =
      ground (arith, g.inside, get_bit-set_bits 1 s.mem (desc s k).bitmap p true p t.order.bytes)

  is_other : (j q : ℕ) → get_bit after.mem (desc s j).bitmap q ≡ false → (k ≢ j) ⊎ (p ≢ q)
  is_other j q e = elim (Bool-cases ((j == k) && (q == p))) [
    | inr other ↦ ground arith
    | inl eq ↦
        let ej : j ≡ k = ground arith in
        let eq' : q ≡ p = ground arith in
        let e' : get_bit after.mem (desc s k).bitmap p ≡ false = rw (ej, eq') at e in
        absurd (ground (arith, taken_self))
  ]

  pub mark-Keeps : Keeps s after.mem
  mark-Keeps = record {
    bytes = set_bits-IsBytes 1 s.mem (desc s k).bitmap p true t.order.bytes;
    same = desc-mark t.order k p 1 true av_of;
    free = λ j q av lt e. sym (taken-other j q av lt (is_other j q e)) ∙ e;
  }

  page_in : (j q : ℕ) → IsFree s j q → q < (desc s j).pages
  page_in j q f = omega (arith, f, t.order.sized j f.0)

  page_apart :
      (j q : ℕ)
      → IsFree s j q
      → (k ≢ j) ⊎ (p ≢ q)
      → Away (page_of s k p) page_size (page_of s j q) page_size
  page_apart j q f ne = elim (Bool-cases (j == k)) [
    | inr other ↦
        let ne' : k ≢ j = ground arith in
        ground (arith, t.order.regions k j av_of f.0 ne', page_in j q f, page_in k p IsFree-grant)
    | inl eq ↦
        let e : j ≡ k = ground arith in
        let start : (desc s j).physical_start ≡ (desc s k).physical_start =
          ap (λ (z : ℕ). (desc s z).physical_start) e in
        ground arith
  ]

  pub mark-Clear : Clear after (page_of s k p)
  mark-Clear = record {
    table = λ j lt. t.off_table k j p av_of (grant_page t.order g) lt;
    bitmaps = λ j av.
        let av' = Available_before mark-Keeps j av in
        rw (mark-Keeps.same j av.0) (t.off_bitmaps k j p av_of (grant_page t.order g) av');
    used = λ j q f.
        let f' = IsFree_before mark-Keeps j q f in
        let e : get_bit after.mem (desc s j).bitmap q ≡ false =
          rw (mark-Keeps.same j f.0.0) at f.2 in
        rw (mark-Keeps.same j f.0.0) (page_apart j q f' (is_other j q e));
  }

  IsFree-mark : (j q : ℕ) → IsFree s j q → (k ≢ j) ⊎ (p ≢ q) → IsFree after j q
  IsFree-mark j q (av, lt, e) ne =
      let same = mark-Keeps.same j av.0 in
      let e' = taken-other j q av lt ne ∙ e in ((av.0, rw same av.1), rw same lt, rw same e')

  -- Of `n + 1` free pages, `n` are left: the last one takes the place of the page that is gone.
  module _ {n : ℕ} (sp : Spare s (suc n)) where
    abbrev gone : ℕ → Bool
    gone i = (sp.region i == k) && (sp.page i == p)

    other_page : (i : ℕ) → gone i ≡ false → (k ≢ sp.region i) ⊎ (p ≢ sp.page i)
    other_page i e = ground arith

    last_is_other : (i : ℕ) → i < n → gone i ≡ true → gone n ≡ false
    last_is_other i lt e = ground (arith, sp.distinct i n (omega arith) (omega arith) (omega arith))

    pub Spare-mark : Spare after n
    Spare-mark = record {
      region = λ i. if gone i then sp.region n else sp.region i;
      page = λ i. if gone i then sp.page n else sp.page i;
      free = λ i lt. elim (Bool-cases (gone i)) [
        | inl e ↦ rw e (
            IsFree-mark (sp.region n) (sp.page n) (sp.free n (omega arith))
              (other_page n (last_is_other i lt e)))
        | inr e ↦
            rw e (IsFree-mark (sp.region i) (sp.page i) (sp.free i (omega arith)) (other_page i e))
      ];
      distinct = λ i j lt lt' ne. ground (
        arith,
        sp.distinct i j (omega arith) (omega arith) ne,
        sp.distinct i n (omega arith) (omega arith) (omega arith),
        sp.distinct j n (omega arith) (omega arith) (omega arith),
      );
    }
