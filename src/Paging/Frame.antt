-- ===== src/Paging/Frame.antt =====
-- The pages that no table of the allocator lies in, and what writes to them leave alone.
use os.Base.{ℕ, ◌+◌, ◌*◌, ◌/◌, ◌%◌, ◌≤◌, ◌<◌, ◌≡◌, ◌≢◌, ◌⊎◌, false, refl, ◌∙◌, arith}
use os.Base.Memory.{Memory, IsBytes}
use os.Bitmap.{Bitmap, get_bit}
use os.Pmm.{Pmm, desc_at, desc_size, read_desc, page_size}
use os.Pmm.Table.{desc, Available, InOrder, read_desc_ext}
use os.Pmm.Malloc.{taken}

-- The ranges of `n` bytes at `a` and of `k` bytes at `b` do not overlap.
abbrev pub Away : ℕ → ℕ → ℕ → ℕ → Type 0
Away a n b k = (a + n ≤ b) ⊎ (b + k ≤ a)

abbrev pub bitmap_bytes : Bitmap → ℕ
bitmap_bytes bm = (bm.bit_size + 7) / 8

abbrev pub IsAligned : ℕ → Type 0
IsAligned t = t % page_size ≡ 0

-- Page `p` of descriptor `k` is free.
abbrev pub IsFree : Pmm → ℕ → ℕ → Type 0
IsFree s k p = Available s k × (p < (desc s k).bitmap.bit_size) × (taken s k p ≡ false)

abbrev pub page_of : Pmm → ℕ → ℕ → ℕ
page_of s k p = (desc s k).physical_start + p * page_size

-- The allocator's own tables lie in none of the regions that it hands out, its bitmaps do not overlap,
-- and a region starts at a page boundary that is not 0.
pub record Settled (s : Pmm) : Type 0 where
  pub order : InOrder s
  pub off_table :
      (i j p : ℕ)
      → Available s i
      → p < (desc s i).pages
      → j < s.num
      → Away (page_of s i p) page_size (desc_at s.base j) desc_size
  pub off_bitmaps :
      (i j p : ℕ)
      → Available s i
      → p < (desc s i).pages
      → Available s j
      → Away (page_of s i p) page_size (desc s j).bitmap.bits (bitmap_bytes (desc s j).bitmap)
  pub bitmaps_apart :
      (i j : ℕ)
      → Available s i
      → Available s j
      → i ≢ j
      → Away
          (desc s i).bitmap.bits
          (bitmap_bytes (desc s i).bitmap)
          (desc s j).bitmap.bits
          (bitmap_bytes (desc s j).bitmap)
  pub start :
      (i : ℕ)
      → Available s i
      → IsAligned (desc s i).physical_start × (0 < (desc s i).physical_start)

-- The page at `t` is no free page, and holds nothing of the allocator's.
pub record Clear (s : Pmm) (t : ℕ) : Type 0 where
  pub table : (j : ℕ) → j < s.num → Away t page_size (desc_at s.base j) desc_size
  pub bitmaps :
      (j : ℕ)
      → Available s j
      → Away t page_size (desc s j).bitmap.bits (bitmap_bytes (desc s j).bitmap)
  pub used : (k p : ℕ) → IsFree s k p → Away t page_size (page_of s k p) page_size

-- Memory `m` has the descriptors of `s`, and no free page that `s` has not.
pub record Keeps (s : Pmm) (m : Memory) : Type 0 where
  pub bytes : IsBytes m
  pub same : (j : ℕ) → j < s.num → read_desc m (desc_at s.base j) ≡ desc s j
  pub free :
      (k p : ℕ)
      → Available s k
      → p < (desc s k).bitmap.bit_size
      → get_bit m (desc s k).bitmap p ≡ false
      → taken s k p ≡ false

module _ {s : Pmm} {m : Memory} (k : Keeps s m) where
  abbrev next : Pmm
  next = record s { mem = m }

  pub Available_before : (j : ℕ) → Available next j → Available s j
  Available_before j (lt, e) = (lt, rw (k.same j lt) at e)

  pub IsFree_before : (j p : ℕ) → IsFree next j p → IsFree s j p
  IsFree_before j p (av, lt, e) =
      let av' = Available_before j av in
      let lt' : p < (desc s j).bitmap.bit_size = rw (k.same j av.0) at lt in
      let e' : get_bit m (desc s j).bitmap p ≡ false = rw (k.same j av.0) at e in
      (av', lt', k.free j p av' lt' e')

  pub Keeps-Clear : (t : ℕ) → Clear s t → Clear next t
  Keeps-Clear t c = record {
    table = c.table;
    bitmaps = λ j av. rw (k.same j av.0) (c.bitmaps j (Available_before j av));
    used = λ j p f. rw (k.same j f.0.0) (c.used j p (IsFree_before j p f));
  }

  Keeps-InOrder : InOrder s → InOrder next
  Keeps-InOrder t = record {
    bytes = k.bytes;
    apart = λ i j p q. rw (k.same i p.0) (t.apart i j (Available_before i p) q);
    sized = λ i p. rw (k.same i p.0) (t.sized i (Available_before i p));
    regions = λ i j p q ne.
        rw (k.same i p.0, k.same j q.0)
          (t.regions i j (Available_before i p) (Available_before j q) ne);
  }

  pub Keeps-Settled : Settled s → Settled next
  Keeps-Settled t = record {
    order = Keeps-InOrder t.order;
    off_table = λ i j p av lt q.
        let lt' : p < (desc s i).pages = rw (k.same i av.0) at lt in
        rw (k.same i av.0) (t.off_table i j p (Available_before i av) lt' q);
    off_bitmaps = λ i j p av lt q.
        let lt' : p < (desc s i).pages = rw (k.same i av.0) at lt in
        rw (k.same i av.0, k.same j q.0)
          (t.off_bitmaps i j p (Available_before i av) lt' (Available_before j q));
    bitmaps_apart = λ i j av q ne.
        rw (k.same i av.0, k.same j q.0)
          (t.bitmaps_apart i j (Available_before i av) (Available_before j q) ne);
    start = λ i av. rw (k.same i av.0) (t.start i (Available_before i av));
  }

-- Memories that agree outside a page.
abbrev pub Outside : ℕ → Memory → Memory → Type 0
Outside t m m' = (x : ℕ) → Away t page_size x 1 → m' x ≡ m x

-- A write into a clear page keeps the tables.
pub Outside-Keeps :
    {s : Pmm} {t : ℕ} {m : Memory} → Clear s t → IsBytes m → Outside t s.mem m → Keeps s m
unfolding get_bit
Outside-Keeps {s} {t} {m} c bytes off = record {
  bytes = bytes;
  same = λ j lt.
      read_desc_ext s.mem m (desc_at s.base j) (λ x p q. off x (ground (arith, c.table j lt)));
  free = λ k p av lt e.
      ground (arith, off ((desc s k).bitmap.bits + p / 8) (ground (arith, c.bitmaps k av)));
}

-- It keeps the free pages too.
pub Outside-IsFree :
    {s : Pmm} {t : ℕ} {m : Memory}
    → Clear s t
    → IsBytes m
    → Outside t s.mem m
    → (k p : ℕ) → IsFree s k p
    → IsFree (record s { mem = m }) k p
unfolding get_bit
Outside-IsFree {s} {t} {m} c bytes off k p (av, lt, e) =
    let same = (Outside-Keeps c bytes off).same k av.0 in
    let bit : get_bit m (desc s k).bitmap p ≡ false =
      ground (arith, off ((desc s k).bitmap.bits + p / 8) (ground (arith, c.bitmaps k av))) in
    ((av.0, rw same av.1), rw same lt, rw same bit)

pub Keeps-self : {s : Pmm} → Settled s → Keeps s s.mem
Keeps-self t = record { bytes = t.order.bytes; same = λ j lt. refl; free = λ k p av lt e. e }

pub Keeps-trans :
    {s : Pmm} {m m' : Memory} → Keeps s m → Keeps (record s { mem = m }) m' → Keeps s m'
Keeps-trans {s} {m} {m'} a b = record {
  bytes = b.bytes;
  same = λ j lt. b.same j lt ∙ a.same j lt;
  free = λ k p av lt e.
      let e' : get_bit m' (read_desc m (desc_at s.base k)).bitmap p ≡ false =
        rw (a.same k av.0) e in
      let av' : Available (record s { mem = m }) k = (av.0, rw (a.same k av.0) av.1) in
      let old = b.free k p av' (rw (a.same k av.0) lt) e' in
      a.free k p av lt (rw (a.same k av.0) at old);
}
