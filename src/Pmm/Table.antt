-- ===== src/Pmm/Table.antt =====
-- The table of memory descriptors: what a write elsewhere leaves alone, and when the table and its
-- bitmaps are in order.
use os.Base.{ℕ, ◌+◌, ◌*◌, ◌/◌, ◌^◌, ◌≤◌, ◌<◌, ◌≡◌, ◌≢◌, ◌⊎◌, inl, inr, Bool, arith}
use os.Base.Memory.{Memory, IsBytes, load_ext}
use os.Bitmap.{Bitmap, set_bits}
use os.Bitmap.Bits.{set_bits-outside, set_bits-IsBytes}
use os.Pmm.{Desc, Pmm, read_desc, desc_at, desc_size, os_available_memory, page_size}

pub read_desc_ext :
    (m m' : Memory) (a : ℕ)
    → ((x : ℕ) → a ≤ x → x < a + desc_size → m' x ≡ m x)
    → read_desc m' a ≡ read_desc m a
unfolding read_desc
read_desc_ext m m' a h = λ i. record {
  kind = load_ext m m' a 4 (λ x p q. h x (omega arith) (omega arith)) i;
  physical_start = load_ext m m' (a + 8) 8 (λ x p q. h x (omega arith) (omega arith)) i;
  address = load_ext m m' (a + 16) 8 (λ x p q. h x (omega arith) (omega arith)) i;
  pages = load_ext m m' (a + 24) 8 (λ x p q. h x (omega arith) (omega arith)) i;
  bitmap = record {
    bit_size = load_ext m m' (a + 32) 4 (λ x p q. h x (omega arith) (omega arith)) i;
    bits = load_ext m m' (a + 40) 8 (λ x p q. h x (omega arith) (omega arith)) i;
  };
}

abbrev pub desc : Pmm → ℕ → Desc
desc s i = read_desc s.mem (desc_at s.base i)

-- The bytes of a bitmap and a descriptor do not overlap.
abbrev pub Apart : Bitmap → ℕ → Type 0
Apart bm a = (bm.bits + (bm.bit_size + 7) / 8 ≤ a) ⊎ (a + desc_size ≤ bm.bits)

pub read_desc-set_bits :
    (m : Memory) (bm : Bitmap) (index n : ℕ) (value : Bool) (a : ℕ)
    → Apart bm a
    → read_desc (set_bits m bm index n value) a ≡ read_desc m a
read_desc-set_bits m bm index n value a (inl before) =
    read_desc_ext m (set_bits m bm index n value) a
      (λ x p q. set_bits-outside n m bm index value x (inr (omega arith)))
read_desc-set_bits m bm index n value a (inr behind) =
    read_desc_ext m (set_bits m bm index n value) a
      (λ x p q. set_bits-outside n m bm index value x (inl (omega arith)))

abbrev pub Available : Pmm → ℕ → Type 0
Available s i = (i < s.num) × ((desc s i).kind ≡ os_available_memory)

-- The first address behind a descriptor's region.
abbrev pub end_of : Desc → ℕ
end_of d = d.physical_start + d.pages * page_size

-- A table in order: its bitmaps do not overlap it, each is no longer than its region, a region is
-- below 2 GB and inside the address space, and regions do not overlap.
pub record InOrder (s : Pmm) : Type 0 where
  pub bytes : IsBytes s.mem
  pub apart : (i j : ℕ) → Available s i → j < s.num → Apart (desc s i).bitmap (desc_at s.base j)
  pub sized :
      (i : ℕ)
      → Available s i
      → ((desc s i).bitmap.bit_size ≤ (desc s i).pages)
        × ((desc s i).pages < 2 ^ 19)
        × (end_of (desc s i) < 2 ^ 64)
  pub regions :
      (i j : ℕ)
      → Available s i
      → Available s j
      → i ≢ j
      → (end_of (desc s i) ≤ (desc s j).physical_start)
        ⊎ (end_of (desc s j) ≤ (desc s i).physical_start)

-- The state after a write of bits into the bitmap of descriptor `k`.
abbrev pub mark : Pmm → ℕ → ℕ → ℕ → Bool → Pmm
mark s k index n value = record s { mem = set_bits s.mem (desc s k).bitmap index n value }

module _ {s : Pmm} (t : InOrder s) (k index n : ℕ) (value : Bool) (av : Available s k) where
  -- Marking pages leaves every descriptor as it was.
  pub desc-mark : (j : ℕ) → j < s.num → desc (mark s k index n value) j ≡ desc s j
  desc-mark j lt =
      read_desc-set_bits s.mem (desc s k).bitmap index n value (desc_at s.base j)
        (t.apart k j av lt)

  Available_back : (j : ℕ) → Available (mark s k index n value) j → Available s j
  Available_back j (lt, e) = (lt, rw (desc-mark j lt) at e)

  pub mark-InOrder : InOrder (mark s k index n value)
  mark-InOrder = record {
    bytes = set_bits-IsBytes n s.mem (desc s k).bitmap index value t.bytes;
    apart = λ i j p q. rw (desc-mark i p.0) (t.apart i j (Available_back i p) q);
    sized = λ i p. rw (desc-mark i p.0) (t.sized i (Available_back i p));
    regions = λ i j p q ne.
        rw (desc-mark i p.0, desc-mark j q.0)
          (t.regions i j (Available_back i p) (Available_back j q) ne);
  }
