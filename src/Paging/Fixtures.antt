-- ===== src/Paging/Fixtures.antt =====
-- Page tables to try the theorems on.
use os.Base.{
  ℕ, ◌≤◌, ◌<◌, ◌≡◌, inl, inr, refl, sym, Bool, true, false, not, passes, passes_at, arith,
}
use os.Base.Memory.{Memory, IsBytes, load, store, fill, load-store, store-outside, store-IsBytes}
use os.Bitmap
use os.Bitmap.{get_bit}
use os.Pmm.{Pmm, read_desc, store_desc, store_bitmap, init_bitmap}
use os.Pmm.Table.{desc, InOrder}
use os.Pmm.Tests.{one, one_mem, one_table, one_mem-IsBytes, bounds}
use os.Paging.{lookup_tables, read_pte, virt_to_phys_on}
use os.Paging.Frame.{
  Settled, Clear, IsFree, Outside, Keeps, Outside-Keeps, Keeps-Clear, Keeps-Settled,
}
use os.Paging.Grant.{Spare, Spare-Outside, Spare-less}
use os.Paging.Path.{Tables, entry_of}
use os.Paging.Raise.{Way}
use os.Paging.Separate.{Separate}

-- A table of one descriptor, for 16 pages from 0x100000 on.
module _ (s : Pmm) (num : s.num ≡ 1) (base : s.base ≡ 0x1000) (order : InOrder s)
    (sizes : ((desc s 0).bitmap.bits ≡ 0x1030)
      × ((desc s 0).bitmap.bit_size ≡ 16)
      × ((desc s 0).pages ≡ 16)
      × ((desc s 0).physical_start ≡ 0x100000)) where
  first : (i : ℕ) → i < s.num → i ≡ 0
  first i lt = omega arith

  sizes_of :
      (i : ℕ)
      → i < s.num
      → ((desc s i).bitmap.bits ≡ 0x1030)
        × ((desc s i).bitmap.bit_size ≡ 16)
        × ((desc s i).pages ≡ 16)
        × ((desc s i).physical_start ≡ 0x100000)
  sizes_of i lt = rw (first i lt) sizes

  single-Settled : Settled s
  single-Settled = record {
    order = order;
    off_table = λ i j p av lt q. inr (omega (arith, sizes_of i av.0));
    off_bitmaps = λ i j p av lt q. inr (omega (arith, sizes_of i av.0, sizes_of j q.0));
    bitmaps_apart = λ i j av q ne. absurd (ne (omega (arith, first i av.0, first j q.0)));
    start = λ i av. omega (arith, sizes_of i av.0);
  }

  single-Clear : (t : ℕ) → 0x2000 ≤ t → t ≤ 0xFF000 → Clear s t
  single-Clear t a b = record {
    table = λ j lt. inr (omega arith);
    bitmaps = λ j av. inr (omega (arith, sizes_of j av.0));
    used = λ k p f. inl (omega (arith, sizes_of k f.0.0));
  }

pub one_sizes :
    ((desc one 0).bitmap.bits ≡ 0x1030)
    × ((desc one 0).bitmap.bit_size ≡ 16)
    × ((desc one 0).pages ≡ 16)
    × ((desc one 0).physical_start ≡ 0x100000)
one_sizes = bounds one refl refl one_mem-IsBytes refl

pub one-Settled : Settled one
one-Settled = single-Settled one refl refl one_table one_sizes

pub one-Clear : (t : ℕ) → 0x2000 ≤ t → t ≤ 0xFF000 → Clear one t
one-Clear = single-Clear one refl refl one_table one_sizes

one_kind : (desc one 0).kind ≡ 1
unfolding read_desc init_bitmap store_desc store_bitmap load store fill Bitmap.init
    Bitmap.bitmap_bit_size
one_kind = refl

abbrev free_test : ℕ → Bool
free_test i = not (get_bit one_mem (desc one 0).bitmap i)

free_table : passes free_test 4 ≡ true
unfolding passes get_bit read_desc init_bitmap store_desc store_bitmap load store fill Bitmap.init
    Bitmap.bitmap_bit_size
free_table = refl

free_page : (i : ℕ) → i < 4 → IsFree one 0 i
free_page i lt = (
  (omega arith, one_kind),
  omega (arith, one_sizes),
  not_true (passes_at free_test 4 lt free_table),
)
  where
    not_true : {b : Bool} → not b ≡ true → b ≡ false
    not_true {b = false} e = refl
    not_true {b = true} e = sym e

pub one-Spare : Spare one 4
one-Spare = record {
  region = λ _. 0;
  page = λ i. i;
  free = free_page;
  distinct = λ i j a b ne. inr ne;
}

-- The page at 0x10000 is zeroed, and is the first table.
pub no_entry : entry_of one_mem 3 0x10000 0x400123 ≡ 0
unfolding read_desc init_bitmap store_desc store_bitmap load store fill Bitmap.init
    Bitmap.bitmap_bit_size
no_entry = refl

pub way : Tables one 4 0x10000 0x400123
way = (
  one-Clear 0x10000 (omega arith) (omega arith),
  refl,
  omega arith,
  λ ne e. absurd (ground (arith, no_entry)),
)

-- A first table at 0x10000 with an entry for a second one at 0x20000, which has one for a third.
abbrev pub low_mem : Memory
low_mem = store one_mem 0x10000 8 0x20003

abbrev pub low : Pmm
low = record one { mem = low_mem }

abbrev table_mem : Memory
table_mem = store low_mem 0x20000 8 0x30003

abbrev pub tables : Pmm
tables = record one { mem = table_mem }

pub low-IsBytes : IsBytes low_mem
low-IsBytes = store-IsBytes one_mem 0x10000 8 0x20003 one_mem-IsBytes

pub low-Outside : Outside 0x10000 one_mem low_mem
low-Outside x off = store-outside one_mem 0x10000 8 0x20003 x (ground arith)

pub low-Keeps : Keeps one low_mem
low-Keeps = Outside-Keeps (one-Clear 0x10000 (omega arith) (omega arith)) low-IsBytes low-Outside

low-Clear : (t : ℕ) → 0x2000 ≤ t → t ≤ 0xFF000 → Clear low t
low-Clear t a b = Keeps-Clear low-Keeps t (one-Clear t a b)

tables-IsBytes : IsBytes table_mem
tables-IsBytes = store-IsBytes low_mem 0x20000 8 0x30003 low-IsBytes

tables-Outside : Outside 0x20000 low_mem table_mem
tables-Outside x off = store-outside low_mem 0x20000 8 0x30003 x (ground arith)

tables-Keeps : Keeps low table_mem
tables-Keeps =
    Outside-Keeps (low-Clear 0x20000 (omega arith) (omega arith)) tables-IsBytes tables-Outside

pub tables-Clear : (t : ℕ) → 0x2000 ≤ t → t ≤ 0xFF000 → Clear tables t
tables-Clear t a b = Keeps-Clear tables-Keeps t (low-Clear t a b)

pub tables-Settled : Settled tables
tables-Settled = Keeps-Settled tables-Keeps (Keeps-Settled low-Keeps one-Settled)

pub tables-Spare : Spare tables 1
tables-Spare =
    Spare-Outside (low-Clear 0x20000 (omega arith) (omega arith)) tables-IsBytes tables-Outside (
      Spare-Outside (one-Clear 0x10000 (omega arith) (omega arith)) low-IsBytes low-Outside
        (Spare-less (Spare-less (Spare-less one-Spare))))

pub top_entry : read_pte table_mem 0x10000 ≡ 0x20003
unfolding load store
top_entry = refl

pub low_entry : read_pte table_mem 0x20000 ≡ 0x30003
low_entry = load-store low_mem 0x20000 8 0x30003 (omega arith)

-- In the first of these memories the second table is still empty.
low_top : read_pte low_mem 0x10000 ≡ 0x20003
low_top = load-store one_mem 0x10000 8 0x20003 (omega arith)

low_none : (read_pte low_mem 0x20000 ≡ 0) × (read_pte low_mem 0x20008 ≡ 0)
unfolding load store fill store_desc init_bitmap store_bitmap Bitmap.init Bitmap.bitmap_bit_size
low_none = (refl, refl)

pub low_way : Tables low 4 0x10000 0x400123
low_way = (
  low-Clear 0x10000 (omega arith) (omega arith),
  refl,
  omega arith,
  λ ne d. rw low_top (
    (
      low-Clear 0x20000 (omega arith) (omega arith),
      refl,
      omega arith,
      λ ne d. absurd (ground (arith, low_none)),
    ),
    ((λ e. ground arith), λ ne d. absurd (ground (arith, low_none))),
  ),
)

-- The other address has another entry of the second table.
pub low-Separate : Separate low 4 0x10000 0x400123 0x40000000
low-Separate = inr (
  refl,
  (λ e. ground arith),
  inr (
    rw low_top refl,
    rw low_top (inl ((λ e. ground arith), λ ne d. absurd (ground (arith, low_none)))),
  ),
)

-- A first table with an entry for a large page that may not be written, by way of a second table.
abbrev first_mem : Memory
first_mem = store (λ _. 0) 0x10000 8 0x20001

abbrev pub read_only : Memory
read_only = store first_mem 0x20000 8 0x40000081

pub read_only-IsBytes : IsBytes read_only
read_only-IsBytes =
    store-IsBytes first_mem 0x20000 8 0x40000081
      (store-IsBytes (λ _. 0) 0x10000 8 0x20001 (λ a. omega arith))

read_only_entries :
    (read_pte read_only 0x10000 ≡ 0x20001) × (read_pte read_only 0x20000 ≡ 0x40000081)
unfolding load store
read_only_entries = (refl, refl)

pub read_only-Way : Way read_only 4 0x10000 0x1234
read_only-Way = (
  refl,
  (λ e. rw read_only_entries.0 refl),
  λ n0 d. rw read_only_entries.0 (
    (refl, (λ e. absurd (omega (arith, e))), λ n0 d. absurd (ground (arith, read_only_entries))),
    ((λ e. ground arith), λ n0 d. absurd (ground (arith, read_only_entries))),
  ),
)

read_only_address : virt_to_phys_on read_only 0x10000 0x1234 ≡ 0x40001234
unfolding virt_to_phys_on lookup_tables
read_only_address = rw (read_only_entries.0, read_only_entries.1) refl
