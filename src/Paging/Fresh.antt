-- ===== src/Paging/Fresh.antt =====
-- What a page is like that malloc_page has just got from the allocator.
use os.Base.{ℕ, suc, ◌+◌, ◌^◌, ◌≤◌, ◌<◌, ◌≡◌, ◌≢◌, true, arith}
use os.Base.Memory.{Memory, IsBytes, fill, fill_lem, fill-IsBytes}
use os.Bitmap.Bits.{set_bits-outside}
use os.Pmm.{Pmm, page_size}
use os.Pmm.Table.{desc, mark}
use os.Pmm.Malloc.{Grants, Answer, exhausted, granted, malloc-Answer}
use os.Pmm.Free.{grant_addr, grant_page}
use os.Paging.{malloc_page}
use os.Paging.Frame.{
  IsAligned, page_of, Settled, Clear, Keeps, Outside, Outside-Keeps, Keeps-Clear, Keeps-trans,
}
use os.Paging.Grant.{Spare, Spare-Outside, mark-Keeps, mark-Clear, Spare-mark, IsFree-grant}

-- Page `p` is fresh, with memory `m`: it is zeroed and no longer free, the clear pages are others and
-- are as they were, and `n` free pages are left.
pub record Fresh (s : Pmm) (n p : ℕ) (m : Memory) : Type 0 where
  pub keeps : Keeps s m
  pub own : Clear (record s { mem = m }) p
  pub positive : 0 < p
  pub aligned : IsAligned p
  pub bounded : p < 2 ^ 64
  pub zeros : (x : ℕ) → p ≤ x → x < p + page_size → m x ≡ 0
  pub others : (u : ℕ) → Clear s u → u ≢ p
  pub unchanged : (u x : ℕ) → Clear s u → u ≤ x → x < u + page_size → m x ≡ s.mem x
  pub spare : Spare (record s { mem = m }) n

pub data Page (s : Pmm) (n : ℕ) : ℕ × Pmm → Type 0 where
  fresh : (p : ℕ) (m : Memory) → Fresh s n p m → Page s n (p, record s { mem = m })

module _ {s : Pmm} (t : Settled s) {k p n : ℕ} (g : Grants s 0 s.num k p)
    (sp : Spare s (suc n)) where
  abbrev a : ℕ
  a = page_of s k p

  abbrev marked : Pmm
  marked = mark s k p 1 true

  abbrev filled : Memory
  filled = fill marked.mem a 0 page_size

  filled_bytes : IsBytes filled
  filled_bytes = fill-IsBytes marked.mem a 0 page_size (omega arith) (mark-Keeps t g).bytes

  filled-Outside : Outside a marked.mem filled
  filled-Outside x off = ground (arith, fill_lem marked.mem a 0 page_size x)

  filled-Keeps : Keeps marked filled
  filled-Keeps = Outside-Keeps (mark-Clear t g) filled_bytes filled-Outside

  granted-Fresh : Fresh s n a filled
  granted-Fresh = record {
    keeps = Keeps-trans (mark-Keeps t g) filled-Keeps;
    own = Keeps-Clear filled-Keeps a (mark-Clear t g);
    positive = omega (arith, t.start k (g.below, g.kind));
    aligned = omega (arith, t.start k (g.below, g.kind));
    bounded = omega (arith, grant_page t.order g, t.order.sized k (g.below, g.kind));
    zeros = λ x p q. ground (arith, fill_lem marked.mem a 0 page_size x);
    others = λ u c. ground (arith, c.used k p (IsFree-grant t g));
    unchanged = λ u x c le lt. ground (
      arith,
      c.used k p (IsFree-grant t g),
      c.bitmaps k (g.below, g.kind),
      filled-Outside x,
      set_bits-outside 1 s.mem (desc s k).bitmap p true x,
    );
    spare = Spare-Outside (mark-Clear t g) filled_bytes filled-Outside (Spare-mark t g sp);
  }

page_of_answer :
    {s : Pmm} {n : ℕ} {out : ℕ × Pmm}
    → Settled s
    → Spare s (suc n)
    → Answer s 0 s.num out
    → Page s n (out.0, record out.1 { mem = fill out.1.mem out.0 0 page_size })
page_of_answer t sp (exhausted full) =
    let f = sp.free 0 (omega arith) in
    absurd (ground (arith, f, full (sp.region 0) (sp.page 0) (omega arith) f.0.0 f.0.1 f.1))
page_of_answer {s} t sp (granted k p g) = rw (grant_addr t.order g) (
    fresh (page_of s k p) (fill (mark s k p 1 true).mem (page_of s k p) 0 page_size)
      (granted-Fresh t g sp))

-- With a free page, malloc_page gets one.
pub malloc_page-Page : {s : Pmm} {n : ℕ} → Settled s → Spare s (suc n) → Page s n (malloc_page s)
unfolding malloc_page
malloc_page-Page {s} t sp = page_of_answer t sp (malloc-Answer s t.order.bytes)
