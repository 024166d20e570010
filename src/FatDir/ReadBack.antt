-- ===== src/FatDir/ReadBack.antt =====
-- A long name that put_entries has written to a buffer is read back from it.
use os.Base.{ℕ, zero, suc, ◌+◌, ◌/◌, ◌≤◌, ◌<◌, ◌≡◌, arith, inl, ◌∙◌, List, [], ◌∷◌, length}
use os.Base.Memory.{Memory, store8}
use os.Directory.{rebuild_lfn_name}
use os.FatDir.{put, put_entries, make_lfn_entries}
use os.FatDir.Slots.{Whole, put_outside, put_entries_outside}
use os.FatDir.Live.{lfn_from-Whole}
use os.FatDir.Words.{IsName, At, Stand}
use os.FatDir.LongNames.{rebuild_lfn_name-make_lfn_entries}

At-put : (m : Memory) (a : ℕ) (cs : List ℕ) → At (put m a cs) a cs
At-put m a [] = tt
At-put m a (c ∷ cs) = (
  put_outside (store8 m a c) (a + 1) a cs (inl (omega arith)) ∙ ground arith,
  At-put (store8 m a c) (a + 1) cs,
)

At-ext :
    (m m' : Memory) (a : ℕ) (cs : List ℕ)
    → ((x : ℕ) → a ≤ x → x < a + length cs → m' x ≡ m x)
    → At m a cs
    → At m' a cs
At-ext m m' a [] same at = tt
At-ext m m' a (c ∷ cs) same (e, at) = (
  same a (omega arith) (omega arith) ∙ e,
  At-ext m m' (a + 1) cs (λ x low high. same x (omega arith) (omega arith)) at,
)

-- The offsets of `n` entries from `a` on
abbrev pub offsets : ℕ → ℕ → List ℕ
offsets a zero = []
offsets a (suc n) = a ∷ offsets (a + 32) n

pub Stand-put_entries :
    (m : Memory) (a : ℕ) (es : List (List ℕ))
    → Whole es
    → Stand (put_entries m a es) (offsets a (length es)) es
unfolding put_entries
Stand-put_entries m a [] w = tt
Stand-put_entries m a (e ∷ es) (size, w) = (
  At-ext (put m a e) (put_entries (put m a e) (a + 32) es) a e
      (λ x low high. put_entries_outside (put m a e) (a + 32) x es w (inl (omega (arith, size))))
      (At-put m a e),
  Stand-put_entries (put m a e) (a + 32) es w,
)

-- In a buffer that the long-name entries of a name are put into, from offset `a` on, rebuild_lfn_name
-- gives this name back when it takes the entries from the first to the last. The name has at most 259
-- characters, none of them zero.
pub rebuild_lfn_name-put_entries :
    (m : Memory) (a : ℕ) (name : List ℕ) (sum : ℕ)
    → IsName name
    → length name ≤ 259
    → rebuild_lfn_name
        (put_entries m a (make_lfn_entries name sum))
        (offsets a (length (make_lfn_entries name sum)))
      ≡ name
unfolding make_lfn_entries
rebuild_lfn_name-put_entries m a name sum is le =
    rebuild_lfn_name-make_lfn_entries (put_entries m a (make_lfn_entries name sum))
      (offsets a (length (make_lfn_entries name sum))) name sum is le
      (Stand-put_entries m a (make_lfn_entries name sum)
        (lfn_from-Whole ((length name + 12) / 13) 0 ((length name + 12) / 13) sum name))
