-- ===== src/FatDir/Slots.antt =====
-- Where FAT32_CreateFile and FAT32_CreateDir put the entries of a new name.
use os.Base.{
  ℕ, zero, suc, ◌+◌, ◌-◌, ◌*◌, ◌≤◌, ◌<◌, ◌≡◌, refl, leb, ◌==◌, if◌then◌else◌, arith, some, none,
  ◌⊎◌, inl, inr, Bool-cases, ◌∙◌, List, [], ◌∷◌, length, Option,
}
use os.Base.Memory.{Memory, store8}
use os.FatDir.{find_slot, put, put_entries}

-- Entry `e` of a cluster is in no use: it is deleted, or an end mark stands at it or in front of it.
abbrev pub Unused : Memory → ℕ → Type 0
Unused m e = (m (e * 32) ≡ 0xE5) ⊎ ((i : ℕ) × (i ≤ e) × (m (i * 32) ≡ 0))

-- The place found: `needed` entries in no use.
abbrev pub Slot : Memory → ℕ → ℕ → ℕ → Type 0
Slot m count needed pos =
    (pos + needed ≤ count) × ((e : ℕ) → pos ≤ e → e < pos + needed → Unused m e)

-- The answer of the search
abbrev pub Answer : Memory → ℕ → ℕ → Option ℕ → Type 0
Answer m count needed none = Unit {0}
Answer m count needed (some pos) = Slot m count needed pos

-- A run that is under way: `run` entries in no use, up to entry `i`
abbrev Run : Memory → ℕ → ℕ → ℕ → Type 0
Run m run from i =
    ((run ≡ 0) ⊎ (from + run ≡ i)) × ((e : ℕ) → from ≤ e → e < from + run → Unused m e)

-- The start of the run with the entry `i`
abbrev start_of : ℕ → ℕ → ℕ → ℕ
start_of run from i = if run == 0 then i else from

Run-deleted :
    (m : Memory) (run from i : ℕ)
    → Run m run from i
    → m (i * 32) ≡ 0xE5
    → Run m (run + 1) (start_of run from i) (i + 1)
Run-deleted m run from i (place, unused) deleted = (
  ground (arith, place),
  λ e low high. elim (Bool-cases (e == i)) [
    | inl here ↦ let same : e ≡ i = ground arith in rw same (inl deleted)
    | inr other ↦ unused e (ground (arith, place)) (ground (arith, place))
  ],
)

Slot-mark :
    (m : Memory) (count run from i needed : ℕ)
    → i < count
    → Run m run from i
    → m (i * 32) ≡ 0
    → needed ≤ count - i
    → run < needed
    → Slot m count needed (start_of run from i)
Slot-mark m count run from i needed lt (place, unused) mark le more = (
  ground (arith, place),
  λ e low high. elim (Bool-cases (leb i e)) [
    | inl behind ↦ inr (i, ground arith, mark)
    | inr before ↦ unused e (ground (arith, place)) (ground (arith, place))
  ],
)

find_slot-Answer_of :
    (m : Memory) (count needed run from i n : ℕ)
    → i + n ≡ count
    → Run m run from i
    → run < needed
    → Answer m count needed (find_slot m count needed run from i n)
unfolding find_slot
find_slot-Answer_of m count needed run from i zero e r more = tt
find_slot-Answer_of m count needed run from i (suc n) e r more =
    elim (Bool-cases (m (i * 32) == 0)) [
      | inl mark ↦ elim (Bool-cases (leb needed (count - i))) [
        | inl room ↦
            rw (mark, room)
              (Slot-mark m count run from i needed (omega arith) r (ground arith) (ground arith)
                more)
        | inr none_left ↦ rw (mark, none_left) tt
      ]
      | inr no_mark ↦ elim (Bool-cases (m (i * 32) == 0xE5)) [
        | inr live ↦
            rw (no_mark, live)
              (find_slot-Answer_of m count needed 0 from (i + 1) n (omega arith)
                (inl refl, λ e low high. absurd (omega arith)) (omega arith))
        | inl deleted ↦
            let r' = Run-deleted m run from i r (ground arith) in
            elim (Bool-cases (leb needed (run + 1))) [
              | inl enough ↦
                  rw (no_mark, deleted, enough)
                    (ground (arith, r'.0), λ e low high. r'.1 e low (ground (arith, high)))
              | inr short ↦
                  rw (no_mark, deleted, short)
                    (find_slot-Answer_of m count needed (run + 1) (start_of run from i) (i + 1) n
                      (omega arith) r' (ground arith))
            ]
      ]
    ]

pub find_slot-Answer :
    (m : Memory) (count needed : ℕ)
    → 1 ≤ needed
    → Answer m count needed (find_slot m count needed 0 0 0 count)
find_slot-Answer m count needed some_needed =
    find_slot-Answer_of m count needed 0 0 0 count (omega arith)
      (inl refl, λ e low high. absurd (omega arith)) (omega arith)

-- Bytes in front of and behind what is written stay.
pub put_outside :
    (m : Memory) (a x : ℕ) (cs : List ℕ) → (x < a) ⊎ (a + length cs ≤ x) → put m a cs x ≡ m x
put_outside m a x [] h = refl
put_outside m a x (c ∷ cs) h = put_outside (store8 m a c) (a + 1) x cs (ground arith) ∙ ground arith

-- All entries are of 32 bytes.
abbrev pub Whole : List (List ℕ) → Type 0
Whole [] = Unit {0}
Whole (e ∷ es) = (length e ≡ 32) × Whole es

pub put_entries_outside :
    (m : Memory) (a x : ℕ) (es : List (List ℕ))
    → Whole es
    → (x < a) ⊎ (a + length es * 32 ≤ x)
    → put_entries m a es x ≡ m x
unfolding put_entries
put_entries_outside m a x [] w h = refl
put_entries_outside m a x (e ∷ es) (size, w) h =
    put_entries_outside (put m a e) (a + 32) x es w (ground arith)
    ∙ put_outside m a x e (ground (arith, size))
