-- ===== src/FatDir/Words.antt =====
-- The words of a long-name entry: how they are written and read.
use os.Base.{
  ℕ, zero, suc, ◌+◌, ◌*◌, ◌%◌, ◌≤◌, ◌<◌, ◌≡◌, refl, false, ◌==◌, arith, none, some, Option, ◌∙◌,
  List, [], ◌∷◌, ◌++◌, length, ap, ap₂, subst,
}
use os.Base.Memory.{Memory, load}
use os.Directory.{units, copy_name_segment}
use os.FatDir.{le16, fillers, lfn_units, take, drop}

-- Characters of a name: bytes but for the zero
abbrev pub IsName : List ℕ → Type 0
IsName [] = Unit {0}
IsName (c ∷ cs) = (1 ≤ c) × (c < 256) × IsName cs

-- The bytes stand at `a`.
abbrev pub At : Memory → ℕ → List ℕ → Type 0
At m a [] = Unit {0}
At m a (b ∷ bs) = (m a ≡ b) × At m (a + 1) bs

-- The long-name entries stand at the offsets.
abbrev pub Stand : Memory → List ℕ → List (List ℕ) → Type 0
Stand m [] [] = Unit {0}
Stand m [] (e ∷ es) = ⊥
Stand m (a ∷ rest) [] = ⊥
Stand m (a ∷ rest) (e ∷ es) = At m a e × Stand m rest es

-- `n` words of a long-name entry, from a place on where the rest of the name is `some cs`, or that is
-- behind the zero
unfoldable pub words : ℕ → Option (List ℕ) → List ℕ
words zero st = []
words (suc n) none = 0xFFFF ∷ words n none
words (suc n) (some []) = 0 ∷ words n none
words (suc n) (some (c ∷ cs)) = c ∷ words n (some cs)

-- The part of the name in `n` words, and the place behind them
unfoldable pub text : ℕ → Option (List ℕ) → List ℕ
text n none = []
text n (some cs) = take n cs

unfoldable pub later : ℕ → Option (List ℕ) → Option (List ℕ)
later zero st = st
later (suc n) none = none
later (suc n) (some []) = none
later (suc n) (some (c ∷ cs)) = later n (some cs)

abbrev pub Sound : Option (List ℕ) → Type 0
Sound none = Unit {0}
Sound (some cs) = IsName cs

pub later-Sound : (n : ℕ) (st : Option (List ℕ)) → Sound st → Sound (later n st)
unfolding later
later-Sound zero st h = h
later-Sound (suc n) none h = tt
later-Sound (suc n) (some []) h = tt
later-Sound (suc n) (some (c ∷ cs)) h = later-Sound n (some cs) h.2

pub later-none : (n : ℕ) → later n none ≡ none
unfolding later
later-none zero = refl
later-none (suc n) = refl

pub text-later :
    (p q r : ℕ) (st : Option (List ℕ)) → p + q ≡ r → text p st ++ text q (later p st) ≡ text r st
unfolding text later
text-later p q r none e = rw (later-none p) refl
text-later zero q r (some cs) e = let same : q ≡ r = omega arith in rw same refl
text-later (suc p) q zero (some []) e = refl
text-later (suc p) q (suc r) (some []) e = refl
text-later (suc p) q zero (some (c ∷ cs)) e = absurd (omega arith)
text-later (suc p) q (suc r) (some (c ∷ cs)) e =
    ap (λ (t : List ℕ). c ∷ t) (text-later p q r (some cs) (omega arith))

pub copy_name_segment-words :
    (room n : ℕ) (st : Option (List ℕ))
    → Sound st
    → length (text n st) ≤ room
    → copy_name_segment room (words n st) ≡ text n st
unfolding copy_name_segment words text
copy_name_segment-words room zero none h le = refl
copy_name_segment-words room zero (some cs) h le = refl
copy_name_segment-words zero (suc n) none h le = refl
copy_name_segment-words (suc room) (suc n) none h le =
    copy_name_segment-words (suc room) n none tt (omega arith)
copy_name_segment-words zero (suc n) (some []) h le = refl
copy_name_segment-words (suc room) (suc n) (some []) h le = refl
copy_name_segment-words zero (suc n) (some (c ∷ cs)) h le = absurd (omega arith)
copy_name_segment-words (suc room) (suc n) (some (c ∷ cs)) (low, high, h) le =
    let live : (c == 0) ≡ false = ground arith in
    let no_filler : (c == 0xFFFF) ≡ false = ground arith in
    let whole : c % 256 ≡ c = omega arith in
    rw (live, no_filler, whole)
      (ap (λ (t : List ℕ). c ∷ t) (copy_name_segment-words room n (some cs) h (omega arith)))

-- The bytes of words
unfoldable pub flat : List ℕ → List ℕ
flat [] = []
flat (w ∷ ws) = le16 w ++ flat ws

pub flat-fillers : (n : ℕ) → flat (words n none) ≡ fillers n
unfolding flat words
flat-fillers zero = refl
flat-fillers (suc n) = ap (λ (t : List ℕ). le16 0xFFFF ++ t) (flat-fillers n)

pub flat-lfn_units : (n : ℕ) (cs : List ℕ) → flat (words n (some cs)) ≡ lfn_units n cs
unfolding flat words lfn_units
flat-lfn_units zero cs = refl
flat-lfn_units (suc n) [] = ap (λ (t : List ℕ). le16 0 ++ t) (flat-fillers n)
flat-lfn_units (suc n) (c ∷ cs) = ap (λ (t : List ℕ). le16 c ++ t) (flat-lfn_units n cs)

abbrev pub pair : ℕ → List ℕ → List ℕ
pair x xs = x ∷ xs

pub At-two : (m : Memory) (a : ℕ) (bs : List ℕ) → At m (a + 1 + 1) bs → At m (a + 2) bs
At-two m a bs at = let two : a + 1 + 1 ≡ a + 2 = omega arith in subst (λ (x : ℕ). At m x bs) two at

-- The words that stand at `a` are read.
pub units-words :
    (m : Memory) (a n : ℕ) (st : Option (List ℕ))
    → Sound st
    → At m a (flat (words n st))
    → units m a n ≡ words n st
unfolding flat words load
units-words m a zero none h at = refl
units-words m a zero (some cs) h at = refl
units-words m a (suc n) none h (low, (high, at)) =
    ap₂ pair (omega (arith, low, high)) (units-words m (a + 2) n none tt (At-two m a _ at))
units-words m a (suc n) (some []) h (low, (high, at)) =
    ap₂ pair (omega (arith, low, high)) (units-words m (a + 2) n none tt (At-two m a _ at))
units-words m a (suc n) (some (c ∷ cs)) (pos, small, h) (low, (high, at)) =
    ap₂ pair (omega (arith, low, high)) (units-words m (a + 2) n (some cs) h (At-two m a _ at))

-- The bytes of an entry, part by part
pub At-take :
    (m : Memory) (a n : ℕ) (bs cs : List ℕ) → At m a (take n bs ++ cs) → At m a (take n bs)
At-take m a zero bs cs at = tt
At-take m a (suc n) [] cs at = tt
At-take m a (suc n) (b ∷ bs) cs (e, at) = (e, At-take m (a + 1) n bs cs at)

pub At-behind : (m : Memory) (a : ℕ) (bs cs : List ℕ) → At m a (bs ++ cs) → At m (a + length bs) cs
At-behind m a [] cs at = subst (λ (x : ℕ). At m x cs) (omega arith) at
At-behind m a (b ∷ bs) cs (e, at) =
    subst (λ (x : ℕ). At m x cs) (omega arith) (At-behind m (a + 1) bs cs at)

pub twice : (p : ℕ) → 2 * suc p ≡ suc (suc (2 * p))
twice p = omega arith

pub take-flat :
    (p q r : ℕ) (st : Option (List ℕ))
    → p + q ≡ r
    → take (2 * p) (flat (words r st)) ≡ flat (words p st)
unfolding flat words
take-flat zero q r st e = refl
take-flat (suc p) q zero st e = absurd (omega arith)
take-flat (suc p) q (suc r) none e =
    rw (twice p) (ap (λ (t : List ℕ). le16 0xFFFF ++ t) (take-flat p q r none (omega arith)))
take-flat (suc p) q (suc r) (some []) e =
    rw (twice p) (ap (λ (t : List ℕ). le16 0 ++ t) (take-flat p q r none (omega arith)))
take-flat (suc p) q (suc r) (some (c ∷ cs)) e =
    rw (twice p) (ap (λ (t : List ℕ). le16 c ++ t) (take-flat p q r (some cs) (omega arith)))

pub drop-flat :
    (p q r : ℕ) (st : Option (List ℕ))
    → p + q ≡ r
    → drop (2 * p) (flat (words r st)) ≡ flat (words q (later p st))
unfolding flat words later
drop-flat zero q r st e = let same : q ≡ r = omega arith in rw same refl
drop-flat (suc p) q zero st e = absurd (omega arith)
drop-flat (suc p) q (suc r) none e =
    rw (twice p) (drop-flat p q r none (omega arith) ∙ rw (later-none p) refl)
drop-flat (suc p) q (suc r) (some []) e =
    rw (twice p) (drop-flat p q r none (omega arith) ∙ rw (later-none p) refl)
drop-flat (suc p) q (suc r) (some (c ∷ cs)) e =
    rw (twice p) (drop-flat p q r (some cs) (omega arith))

pub length-flat : (n : ℕ) (st : Option (List ℕ)) → length (flat (words n st)) ≡ 2 * n
unfolding flat words
length-flat zero st = omega arith
length-flat (suc n) none = omega (arith, length-flat n none)
length-flat (suc n) (some []) = omega (arith, length-flat n none)
length-flat (suc n) (some (c ∷ cs)) = omega (arith, length-flat n (some cs))
