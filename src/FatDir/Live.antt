-- ===== src/FatDir/Live.antt =====
-- The entries of a new name do not touch the entries that are in use.
use os.Base.{
  ℕ, zero, suc, ◌+◌, ◌-◌, ◌*◌, ◌/◌, ◌≤◌, ◌<◌, ◌≡◌, refl, ◌&&◌, ltb, leb, arith, some, inl, inr,
  Bool-cases, Option-cases, ◌∙◌, List, [], ◌∷◌, ◌++◌, length, length-append, ap, map, min, subst,
}
use os.Base.Memory.{Memory}
use os.Directory.{name_to_83, last_dot, pad, upper, lfn_checksum}
use os.FatDir.{
  find_slot, with_entries, lfn_units, lfn_entry, lfn_from, make_lfn_entries, sfn_entry, take, drop,
  fillers,
}
use os.FatDir.Slots.{Unused, Slot, Answer, find_slot-Answer, Whole, put_entries_outside}

length-pad : (n : ℕ) (cs : List ℕ) → length (pad n cs) ≡ n
unfolding pad
length-pad zero cs = refl
length-pad (suc n) [] = ap suc (length-pad n [])
length-pad (suc n) (c ∷ cs) = ap suc (length-pad n cs)

length-map : (f : ℕ → ℕ) (cs : List ℕ) → length (map f cs) ≡ length cs
length-map f [] = refl
length-map f (c ∷ cs) = ap suc (length-map f cs)

-- A short name has 11 characters.
pub length-name_to_83 : (name : List ℕ) → length (name_to_83 name) ≡ 11
unfolding name_to_83
length-name_to_83 name = elim (Option-cases (last_dot name)) [
  | inl no_dot ↦ rw no_dot (
      length-map upper (pad 8 name ++ pad 3 [])
      ∙ length-append (pad 8 name) (pad 3 [])
      ∙ omega (arith, length-pad 8 name, length-pad 3 []))
  | inr ((base, ext), dot) ↦ rw dot (
      length-map upper (pad 8 base ++ pad 3 ext)
      ∙ length-append (pad 8 base) (pad 3 ext)
      ∙ omega (arith, length-pad 8 base, length-pad 3 ext))
]

length-take : (n : ℕ) (cs : List ℕ) → length (take n cs) ≡ min n (length cs)
length-take zero cs = omega arith
length-take (suc n) [] = omega arith
length-take (suc n) (c ∷ cs) = omega (arith, length-take n cs)

length-drop : (n : ℕ) (cs : List ℕ) → length (drop n cs) ≡ length cs - n
length-drop zero cs = omega arith
length-drop (suc n) [] = omega arith
length-drop (suc n) (c ∷ cs) = omega (arith, length-drop n cs)

length-fillers : (n : ℕ) → length (fillers n) ≡ 2 * n
length-fillers zero = omega arith
length-fillers (suc n) = omega (arith, length-fillers n)

length-lfn_units : (n : ℕ) (cs : List ℕ) → length (lfn_units n cs) ≡ 2 * n
unfolding lfn_units
length-lfn_units zero cs = omega arith
length-lfn_units (suc n) [] = omega (arith, length-fillers n)
length-lfn_units (suc n) (c ∷ cs) = omega (arith, length-lfn_units n cs)

length-lfn_entry : (order sum : ℕ) (cs : List ℕ) → length (lfn_entry order sum cs) ≡ 32
unfolding lfn_entry
length-lfn_entry order sum cs =
    let chars = lfn_units 13 cs in
    let middle = 0x0F ∷ 0 ∷ sum ∷ take 12 (drop 10 chars) in
    omega (
      arith,
      length-append (order ∷ take 10 chars) (middle ++ (0 ∷ 0 ∷ drop 22 chars)),
      length-append middle (0 ∷ 0 ∷ drop 22 chars),
      length-lfn_units 13 cs,
      length-take 10 chars,
      length-take 12 (drop 10 chars),
      length-drop 10 chars,
      length-drop 22 chars,
    )

length-sfn_entry :
    (short : List ℕ) (flags date time c : ℕ)
    → length short ≡ 11
    → length (sfn_entry short flags date time c) ≡ 32
length-sfn_entry short flags date time c eleven = length-append short _ ∙ omega (arith, eleven)

Whole-append : (es fs : List (List ℕ)) → Whole es → Whole fs → Whole (es ++ fs)
Whole-append [] fs w w' = w'
Whole-append (e ∷ es) fs (size, w) w' = (size, Whole-append es fs w w')

pub lfn_from-Whole : (n i total sum : ℕ) (cs : List ℕ) → Whole (lfn_from n i total sum cs)
unfolding lfn_from
lfn_from-Whole zero i total sum cs = tt
lfn_from-Whole (suc n) i total sum cs =
    (length-lfn_entry _ sum (take 13 cs), lfn_from-Whole n (i + 1) total sum (drop 13 cs))

-- The entries of a new file or directory
abbrev pub new_entries : List ℕ → ℕ → ℕ → ℕ → ℕ → List (List ℕ)
new_entries name flags date time c =
    make_lfn_entries name (lfn_checksum (name_to_83 name))
    ++ (sfn_entry (name_to_83 name) flags date time c ∷ [])

new_entries-Whole :
    (name : List ℕ) (flags date time c : ℕ) → Whole (new_entries name flags date time c)
unfolding make_lfn_entries
new_entries-Whole name flags date time c =
    Whole-append (make_lfn_entries name (lfn_checksum (name_to_83 name))) _
      (lfn_from-Whole _ 0 _ _ name)
      (length-sfn_entry (name_to_83 name) flags date time c (length-name_to_83 name), tt)

length-lfn_from : (n i total sum : ℕ) (cs : List ℕ) → length (lfn_from n i total sum cs) ≡ n
unfolding lfn_from
length-lfn_from zero i total sum cs = refl
length-lfn_from (suc n) i total sum cs = ap suc (length-lfn_from n (i + 1) total sum (drop 13 cs))

length-make_lfn_entries :
    (name : List ℕ) (sum : ℕ) → length (make_lfn_entries name sum) ≡ (length name + 12) / 13
unfolding make_lfn_entries
length-make_lfn_entries name sum = length-lfn_from _ 0 _ sum name

-- Where FAT32_CreateFile and FAT32_CreateDir find a place for the entries of a new name of at most
-- 260 characters, the long ones are at most the 20 of lfn_buf, all lie within the cluster, and
-- every byte of an entry that is in use stays.
pub with_entries-live :
    (m : Memory) (count pos : ℕ) (name : List ℕ) (flags date time c : ℕ)
    → length name ≤ 260
    → find_slot m count (length (new_entries name flags date time c)) 0 0 0 count ≡ some pos
    → (length (make_lfn_entries name (lfn_checksum (name_to_83 name))) ≤ 20)
      × (pos + length (new_entries name flags date time c) ≤ count)
      × ((e k : ℕ)
          → ¬ Unused m e
          → k < 32
          → with_entries m pos (new_entries name flags date time c) (e * 32 + k) ≡ m (e * 32 + k))
with_entries-live m count pos name flags date time c short found =
    let es = new_entries name flags date time c in
    let some_entry : 1 ≤ length es = omega (
      arith,
      length-append (make_lfn_entries name (lfn_checksum (name_to_83 name)))
          (sfn_entry (name_to_83 name) flags date time c ∷ []),
    ) in
    let slot : Slot m count (length es) pos =
      subst (Answer m count (length es)) found (find_slot-Answer m count (length es) some_entry) in
    (
      omega (arith, length-make_lfn_entries name (lfn_checksum (name_to_83 name)), short),
      slot.0,
      λ e k live small.
          put_entries_outside m (pos * 32) (e * 32 + k) es
            (new_entries-Whole name flags date time c)
            (elim (Bool-cases (leb pos e && ltb e (pos + length es))) [
              | inl inside ↦ absurd (live (slot.1 e (ground arith) (ground arith)))
              | inr outside ↦ ground arith
            ]),
    )
