-- ===== src/FatDir/LongNames.antt =====
-- rebuild_lfn_name reads back the name that make_lfn_entries has written.
use os.Base.{
  ℕ, zero, suc, ◌+◌, ◌-◌, ◌*◌, ◌/◌, ◌≤◌, ◌≡◌, refl, false, ◌==◌, arith, some, Option, ◌∙◌, sym,
  List, [], ◌∷◌, ◌++◌, length, length-append, append-nil, append_assoc, ap, subst,
}
use os.Base.Memory.{Memory}
use os.Directory.{units, copy_name_segment, rebuild_from, rebuild_lfn_name, c_string}
use os.FatDir.{lfn_entry, lfn_from, make_lfn_entries, take, drop}
use os.FatDir.Words.{
  IsName, At, Stand, words, text, later, Sound, later-Sound, text-later, copy_name_segment-words,
  flat, flat-lfn_units, units-words, At-take, At-behind, take-flat, drop-flat, length-flat,
}

-- What one call of lfn_copy_name_segment adds
abbrev appended : List ℕ → List ℕ → List ℕ
appended out ws = out ++ copy_name_segment (259 - length out) ws

appended-words :
    (out ws : List ℕ) (n : ℕ) (st : Option (List ℕ))
    → Sound st
    → length out + length (text n st) ≤ 259
    → ws ≡ words n st
    → appended out ws ≡ out ++ text n st
appended-words out ws n st h le e = rw e (
    ap (λ (t : List ℕ). out ++ t) (copy_name_segment-words (259 - length out) n st h (omega arith)))

At-move : (m : Memory) (a b : ℕ) (bs : List ℕ) → a ≡ b → At m a bs → At m b bs
At-move m a b bs e at = subst (λ (x : ℕ). At m x bs) e at

module _ (m : Memory) (a order sum : ℕ) (cs : List ℕ) (at : At m a (lfn_entry order sum cs)) where
  abbrev chars : List ℕ
  chars = flat (words 13 (some cs))

  abbrev middle : List ℕ
  middle = 0x0F ∷ 0 ∷ sum ∷ take 12 (drop 10 chars)

  -- The entry, with the words of its three parts
  parts : At m (a + 1) (take 10 chars ++ (middle ++ (0 ∷ 0 ∷ drop 22 chars)))
  unfolding lfn_entry
  parts = rw (flat-lfn_units 13 cs) at.1

  first_part : At m (a + 1) (flat (words 5 (some cs)))
  first_part =
      subst (At m (a + 1)) (take-flat 5 8 13 (some cs) refl) (At-take m (a + 1) 10 chars _ parts)

  length-first : length (take 10 chars) ≡ 10
  length-first = ap length (take-flat 5 8 13 (some cs) refl) ∙ length-flat 5 (some cs)

  behind_first : At m (a + 11) (middle ++ (0 ∷ 0 ∷ drop 22 chars))
  behind_first =
      At-move m (a + 1 + length (take 10 chars)) (a + 11) (middle ++ (0 ∷ 0 ∷ drop 22 chars))
        (omega (arith, length-first)) (At-behind m (a + 1) (take 10 chars) _ parts)

  middle_text : take 12 (drop 10 chars) ≡ flat (words 6 (later 5 (some cs)))
  middle_text =
      ap (take 12) (drop-flat 5 8 13 (some cs) refl) ∙ take-flat 6 2 8 (later 5 (some cs)) refl

  rest_parts : At m (a + 14) (take 12 (drop 10 chars) ++ (0 ∷ 0 ∷ drop 22 chars))
  rest_parts =
      At-move m (a + 11 + 1 + 1 + 1) (a + 14) (take 12 (drop 10 chars) ++ (0 ∷ 0 ∷ drop 22 chars))
        (omega arith) behind_first.1.1.1

  second_part : At m (a + 14) (flat (words 6 (later 5 (some cs))))
  second_part =
      subst (At m (a + 14)) middle_text (At-take m (a + 14) 12 (drop 10 chars) _ rest_parts)

  length-middle : length (take 12 (drop 10 chars)) ≡ 12
  length-middle = ap length middle_text ∙ length-flat 6 (later 5 (some cs))

  third_part : At m (a + 28) (flat (words 2 (later 11 (some cs))))
  third_part = subst (At m (a + 28)) (drop-flat 11 2 13 (some cs) refl) (
      At-move m (a + 14 + length (take 12 (drop 10 chars)) + 1 + 1) (a + 28) (drop 22 chars)
        (omega (arith, length-middle))
        (At-behind m (a + 14) (take 12 (drop 10 chars)) _ rest_parts).1.1)

  -- What the three parts add to a name
  abbrev part_1 : List ℕ
  part_1 = text 5 (some cs)

  abbrev part_2 : List ℕ
  part_2 = text 6 (later 5 (some cs))

  abbrev part_3 : List ℕ
  part_3 = text 2 (later 11 (some cs))

  part_12 : part_1 ++ part_2 ≡ text 11 (some cs)
  part_12 = text-later 5 6 11 (some cs) refl

  whole : text 11 (some cs) ++ part_3 ≡ take 13 cs
  unfolding text
  whole = text-later 11 2 13 (some cs) refl

  lengths : length part_1 + length part_2 + length part_3 ≡ length (take 13 cs)
  lengths =
      let front : length part_1 + length part_2 ≡ length (text 11 (some cs)) =
        sym (length-append part_1 part_2) ∙ ap length part_12 in
      let all : length (text 11 (some cs)) + length part_3 ≡ length (take 13 cs) =
        sym (length-append (text 11 (some cs)) part_3) ∙ ap length whole in
      omega (arith, front, all)

  -- The part of the name in an entry is written behind what is there.
  pub rebuild_from-entry :
      (rest out : List ℕ)
      → IsName cs
      → length out + length (take 13 cs) ≤ 259
      → rebuild_from m (a ∷ rest) out ≡ rebuild_from m rest (out ++ take 13 cs)
  unfolding rebuild_from
  rebuild_from-entry rest out is le =
      let u2 = units m (a + 14) 6 in
      let u3 = units m (a + 28) 2 in
      let e1 =
        appended-words out (units m (a + 1) 5) 5 (some cs) is (omega (arith, lengths))
          (units-words m (a + 1) 5 (some cs) is first_part) in
      let o1 = out ++ part_1 in
      let s5 = later-Sound 5 (some cs) is in
      let e2 =
        appended-words o1 u2 6 (later 5 (some cs)) s5
          (omega (arith, lengths, length-append out part_1))
          (units-words m (a + 14) 6 (later 5 (some cs)) s5 second_part) in
      let o2 = o1 ++ part_2 in
      let s11 = later-Sound 11 (some cs) is in
      let e3 =
        appended-words o2 u3 2 (later 11 (some cs)) s11
          (omega (arith, lengths, length-append out part_1, length-append o1 part_2))
          (units-words m (a + 28) 2 (later 11 (some cs)) s11 third_part) in
      ap (rebuild_from m rest) (
        ap (λ (o : List ℕ). appended (appended o u2) u3) e1
        ∙ ap (λ (o : List ℕ). appended o u3) e2
        ∙ e3
        ∙ ap (λ (t : List ℕ). t ++ part_3) (append_assoc out part_1 part_2)
        ∙ append_assoc out (part_1 ++ part_2) part_3
        ∙ ap (λ (t : List ℕ). out ++ t) (ap (λ (t : List ℕ). t ++ part_3) part_12 ∙ whole))

pub take-drop : (n : ℕ) (cs : List ℕ) → take n cs ++ drop n cs ≡ cs
take-drop zero cs = refl
take-drop (suc n) [] = refl
take-drop (suc n) (c ∷ cs) = ap (λ (t : List ℕ). c ∷ t) (take-drop n cs)

pub take-IsName : (n : ℕ) (cs : List ℕ) → IsName cs → IsName (take n cs)
take-IsName zero cs is = tt
take-IsName (suc n) [] is = tt
take-IsName (suc n) (c ∷ cs) (low, high, is) = (low, high, take-IsName n cs is)

pub drop-IsName : (n : ℕ) (cs : List ℕ) → IsName cs → IsName (drop n cs)
drop-IsName zero cs is = is
drop-IsName (suc n) [] is = tt
drop-IsName (suc n) (c ∷ cs) is = drop-IsName n cs is.2

pub take-take : (n : ℕ) (cs : List ℕ) → take n (take n cs) ≡ take n cs
take-take zero cs = refl
take-take (suc n) [] = refl
take-take (suc n) (c ∷ cs) = ap (λ (t : List ℕ). c ∷ t) (take-take n cs)

pub length-take-drop : (n : ℕ) (cs : List ℕ) → length (take n cs) + length (drop n cs) ≡ length cs
length-take-drop n cs = sym (length-append (take n cs) (drop n cs)) ∙ ap length (take-drop n cs)

pub length-drop : (n : ℕ) (cs : List ℕ) → length (drop n cs) ≡ length cs - n
length-drop zero cs = omega arith
length-drop (suc n) [] = omega arith
length-drop (suc n) (c ∷ cs) = omega (arith, length-drop n cs)

rebuild_from-lfn_from :
    (m : Memory) (pieces : List ℕ) (n i total sum : ℕ) (cs out : List ℕ)
    → Stand m pieces (lfn_from n i total sum cs)
    → IsName cs
    → length cs ≤ 13 * n
    → length out + length cs ≤ 259
    → rebuild_from m pieces out ≡ out ++ cs
unfolding lfn_from rebuild_from
rebuild_from-lfn_from m [] zero i total sum [] out stand is enough le = sym (append-nil out)
rebuild_from-lfn_from m [] zero i total sum (c ∷ cs) out stand is enough le = absurd (omega arith)
rebuild_from-lfn_from m (a ∷ rest) zero i total sum cs out stand is enough le = elim stand [ ]
rebuild_from-lfn_from m [] (suc n) i total sum cs out stand is enough le = elim stand [ ]
rebuild_from-lfn_from m (a ∷ rest) (suc n) i total sum cs out (at, stand) is enough le =
    let part = take 13 cs in
    let same = take-take 13 cs in
    let sizes = length-take-drop 13 cs in
    rebuild_from-entry m a _ sum part at rest out (take-IsName 13 cs is)
      (omega (arith, sizes, ap length same))
    ∙ ap (λ (t : List ℕ). rebuild_from m rest (out ++ t)) same
    ∙ rebuild_from-lfn_from m rest n (i + 1) total sum (drop 13 cs) (out ++ part) stand
        (drop-IsName 13 cs is) (omega (arith, length-drop 13 cs))
        (omega (arith, sizes, length-append out part))
    ∙ append_assoc out part (drop 13 cs)
    ∙ ap (λ (t : List ℕ). out ++ t) (take-drop 13 cs)

pub c_string-IsName : (cs : List ℕ) → IsName cs → c_string cs ≡ cs
c_string-IsName [] is = refl
c_string-IsName (c ∷ cs) (low, high, is) =
    let live : (c == 0) ≡ false = ground arith in
    rw live (ap (λ (t : List ℕ). c ∷ t) (c_string-IsName cs is))

-- The long-name entries that make_lfn_entries makes for a name of at most 259 characters, none of them
-- zero, give this name back, when rebuild_lfn_name takes them in the order in which they were made,
-- wherever they stand in memory.
pub rebuild_lfn_name-make_lfn_entries :
    (m : Memory) (pieces : List ℕ) (name : List ℕ) (sum : ℕ)
    → IsName name
    → length name ≤ 259
    → Stand m pieces (make_lfn_entries name sum)
    → rebuild_lfn_name m pieces ≡ name
unfolding rebuild_lfn_name make_lfn_entries
rebuild_lfn_name-make_lfn_entries m pieces name sum is le stand =
    ap c_string (
      rebuild_from-lfn_from m pieces ((length name + 12) / 13) 0 ((length name + 12) / 13) sum name
        [] stand is (omega arith) (omega arith))
    ∙ c_string-IsName name is
