-- ===== src/KString/Compare.antt =====
-- strlen, memcmp, strcmp and strncmp agree with the comparison of lists of characters.
use os.Base.{
  ℕ, zero, suc, ◌+◌, ◌^◌, ◌≤◌, ◌<◌, ◌≡◌, refl, ◌≢◌, inl, inr, Bool, true, false, not, ◌&&◌, ◌==◌,
  List, [], ◌∷◌, arith, length, ==_ne, Bool-cases,
}
use os.Base.Memory.{Memory, IsBytes}
use os.KString.{strlen, memcmp, differs, strcmp, strncmp, difference}

-- The characters `cs` and a zero behind them stand at `a`.
abbrev pub IsString : Memory → ℕ → List ℕ → Type 0
IsString m a [] = m a ≡ 0
IsString m a (c ∷ cs) = (m a ≡ c) × (c ≢ 0) × IsString m (a + 1) cs

abbrev pub equal : List ℕ → List ℕ → Bool
equal [] [] = true
equal [] (d ∷ ds) = false
equal (c ∷ cs) [] = false
equal (c ∷ cs) (d ∷ ds) = (c == d) && equal cs ds

-- The `n` bytes at `a`
abbrev pub bytes : Memory → ℕ → ℕ → List ℕ
bytes m a zero = []
bytes m a (suc n) = m a ∷ bytes m (a + 1) n

abbrev pub take : ℕ → List ℕ → List ℕ
take zero cs = []
take (suc n) [] = []
take (suc n) (c ∷ cs) = c ∷ take n cs

-- strlen counts the characters of a string, in as many steps as it has.
pub strlen_lem :
    (m : Memory) (f a : ℕ) (cs : List ℕ)
    → length cs ≤ f
    → IsString m a cs
    → strlen m f a ≡ length cs
unfolding strlen
strlen_lem m zero a [] le is = refl
strlen_lem m (suc f) a [] le is = rw is
strlen_lem m zero a (c ∷ cs) le is = absurd (omega arith)
strlen_lem m (suc f) a (c ∷ cs) le (e, ne, is) =
    rw (e, ==_ne c 0 ne, strlen_lem m f (a + 1) cs (omega arith) is) (omega arith)

difference_zero : (p q : ℕ) → p < 2 ^ 32 → q < 2 ^ 32 → (difference p q == 0) ≡ (p == q)
difference_zero p q lt lt' = ground arith

-- memcmp is zero exactly if the two ranges of `n` bytes in memory are equal.
pub memcmp-equal :
    (m : Memory) (s1 s2 n : ℕ)
    → IsBytes m
    → (memcmp m s1 s2 n == 0) ≡ equal (bytes m s1 n) (bytes m s2 n)
unfolding memcmp
memcmp-equal m s1 s2 zero is = refl
memcmp-equal m s1 s2 (suc n) is =
    ground
      (arith, memcmp-equal m (s1 + 1) (s2 + 1) n is, is s1, is s2, difference_zero (m s1) (m s2))

differs-equal :
    (m : Memory) (s1 s2 : ℕ) (cs ds : List ℕ)
    → length cs ≡ length ds
    → IsString m s1 cs
    → IsString m s2 ds
    → differs m s1 s2 (length ds) ≡ not (equal cs ds)
unfolding differs
differs-equal m s1 s2 [] [] e is is' = refl
differs-equal m s1 s2 [] (d ∷ ds) e is is' = absurd (omega arith)
differs-equal m s1 s2 (c ∷ cs) [] e is is' = absurd (omega arith)
differs-equal m s1 s2 (c ∷ cs) (d ∷ ds) e (at_c, ne, is) (at_d, ne', is') =
    let same = differs-equal m (s1 + 1) (s2 + 1) cs ds (omega arith) is is' in ground (arith, same)

equal-length : (cs ds : List ℕ) → length cs ≢ length ds → equal cs ds ≡ false
equal-length [] [] ne = absurd (ne refl)
equal-length [] (d ∷ ds) ne = refl
equal-length (c ∷ cs) [] ne = refl
equal-length (c ∷ cs) (d ∷ ds) ne = ground (arith, equal-length cs ds (λ e. ne (omega arith)))

equal_none : (cs ds : List ℕ) → length cs ≡ 0 → length ds ≡ 0 → equal cs ds ≡ true
equal_none [] [] e e' = refl
equal_none [] (d ∷ ds) e e' = absurd (omega arith)
equal_none (c ∷ cs) ds e e' = absurd (omega arith)

-- strcmp is zero exactly if the two strings, which a zero ends, are equal. A walk of as many steps as
-- the longer one has characters is enough.
pub strcmp-equal :
    (m : Memory) (f s1 s2 : ℕ) (cs ds : List ℕ)
    → length cs ≤ f
    → length ds ≤ f
    → IsString m s1 cs
    → IsString m s2 ds
    → (strcmp m f s1 s2 == 0) ≡ equal cs ds
unfolding strcmp
strcmp-equal m f s1 s2 cs ds le le' is is' =
    rw (strlen_lem m f s1 cs le is, strlen_lem m f s2 ds le' is')
      (elim (Bool-cases (length cs == length ds)) [
        | inl e ↦
            let e' : length cs ≡ length ds = ground arith in
            let same = differs-equal m s1 s2 cs ds e' is is' in
            ground (arith, same, equal_none cs ds)
        | inr ne ↦
            let other = equal-length cs ds (λ e. absurd (ground (arith, ne, e))) in
            ground (arith, other)
      ])

-- strncmp is zero exactly if the two strings, which a zero ends, agree in their first `n` characters.
pub strncmp-equal :
    (m : Memory) (s1 s2 n : ℕ) (cs ds : List ℕ)
    → IsBytes m
    → IsString m s1 cs
    → IsString m s2 ds
    → (strncmp m s1 s2 n == 0) ≡ equal (take n cs) (take n ds)
unfolding strncmp
strncmp-equal m s1 s2 zero cs ds bs is is' = refl
strncmp-equal m s1 s2 (suc n) [] [] bs is is' = rw (is, is')
strncmp-equal m s1 s2 (suc n) [] (d ∷ ds) bs is (at_d, ne', is') = ground (arith, bs s2)
strncmp-equal m s1 s2 (suc n) (c ∷ cs) [] bs (at_c, ne, is) is' = ground (arith, bs s1)
strncmp-equal m s1 s2 (suc n) (c ∷ cs) (d ∷ ds) bs (at_c, ne, is) (at_d, ne', is') =
    let rest = strncmp-equal m (s1 + 1) (s2 + 1) n cs ds bs is is' in
    ground (arith, rest, bs s1, bs s2)
