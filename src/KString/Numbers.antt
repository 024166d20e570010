-- ===== src/KString/Numbers.antt =====
-- itoa_hex, utoa_dec and itoa_dec write the number that they are given.
use os.Base.{
  ℕ, ◌+◌, ◌-◌, ◌^◌, ◌≤◌, ◌<◌, ◌≡◌, refl, ◌⊎◌, inl, inr, false, leb, ◌==◌, if◌then◌else◌, List, [],
  ◌∷◌, arith, length, Bool-cases, ◌∙◌, subst, u64,
}
use os.Base.Memory.{Memory, store8}
use os.KString.{digits, write, dec_char, utoa_dec, itoa_dec}
use os.KString.Digits.{
  Holds, IsShortest, digits-IsShortest, number, IsBase, dec-IsBase, number-digits, AllDigits,
  digits-AllDigits, Written, write-Written,
}

-- The string at `a` has `n` characters, one at least, all digits in the base, that write `value`
-- with no zero in front, and a zero behind.
pub record Spells (m : Memory) (a n base value : ℕ) : Type 0 where
  pub chars : List ℕ
  pub text : Holds m a chars
  pub size : length chars ≡ n
  pub end : m (a + n) ≡ 0
  pub all : AllDigits base chars
  pub shortest : IsShortest chars
  pub value_of : number base 0 chars ≡ value

-- The memory changes in the `n` bytes at `a` and in the byte behind them only.
abbrev pub SameAround : Memory → Memory → ℕ → ℕ → Type 0
SameAround m m' a n = (x : ℕ) → (x < a) ⊎ (a + n < x) → m' x ≡ m x

-- The digits of `value`, not 0, written behind `j` bytes.
Spells-write :
    (base : ℕ) (char : ℕ → ℕ) (m : Memory) (buf j value : ℕ)
    → IsBase base char
    → 0 < value
    → value < 2 ^ 64
    → let (j', m') = write m buf j (digits base char 64 value []) in
      (j ≤ j')
      × Spells m' (buf + j) (j' - j) base value
      × ((x : ℕ) → x < buf + j → m' x ≡ m x)
      × ((x : ℕ) → buf + j' < x → m' x ≡ m x)
Spells-write base char m buf j value is pos fits =
    let cs = digits base char 64 value [] in
    let (j', m') = write m buf j cs in
    let w : Written m m' buf j j' cs = write-Written m buf j cs in
    (
      omega (arith, w.count),
      record {
        chars = cs;
        text = w.text;
        size = omega (arith, w.count);
        end = subst (λ x. m' x ≡ 0) (omega (arith, w.count)) w.end;
        all = digits-AllDigits base char is 64 value [] tt;
        shortest = digits-IsShortest base char is 64 value [] pos fits;
        value_of = number-digits base char is 64 value [] fits;
      },
      w.before,
      w.behind,
    )

Spells-start :
    (m : Memory) (a n base value : ℕ)
    → Spells m (a + 0) (n - 0) base value
    → Spells m a n base value
Spells-start m a n base value sp =
    subst (λ k. Spells m a k base value) (omega arith)
      (subst (λ b. Spells m b (n - 0) base value) (omega arith) sp)

-- The zero digit, written behind `j` bytes.
Spells-zero :
    (base : ℕ) (m : Memory) (a : ℕ)
    → 0 < base
    → Spells (store8 (store8 m a 48) (a + 1) 0) a 1 base 0
Spells-zero base m a pos = record {
  chars = 48 ∷ [];
  text = (ground arith, tt);
  size = refl;
  end = ground arith;
  all = ((ground arith, pos), tt);
  shortest = inr refl;
  value_of = omega arith;
}

-- utoa_dec writes the decimal digits of a 64-bit number, none in front that is not needed, and a
-- zero, returns how many digits there are, and changes no other byte.
pub utoa_dec-Spells :
    (m : Memory) (value buf : ℕ)
    → value < 2 ^ 64
    → let (n, m') = utoa_dec m value buf in Spells m' buf n 10 value × SameAround m m' buf n
unfolding utoa_dec
utoa_dec-Spells m value buf fits = elim (Bool-cases (value == 0)) [
  | inl e ↦
      let none : value ≡ 0 = ground arith in
      rw none (Spells-zero 10 m buf (omega arith), λ x away. ground arith)
  | inr other ↦
      let (le, spelt, before, behind) =
        Spells-write 10 dec_char m buf 0 value dec-IsBase (ground arith) fits in
      rw other (Spells-start _ buf _ 10 value spelt, λ x away. ground (arith, before x, behind x))
]

-- itoa_dec writes the decimal digits of a signed 64-bit number, one at least and no zero in front
-- of others, behind a minus sign if it is negative, the least number included, and a zero; it
-- returns how many characters these are, and changes no other byte.
pub itoa_dec-Spells :
    (m : Memory) (value buf : ℕ)
    → value < 2 ^ 64
    → let (n, m') = itoa_dec m value buf in
      (if leb (2 ^ 63) value
        then (m' buf ≡ 45) × (1 ≤ n) × Spells m' (buf + 1) (n - 1) 10 (2 ^ 64 - value)
        else Spells m' buf n 10 value)
      × SameAround m m' buf n
unfolding itoa_dec utoa_dec
itoa_dec-Spells m value buf fits = elim (Bool-cases (leb (2 ^ 63) value)) [
  | inl negative ↦
      let small : u64 (2 ^ 64 - value) ≡ 2 ^ 64 - value = ground arith in
      let some_digit : (2 ^ 64 - value == 0) ≡ false = ground arith in
      let (le, spelt, before, behind) =
        Spells-write 10 dec_char (store8 m buf 45) buf 1 (2 ^ 64 - value) dec-IsBase (ground arith)
          (ground arith) in
      rw (negative, small, some_digit)
        (
          (before buf (omega arith) ∙ ground arith, le, spelt),
          λ x away. ground (arith, before x, behind x),
        )
  | inr positive ↦ rw positive (utoa_dec-Spells m value buf fits)
]
