-- ===== src/KString/Digits.antt =====
-- The loops that make digits and write them.
use os.Base.{
  ℕ, zero, suc, ◌+◌, ◌-◌, ◌*◌, ◌/◌, ◌%◌, ◌^◌, ◌≤◌, ◌<◌, ◌≡◌, inl, inr, ltb, ◌==◌, if◌then◌else◌,
  List, [], ◌∷◌, arith, length, Bool-cases, ap, ◌∙◌, subst, true, false, refl, sym, ◌≢◌, ◌⊎◌,
}
use native.Mathlib.Nat.{pow-suc, pow-zero}
use os.Base.Memory.{Memory, store8}
use os.KString.{digits, write, hex_char, dec_char}

-- The bytes `cs` stand in memory from `a` on.
abbrev pub Holds : Memory → ℕ → List ℕ → Type 0
Holds m a [] = Unit {0}
Holds m a (c ∷ cs) = (m a ≡ c) × Holds m (a + 1) cs

-- The digit of a character, and the number that a string of digits writes, behind `acc`.
abbrev pub digit : ℕ → ℕ
digit c = if ltb c 65 then c - 48 else c - 55

abbrev pub number : ℕ → ℕ → List ℕ → ℕ
number base acc [] = acc
number base acc (c ∷ cs) = number base (acc * base + digit c) cs

-- Every character is a digit.
abbrev pub AllDigits : ℕ → List ℕ → Type 0
AllDigits base [] = Unit {0}
AllDigits base (c ∷ cs) = ((48 ≤ c) × (digit c < base)) × AllDigits base cs

-- There is a character, and the first is no zero unless it is the only one.
abbrev pub IsShortest : List ℕ → Type 0
IsShortest [] = true ≡ false
IsShortest (c ∷ cs) = (c ≢ 48) ⊎ (length cs ≡ 0)

-- What the loop needs of the base, which is 10 or 16, and of the characters.
pub record IsBase (base : ℕ) (char : ℕ → ℕ) : Type 0 where
  pub split : (v : ℕ) → v / base * base + v % base ≡ v
  pub half : (v : ℕ) → v / base ≤ v / 2
  pub inverse : (v : ℕ) → digit (char (v % base)) ≡ v % base
  pub printed : (v : ℕ) → (48 ≤ char (v % base)) × (digit (char (v % base)) < base)

pub hex-IsBase : IsBase 16 hex_char
hex-IsBase = record {
  split = λ v. omega arith;
  half = λ v. omega arith;
  inverse = λ v. ground arith;
  printed = λ v. (ground arith, ground arith);
}

pub dec-IsBase : IsBase 10 dec_char
dec-IsBase = record {
  split = λ v. omega arith;
  half = λ v. omega arith;
  inverse = λ v. ground arith;
  printed = λ v. (ground arith, ground arith);
}

-- The digits of a number below 2 ^ f write it, in `f` rounds.
pub number-digits :
    (base : ℕ) (char : ℕ → ℕ)
    → IsBase base char
    → (f value : ℕ) (temp : List ℕ) → value < 2 ^ f
    → number base 0 (digits base char f value temp) ≡ number base value temp
unfolding digits
number-digits base char is zero value temp fits = let none : value ≡ 0 = omega arith in rw none
number-digits base char is (suc f) value temp fits = elim (Bool-cases (value == 0)) [
  | inl e ↦ let none : value ≡ 0 = ground arith in rw none
  | inr some_left ↦
      let less : value / base < 2 ^ f = omega (arith, is.half value, pow-suc 2 f) in
      let whole : value / base * base + digit (char (value % base)) ≡ value =
        rw (is.inverse value) (is.split value) in
      rw some_left (
        number-digits base char is f (value / base) (char (value % base) ∷ temp) less
        ∙ ap (λ (v : ℕ). number base v temp) whole)
]

digits_zero : (base : ℕ) (char : ℕ → ℕ) (f : ℕ) (temp : List ℕ) → digits base char f 0 temp ≡ temp
unfolding digits
digits_zero base char zero temp = refl
digits_zero base char (suc f) temp = refl

-- The first digit of a number that is not 0 is not 0.
pub digits-IsShortest :
    (base : ℕ) (char : ℕ → ℕ)
    → IsBase base char
    → (f value : ℕ) (temp : List ℕ) → 0 < value
    → value < 2 ^ f
    → IsShortest (digits base char f value temp)
unfolding digits
digits-IsShortest base char is zero value temp pos fits = absurd (omega arith)
digits-IsShortest base char is (suc f) value temp pos fits =
    let some_left : (value == 0) ≡ false = ground arith in
    let less : value / base < 2 ^ f = omega (arith, is.half value, pow-suc 2 f) in
    let more = char (value % base) ∷ temp in
    rw some_left (elim (Bool-cases (value / base == 0)) [
      | inl e ↦
          let none : value / base ≡ 0 = ground arith in
          let whole : value / base * base + value % base ≡ value = is.split value in
          let one_digit : 0 * base + value % base ≡ value =
            subst (λ (q : ℕ). q * base + value % base ≡ value) none whole in
          let lead : char (value % base) ≢ 48 = λ e'.
            let zero_digit : value % base ≡ 0 = sym (is.inverse value) ∙ ap digit e' in
            omega (arith, one_digit, zero_digit, pos) in
          rw (none, digits_zero base char f more) (inl lead)
      | inr later ↦ digits-IsShortest base char is f (value / base) more (ground arith) less
    ])

pub digits-AllDigits :
    (base : ℕ) (char : ℕ → ℕ)
    → IsBase base char
    → (f value : ℕ) (temp : List ℕ) → AllDigits base temp
    → AllDigits base (digits base char f value temp)
unfolding digits
digits-AllDigits base char is zero value temp all = all
digits-AllDigits base char is (suc f) value temp all = elim (Bool-cases (value == 0)) [
  | inl e ↦ rw e all
  | inr some_left ↦ rw some_left (
      digits-AllDigits base char is f (value / base) (char (value % base) ∷ temp)
        (is.printed value, all))
]

-- What `write` leaves in memory.
pub record Written (m m' : Memory) (buf j j' : ℕ) (cs : List ℕ) : Type 0 where
  pub count : j' ≡ j + length cs
  pub text : Holds m' (buf + j) cs
  pub end : m' (buf + j') ≡ 0
  pub before : (x : ℕ) → x < buf + j → m' x ≡ m x
  pub behind : (x : ℕ) → buf + j' < x → m' x ≡ m x

pub write-Written :
    (m : Memory) (buf j : ℕ) (cs : List ℕ)
    → let (j', m') = write m buf j cs in Written m m' buf j j' cs
unfolding write
write-Written m buf j [] = record {
  count = omega arith;
  text = tt;
  end = ground arith;
  before = λ x lt. ground arith;
  behind = λ x lt. ground arith;
}
write-Written m buf j (c ∷ cs) =
    let m1 = store8 m (buf + j) c in
    let (j', m') = write m1 buf (j + 1) cs in
    let w : Written m1 m' buf (j + 1) j' cs = write-Written m1 buf (j + 1) cs in
    record {
      count = omega (arith, w.count);
      text = (
        w.before (buf + j) (omega arith) ∙ ground arith,
        subst (λ a. Holds m' a cs) (omega arith) w.text,
      );
      end = w.end;
      before = λ x lt. ground (arith, w.before x);
      behind = λ x lt. ground (arith, w.behind x, w.count);
    }

length-digits_below :
    (base : ℕ) (char : ℕ → ℕ)
    → ((v k : ℕ) → v < base ^ suc k → v / base < base ^ k)
    → (f k value : ℕ) (temp : List ℕ) → value < base ^ k
    → length (digits base char f value temp) ≤ length temp + k
unfolding digits
length-digits_below base char less zero k value temp fits = omega arith
length-digits_below base char less (suc f) zero value temp fits =
    let none : value ≡ 0 = omega (arith, pow-zero base) in rw none (omega arith)
length-digits_below base char less (suc f) (suc k) value temp fits =
    elim (Bool-cases (value == 0)) [
      | inl e ↦ rw e (omega arith)
      | inr some_left ↦
          let shorter =
            length-digits_below base char less f k (value / base) (char (value % base) ∷ temp)
              (less value k fits) in
          rw some_left (omega (arith, shorter))
    ]

-- A 64-bit number has 20 decimal and 16 hexadecimal digits at most, which fit in the 32 bytes of
-- `temp`.
pub length-digits :
    (value : ℕ)
    → value < 2 ^ 64
    → (length (digits 10 dec_char 64 value []) ≤ 20)
      × (length (digits 16 hex_char 64 value []) ≤ 16)
length-digits value fits = (
  length-digits_below 10 dec_char (λ v k lt. omega (arith, pow-suc 10 k)) 64 20 value []
      (omega arith),
  length-digits_below 16 hex_char (λ v k lt. omega (arith, pow-suc 16 k)) 64 16 value []
      (omega arith),
)
