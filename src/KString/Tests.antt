-- ===== src/KString/Tests.antt =====
-- The theorems on numbers and strings at concrete inputs.
use os.Base.{◌-◌, ◌≤◌, ◌≡◌, refl, ◌||◌, ◌==◌, [], ◌∷◌, length, if◌then◌else◌, arith}
use os.Base.Memory.{Memory, IsBytes}
use os.KString.{digits, dec_char, hex_char, itoa_dec}
use os.KString.Compare.{IsString}
use os.KString.Digits.{length-digits}
use os.KString.Numbers.{Spells, SameAround, itoa_dec-Spells}

abbrev blank : Memory
blank a = 255

-- -5 as 64 bits
itoa_dec-Spells_example :
    let (n, m') = itoa_dec blank 18446744073709551611 64 in
    ((m' 64 ≡ 45) × (1 ≤ n) × Spells m' 65 (n - 1) 10 5) × SameAround blank m' 64 n
itoa_dec-Spells_example = itoa_dec-Spells blank 18446744073709551611 64 (omega arith)

length-digits_example :
    (length (digits 10 dec_char 64 9000 []) ≤ 20) × (length (digits 16 hex_char 64 9000 []) ≤ 16)
length-digits_example = length-digits 9000 (omega arith)

-- "hi" at 16 and "ho" at 32
abbrev two_strings : Memory
two_strings a =
    if (a == 16) || (a == 32) then 104 else (if a == 17 then 105 else (if a == 33 then 111 else 0))

two_strings-IsBytes : IsBytes two_strings
two_strings-IsBytes a = ground arith

hi-IsString : IsString two_strings 16 (104 ∷ (105 ∷ []))
hi-IsString = (refl, ground arith, (refl, ground arith, refl))

ho-IsString : IsString two_strings 32 (104 ∷ (111 ∷ []))
ho-IsString = (refl, ground arith, (refl, ground arith, refl))
