-- ===== src/KString.antt =====
-- Kernel/lib/kstring.c: numbers to text, and the comparisons. A string is a run of bytes in memory
-- that a zero ends. The array `temp` of digits is filled from its start and read back from its end:
-- it is a list whose head is the digit written last.
pub mod Digits
pub mod Numbers
pub mod Compare
mod Tests
use os.Base.{
  ℕ, zero, suc, ◌+◌, ◌-◌, ◌*◌, ◌/◌, ◌%◌, ◌^◌, Bool, ltb, leb, ◌==◌, not, ◌&&◌, ◌||◌, true, false,
  u32, if◌then◌else◌, List, [], ◌∷◌, u64,
}
use os.Base.Memory.{Memory, store8}

-- The digits of itoa_hex
abbrev pub hex_char : ℕ → ℕ
hex_char d = if ltb d 10 then 48 + d else 65 + d - 10

-- The digits of itoa_dec and utoa_dec
abbrev pub dec_char : ℕ → ℕ
dec_char d = 48 + d

-- `while (value > 0)`: `f` rounds at most.
unfoldable pub digits : ℕ → (ℕ → ℕ) → ℕ → ℕ → List ℕ → List ℕ
digits base char zero value temp = temp
digits base char (suc f) value temp =
    let rest = digits base char f (value / base) (char (value % base) ∷ temp) in
    if value == 0 then temp else rest

-- `while (i > 0) buf[j++] = temp[--i];` and the zero behind
unfoldable pub write : Memory → ℕ → ℕ → List ℕ → ℕ × Memory
write m buf j [] = (j, store8 m (buf + j) 0)
write m buf j (c ∷ temp) = write (store8 m (buf + j) c) buf (j + 1) temp

unfoldable pub itoa_hex : Memory → ℕ → ℕ → ℕ × Memory
itoa_hex m value buf =
    let m2 = store8 (store8 m buf 48) (buf + 1) 120 in
    if value == 0
    then (3, store8 (store8 m2 (buf + 2) 48) (buf + 3) 0)
    else write m2 buf 2 (digits 16 hex_char 64 value [])

unfoldable pub utoa_dec : Memory → ℕ → ℕ → ℕ × Memory
utoa_dec m value buf =
    if value == 0
    then (1, store8 (store8 m buf 48) (buf + 1) 0)
    else write m buf 0 (digits 10 dec_char 64 value [])

-- itoa_dec: `value` is the 64 bits of an `int64_t`.
unfoldable pub itoa_dec : Memory → ℕ → ℕ → ℕ × Memory
itoa_dec m value buf =
    let negative = leb (2 ^ 63) value in
    let num = if negative then u64 (2 ^ 64 - value) else value in
    let temp = digits 10 dec_char 64 num [] in
    if num == 0
    then (1, store8 (store8 m buf 48) (buf + 1) 0)
    else (if negative then write (store8 m buf 45) buf 1 temp else write m buf 0 temp)

-- `(int)p - (int)q` of two bytes, as 32 bits
abbrev pub difference : ℕ → ℕ → ℕ
difference p q = u32 (p + (2 ^ 32 - q))

-- strlen: `f` bounds the walk.
unfoldable pub strlen : Memory → ℕ → ℕ → ℕ
strlen m zero s = 0
strlen m (suc f) s = let rest = strlen m f (s + 1) in if m s == 0 then 0 else 1 + rest

unfoldable pub memcmp : Memory → ℕ → ℕ → ℕ → ℕ
memcmp m s1 s2 zero = 0
memcmp m s1 s2 (suc n) =
    let rest = memcmp m (s1 + 1) (s2 + 1) n in
    if m s1 == m s2 then rest else difference (m s1) (m s2)

-- The loop of strcmp: is there a difference in the first `n` characters?
unfoldable pub differs : Memory → ℕ → ℕ → ℕ → Bool
differs m s1 s2 zero = false
differs m s1 s2 (suc n) =
    let rest = differs m (s1 + 1) (s2 + 1) n in if m s1 == m s2 then rest else true

unfoldable pub strcmp : Memory → ℕ → ℕ → ℕ → ℕ
strcmp m f s1 s2 =
    let len1 = strlen m f s1 in
    let len2 = strlen m f s2 in
    if (len1 == 0) && (len2 == 0)
    then 0
    else (if (len1 == 0) || (len2 == 0)
        then 1
        else (if leb len2 len1
            then (if differs m s1 s2 len2 then 2 else (if len1 == len2 then 0 else 1))
            else (if differs m s1 s2 len1 then 2 else 1)))

unfoldable pub strncmp : Memory → ℕ → ℕ → ℕ → ℕ
strncmp m s1 s2 zero = 0
strncmp m s1 s2 (suc n) =
    let rest = strncmp m (s1 + 1) (s2 + 1) n in
    if not (m s1 == 0) && (not (m s2 == 0) && (m s1 == m s2))
    then rest
    else difference (m s1) (m s2)
