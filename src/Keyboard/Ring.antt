-- ===== src/Keyboard/Ring.antt =====
-- The ring of keys is a first-in first-out queue of 256 keys at most.
use os.Base.{
  ℕ, zero, suc, ◌+◌, ◌%◌, ◌≤◌, ◌<◌, ◌≡◌, refl, ◌≢◌, inl, inr, true, false, ltb, ◌==◌, if◌then◌else◌,
  List, [], ◌∷◌, ◌++◌, arith, length, get_or, length-set, length-append, get_or-set_self,
  get_or-set_ne, ==_ne, Bool-cases, ap, sym, ◌∙◌,
}
use os.Keyboard.{Keyboard, push, get_key}

-- The ring holds the keys `keys`, the oldest first.
pub record IsRing (k : Keyboard) (keys : List ℕ) : Type 0 where
  pub size : length k.buffer ≡ 256
  pub read : k.read_index < 256
  pub write : k.write_index ≡ (k.read_index + length keys) % 256
  pub count : k.count ≡ length keys
  pub fits : length keys ≤ 256
  pub content :
      (i : ℕ) → i < length keys → get_or k.buffer ((k.read_index + i) % 256) 0 ≡ get_or keys i 0

get_or-snoc_self : (xs : List ℕ) (y d : ℕ) → get_or (xs ++ (y ∷ [])) (length xs) d ≡ y
get_or-snoc_self [] y d = refl
get_or-snoc_self (x ∷ xs) y d = get_or-snoc_self xs y d

get_or-snoc_lt :
    (xs : List ℕ) (y d i : ℕ) → i < length xs → get_or (xs ++ (y ∷ [])) i d ≡ get_or xs i d
get_or-snoc_lt [] y d i lt = absurd (omega arith)
get_or-snoc_lt (x ∷ xs) y d zero lt = refl
get_or-snoc_lt (x ∷ xs) y d (suc i) lt = get_or-snoc_lt xs y d i (omega arith)

-- A key that is not zero goes behind the others if there are fewer than 256, and is lost otherwise.
pub push-IsRing :
    (k : Keyboard) (keys : List ℕ) (key : ℕ)
    → key ≢ 0
    → IsRing k keys
    → IsRing (push k key) (if ltb (length keys) 256 then keys ++ (key ∷ []) else keys)
unfolding push
push-IsRing k keys key ne is = elim (Bool-cases (ltb (length keys) 256)) [
  | inl room ↦
      let w = k.write_index in
      let w_lt : w < 256 = omega (arith, is.write) in
      let few : length keys < 256 = ground arith in
      let len = length-append keys (key ∷ []) in
      let room' : ltb k.count 256 ≡ true = ground (arith, is.count) in
      rw (==_ne key 0 ne, room', room)
        (record {
          size = length-set k.buffer w key ∙ is.size;
          read = is.read;
          write = omega (arith, is.write, len);
          count = omega (arith, len, is.count);
          fits = ground (arith, len);
          content = λ i lt. elim (Bool-cases (i == length keys)) [
            | inl e ↦
                let at_end : i ≡ length keys = ground arith in
                let at_w : (k.read_index + i) % 256 ≡ w = omega (arith, is.write, at_end) in
                rw at_w (
                  get_or-set_self k.buffer w key 0 (omega (arith, is.size))
                  ∙ sym (
                      ap (λ (j : ℕ). get_or (keys ++ (key ∷ [])) j 0) at_end
                      ∙ get_or-snoc_self keys key 0))
            | inr other ↦
                let old : i < length keys = ground (arith, len) in
                let apart : w ≢ (k.read_index + i) % 256 =
                  λ e. absurd (omega (arith, e, few, old, is.write, is.read)) in
                get_or-set_ne k.buffer w ((k.read_index + i) % 256) key 0 apart
                ∙ is.content i old
                ∙ sym (get_or-snoc_lt keys key 0 i old)
          ];
        })
  | inr full ↦
      let full' : ltb k.count 256 ≡ false = ground (arith, is.count) in
      rw (==_ne key 0 ne, full', full) is
]

-- The oldest key comes out first.
pub get_key-cons :
    (k : Keyboard) (key : ℕ) (keys : List ℕ)
    → IsRing k (key ∷ keys)
    → let (got, k') = get_key k in (got ≡ key) × IsRing k' keys
unfolding get_key
get_key-cons k key keys is =
    let some_key : (k.count == 0) ≡ false = ground (arith, is.count) in
    let at_read : k.read_index ≡ (k.read_index + 0) % 256 = omega (arith, is.read) in
    rw some_key (
      ap (λ (j : ℕ). get_or k.buffer j 0) at_read ∙ is.content 0 (omega arith),
      record {
        size = length-set k.buffer k.read_index 0 ∙ is.size;
        read = omega arith;
        write = omega (arith, is.write);
        count = omega (arith, is.count);
        fits = omega (arith, is.fits);
        content = λ i lt.
            let pos = ((k.read_index + 1) % 256 + i) % 256 in
            let same : pos ≡ (k.read_index + suc i) % 256 = omega arith in
            let apart : k.read_index ≢ pos = λ e. absurd (omega (arith, e, is.read, is.fits)) in
            get_or-set_ne k.buffer k.read_index pos 0 0 apart
            ∙ ap (λ (j : ℕ). get_or k.buffer j 0) same
            ∙ is.content (suc i) (omega arith);
      },
    )

-- From an empty ring zero comes out, and nothing changes.
pub get_key-nil : (k : Keyboard) → IsRing k [] → get_key k ≡ (0, k)
unfolding get_key
get_key-nil k is = rw is.count
