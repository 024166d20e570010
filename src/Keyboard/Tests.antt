-- ===== src/Keyboard/Tests.antt =====
-- The theorems on the ring of keys at rings that go round the end of the buffer.
use os.Base.{
  ℕ, zero, suc, ◌+◌, ◌%◌, ◌<◌, ◌≡◌, refl, false, List, [], ◌∷◌, arith, get_or, set, replicate,
}
use os.Keyboard.{Keyboard, push}
use os.Keyboard.Ring.{IsRing, push-IsRing}

abbrev bytes : List ℕ
bytes = set (replicate 256 0) 255 65

-- One key, 65, in the last byte of the buffer
abbrev turning : Keyboard
turning = record {
  buffer = bytes;
  write_index = 0;
  read_index = 255;
  count = 1;
  shift_pressed = false;
}

turning-content : (i : ℕ) → i < 1 → get_or bytes ((255 + i) % 256) 0 ≡ get_or {A = ℕ} (65 ∷ []) i 0
turning-content zero lt = refl
turning-content (suc i) lt = absurd (omega arith)

turning-IsRing : IsRing turning (65 ∷ [])
turning-IsRing = record {
  size = refl;
  read = omega arith;
  write = refl;
  count = refl;
  fits = omega arith;
  content = turning-content;
}

push-IsRing_example : IsRing (push turning 66) (65 ∷ (66 ∷ []))
push-IsRing_example = push-IsRing turning (65 ∷ []) 66 (ground arith) turning-IsRing
