-- ===== src/Base/Memory.antt =====
-- Byte-addressed memory. The kernel's objects that are reached through pointers live here, so
-- that overlapping objects overlap in the model too. Objects do not go round the end of the
-- address space.
use Prim.Native.Nat.{ℕ, zero, suc, ◌+◌, ◌*◌, ◌/◌, ◌%◌, ◌^◌, ◌≤◌, ◌<◌}
use mathlib.Core.Path.{◌≡◌, refl}
use mathlib.Core.Logic.{◌⊎◌, inl, inr}
use native.Mathlib.Omega.{arith}
use native.Mathlib.Nat.{pow-suc}
use mathlib.Core.Bool.{◌&&◌}
use os.Base.Tests.{ltb, leb, ◌==◌, if◌then◌else◌}

abbrev pub Memory : Type 0
Memory = ℕ → ℕ

-- Every cell holds a `uint8_t`.
abbrev pub IsBytes : Memory → Type 0
IsBytes m = (a : ℕ) → m a < 256

abbrev pub store8 : Memory → ℕ → ℕ → Memory
store8 m a b x = if x == a then b else m x

-- A little-endian load and store of `n` bytes.
unfoldable pub load : Memory → ℕ → ℕ → ℕ
load m a zero = 0
load m a (suc n) = m a + 256 * load m (a + 1) n

unfoldable pub store : Memory → ℕ → ℕ → ℕ → Memory
store m a zero v = m
store m a (suc n) v = store (store8 m a (v % 256)) (a + 1) n (v / 256)

-- memset(a, b, n)
unfoldable pub fill : Memory → ℕ → ℕ → ℕ → Memory
fill m a b zero = m
fill m a b (suc n) = fill (store8 m a b) (a + 1) b n

-- memcpy(d, s, n), byte by byte upwards
unfoldable pub copy : Memory → ℕ → ℕ → ℕ → Memory
copy m d s zero = m
copy m d s (suc n) = copy (store8 m d (m s)) (d + 1) (s + 1) n

pub store-IsBytes : (m : Memory) (a n v : ℕ) → IsBytes m → IsBytes (store m a n v)
unfolding store
store-IsBytes m a zero v h = h
store-IsBytes m a (suc n) v h =
    store-IsBytes (store8 m a (v % 256)) (a + 1) n (v / 256) (λ x. ground (arith, h x))

pub store-outside : (m : Memory) (a n v x : ℕ) → (x < a) ⊎ (a + n ≤ x) → store m a n v x ≡ m x
unfolding store
store-outside m a zero v x h = refl
store-outside m a (suc n) v x h =
    ground (arith, store-outside (store8 m a (v % 256)) (a + 1) n (v / 256) x)

pub load_ext :
    (m m' : Memory) (a n : ℕ)
    → ((x : ℕ) → a ≤ x → x < a + n → m' x ≡ m x)
    → load m' a n ≡ load m a n
unfolding load
load_ext m m' a zero h = refl
load_ext m m' a (suc n) h = omega (
  arith,
  h a (omega arith) (omega arith),
  load_ext m m' (a + 1) n (λ x p q. h x (omega arith) (omega arith)),
)

-- A store does not change what is loaded from a disjoint range.
pub load-store_disjoint :
    (m : Memory) (a n v b k : ℕ) → (b + k ≤ a) ⊎ (a + n ≤ b) → load (store m a n v) b k ≡ load m b k
load-store_disjoint m a n v b k h =
    load_ext m (store m a n v) b k (λ x p q. store-outside m a n v x (away x p q h))
  where
    away : (x : ℕ) → b ≤ x → x < b + k → (b + k ≤ a) ⊎ (a + n ≤ b) → (x < a) ⊎ (a + n ≤ x)
    away x p q (inl e) = inl (omega arith)
    away x p q (inr e) = inr (omega arith)

pub load-lt : (m : Memory) (a n : ℕ) → IsBytes m → load m a n < 256 ^ n
unfolding load
load-lt m a zero h = omega arith
load-lt m a (suc n) h = omega (arith, pow-suc 256 n, load-lt m (a + 1) n h, h a)

-- What was stored is loaded back.
pub load-store : (m : Memory) (a n v : ℕ) → v < 256 ^ n → load (store m a n v) a n ≡ v
unfolding load store
load-store m a zero v h = omega arith
load-store m a (suc n) v h = ground (
  arith,
  pow-suc 256 n,
  store-outside (store8 m a (v % 256)) (a + 1) n (v / 256) a,
  load-store (store8 m a (v % 256)) (a + 1) n (v / 256),
)

pub fill_lem :
    (m : Memory) (a b n x : ℕ) → fill m a b n x ≡ (if leb a x && ltb x (a + n) then b else m x)
unfolding fill
fill_lem m a b zero x = ground arith
fill_lem m a b (suc n) x = ground (arith, fill_lem (store8 m a b) (a + 1) b n x)

pub fill-IsBytes : (m : Memory) (a b n : ℕ) → b < 256 → IsBytes m → IsBytes (fill m a b n)
fill-IsBytes m a b n small h x = ground (arith, fill_lem m a b n x, h x)
