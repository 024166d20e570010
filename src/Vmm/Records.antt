-- ===== src/Vmm/Records.antt =====
-- The loop of KillThread over the records of allocations.
use Prim.{Unit}
use os.Base.{
  ℕ, zero, suc, ◌+◌, ◌/◌, ◌^◌, ◌≤◌, ◌<◌, ◌≡◌, ◌≢◌, true, false, ◌||◌, ltb, ◌==◌, refl, arith,
}
use os.Vmm.{VmmState, accepts, vmm_free, record_address, record_size, release_records}

-- Vmm_Free of record `i`
abbrev pub free_record : VmmState → ℕ → VmmState
free_record st i = vmm_free st (record_address st i) (record_size st i)

-- Vmm_Free of `n` records from `i` on
abbrev pub free_records : ℕ → VmmState → ℕ → VmmState
free_records zero st i = st
free_records (suc n) st i = free_records n (free_record st i) (i + 1)

-- Each record that the loop gives to Vmm_Free is a range of pages that it takes.
abbrev pub IsAccepted : ℕ → VmmState → ℕ → Type 0
IsAccepted zero st i = Unit {0}
IsAccepted (suc fuel) st i =
    i < st.current.alloc_record_num
    → (record_address st i ≢ 0)
      × (record_size st i ≢ 0)
      × (accepts st.current (record_address st i) ≡ true)
      × IsAccepted fuel (free_record st i) (i + 1)

vmm_free-count :
    (st : VmmState) (virt size : ℕ)
    → virt ≢ 0
    → size ≢ 0
    → accepts st.current virt ≡ true
    → st.current.alloc_record_num < 2 ^ 32
    → 0 < st.current.alloc_record_num
    → (vmm_free st virt size).current.alloc_record_num + 1 ≡ st.current.alloc_record_num
unfolding vmm_free
vmm_free-count st virt size nv ns ok small some_left =
    let some_range : ((virt == 0) || (size == 0)) ≡ false = ground arith in
    rw (some_range, ok) (omega arith)

release_records-half_of :
    (fuel : ℕ) (st : VmmState) (i n : ℕ)
    → IsAccepted fuel st i
    → st.current.alloc_record_num < 2 ^ 32
    → i ≤ st.current.alloc_record_num + 1
    → st.current.alloc_record_num ≤ i + fuel
    → n + (st.current.alloc_record_num + i) / 2 ≡ st.current.alloc_record_num
    → (release_records fuel st i ≡ free_records n st i)
      × ((release_records fuel st i).current.alloc_record_num
          ≡ (st.current.alloc_record_num + i) / 2)
unfolding release_records
release_records-half_of zero st i zero ok small le enough e = (refl, omega arith)
release_records-half_of zero st i (suc n) ok small le enough e = absurd (omega arith)
release_records-half_of (suc fuel) st i zero ok small le enough e =
    let done : ltb i st.current.alloc_record_num ≡ false = ground arith in
    rw done (refl, omega arith)
release_records-half_of (suc fuel) st i (suc n) ok small le enough e =
    let more : ltb i st.current.alloc_record_num ≡ true = ground arith in
    let (nv, ns, fine, rest) = ok (omega arith) in
    let count =
      vmm_free-count st (record_address st i) (record_size st i) nv ns fine small (omega arith) in
    let (same, left) =
      release_records-half_of fuel (free_record st i) (i + 1) n rest (omega (arith, count))
        (omega (arith, count)) (omega (arith, count)) (omega (arith, count)) in
    rw more (same, omega (arith, left, count))

-- KillThread gives back half of a manager's allocations only, those with the first records (one more
-- than the rest when their number is odd), because Vmm_Free counts down the number that the loop runs
-- up to; the other half is left over. Vmm_Free takes each range of pages that it is given.
pub release_records-half :
    (st : VmmState) (n : ℕ)
    → st.current.alloc_record_num ≡ n
    → n < 2 ^ 32
    → IsAccepted n st 0
    → (release_records n st 0 ≡ free_records ((n + 1) / 2) st 0)
      × ((release_records n st 0).current.alloc_record_num ≡ n / 2)
release_records-half st n e small ok =
    let (same, left) =
      release_records-half_of n st 0 ((n + 1) / 2) ok (omega arith) (omega arith) (omega arith)
        (omega arith) in
    (same, omega (arith, left))
