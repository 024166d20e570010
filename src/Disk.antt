-- ===== src/Disk.antt =====
-- What the file systems use of a drive: ATA_Read, ATA_Write and ATA_Flush_Cache of
-- Kernel/drives/ata.c. These talk to the device over ports, so that a drive is a parameter here, with
-- the sectors that it holds. A buffer is a function from its offsets to its bytes.
pub mod Tests
use os.Base.{
  ℕ, ◌+◌, ◌-◌, ◌*◌, ◌/◌, ◌%◌, ◌≡◌, refl, Bool, true, false, ◌&&◌, ltb, leb, if◌then◌else◌, arith,
}
use os.Base.Memory.{Memory}

-- `read` gives the buffer as it is afterwards, `write` tells whether it succeeded. The Boolean
-- argument is `is_master`, and the numbers are the first sector and how many there are.
pub record Drive : Type 1 where
  pub State : Type 0
  pub read : State → Bool → ℕ → ℕ → Bool × Memory
  pub write : State → Bool → ℕ → ℕ → Memory → Bool × State
  pub flush : State → Bool → State

-- Is sector `l` one of the `n` sectors from `lba` on?
abbrev pub covers : ℕ → ℕ → ℕ → Bool
covers lba n l = leb lba l && ltb l (lba + n)

-- A drive that works: `sector` gives the bytes of the sectors of the master (true) and of the slave,
-- a read gives these, and a write changes its sectors and no other.
pub record IsDrive (D : Drive) : Type 0 where
  pub sector : D.State → Bool → ℕ → ℕ → ℕ
  pub read_ok :
      (s : D.State) (b : Bool) (lba n : ℕ)
      → D.read s b lba n ≡ (true, λ k. sector s b (lba + k / 512) (k % 512))
  pub write_ok :
      (s : D.State) (b : Bool) (lba n : ℕ) (buf : Memory) → (D.write s b lba n buf).0 ≡ true
  pub sector-write :
      (s : D.State) (lba n : ℕ) (buf : Memory) (l k : ℕ)
      → sector (D.write s true lba n buf).1 true l k
        ≡ (if covers lba n l then buf ((l - lba) * 512 + k) else sector s true l k)
  pub sector-flush :
      (s : D.State) (b : Bool) (l k : ℕ) → sector (D.flush s b) true l k ≡ sector s true l k
