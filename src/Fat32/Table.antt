-- ===== src/Fat32/Table.antt =====
-- The copies of the table, as the numbers that their entries hold, over a drive that works.
use os.Base.{
  ℕ, ◌+◌, ◌*◌, ◌/◌, ◌%◌, ◌^◌, ◌≤◌, ◌<◌, ◌≡◌, refl, Bool, true, ◌&&◌, ltb, ◌==◌, if◌then◌else◌,
  arith, ◌⊎◌, inl, inr, Bool-cases, ◌≢◌, ◌∙◌, sym,
}
use os.Base.Memory.{Memory, load_ext, load-store, load-store_disjoint}
use os.Disk.{Drive, IsDrive}
use os.Fat32.{Info, Volume, Vol, table_lba, table_offset, read_le32, write_le32}
use native.Mathlib.Nat.{mul-le-mul_right}

-- The volume is on the master drive, whose sectors the routines for the table use whatever the volume
-- says, and the table lies within 2 ^ 64 sectors of 512 bytes.
pub record IsSized (is_master : Bool) (start : ℕ) (info : Info) : Type 0 where
  pub master : is_master ≡ true
  pub bytes_512 : info.bytes_per_sector ≡ 512
  pub copies : 1 ≤ info.num_fats
  pub fits : start + info.fat_region_lba + info.num_fats * info.sectors_per_fat ≤ 2 ^ 64

abbrev pub Sized : {S : Type 0} → Volume S → Type 0
Sized v = IsSized v.is_master v.starting_lba v.info

-- Does the table have an entry for the cluster?
abbrev pub InTable : {S : Type 0} → Volume S → ℕ → Type 0
InTable v c = c < v.info.sectors_per_fat * 128

module _ {D : Drive} (L : IsDrive D) where
  abbrev pub sector_of : D.State → ℕ → Memory
  sector_of s l = L.sector s true l

  -- The entry of a cluster in copy `i`, all 32 bits of it
  abbrev pub entry : Vol D → ℕ → ℕ → ℕ
  entry v i c = read_le32 (sector_of v.drive (table_lba D v i c)) (table_offset D v c)

  -- One sector is read and written.
  read_sector : (s : D.State) (l k : ℕ) → k < 512 → (D.read s true l 1).1 k ≡ sector_of s l k
  read_sector s l k h =
      let quotient : l + k / 512 ≡ l = omega arith in
      let offset : k % 512 ≡ k = omega arith in rw (L.read_ok s true l 1, quotient, offset) refl

  pub read_le32-read :
      (s : D.State) (l off : ℕ)
      → off + 4 ≤ 512
      → read_le32 (D.read s true l 1).1 off ≡ read_le32 (sector_of s l) off
  read_le32-read s l off h =
      load_ext (sector_of s l) (D.read s true l 1).1 off 4
        (λ x p q. read_sector s l x (omega arith))

  sector_of-write_self :
      (s : D.State) (l k : ℕ) (buf : Memory) → sector_of (D.write s true l 1 buf).1 l k ≡ buf k
  sector_of-write_self s l k buf = ground (arith, L.sector-write s l 1 buf l k)

  sector_of-write_ne :
      (s : D.State) (l l' k : ℕ) (buf : Memory)
      → l ≢ l'
      → sector_of (D.write s true l 1 buf).1 l' k ≡ sector_of s l' k
  sector_of-write_ne s l l' k buf ne = ground (arith, L.sector-write s l 1 buf l' k)

  -- Four bytes of a sector are changed.
  abbrev pub changed : D.State → ℕ → ℕ → ℕ → D.State
  changed s l off value = (D.write s true l 1 (write_le32 (D.read s true l 1).1 off value)).1

  changed_self :
      (s : D.State) (l off value : ℕ)
      → value < 2 ^ 32
      → read_le32 (sector_of (changed s l off value) l) off ≡ value
  changed_self s l off value h =
      let buf = write_le32 (D.read s true l 1).1 off value in
      load_ext buf (sector_of (changed s l off value) l) off 4
        (λ x p q. sector_of-write_self s l x buf)
      ∙ load-store (D.read s true l 1).1 off 4 value h

  changed_beside :
      (s : D.State) (l off off' value : ℕ)
      → off' + 4 ≤ 512
      → (off' + 4 ≤ off) ⊎ (off + 4 ≤ off')
      → read_le32 (sector_of (changed s l off value) l) off' ≡ read_le32 (sector_of s l) off'
  changed_beside s l off off' value h apart =
      let buf = write_le32 (D.read s true l 1).1 off value in
      load_ext buf (sector_of (changed s l off value) l) off' 4
        (λ x p q. sector_of-write_self s l x buf)
      ∙ load-store_disjoint (D.read s true l 1).1 off 4 value off' 4 apart
      ∙ read_le32-read s l off' h

  pub changed_elsewhere :
      (s : D.State) (l l' off k value : ℕ)
      → l ≢ l'
      → sector_of (changed s l off value) l' k ≡ sector_of s l' k
  changed_elsewhere s l l' off k value ne =
      sector_of-write_ne s l l' k (write_le32 (D.read s true l 1).1 off value) ne

  module _ (v : Vol D) (ok : Sized v) where
    pub copy_ends :
        (i j : ℕ)
        → i < j
        → i * v.info.sectors_per_fat + v.info.sectors_per_fat ≤ j * v.info.sectors_per_fat
    copy_ends i j h =
        let le : i + 1 ≤ j = omega arith in
        omega (arith, mul-le-mul_right v.info.sectors_per_fat le)

    -- The sector of an entry, with no wrap
    pub table_lba_lem :
        (i c : ℕ)
        → i < v.info.num_fats
        → InTable v c
        → table_lba D v i c
          ≡ v.starting_lba + v.info.fat_region_lba + i * v.info.sectors_per_fat + c * 4 / 512
    table_lba_lem i c h t = rw ok.bytes_512 (omega (arith, ok.fits, copy_ends i v.info.num_fats h))

    same_copy :
        (i j c d : ℕ)
        → i < v.info.num_fats
        → j < v.info.num_fats
        → InTable v c
        → InTable v d
        → table_lba D v i c ≡ table_lba D v j d
        → (i ≡ j) × (c * 4 / 512 ≡ d * 4 / 512)
    same_copy i j c d hi hj tc td e = elim (Bool-cases (ltb i j)) [
      | inl lt ↦ absurd (
          omega (
            arith,
            copy_ends i j (ground arith),
            table_lba_lem i c hi tc,
            table_lba_lem j d hj td,
            e,
          ))
      | inr ge ↦ elim (Bool-cases (ltb j i)) [
        | inl gt ↦ absurd (
            omega (
              arith,
              copy_ends j i (ground arith),
              table_lba_lem i c hi tc,
              table_lba_lem j d hj td,
              e,
            ))
        | inr le ↦
            let eq : i ≡ j = ground arith in
            let products : i * v.info.sectors_per_fat ≡ j * v.info.sectors_per_fat = rw eq refl in
            (eq, omega (arith, products, table_lba_lem i c hi tc, table_lba_lem j d hj td, e))
      ]
    ]

    -- The volume after one copy of an entry is written
    abbrev pub stored : ℕ → ℕ → ℕ → Vol D
    stored i c value = record v {
      drive = changed v.drive (table_lba D v i c) (table_offset D v c) value;
    }

    entry-stored_self : (i c value : ℕ) → value < 2 ^ 32 → entry (stored i c value) i c ≡ value
    entry-stored_self i c value small =
        changed_self v.drive (table_lba D v i c) (table_offset D v c) value small

    entry-stored_ne :
        (i c value j d : ℕ)
        → i < v.info.num_fats
        → j < v.info.num_fats
        → InTable v c
        → InTable v d
        → (j ≢ i) ⊎ (d ≢ c)
        → entry (stored i c value) j d ≡ entry v j d
    entry-stored_ne i c value j d hi hj tc td ne =
        elim (Bool-cases (table_lba D v i c == table_lba D v j d)) [
          | inr miss ↦
              load_ext (sector_of v.drive (table_lba D v j d))
                (sector_of (stored i c value).drive (table_lba D v j d)) (table_offset D v d) 4
                (λ x p q.
                  changed_elsewhere v.drive (table_lba D v i c) (table_lba D v j d)
                    (table_offset D v c) x value (ground (arith, miss)))
          | inl hit ↦
              let at : table_lba D v i c ≡ table_lba D v j d = ground (arith, hit) in
              let twins = same_copy i j c d hi hj tc td at in
              let offset : (e : ℕ) → table_offset D v e ≡ e * 4 % 512 = λ e. rw ok.bytes_512 refl in
              rw (sym at) (
                changed_beside v.drive (table_lba D v i c) (table_offset D v c) (table_offset D v d)
                  value (omega (arith, offset d)) (ground (arith, offset c, offset d, twins, ne)))
        ]

    pub entry-stored :
        (i c value j d : ℕ)
        → i < v.info.num_fats
        → j < v.info.num_fats
        → InTable v c
        → InTable v d
        → value < 2 ^ 32
        → entry (stored i c value) j d ≡ (if (j == i) && (d == c) then value else entry v j d)
    entry-stored i c value j d hi hj tc td small = elim (Bool-cases ((j == i) && (d == c))) [
      | inl hit ↦
          let copy : j ≡ i = ground arith in
          let cluster : d ≡ c = ground arith in
          rw (hit, copy, cluster) (entry-stored_self i c value small)
      | inr miss ↦ rw miss (entry-stored_ne i c value j d hi hj tc td (ground arith))
    ]
