-- ===== src/Fat32/Clusters.antt =====
-- FAT32_ReadCluster and FAT32_WriteCluster on the sectors of the data clusters.
use os.Base.{
  ℕ, ◌+◌, ◌-◌, ◌*◌, ◌/◌, ◌%◌, ◌^◌, ◌≤◌, ◌<◌, ◌≡◌, refl, Bool, true, false, ◌==◌, if◌then◌else◌,
  arith, u32, u64, inl, inr, Bool-cases, ◌≢◌, ◌∙◌, ap, ap₂,
}
use os.Base.Memory.{Memory, load_ext}
use os.Disk.{Drive, IsDrive, covers}
use os.Fat32.{
  Volume, Vol, cluster_to_lba, read_cluster, write_cluster, write_fat_entry, table_lba,
  table_offset,
}
use os.Fat32.Table.{InTable, entry, sector_of, table_lba_lem, copy_ends}
use os.Fat32.Entries.{write_fat_entry-Written}
use os.Fat32.Alloc.{InData, Complete}
use native.Mathlib.Nat.{mul-le-mul_right}

-- The data clusters follow the table, within 2 ^ 64 sectors.
pub record Placed {S : Type 0} (v : Volume S) : Type 0 where
  pub complete : Complete v
  pub has_sectors : 1 ≤ v.info.sectors_per_cluster
  pub behind :
      v.info.fat_region_lba + v.info.num_fats * v.info.sectors_per_fat ≤ v.info.data_region_lba
  pub ends :
      v.starting_lba + v.info.data_region_lba + v.info.total_clusters * v.info.sectors_per_cluster
      ≤ 2 ^ 64

-- The first sector of a cluster
abbrev pub first_sector : {S : Type 0} → Volume S → ℕ → ℕ
first_sector v c = v.starting_lba + v.info.data_region_lba + (c - 2) * v.info.sectors_per_cluster

module _ {D : Drive} (L : IsDrive D) (v : Vol D) (ok : Placed v) where
  spaced :
      (c d : ℕ) → 2 ≤ c → c < d → first_sector v c + v.info.sectors_per_cluster ≤ first_sector v d
  spaced c d low lt =
      let le : c - 2 + 1 ≤ d - 2 = omega arith in
      omega (arith, mul-le-mul_right v.info.sectors_per_cluster le)

  cluster_ends : (c : ℕ) → InData v.info c → first_sector v c + v.info.sectors_per_cluster ≤ 2 ^ 64
  cluster_ends c hc =
      let le : c - 2 + 1 ≤ v.info.total_clusters = omega (arith, hc) in
      omega (arith, mul-le-mul_right v.info.sectors_per_cluster le, ok.ends)

  -- The sector that the code computes, with no wrap
  lba_lem :
      (c : ℕ)
      → InData v.info c
      → u64 (v.starting_lba + cluster_to_lba D v.info c) ≡ first_sector v c
  unfolding cluster_to_lba
  lba_lem c hc =
      let index : u32 (c + (2 ^ 32 - 2)) ≡ c - 2 = omega (arith, hc, ok.complete.few) in
      rw index (omega (arith, cluster_ends c hc, ok.has_sectors))

  -- The bytes of a cluster
  abbrev pub cluster_bytes : D.State → ℕ → Memory
  cluster_bytes s c k = sector_of L s (first_sector v c + k / 512) (k % 512)

  abbrev at_drive : D.State → ℕ → Bool → Bool × Memory
  at_drive s c b = (true, λ k. L.sector s b (first_sector v c + k / 512) (k % 512))

  pub read_cluster_lem :
      (s : D.State) (c : ℕ)
      → InData v.info c
      → read_cluster D (record v { drive = s }) c ≡ (true, cluster_bytes s c)
  unfolding read_cluster
  read_cluster_lem s c hc =
      rw (read_cluster, lba_lem c hc)
        (L.read_ok s v.is_master (first_sector v c) v.info.sectors_per_cluster
          ∙ ap (at_drive s c) ok.complete.sized.master)

  module _ (c k : ℕ) (buf : Memory) (hc : InData v.info c)
      (hk : k < v.info.sectors_per_cluster * 512) where
    -- The drive after the cluster `c` is written
    abbrev put : D.State
    put = (D.write v.drive true (first_sector v c) v.info.sectors_per_cluster buf).1

    written_self : cluster_bytes put c k ≡ buf k
    written_self =
        let offset : (first_sector v c + k / 512 - first_sector v c) * 512 + k % 512 ≡ k =
          omega arith in
        let inside : covers (first_sector v c) v.info.sectors_per_cluster
              (first_sector v c + k / 512)
            ≡ true =
          ground arith in
        L.sector-write v.drive (first_sector v c) v.info.sectors_per_cluster buf
          (first_sector v c + k / 512) (k % 512)
        ∙ rw (inside, offset) refl

    written_ne :
        (d : ℕ) → InData v.info d → d ≢ c → cluster_bytes put d k ≡ cluster_bytes v.drive d k
    written_ne d hd ne =
        let outside : covers (first_sector v c) v.info.sectors_per_cluster
              (first_sector v d + k / 512)
            ≡ false =
          ground (arith, spaced c d hc.0, spaced d c hd.0) in
        L.sector-write v.drive (first_sector v c) v.info.sectors_per_cluster buf
          (first_sector v d + k / 512) (k % 512)
        ∙ rw outside refl

  module _ (c : ℕ) (buf : Memory) (hc : InData v.info c) where
    abbrev pub flushed : D.State
    flushed =
        D.flush (D.write v.drive true (first_sector v c) v.info.sectors_per_cluster buf).1
          v.is_master

    abbrev with_write : Bool → ℕ → Bool × Vol D
    with_write b l = (
      true,
      record v {
        drive = D.flush (D.write v.drive b l v.info.sectors_per_cluster buf).1 v.is_master;
      },
    )

    pub write_cluster_lem : write_cluster D v c buf ≡ (true, record v { drive = flushed })
    unfolding write_cluster
    write_cluster_lem =
        let lba = u64 (v.starting_lba + cluster_to_lba D v.info c) in
        let good : (D.write v.drive v.is_master lba v.info.sectors_per_cluster buf).0 ≡ true =
          L.write_ok v.drive v.is_master lba v.info.sectors_per_cluster buf in
        rw (write_cluster, good) (ap₂ with_write ok.complete.sized.master (lba_lem c hc))

    -- On a drive that works, FAT32_WriteCluster succeeds, and FAT32_ReadCluster gives then the
    -- bytes that were written for this cluster, and what it gave before for every other data
    -- cluster. The volume is on the master drive; the table lies within 2 ^ 64 sectors of 512
    -- bytes, in one copy at least, and has an entry for each data cluster; there is a data cluster,
    -- and none has the number of an end mark; the data clusters, of one sector at least, follow the
    -- table, within 2 ^ 64 sectors.
    pub read_cluster-write_cluster :
        (d k : ℕ)
        → InData v.info d
        → k < v.info.sectors_per_cluster * 512
        → ((write_cluster D v c buf).0 ≡ true)
          × ((read_cluster D (write_cluster D v c buf).1 d).1 k
              ≡ (if d == c then buf k else (read_cluster D v d).1 k))
    read_cluster-write_cluster d k hd hk =
        rw (write_cluster_lem, read_cluster_lem flushed d hd, read_cluster_lem v.drive d hd)
          (
            refl,
            L.sector-flush (put c k buf hc hk) v.is_master (first_sector v d + k / 512) (k % 512)
                ∙ elim (Bool-cases (d == c)) [
                  | inl same ↦
                      let e : d ≡ c = ground arith in rw (same, e) (written_self c k buf hc hk)
                  | inr other ↦ rw other (written_ne c k buf hc hk d hd (ground arith))
                ],
          )

    -- On a drive that works, FAT32_WriteCluster keeps every entry of the table, if the volume is
    -- complete and its data clusters follow the table, within 2 ^ 64 sectors.
    pub entry-write_cluster :
        (j d : ℕ)
        → j < v.info.num_fats
        → InTable v d
        → entry L (write_cluster D v c buf).1 j d ≡ entry L v j d
    entry-write_cluster j d hj td =
        let l = table_lba D v j d in
        let law =
          λ (x : ℕ). L.sector-write v.drive (first_sector v c) v.info.sectors_per_cluster buf l x in
        let ends = copy_ends L v ok.complete.sized j v.info.num_fats hj in
        let apart : covers (first_sector v c) v.info.sectors_per_cluster l ≡ false =
          ground (arith, table_lba_lem L v ok.complete.sized j d hj td, ends, ok.behind) in
        rw write_cluster_lem (
          load_ext (sector_of L v.drive l) (sector_of L flushed l) (table_offset D v d) 4
            (λ x p q. L.sector-flush _ v.is_master l x ∙ law x ∙ rw apart refl))

  -- On a drive that works, FAT32_WriteFATEntry changes no byte of a data cluster, if the volume is
  -- complete, its data clusters follow the table, within 2 ^ 64 sectors, the cluster has an entry
  -- and the value is below 2 ^ 32.
  pub read_cluster-write_fat_entry :
      (c value d k : ℕ)
      → InTable v c
      → value < 2 ^ 32
      → InData v.info d
      → (read_cluster D (write_fat_entry D v c value).1 d).1 k ≡ (read_cluster D v d).1 k
  read_cluster-write_fat_entry c value d k tc small hd =
      let w = write_fat_entry-Written L v c value ok.complete.sized tc small in
      rw
        (
          w.same_volume,
          read_cluster_lem (write_fat_entry D v c value).1.drive d hd,
          read_cluster_lem v.drive d hd,
        )
        (w.outside (first_sector v d + k / 512) (k % 512) (inr (omega (arith, ok.behind))))
