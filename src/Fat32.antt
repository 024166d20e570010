-- ===== src/Fat32.antt =====
-- Kernel/fs/fat32.c: the volume, its clusters and its table. A volume is what the functions reach
-- through Info, Disk and Partition. ATA_Read gets `&Disk->is_master` in some calls, which converts to
-- true, and `Disk->is_master` in others. Loops along a chain take fuel; `none` means that it ran out.
pub mod Table
pub mod Entries
pub mod Linked
pub mod Alloc
pub mod Clusters
pub mod Walk
pub mod PastEnd
pub mod Tests
use os.Base.{
  ℕ, zero, suc, ◌+◌, ◌-◌, ◌*◌, ◌/◌, ◌%◌, ◌^◌, Bool, true, false, not, ◌&&◌, ◌||◌, Option, none,
  some, ltb, leb, ◌==◌, if◌then◌else◌, List, [], ◌∷◌, u32, u64, bit_and, ◌⊎◌, inl, inr,
}
use os.Base.Memory.{Memory, store8, load, store}
use os.Disk.{Drive}

-- fat32_info_t
pub record Info : Type 0 where
  pub bytes_per_sector : ℕ
  pub sectors_per_cluster : ℕ
  pub reserved_sectors : ℕ
  pub num_fats : ℕ
  pub sectors_per_fat : ℕ
  pub root_cluster : ℕ
  pub fsinfo_sector : ℕ
  pub backup_boot_sector : ℕ
  pub fat_region_lba : ℕ
  pub data_region_lba : ℕ
  pub total_sectors : ℕ
  pub total_clusters : ℕ
  pub free_clusters : ℕ
  pub next_free_cluster : ℕ
  pub volume_label : Memory
  pub volume_id : ℕ

-- `starting_lba` is the partition's.
pub record Volume (S : Type 0) : Type 0 where
  pub drive : S
  pub is_master : Bool
  pub starting_lba : ℕ
  pub info : Info

abbrev pub entry_eof : ℕ
entry_eof = 0x0FFFFFF8

abbrev pub unknown : ℕ
unknown = 0xFFFFFFFF

-- memcmp with a literal: do the bytes stand at `a`?
abbrev pub matches : Memory → ℕ → List ℕ → Bool
matches m a [] = true
matches m a (c ∷ cs) = (m a == c) && matches m (a + 1) cs

-- read_le16 and read_le32 are loads of two and of four bytes, write_le16 and write_le32 stores.
abbrev pub read_le16 : Memory → ℕ → ℕ
read_le16 m a = load m a 2

abbrev pub read_le32 : Memory → ℕ → ℕ
read_le32 m a = load m a 4

abbrev pub write_le32 : Memory → ℕ → ℕ → Memory
write_le32 m a v = store m a 4 v

unfoldable pub check_dbr : Memory → Bool
check_dbr m =
    let per_cluster = m 13 in
    ((m 0x1FE == 0x55) && (m 0x1FF == 0xAA))
    && ((read_le16 m 11 == 512)
        && (not ((per_cluster == 0) || not (bit_and per_cluster (per_cluster - 1) == 0))
            && (leb (u32 (per_cluster * read_le16 m 11)) (32 * 1024)
                && (not (leb (read_le16 m 14) 1) && not (read_le32 m 36 == 0)))))

-- The loop that takes the blanks off the end of the label, with `n` characters to go
unfoldable pub trim_label : Memory → ℕ → Memory
trim_label m zero = m
trim_label m (suc n) =
    let trimmed = trim_label (if m n == 32 then store8 m n 0 else m) n in
    if (m n == 32) || (m n == 0) then trimmed else m

-- The fields that FAT32_GetInfo reads from the boot sector; `-` wraps around at 32 bits.
unfoldable pub parse_dbr : Memory → Info
parse_dbr m =
    let reserved = read_le16 m 14 in
    let data_region = u32 (reserved + u32 (m 16 * read_le32 m 36)) in
    let total = read_le32 m 32 in
    let label : Memory = λ k. if k == 11 then 0 else m (71 + k) in
    record {
      bytes_per_sector = read_le16 m 11;
      sectors_per_cluster = m 13;
      reserved_sectors = reserved;
      num_fats = m 16;
      sectors_per_fat = read_le32 m 36;
      root_cluster = read_le32 m 44;
      fsinfo_sector = read_le16 m 48;
      backup_boot_sector = read_le16 m 50;
      fat_region_lba = reserved;
      data_region_lba = data_region;
      total_sectors = total;
      total_clusters = u32 (total + (2 ^ 32 - data_region)) / m 13;
      free_clusters = unknown;
      next_free_cluster = unknown;
      volume_label = trim_label label 11;
      volume_id = read_le32 m 67;
    }

module _ (D : Drive) where
  -- FAT32_GetInfo: the status, and the information, which is the old one after an error.
  unfoldable pub get_info : D.State → ℕ → Info → ℕ × Info
  get_info s lba old =
      let (got, boot) = D.read s true lba 1 in
      let info = parse_dbr boot in
      let (got', fs) = D.read s true (u64 (lba + info.fsinfo_sector)) 1 in
      let signed =
        matches fs 0 (0x52 ∷ 0x52 ∷ 0x61 ∷ 0x41 ∷ [])
        && matches fs 0x1E4 (0x72 ∷ 0x72 ∷ 0x41 ∷ 0x61 ∷ []) in
      let full = record info {
        free_clusters = read_le32 fs 0x1E8;
        next_free_cluster = read_le32 fs 0x1EC;
      } in
      if not got || not (check_dbr boot)
      then (1, old)
      else (0, if got' && signed then full else info)

  abbrev pub Vol : Type 0
  Vol = Volume D.State

  -- `Info->bytes_per_sector * Info->sectors_per_cluster`
  abbrev pub cluster_size : Vol → ℕ
  cluster_size v = v.info.bytes_per_sector * v.info.sectors_per_cluster

  unfoldable pub cluster_to_lba : Info → ℕ → ℕ
  cluster_to_lba info c =
      u64 (info.data_region_lba + u32 (c + (2 ^ 32 - 2)) * info.sectors_per_cluster)

  -- The sector of the table that holds the entry of a cluster, in copy `i` of the table
  abbrev pub table_lba : Vol → ℕ → ℕ → ℕ
  table_lba v i c = u64 (
      v.starting_lba
      + v.info.fat_region_lba
      + i * v.info.sectors_per_fat
      + c * 4 / v.info.bytes_per_sector)

  abbrev pub table_offset : Vol → ℕ → ℕ
  table_offset v c = c * 4 % v.info.bytes_per_sector

  -- FAT32_NextCluster; `none` for its status 1
  unfoldable pub next_cluster : Vol → ℕ → Option ℕ
  next_cluster v c =
      let (got, buf) = D.read v.drive true (table_lba v 0 c) 1 in
      if got then some (read_le32 buf (table_offset v c) % 2 ^ 28) else none

  unfoldable pub read_cluster : Vol → ℕ → Bool × Memory
  read_cluster v c =
      D.read v.drive v.is_master (u64 (v.starting_lba + cluster_to_lba v.info c))
        v.info.sectors_per_cluster

  -- FAT32_WriteCluster: did it succeed, and the volume
  unfoldable pub write_cluster : Vol → ℕ → Memory → Bool × Vol
  write_cluster v c buf =
      let (done, s) =
        D.write v.drive v.is_master (u64 (v.starting_lba + cluster_to_lba v.info c))
          v.info.sectors_per_cluster buf in
      (done, record v { drive = if done then D.flush s v.is_master else s })

  -- FAT32_WriteFATEntry: the loop over the copies of the table, from copy `i` on, with `n` to go
  unfoldable pub write_copies : ℕ → ℕ → Vol → ℕ → ℕ → Bool × Vol
  write_copies zero i v c value = (true, v)
  write_copies (suc n) i v c value =
      let lba = table_lba v i c in
      let (got, buf) = D.read v.drive true lba 1 in
      let (done, s) = D.write v.drive true lba 1 (write_le32 buf (table_offset v c) value) in
      let rest = write_copies n (i + 1) (record v { drive = s }) c value in
      if got then (if done then rest else (false, record v { drive = s })) else (false, v)

  unfoldable pub write_fat_entry : Vol → ℕ → ℕ → Bool × Vol
  write_fat_entry v c value =
      let (done, v') = write_copies v.info.num_fats 0 v c value in
      if done then (true, record v' { drive = D.flush v'.drive true }) else (false, v')

  -- FAT32_AllocCluster marks the free cluster `c`: 0 for an error.
  unfoldable pub take_cluster : Vol → ℕ → ℕ × Vol
  take_cluster v c =
      let (done, v') = write_fat_entry v c entry_eof in
      let free = v'.info.free_clusters in
      let counted = if not (free == unknown) && ltb 0 free then free - 1 else free in
      if done
      then (
        c,
        record v' {
          info = record v'.info { free_clusters = counted; next_free_cluster = u32 (c + 1) };
        },
      )
      else (0, v')

  -- Its loop, at cluster `c`
  unfoldable pub alloc_loop : ℕ → Vol → ℕ → ℕ → Option (ℕ × Vol)
  alloc_loop zero v start c = none
  alloc_loop (suc f) v start c =
      let (got, buf) = D.read v.drive true (table_lba v 0 c) 1 in
      let up = u32 (c + 1) in
      let after = if leb (u32 (v.info.total_clusters + 2)) up then 2 else up in
      let rest = alloc_loop f v start after in
      if not got
      then some (0, v)
      else (if read_le32 buf (table_offset v c) % 2 ^ 28 == 0
          then some (take_cluster v c)
          else (if after == start then some (0, v) else rest))

  -- Where the search starts
  abbrev pub alloc_start : Info → ℕ
  alloc_start info =
      let hint = info.next_free_cluster in if not (hint == unknown) && leb 2 hint then hint else 2

  unfoldable pub alloc_cluster : ℕ → Vol → Option (ℕ × Vol)
  alloc_cluster f v = alloc_loop f v (alloc_start v.info) (alloc_start v.info)

  -- FAT32_FreeClusterChain frees one entry: did it succeed, and the volume.
  unfoldable pub free_entry : Vol → ℕ → Bool × Vol
  free_entry v c =
      let (done, v') = write_fat_entry v c 0 in
      let free = v'.info.free_clusters in
      let counted = if free == unknown then free else u32 (free + 1) in
      (done, if done then record v' { info = record v'.info { free_clusters = counted } } else v')

  unfoldable pub free_cluster_chain : ℕ → Vol → ℕ → Option (Bool × Vol)
  free_cluster_chain zero v c = none
  free_cluster_chain (suc f) v c = elim (leb 2 c && ltb c entry_eof) [
    | false ↦ some (true, v)
    | true ↦ elim (next_cluster v c) [
      | none ↦ some (false, v)
      | some next ↦ elim ((free_entry v c).0 && not (leb entry_eof next)) [
        | false ↦ some (free_entry v c)
        | true ↦ free_cluster_chain f (free_entry v c).1 next
      ]
    ]
  ]

  -- A loop over the clusters of a directory from `c` on: `body` sees each cluster and stops with a
  -- result or goes on; the other results are for a cluster that cannot be read, an entry of the table
  -- that cannot be read, and the end of the chain, with the number that marks it.
  module _ {State R : Type 0} (body : State → ℕ → Memory → State ⊎ R) (unreadable no_next : R)
      (ended : State → ℕ → Memory → R) where
    unfoldable pub walk : ℕ → Vol → State → ℕ → Option R
    walk zero v st c = none
    walk (suc f) v st c = elim (read_cluster v c).0 [
      | false ↦ some unreadable
      | true ↦ elim (body st c (read_cluster v c).1) [
        | inr r ↦ some r
        | inl st' ↦ elim (next_cluster v c) [
          | none ↦ some no_next
          | some next ↦ elim (leb entry_eof next) [
            | true ↦ some (ended st' next (read_cluster v c).1)
            | false ↦ walk f v st' next
          ]
        ]
      ]
    ]
