-- ===== src/Fat32/Tests.antt =====
-- The theorems on the table and the clusters, at a volume of four clusters with one file of two.
use os.Base.{
  ℕ, ◌+◌, ◌*◌, ◌%◌, ◌<◌, ◌≡◌, refl, true, false, ◌||◌, ◌==◌, if◌then◌else◌, arith, some, none, [],
  ◌∷◌,
}
use os.Base.Memory.{load}
use os.Disk.Tests.{Disks, disks, disks-IsDrive}
use os.Fat32.{
  Info, Volume, write_fat_entry, alloc_cluster, free_cluster_chain, read_cluster, write_cluster,
  unknown,
}
use os.Fat32.Table.{Sized}
use os.Fat32.Entries.{Written, write_fat_entry-Written}
use os.Fat32.Alloc.{top, Complete, Settles, alloc_cluster-Settles, free_at}
use os.Fat32.Linked.{Linked, last, link, next_of, Frees, free_cluster_chain-Frees}
use os.Fat32.Clusters.{Placed, read_cluster-write_cluster}
use os.Fat32.PastEnd.{alloc_cluster-endless}

-- The table: cluster 2 leads to cluster 5, which is the last one.
abbrev table_byte : ℕ → ℕ
table_byte k =
    if k == 8
    then 5
    else (if k == 20
        then 0xF8
        else (if (k == 21) || (k == 22) then 0xFF else (if k == 23 then 0x0F else 0)))

abbrev pub sectors : Disks
sectors b l k = if (l == 1) || (l == 2) then table_byte k else (16 * l + k) % 256

abbrev info_with : ℕ → Info
info_with hint = record {
  bytes_per_sector = 512;
  sectors_per_cluster = 1;
  reserved_sectors = 1;
  num_fats = 2;
  sectors_per_fat = 1;
  root_cluster = 2;
  fsinfo_sector = 1;
  backup_boot_sector = 6;
  fat_region_lba = 1;
  data_region_lba = 3;
  total_sectors = 7;
  total_clusters = 4;
  free_clusters = 2;
  next_free_cluster = hint;
  volume_label = λ k. 0;
  volume_id = 0;
}

abbrev pub volume_of : Disks → ℕ → Volume Disks
volume_of s hint = record { drive = s; is_master = true; starting_lba = 0; info = info_with hint }

abbrev pub volume : Volume Disks
volume = volume_of sectors unknown

abbrev sized : (s : Disks) (hint : ℕ) → Sized (volume_of s hint)
sized s hint = record { master = refl; bytes_512 = refl; copies = omega arith; fits = omega arith }

abbrev pub complete : (s : Disks) (hint : ℕ) → Complete (volume_of s hint)
complete s hint = record {
  sized = sized s hint;
  has_clusters = omega arith;
  few = omega arith;
  listed = omega arith;
}

abbrev pub placed : Placed volume
placed = record {
  complete = complete sectors unknown;
  has_sectors = omega arith;
  behind = omega arith;
  ends = omega arith;
}

write_fat_entry-Written_example :
    Written disks-IsDrive volume 3 4 (write_fat_entry disks volume 3 4)
write_fat_entry-Written_example =
    write_fat_entry-Written disks-IsDrive volume 3 4 (sized sectors unknown) (omega arith)
      (omega arith)

alloc_cluster-Settles_example : Settles disks-IsDrive volume (alloc_cluster disks 4 volume)
alloc_cluster-Settles_example =
    alloc_cluster-Settles disks-IsDrive 4 volume (complete sectors unknown) (ground arith)
      (omega arith)

two_clusters-Linked :
    (limit : ℕ) → 5 < limit → Linked (next_of disks-IsDrive volume) limit 2 (2 ∷ 5 ∷ [])
unfolding load
two_clusters-Linked limit h =
    link 2 (5 ∷ []) (omega arith) (omega arith) refl (last 5 (omega arith) h (omega arith))

pub linked : Linked (next_of disks-IsDrive volume) (top volume.info) 2 (2 ∷ 5 ∷ [])
linked = two_clusters-Linked 6 (omega arith)

free_cluster_chain-Frees_example :
    (out : Volume Disks) × (free_cluster_chain disks 2 volume 2 ≡ some (true, out))
    × Frees disks-IsDrive volume (2 ∷ 5 ∷ []) out
free_cluster_chain-Frees_example =
    free_cluster_chain-Frees disks-IsDrive 2 volume 2 (2 ∷ 5 ∷ []) (sized sectors unknown)
      (omega arith) (two_clusters-Linked 128 (omega arith))

read_cluster-write_cluster_example :
    ((write_cluster disks volume 3 (λ k. 7)).0 ≡ true)
    × ((read_cluster disks (write_cluster disks volume 3 (λ k. 7)).1 3).1 9 ≡ 7)
read_cluster-write_cluster_example =
    read_cluster-write_cluster disks-IsDrive volume placed 3 (λ k. 7) (omega arith) 3 9
      (omega arith) (omega arith)

-- The hint is behind the last cluster, whose number is 5.
abbrev past : Disks → Volume Disks
past s = volume_of s 6

free_past : free_at disks-IsDrive (past sectors) 6 ≡ true
unfolding load
free_past = refl

-- No cluster is free.
abbrev all_taken : Disks
all_taken b l k = 1

taken : (d : ℕ) → free_at disks-IsDrive (past all_taken) d ≡ false
unfolding load
taken d = refl

alloc_cluster-endless_example : alloc_cluster disks 100 (past all_taken) ≡ none
alloc_cluster-endless_example =
    alloc_cluster-endless disks-IsDrive 100 (past all_taken) (complete all_taken 6) refl
      (λ d low high. taken d)
