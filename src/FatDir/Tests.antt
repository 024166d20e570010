-- ===== src/FatDir/Tests.antt =====
-- A new name in a cluster with one entry in use and two deleted ones.
use os.Base.{
  arith, ℕ, ◌+◌, ◌*◌, ◌≡◌, ◌≤◌, ◌<◌, refl, some, [], ◌∷◌, List, length, ◌==◌, ◌||◌, if◌then◌else◌,
}
use os.Base.Memory.{Memory}
use os.FatDir.{find_slot, with_entries, make_lfn_entries, lfn_from}
use os.FatDir.{put_entries}
use os.Directory.{name_to_83, lfn_checksum, rebuild_lfn_name}
use os.FatDir.ReadBack.{offsets, rebuild_lfn_name-put_entries}
use os.FatDir.Slots.{Unused}
use os.FatDir.Live.{new_entries, with_entries-live}

abbrev cluster : Memory
cluster k = if k == 0 then 65 else (if (k == 32) || (k == 64) then 0xE5 else 0)

abbrev name : List ℕ
name = 97 ∷ 98 ∷ []

place : find_slot cluster 16 (length (new_entries name 0x20 0 0 0)) 0 0 0 16 ≡ some 1
unfolding find_slot make_lfn_entries lfn_from
place = refl

with_entries-live_example :
    (length (make_lfn_entries name (lfn_checksum (name_to_83 name))) ≤ 20)
    × (1 + length (new_entries name 0x20 0 0 0) ≤ 16)
    × ((e k : ℕ)
        → ¬ Unused cluster e
        → k < 32
        → with_entries cluster 1 (new_entries name 0x20 0 0 0) (e * 32 + k) ≡ cluster (e * 32 + k))
with_entries-live_example = with_entries-live cluster 16 1 name 0x20 0 0 0 (omega arith) place

rebuild_lfn_name-put_entries_example :
    rebuild_lfn_name
      (put_entries cluster 32 (make_lfn_entries name 7))
      (offsets 32 (length (make_lfn_entries name 7)))
    ≡ name
rebuild_lfn_name-put_entries_example =
    rebuild_lfn_name-put_entries cluster 32 name 7
      (omega arith, omega arith, (omega arith, omega arith, tt)) (omega arith)

abbrev long_name : List ℕ
long_name =
    97 ∷ 98 ∷ 99 ∷ 100 ∷ 101 ∷ 102 ∷ 103 ∷ 104 ∷ 105 ∷ 106 ∷ 107 ∷ 108 ∷ 109 ∷ 110 ∷ 111 ∷ []
