-- ===== src/FatDir/Reversed.antt =====
-- The order in which FAT32_FindEntryAny gives the long-name entries to rebuild_lfn_name.
use os.Base.{ℕ, ◌≤◌, ◌<◌, List, length}
use os.Base.Memory.{Memory}
use os.FatDir.{put_entries, lfn_from, take, drop}
use os.FatDir.Words.{IsName}

module _ (m : Memory) (a : ℕ) (name : List ℕ) (sum : ℕ) (is : IsName name) (long : 13 < length name)
    (short : length name ≤ 26) where
  abbrev entries : List (List ℕ)
  entries = lfn_from 2 0 2 sum name

  abbrev buffer : Memory
  buffer = put_entries m a entries

  abbrev front : List ℕ
  front = take 13 name

  abbrev back : List ℕ
  back = drop 13 name
