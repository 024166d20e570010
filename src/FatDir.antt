-- ===== src/FatDir.antt =====
-- Kernel/fs/fat32.c: creating, renaming and deleting files and directories. The time of the clock,
-- which get_rtc_time reads, is an argument.
pub mod Slots
pub mod Live
pub mod Words
pub mod LongNames
pub mod ReadBack
pub mod Reversed
mod Tests
use os.Base.{
  ℕ, zero, suc, ◌+◌, ◌-◌, ◌*◌, ◌/◌, ◌%◌, ◌^◌, Bool, true, false, not, ◌&&◌, ◌||◌, Option, none,
  some, leb, ◌==◌, if◌then◌else◌, List, [], ◌∷◌, ◌++◌, length, u8, u16, bit_or, ◌<<<◌, inl, inr,
}
use os.Base.Memory.{Memory, store8}
use os.Clock.{RtcTime}
use os.Disk.{Drive}
use os.Fat32.{
  Vol, cluster_size, walk, write_cluster, write_fat_entry, alloc_cluster, free_cluster_chain,
}
use os.Directory.{
  first_cluster, is_directory, is_volume_id, is_lfn, name_to_83, lfn_checksum, find_named, found,
  missing, first_first, find_entry_any,
}

unfoldable pub fat_pack_date : ℕ → ℕ → ℕ → ℕ
fat_pack_date year month day =
    u16 (bit_or (bit_or (u16 (year + (2 ^ 16 - 1980)) <<< 9) (month <<< 5)) day)

unfoldable pub fat_pack_time : ℕ → ℕ → ℕ → ℕ
fat_pack_time hour minute second = u16 (bit_or (bit_or (hour <<< 11) (minute <<< 5)) (second / 2))

abbrev pub le16 : ℕ → List ℕ
le16 n = (n % 256) ∷ (n / 256 % 256) ∷ []

-- memcpy of bytes to `a`
abbrev pub put : Memory → ℕ → List ℕ → Memory
put m a [] = m
put m a (c ∷ cs) = put (store8 m a c) (a + 1) cs

-- What stands behind the zero that ends a name
abbrev pub fillers : ℕ → List ℕ
fillers zero = []
fillers (suc n) = le16 0xFFFF ++ fillers n

-- The characters of one long-name entry, two bytes each: a zero ends the name, and 0xFFFF fills up.
unfoldable pub lfn_units : ℕ → List ℕ → List ℕ
lfn_units zero cs = []
lfn_units (suc n) [] = le16 0 ++ fillers n
lfn_units (suc n) (c ∷ cs) = le16 c ++ lfn_units n cs

abbrev pub take : ℕ → List ℕ → List ℕ
take zero cs = []
take (suc n) [] = []
take (suc n) (c ∷ cs) = c ∷ take n cs

abbrev pub drop : ℕ → List ℕ → List ℕ
drop zero cs = cs
drop (suc n) [] = []
drop (suc n) (c ∷ cs) = drop n cs

-- The entry for the characters `cs`, with its order byte
unfoldable pub lfn_entry : ℕ → ℕ → List ℕ → List ℕ
lfn_entry order sum cs =
    let chars = lfn_units 13 cs in
    (order ∷ take 10 chars)
    ++ ((0x0F ∷ 0 ∷ sum ∷ take 12 (drop 10 chars)) ++ (0 ∷ 0 ∷ drop 22 chars))

-- make_lfn_entries from entry `i` of `total` on, with `n` to go. The code writes them to an array of
-- 20, past its end for a name of more than 260 characters; this is the code for a name of at most 260.
unfoldable pub lfn_from : ℕ → ℕ → ℕ → ℕ → List ℕ → List (List ℕ)
lfn_from zero i total sum cs = []
lfn_from (suc n) i total sum cs =
    lfn_entry (u8 (bit_or (total - i) (if i == 0 then 0x40 else 0))) sum (take 13 cs)
    ∷ lfn_from n (i + 1) total sum (drop 13 cs)

unfoldable pub make_lfn_entries : List ℕ → ℕ → List (List ℕ)
make_lfn_entries name sum = let total = (length name + 12) / 13 in lfn_from total 0 total sum name

-- The short entry of a new file or directory
abbrev pub sfn_entry : List ℕ → ℕ → ℕ → ℕ → ℕ → List ℕ
sfn_entry short flags date time c =
    short
    ++ ((flags ∷ 0 ∷ 0 ∷ le16 time)
        ++ (le16 date
            ++ (le16 date
                ++ (le16 (c / 2 ^ 16)
                    ++ (le16 time ++ (le16 date ++ (le16 c ++ (0 ∷ 0 ∷ 0 ∷ 0 ∷ []))))))))

-- Entries one behind the other
unfoldable pub put_entries : Memory → ℕ → List (List ℕ) → Memory
put_entries m a [] = m
put_entries m a (e ∷ es) = put_entries (put m a e) (a + 32) es

-- The search for `needed` free entries in a row in a cluster of `count`: the first of them. `run` are
-- free so far, from entry `from` on, at entry `i` with `n` to go.
unfoldable pub find_slot : Memory → ℕ → ℕ → ℕ → ℕ → ℕ → ℕ → Option ℕ
find_slot m count needed run from i zero = none
find_slot m count needed run from i (suc n) =
    let from' = if run == 0 then i else from in
    let more = find_slot m count needed (run + 1) from' (i + 1) n in
    let over = find_slot m count needed 0 from (i + 1) n in
    if m (i * 32) == 0
    then (if leb needed (count - i) then some from' else none)
    else (if m (i * 32) == 0xE5 then (if leb needed (run + 1) then some from' else more) else over)

-- Every byte of the offsets is set to 0xE5.
abbrev pub mark_deleted : Memory → List ℕ → Memory
mark_deleted m [] = m
mark_deleted m (a ∷ rest) = mark_deleted (store8 m a 0xE5) rest

-- The new long-name entries over the old ones, both in the order of the disk
abbrev pub put_at : Memory → List ℕ → List (List ℕ) → Memory
put_at m [] es = m
put_at m (a ∷ rest) [] = m
put_at m (a ∷ rest) (e ∷ es) = put_at (put m a e) rest es

-- The entries of a new name are written from entry `pos` of a buffer on.
abbrev pub with_entries : Memory → ℕ → List (List ℕ) → Memory
with_entries m pos entries = put_entries m (pos * 32) entries

-- The first cluster of a new directory: the entries of itself and of its parent
unfoldable pub new_directory : ℕ → ℕ → ℕ → ℕ → Memory
new_directory date time self parent =
    let blanks : List ℕ = 32 ∷ 32 ∷ 32 ∷ 32 ∷ 32 ∷ 32 ∷ 32 ∷ 32 ∷ 32 ∷ [] in
    put_entries (λ _. 0) 0
      (sfn_entry (0x2E ∷ 32 ∷ blanks) 0x10 date time self
        ∷ sfn_entry (0x2E ∷ 0x2E ∷ blanks) 0x10 date time parent
        ∷ [])

-- is_dir_empty over the entries of a cluster from `i` on, with `n` to go: the answer, if there is one
unfoldable pub empty_in : Memory → ℕ → ℕ → Option Bool
empty_in m i zero = none
empty_in m i (suc n) =
    let a = i * 32 in
    let rest = empty_in m (i + 1) n in
    if m a == 0
    then some true
    else (if (m a == 0xE5) || (is_lfn m a || ((m a == 0x2E) || is_volume_id m a))
        then rest
        else some false)

-- FAT32_RenameFile on the entry at `a`, with its long-name entries
unfoldable pub rename_entry : Memory → List ℕ → ℕ → List (List ℕ) → List ℕ → Memory
rename_entry m pieces a entries short =
    let old = first_first pieces in
    if not (length old == 0) && (length old == length entries)
    then put (put_at m old entries) a short
    else put (mark_deleted m old) a short

module _ (D : Drive) where
  abbrev result : Bool × Vol D → ℕ × Vol D
  result (done, v) = (if done then 0 else 3, v)

  -- A cluster is written and the cache is flushed once more.
  unfoldable pub write_and_flush : Vol D → ℕ → Memory → ℕ × Vol D
  write_and_flush v c m =
      let (done, v') = write_cluster D v c m in
      result (done, if done then record v' { drive = D.flush v'.drive true } else v')

  -- Its search for the old name
  unfoldable pub rename_found : ℕ → Vol D → ℕ → List ℕ → List ℕ → Option (ℕ × Vol D)
  rename_found f v dir old new =
      let short = name_to_83 new in
      let entries = make_lfn_entries new (lfn_checksum short) in
      walk D {State = Unit {0}}
        (λ _ c m.
          elim (find_named first_first m old (name_to_83 old) [] 0 (cluster_size D v / 32)) [
            | found a pieces ↦ inr (write_and_flush v c (rename_entry m pieces a entries short))
            | missing _ ↦ inl tt
          ])
        (2, v) (3, v) (λ _ _ _. (1, v)) f v tt dir

  unfoldable pub rename_file : ℕ → Vol D → ℕ → List ℕ → List ℕ → Option (ℕ × Vol D)
  rename_file f v dir old new = elim (find_entry_any D f v dir new) [
    | none ↦ none
    | some (status, _) ↦ elim (status == 0) [
      | true ↦ some (4, v)
      | false ↦ rename_found f v dir old new
    ]
  ]

  -- The chain of the directory has ended, with the number `mark`: a new cluster. `full` is the status
  -- where there is none. The entry of `mark` is the one that is linked to it, and what is written to
  -- the new cluster is the buffer of the last cluster with the new entries at its start.
  unfoldable pub add_cluster : ℕ → Vol D → ℕ → ℕ → ℕ → Memory → List (List ℕ) → Option (ℕ × Vol D)
  add_cluster f v dir full mark m entries = elim (alloc_cluster D f v) [
    | none ↦ none
    | some (new, v1) ↦
        let (linked, v2) = write_fat_entry D v1 mark new in
        let (cleared, v3) = write_cluster D v2 new (λ _. 0) in
        elim (new == 0) [
          | true ↦ some (full, v1)
          | false ↦ elim linked [
            | false ↦ some (3, v2)
            | true ↦ elim cleared [
              | false ↦ some (3, v3)
              | true ↦ some (write_and_flush v3 new (with_entries m 0 entries))
            ]
          ]
        ]
  ]

  -- The part that FAT32_CreateFile and FAT32_CreateDir share: the entries go to the first free place
  -- of the directory.
  unfoldable pub add_entries : ℕ → Vol D → ℕ → ℕ → List (List ℕ) → Option (ℕ × Vol D)
  add_entries f v dir full entries =
      let count = cluster_size D v / 32 in
      elim (walk D {State = Unit {0}} {R = Option (ℕ × Vol D)}
        (λ _ c m. elim (find_slot m count (length entries) 0 0 0 count) [
          | some pos ↦ inr (some (write_and_flush v c (with_entries m pos entries)))
          | none ↦ inl tt
        ])
        (some (2, v)) (some (2, v)) (λ _ mark m. add_cluster f v dir full mark m entries) f v tt
        dir) [ none ↦ none | some r ↦ r ]

  unfoldable pub create_file : ℕ → Vol D → RtcTime → ℕ → List ℕ → Option (ℕ × Vol D)
  create_file f v now dir name =
      let short = name_to_83 name in
      let date = fat_pack_date (now.year + 2000) now.month now.day in
      let time = fat_pack_time now.hour now.minute now.second in
      elim (find_entry_any D f v dir name) [
        | none ↦ none
        | some (status, _) ↦ elim (status == 0) [
          | true ↦ some (1, v)
          | false ↦ add_entries f v dir 5 (
              make_lfn_entries name (lfn_checksum short) ++ (sfn_entry short 0x20 date time 0 ∷ []))
        ]
      ]

  unfoldable pub create_dir : ℕ → Vol D → RtcTime → ℕ → List ℕ → Option (ℕ × Vol D)
  create_dir f v now dir name =
      let short = name_to_83 name in
      let date = fat_pack_date (now.year + 2000) now.month now.day in
      let time = fat_pack_time now.hour now.minute now.second in
      let parent = if dir == v.info.root_cluster then 0 else dir in
      elim (find_entry_any D f v dir name) [
        | none ↦ none
        | some (status, _) ↦ elim (status == 0) [
          | true ↦ some (1, v)
          | false ↦ elim (alloc_cluster D f v) [
            | none ↦ none
            | some (new, v1) ↦
                let (written, v2) = write_cluster D v1 new (new_directory date time new parent) in
                elim (new == 0) [
                  | true ↦ some (5, v1)
                  | false ↦ elim written [
                    | false ↦ some (3, v2)
                    | true ↦ add_entries f v2 dir 4 (
                        make_lfn_entries name (lfn_checksum short)
                        ++ (sfn_entry short 0x10 date time new ∷ []))
                  ]
                ]
          ]
        ]
      ]

  unfoldable pub is_dir_empty : ℕ → Vol D → ℕ → Option Bool
  is_dir_empty f v start =
      if start == 0
      then some true
      else walk D {State = Unit {0}}
          (λ _ c m. elim (empty_in m 0 (cluster_size D v / 32)) [ some b ↦ inr b | none ↦ inl tt ])
          false false (λ _ _ _. true) f v tt start

  -- The entry at `a` and its long-name entries are marked as deleted, and the cluster is written.
  unfoldable pub delete_entry : Vol D → ℕ → Memory → List ℕ → ℕ → ℕ × Vol D
  delete_entry v c m pieces a = write_and_flush v c (store8 (mark_deleted m pieces) a 0xE5)

  -- The clusters of what is deleted are freed first.
  unfoldable pub free_and_delete : ℕ → Vol D → ℕ → Memory → List ℕ → ℕ → Option (ℕ × Vol D)
  free_and_delete f v c m pieces a = elim (first_cluster m a == 0) [
    | true ↦ some (delete_entry v c m pieces a)
    | false ↦ elim (free_cluster_chain D f v (first_cluster m a)) [
      | none ↦ none
      | some (false, v') ↦ some (3, v')
      | some (true, v') ↦ some (delete_entry v' c m pieces a)
    ]
  ]

  -- FAT32_RemoveDir on the entry that it finds
  unfoldable pub remove_found : ℕ → Vol D → ℕ → Memory → List ℕ → ℕ → Option (ℕ × Vol D)
  remove_found f v c m pieces a =
      if not (is_directory m a) then some (4, v) else elim (is_dir_empty f v (first_cluster m a)) [
        | none ↦ none
        | some false ↦ some (5, v)
        | some true ↦ free_and_delete f v c m pieces a
      ]

  -- FAT32_DeleteFile on the entry that it finds
  unfoldable pub delete_found : ℕ → Vol D → ℕ → Memory → List ℕ → ℕ → Option (ℕ × Vol D)
  delete_found f v c m pieces a =
      if is_directory m a then some (4, v) else free_and_delete f v c m pieces a

  -- The search of FAT32_RemoveDir and of FAT32_DeleteFile, and what they do with what is found
  unfoldable pub search_name :
      (Vol D → ℕ → Memory → List ℕ → ℕ → Option (ℕ × Vol D))
      → ℕ
      → Vol D
      → ℕ
      → List ℕ
      → Option (ℕ × Vol D)
  search_name act f v dir name =
      elim (walk D {State = Unit {0}} {R = Option (ℕ × Vol D)}
        (λ _ c m.
          elim (find_named first_first m name (name_to_83 name) [] 0 (cluster_size D v / 32)) [
            | found a pieces ↦ inr (act v c m pieces a)
            | missing _ ↦ inl tt
          ])
        (some (2, v)) (some (2, v)) (λ _ _ _. some (1, v)) f v tt dir) [ none ↦ none | some r ↦ r ]

  unfoldable pub remove_dir : ℕ → Vol D → ℕ → List ℕ → Option (ℕ × Vol D)
  remove_dir f v dir name = search_name (remove_found f) f v dir name

  unfoldable pub delete_file : ℕ → Vol D → ℕ → List ℕ → Option (ℕ × Vol D)
  delete_file f v dir name = search_name (delete_found f) f v dir name
