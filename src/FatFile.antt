-- ===== src/FatFile.antt =====
-- Kernel/fs/fat32.c: reading, writing and appending the contents of a file. The caller's directory
-- entry is a buffer of 32 bytes, and the data are a buffer.
pub mod Read
pub mod Part
pub mod Write
mod Tests
use os.Base.{
  ℕ, zero, suc, ◌+◌, ◌-◌, ◌*◌, ◌/◌, ◌%◌, ◌^◌, Bool, true, false, ◌&&◌, ◌||◌, Option, none, some,
  ltb, leb, ◌==◌, if◌then◌else◌, u32, inl, inr, min,
}
use os.Base.Memory.{Memory, store}
use os.KString.Compare.{bytes}
use os.Disk.{Drive}
use os.Fat32.{
  Vol, cluster_size, walk, next_cluster, read_cluster, write_cluster, write_fat_entry,
  alloc_cluster, free_cluster_chain, entry_eof,
}
use os.Directory.{first_cluster, file_size, is_directory, find_in, entry_at}

-- memcpy of `n` bytes of another buffer to `a`
abbrev pub overlay : Memory → ℕ → Memory → ℕ → Memory
overlay m a src n x = if leb a x && ltb x (a + n) then src (x - a) else m x

abbrev pub set_first_cluster : Memory → ℕ → Memory
set_first_cluster e c = store (store e 26 2 (c % 2 ^ 16)) 20 2 (c / 2 ^ 16 % 2 ^ 16)

abbrev pub set_file_size : Memory → ℕ → Memory
set_file_size e n = store e 28 4 n

module _ (D : Drive) where
  -- The loop of FAT32_ReadFile at `cluster`, with `done` bytes read into `buf`: the bytes read, and
  -- the buffer. ATA_Read fills 512 bytes a sector.
  unfoldable pub read_loop : ℕ → Vol D → ℕ → ℕ → ℕ → Memory → Option (ℕ × Memory)
  read_loop zero v size cluster done buf = none
  read_loop (suc f) v size cluster done buf =
      let (got, read) = read_cluster D v cluster in
      let buf' = overlay buf done read (v.info.sectors_per_cluster * 512) in
      let done' = u32 (done + cluster_size D v) in
      elim (ltb done size) [
        | false ↦ some (min done size, buf)
        | true ↦ elim got [
          | false ↦ some (done, buf')
          | true ↦ elim (leb size done') [
            | true ↦ some (size, buf')
            | false ↦ elim (next_cluster D v cluster) [
              | none ↦ some (done', buf')
              | some next ↦ elim (leb entry_eof next) [
                | true ↦ some (done', buf')
                | false ↦ read_loop f v size next done' buf'
              ]
            ]
          ]
        ]
      ]

  unfoldable pub read_file : ℕ → Vol D → Memory → Memory → Option (ℕ × Memory)
  read_file f v e buf =
      if is_directory e 0
      then some (0, buf)
      else read_loop f v (file_size e 0) (first_cluster e 0) 0 buf

  -- FAT32_WriteDirEntry: the status, and the volume
  unfoldable pub write_dir_entry : ℕ → Vol D → ℕ → Memory → Option (ℕ × Vol D)
  write_dir_entry f v dir e =
      walk D {State = Unit {0}}
        (λ _ c m. elim (find_in m (bytes e 0 11) 0 (cluster_size D v / 32)) [
          | some a ↦
              let (done, v') = write_cluster D v c (overlay m a e 32) in
              inr (if done then 0 else 1, v')
          | none ↦ inl tt
        ])
        (2, v) (3, v) (λ _ _ _. (1, v)) f v tt dir

  -- A round of the write loops: `n` bytes of `src` from byte `from` on go to byte `offset` of the
  -- cluster. What is not the whole of the cluster is read first, and that may fail unseen.
  unfoldable pub write_part : Vol D → ℕ → ℕ → Memory → ℕ → ℕ → Bool × Vol D
  write_part v c offset src from n =
      let old = (read_cluster D v c).1 in
      if ltb 0 offset || ltb n (cluster_size D v)
      then write_cluster D v c (overlay old offset (entry_at src from) n)
      else write_cluster D v c (entry_at src from)

  -- How the write loops end: the function returns with the bytes written, or it goes on behind the
  -- loop at a cluster.
  pub data WriteEnd : Type 0 where
    returns : ℕ → Vol D → WriteEnd
    behind : ℕ → ℕ → Vol D → WriteEnd

  -- The next cluster of the chain, or a new one that is linked to it: none for an error
  unfoldable pub extend : ℕ → Vol D → ℕ → Option (Option ℕ × Vol D)
  extend f v c = elim (next_cluster D v c) [
    | none ↦ some (none, v)
    | some next ↦ elim (leb entry_eof next) [
      | false ↦ some (some next, v)
      | true ↦ elim (alloc_cluster D f v) [
        | none ↦ none
        | some (new, v') ↦ elim (new == 0) [
          | true ↦ some (none, v')
          | false ↦
              let (linked, v'') = write_fat_entry D v' c new in
              some (if linked then some new else none, v'')
        ]
      ]
    ]
  ]

  -- The loop of FAT32_WriteFile
  unfoldable pub write_loop : ℕ → Vol D → ℕ → Memory → ℕ → ℕ → Option WriteEnd
  write_loop zero v c src written size = none
  write_loop (suc f) v c src written size =
      let n = min (size - written) (cluster_size D v) in
      let (done, v') = write_part v c 0 src written n in
      elim (ltb written size) [
        | false ↦ some (behind written c v)
        | true ↦ elim done [
          | false ↦ some (returns written v')
          | true ↦ elim (leb size (written + n)) [
            | true ↦ some (behind (written + n) c v')
            | false ↦ elim (extend f v' c) [
              | none ↦ none
              | some (none, v'') ↦ some (returns (written + n) v'')
              | some (some next, v'') ↦ write_loop f v'' next src (written + n) size
            ]
          ]
        ]
      ]

  -- The chain behind the last cluster that was written is cut off and freed.
  unfoldable pub cut_chain : ℕ → Vol D → ℕ → Option (Vol D)
  cut_chain f v c = elim (next_cluster D v c) [
    | none ↦ some v
    | some after ↦ elim (leb entry_eof after) [
      | true ↦ some v
      | false ↦ elim (free_cluster_chain D f (write_fat_entry D v c entry_eof).1 after) [
        | none ↦ none
        | some (_, v') ↦ some v'
      ]
    ]
  ]

  -- The entry is written back; its result is not looked at.
  unfoldable pub update_entry : ℕ → Vol D → ℕ → Memory → ℕ → Option (ℕ × Memory × Vol D)
  update_entry f v dir e written = elim (write_dir_entry f v dir e) [
    | none ↦ none
    | some (_, v') ↦ some (written, e, v')
  ]

  -- FAT32_WriteFile from the loop on, with the clusters that the file had
  unfoldable pub write_chain :
      ℕ → Vol D → ℕ → Memory → Memory → ℕ → ℕ → ℕ → Option (ℕ × Memory × Vol D)
  write_chain f v dir e src size cluster old_clusters = elim (write_loop f v cluster src 0 size) [
    | none ↦ none
    | some (returns written v') ↦ some (written, e, v')
    | some (behind written last v') ↦
        let e' = if ltb (file_size e 0) written then set_file_size e written else e in
        elim (ltb written (u32 (old_clusters * cluster_size D v))) [
          | false ↦ update_entry f v' dir e' written
          | true ↦ elim (cut_chain f v' last) [
            | none ↦ none
            | some v'' ↦ update_entry f v'' dir e' written
          ]
        ]
  ]

  -- FAT32_WriteFile: the bytes written, the caller's entry, and the volume
  unfoldable pub write_file : ℕ → Vol D → ℕ → Memory → Memory → ℕ → Option (ℕ × Memory × Vol D)
  write_file f v dir e src size =
      let old_clusters =
        u32 (u32 (file_size e 0 + cluster_size D v) + (2 ^ 32 - 1)) / cluster_size D v in
      let start = first_cluster e 0 in
      elim (is_directory e 0) [
        | true ↦ some (0, e, v)
        | false ↦ elim ((start == 0) && ltb 0 size) [
          | false ↦ write_chain f v dir e src size start old_clusters
          | true ↦ elim (alloc_cluster D f v) [
            | none ↦ none
            | some (new, v') ↦ elim (new == 0) [
              | true ↦ some (0, e, v')
              | false ↦ write_chain f v' dir (set_first_cluster e new) src size new old_clusters
            ]
          ]
        ]
      ]

  -- FAT32_AppendFile walks to the last cluster: none for an error.
  unfoldable pub last_cluster : ℕ → Vol D → ℕ → Option (Option ℕ)
  last_cluster zero v c = none
  last_cluster (suc f) v c = elim (next_cluster D v c) [
    | none ↦ some none
    | some next ↦ elim (leb entry_eof next) [ true ↦ some (some c) | false ↦ last_cluster f v next ]
  ]

  -- A new cluster behind `c`; the link is not checked: 0 for an error.
  unfoldable pub append_cluster : ℕ → Vol D → ℕ → Option (ℕ × Vol D)
  append_cluster f v c = elim (alloc_cluster D f v) [
    | none ↦ none
    | some (new, v') ↦ some (new, if new == 0 then v' else (write_fat_entry D v' c new).1)
  ]

  -- The loop of FAT32_AppendFile: the bytes written, whether it ends behind the loop, and the volume
  unfoldable pub append_loop : ℕ → Vol D → ℕ → ℕ → Memory → ℕ → ℕ → Option (ℕ × Bool × Vol D)
  append_loop zero v c offset src written size = none
  append_loop (suc f) v c offset src written size =
      let n = min (size - written) (cluster_size D v - offset) in
      let v' = (write_part v c offset src written n).1 in
      elim (ltb written size) [
        | false ↦ some (written, true, v)
        | true ↦ elim (leb size (written + n)) [
          | true ↦ some (written + n, true, v')
          | false ↦ elim (append_cluster f v' c) [
            | none ↦ none
            | some (new, v'') ↦ elim (new == 0) [
              | true ↦ some (written + n, false, v'')
              | false ↦ append_loop f v'' new 0 src (written + n) size
            ]
          ]
        ]
      ]

  -- FAT32_AppendFile from its loop on
  unfoldable pub append_chain :
      ℕ → Vol D → ℕ → Memory → Memory → ℕ → ℕ → ℕ → Option (ℕ × Memory × Vol D)
  append_chain f v dir e src size cluster offset =
      elim (append_loop f v cluster offset src 0 size) [
        | none ↦ none
        | some (written, false, v') ↦ some (written, e, v')
        | some (written, true, v') ↦
            update_entry f v' dir (set_file_size e (u32 (file_size e 0 + written))) written
      ]

  -- It goes on at the last cluster, or behind it if that is full.
  unfoldable pub append_at : ℕ → Vol D → ℕ → Memory → Memory → ℕ → ℕ → Option (ℕ × Memory × Vol D)
  append_at f v dir e src size last =
      let offset = file_size e 0 % cluster_size D v in
      elim ((offset == 0) && ltb 0 (file_size e 0)) [
        | false ↦ append_chain f v dir e src size last offset
        | true ↦ elim (append_cluster f v last) [
          | none ↦ none
          | some (new, v') ↦ elim (new == 0) [
            | true ↦ some (0, e, v')
            | false ↦ append_chain f v' dir e src size new offset
          ]
        ]
      ]

  unfoldable pub append_file : ℕ → Vol D → ℕ → Memory → Memory → ℕ → Option (ℕ × Memory × Vol D)
  append_file f v dir e src size =
      let start = first_cluster e 0 in
      elim ((size == 0) || is_directory e 0) [
        | true ↦ some (0, e, v)
        | false ↦ elim (start == 0) [
          | true ↦ elim (alloc_cluster D f v) [
            | none ↦ none
            | some (new, v') ↦ elim (new == 0) [
              | true ↦ some (0, e, v')
              | false ↦ append_at f v' dir (set_first_cluster e new) src size new
            ]
          ]
          | false ↦ elim (last_cluster f v start) [
            | none ↦ none
            | some none ↦ some (0, e, v)
            | some (some last) ↦ append_at f v dir e src size last
          ]
        ]
      ]
