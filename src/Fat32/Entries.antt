-- ===== src/Fat32/Entries.antt =====
-- What FAT32_NextCluster reads and FAT32_WriteFATEntry writes, in every copy of the table.
use os.Base.{
  ℕ, zero, suc, ◌+◌, ◌*◌, ◌%◌, ◌^◌, ◌≤◌, ◌<◌, ◌≡◌, refl, Bool, true, ◌&&◌, ltb, leb, ◌==◌,
  if◌then◌else◌, arith, some, ◌⊎◌, ◌∙◌,
}
use os.Base.Memory.{load_ext}
use os.Disk.{Drive, IsDrive}
use os.Fat32.{
  Volume, Vol, table_lba, table_offset, next_cluster, read_le32, write_le32, write_copies,
  write_fat_entry,
}
use os.Fat32.Table.{
  Sized, InTable, entry, sector_of, stored, entry-stored, changed_elsewhere, read_le32-read,
  table_lba_lem, copy_ends,
}

-- A sector that is no part of the table
abbrev pub Outside : {S : Type 0} → Volume S → ℕ → Type 0
Outside v l =
    (l < v.starting_lba + v.info.fat_region_lba)
    ⊎ (v.starting_lba + v.info.fat_region_lba + v.info.num_fats * v.info.sectors_per_fat ≤ l)

module _ {D : Drive} (L : IsDrive D) where
  -- FAT32_NextCluster gives the lower 28 bits of the entry in the first copy of the table.
  pub next_cluster-entry :
      (v : Vol D) (c : ℕ) → Sized v → next_cluster D v c ≡ some (entry L v 0 c % 2 ^ 28)
  unfolding next_cluster
  next_cluster-entry v c ok =
      let lba = table_lba D v 0 c in
      let off = table_offset D v c in
      let whole : read_le32 (D.read v.drive true lba 1).1 off ≡ entry L v 0 c =
        read_le32-read L v.drive lba off (rw ok.bytes_512 (omega arith)) in
      let good : (D.read v.drive true lba 1).0 ≡ true = rw (L.read_ok v.drive true lba 1) refl in
      rw (good, whole) refl

  -- The volume `out` is `v` with `value` in the entry of `c` in the copies from `i` on, `n` of them.
  pub record Copied (v : Vol D) (n i c value : ℕ) (out : Bool × Vol D) : Type 0 where
    pub done : out.0 ≡ true
    pub same_volume : out.1 ≡ record v { drive = out.1.drive }
    pub entries :
        (j d : ℕ)
        → j < v.info.num_fats
        → InTable v d
        → entry L (record v { drive = out.1.drive }) j d
          ≡ (if (leb i j && ltb j (i + n)) && (d == c) then value else entry L v j d)
    pub outside : (l k : ℕ) → Outside v l → sector_of L out.1.drive l k ≡ sector_of L v.drive l k

  write_copies-suc :
      (n i : ℕ) (v : Vol D) (c value : ℕ) (ok : Sized v)
      → write_copies D (suc n) i v c value
        ≡ write_copies D n (i + 1) (stored L v ok i c value) c value
  unfolding write_copies
  write_copies-suc n i v c value ok =
      let lba = table_lba D v i c in
      let good : (D.read v.drive true lba 1).0 ≡ true = rw (L.read_ok v.drive true lba 1) refl in
      let buf = write_le32 (D.read v.drive true lba 1).1 (table_offset D v c) value in
      rw (good, L.write_ok v.drive true lba 1 buf) refl

  write_copies-Copied :
      (n i : ℕ) (v : Vol D) (c value : ℕ) (ok : Sized v)
      → i + n ≤ v.info.num_fats
      → InTable v c
      → value < 2 ^ 32
      → Copied v n i c value (write_copies D n i v c value)
  unfolding write_copies
  write_copies-Copied zero i v c value ok le tc small = record {
    done = refl;
    same_volume = refl;
    entries = λ j d hj td. ground arith;
    outside = λ l k out. refl;
  }
  write_copies-Copied (suc n) i v c value ok le tc small =
      let after = stored L v ok i c value in
      let rest : Copied after n (i + 1) c value (write_copies D n (i + 1) after c value) =
        write_copies-Copied n (i + 1) after c value ok (omega arith) tc small in
      rw (write_copies-suc n i v c value ok) (record {
        done = rest.done;
        same_volume = rest.same_volume;
        entries = λ j d hj td.
            rest.entries j d hj td
            ∙ ground (arith, entry-stored L v ok i c value j d (omega arith) hj tc td small);
        outside = λ l k out.
            rest.outside l k out
            ∙ changed_elsewhere L v.drive (table_lba D v i c) l (table_offset D v c) k value (λ e.
              ground (
                arith,
                e,
                out,
                table_lba_lem L v ok i c (omega arith) tc,
                copy_ends L v ok i v.info.num_fats (omega arith),
              ));
      })

  -- The volume `out` is `v` with `value` in the entry of `c` in every copy of the table.
  pub record Written (v : Vol D) (c value : ℕ) (out : Bool × Vol D) : Type 0 where
    pub done : out.0 ≡ true
    pub same_volume : out.1 ≡ record v { drive = out.1.drive }
    pub entries :
        (j d : ℕ)
        → j < v.info.num_fats
        → InTable v d
        → entry L (record v { drive = out.1.drive }) j d ≡ (if d == c then value else entry L v j d)
    pub outside : (l k : ℕ) → Outside v l → sector_of L out.1.drive l k ≡ sector_of L v.drive l k

  entry-flush :
      (v : Vol D) (s : D.State) (b : Bool) (j d : ℕ)
      → entry L (record v { drive = D.flush s b }) j d ≡ entry L (record v { drive = s }) j d
  entry-flush v s b j d =
      let lba = table_lba D v j d in
      load_ext (sector_of L s lba) (sector_of L (D.flush s b) lba) (table_offset D v d) 4
        (λ x p q. L.sector-flush s b lba x)

  -- On a drive that works, FAT32_WriteFATEntry succeeds. It writes the entry in every copy of the
  -- table, keeps every other entry, and changes no sector outside the table, if the volume is on
  -- the master drive, the table lies within 2 ^ 64 sectors of 512 bytes, in one copy at least, the
  -- cluster has an entry and the value is below 2 ^ 32.
  pub write_fat_entry-Written :
      (v : Vol D) (c value : ℕ)
      → Sized v
      → InTable v c
      → value < 2 ^ 32
      → Written v c value (write_fat_entry D v c value)
  unfolding write_fat_entry
  write_fat_entry-Written v c value ok tc small =
      let all = write_copies-Copied v.info.num_fats 0 v c value ok (omega arith) tc small in
      let s = (write_copies D v.info.num_fats 0 v c value).1.drive in
      rw (all.done, all.same_volume)
        (record {
          done = refl;
          same_volume = refl;
          entries =
              λ j d hj td. entry-flush v s true j d ∙ all.entries j d hj td ∙ ground (arith, hj);
          outside = λ l k out. L.sector-flush s true l k ∙ all.outside l k out;
        })

  -- On a drive that works, after FAT32_WriteFATEntry the chain goes on from the cluster at the
  -- lower 28 bits of the value, and from every other cluster as before, if the volume is on the
  -- master drive, the table lies within 2 ^ 64 sectors of 512 bytes, both clusters have entries and
  -- the value is below 2 ^ 32.
  pub next_cluster-write_fat_entry :
      (v : Vol D) (c value d : ℕ)
      → Sized v
      → InTable v c
      → InTable v d
      → value < 2 ^ 32
      → next_cluster D (write_fat_entry D v c value).1 d
        ≡ (if d == c then some (value % 2 ^ 28) else next_cluster D v d)
  next_cluster-write_fat_entry v c value d ok tc td small =
      let w = write_fat_entry-Written v c value ok tc small in
      let after = record v { drive = (write_fat_entry D v c value).1.drive } in
      let e = w.entries 0 d (omega (arith, ok.copies)) td in
      rw (w.same_volume, next_cluster-entry after d ok, next_cluster-entry v d ok, e) (ground arith)
