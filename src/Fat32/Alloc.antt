-- ===== src/Fat32/Alloc.antt =====
-- FAT32_AllocCluster: the search for a free cluster, from the hint on and around.
use os.Base.{
  ℕ, zero, suc, ◌+◌, ◌-◌, ◌*◌, ◌%◌, ◌^◌, ◌≤◌, ◌<◌, ◌≡◌, refl, Bool, true, false, ◌&&◌, ◌||◌, ltb,
  leb, ◌==◌, if◌then◌else◌, arith, u32, some, inl, inr, Bool-cases, ◌≢◌, Option, not,
}
use os.Disk.{Drive, IsDrive}
use os.Fat32.{
  Info, Volume, Vol, table_lba, table_offset, read_le32, take_cluster, alloc_loop, alloc_start,
  alloc_cluster, entry_eof, unknown,
}
use os.Fat32.Table.{Sized, InTable, entry, read_le32-read}
use os.Fat32.Entries.{write_fat_entry-Written}

-- The numbers of the data clusters
abbrev pub top : Info → ℕ
top info = info.total_clusters + 2

abbrev pub InData : Info → ℕ → Type 0
InData info c = (2 ≤ c) × (c < top info)

-- The table is sized and has an entry for each data cluster, and no number of a cluster
-- is an end mark.
pub record Complete {S : Type 0} (v : Volume S) : Type 0 where
  pub sized : Sized v
  pub has_clusters : 1 ≤ v.info.total_clusters
  pub few : top v.info < entry_eof
  pub listed : top v.info ≤ v.info.sectors_per_fat * 128

-- The information after the cluster `c` was taken
abbrev pub counted : Info → ℕ → Info
counted info c =
    let free = info.free_clusters in
    record info {
      free_clusters = if not (free == unknown) && ltb 0 free then free - 1 else free;
      next_free_cluster = u32 (c + 1);
    }

module _ {D : Drive} (L : IsDrive D) where
  abbrev pub free_at : Vol D → ℕ → Bool
  free_at v c = entry L v 0 c % 2 ^ 28 == 0

  -- The volume `out` is `v` with the cluster `c` taken.
  pub record Takes (v : Vol D) (c : ℕ) (out : ℕ × Vol D) : Type 0 where
    pub gives : out.0 ≡ c
    pub same_volume : out.1 ≡ record v { drive = out.1.drive; info = counted v.info c }
    pub entries :
        (j d : ℕ)
        → j < v.info.num_fats
        → InTable v d
        → entry L (record v { drive = out.1.drive }) j d
          ≡ (if d == c then entry_eof else entry L v j d)

  pub take_cluster-Takes :
      (v : Vol D) (c : ℕ) → Sized v → InTable v c → Takes v c (take_cluster D v c)
  unfolding take_cluster
  take_cluster-Takes v c ok tc =
      let w = write_fat_entry-Written L v c entry_eof ok tc (omega arith) in
      rw (w.done, w.same_volume) (record { gives = refl; same_volume = refl; entries = w.entries })

  -- What FAT32_AllocCluster answers: 0 if no cluster is free, or a cluster that was free.
  pub data Allocates (v : Vol D) : ℕ × Vol D → Type 0 where
    full : ((c : ℕ) → InData v.info c → free_at v c ≡ false) → Allocates v (0, v)
    took :
        (c : ℕ)
        → InData v.info c
        → free_at v c ≡ true
        → Takes v c (take_cluster D v c)
        → Allocates v (take_cluster D v c)

  -- The search comes to an answer.
  abbrev pub Settles : Vol D → Option (ℕ × Vol D) → Type 0
  Settles v o = (out : ℕ × Vol D) × (o ≡ some out) × Allocates v out

  -- The cluster behind `c`, around
  abbrev pub after : Info → ℕ → ℕ
  after info c = if leb (u32 (top info)) (u32 (c + 1)) then 2 else u32 (c + 1)

  pub alloc_loop-suc :
      (f : ℕ) (v : Vol D) (start c : ℕ)
      → Sized v
      → alloc_loop D (suc f) v start c ≡ (
          if free_at v c
          then some (take_cluster D v c)
          else (if after v.info c == start
              then some (0, v)
              else alloc_loop D f v start (after v.info c)))
  unfolding alloc_loop
  alloc_loop-suc f v start c ok =
      let lba = table_lba D v 0 c in
      let off = table_offset D v c in
      let whole : read_le32 (D.read v.drive true lba 1).1 off ≡ entry L v 0 c =
        read_le32-read L v.drive lba off (rw ok.bytes_512 (omega arith)) in
      let good : (D.read v.drive true lba 1).0 ≡ true = rw (L.read_ok v.drive true lba 1) refl in
      rw (good, whole) refl

  -- The clusters that the search from `start` has seen when it is at `c`, and how many are left
  abbrev seen : ℕ → ℕ → ℕ → Bool
  seen start c d = if leb start c then leb start d && ltb d c else leb start d || ltb d c

  abbrev left : Info → ℕ → ℕ → ℕ
  left info start c = if leb start c then (top info - c) + (start - 2) else start - c

  module _ (v : Vol D) (ok : Complete v) (start c : ℕ) (hs : InData v.info start)
      (hc : InData v.info c)
      (busy : (d : ℕ) → InData v.info d → seen start c d ≡ true → free_at v d ≡ false)
      (taken : free_at v c ≡ false) where
    -- A step of the search has seen `c` as well.
    seen-next : (d : ℕ) → InData v.info d → seen start c d || (d == c) ≡ true → free_at v d ≡ false
    seen-next d hd h = elim (Bool-cases (d == c)) [
      | inl here ↦ let e : d ≡ c = ground arith in rw e taken
      | inr other ↦ busy d hd (ground (arith, h, other))
    ]

    all_seen : after v.info c ≡ start → (d : ℕ) → InData v.info d → free_at v d ≡ false
    all_seen round d hd = seen-next d hd (ground (arith, hd, hs, hc, ok.few))

    still_seen :
        after v.info c ≢ start
        → (d : ℕ) → InData v.info d
        → seen start (after v.info c) d ≡ true
        → free_at v d ≡ false
    still_seen more d hd h = seen-next d hd (ground (arith, hd, hs, hc, ok.few, h))

    next-InData : InData v.info (after v.info c)
    next-InData = ground (arith, hc, ok.few, ok.has_clusters)

    left-next :
        (f : ℕ)
        → after v.info c ≢ start
        → left v.info start c ≤ suc f
        → left v.info start (after v.info c) ≤ f
    left-next f more h = ground (arith, hs, hc, ok.few, h)

  alloc_loop-Settles :
      (f : ℕ) (v : Vol D) (start c : ℕ)
      → Complete v
      → InData v.info start
      → InData v.info c
      → left v.info start c ≤ f
      → ((d : ℕ) → InData v.info d → seen start c d ≡ true → free_at v d ≡ false)
      → Settles v (alloc_loop D f v start c)
  alloc_loop-Settles zero v start c ok hs hc enough busy = absurd (ground (arith, hs, hc))
  alloc_loop-Settles (suc f) v start c ok hs hc enough busy =
      rw (alloc_loop-suc f v start c ok.sized) (elim (Bool-cases (free_at v c)) [
        | inl free ↦
            let in_table : InTable v c = omega (arith, hc, ok.listed) in
            rw free
              (take_cluster D v c, refl, took c hc free (take_cluster-Takes v c ok.sized in_table))
        | inr taken ↦ elim (Bool-cases (after v.info c == start)) [
          | inl round ↦
              let e : after v.info c ≡ start = ground (arith, round) in
              rw (taken, round) ((0, v), refl, full (all_seen v ok start c hs hc busy taken e))
          | inr more ↦
              let ne : after v.info c ≢ start = ground (arith, more) in
              rw (taken, more)
                (alloc_loop-Settles f v start (after v.info c) ok hs
                  (next-InData v ok start c hs hc busy taken)
                  (left-next v ok start c hs hc busy taken f ne enough)
                  (still_seen v ok start c hs hc busy taken ne))
        ]
      ])

  -- On a drive that works, FAT32_AllocCluster comes to an answer within as many rounds as there are
  -- clusters: it takes a data cluster that was free, with the end mark as its entry in every copy
  -- of the table and the other entries as they were, or it gives 0 and no data cluster is free. The
  -- volume is on the master drive; the table lies within 2 ^ 64 sectors of 512 bytes, in one copy
  -- at least, and has an entry for each data cluster; there is a data cluster, and none has the
  -- number of an end mark; the hint names a data cluster or is to be ignored.
  pub alloc_cluster-Settles :
      (f : ℕ) (v : Vol D)
      → Complete v
      → alloc_start D v.info < top v.info
      → v.info.total_clusters ≤ f
      → Settles v (alloc_cluster D f v)
  unfolding alloc_cluster
  alloc_cluster-Settles f v ok hint enough =
      let start = alloc_start D v.info in
      let in_data : InData v.info start = ground (arith, hint) in
      alloc_loop-Settles f v start start ok in_data in_data (ground (arith, hint, enough, in_data))
        (λ d hd s. absurd (ground (arith, s)))
