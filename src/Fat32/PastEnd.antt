-- ===== src/Fat32/PastEnd.antt =====
-- FAT32_AllocCluster with the hint that it leaves when it takes the last cluster, which is one past the
-- data clusters.
use os.Base.{ℕ, zero, suc, ◌≤◌, ◌≡◌, refl, true, false, ◌==◌, arith, some, none}
use os.Disk.{Drive, IsDrive}
use os.Fat32.{Vol, take_cluster, alloc_loop, alloc_start, alloc_cluster}
use os.Fat32.Table.{InTable}
use os.Fat32.Alloc.{top, Complete, free_at, after, alloc_loop-suc, Takes, take_cluster-Takes}

module _ {D : Drive} (L : IsDrive D) where
  -- When next_free_cluster is total_clusters + 2, FAT32_AllocCluster takes this number, which is no
  -- data cluster, if the table has an entry for it that is 0; the table is complete and the drive
  -- works.
  pub alloc_cluster-outside :
      (f : ℕ) (v : Vol D)
      → Complete v
      → v.info.next_free_cluster ≡ top v.info
      → InTable v (top v.info)
      → free_at L v (top v.info) ≡ true
      → (alloc_cluster D (suc f) v ≡ some (take_cluster D v (top v.info)))
        × Takes L v (top v.info) (take_cluster D v (top v.info))
  unfolding alloc_cluster
  alloc_cluster-outside f v ok hint tc free =
      let start : alloc_start D v.info ≡ top v.info = ground (arith, hint, ok.few) in
      (
        rw (start, alloc_loop-suc L f v (top v.info) (top v.info) ok.sized, free) refl,
        take_cluster-Takes L v (top v.info) ok.sized tc,
      )

  goes_round :
      (f : ℕ) (v : Vol D) (c : ℕ)
      → Complete v
      → 2 ≤ c
      → c ≤ top v.info
      → ((d : ℕ) → 2 ≤ d → d ≤ top v.info → free_at L v d ≡ false)
      → alloc_loop D f v (top v.info) c ≡ none
  unfolding alloc_loop
  goes_round zero v c ok low high busy = refl
  goes_round (suc f) v c ok low high busy =
      let more : (after L v.info c == top v.info) ≡ false =
        ground (arith, ok.few, ok.has_clusters, low, high) in
      rw (alloc_loop-suc L f v (top v.info) c ok.sized, busy c low high, more)
        (goes_round f v (after L v.info c) ok (ground (arith, ok.few, high))
          (ground (arith, ok.few, high)) busy)

  -- FAT32_AllocCluster never comes to an end, whatever the number of rounds, when next_free_cluster
  -- is total_clusters + 2, as taking the last cluster leaves it, and neither a data cluster nor the
  -- number total_clusters + 2 is free in the first copy of the table. The drive works, and the
  -- volume is on the master drive; the table lies within 2 ^ 64 sectors of 512 bytes, in one copy
  -- at least, and has an entry for each data cluster; there is a data cluster, and none has the
  -- number of an end mark.
  pub alloc_cluster-endless :
      (f : ℕ) (v : Vol D)
      → Complete v
      → v.info.next_free_cluster ≡ top v.info
      → ((d : ℕ) → 2 ≤ d → d ≤ top v.info → free_at L v d ≡ false)
      → alloc_cluster D f v ≡ none
  unfolding alloc_cluster
  alloc_cluster-endless f v ok hint busy =
      let start : alloc_start D v.info ≡ top v.info = ground (arith, hint, ok.few) in
      rw start (goes_round f v (top v.info) ok (omega (arith, ok.has_clusters)) (omega arith) busy)
