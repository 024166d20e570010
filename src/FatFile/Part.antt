-- ===== src/FatFile/Part.antt =====
-- A round of the write loops of FAT32_WriteFile: one cluster.
use os.Base.{
  ℕ, ◌+◌, ◌*◌, ◌≤◌, ◌<◌, ◌≡◌, refl, Bool, true, ◌&&◌, ltb, ◌==◌, if◌then◌else◌, arith, inl, inr,
  Bool-cases, ◌∙◌,
}
use os.Base.Memory.{Memory}
use os.Disk.{Drive, IsDrive}
use os.Fat32.{Volume, Vol, read_cluster, write_cluster, cluster_size}
use os.Fat32.Table.{InTable, entry}
use os.Fat32.Alloc.{InData}
use os.Fat32.Clusters.{Placed, read_cluster-write_cluster, entry-write_cluster, write_cluster_lem}
use os.Directory.{entry_at}
use os.FatFile.{overlay, write_part}
use os.FatFile.Read.{sectors}

-- Another state of the drive
pub Placed-drive : {S : Type 0} (v : Volume S) (s : S) → Placed v → Placed (record v { drive = s })
Placed-drive v s ok = record {
  complete = record {
    sized = ok.complete.sized;
    has_clusters = ok.complete.has_clusters;
    few = ok.complete.few;
    listed = ok.complete.listed;
  };
  has_sectors = ok.has_sectors;
  behind = ok.behind;
  ends = ok.ends;
}

module _ {D : Drive} (L : IsDrive D) where
  -- The volume `out` is `v` with the first `n` bytes of a cluster written.
  pub record Part (v : Vol D) (c n from : ℕ) (src : Memory) (out : Bool × Vol D) : Type 0 where
    pub done : out.0 ≡ true
    pub same_volume : out.1 ≡ record v { drive = out.1.drive }
    pub bytes :
        (d k : ℕ)
        → InData v.info d
        → k < cluster_size D v
        → (read_cluster D (record v { drive = out.1.drive }) d).1 k
          ≡ (if (d == c) && ltb k n then src (from + k) else (read_cluster D v d).1 k)
    pub table :
        (d : ℕ) → InTable v d → entry L (record v { drive = out.1.drive }) 0 d ≡ entry L v 0 d

  module _ (v : Vol D) (ok : Placed v) where
    write_cluster-Part :
        (c n from : ℕ) (src buf : Memory)
        → InData v.info c
        → ((k : ℕ)
            → k < cluster_size D v
            → buf k ≡ (if ltb k n then src (from + k) else (read_cluster D v c).1 k))
        → Part v c n from src (write_cluster D v c buf)
    write_cluster-Part c n from src buf hc made =
        let lem = write_cluster_lem L v ok c buf hc in
        rw lem (record {
          done = refl;
          same_volume = refl;
          bytes = λ d k hd hk.
              let small : k < v.info.sectors_per_cluster * 512 = omega (arith, sectors L v ok) in
              (rw lem at (read_cluster-write_cluster L v ok c buf hc d k hd small).1)
              ∙ chosen d k (made k hk);
          table = λ d td. rw lem at (
              entry-write_cluster L v ok c buf hc 0 d (omega (arith, ok.complete.sized.copies)) td);
        })
      where
        chosen :
            (d k : ℕ)
            → buf k ≡ (if ltb k n then src (from + k) else (read_cluster D v c).1 k)
            → (if d == c then buf k else (read_cluster D v d).1 k)
              ≡ (if (d == c) && ltb k n then src (from + k) else (read_cluster D v d).1 k)
        chosen d k e = elim (Bool-cases (d == c)) [
          | inl same ↦ let e' : d ≡ c = ground arith in rw (same, e, e') refl
          | inr other ↦ rw other refl
        ]

    -- A round of the loop, at the start of the cluster
    pub write_part-Part :
        (c n from : ℕ) (src : Memory)
        → InData v.info c
        → n ≤ cluster_size D v
        → Part v c n from src (write_part D v c 0 src from n)
    unfolding write_part
    write_part-Part c n from src hc le = elim (Bool-cases (ltb n (cluster_size D v))) [
      | inl some_left ↦ rw some_left (
          write_cluster-Part c n from src (overlay (read_cluster D v c).1 0 (entry_at src from) n)
            hc (λ k lt. ground arith))
      | inr whole ↦
          rw whole (write_cluster-Part c n from src (entry_at src from) hc (λ k lt. ground arith))
    ]
