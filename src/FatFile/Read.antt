-- ===== src/FatFile/Read.antt =====
-- FAT32_ReadFile reads the bytes of the clusters of a chain, one cluster behind the other.
use os.Base.{
  ℕ, zero, suc, ◌+◌, ◌-◌, ◌*◌, ◌^◌, ◌≤◌, ◌<◌, ◌≡◌, refl, true, false, ltb, leb, if◌then◌else◌,
  arith, u32, some, inl, inr, Bool-cases, ◌∙◌, List, [], ◌∷◌, length, min,
}
use os.Base.Memory.{Memory}
use os.Disk.{Drive, IsDrive}
use os.Fat32.{Vol, read_cluster, cluster_size, entry_eof}
use os.Fat32.Entries.{next_cluster-entry}
use os.Fat32.Alloc.{top}
use os.Fat32.Linked.{Linked, last, link, Linked-low, Linked-length, next_of}
use os.Fat32.Clusters.{Placed, read_cluster_lem}
use os.Directory.{first_cluster, file_size, is_directory}
use os.FatFile.{overlay, read_loop, read_file}

module _ (D : Drive) (v : Vol D) where
  -- The byte `k` of the clusters one behind the other
  abbrev pub content : List ℕ → ℕ → ℕ
  content [] k = 0
  content (c ∷ cs) k =
      if ltb k (cluster_size D v)
      then (read_cluster D v c).1 k
      else content cs (k - cluster_size D v)

module _ {D : Drive} (L : IsDrive D) (v : Vol D) (ok : Placed v) where
  pub sectors : v.info.sectors_per_cluster * 512 ≡ cluster_size D v
  sectors = rw ok.complete.sized.bytes_512 (omega arith)

  pub readable : (c : ℕ) → (2 ≤ c) × (c < top v.info) → (read_cluster D v c).0 ≡ true
  readable c h = rw (read_cluster_lem L v ok v.drive c h) refl

  -- What the loop leaves in the buffer
  abbrev Reads : ℕ → ℕ → Memory → List ℕ → Memory → Type 0
  Reads size done buf cs out =
      (k : ℕ) → k < size → out k ≡ (if ltb k done then buf k else content D v cs (k - done))

  read_loop-Reads :
      (f size done c : ℕ) (buf : Memory) (cs : List ℕ)
      → Linked (next_of L v) (top v.info) c cs
      → length cs ≤ f
      → done < size
      → size ≤ done + length cs * cluster_size D v
      → done + length cs * cluster_size D v < 2 ^ 32
      → (out : Memory) × (read_loop D f v size c done buf ≡ some (size, out))
        × Reads size done buf cs out
  unfolding read_loop
  read_loop-Reads zero size done _ buf _ (last c low high end) enough more fits small =
      absurd (omega arith)
  read_loop-Reads zero size done _ buf _ (link c cs low high new rest) enough more fits small =
      absurd (omega arith)
  read_loop-Reads (suc f) size done _ buf _ (last c low high end) enough more fits small =
      let on : ltb done size ≡ true = ground arith in
      let over : leb size (u32 (done + cluster_size D v)) ≡ true = ground arith in
      rw (read_loop, on, readable c (low, high), over)
        (
          overlay buf done (read_cluster D v c).1 (v.info.sectors_per_cluster * 512),
          refl,
          λ k lt. rw sectors (ground arith),
        )
  read_loop-Reads (suc f) size done _ buf _ (link c cs low high new rest) enough more fits small =
      let on : ltb done size ≡ true = ground arith in
      let done' = u32 (done + cluster_size D v) in
      let no_wrap : done' ≡ done + cluster_size D v = omega arith in
      let buf' = overlay buf done (read_cluster D v c).1 (v.info.sectors_per_cluster * 512) in
      elim (Bool-cases (leb size done')) [
        | inl over ↦
            rw (read_loop, on, readable c (low, high), over)
              (buf', refl, λ k lt. rw sectors (ground arith))
        | inr under ↦
            let go_on : leb entry_eof (next_of L v c) ≡ false =
              ground (arith, Linked-low rest, ok.complete.few) in
            let (out, eq, reads) =
              read_loop-Reads f size done' (next_of L v c) buf' cs rest (omega arith) (ground arith)
                (omega arith) (omega arith) in
            rw
              (
                read_loop,
                on,
                readable c (low, high),
                under,
                next_cluster-entry L v c ok.complete.sized,
                go_on,
              )
              (out, eq, λ k lt. reads k lt ∙ rw (sectors, no_wrap) (ground arith))
      ]

  read_nothing :
      (f c size : ℕ) (buf : Memory)
      → 1 ≤ f
      → size ≡ 0
      → read_loop D f v size c 0 buf ≡ some (size, buf)
  unfolding read_loop
  read_nothing zero c size buf enough e = absurd (omega arith)
  read_nothing (suc f) c size buf enough e =
      let off : ltb 0 size ≡ false = ground arith in
      let least : min 0 size ≡ size = omega arith in rw (read_loop, off) (rw least refl)

  -- On a drive that works, FAT32_ReadFile comes to an end within as many rounds as the chain of the
  -- file has clusters, reads the whole file, and the buffer holds the bytes of the chain. The entry
  -- is no directory, the chain ends in an end mark and has each cluster once, its clusters are
  -- enough for the size and together below 2 ^ 32 bytes; the volume is on the master drive; the
  -- table lies within 2 ^ 64 sectors of 512 bytes, in one copy at least, and has an entry for each
  -- data cluster; there is a data cluster, and none has the number of an end mark; the data
  -- clusters, of one sector at least, follow the table, within 2 ^ 64 sectors.
  pub read_file-content :
      (f : ℕ) (e buf : Memory) (cs : List ℕ)
      → is_directory e 0 ≡ false
      → Linked (next_of L v) (top v.info) (first_cluster e 0) cs
      → length cs ≤ f
      → file_size e 0 ≤ length cs * cluster_size D v
      → length cs * cluster_size D v < 2 ^ 32
      → (out : Memory) × (read_file D f v e buf ≡ some (file_size e 0, out))
        × ((k : ℕ) → k < file_size e 0 → out k ≡ content D v cs k)
  unfolding read_file
  read_file-content f e buf cs plain chain enough fits small =
      elim (Bool-cases (ltb 0 (file_size e 0))) [
        | inl some_bytes ↦
            let (out, eq, reads) =
              read_loop-Reads f (file_size e 0) 0 (first_cluster e 0) buf cs chain enough
                (ground arith) (omega arith) (omega arith) in
            rw plain (out, eq, λ k lt. reads k lt ∙ ground arith)
        | inr nothing ↦ rw plain (
          buf,
          read_nothing f (first_cluster e 0) (file_size e 0) buf
              (omega (arith, Linked-length chain)) (ground arith),
          λ k lt. absurd (ground arith),
        )
      ]
