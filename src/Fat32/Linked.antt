-- ===== src/Fat32/Linked.antt =====
-- Chains of clusters in a table, and what FAT32_FreeClusterChain does with one.
use os.Base.{
  ℕ, zero, suc, ◌+◌, ◌*◌, ◌%◌, ◌^◌, ◌≤◌, ◌<◌, ◌≡◌, refl, true, false, ◌&&◌, ltb, leb, ◌==◌,
  if◌then◌else◌, arith, u32, some, ◌∙◌, List, [], ◌∷◌, has, length, ap, min,
}
use os.Disk.{Drive, IsDrive}
use os.Fat32.{Info, Vol, write_fat_entry, free_entry, free_cluster_chain, entry_eof, unknown}
use os.Fat32.Table.{Sized, InTable, entry}
use os.Fat32.Entries.{write_fat_entry-Written, next_cluster-entry}

-- From `c` on, `table` leads through the clusters, none of them twice, to an end mark. All of them are
-- data clusters below `limit`.
pub data Linked (table : ℕ → ℕ) (limit : ℕ) : ℕ → List ℕ → Type 0 where
  last : (c : ℕ) → 2 ≤ c → c < limit → entry_eof ≤ table c → Linked table limit c (c ∷ [])
  link :
      (c : ℕ) (cs : List ℕ)
      → 2 ≤ c
      → c < limit
      → has c cs ≡ false
      → Linked table limit (table c) cs
      → Linked table limit c (c ∷ cs)

pub Linked-ext :
    (table table' : ℕ → ℕ) (limit c : ℕ) (cs : List ℕ)
    → ((d : ℕ) → has d cs ≡ true → d < limit → table' d ≡ table d)
    → Linked table limit c cs
    → Linked table' limit c cs
Linked-ext table table' limit _ _ same (last c low high end) =
    last c low high (rw (same c (ground arith) high) end)
Linked-ext table table' limit _ _ same (link c cs low high new rest) = link c cs low high new (
    rw (same c (ground arith) high)
      (Linked-ext table table' limit (table c) cs (λ d h. same d (ground (arith, h))) rest))

-- A chain goes on below the end marks.
pub Linked-low :
    {table : ℕ → ℕ} {limit c : ℕ} {cs : List ℕ} → Linked table limit c cs → (2 ≤ c) × (c < limit)
Linked-low (last c low high end) = (low, high)
Linked-low (link c cs low high new rest) = (low, high)

pub Linked-length :
    {table : ℕ → ℕ} {limit c : ℕ} {cs : List ℕ} → Linked table limit c cs → 1 ≤ length cs
Linked-length (last c low high end) = omega arith
Linked-length (link c cs low high new rest) = omega arith

-- The information after `n` clusters were freed
abbrev pub freed : Info → ℕ → Info
freed info zero = info
freed info (suc n) =
    freed
      (record info {
        free_clusters =
            if info.free_clusters == unknown
            then info.free_clusters
            else u32 (info.free_clusters + 1);
      })
      n

module _ {D : Drive} (L : IsDrive D) where
  -- The table as FAT32_NextCluster reads it
  abbrev pub next_of : Vol D → ℕ → ℕ
  next_of v c = entry L v 0 c % 2 ^ 28

  -- The clusters that have an entry and are no end mark
  abbrev pub limit_of : Vol D → ℕ
  limit_of v = min (v.info.sectors_per_fat * 128) entry_eof

  -- The volume `out` is `v` with the clusters `cs` freed.
  pub record Frees (v : Vol D) (cs : List ℕ) (out : Vol D) : Type 0 where
    pub same_volume : out ≡ record v { drive = out.drive; info = freed v.info (length cs) }
    pub entries :
        (j d : ℕ)
        → j < v.info.num_fats
        → InTable v d
        → entry L (record v { drive = out.drive }) j d ≡ (if has d cs then 0 else entry L v j d)

  -- The volume after the entry of `c` was freed
  abbrev one_freed : Vol D → ℕ → Vol D
  one_freed v c = record v { drive = (write_fat_entry D v c 0).1.drive; info = freed v.info 1 }

  free_entry_lem :
      (v : Vol D) (c : ℕ) → Sized v → InTable v c → free_entry D v c ≡ (true, one_freed v c)
  unfolding free_entry
  free_entry_lem v c ok tc =
      let w = write_fat_entry-Written L v c 0 ok tc (omega arith) in rw (w.done, w.same_volume) refl

  one_freed-Sized : (v : Vol D) (c : ℕ) → Sized v → Sized (one_freed v c)
  one_freed-Sized v c ok = record {
    master = ok.master;
    bytes_512 = ok.bytes_512;
    copies = ok.copies;
    fits = ok.fits;
  }

  one_freed-entry :
      (v : Vol D) (c j d : ℕ)
      → Sized v
      → InTable v c
      → j < v.info.num_fats
      → InTable v d
      → entry L (one_freed v c) j d ≡ (if d == c then 0 else entry L v j d)
  one_freed-entry v c j d ok tc hj td =
      (write_fat_entry-Written L v c 0 ok tc (omega arith)).entries j d hj td

  Frees-one : (v : Vol D) (c : ℕ) → Sized v → InTable v c → Frees v (c ∷ []) (one_freed v c)
  Frees-one v c ok tc = record {
    same_volume = refl;
    entries = λ j d hj td. one_freed-entry v c j d ok tc hj td ∙ ground arith;
  }

  Frees-cons :
      (v : Vol D) (c : ℕ) (cs : List ℕ) (out : Vol D)
      → Sized v
      → InTable v c
      → Frees (one_freed v c) cs out
      → Frees v (c ∷ cs) out
  Frees-cons v c cs out ok tc rest = record {
    same_volume = rest.same_volume;
    entries =
        λ j d hj td. rest.entries j d hj td ∙ ground (arith, one_freed-entry v c j d ok tc hj td);
  }

  -- On a drive that works, FAT32_FreeClusterChain comes to an end within as many rounds as the
  -- chain has clusters, and succeeds: exactly the entries of the chain are 0 in every copy of the
  -- table. The volume is on the master drive, the table lies within 2 ^ 64 sectors of 512 bytes, in
  -- one copy at least, and the chain ends in an end mark and has each cluster once.
  pub free_cluster_chain-Frees :
      (f : ℕ) (v : Vol D) (c : ℕ) (cs : List ℕ)
      → Sized v
      → length cs ≤ f
      → Linked (next_of v) (limit_of v) c cs
      → (out : Vol D) × (free_cluster_chain D f v c ≡ some (true, out)) × Frees v cs out
  unfolding free_cluster_chain
  free_cluster_chain-Frees zero v _ _ ok enough (last c low high end) = absurd (omega arith)
  free_cluster_chain-Frees zero v _ _ ok enough (link c cs low high new rest) = absurd (omega arith)
  free_cluster_chain-Frees (suc f) v _ _ ok enough (last c low high end) =
      let tc : InTable v c = omega (arith, high) in
      let inside : (leb 2 c && ltb c entry_eof) ≡ true = ground (arith, high) in
      let stop : leb entry_eof (next_of v c) ≡ true = ground (arith, end) in
      rw (free_cluster_chain, inside, next_cluster-entry L v c ok, free_entry_lem v c ok tc, stop)
        (one_freed v c, ap some (free_entry_lem v c ok tc), Frees-one v c ok tc)
  free_cluster_chain-Frees (suc f) v _ _ ok enough (link c cs low high new rest) =
      let tc : InTable v c = omega (arith, high) in
      let inside : (leb 2 c && ltb c entry_eof) ≡ true = ground (arith, high) in
      let on : leb entry_eof (next_of v c) ≡ false = ground (arith, Linked-low rest) in
      let v1 = one_freed v c in
      let rest' : Linked (next_of v1) (limit_of v1) (next_of v c) cs =
        Linked-ext (next_of v) (next_of v1) (limit_of v) (next_of v c) cs
          (λ d m hd. ground (arith, one_freed-entry v c 0 d ok tc, ok.copies, hd, m, new)) rest in
      let (out, eq, more) =
        free_cluster_chain-Frees f v1 (next_of v c) cs (one_freed-Sized v c ok) (omega arith)
          rest' in
      rw (free_cluster_chain, inside, next_cluster-entry L v c ok, free_entry_lem v c ok tc, on)
        (out, rw (free_entry_lem v c ok tc) eq, Frees-cons v c cs out ok tc more)
