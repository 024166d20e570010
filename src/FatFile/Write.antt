-- ===== src/FatFile/Write.antt =====
-- The loop of FAT32_WriteFile writes the clusters that the file has, one behind the other.
use os.Base.{
  ℕ, zero, suc, ◌+◌, ◌-◌, ◌*◌, ◌%◌, ◌^◌, ◌≤◌, ◌<◌, ◌≡◌, refl, Bool, true, false, ltb, leb, arith,
  some, inl, inr, Bool-cases, ◌∙◌, List, [], ◌∷◌, length, min, has, ap, ap₂, Option,
}
use os.Base.Memory.{Memory}
use os.Disk.{Drive, IsDrive}
use os.Fat32.{Vol, read_cluster, cluster_size, entry_eof}
use os.Fat32.Table.{InTable, entry}
use os.Fat32.Entries.{next_cluster-entry}
use os.Fat32.Alloc.{top, InData}
use os.Fat32.Linked.{Linked, last, link, Linked-low, Linked-ext, next_of}
use os.Fat32.Clusters.{Placed}
use os.Directory.{first_cluster, file_size, is_directory}
use os.FatFile.{read_file, write_part, write_loop, extend, behind, WriteEnd}
use os.FatFile.Read.{content, read_file-content}
use os.FatFile.Part.{Placed-drive, Part, write_part-Part}

module _ {D : Drive} (L : IsDrive D) where
  -- The volume `out` is `v` with the bytes of `src` from `from` up to `size` in the clusters `cs`.
  record Writes (v : Vol D) (cs : List ℕ) (src : Memory) (from size : ℕ) (out : Vol D)
      : Type 0 where
    same_volume : out ≡ record v { drive = out.drive }
    table : (d : ℕ) → InTable v d → entry L (record v { drive = out.drive }) 0 d ≡ entry L v 0 d
    bytes :
        (k : ℕ) → from + k < size → content D (record v { drive = out.drive }) cs k ≡ src (from + k)
    others :
        (d k : ℕ)
        → InData v.info d
        → has d cs ≡ false
        → k < cluster_size D v
        → (read_cluster D (record v { drive = out.drive }) d).1 k ≡ (read_cluster D v d).1 k

  module _ (v : Vol D) (c n from size : ℕ) (cs : List ℕ) (src : Memory) (hc : InData v.info c)
      (s : D.State) (part : Part L v c n from src (true, record v { drive = s })) where
    -- The last round
    Writes-last :
        size ≤ from + n
        → n ≤ cluster_size D v
        → Writes v (c ∷ cs) src from size (record v { drive = s })
    Writes-last le small = record {
      same_volume = refl;
      table = part.table;
      bytes = λ k lt. ground (arith, part.bytes c k hc, lt);
      others = λ d k hd out lt. ground (arith, part.bytes d k hd lt, out);
    }

    -- A round that fills its cluster, and the rounds behind it
    Writes-cons :
        (out : Vol D)
        → n ≡ cluster_size D v
        → has c cs ≡ false
        → Writes (record v { drive = s }) cs src (from + n) size out
        → Writes v (c ∷ cs) src from size out
    Writes-cons out whole new rest = record {
      same_volume = rest.same_volume;
      table = λ d td. rest.table d td ∙ part.table d td;
      bytes = λ k lt. elim (Bool-cases (ltb k (cluster_size D v))) [
        | inl here ↦
            let inside : k < cluster_size D v = ground arith in
            rw here
              (rest.others c k hc new inside ∙ ground (arith, part.bytes c k hc inside, whole))
        | inr behind_it ↦
            let place : from + n + (k - cluster_size D v) ≡ from + k = ground (arith, whole) in
            rw behind_it (rest.bytes (k - cluster_size D v) (omega (arith, place)) ∙ ap src place)
      ];
      others = λ d k hd outside lt.
          rest.others d k hd (ground (arith, outside)) lt
          ∙ ground (arith, part.bytes d k hd lt, outside);
    }

  -- How the loop ends: behind all the bytes, at a cluster
  abbrev Ends : ℕ → Vol D → List ℕ → Memory → ℕ → ℕ → ℕ → Type 0
  Ends f v cs src from size c =
      (last_one : ℕ) × (out : Vol D) × (write_loop D f v c src from size
        ≡ some (behind size last_one out))
      × Writes v cs src from size out

  -- A round, as a state of the drive
  module _ (v : Vol D) (ok : Placed v) (c from size : ℕ) (src : Memory) (hc : InData v.info c)
      (more : from < size) where
    abbrev amount : ℕ
    amount = min (size - from) (cluster_size D v)

    abbrev round : Bool × Vol D
    round = write_part D v c 0 src from amount

    round-Part : Part L v c amount from src round
    round-Part = write_part-Part L v ok c amount from src hc (omega arith)

    abbrev round_volume : Vol D
    round_volume = record v { drive = round.1.drive }

    round_volume-Part : Part L v c amount from src (true, round_volume)
    round_volume-Part = record {
      done = refl;
      same_volume = refl;
      bytes = round-Part.bytes;
      table = round-Part.table;
    }

    abbrev at_end : ℕ → Vol D → Option (WriteEnd D)
    at_end count out = some (behind count c out)

    stops : (f : ℕ) (cs : List ℕ) → size ≤ from + amount → Ends (suc f) v (c ∷ cs) src from size c
    unfolding write_loop
    stops f cs le =
        let on : ltb from size ≡ true = ground arith in
        let all : leb size (from + amount) ≡ true = ground arith in
        let count : from + amount ≡ size = omega arith in
        (
          c,
          round_volume,
          rw (write_loop, on, round-Part.done, all) (ap₂ at_end count round-Part.same_volume),
          Writes-last v c amount from size cs src hc round.1.drive round_volume-Part le
              (omega arith),
        )

    entry_kept : (d : ℕ) → d < top v.info → next_of L round_volume d ≡ next_of L v d
    entry_kept d lt =
        ap (λ (e : ℕ). e % 2 ^ 28) (round-Part.table d (omega (arith, ok.complete.listed)))

    module _ (f : ℕ) (on_chain : leb entry_eof (next_of L v c) ≡ false) where
      abbrev next : Option (Option ℕ × Vol D)
      next = some (some (next_of L v c), round_volume)

      abbrev going : ℕ → Option (Option ℕ × Vol D)
      going e = some (some e, round_volume)

      extend-next : extend D f round_volume c ≡ next
      unfolding extend
      extend-next =
          let sized = ok.complete.sized in
          let still : leb entry_eof (next_of L round_volume c) ≡ false =
            ap (leb entry_eof) (entry_kept c hc.1) ∙ on_chain in
          rw (extend, next_cluster-entry L round_volume c sized, still)
            (ap going (entry_kept c hc.1))

      extend-round : extend D f round.1 c ≡ next
      extend-round = ap (λ (o : Vol D). extend D f o c) round-Part.same_volume ∙ extend-next

      -- The loop goes on at the next cluster.
      goes_on :
          leb size (from + amount) ≡ false
          → write_loop D (suc f) v c src from size
            ≡ write_loop D f round_volume (next_of L v c) src (from + amount) size
      unfolding write_loop
      goes_on under =
          let on : ltb from size ≡ true = ground arith in
          rw (write_loop, on, round-Part.done, under, extend-round) refl

  write_loop-Ends :
      (f : ℕ) (v : Vol D) (ok : Placed v) (c : ℕ) (cs : List ℕ) (src : Memory) (from size : ℕ)
      → Linked (next_of L v) (top v.info) c cs
      → length cs ≤ f
      → from < size
      → size ≤ from + length cs * cluster_size D v
      → Ends f v cs src from size c
  write_loop-Ends zero v ok _ _ src from size (last c low high end) enough more fits =
      absurd (omega arith)
  write_loop-Ends zero v ok _ _ src from size (link c cs low high new rest) enough more fits =
      absurd (omega arith)
  write_loop-Ends (suc f) v ok _ _ src from size (last c low high end) enough more fits =
      stops v ok c from size src (low, high) more f [] (omega arith)
  write_loop-Ends (suc f) v ok _ _ src from size (link c cs low high new rest) enough more fits =
      elim (Bool-cases (leb size (from + min (size - from) (cluster_size D v)))) [
        | inl over ↦ stops v ok c from size src (low, high) more f cs (ground arith)
        | inr under ↦
            let n = min (size - from) (cluster_size D v) in
            let v1 = round_volume v ok c from size src (low, high) more in
            let full : n ≡ cluster_size D v = ground arith in
            let on_chain : leb entry_eof (next_of L v c) ≡ false =
              ground (arith, Linked-low rest, ok.complete.few) in
            let rest1 : Linked (next_of L v1) (top v.info) (next_of L v c) cs =
              Linked-ext (next_of L v) (next_of L v1) (top v.info) (next_of L v c) cs
                (λ d m hd. entry_kept v ok c from size src (low, high) more d hd) rest in
            let (final, out, eq, writes) =
              write_loop-Ends f v1 (Placed-drive v v1.drive ok) (next_of L v c) cs src (from + n)
                size rest1 (omega arith) (ground arith) (omega arith) in
            (
              final,
              out,
              goes_on v ok c from size src (low, high) more f on_chain under ∙ eq,
              Writes-cons v c n from size cs src (low, high) v1.drive
                  (round_volume-Part v ok c from size src (low, high) more) out full new writes,
            )
      ]

  -- On a drive that works, the loop of FAT32_WriteFile at the first cluster of a file comes to an
  -- end within as many rounds as the file has clusters, with all the bytes written, and
  -- FAT32_ReadFile then gives these bytes. The size is that of the entry, at least 1, and the
  -- clusters are enough for it and together below 2 ^ 32 bytes; the entry is no directory, the
  -- chain ends in an end mark and has each cluster once; the volume is on the master drive; the
  -- table lies within 2 ^ 64 sectors of 512 bytes, in one copy at least, and has an entry for each
  -- data cluster; there is a data cluster, and none has the number of an end mark; the data
  -- clusters, of one sector at least, follow the table, within 2 ^ 64 sectors.
  pub read_file-write_loop :
      (v : Vol D) (ok : Placed v) (f : ℕ) (e src buf : Memory) (cs : List ℕ)
      → is_directory e 0 ≡ false
      → Linked (next_of L v) (top v.info) (first_cluster e 0) cs
      → length cs ≤ f
      → 1 ≤ file_size e 0
      → file_size e 0 ≤ length cs * cluster_size D v
      → length cs * cluster_size D v < 2 ^ 32
      → (last_one : ℕ) × (s : D.State) × (out : Memory) × (write_loop D f v
            (first_cluster e 0)
            src
            0
            (file_size e 0)
          ≡ some (behind (file_size e 0) last_one (record v { drive = s })))
        × (read_file D f (record v { drive = s }) e buf ≡ some (file_size e 0, out))
        × ((k : ℕ) → k < file_size e 0 → out k ≡ src k)
  read_file-write_loop v ok f e src buf cs plain chain enough some_bytes fits small =
      let size = file_size e 0 in
      let start = first_cluster e 0 in
      let (final, after, eq, writes) =
        write_loop-Ends f v ok start cs src 0 size chain enough some_bytes (omega arith) in
      let s = after.drive in
      let v1 : Vol D = record v { drive = s } in
      let chain1 : Linked (next_of L v1) (top v.info) start cs =
        Linked-ext (next_of L v) (next_of L v1) (top v.info) start cs
          (λ d m hd.
            ap (λ (x : ℕ). x % 2 ^ 28) (writes.table d (omega (arith, ok.complete.listed, hd))))
          chain in
      let (out, read, holds) =
        read_file-content L v1 (Placed-drive v s ok) f e buf cs plain chain1 enough fits small in
      (
        final,
        s,
        out,
        eq ∙ ap (λ (o : Vol D). some (behind size final o)) writes.same_volume,
        read,
        λ k lt. holds k lt ∙ writes.bytes k (omega arith) ∙ ap src (omega arith),
      )
