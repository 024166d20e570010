-- ===== src/Directory/Search.antt =====
-- FAT32_FindEntry finds the first entry with a short name in the clusters of a directory.
use os.Base.{
  ℕ, ◌*◌, ◌≤◌, ◌<◌, ◌≡◌, ◌≢◌, true, some, none, Option, ◌⊎◌, inl, inr, List, [], ◌∷◌, ◌/◌,
}
use os.Base.Memory.{Memory}
use os.KString.Compare.{equal, bytes}
use os.Disk.{Drive, IsDrive}
use os.Fat32.{Vol, read_cluster, cluster_size}
use os.Fat32.Linked.{Linked}
use os.Fat32.Clusters.{Placed}
use os.Fat32.Walk.{along}
use os.Directory.{is_valid_sfn_entry, find_in, entry_at}

-- Entry `i` of a cluster with `count` entries has the short name, and no end mark stands at it or in
-- front of it.
pub record Hit (m : Memory) (count : ℕ) (name : List ℕ) (i : ℕ) : Type 0 where
  pub below : i < count
  pub unended : (j : ℕ) → j ≤ i → m (j * 32) ≢ 0
  pub valid : is_valid_sfn_entry m (i * 32) ≡ true
  pub named : equal (bytes m (i * 32) 11) name ≡ true

-- No entry from `i` on has it.
abbrev pub NoHit : Memory → ℕ → List ℕ → ℕ → Type 0
NoHit m count name i = (j : ℕ) → i ≤ j → ¬ Hit m count name j

-- The first entry from `i` on, at the offset that is found
pub data FirstHit (m : Memory) (count : ℕ) (name : List ℕ) (i : ℕ) : Option ℕ → Type 0 where
  hit :
      (k : ℕ)
      → i ≤ k
      → Hit m count name k
      → ((j : ℕ) → i ≤ j → j < k → ¬ Hit m count name j)
      → FirstHit m count name i (some (k * 32))
  no_hit : NoHit m count name i → FirstHit m count name i none

module _ {D : Drive} (L : IsDrive D) (v : Vol D) (ok : Placed v) (name : List ℕ) where
  abbrev count : ℕ
  count = cluster_size D v / 32

  -- What the search in the clusters answers: the first entry that has the name, or 1 if none has.
  pub data Finds : List ℕ → ℕ × Option Memory → Type 0 where
    here :
        (c : ℕ) (cs : List ℕ) (i : ℕ)
        → Hit (read_cluster D v c).1 count name i
        → ((j : ℕ) → j < i → ¬ Hit (read_cluster D v c).1 count name j)
        → Finds (c ∷ cs) (0, some (entry_at (read_cluster D v c).1 (i * 32)))
    there :
        (c : ℕ) (cs : List ℕ) (out : ℕ × Option Memory)
        → ((j : ℕ) → ¬ Hit (read_cluster D v c).1 count name j)
        → Finds cs out
        → Finds (c ∷ cs) out
    nowhere : Finds [] (1, none)

  -- The loop over a cluster, as the body of the loop over the clusters
  abbrev body : Unit {0} → ℕ → Memory → Unit {0} ⊎ (ℕ × Option Memory)
  body _ c m = elim (find_in m name 0 count) [
    | some a ↦ inr (0, some (entry_at m a))
    | none ↦ inl tt
  ]

  abbrev answer : List ℕ → ℕ × Option Memory
  answer = along L v ok body (2, none) (3, none) (λ _ _ _. (1, none)) tt
