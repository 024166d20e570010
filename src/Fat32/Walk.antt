-- ===== src/Fat32/Walk.antt =====
-- The loops along the clusters of a directory, as a recursion on the list of its clusters.
use os.Base.{
  ℕ, zero, suc, ◌≤◌, ◌<◌, ◌≡◌, refl, true, false, leb, arith, some, ◌⊎◌, inl, inr, List, [], ◌∷◌,
  length,
}
use os.Base.Memory.{Memory}
use os.Disk.{Drive, IsDrive}
use os.Fat32.{Vol, read_cluster, entry_eof, walk}
use os.Fat32.Entries.{next_cluster-entry}
use os.Fat32.Alloc.{top}
use os.Fat32.Linked.{Linked, last, link, Linked-low, Linked-length, next_of}
use os.Fat32.Clusters.{Placed, read_cluster_lem}

-- How a value of a sum keeps its equation
pub sum-cases : {A B : Type 0} (s : A ⊎ B) → ((a : A) × (s ≡ inl a)) ⊎ ((b : B) × (s ≡ inr b))
sum-cases (inl a) = inl (a, refl)
sum-cases (inr b) = inr (b, refl)

module _ {D : Drive} (L : IsDrive D) (v : Vol D) (ok : Placed v) {State R : Type 0}
    (body : State → ℕ → Memory → State ⊎ R) (unreadable no_next : R)
    (ended : State → ℕ → Memory → R) where
  -- The clusters one behind the other: the loop stops at the first that gives a result.
  abbrev pub along : State → List ℕ → R
  along st [] = unreadable
  along st (c ∷ []) = elim (body st c (read_cluster D v c).1) [
    | inr r ↦ r
    | inl st' ↦ ended st' (next_of L v c) (read_cluster D v c).1
  ]
  along st (c ∷ d ∷ cs) = elim (body st c (read_cluster D v c).1) [
    | inr r ↦ r
    | inl st' ↦ along st' (d ∷ cs)
  ]

  readable : (c : ℕ) → (2 ≤ c) × (c < top v.info) → (read_cluster D v c).0 ≡ true
  readable c h = rw (read_cluster_lem L v ok v.drive c h) refl

  -- On a drive that works, a loop along the clusters of a directory comes to an end within as many
  -- rounds as there are clusters. It does what `along` does: its body sees the clusters in their
  -- order until it gives a result, and what stands behind the loop follows the last one. The chain
  -- ends in an end mark and has each cluster once; the volume is complete and its data clusters
  -- follow the table, within 2 ^ 64 sectors.
  pub walk-along :
      (f : ℕ) (st : State) (c : ℕ) (cs : List ℕ)
      → Linked (next_of L v) (top v.info) c cs
      → length cs ≤ f
      → walk D body unreadable no_next ended f v st c ≡ some (along st cs)
  unfolding walk
  walk-along zero st _ _ (last c low high end) enough = absurd (omega arith)
  walk-along zero st _ _ (link c cs low high new rest) enough = absurd (omega arith)
  walk-along (suc f) st _ _ (last c low high end) enough =
      let stop : leb entry_eof (next_of L v c) ≡ true = ground (arith, end) in
      elim (sum-cases (body st c (read_cluster D v c).1)) [
        | inr (r, e) ↦ rw (walk, readable c (low, high), e) (rw (along, e) refl)
        | inl (st', e) ↦
            rw (walk, readable c (low, high), e, next_cluster-entry L v c ok.complete.sized, stop)
              (rw (along, e) refl)
      ]
  walk-along (suc f) st _ _ (link c [] low high new rest) enough =
      absurd (omega (arith, Linked-length rest))
  walk-along (suc f) st _ _ (link c (d ∷ cs) low high new rest) enough =
      let on : leb entry_eof (next_of L v c) ≡ false =
        ground (arith, Linked-low rest, ok.complete.few) in
      elim (sum-cases (body st c (read_cluster D v c).1)) [
        | inr (r, e) ↦ rw (walk, readable c (low, high), e) (rw (along, e) refl)
        | inl (st', e) ↦
            rw (walk, readable c (low, high), e, next_cluster-entry L v c ok.complete.sized, on)
              (rw (along, e) (walk-along f st' (next_of L v c) (d ∷ cs) rest (omega arith)))
      ]
