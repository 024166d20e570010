-- ===== src/Directory/Tests.antt =====
-- FAT32_FindEntry in a directory of the clusters 2 and 5.
use os.Base.{ℕ, [], ◌∷◌, List}
use os.Base.Memory.{Memory}

-- The 11 bytes at the start of entry 1 of cluster 5: the sector 6 holds 16 * 6 + k at offset k.
abbrev name : List ℕ
name = 128 ∷ 129 ∷ 130 ∷ 131 ∷ 132 ∷ 133 ∷ 134 ∷ 135 ∷ 136 ∷ 137 ∷ 138 ∷ []
