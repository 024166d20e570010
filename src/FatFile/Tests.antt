-- ===== src/FatFile/Tests.antt =====
-- FAT32_ReadFile and the loop of FAT32_WriteFile at a file of 600 bytes in two clusters.
use os.Base.{◌+◌, ◌%◌, ℕ, ◌≡◌, ◌<◌, refl, ◌==◌, if◌then◌else◌, arith, some, [], ◌∷◌}
use os.Base.Memory.{Memory, load}
use os.Disk.Tests.{disks, disks-IsDrive}
use os.Fat32.Tests.{volume, placed, linked}
use os.Fat32.Linked.{Linked, next_of}
use os.Fat32.Alloc.{top}
use os.Directory.{first_cluster, file_size}
use os.FatFile.{write_loop, behind, read_file}
use os.Disk.Tests.{Disks}
use os.FatFile.Write.{read_file-write_loop}
use os.FatFile.Read.{content, read_file-content}

-- Its entry: the first cluster is 2 and the size 600.
abbrev entry : Memory
entry k = if k == 26 then 2 else (if k == 28 then 88 else (if k == 29 then 2 else 0))

size : file_size entry 0 ≡ 600
unfolding load
size = refl

chain : Linked (next_of disks-IsDrive volume) (top volume.info) (first_cluster entry 0) (2 ∷ 5 ∷ [])
unfolding load
chain = linked

read_file-content_example :
    (out : Memory) × (read_file disks 2 volume entry (λ k. 0) ≡ some (file_size entry 0, out))
    × ((k : ℕ) → k < file_size entry 0 → out k ≡ content disks volume (2 ∷ 5 ∷ []) k)
read_file-content_example =
    read_file-content disks-IsDrive volume placed 2 entry (λ k. 0) (2 ∷ 5 ∷ []) refl chain
      (omega arith) (omega (arith, size)) (omega arith)

abbrev text : Memory
text k = (k + 33) % 256

read_file-write_loop_example :
    (last_one : ℕ) × (s : Disks) × (out : Memory) × (write_loop disks 2 volume
        (first_cluster entry 0)
        text
        0
        (file_size entry 0)
      ≡ some (behind (file_size entry 0) last_one (record volume { drive = s })))
    × (read_file disks 2 (record volume { drive = s }) entry (λ k. 0)
        ≡ some (file_size entry 0, out))
    × ((k : ℕ) → k < file_size entry 0 → out k ≡ text k)
read_file-write_loop_example =
    read_file-write_loop disks-IsDrive volume placed 2 entry text (λ k. 0) (2 ∷ 5 ∷ []) refl chain
      (omega arith) (omega (arith, size)) (omega (arith, size)) (omega arith)
