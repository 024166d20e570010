-- ===== src/Directory.antt =====
-- Kernel/fs/fat32.c: directory entries, short and long names, and the searches. An entry is 32 bytes at
-- an offset of the cluster's buffer. The long-name entries that stand in front of an entry are kept by
-- their offsets, the latest first, 20 at most; they are looked up in the buffer of the cluster that is
-- being scanned, which stands at the same place of the stack in each round. A name is the list of its
-- characters.
pub mod Search
mod Tests
use os.Base.{
  ℕ, zero, suc, ◌+◌, ◌-◌, ◌*◌, ◌/◌, ◌%◌, ◌^◌, Bool, true, false, not, ◌&&◌, ◌||◌, Option, none,
  some, ltb, leb, ◌==◌, if◌then◌else◌, List, [], ◌∷◌, ◌++◌, map, length, u8, bit_and, bit_or, inl,
  inr,
}
use os.Base.Memory.{Memory, load}
use os.KString.Compare.{equal, bytes}
use os.Disk.{Drive}
use os.Fat32.{Vol, cluster_size, walk}

-- Fields of the entry at `a`
abbrev pub attr : Memory → ℕ → ℕ
attr m a = m (a + 11)

abbrev pub first_cluster : Memory → ℕ → ℕ
first_cluster m a = load m (a + 20) 2 * 2 ^ 16 + load m (a + 26) 2

abbrev pub file_size : Memory → ℕ → ℕ
file_size m a = load m (a + 28) 4

abbrev pub has_bit : ℕ → ℕ → Bool
has_bit flags mask = not (bit_and flags mask == 0)

abbrev pub is_directory : Memory → ℕ → Bool
is_directory m a = has_bit (attr m a) 0x10

abbrev pub is_volume_id : Memory → ℕ → Bool
is_volume_id m a = has_bit (attr m a) 0x08

abbrev pub is_lfn : Memory → ℕ → Bool
is_lfn m a = attr m a == 0x0F

unfoldable pub is_valid_sfn_entry : Memory → ℕ → Bool
is_valid_sfn_entry m a =
    not ((m a == 0) || ((m a == 0xE5) || (m a == 0x2E)))
    && (not (is_lfn m a) && not (is_volume_id m a))

-- The part of a name in front of its last dot, and the part behind it
unfoldable pub last_dot : List ℕ → Option (List ℕ × List ℕ)
last_dot [] = none
last_dot (c ∷ cs) = elim (last_dot cs) [
  | some (base, ext) ↦ some (c ∷ base, ext)
  | none ↦ if c == 0x2E then some ([], cs) else none
]

-- The first `n` characters, filled up with blanks
unfoldable pub pad : ℕ → List ℕ → List ℕ
pad zero cs = []
pad (suc n) [] = 32 ∷ pad n []
pad (suc n) (c ∷ cs) = c ∷ pad n cs

abbrev pub upper : ℕ → ℕ
upper c = if leb 97 c && leb c 122 then c - 32 else c

unfoldable pub name_to_83 : List ℕ → List ℕ
name_to_83 name = map upper (elim (last_dot name) [
  | some (base, ext) ↦ pad 8 base ++ pad 3 ext
  | none ↦ pad 8 name ++ pad 3 []
])

-- fat32_lfn_checksum, from `sum` on
unfoldable pub checksum_from : ℕ → List ℕ → ℕ
checksum_from sum [] = sum
checksum_from sum (c ∷ cs) = checksum_from (u8 (bit_or (sum / 2) (sum * 128) + c)) cs

unfoldable pub lfn_checksum : List ℕ → ℕ
lfn_checksum name = checksum_from 0 name

-- The `n` characters of two bytes at `a`
abbrev pub units : Memory → ℕ → ℕ → List ℕ
units m a zero = []
units m a (suc n) = load m a 2 ∷ units m (a + 2) n

-- lfn_copy_name_segment, with room for `room` characters and the zero behind
unfoldable pub copy_name_segment : ℕ → List ℕ → List ℕ
copy_name_segment room [] = []
copy_name_segment zero (c ∷ cs) = []
copy_name_segment (suc room) (c ∷ cs) =
    let skip = copy_name_segment (suc room) cs in
    let rest = copy_name_segment room cs in
    if c == 0 then [] else (if c == 0xFFFF then skip else (c % 256) ∷ rest)

-- rebuild_lfn_name: the characters written, for the entries in the order in which it takes them and
-- an array of 260 characters
unfoldable pub rebuild_from : Memory → List ℕ → List ℕ → List ℕ
rebuild_from m [] out = out
rebuild_from m (a ∷ rest) out =
    let out1 = out ++ copy_name_segment (259 - length out) (units m (a + 1) 5) in
    let out2 = out1 ++ copy_name_segment (259 - length out1) (units m (a + 14) 6) in
    let out3 = out2 ++ copy_name_segment (259 - length out2) (units m (a + 28) 2) in
    rebuild_from m rest out3

-- The string that an array of characters holds
abbrev pub c_string : List ℕ → List ℕ
c_string [] = []
c_string (c ∷ cs) = if c == 0 then [] else c ∷ c_string cs

unfoldable pub rebuild_lfn_name : Memory → List ℕ → List ℕ
rebuild_lfn_name m pieces = c_string (rebuild_from m pieces [])

-- Is the latest long-name entry in front of the entry at `a` made for it?
unfoldable pub lfn_matches : Memory → List ℕ → ℕ → Bool
lfn_matches m [] a = false
lfn_matches m (piece ∷ pieces) a = m (piece + 13) == lfn_checksum (bytes m a 11)

-- One more long-name entry
abbrev pub keep_piece : List ℕ → ℕ → List ℕ
keep_piece pieces a = if ltb (length pieces) 20 then a ∷ pieces else pieces

-- The loop of FAT32_FindEntry over the entries of a cluster, from `i` on, with `n` to go: the offset
-- of the one that it finds
unfoldable pub find_in : Memory → List ℕ → ℕ → ℕ → Option ℕ
find_in m name i zero = none
find_in m name i (suc n) =
    let rest = find_in m name (i + 1) n in
    if m (i * 32) == 0
    then none
    else (if is_valid_sfn_entry m (i * 32) && equal (bytes m (i * 32) 11) name
        then some (i * 32)
        else rest)

-- How the loop over a cluster in FAT32_FindEntryAny, FAT32_DeleteFile, FAT32_RemoveDir and
-- FAT32_RenameFile ends: at an entry, with the long-name entries in front of it, or not
pub data Found : Type 0 where
  found : ℕ → List ℕ → Found
  missing : List ℕ → Found

-- Does the entry at `a` have the long name, given the entries in the order of rebuild_lfn_name, or the
-- short one?
unfoldable pub has_name : Memory → List ℕ → List ℕ → ℕ → List ℕ → List ℕ → Bool
has_name m pieces ordered a long short =
    (lfn_matches m pieces a && equal (rebuild_lfn_name m ordered) long)
    || equal (bytes m a 11) short

-- The loop, from entry `i` on, with `n` to go. `order` is the order in which the entries are given to
-- rebuild_lfn_name.
unfoldable pub find_named : (List ℕ → List ℕ) → Memory → List ℕ → List ℕ → List ℕ → ℕ → ℕ → Found
find_named order m long short pieces i zero = missing pieces
find_named order m long short pieces i (suc n) =
    let a = i * 32 in
    let dropped = find_named order m long short [] (i + 1) n in
    let kept = find_named order m long short (keep_piece pieces a) (i + 1) n in
    if m a == 0
    then missing pieces
    else (if m a == 0xE5
        then dropped
        else (if is_lfn m a
            then kept
            else (if (m a == 0x2E) || is_volume_id m a
                then dropped
                else (if has_name m pieces (order pieces) a long short
                    then found a pieces
                    else dropped))))

-- FAT32_FindEntryAny walks the entries from the latest to the first.
abbrev pub latest_first : List ℕ → List ℕ
latest_first pieces = pieces

-- The others reverse them once more before.
abbrev pub first_first : List ℕ → List ℕ
first_first [] = []
first_first (a ∷ pieces) = first_first pieces ++ (a ∷ [])

-- The entry at `a` of a buffer, as a buffer of its own
abbrev pub entry_at : Memory → ℕ → Memory
entry_at m a k = m (a + k)

-- fat32_list_entry_t: the entry and its display name
abbrev pub Listed : Type 0
Listed = Memory × List ℕ

-- The blanks off the end of a name
abbrev pub without_blanks : List ℕ → List ℕ
without_blanks [] = []
without_blanks (c ∷ cs) =
    let rest = without_blanks cs in
    elim rest [ [] ↦ if c == 32 then [] else c ∷ [] | d ∷ ds ↦ c ∷ d ∷ ds ]

-- The display name of the entry at `a`
unfoldable pub display_name : Memory → List ℕ → ℕ → List ℕ
display_name m pieces a =
    if lfn_matches m pieces a
    then rebuild_lfn_name m (first_first pieces)
    else c_string (without_blanks (bytes m a 11))

-- The loop of FAT32_ListDirectory over a cluster, from entry `i` on, with `n` to go and room for `room`
-- more: what it has, the long-name entries that it keeps, and whether the array is full
unfoldable pub list_in : Memory → ℕ → List ℕ → ℕ → ℕ → List Listed × List ℕ × Bool
list_in m room pieces i zero = ([], pieces, false)
list_in m room pieces i (suc n) =
    let a = i * 32 in
    let dropped = list_in m room [] (i + 1) n in
    let kept = list_in m room (keep_piece pieces a) (i + 1) n in
    let (more, pieces', full) = list_in m (room - 1) [] (i + 1) n in
    if m a == 0
    then ([], pieces, false)
    else (if (m a == 0xE5) || (m a == 0x2E)
        then dropped
        else (if is_lfn m a
            then kept
            else (if is_volume_id m a
                then dropped
                else (if room == 0
                    then ([], pieces, true)
                    else ((entry_at m a, display_name m pieces a) ∷ more, pieces', full)))))

module _ (D : Drive) where
  -- FAT32_ListDirectory: the list, of the entries of eight clusters at most; none for NULL
  unfoldable pub list_directory : ℕ → Vol D → ℕ → Option (Option (List Listed))
  list_directory f v dir =
      let capacity = cluster_size D v / 32 * 8 in
      walk D {State = List Listed × List ℕ}
        (λ (out, pieces) c m.
          let (more, pieces', full) =
            list_in m (capacity - length out) pieces 0 (cluster_size D v / 32) in
          if full then inr (some (out ++ more)) else inl (out ++ more, pieces'))
        none none (λ (out, _) _ _. some out) f v ([], []) dir

  -- FAT32_FindEntry: the status, and the entry that is found
  unfoldable pub find_entry : ℕ → Vol D → ℕ → List ℕ → Option (ℕ × Option Memory)
  find_entry f v dir name =
      walk D {State = Unit {0}}
        (λ _ c m. elim (find_in m name 0 (cluster_size D v / 32)) [
          | some a ↦ inr (0, some (entry_at m a))
          | none ↦ inl tt
        ])
        (2, none) (3, none) (λ _ _ _. (1, none)) f v tt dir

  -- FAT32_FindEntryAny
  unfoldable pub find_entry_any : ℕ → Vol D → ℕ → List ℕ → Option (ℕ × Option Memory)
  find_entry_any f v dir name =
      let short = name_to_83 name in
      walk D {State = List ℕ}
        (λ pieces c m.
          elim (find_named latest_first m name short pieces 0 (cluster_size D v / 32)) [
            | found a _ ↦ inr (0, some (entry_at m a))
            | missing pieces' ↦ inl pieces'
          ])
        (2, none) (3, none) (λ _ _ _. (1, none)) f v [] dir
