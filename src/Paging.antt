-- ===== src/Paging.antt =====
-- Kernel/mm/paging.c: the page tables. They lie in the memory of the page allocator, which the code
-- reaches at the same addresses. A table is its address and has 512 entries of eight bytes; the level
-- of a table is counted from below, so that the last one, with the entries of pages, has level 0. The
-- register CR3 is an argument, and invlpg changes nothing that is modelled.
pub mod Frame
pub mod Grant
pub mod Fresh
pub mod Entry
pub mod Path
pub mod Separate
pub mod Found
pub mod Follow
pub mod Walk
pub mod Translate
pub mod Put
pub mod Map
pub mod Widen
pub mod Identity
pub mod Raise
pub mod Writable
pub mod Fixtures
mod Tests
use os.Base.{
  ℕ, zero, suc, ◌+◌, ◌-◌, ◌*◌, ◌/◌, ◌%◌, ◌^◌, Bool, true, false, not, ◌&&◌, ◌||◌, ◌==◌,
  if◌then◌else◌, u64, bit_or,
}
use os.Base.Memory.{Memory, load, store, fill}
use os.Pmm
use os.Pmm.{Pmm, page_size}

-- Is the entry present, is it a large page, may it be written?
abbrev pub present : ℕ → Bool
present e = e % 2 == 1

abbrev pub huge : ℕ → Bool
huge e = e / 2 ^ 7 % 2 == 1

abbrev pub writable : ℕ → Bool
writable e = e / 2 % 2 == 1

-- `e & PAGE_MASK`, which keeps the highest bits too
abbrev pub page_mask : ℕ → ℕ
page_mask e = e / page_size * page_size

-- PML4_INDEX, PDPT_INDEX, PD_INDEX and PT_INDEX are those of the levels 3, 2, 1 and 0.
abbrev pub index : ℕ → ℕ → ℕ
index level vaddr = vaddr / 2 ^ (12 + 9 * level) % 512

-- The address of entry `i`
abbrev pub slot : ℕ → ℕ → ℕ
slot table i = table + i * 8

abbrev pub read_pte : Memory → ℕ → ℕ
read_pte m a = load m a 8

abbrev pub write_pte : Memory → ℕ → ℕ → Memory
write_pte m a e = store m a 8 e

unfoldable pub malloc_page : Pmm → ℕ × Pmm
malloc_page s =
    let (addr, s') = Pmm.malloc s 1 in (addr, record s' { mem = fill s'.mem addr 0 page_size })

-- walk_page_table puts a new table into the entry at `a`: did it get one, and the state.
unfoldable pub new_table : Pmm → ℕ → Bool × Pmm
new_table s a =
    let (page, s') = malloc_page s in
    if page == 0
    then (false, s')
    else (true, record s' { mem = write_pte s'.mem a (bit_or page 7) })

-- It does so where an entry will not do, if it may create tables.
unfoldable pub replace : Pmm → ℕ → Bool → Bool → Bool × Pmm
replace s a create wrong =
    if wrong then (if create then new_table s a else (false, s)) else (true, s)

-- A round at the entry at `a` of a table of a level
unfoldable pub walk_entry : Pmm → ℕ → ℕ → Bool → Bool × Pmm
walk_entry s level a create =
    let (made, s1) = replace s a create (not (present (read_pte s.mem a))) in
    let again = replace s1 a create (not (level == 0) && huge (read_pte s1.mem a)) in
    if made then again else (false, s1)

-- walk_page_table from a table on, with `n` levels to go: the address of the last entry, 0 for NULL
unfoldable pub walk_tables : ℕ → Pmm → ℕ → ℕ → Bool → ℕ × Pmm
walk_tables zero s table vaddr create = (0, s)
walk_tables (suc level) s table vaddr create =
    let a = slot table (index level vaddr) in
    let s' = (walk_entry s level a create).1 in
    elim (walk_entry s level a create).0 [
      | false ↦ (0, s')
      | true ↦ elim (level == 0) [
        | true ↦ (a, s')
        | false ↦ walk_tables level s' (page_mask (read_pte s'.mem a)) vaddr create
      ]
    ]

unfoldable pub walk_page_table : Pmm → ℕ → ℕ → Bool → ℕ × Pmm
walk_page_table s pml4 vaddr create = walk_tables 4 s pml4 vaddr create

unfoldable pub map_page : Pmm → ℕ → ℕ → ℕ → ℕ → Pmm
map_page s cr3 virt phys flags =
    let (a, s') = walk_page_table s cr3 virt true in
    if a == 0 then s' else record s' { mem = write_pte s'.mem a (bit_or (bit_or phys flags) 1) }

unfoldable pub unmap_page : Pmm → ℕ → ℕ → Pmm
unmap_page s cr3 virt =
    let (a, s') = walk_page_table s cr3 virt false in
    if a == 0
    then s'
    else (if present (read_pte s'.mem a) then record s' { mem = write_pte s'.mem a 0 } else s')

-- virt_to_phys_on from a table on, with `n` levels to go
unfoldable pub lookup_tables : ℕ → Memory → ℕ → ℕ → ℕ
lookup_tables zero m table vaddr = 0
lookup_tables (suc level) m table vaddr =
    let e = read_pte m (slot table (index level vaddr)) in
    let deeper = lookup_tables level m (page_mask e) vaddr in
    if not (present e)
    then 0
    else (if (level == 0) || huge e
        then u64 (page_mask e + vaddr % 2 ^ (12 + 9 * level))
        else deeper)

unfoldable pub virt_to_phys_on : Memory → ℕ → ℕ → ℕ
virt_to_phys_on m pml4 vaddr = lookup_tables 4 m pml4 vaddr

-- Entries from `i` on, `n` of them, are copied.
unfoldable pub copy_entries : Memory → ℕ → ℕ → ℕ → ℕ → Memory
copy_entries m dest src i zero = m
copy_entries m dest src i (suc n) =
    copy_entries (write_pte m (slot dest i) (read_pte m (slot src i))) dest src (i + 1) n

-- copy_pml4_entries, from UEFI_PML4
unfoldable pub copy_pml4_entries : Memory → ℕ → ℕ → ℕ → Memory
copy_pml4_entries m uefi_pml4 dest n = copy_entries m dest uefi_pml4 0 n

-- copy_kernel_pml4_entries, from the table of the current manager or else UEFI_PML4
unfoldable pub copy_kernel_pml4_entries : Memory → ℕ → ℕ → Memory
copy_kernel_pml4_entries m src dest =
    copy_entries (write_pte m dest (bit_or (read_pte m src) 6)) dest src 256 256

-- init_paging: CR3 and the state
unfoldable pub init_paging : Pmm → ℕ → ℕ → ℕ × Pmm
init_paging s cr3 uefi_pml4 =
    let (new, s') = malloc_page s in
    if new == 0
    then (cr3, s')
    else (new, record s' { mem = copy_pml4_entries s'.mem uefi_pml4 new 512 })

-- make_phys_writable from a table on, with `n` levels to go; an entry of the first table is not taken
-- for a large page.
unfoldable pub make_writable : ℕ → Memory → ℕ → ℕ → Memory
make_writable zero m table vaddr = m
make_writable (suc level) m table vaddr =
    let a = slot table (index level vaddr) in
    let e = read_pte m a in
    let m' = if writable e then m else write_pte m a (bit_or e 2) in
    let deeper = make_writable level m' (page_mask e) vaddr in
    if not (present e)
    then m
    else (if (level == 0) || ((not (level == 3)) && huge e)
        then write_pte m a (bit_or e 2)
        else deeper)

unfoldable pub make_phys_writable : Memory → ℕ → ℕ → Memory
make_phys_writable m cr3 phys = make_writable 4 m cr3 phys

-- The loop of replace_identity_pdpt, at entry `i` with `n` to go
unfoldable pub widen : Memory → ℕ → ℕ → ℕ → ℕ → Memory
widen m old new i zero = m
widen m old new i (suc n) =
    let e = read_pte m (slot old i) in
    let whole = if huge e then bit_or e 2 else bit_or (i * 2 ^ 30) 0xA3 in
    widen (if present e then write_pte m (slot new i) whole else m) old new (i + 1) n

unfoldable pub replace_identity_pdpt : Pmm → ℕ → Pmm
replace_identity_pdpt s pml4 =
    let e = read_pte s.mem pml4 in
    let (new, s') = malloc_page s in
    let m = widen s'.mem (page_mask e) new 0 512 in
    if present e
    then record s' { mem = write_pte m pml4 (bit_or (bit_or new (e % page_size)) 2) }
    else s
