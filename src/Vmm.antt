-- ===== src/Vmm.antt =====
-- Kernel/mm/vmm.c: the virtual memory manager, and what KillThread (Kernel/kernel/Thread.c) does with
-- it. The record of a manager (VMM_T) and its descriptor are objects of their own, each on a page that
-- nothing else uses; the records of allocations lie in memory at `alloc_record`. CR3 is
-- part of the state, and the state of Vmm_Malloc and Vmm_Free has a current manager.
pub mod Marks
pub mod Held
pub mod Rollback
pub mod Records
mod Tests
use os.Base.{
  ℕ, zero, suc, ◌+◌, ◌-◌, ◌*◌, ◌/◌, ◌^◌, Bool, true, false, Option, none, some, List, [], ◌∷◌, ◌++◌,
  not, ◌||◌, ltb, ◌==◌, if◌then◌else◌, u32, u64, ◌⊎◌, inl, inr,
}
use os.Base.Memory.{Memory, load, store, fill}
use os.Pmm
use os.Pmm.{Pmm, page_size}
use os.Paging.{
  map_page, unmap_page, virt_to_phys_on, copy_pml4_entries, copy_kernel_pml4_entries,
  replace_identity_pdpt,
}

abbrev pub kernel_virtual_memory_start : ℕ
kernel_virtual_memory_start = 0xFFFF800000000000

abbrev pub kernel_virtual_memory_end : ℕ
kernel_virtual_memory_end = 0xFFFFFFFFFFFF0000

abbrev pub user_virtual_memory_start : ℕ
user_virtual_memory_start = 0x100000000

abbrev pub user_virtual_memory_end : ℕ
user_virtual_memory_end = 0x7FFFFFFFFFFF

-- VMM_DESCRIPTOR
pub record VmmDescriptor : Type 0 where
  pub address : ℕ
  pub page_size : ℕ
  pub bytes : ℕ

-- VMM_T, with the descriptor that it points to
pub record Vmm : Type 0 where
  pub flag : ℕ
  pub descriptor : ℕ
  pub desc : VmmDescriptor
  pub pml4 : ℕ
  pub alloc_record : ℕ
  pub alloc_record_num : ℕ
  pub is_user : Bool

-- The allocator, CR3, the current manager and VMM_ERRORCODE
pub record VmmState : Type 0 where
  pub pmm : Pmm
  pub cr3 : ℕ
  pub current : Vmm
  pub error_code : ℕ

-- A difference of two 64-bit numbers
abbrev pub sub64 : ℕ → ℕ → ℕ
sub64 a b = u64 (a + (2 ^ 64 - b))

-- `(size + PAGE_SIZE - 1) / PAGE_SIZE`
abbrev pub pages_of : ℕ → ℕ
pages_of size = u64 (size + page_size - 1) / page_size

abbrev pub virt_start : Vmm → ℕ
virt_start v = if v.is_user then user_virtual_memory_start else kernel_virtual_memory_start

abbrev pub virt_end : Vmm → ℕ
virt_end v = if v.is_user then user_virtual_memory_end else kernel_virtual_memory_end

-- The tables of a new manager, in the page at `pml4`: `uefi_pml4` is the firmware's, `src` the current
-- manager's or else the firmware's.
unfoldable pub new_tables : Pmm → Bool → ℕ → ℕ → ℕ → Pmm
new_tables s is_user uefi_pml4 src pml4 =
    let m = fill s.mem pml4 0 page_size in
    replace_identity_pdpt
      (record s {
        mem =
            if is_user
            then copy_kernel_pml4_entries m src pml4
            else copy_pml4_entries m uefi_pml4 pml4 512;
      })
      pml4

-- Init_Virtual_Memory_Manager and Init_User_Virtual_Memory_Manager: the address of the manager and what
-- it holds, or the code of the error, and the state
unfoldable pub init_manager : Pmm → Bool → ℕ → ℕ → ℕ → (ℕ ⊎ (ℕ × Vmm)) × Pmm
init_manager s is_user flag uefi_pml4 src =
    let start = if is_user then user_virtual_memory_start else kernel_virtual_memory_start in
    let (vmm, s1) = Pmm.malloc s 1 in
    let (pml4, s2) = Pmm.malloc (record s1 { mem = fill s1.mem vmm 0 page_size }) 1 in
    let (desc_phys, s3) = Pmm.malloc (new_tables s2 is_user uefi_pml4 src pml4) 1 in
    if vmm == 0
    then (inl 1, s1)
    else (if pml4 == 0
        then (inl 2, Pmm.free s2 vmm 1)
        else (if desc_phys == 0 then (inl 3, Pmm.free (Pmm.free s3 vmm 1) pml4 1) else (
          inr (
            vmm,
            record {
              flag = flag;
              descriptor = start;
              desc = record { address = start + page_size; page_size = 0; bytes = 0 };
              pml4 = pml4;
              alloc_record = 0;
              alloc_record_num = 0;
              is_user = is_user;
            },
          ),
          map_page (record s3 { mem = fill s3.mem desc_phys 0 page_size }) pml4 start desc_phys
              flag,
        )))

-- vmm_map_range: did it map all the pages, and the state
unfoldable pub vmm_map_range : Pmm → ℕ → ℕ → List ℕ → ℕ → Bool × Pmm
vmm_map_range s cr3 virt [] flags = (true, s)
vmm_map_range s cr3 virt (phys ∷ pages) flags =
    let rest =
      vmm_map_range (map_page s cr3 virt phys flags) cr3 (u64 (virt + page_size)) pages flags in
    if phys == 0 then (false, s) else rest

-- Pmm_Free of each page of a list
unfoldable pub free_pages : Pmm → List ℕ → Pmm
free_pages s [] = s
free_pages s (phys ∷ pages) = free_pages (Pmm.free s phys 1) pages

-- The loop of Vmm_Malloc that gets `n` more pages, with the pages so far: `none` for the error, with
-- those pages given back
unfoldable pub alloc_pages : ℕ → Pmm → List ℕ → Option (List ℕ) × Pmm
alloc_pages zero s got = (some got, s)
alloc_pages (suc n) s got =
    let (page, s') = Pmm.malloc s 1 in
    let rest = alloc_pages n s' (got ++ (page ∷ [])) in
    if page == 0 then (none, free_pages s' got) else rest

-- The record that Vmm_Malloc keeps of an allocation
unfoldable pub store_record : Memory → Vmm → ℕ → ℕ → Memory
store_record m v virt bytes =
    let a = v.alloc_record + v.alloc_record_num * 16 in store (store m a 8 virt) (a + 8) 8 bytes

-- What Vmm_Malloc does with its pages: the address, 0 for NULL, and the state
unfoldable pub use_pages : VmmState → ℕ → Option (List ℕ) × Pmm → ℕ × VmmState
use_pages st pages (none, s) = (0, record st { pmm = s; error_code = 3 })
use_pages st pages (some got, s) =
    let v = st.current in
    let virt = v.desc.address in
    let alloc_bytes = u64 (pages * page_size) in
    let (mapped, s') = vmm_map_range s st.cr3 virt got v.flag in
    if not mapped then (0, record st { pmm = free_pages s' got }) else (
      virt,
      record st {
        pmm = record s' { mem = store_record s'.mem v virt alloc_bytes };
        current = record v {
          desc = record {
            address = u64 (virt + alloc_bytes);
            page_size = u64 (v.desc.page_size + pages);
            bytes = u64 (v.desc.bytes + alloc_bytes);
          };
          alloc_record_num = u32 (v.alloc_record_num + 1);
        };
        error_code = 0;
      },
    )

unfoldable pub vmm_malloc : VmmState → ℕ → ℕ × VmmState
vmm_malloc st size =
    let pages = pages_of size in
    let v = st.current in
    if size == 0
    then (0, st)
    else (if v.descriptor == 0
        then (0, record st { error_code = 1 })
        else (if ltb (virt_end v) (u64 (v.desc.address + u64 (pages * page_size)))
            then (0, record st { error_code = 2 })
            else use_pages st pages (alloc_pages pages st.pmm [])))

-- The loop of Vmm_Free, at an address with `n` pages to go
unfoldable pub release_pages : ℕ → Pmm → ℕ → ℕ → Pmm
release_pages zero s cr3 vaddr = s
release_pages (suc n) s cr3 vaddr =
    let phys = virt_to_phys_on s.mem cr3 vaddr in
    let s' = if phys == 0 then s else Pmm.free (unmap_page s cr3 vaddr) phys 1 in
    release_pages n s' cr3 (u64 (vaddr + page_size))

-- Does Vmm_Free take the address?
abbrev pub accepts : Vmm → ℕ → Bool
accepts v vaddr = not (ltb vaddr (virt_start v + page_size) || ltb v.desc.address vaddr)

unfoldable pub vmm_free : VmmState → ℕ → ℕ → VmmState
vmm_free st virt size =
    let pages = pages_of size in
    let v = st.current in
    if (virt == 0) || (size == 0)
    then st
    else (if not (accepts v virt) then record st { error_code = 1 } else record st {
      pmm = release_pages pages st.pmm st.cr3 virt;
      current = record v {
        desc = record {
          address = v.desc.address;
          page_size = sub64 v.desc.page_size pages;
          bytes = sub64 v.desc.bytes (u64 (pages * page_size));
        };
        alloc_record_num = u32 (v.alloc_record_num + (2 ^ 32 - 1));
      };
      error_code = 0;
    })

-- The address and the size of record `i`
abbrev pub record_address : VmmState → ℕ → ℕ
record_address st i = load st.pmm.mem (st.current.alloc_record + i * 16) 8

abbrev pub record_size : VmmState → ℕ → ℕ
record_size st i = load st.pmm.mem (st.current.alloc_record + i * 16 + 8) 8

-- The loop of KillThread over the records, at record `i`, for `fuel` rounds at most
unfoldable pub release_records : ℕ → VmmState → ℕ → VmmState
release_records zero st i = st
release_records (suc fuel) st i =
    let rest =
      release_records fuel (vmm_free st (record_address st i) (record_size st i)) (i + 1) in
    if ltb i st.current.alloc_record_num then rest else st

-- Get_Current_VMM_CR3, and what Switch_Virtual_Mamanager returns: a manager stands at an address.
unfoldable pub get_current_vmm_cr3 : Option (ℕ × Vmm) → ℕ → ℕ
get_current_vmm_cr3 none cr3 = cr3
get_current_vmm_cr3 (some (_, v)) cr3 = v.pml4

unfoldable pub old_manager : Option (ℕ × Vmm) → ℕ → ℕ
old_manager none cr3 = cr3
old_manager (some (a, _)) cr3 = a

-- Switch_Virtual_Mamanager: the old manager, the current one, CR3 and VMM_ERRORCODE. 0 is an error.
unfoldable pub switch_virtual_mamanager :
    Option (ℕ × Vmm) → ℕ → Option (ℕ × Vmm) → ℕ × Option (ℕ × Vmm) × ℕ × ℕ
switch_virtual_mamanager current cr3 none = (0, current, cr3, 10)
switch_virtual_mamanager current cr3 (some (a, v)) =
    (old_manager current cr3, some (a, v), v.pml4, 0)
