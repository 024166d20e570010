-- ===== src/Lib.antt =====
-- A verification library for the OS003 kernel.
--
-- The kernel is freestanding C for x86_64. Its physical page allocator (Kernel/mm/pmm.c) keeps a
-- table of memory regions, read from the firmware's map (Kernel/mm/EfiMemDesc.c), with a bitmap
-- (Kernel/mm/bitmap.c) for the pages of each available region. The page tables (Kernel/mm/paging.c)
-- are made of its pages, and the virtual memory manager (Kernel/mm/vmm.c) maps its pages through them.
-- The threads (Kernel/kernel/Thread.c) are control blocks, each on a page of its own, that stand in
-- linked queues: the ready queue, the sleep queue, and the queues of the mutexes and semaphores. The
-- scheduler wakes the sleepers and takes the next thread from the ready queue. The FAT32 file system (Kernel/fs/fat32.c) keeps files and
-- directories in chains of clusters over the sectors of a drive.
--
-- Files and the code they model:
--   Base           shared names; Base.Memory is byte-addressed memory with little-endian loads and
--                  stores, memset and memcpy (Kernel/lib/kstring.c)
--   Bitmap         Kernel/mm/bitmap.c: BitmapBitSize, BitmapGetBit, BitmapInit, BitmapAllocBits
--                  (scan is its inner loop, alloc_loop its outer loop), BitmapSetBits
--   MemoryMap      Kernel/mm/EfiMemDesc.c: CheckMemoryMap, IsMemoryAvailable, AnalysisMemoryMap,
--                  FindLargestAvailableBlock
--   Pmm            Kernel/mm/pmm.c: Init_Physical_Memory_Manager (init_round is a round of its
--                  loop), GetMemoryTotalSize, Pmm_Malloc, Pmm_Free
--   Paging         Kernel/mm/paging.c: malloc_page, walk_page_table (walk_entry is a round of its loop,
--                  new_table what it does for a missing table), map_page, unmap_page, virt_to_phys_on
--                  (lookup_tables), copy_pml4_entries, copy_kernel_pml4_entries, init_paging,
--                  make_phys_writable (make_writable), replace_identity_pdpt (widen is its loop)
--   Vmm            Kernel/mm/vmm.c: vmm_map_range, Init_Virtual_Memory_Manager and
--                  Init_User_Virtual_Memory_Manager (init_manager is both),
--                  Switch_Virtual_Mamanager, Vmm_Malloc (alloc_pages and use_pages are its parts), Vmm_Free (release_pages is its loop), and the loop of
--                  KillThread (Kernel/kernel/Thread.c) over the records of allocations
--   Queue          Kernel/kernel/Thread.c: the thread control block, and the ready, sleep and wait
--                  queues (enqueue is sleep_enqueue, ready_enqueue is thread_enqueue, dequeue the
--                  four dequeueing functions, remove is remove_from_sleep_queue)
--   Thread         Kernel/kernel/Thread.c: wake_sleeping_threads (wake_loop is its loop), schedule up
--                  to the switch (requeue_current, pick_next and switch_thread are its parts),
--                  ThreadSleepMS and ThreadSleepSecond
--   Lock           Kernel/kernel/Thread.c: the mutex and the semaphore (block_current and wake_waiter
--                  are the parts that their functions share; lock_round and wait_round are rounds
--                  of the loops of mutex_lock and sem_wait). Lock.Exclusion has the steps that
--                  threads take on a mutex, with the phase of each thread
--   KString        Kernel/lib/kstring.c: itoa_hex, itoa_dec and utoa_dec (digits is the loop that
--                  fills the array of digits, write the one that copies it to the buffer), and
--                  strlen, memcmp, strcmp (differs is its loop), strncmp
--   Keyboard       Kernel/drives/Keyboard.c, irq_1 of Kernel/kernel/pic.c: the translation of scan
--                  codes (_getkey_noblock), and the ring of keys (push is the part of irq_1 that
--                  keeps a key, get_key is GetKey_NoBlock)
--   Clock          Kernel/kernel/Time.c: get_rtc_time, with the registers of the clock as a parameter
--   Disk           what the file system uses of Kernel/drives/ata.c: a drive is a parameter
--   Fat32          Kernel/fs/fat32.c: FAT32_GetInfo, the clusters (FAT32_NextCluster,
--                  FAT32_ReadCluster, FAT32_WriteCluster), the table (FAT32_WriteFATEntry,
--                  FAT32_AllocCluster, FAT32_FreeClusterChain)
--   Directory      Kernel/fs/fat32.c: directory entries, short and long names, FAT32_FindEntry,
--                  FAT32_FindEntryAny, FAT32_ListDirectory
--   FatFile        Kernel/fs/fat32.c: FAT32_ReadFile, FAT32_WriteDirEntry, FAT32_WriteFile,
--                  FAT32_AppendFile
--   FatDir         Kernel/fs/fat32.c: make_lfn_entries, FAT32_CreateFile, FAT32_CreateDir,
--                  FAT32_RenameFile, FAT32_RemoveDir, FAT32_DeleteFile
--
-- Pointers are numbers and NULL is 0. Objects that the code reaches through pointers lie in one
-- memory, a function from addresses to bytes, and no object goes round the end of the address space.
-- Loops over a table or a counted range are recursions on the rounds left. The outer loop of
-- BitmapAllocBits runs on as many rounds as the bitmap has bits, which is enough because each round
-- moves on by a bit at least.
-- A walk through a queue of threads, and one through a string, is a recursion on fuel: the theorems
-- show that as many steps as there are threads or characters are enough. The loops that make digits
-- run 64 rounds, more than the digits of a 64-bit number. A loop along a chain of clusters is a recursion
-- on fuel that gives `none` when the fuel runs out; a chain that goes round in a circle is followed for
-- ever, and the theorems show that as many rounds as a chain has clusters are enough. A drive is a
-- parameter: theorems about the sectors take the laws of a drive that works (IsDrive), and Disk.Tests
-- has such a drive. A page table is reached at its physical address, as under the identity mapping of
-- the kernel; a table has four levels, and the walks go down them.
-- Not modelled: what a thread does behind a switch, the making and the ending of threads, the spinlock,
-- the files of fs.c, the partition table, the descriptor tables and system calls, and split_huge_page,
-- which nothing calls. Screen output, the ports and the drivers on them, the shell and the boot loader are left
-- out because they only move data to and from devices and the firmware.
pub mod Base
pub mod Bitmap
pub mod MemoryMap
pub mod Pmm
pub mod Paging
pub mod Vmm
pub mod Queue
pub mod Thread
pub mod Lock
pub mod KString
pub mod Keyboard
pub mod Clock
pub mod Disk
pub mod Fat32
pub mod Directory
pub mod FatFile
pub mod FatDir
