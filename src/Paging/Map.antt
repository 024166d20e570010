-- ===== src/Paging/Map.antt =====
-- map_page and unmap_page.
use os.Base.{ℕ, ◌+◌, ◌%◌, ◌^◌, ◌≤◌, ◌<◌, ◌≡◌, true}
use os.Pmm.{Pmm, page_size}
use os.Paging.{walk_tables, map_page, unmap_page, virt_to_phys_on}
use os.Paging.Frame.{IsAligned, Settled, Clear}
use os.Paging.Grant.{Spare}
use os.Paging.Path.{Avoids, Tables}
use os.Paging.Separate.{Separate}
use os.Paging.Found.{Found}
use os.Paging.Walk.{walk_tables-Found}
use os.Paging.Put.{map_page_lem, translated_of, Found-Settled, unchanged_of, others_of}

module _ {s : Pmm} (cr3 virt : ℕ) (t : Settled s) (sp : Spare s 4) (way : Tables s 4 cr3 virt)
    (phys flags : ℕ) where
  abbrev walked : Found s 3 cr3 virt (walk_tables 4 s cr3 virt true)
  walked = walk_tables-Found 3 virt s cr3 t sp way

  -- An address that map_page has mapped is translated to the physical page, at the same offset.
  -- Conditions: the allocator's tables are settled (memory holds bytes; the bitmaps overlap neither
  -- the table of descriptors nor each other and are no longer than their regions; the available
  -- regions are disjoint, below 2 GB each, end below 2 ^ 64, start at page boundaries other than 0,
  -- and hold none of the allocator's tables); four pages are free; and the tables on the way are at
  -- different page boundaries other than 0, in pages that are neither free nor the allocator's. The
  -- physical address is that of a page, below 2 ^ 64, and the flags are below a page's size.
  pub virt_to_phys_on-map_page :
      IsAligned phys
      → phys < 2 ^ 64
      → flags < page_size
      → virt_to_phys_on (map_page s cr3 virt phys flags).mem cr3 virt ≡ phys + virt % page_size
  virt_to_phys_on-map_page al lt small =
      rw (map_page_lem s cr3 virt phys flags) (translated_of phys flags walked al lt small).0

  -- An address that map_page has mapped and unmap_page then unmaps is not translated any more.
  -- Conditions: the allocator's tables are settled (memory holds bytes; the bitmaps overlap neither
  -- the table of descriptors nor each other and are no longer than their regions; the available
  -- regions are disjoint, below 2 GB each, end below 2 ^ 64, start at page boundaries other than 0,
  -- and hold none of the allocator's tables); four pages are free; and the tables on the way are at
  -- different page boundaries other than 0, in pages that are neither free nor the allocator's. The
  -- physical address is that of a page, below 2 ^ 64, and the flags are below a page's size.
  pub unmap_page-map_page :
      IsAligned phys
      → phys < 2 ^ 64
      → flags < page_size
      → virt_to_phys_on (unmap_page (map_page s cr3 virt phys flags) cr3 virt).mem cr3 virt ≡ 0
  unmap_page-map_page al lt small =
      rw (map_page_lem s cr3 virt phys flags) (translated_of phys flags walked al lt small).1

  -- map_page keeps the allocator's tables settled. Conditions: the allocator's tables are settled
  -- (memory holds bytes; the bitmaps overlap neither the table of descriptors nor each other and
  -- are no longer than their regions; the available regions are disjoint, below 2 GB each, end
  -- below 2 ^ 64, start at page boundaries other than 0, and hold none of the allocator's tables);
  -- four pages are free; and the tables on the way are at different page boundaries other than 0,
  -- in pages that are neither free nor the allocator's.
  pub map_page-Settled : Settled (map_page s cr3 virt phys flags)
  map_page-Settled = rw (map_page_lem s cr3 virt phys flags) (Found-Settled phys flags walked t)

  -- map_page changes no byte of a page that is neither free nor the allocator's nor one of the
  -- tables on the way. Conditions: the allocator's tables are settled (memory holds bytes; the
  -- bitmaps overlap neither the table of descriptors nor each other and are no longer than their
  -- regions; the available regions are disjoint, below 2 GB each, end below 2 ^ 64, start at page
  -- boundaries other than 0, and hold none of the allocator's tables); four pages are free; and the
  -- tables on the way are at different page boundaries other than 0, in pages that are neither free
  -- nor the allocator's. The page in question starts at a page boundary.
  pub map_page-unchanged :
      (u x : ℕ)
      → Clear s u
      → IsAligned u
      → Avoids s.mem 4 cr3 virt u
      → u ≤ x
      → x < u + page_size
      → (map_page s cr3 virt phys flags).mem x ≡ s.mem x
  map_page-unchanged = rw (map_page_lem s cr3 virt phys flags) (unchanged_of phys flags walked)

  -- map_page leaves the translation of an address of another page as it was. Conditions: the
  -- allocator's tables are settled (memory holds bytes; the bitmaps overlap neither the table of
  -- descriptors nor each other and are no longer than their regions; the available regions are
  -- disjoint, below 2 GB each, end below 2 ^ 64, start at page boundaries other than 0, and hold
  -- none of the allocator's tables); four pages are free; and the tables on the way are at
  -- different page boundaries other than 0, in pages that are neither free nor the allocator's. Up
  -- to the level where the indexes of the two addresses differ, the way has no large page; behind
  -- that level, the tables of the other address are at page boundaries, in pages that are neither
  -- free nor the allocator's and that the walk for the mapped address does not go through.
  pub virt_to_phys_on-map_page_others :
      (w : ℕ)
      → Separate s 4 cr3 virt w
      → virt_to_phys_on (map_page s cr3 virt phys flags).mem cr3 w ≡ virt_to_phys_on s.mem cr3 w
  virt_to_phys_on-map_page_others w sep =
      rw (map_page_lem s cr3 virt phys flags) (others_of phys flags w walked sep)
