-- ===== src/Pmm/State.antt =====
-- src/tpmm.c: the manager's state and its operations. Addresses are numbers; a frame index is a
-- `uint32_t`. The reads and writes of `bitmap` run with interrupts off.
use trait_os.Base.{ℕ, zero, suc, ◌+◌, ◌-◌, ◌*◌, ◌/◌, ◌%◌, ◌^◌, min, ltb, leb, ◌==◌, if◌then◌else◌}
use trait_os.Base.{◌&&◌, Option, none, some}
use trait_os.Pmm.Bitmap.{Bitmap, bit_set, bit_clear, bit_test}

abbrev pub page_size : ℕ
page_size = 4096

abbrev pub u32 : ℕ → ℕ
u32 n = n % 2 ^ 32

abbrev pub u64 : ℕ → ℕ
u64 n = n % 2 ^ 64

pub record Pmm : Type 0 where
  pub bitmap : Bitmap
  pub total_frames : ℕ
  pub free_frames : ℕ
  pub first_free_hint : ℕ

-- The frame of a physical address.
abbrev pub frame_of : ℕ → ℕ
frame_of phys = u32 (phys / page_size)

unfoldable pub reserve_frame : ℕ → Pmm → Pmm
reserve_frame phys p =
    let f = frame_of phys in
    let n = if bit_test p.bitmap f == 0 then u32 (p.free_frames + 2 ^ 32 - 1) else p.free_frames in
    if leb p.total_frames f then p else record p { bitmap = bit_set p.bitmap f; free_frames = n }

-- How many pages the loop `for (a = base & ~4095; a < base + size; a += 4096)` visits, for an end
-- that is not in the last page of the address space.
abbrev pub pages_of : ℕ → ℕ → ℕ
pages_of base size = (u64 (base + size) - base / page_size * page_size + page_size - 1) / page_size

unfoldable pub reserve_pages : ℕ → ℕ → Pmm → Pmm
reserve_pages zero a p = p
reserve_pages (suc n) a p = reserve_pages n (a + page_size) (reserve_frame a p)

-- `reserve_region`, and `tpmm_reserve_range`, which calls it.
unfoldable pub reserve_region : ℕ → ℕ → Pmm → Pmm
reserve_region base size p = reserve_pages (pages_of base size) (base / page_size * page_size) p

-- The first frame with a clear bit from `f` on, looking at `rounds` frames.
unfoldable pub find_free : Bitmap → ℕ → ℕ → Option ℕ
find_free bm zero f = none
find_free bm (suc rounds) f =
    let later = find_free bm rounds (f + 1) in if bit_test bm f == 0 then some f else later

abbrev pub or_else : Option ℕ → Option ℕ → Option ℕ
or_else none later = later
or_else (some f) later = some f

-- The body of each loop once a free frame is found.
unfoldable pub take_frame : ℕ → Pmm → Pmm
take_frame f p = record p {
  bitmap = bit_set p.bitmap f;
  free_frames = u32 (p.free_frames + 2 ^ 32 - 1);
  first_free_hint = u32 (f + 1);
}

unfoldable pub take_found : Option ℕ → Pmm → ℕ × Pmm
take_found none p = (0, p)
take_found (some f) p = (f * page_size, take_frame f p)

unfoldable pub alloc : Pmm → ℕ × Pmm
alloc p =
    take_found
      (or_else (find_free p.bitmap (p.total_frames - p.first_free_hint) p.first_free_hint)
        (find_free p.bitmap (min p.first_free_hint p.total_frames) 0))
      p

-- Frame 0x40000 is at 1 GiB.
abbrev pub low_frames : ℕ
low_frames = 0x40000

unfoldable pub alloc_low : Pmm → ℕ × Pmm
alloc_low p =
    take_found
      (or_else
        (find_free p.bitmap (min low_frames p.total_frames - p.first_free_hint) p.first_free_hint)
        (find_free p.bitmap (min p.first_free_hint low_frames) 0))
      p

-- A scan for a run of free frames: the run was found, or the loop ended with `run` and `start`.
pub data Scan : Type 0 where
  found : ℕ → Scan
  ended : ℕ → ℕ → Scan

unfoldable pub scan_run : Bitmap → ℕ → ℕ → ℕ → ℕ → ℕ → Scan
scan_run bm pages zero f run start = ended run start
scan_run bm pages (suc rounds) f run start =
    let is_free = bit_test bm f == 0 in
    let start' = if is_free && run == 0 then f else start in
    let run' = if is_free then u32 (run + 1) else 0 in
    let later = scan_run bm pages rounds (f + 1) run' start' in
    if is_free && run' == pages then found start' else later

-- The loop at `found:`.
unfoldable pub claim : ℕ → ℕ → Pmm → Pmm
claim zero f p = p
claim (suc pages) f p =
    claim pages (f + 1) (record p {
      bitmap = bit_set p.bitmap (u32 f);
      free_frames = u32 (p.free_frames + 2 ^ 32 - 1);
    })

-- The second loop goes on with the `run` and `start` of the first.
unfoldable pub claim_found : ℕ → Scan → Pmm → ℕ × Pmm
claim_found pages (ended run start) p = (0, p)
claim_found pages (found start) p =
    (start * page_size, record (claim pages start p) { first_free_hint = u32 (start + pages) })

unfoldable pub scan_again : Bitmap → ℕ → ℕ → Scan → Scan
scan_again bm pages rounds (found start) = found start
scan_again bm pages rounds (ended run start) = scan_run bm pages rounds 0 run start

unfoldable pub alloc_contig : ℕ → Pmm → ℕ × Pmm
alloc_contig pages p =
    let hint = p.first_free_hint in
    claim_found pages
      (scan_again p.bitmap pages hint (scan_run p.bitmap pages (p.total_frames - hint) hint 0 0)) p

unfoldable pub alloc_low_contig : ℕ → Pmm → ℕ × Pmm
alloc_low_contig pages p =
    let hint = p.first_free_hint in
    let cap = min low_frames p.total_frames in
    if pages == 0
    then (0, p)
    else if ltb cap pages
    then (0, p)
    else claim_found pages
        (scan_again p.bitmap pages (min hint cap) (scan_run p.bitmap pages (cap - hint) hint 0 0)) p

-- Clearing the bit of a used frame, with the hint moved down to it.
unfoldable pub give_back : ℕ → Pmm → Pmm
give_back f p = if bit_test p.bitmap f == 0 then p else record p {
  bitmap = bit_clear p.bitmap f;
  free_frames = u32 (p.free_frames + 1);
  first_free_hint = if ltb f p.first_free_hint then f else p.first_free_hint;
}

unfoldable pub free : ℕ → Pmm → Pmm
free phys p = let f = frame_of phys in if leb p.total_frames f then p else give_back f p

-- The loop stops at the first frame that is not below `total_frames`.
unfoldable pub release_pages : ℕ → ℕ → Pmm → Pmm
release_pages zero a p = p
release_pages (suc n) a p =
    let rest = release_pages n (a + page_size) (give_back (frame_of a) p) in
    if leb p.total_frames (frame_of a) then p else rest

unfoldable pub release_range : ℕ → ℕ → Pmm → Pmm
release_range base size p = release_pages (pages_of base size) (base / page_size * page_size) p

unfoldable pub used_frames : Pmm → ℕ
used_frames p = u32 (p.total_frames + 2 ^ 32 - p.free_frames)

unfoldable pub frame_used : ℕ → Pmm → ℕ
frame_used phys p = bit_test p.bitmap (frame_of phys)

unfoldable pub total_mem : Pmm → ℕ
total_mem p = p.total_frames * page_size

unfoldable pub available_mem : Pmm → ℕ
available_mem p = p.free_frames * page_size

-- `tpmm_free_frames`
unfoldable pub free_count : Pmm → ℕ
free_count p = p.free_frames
