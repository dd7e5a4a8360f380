-- ===== src/Pmm/Init.antt =====
-- src/tpmm.c: `tpmm_init`, over the entries of the memory map that the boot loader passes.
use trait_os.Base.{ℕ, zero, suc, ◌+◌, ◌-◌, ◌/◌, ◌^◌, ltb, leb, ◌==◌, if◌then◌else◌, Bool}
use trait_os.Base.{List, [], ◌∷◌}
use trait_os.Pmm.Bitmap.{bit_clear, bit_test}
use trait_os.Pmm.State.{Pmm, u32, u64, page_size, reserve_region}

-- `struct mb2_mmap_entry`; `available` says that its type is `MB2_MMAP_AVAIL`.
pub record MmapEntry : Type 0 where
  pub base : ℕ
  pub len : ℕ
  pub available : Bool

-- `PMM_MAX_ADDR`
abbrev pub max_addr : ℕ
max_addr = 2 ^ 32

-- Every frame used, and none counted.
unfoldable pub all_used : Pmm → Pmm
all_used p = record p {
  bitmap = λ i. 2 ^ 32 - 1;
  total_frames = 0;
  free_frames = 0;
  first_free_hint = 0;
}

unfoldable pub free_frame : ℕ → Pmm → Pmm
free_frame f p =
    let total = if leb p.total_frames f then u32 (f + 1) else p.total_frames in
    if bit_test p.bitmap f == 0 then record p { total_frames = total } else record p {
      bitmap = bit_clear p.bitmap f;
      free_frames = u32 (p.free_frames + 1);
      total_frames = total;
    }

unfoldable pub free_run : ℕ → ℕ → Pmm → Pmm
free_run zero f p = p
free_run (suc rounds) f p = free_run rounds (f + 1) (free_frame f p)

abbrev pub first_frame : MmapEntry → ℕ
first_frame e = u32 (u64 (e.base + page_size - 1) / page_size)

abbrev pub end_frame : MmapEntry → ℕ
end_frame e =
    let stop = u64 (e.base + e.len) in
    u32 ((if ltb max_addr stop then max_addr else stop) / page_size)

unfoldable pub free_entry : MmapEntry → Pmm → Pmm
free_entry e p = if e.available then free_run (end_frame e - first_frame e) (first_frame e) p else p

unfoldable pub free_entries : List MmapEntry → Pmm → Pmm
free_entries [] p = p
free_entries (e ∷ es) p = free_entries es (free_entry e p)

-- `kernel_start` and `kernel_end` are the linker's `_kernel_phys_start` and `_kernel_phys_end`.
unfoldable pub init : List MmapEntry → ℕ → ℕ → Pmm → Pmm
init es kernel_start kernel_end p =
    reserve_region kernel_start (kernel_end - kernel_start)
      (reserve_region 0 0x100000 (free_entries es (all_used p)))
