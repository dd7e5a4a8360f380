-- ===== src/Sec/Pte.antt =====
-- src/tsec_core.h: the bounds of the image's regions, the entry for a window offset, and the two
-- page tables that are filled with such entries. Addresses are `uintptr_t`.
use trait_os.Base.{ℕ, ◌+◌, ◌-◌, ◌*◌, ◌^◌, ◌%◌, ltb, leb, ◌==◌, if◌then◌else◌, not, ◌&&◌}
use Prim.Native.Nat.{bit_or}

abbrev pub page_present : ℕ
page_present = 0x1

abbrev pub page_write : ℕ
page_write = 0x2

abbrev pub page_nx : ℕ
page_nx = 2 ^ 63

abbrev u64 : ℕ → ℕ
u64 n = n % 2 ^ 64

-- What `tsec_region_bounds` writes through its pointers.
pub record Bounds : Type 0 where
  pub text_lo : ℕ
  pub text_hi : ℕ
  pub rodata_hi : ℕ
  pub image_end : ℕ

-- `image_local + (v - vbase) - phys_base` on 64 bits, for operands below 2^64.
abbrev pub window_offset : ℕ → ℕ → ℕ → ℕ → ℕ
window_offset vbase phys_base image_local v =
    u64 (image_local + (v + 2 ^ 64 - vbase) + 2 ^ 64 - phys_base)

unfoldable pub region_bounds : ℕ → ℕ → ℕ → ℕ → ℕ → ℕ → ℕ → Bounds
region_bounds vbase phys_base image_local kvstart etext erodata kvend = record {
  text_lo = window_offset vbase phys_base image_local kvstart;
  text_hi = window_offset vbase phys_base image_local etext;
  rodata_hi = window_offset vbase phys_base image_local erodata;
  image_end = window_offset vbase phys_base image_local kvend;
}

-- The choice of `flags`.
abbrev pub flags_of : Bounds → ℕ → ℕ
flags_of b off =
    if leb b.text_lo off && ltb off b.text_hi
    then 0
    else if leb b.text_hi off && ltb off b.rodata_hi
    then page_nx
    else bit_or page_write page_nx

-- The choice of `phys`.
abbrev pub phys_of : Bounds → ℕ → ℕ → ℕ → ℕ
phys_of b reloc_base image_local off =
    if not (reloc_base == 0) && leb image_local off && ltb off b.image_end
    then u64 (reloc_base + (off - image_local))
    else off

unfoldable pub pte_for_off : Bounds → ℕ → ℕ → ℕ → ℕ
pte_for_off b reloc_base image_local off =
    bit_or (bit_or (phys_of b reloc_base image_local off) page_present) (flags_of b off)

-- Entry `i` of the table that the loop over 512 entries fills.
unfoldable pub fill_window : Bounds → ℕ → ℕ → ℕ → ℕ
fill_window b reloc_base image_local i = pte_for_off b reloc_base image_local (i * 4096)

-- Entry `i` of the identity map with its guard page.
unfoldable pub fill_guard_pt : ℕ → ℕ → ℕ
fill_guard_pt guard i =
    let phys = i * 4096 in
    if not (guard == 0) && leb guard phys && ltb phys (u64 (guard + 4096))
    then 0
    else bit_or (bit_or (bit_or phys page_present) page_write) page_nx
