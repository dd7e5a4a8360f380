-- ===== src/Scenario/Sec.antt =====
-- The hardened mappings of src/tsec_core.h for an image of five pages.
use trait_os.Pmm.State.{Pmm, frame_used}
use trait_os.Pmm.Bitmap.{bit_test}
use trait_os.Sec.Kaslr.{Ranges, kaslr_base, pick_base, suits, slot_base, frames_free}
use trait_os.Sec.Slots.{Chosen, kaslr_base-Chosen}
use trait_os.Base.{true, some, ℕ, ◌≤◌, ◌≡◌, refl, arith}
use trait_os.Sec.Pte.{Bounds, fill_window, pte_for_off}
use trait_os.Sec.Hardening.{present, writable, no_exec, fill_window-flags}

-- Two pages of text, one of read-only data, two of data, from the window's page 256 on.
abbrev bounds : Bounds
bounds = record {
  text_lo = 0x100000;
  text_hi = 0x102000;
  rodata_hi = 0x103000;
  image_end = 0x105000;
}

abbrev copy_base : ℕ
copy_base = 0x4000000

abbrev image_local : ℕ
image_local = 0x100000

-- The second text page, mapped read-only and executable to the copy.
text_entry : fill_window bounds copy_base image_local 257 ≡ 0x4001001
unfolding fill_window pte_for_off
text_entry = refl

fill_window-flags_example :
    (present (fill_window bounds copy_base image_local 257) ≡ 1)
    × (writable (fill_window bounds copy_base image_local 257) ≡ 0)
    × (no_exec (fill_window bounds copy_base image_local 257) ≡ 0)
    × (writable (fill_window bounds copy_base image_local 257)
        ≤ no_exec (fill_window bounds copy_base image_local 257))
fill_window-flags_example =
    fill_window-flags bounds copy_base image_local 257 (omega arith) refl (omega arith) refl

abbrev entry : ℕ
entry = fill_window bounds copy_base image_local 260

abbrev bit : ℕ
bit = 14

abbrev guard_page : ℕ
guard_page = 255

-- 128 MiB of free frames, and a module in the first slot of the window.
abbrev all_free : Pmm
all_free = record {
  bitmap = λ i. 0;
  total_frames = 0x8000;
  free_frames = 0x8000;
  first_free_hint = 0;
}

abbrev boot_ranges : Ranges
boot_ranges = record {
  image = 0x100000;
  image_end = 0x180000;
  have_mod = true;
  mod_start = 0x2000000;
  mod_end = 0x2010000;
}

kaslr_base-Chosen_example : Chosen boot_ranges all_free (kaslr_base 48 boot_ranges all_free)
kaslr_base-Chosen_example = kaslr_base-Chosen 48 boot_ranges all_free

-- The first slot is passed over.
second_slot : kaslr_base 48 boot_ranges all_free ≡ some 0x2200000
unfolding kaslr_base pick_base suits slot_base frames_free frame_used bit_test
second_slot = refl
