-- ===== src/Sec/Kaslr.antt =====
-- src/tsec.c: the choice of the slot that `sec_kaslr_relocate` moves the kernel's image to. The random
-- number is an argument, and so are the ranges of the image and of the boot module, from their start
-- up to their end.
use trait_os.Base.{
  ℕ, zero, suc, ◌+◌, ◌-◌, ◌*◌, ◌/◌, ◌%◌, ltb, ◌==◌, if◌then◌else◌, Bool, true, false, ◌&&◌,
}
use trait_os.Base.{Option, none, some}
use trait_os.Pmm.State.{Pmm, page_size, frame_used}

abbrev pub kaslr_win_lo : ℕ
kaslr_win_lo = 0x02000000

abbrev pub kaslr_win_hi : ℕ
kaslr_win_hi = 0x08000000

abbrev pub window_size : ℕ
window_size = 2 * 1024 * 1024

abbrev pub slots : ℕ
slots = (kaslr_win_hi - kaslr_win_lo) / window_size

-- The ranges that the slot must not meet: the image, and the module if there is one.
pub record Ranges : Type 0 where
  pub image : ℕ
  pub image_end : ℕ
  pub have_mod : Bool
  pub mod_start : ℕ
  pub mod_end : ℕ

unfoldable pub slot_base : ℕ → ℕ
slot_base slot = kaslr_win_lo + slot * window_size

-- The loop over the frames of a slot, from frame `i` on.
unfoldable pub frames_free : ℕ → ℕ → ℕ → Pmm → Bool
frames_free zero i base p = true
frames_free (suc rounds) i base p =
    let later = frames_free rounds (i + 1) base p in
    if frame_used (base + i * page_size) p == 0 then later else false

-- The tests of a round, which `continue` ends.
unfoldable pub suits : Ranges → Pmm → ℕ → Bool
suits r p base =
    if r.have_mod && ltb base r.mod_end && ltb r.mod_start (base + window_size)
    then false
    else if ltb base r.image_end && ltb r.image (base + window_size)
    then false
    else frames_free (window_size / page_size) 0 base p

-- The loop from round `n` on: the base that it goes on to relocate to.
unfoldable pub pick_base : ℕ → ℕ → ℕ → Ranges → Pmm → Option ℕ
pick_base zero n start r p = none
pick_base (suc rounds) n start r p =
    let later = pick_base rounds (n + 1) start r p in
    if suits r p (slot_base ((start + n) % slots))
    then some (slot_base ((start + n) % slots))
    else later

unfoldable pub kaslr_base : ℕ → Ranges → Pmm → Option ℕ
kaslr_base entropy r p = pick_base slots 0 (entropy % slots) r p
