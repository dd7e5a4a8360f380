-- ===== src/Scenario/Pmm.antt =====
-- States of the frame manager of src/tpmm.c.
use trait_os.Base.{ℕ, ◌≡◌, ◌≢◌, ◌⊎◌, refl, arith, List, [], ◌∷◌, true}
use trait_os.Base.{◌==◌, if◌then◌else◌}
use trait_os.Pmm.State.{Pmm, alloc, alloc_contig, free}
use trait_os.Base.{◌/◌, ◌%◌}
use trait_os.Base.Bits.{testbit-ones}
use trait_os.Pmm.Bitmap.{bit_test}
use trait_os.Pmm.State.{find_free, take_found, scan_run, scan_again, claim_found}
use trait_os.Pmm.Init.{MmapEntry, init}
use trait_os.Pmm.Valid.{bits, IsValid}
use trait_os.Pmm.Alloc.{Grant, alloc-Grant}
use trait_os.Pmm.Contig.{RunGrant, alloc_contig-RunGrant}
use trait_os.Pmm.RoundTrip.{free-alloc}
use trait_os.Pmm.Boot.{init-IsValid}

-- 32 frames, of which 4 to 7 are free.
abbrev memory : Pmm
memory = record {
  bitmap = λ i. if i == 0 then 0xffffff0f else 0xffffffff;
  total_frames = 32;
  free_frames = 4;
  first_free_hint = 2;
}

memory-IsValid : IsValid memory
unfolding bit_test
memory-IsValid = record {
  total_in = omega arith;
  hint_in = omega arith;
  beyond = λ f le lt. used f (omega arith);
  counted = refl;
}
  where
    used : (f : ℕ) → f / 32 ≢ 0 → bits memory f ≡ 1
    used f ne = ground (arith, testbit-ones (f % 32) (omega arith))

frame_0 : bits memory 0 ≡ 1
unfolding bit_test
frame_0 = refl

frame_4 : bits memory 4 ≡ 0
unfolding bit_test
frame_4 = refl

allocates_frame_4 : (alloc memory).0 ≡ 0x4000
unfolding alloc find_free bit_test take_found
allocates_frame_4 = refl

alloc-Grant_example : Grant memory 32 (alloc memory)
alloc-Grant_example = alloc-Grant memory 4 memory-IsValid frame_0 (omega arith) frame_4

alloc_contig-RunGrant_example :
    (alloc_contig 3 memory ≡ (0, memory)) ⊎ RunGrant memory 3 32 (alloc_contig 3 memory)
alloc_contig-RunGrant_example = alloc_contig-RunGrant memory 3 memory-IsValid frame_0 (omega arith)

grants_three : (alloc_contig 3 memory).0 ≡ 0x4000
unfolding alloc_contig scan_run scan_again claim_found bit_test
grants_three = refl

free-alloc_example :
    (bits (free (alloc memory).0 (alloc memory).1) 5 ≡ bits memory 5)
    × ((free (alloc memory).0 (alloc memory).1).free_frames ≡ 4)
    × IsValid (free (alloc memory).0 (alloc memory).1)
free-alloc_example = free-alloc memory 4 5 memory-IsValid frame_0 (omega arith) frame_4

-- A manager whose only frame is used.
abbrev exhausted : Pmm
exhausted = record {
  bitmap = λ i. 0xffffffff;
  total_frames = 1;
  free_frames = 0;
  first_free_hint = 1;
}

exhausted-IsValid : IsValid exhausted
unfolding bit_test
exhausted-IsValid = record {
  total_in = omega arith;
  hint_in = omega arith;
  beyond = λ f le lt. testbit-ones (f % 32) (omega arith);
  counted = refl;
}

abbrev memory_map : List MmapEntry
memory_map =
    record { base = 0; len = 0x9fc00; available = true }
    ∷ record { base = 0x100000; len = 0x200000; available = true }
    ∷ []

init-IsValid_example : IsValid (init memory_map 0x100000 0x180000 memory)
init-IsValid_example = init-IsValid memory_map 0x100000 0x180000 memory
