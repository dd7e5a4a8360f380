-- ===== src/Pmm/Bitmap.antt =====
-- src/tpmm.c: one bit for each 4 KiB frame of physical memory, in 32-bit words; 1 is used.
use trait_os.Base.{ℕ, ◌-◌, ◌/◌, ◌%◌, ◌^◌, ◌≤◌, ◌<◌, ◌≡◌, arith}
use trait_os.Base.{ltb, ◌==◌, if◌then◌else◌}
use Prim.Native.Nat.{bit_and, bit_or}
use trait_os.Base.Update.{update}
use trait_os.Base.Bits.{testbit, testbit-bit_or, testbit-bit_and, testbit-pow, testbit-mask}
use trait_os.Base.Bits.{testbit-le-one}

-- 4 GiB of frames.
abbrev pub max_frames : ℕ
max_frames = 2 ^ 32 / 4096

-- `bitmap`, from the index of a word to the word.
abbrev pub Bitmap : Type 0
Bitmap = ℕ → ℕ

unfoldable pub bit_set : Bitmap → ℕ → Bitmap
bit_set bm frame =
    if ltb frame max_frames
    then update bm (frame / 32) (bit_or (bm (frame / 32)) (2 ^ (frame % 32)))
    else bm

-- `~(1u << k)` is 2^32 - 1 - 2^k.
unfoldable pub bit_clear : Bitmap → ℕ → Bitmap
bit_clear bm frame =
    if ltb frame max_frames
    then update bm (frame / 32) (bit_and (bm (frame / 32)) (2 ^ 32 - 1 - 2 ^ (frame % 32)))
    else bm

unfoldable pub bit_test : Bitmap → ℕ → ℕ
bit_test bm frame = testbit (bm (frame / 32)) (frame % 32)

pub bit_test-le-one : (bm : Bitmap) (f : ℕ) → bit_test bm f ≤ 1
unfolding bit_test
bit_test-le-one bm f = testbit-le-one (bm (f / 32)) (f % 32)

same_place : (f g : ℕ) → f / 32 ≡ g / 32 → f % 32 ≡ g % 32 → f ≡ g
same_place f g p q = omega arith

-- Setting a frame's bit marks it used and no other frame.
pub bit_test-bit_set :
    (bm : Bitmap) (f g : ℕ)
    → f < max_frames
    → bit_test (bit_set bm f) g ≡ (if f == g then 1 else bit_test bm g)
unfolding bit_test bit_set
bit_test-bit_set bm f g h = ground (
  arith,
  same_place f g,
  testbit-bit_or (bm (f / 32)) (2 ^ (f % 32)) (g % 32),
  testbit-pow (f % 32) (g % 32),
  testbit-le-one (bm (g / 32)) (g % 32),
)

-- Clearing a frame's bit marks it free and no other frame.
pub bit_test-bit_clear :
    (bm : Bitmap) (f g : ℕ)
    → f < max_frames
    → bit_test (bit_clear bm f) g ≡ (if f == g then 0 else bit_test bm g)
unfolding bit_test bit_clear
bit_test-bit_clear bm f g h = ground (
  arith,
  same_place f g,
  testbit-bit_and (bm (f / 32)) (2 ^ 32 - 1 - 2 ^ (f % 32)) (g % 32),
  testbit-mask (f % 32) (g % 32) (omega arith) (omega arith),
  testbit-le-one (bm (g / 32)) (g % 32),
)
