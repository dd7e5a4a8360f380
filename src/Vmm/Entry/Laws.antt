-- ===== src/Vmm/Entry/Laws.antt =====
-- What the masks of src/tvmm.c keep: the address and the flags of an entry do not disturb each
-- other.
use trait_os.Base.{ℕ, ◌+◌, ◌-◌, ◌*◌, ◌^◌, ◌<◌, ◌≡◌, ◌≢◌, refl, ap, ◌∙◌, arith}
use trait_os.Base.{true, false, if◌then◌else◌, ltb, min}
use native.Mathlib.Decide.{dec_lt}
use Prim.Native.Nat.{bit_and, bit_or, max}
use trait_os.Base.Bits.{
  testbit, testbit-bit_and, testbit-bit_or, testbit-zero, testbit-le-one, testbit-pow,
}
use trait_os.Base.Masks.{testbit-ext, testbit-above, testbit-below, testbit-shift, testbit-row}
use trait_os.Base.{◌%◌}
use trait_os.Vmm.Entry.{grants}
use trait_os.Vmm.Entry.{
  page_present, page_write, page_user, addr_mask, addr_of, present, huge, table_entry, page_entry,
}

bit_or-zero : (a : ℕ) → bit_or a 0 ≡ a
bit_or-zero a = testbit-ext _ a (λ k. omega (arith, testbit-bit_or a 0 k, testbit-zero k))

addr_of-bit_or : (a b : ℕ) → addr_of (bit_or a b) ≡ bit_or (addr_of a) (addr_of b)
unfolding addr_of
addr_of-bit_or a b = testbit-ext _ _ (λ k. omega (
  arith,
  testbit-bit_and (bit_or a b) addr_mask k,
  testbit-bit_or a b k,
  testbit-bit_or (bit_and a addr_mask) (bit_and b addr_mask) k,
  testbit-bit_and a addr_mask k,
  testbit-bit_and b addr_mask k,
))

-- Or-ing flags, which have no bit of the address, leaves the address.
pub addr_of-flags : (a f : ℕ) → addr_of f ≡ 0 → addr_of (bit_or a f) ≡ addr_of a
addr_of-flags a f h = addr_of-bit_or a f ∙ ap (bit_or (addr_of a)) h ∙ bit_or-zero (addr_of a)

pub addr_of-addr_of : (a : ℕ) → addr_of (addr_of a) ≡ addr_of a
unfolding addr_of
addr_of-addr_of a = testbit-ext _ _ (λ k.
    omega (arith, testbit-bit_and (bit_and a addr_mask) addr_mask k, testbit-bit_and a addr_mask k))

mask_bit : (k : ℕ) → testbit addr_mask (12 + k) ≡ (if ltb k 40 then 1 else 0)
mask_bit k = testbit-shift 12 (2 ^ 40 - 1) k ∙ testbit-row 40 k

frame_bits :
    (f k : ℕ)
    → f * 4096 < 2 ^ 52
    → min (testbit (f * 4096) k) (testbit addr_mask k) ≡ testbit (f * 4096) k
frame_bits f k h = elim (dec_lt k 12) [
  | yes low ↦ omega (arith, testbit-below 12 f k low)
  | no high ↦ elim (dec_lt k 52) [
    | yes mid ↦
        let at : k ≡ 12 + (k - 12) = omega arith in
        ground (arith, ap (testbit addr_mask) at, mask_bit (k - 12), testbit-le-one (f * 4096) k)
    | no top ↦ omega (arith, testbit-above 52 (f * 4096) k h (omega arith))
  ]
]

-- The address of a frame below 2^52 has no other bits.
pub addr_of-frame : (f : ℕ) → f * 4096 < 2 ^ 52 → addr_of (f * 4096) ≡ f * 4096
unfolding addr_of
addr_of-frame f h =
    testbit-ext _ _ (λ k. omega (arith, frame_bits f k h, testbit-bit_and (f * 4096) addr_mask k))

-- Bit `k` of a word, tested with a mask.
pub flag-set : (k e : ℕ) → testbit e k ≡ 1 → bit_and e (2 ^ k) ≢ 0
flag-set k e h z =
    ground
      (arith, testbit-bit_and e (2 ^ k) k, testbit-pow k k, ap (λ n. testbit n k) z, testbit-zero k)

pub flag-clear : (k e : ℕ) → testbit e k ≡ 0 → bit_and e (2 ^ k) ≡ 0
flag-clear k e h = testbit-ext _ 0 (λ j.
    ground (
      arith,
      testbit-bit_and e (2 ^ k) j,
      testbit-pow k j,
      testbit-le-one (2 ^ k) j,
      testbit-zero j,
    ))

pub present-zero : present 0 ≡ false
unfolding present
present-zero = refl

pub huge-zero : huge 0 ≡ false
unfolding huge
huge-zero = refl

pub present-page_entry : (phys flags : ℕ) → present (page_entry phys flags) ≡ true
unfolding present page_entry
present-page_entry phys flags = ground (
  arith,
  flag-set 0 (bit_or (bit_or (addr_of phys) flags) page_present) (
      omega (
        arith,
        testbit-bit_or (bit_or (addr_of phys) flags) page_present 0,
        testbit-le-one (bit_or (addr_of phys) flags) 0,
      )),
)

pub addr_of-page_entry :
    (phys flags : ℕ) → addr_of flags ≡ 0 → addr_of (page_entry phys flags) ≡ addr_of phys
unfolding page_entry addr_of
addr_of-page_entry phys flags h =
    addr_of-flags (bit_or (addr_of phys) flags) page_present refl
    ∙ addr_of-flags (addr_of phys) flags h
    ∙ addr_of-addr_of phys

user_flag : (flags : ℕ) → addr_of (bit_and flags page_user) ≡ 0
unfolding addr_of
user_flag flags = testbit-ext _ 0 (λ k. ground (
  arith,
  testbit-bit_and (bit_and flags page_user) addr_mask k,
  testbit-bit_and flags page_user k,
  testbit-bit_and page_user addr_mask k,
  testbit-zero k,
))

pub addr_of-table_entry :
    (f flags : ℕ) → f * 4096 < 2 ^ 52 → addr_of (table_entry (f * 4096) flags) ≡ f * 4096
unfolding table_entry addr_of
addr_of-table_entry f flags h =
    addr_of-flags (bit_or (bit_or (f * 4096) page_present) page_write) (bit_and flags page_user)
      (user_flag flags)
    ∙ addr_of-flags (bit_or (f * 4096) page_present) page_write refl
    ∙ addr_of-flags (f * 4096) page_present refl
    ∙ addr_of-frame f h

table_bit :
    (a b k : ℕ)
    → testbit (table_entry a b) k
      ≡ max
          (max (max (testbit a k) (testbit page_present k)) (testbit page_write k))
          (min (testbit b k) (testbit page_user k))
unfolding table_entry
table_bit a b k = omega (
  arith,
  testbit-bit_or (bit_or (bit_or a page_present) page_write) (bit_and b page_user) k,
  testbit-bit_or (bit_or a page_present) page_write k,
  testbit-bit_or a page_present k,
  testbit-bit_and b page_user k,
)

-- The entry of a fresh table is present, and is no 2 MiB page.
pub present-table_entry : (frame flags : ℕ) → present (table_entry frame flags) ≡ true
unfolding present
present-table_entry frame flags = ground (
  arith,
  flag-set 0 (table_entry frame flags)
      (omega (arith, table_bit frame flags 0, testbit-le-one frame 0, testbit-le-one flags 0)),
)

pub huge-table_entry : (f flags : ℕ) → huge (table_entry (f * 4096) flags) ≡ false
unfolding huge
huge-table_entry f flags = ground (
  arith,
  flag-clear 7 (table_entry (f * 4096) flags)
      (omega (arith, table_bit (f * 4096) flags 7, testbit-below 12 f 7 (omega arith))),
)

-- An entry that is not present lacks a mask with the present bit.
pub grants-absent : (e need : ℕ) → need % 2 ≡ 1 → present e ≡ false → grants e need ≡ false
unfolding present grants
grants-absent e need odd absent =
    ground
      (arith, ap (λ n. testbit n 0), testbit-bit_and e need 0, testbit-bit_and e page_present 0)

-- An entry has the flags it was made with.
pub grants-page_entry :
    (phys flags need : ℕ)
    → bit_and (bit_or flags page_present) need ≡ need
    → grants (page_entry phys flags) need ≡ true
unfolding grants page_entry
grants-page_entry phys flags need h = ground (
  arith,
  testbit-ext (bit_and (bit_or (bit_or (addr_of phys) flags) page_present) need) need (λ k. omega (
    arith,
    testbit-bit_and (bit_or (bit_or (addr_of phys) flags) page_present) need k,
    testbit-bit_or (bit_or (addr_of phys) flags) page_present k,
    testbit-bit_or (addr_of phys) flags k,
    testbit-bit_or flags page_present k,
    testbit-bit_and (bit_or flags page_present) need k,
    ap (λ n. testbit n k) h,
  )),
)
