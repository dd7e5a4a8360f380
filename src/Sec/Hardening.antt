-- ===== src/Sec/Hardening.antt =====
-- What the processor reads in the entries that src/tsec_core.h builds.
use trait_os.Base.{◌⊎◌, inl, inr, ℕ, ◌+◌, ◌*◌, ◌%◌, ◌^◌, ◌≤◌, ◌<◌, ◌≡◌, ◌≢◌, refl, arith}
use trait_os.Base.{ltb, leb, ◌==◌, if◌then◌else◌, if_ind, ◌&&◌, ◌||◌, not, ◌∙◌, Bool}
use Prim.Native.Nat.{bit_or, max}
use trait_os.Base.Bits.{testbit, testbit-bit_or, testbit-small}
use trait_os.Sec.Pte.{Bounds, page_present, page_write, page_nx, flags_of, phys_of, pte_for_off}
use trait_os.Base.Bits.{testbit-pow}
use trait_os.Base.{ap, Bool-cases, ◌-◌}
use trait_os.Base.Bits.{testbit-zero}
use trait_os.Sec.Pte.{fill_window, fill_guard_pt}

-- The three flags of an entry that the hardening is about.
unfoldable pub present : ℕ → ℕ
present e = testbit e 0

unfoldable pub writable : ℕ → ℕ
writable e = testbit e 1

unfoldable pub no_exec : ℕ → ℕ
no_exec e = testbit e 63

-- A frame address: a multiple of the page size that leaves the top bit free.
abbrev pub IsFrame : ℕ → Type 0
IsFrame a = (a % 4096 ≡ 0) × (a < 2 ^ 63)

-- The flags of a frame address with the flag words `x` and `y` added.
or_present : (a b : ℕ) → present (bit_or a b) ≡ max (present a) (present b)
unfolding present
or_present a b = testbit-bit_or a b 0

or_writable : (a b : ℕ) → writable (bit_or a b) ≡ max (writable a) (writable b)
unfolding writable
or_writable a b = testbit-bit_or a b 1

or_no_exec : (a b : ℕ) → no_exec (bit_or a b) ≡ max (no_exec a) (no_exec b)
unfolding no_exec
or_no_exec a b = testbit-bit_or a b 63

frame_flags : (a : ℕ) → IsFrame a → (writable a ≡ 0) × (no_exec a ≡ 0) × (present a ≤ 1)
unfolding writable no_exec present
frame_flags a h = (omega (arith, h.0), testbit-small a 63 h.1, omega arith)

word_flags :
    (present page_present ≡ 1)
    × (writable page_present ≡ 0)
    × (no_exec page_present ≡ 0)
    × (present page_write ≡ 0)
    × (writable page_write ≡ 1)
    × (no_exec page_write ≡ 0)
    × (present page_nx ≡ 0)
    × (writable page_nx ≡ 0)
    × (no_exec page_nx ≡ 1)
    × (present 0 ≡ 0)
    × (writable 0 ≡ 0)
    × (no_exec 0 ≡ 0)
unfolding writable no_exec present
word_flags = (refl, refl, refl, refl, refl, refl, refl, refl, refl, refl, refl, refl)

-- The regions of the window.
abbrev pub in_text : Bounds → ℕ → Bool
in_text b off = leb b.text_lo off && ltb off b.text_hi

abbrev pub in_rodata : Bounds → ℕ → Bool
in_rodata b off = leb b.text_hi off && ltb off b.rodata_hi

flags_of-flags :
    (b : Bounds) (off : ℕ)
    → (present (flags_of b off) ≡ 0)
      × (writable (flags_of b off) ≡ (if in_text b off || in_rodata b off then 0 else 1))
      × (no_exec (flags_of b off) ≡ (if in_text b off then 0 else 1))
flags_of-flags b off = grind (
  arith,
  word_flags,
  or_present page_write page_nx,
  or_writable page_write page_nx,
  or_no_exec page_write page_nx,
)

-- A present entry has the flags that are added to its frame.
entry-flags :
    (a f : ℕ)
    → IsFrame a
    → present f ≡ 0
    → let e = bit_or (bit_or a page_present) f in
      (present e ≡ 1) × (writable e ≡ writable f) × (no_exec e ≡ no_exec f)
entry-flags a f h p =
    let a' = bit_or a page_present in
    let fl = frame_flags a h in
    (
      omega (arith, or_present a' f, or_present a page_present, word_flags, fl, p),
      omega (arith, or_writable a' f, or_writable a page_present, word_flags, fl),
      omega (arith, or_no_exec a' f, or_no_exec a page_present, word_flags, fl),
    )

pte-flags :
    (b : Bounds) (reloc_base image_local off : ℕ)
    → IsFrame (phys_of b reloc_base image_local off)
    → let e = pte_for_off b reloc_base image_local off in
      (present e ≡ 1)
      × (writable e ≡ (if in_text b off || in_rodata b off then 0 else 1))
      × (no_exec e ≡ (if in_text b off then 0 else 1))
unfolding pte_for_off
pte-flags b reloc_base image_local off h =
    let f = flags_of-flags b off in
    let e = entry-flags (phys_of b reloc_base image_local off) (flags_of b off) h f.0 in
    (e.0, e.1 ∙ f.1, e.2 ∙ f.2)

-- The frame that a window offset maps to is one, when the image and its copy start at pages.
phys-IsFrame :
    (b : Bounds) (reloc_base image_local i : ℕ)
    → i < 512
    → reloc_base % 4096 ≡ 0
    → reloc_base < 2 ^ 62
    → image_local % 4096 ≡ 0
    → IsFrame (phys_of b reloc_base image_local (i * 4096))
phys-IsFrame b reloc_base image_local i h r r' l =
    if_ind IsFrame
      (not (reloc_base == 0) && leb image_local (i * 4096) && ltb (i * 4096) b.image_end)
      (λ y. let inside : image_local ≤ i * 4096 = ground arith in (omega arith, omega arith))
      (λ n. (omega arith, omega arith))

-- For an image and a copy of it at page boundaries below 2^62: every entry of the window is
-- present; it is writable outside the text and the read-only data and nowhere else, and executable
-- in the text and nowhere else; so no entry is both writable and executable.
pub fill_window-flags :
    (b : Bounds) (reloc_base image_local i : ℕ)
    → i < 512
    → reloc_base % 4096 ≡ 0
    → reloc_base < 2 ^ 62
    → image_local % 4096 ≡ 0
    → let e = fill_window b reloc_base image_local i in
      (present e ≡ 1)
      × (writable e ≡ (if in_text b (i * 4096) || in_rodata b (i * 4096) then 0 else 1))
      × (no_exec e ≡ (if in_text b (i * 4096) then 0 else 1))
      × (writable e ≤ no_exec e)
unfolding fill_window
fill_window-flags b reloc_base image_local i h r r' l =
    let f =
      pte-flags b reloc_base image_local (i * 4096)
        (phys-IsFrame b reloc_base image_local i h r r' l) in
    (f.0, f.1, f.2, ground (arith, f))

-- The identity map of the low 2 MiB with its guard at page `k`: the entry of that page is 0, so not
-- present, and every other page is present, writable and not executable. A guard of 0 guards none.
pub fill_guard_pt-flags :
    (k i : ℕ)
    → k < 512
    → i < 512
    → let e = fill_guard_pt (k * 4096) i in
      ((i ≡ k) × (k ≢ 0) × (e ≡ 0))
      ⊎ (((i ≢ k) ⊎ (k ≡ 0)) × (present e ≡ 1) × (writable e ≡ 1) × (no_exec e ≡ 1))
unfolding fill_guard_pt
fill_guard_pt-flags k i hk hi =
    if_ind
      (λ e.
        ((i ≡ k) × (k ≢ 0) × (e ≡ 0))
        ⊎ (((i ≢ k) ⊎ (k ≡ 0)) × (present e ≡ 1) × (writable e ≡ 1) × (no_exec e ≡ 1)))
      (not (k * 4096 == 0)
        && leb (k * 4096) (i * 4096)
        && ltb (i * 4096) ((k * 4096 + 4096) % 2 ^ 64))
      (λ y. inl (ground arith, ground arith, refl))
      (λ n. inr (ground arith, flags.0, flags.1, flags.2))
  where
    flags :
        let e = bit_or (bit_or (bit_or (i * 4096) page_present) page_write) page_nx in
        (present e ≡ 1) × (writable e ≡ 1) × (no_exec e ≡ 1)
    flags =
        let a = bit_or (i * 4096) page_present in
        let b = bit_or a page_write in
        let fl = frame_flags (i * 4096) (omega arith, omega arith) in
        (
          omega (
            arith,
            or_present b page_nx,
            or_present a page_write,
            or_present (i * 4096) page_present,
            word_flags,
            fl,
          ),
          omega (
            arith,
            or_writable b page_nx,
            or_writable a page_write,
            or_writable (i * 4096) page_present,
            word_flags,
            fl,
          ),
          omega (
            arith,
            or_no_exec b page_nx,
            or_no_exec a page_write,
            or_no_exec (i * 4096) page_present,
            word_flags,
            fl,
          ),
        )

-- The flag words have no bits in the address.
flags_of-address : (b : Bounds) (off j : ℕ) → 12 ≤ j → j < 63 → testbit (flags_of b off) j ≡ 0
flags_of-address b off j h h' =
    ground (
      arith,
      testbit-zero j,
      testbit-bit_or page_write page_nx j,
      testbit-pow 1 j,
      testbit-pow 63 j,
    )

-- With a copy of the image at `reloc_base` (not 0), the address in the entry of a page of the image
-- is that of the page's place in the copy; every other page of the window, and every page
-- without a copy, is mapped to the frame at its own offset.
pub fill_window-address :
    (b : Bounds) (reloc_base image_local i j : ℕ)
    → i < 512
    → reloc_base < 2 ^ 62
    → 12 ≤ j
    → j < 63
    → let e = fill_window b reloc_base image_local i in
      ((reloc_base ≢ 0)
        × (image_local ≤ i * 4096)
        × (i * 4096 < b.image_end)
        × (testbit e j ≡ testbit (reloc_base + (i * 4096 - image_local)) j))
      ⊎ (((reloc_base ≡ 0) ⊎ ((i * 4096 < image_local) ⊎ (b.image_end ≤ i * 4096)))
          × (testbit e j ≡ testbit (i * 4096) j))
unfolding fill_window pte_for_off
fill_window-address b reloc_base image_local i j hi hr h h' =
    elim (Bool-cases
      (not (reloc_base == 0) && leb image_local (i * 4096) && ltb (i * 4096) b.image_end)) [
        | inl y ↦
            let small : (reloc_base + (i * 4096 - image_local)) % 2 ^ 64
                ≡ reloc_base + (i * 4096 - image_local) =
              omega arith in
            inl (
              ground arith,
              ground arith,
              ground arith,
              bits _ ∙ rw y (ap (λ a. testbit a j) small),
            )
        | inr n ↦ inr (ground arith, bits _ ∙ rw n refl)
      ]
  where
    no_present : testbit page_present j ≡ 0
    no_present = ground (arith, testbit-pow 0 j)

    bits :
        (a : ℕ) → testbit (bit_or (bit_or a page_present) (flags_of b (i * 4096))) j ≡ testbit a j
    bits a = omega (
      arith,
      testbit-bit_or (bit_or a page_present) (flags_of b (i * 4096)) j,
      testbit-bit_or a page_present j,
      flags_of-address b (i * 4096) j h h',
      no_present,
    )
