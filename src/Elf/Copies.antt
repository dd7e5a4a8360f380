-- ===== src/Elf/Copies.antt =====
-- src/telf.c: the frames of a segment hold what is copied to them, and what a copy changes.
use trait_os.Base.{ℕ, ◌+◌, ◌*◌, ◌≡◌, inl, inr, refl, ◌∙◌, arith}
use trait_os.Base.{Option, none, some, List, [], ◌∷◌}
use trait_os.Pmm.State.{u64, page_size}
use trait_os.Pmm.Valid.{bits}
use trait_os.Vmm.State.{Vm}
use trait_os.Vmm.Tree.{Roles, IsTree}
use trait_os.Elf.Parse.{Segment, Error}
use trait_os.Elf.Load.{Loader, pages_of, first_of, runs_over}
use trait_os.Base.Bits.{testbit-le-one}
use trait_os.Base.{◌⊎◌}
use native.Mathlib.Decide.{dec_lt}
use trait_os.Base.{false, ◌<◌, ◌≤◌, ◌^◌, ◌/◌, ◌-◌}
use trait_os.Base.{◌%◌}
use trait_os.Pmm.Bitmap.{bit_test}
use trait_os.Elf.Tables.{Keeps, Keeps-refl, Keeps-trans}

-- A byte of memory is as it was, or it lies in a frame that was free, is now in use, and is no page
-- table.
abbrev pub Copies : Vm → (ℕ → ℕ) → Roles → Loader → Type 0
Copies vm bytes role l =
    (a : ℕ)
    → (l.bytes a ≡ bytes a)
      ⊎ ((bits vm.frames (a / page_size) ≡ 0)
          × (bits l.vm.frames (a / page_size) ≡ 1)
          × (role (a / page_size * page_size) ≡ none))

-- What the loader leaves: no overrun, the page tables, and the bytes.
abbrev pub KeepsIn : ℕ → Loader → Roles → Option Error × Loader → Type 0
KeepsIn root l role res =
    (res.1.overrun ≡ false)
    × ((k : Keeps root l.vm role res.1.vm) × Copies l.vm l.bytes k.role' res.1)

pub KeepsIn-refl :
    (root : ℕ) (l : Loader) (role : Roles) (o : Option Error)
    → l.overrun ≡ false
    → IsTree l.vm role
    → role root ≡ some (root, [])
    → KeepsIn root l role (o, l)
KeepsIn-refl root l role o no_overrun tree at =
    (no_overrun, (Keeps-refl root l.vm role tree at, λ a. inl refl))

pub KeepsIn-trans :
    (root : ℕ) (l l' : Loader) (role : Roles) (res : Option Error × Loader)
    → (k : Keeps root l.vm role l'.vm) → Copies l.vm l.bytes k.role' l'
    → KeepsIn root l' k.role' res
    → KeepsIn root l role res
unfolding bit_test
KeepsIn-trans root l l' role res k c (o, (k', c')) = (
  o,
  (
    Keeps-trans k k',
    λ a. elim (c' a) [
      | inl same' ↦ elim (c a) [
        | inl same ↦ inl (same' ∙ same)
        | inr (free, used, none_there) ↦
            inr (free, k'.used (a / page_size) used, k'.roles (a / page_size) used ∙ none_there)
      ]
      | inr (free', used', none_there') ↦ inr (was_free a free', used', none_there')
    ],
  ),
)
  where
    was_free :
        (a : ℕ) → bits l'.vm.frames (a / page_size) ≡ 0 → bits l.vm.frames (a / page_size) ≡ 0
    was_free a z = elim (dec_lt 0 (bits l.vm.frames (a / page_size))) [
      | yes p ↦ absurd (
          omega (
            arith,
            k.used (a / page_size) (
                omega (
                  arith,
                  testbit-le-one (l.vm.frames.bitmap (a / page_size / 32)) (a / page_size % 32),
                )),
          ))
      | no n ↦ omega arith
    ]

-- A segment whose range of addresses does not wrap, and that has no fewer bytes in memory than in the
-- file.
abbrev pub IsFilled : Segment → Type 0
IsFilled s = (s.vaddr + s.memsz < 2 ^ 64) × (s.filesz ≤ s.memsz)

abbrev pub AllFilled : List Segment → Type 0
AllFilled [] = Unit {0}
AllFilled (s ∷ ss) = (s.filesz ≤ s.memsz) × AllFilled ss

-- Its pages hold it.
pub pages_of-holds : (s : Segment) → s.vaddr + s.memsz < 2 ^ 64 → s.memsz ≤ pages_of s * 4096
unfolding pages_of first_of
pages_of-holds s no_wrap = elim (dec_lt 0 s.memsz) [
  | no z ↦ omega arith
  | yes p ↦
      let end : u64 (s.vaddr + s.memsz + 2 ^ 64 - 1) ≡ s.vaddr + s.memsz - 1 = omega arith in
      let span : u64 ((s.vaddr + s.memsz - 1) / 4096 * 4096 + 2 ^ 64 - s.vaddr / 4096 * 4096)
          ≡ (s.vaddr + s.memsz - 1) / 4096 * 4096 - s.vaddr / 4096 * 4096 =
        omega arith in
      rw (end, span) (omega arith)
]

pub runs_over-IsFilled : (s : Segment) → IsFilled s → runs_over s ≡ false
unfolding runs_over
runs_over-IsFilled s f = ground (arith, pages_of-holds s f.0, f.1)
