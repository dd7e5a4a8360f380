-- ===== src/Scenario/Elf.antt =====
-- A program of one segment, for the parser of src/telf_core.h.
use trait_os.Base.{ℕ, ◌≡◌, refl, List, [], ◌∷◌, ◌==◌, if◌then◌else◌}
use trait_os.Elf.Parse.{Plan, parsed, parse, header_error, finish, read_phdrs, read_phdr}
use trait_os.Elf.Parse.{check_load, overlaps, overlap_any}
use trait_os.Elf.Plan.{Sound, parse-Sound}

-- The bytes that are not 0, by their offsets.
abbrev bytes : List (ℕ × ℕ)
bytes =
    (0, 0x7f)
    ∷ (1, b'E')
    ∷ (2, b'L')
    ∷ (3, b'F')
    ∷ (4, 2)
    ∷ (5, 1)
    ∷ (6, 1)
    ∷ (16, 2)
    ∷ (18, 62)
    ∷ (20, 1)
    ∷ (26, 0x40)
    ∷ (32, 64)
    ∷ (54, 56)
    ∷ (56, 1)
    ∷ (64, 1)
    ∷ (68, 5)
    ∷ (82, 0x40)
    ∷ (96, 120)
    ∷ (105, 1)
    ∷ (113, 0x10)
    ∷ []

abbrev pub byte_at : List (ℕ × ℕ) → ℕ → ℕ
byte_at [] i = 0
byte_at (b ∷ bs) i = if b.0 == i then b.1 else byte_at bs i

abbrev program : ℕ → ℕ
program = byte_at bytes

abbrev plan : Plan
plan = record {
  entry = 0x400000;
  segs = record { vaddr = 0x400000; offset = 0; filesz = 120; memsz = 256; prot = 5 } ∷ [];
}

parse-program : parse program 120 ≡ parsed plan
unfolding parse header_error finish read_phdrs read_phdr check_load overlaps overlap_any
parse-program = refl

parse-Sound_example : Sound 120 plan
parse-Sound_example = parse-Sound program 120 plan parse-program
