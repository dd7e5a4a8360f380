-- ===== src/Elf/Parse.antt =====
-- src/telf_core.h: reading fields, checking one program header, and `telf_parse`. The blob is the
-- function from an offset to the byte there, and `size` its length.
use trait_os.Base.{ℕ, zero, suc, ◌+◌, ◌-◌, ◌*◌, ◌/◌, ◌%◌, ◌^◌, ltb, ◌==◌, if◌then◌else◌, not, Bool}
use trait_os.Base.{Option, none, some, false, ◌&&◌, ◌||◌, List, [], ◌∷◌, ◌++◌, length}
use Prim.Native.Nat.{bit_and, bit_or}
use trait_os.Base.Bits.{testbit}

abbrev pub max_segments : ℕ
max_segments = 4

-- `uintptr_t`, `size_t` and `uint64_t`.
abbrev u64 : ℕ → ℕ
u64 n = n % 2 ^ 64

-- `telf_segment_t`; `prot` is the three bits `TELF_PROT_READ`, `TELF_PROT_WRITE`, `TELF_PROT_EXEC`.
pub record Segment : Type 0 where
  pub vaddr : ℕ
  pub offset : ℕ
  pub filesz : ℕ
  pub memsz : ℕ
  pub prot : ℕ

-- `telf_plan_t`; `nsegs` is the length of `segs`.
pub record Plan : Type 0 where
  pub entry : ℕ
  pub segs : List Segment

-- The negative results, `TELF_E_BAD_MAGIC` to `TELF_E_PHDR`.
pub data Error : Type 0 where
  bad_magic bad_class bad_data bad_type bad_machine bad_version : Error
  trunc no_load too_many range bad_align bad_phdr : Error

pub data Parsed {ℓ} (A : Type ℓ) : Type ℓ where
  parsed : A → Parsed A
  refused : Error → Parsed A

module _ (blob : ℕ → ℕ) where
  abbrev pub rd16 : ℕ → ℕ
  rd16 off = bit_or (blob off) (blob (u64 (off + 1)) * 2 ^ 8)

  abbrev pub rd32 : ℕ → ℕ
  rd32 off =
      bit_or
        (bit_or (bit_or (blob off) (blob (u64 (off + 1)) * 2 ^ 8)) (blob (u64 (off + 2)) * 2 ^ 16))
        (blob (u64 (off + 3)) * 2 ^ 24)

  abbrev pub rd64 : ℕ → ℕ
  rd64 off = bit_or (rd32 off) (rd32 (u64 (off + 4)) * 2 ^ 32)

-- What the loop does with a program header: refuse the file, pass over it, or load a segment.
pub data Phdr : Type 0 where
  bad : Error → Phdr
  skip : Phdr
  load : Segment → Phdr

-- The checks on the fields of a loadable header.
unfoldable pub check_load : ℕ → ℕ → ℕ → ℕ → ℕ → ℕ → ℕ → Phdr
check_load size flags poff vaddr filesz memsz align =
    if ltb size poff || ltb (size - poff) filesz
    then bad trunc
    else if ltb memsz filesz
    then bad range
    else if ltb (2 ^ 64 - 1 - memsz) vaddr
    then bad range
    else if not (align == 0) && not (bit_and align (align - 1) == 0)
    then bad bad_align
    else if ltb 1 align && not (vaddr % align == poff % align)
    then bad bad_align
    else load (record {
      vaddr = vaddr;
      offset = poff % 2 ^ 32;
      filesz = filesz % 2 ^ 32;
      memsz = memsz % 2 ^ 32;
      prot = testbit flags 2 * 1 + testbit flags 1 * 2 + testbit flags 0 * 4;
    })

-- The body of the loop for the header at `off`, with `n` segments so far.
unfoldable pub read_phdr : (ℕ → ℕ) → ℕ → ℕ → ℕ → Phdr
read_phdr blob size off n =
    if ltb size (u64 (off + 56))
    then bad trunc
    else if not (rd32 blob off == 1)
    then skip
    else if n == max_segments
    then bad too_many
    else check_load size (rd32 blob (u64 (off + 4))) (rd64 blob (u64 (off + 8)))
        (rd64 blob (u64 (off + 16))) (rd64 blob (u64 (off + 32))) (rd64 blob (u64 (off + 40)))
        (rd64 blob (u64 (off + 48)))

-- The loop, with `rounds` headers left from header `i` on.
unfoldable pub read_phdrs : (ℕ → ℕ) → ℕ → ℕ → ℕ → ℕ → ℕ → List Segment → Parsed (List Segment)
read_phdrs blob size phoff phentsz zero i segs = parsed segs
read_phdrs blob size phoff phentsz (suc rounds) i segs =
    elim (read_phdr blob size (u64 (phoff + i * phentsz)) (length segs)) [
      | bad e ↦ refused e
      | skip ↦ read_phdrs blob size phoff phentsz rounds (i + 1) segs
      | load s ↦ read_phdrs blob size phoff phentsz rounds (i + 1) (segs ++ (s ∷ []))
    ]

-- The page range of a segment, from the start of its first page to its end.
abbrev pub page_start : Segment → ℕ
page_start s = s.vaddr / 4096 * 4096

abbrev pub seg_end : Segment → ℕ
seg_end s = u64 (s.vaddr + s.memsz)

abbrev pub overlap : Segment → Segment → Bool
overlap s t = ltb (page_start s) (seg_end t) && ltb (page_start t) (seg_end s)

-- The two loops over pairs; all pairs give the same result.
unfoldable pub overlap_any : Segment → List Segment → Bool
overlap_any s [] = false
overlap_any s (t ∷ ts) = overlap s t || overlap_any s ts

unfoldable pub overlaps : List Segment → Bool
overlaps [] = false
overlaps (s ∷ ss) = overlap_any s ss || overlaps ss

-- The end of `telf_parse`, for the segments that the loop found.
unfoldable pub finish : ℕ → Parsed (List Segment) → Parsed Plan
finish entry (refused e) = refused e
finish entry (parsed segs) =
    if length segs == 0
    then refused no_load
    else if overlaps segs
    then refused range
    else parsed (record { entry = entry; segs = segs })

-- The checks on the file header; 0x7F, "ELF" come first. `none` goes on to the
-- program headers.
unfoldable pub header_error : (ℕ → ℕ) → ℕ → Option Error
header_error blob size =
    if ltb size 64
    then some trunc
    else if not (blob 0 == 0x7f)
        || not (blob 1 == b'E')
        || not (blob 2 == b'L')
        || not (blob 3 == b'F')
    then some bad_magic
    else if not (blob 4 == 2)
    then some bad_class
    else if not (blob 5 == 1)
    then some bad_data
    else if not (blob 6 == 1)
    then some bad_version
    else if not (rd16 blob 16 == 2)
    then some bad_type
    else if not (rd16 blob 18 == 62)
    then some bad_machine
    else if not (rd32 blob 20 == 1)
    then some bad_version
    else if ltb (rd16 blob 54) 56
    then some bad_phdr
    else if rd16 blob 56 == 0
    then some no_load
    else if ltb max_segments (rd16 blob 56)
    then some too_many
    else none

abbrev pub unless_error : Option Error → Parsed Plan → Parsed Plan
unless_error none r = r
unless_error (some e) r = refused e

unfoldable pub parse : (ℕ → ℕ) → ℕ → Parsed Plan
parse blob size =
    unless_error (header_error blob size) (
      finish (rd64 blob 24)
        (read_phdrs blob size (rd64 blob 32) (rd16 blob 54) (rd16 blob 56) 0 []))
