-- ===== src/Scenario/Vmm.antt =====
-- Page tables of src/tvmm.c, in a machine with four free frames.
use trait_os.Base.{
  ℕ, ◌+◌, ◌/◌, ◌%◌, ◌*◌, ◌≤◌, ◌<◌, ◌≡◌, ◌≢◌, ◌↔◌, refl, arith, [], true, false, none, some,
  if◌then◌else◌, ◌==◌,
}
use trait_os.Base.Bits.{testbit-ones}
use Prim.Native.Nat.{bit_and, bit_or}
use trait_os.Ipc.Fifo.{ok, on_rc}
use trait_os.Pmm.State.{Pmm, page_size, alloc_low, find_free, take_found, take_frame}
use trait_os.Pmm.Bitmap.{bit_test, bit_set}
use trait_os.Pmm.Valid.{bits, IsValid}
use trait_os.Vmm.Entry.{
  present, huge, addr_of, kernel_slot, page_present, pml4_index, pdpt_index, pd_index, table_entry,
}
use trait_os.Vmm.State.{
  Vm, aspace_phys, ensure_pt, set_page, aspace_map, aspace_unmap, write_entry, table_ensure,
  then_ensure, wire_table, clear_table,
}
use trait_os.Vmm.Space.{range_user, aspace_create, user_base, user_end}
use trait_os.Vmm.Tree.{Roles, IsTree}
use trait_os.Vmm.Map.{same_page}
use trait_os.Vmm.Pages.{aspace_map-phys, aspace_map-IsTree, aspace_map-others, aspace_map-ok}
use trait_os.Vmm.Unmap.{aspace_unmap-aspace_map}
use trait_os.Scenario.Elf.{byte_at}
use trait_os.Base.{[], ◌∷◌}
use trait_os.Elf.Parse.{
  parse, header_error, finish, read_phdrs, read_phdr, check_load, overlaps, overlap_any,
}
use trait_os.Elf.Load.{
  Loader, load, load_plan, load_segments, load_segment, map_at, filled, map_pages, any_mapped,
  pages_of, first_of, flags_of,
}
use trait_os.Base.{subst}
use trait_os.Elf.Copies.{KeepsIn, AllFilled}
use trait_os.Elf.Keep.{load-Keeps}
use trait_os.Elf.Parse.{Plan, Parsed, parsed, refused}
use trait_os.Pmm.State.{alloc_low_contig, scan_run, scan_again, claim_found, claim}
use trait_os.Vmm.State.{table_lookup, page_frame, find_pd}
use trait_os.Vmm.Entry.{huge, pt_index, page_entry}
use trait_os.Vmm.Perms.{Permits}
use trait_os.Vmm.Range.{range_user_iff}
use trait_os.Vmm.Create.{Created, aspace_create-Created}

-- Frames 4 to 7 of 32 are free.
abbrev free_four : Pmm
free_four = record {
  bitmap = λ i. if i == 0 then 0xffffff0f else 0xffffffff;
  total_frames = 32;
  free_frames = 4;
  first_free_hint = 2;
}

free_four-IsValid : IsValid free_four
unfolding bit_test
free_four-IsValid = record {
  total_in = omega arith;
  hint_in = omega arith;
  beyond = λ f le lt. used f (omega arith);
  counted = refl;
}
  where
    used : (f : ℕ) → f / 32 ≢ 0 → bits free_four f ≡ 1
    used f ne = ground (arith, testbit-ones (f % 32) (omega arith))

-- The kernel's PML4 in frame 1, and the empty one of a space in frame 2.
abbrev machine : Vm
machine = record { tables = λ t i. 0; frames = free_four; kernel = 0x1000; current = 0x2000 }

abbrev parts : Roles
parts t = if t == 0x2000 then some (0x2000, []) else none

machine-IsTree : IsTree machine parts
unfolding bit_test present huge
machine-IsTree = record {
  valid = free_four-IsValid;
  zero_used = refl;
  page = λ t r path h. (2, ground (arith, h), omega arith, refl);
  link = λ t r path i h lt own p. absurd (ground arith);
  flat = λ t r path i h lt own. refl;
}

abbrev page : ℕ
page = 0x8000003000

user_page : kernel_slot (pml4_index page) ≡ false
unfolding kernel_slot pml4_index
user_page = refl

plain_flags : addr_of 6 ≡ 0
unfolding addr_of
plain_flags = refl

has_room : (aspace_map 0x2000 page 0x9000 6 machine).0 ≡ ok
unfolding aspace_map kernel_slot pml4_index set_page ensure_pt table_ensure then_ensure wire_table
    alloc_low take_found find_free bit_test pdpt_index pd_index present addr_of clear_table
    write_entry table_entry take_frame bit_set
has_room = refl

abbrev mapped : Vm
mapped = (aspace_map 0x2000 page 0x9000 6 machine).1

free_frame : bits mapped.frames 7 ≡ 0
unfolding aspace_map kernel_slot pml4_index set_page ensure_pt table_ensure then_ensure wire_table
    alloc_low take_found find_free bit_test pdpt_index pd_index present addr_of clear_table
    write_entry table_entry take_frame bit_set
free_frame = refl

frames_known : mapped.frames.total_frames ≡ 32
unfolding aspace_map kernel_slot pml4_index set_page ensure_pt table_ensure then_ensure wire_table
    alloc_low take_found find_free bit_test pdpt_index pd_index present addr_of clear_table
    write_entry table_entry take_frame bit_set
frames_known = refl

frame_1 : bits free_four 1 ≡ 1
unfolding bit_test
frame_1 = refl

frame_4 : bits free_four 4 ≡ 0
unfolding bit_test
frame_4 = refl

flags_cover : bit_and (bit_or 6 page_present) 7 ≡ 7
flags_cover = refl

aspace_map-phys_example :
    aspace_phys 0x2000 0x8000004000 (aspace_map 0x2000 page 0x9000 6 machine).1
    ≡ on_rc
        (aspace_map 0x2000 page 0x9000 6 machine).0
        (if same_page 0x2000 page 0x2000 0x8000004000
          then some (addr_of 0x9000)
          else aspace_phys 0x2000 0x8000004000 machine)
        (aspace_phys 0x2000 0x8000004000 machine)
aspace_map-phys_example =
    aspace_map-phys machine parts 0x2000 page 0x9000 6 machine-IsTree refl plain_flags 0x2000
      0x8000004000 refl

aspace_map-IsTree_example :
    (role' : Roles) × IsTree (aspace_map 0x2000 page 0x9000 6 machine).1 role'
    × ((f : ℕ) → bits machine.frames f ≡ 1 → role' (f * page_size) ≡ parts (f * page_size))
aspace_map-IsTree_example = aspace_map-IsTree machine parts 0x2000 page 0x9000 6 machine-IsTree refl

aspace_map-others_example :
    (aspace_map 0x2000 page 0x9000 6 machine).1.tables (1 * page_size)
    ≡ machine.tables (1 * page_size)
aspace_map-others_example =
    aspace_map-others machine parts 0x2000 page 0x9000 6 machine-IsTree refl 1 frame_1
      (λ path h. absurd (ground (arith, h)))

aspace_map-ok_example : (aspace_map 0x2000 page 0x9000 6 machine).0 ≡ ok
aspace_map-ok_example =
    aspace_map-ok machine parts 0x2000 page 0x9000 6 machine-IsTree refl 7 user_page
      (omega (arith, frames_known)) free_frame

aspace_unmap-aspace_map_example :
    aspace_phys 0x2000 page (aspace_unmap 0x2000 page (aspace_map 0x2000 page 0x9000 6 machine).1)
    ≡ (if same_page 0x2000 page 0x2000 page then none else aspace_phys 0x2000 page machine)
aspace_unmap-aspace_map_example =
    aspace_unmap-aspace_map machine parts 0x2000 page 0x9000 6 0x2000 page machine-IsTree refl
      plain_flags user_page has_room refl

range_user_iff_example : (range_user (page + 8) 16 true mapped ≡ true) ↔ (
    (a : ℕ)
    → page + 8 ≤ a
    → a < page + 8 + 16
    → (user_base ≤ a) × (a < user_end) × Permits mapped.tables mapped.current a true)
range_user_iff_example = range_user_iff (page + 8) 16 true mapped

aspace_create-Created_example :
    (root : ℕ) × ((aspace_create true machine).0 ≡ some root)
    × Created machine parts root (aspace_create true machine).1
aspace_create-Created_example =
    aspace_create-Created machine parts 4 1 machine-IsTree (omega arith) frame_4 refl frame_1

-- A program with one segment of 256 bytes at the start of the user's region.
abbrev user_program : ℕ → ℕ
user_program = byte_at (
    (0, 0x7f)
    ∷ (1, b'E')
    ∷ (2, b'L')
    ∷ (3, b'F')
    ∷ (4, 2)
    ∷ (5, 1)
    ∷ (6, 1)
    ∷ (16, 2)
    ∷ (18, 62)
    ∷ (20, 1)
    ∷ (28, 0x80)
    ∷ (32, 64)
    ∷ (54, 56)
    ∷ (56, 1)
    ∷ (64, 1)
    ∷ (68, 5)
    ∷ (84, 0x80)
    ∷ (96, 120)
    ∷ (105, 1)
    ∷ (113, 0x10)
    ∷ [])

abbrev loader : Loader
loader = record { vm = machine; bytes = λ a. 0; overrun = false }

abbrev FilledPlan : Parsed Plan → Type 0
FilledPlan (refused e) = Unit {0}
FilledPlan (parsed plan) = AllFilled plan.segs

user_plan : (plan : Plan) → parse user_program 120 ≡ parsed plan → AllFilled plan.segs
unfolding parse header_error finish read_phdrs read_phdr check_load overlaps overlap_any
user_plan plan e = subst (λ p. FilledPlan p) e (omega arith, tt)

load-Keeps_example : KeepsIn 0x2000 loader parts (load 0x2000 user_program 120 loader)
load-Keeps_example =
    load-Keeps 0x2000 user_program 120 loader parts user_plan refl machine-IsTree refl

loaded : (load 0x2000 user_program 120 loader).0 ≡ none
unfolding load load_plan load_segments load_segment map_at filled map_pages any_mapped pages_of
    first_of flags_of parse header_error finish read_phdrs read_phdr check_load overlaps overlap_any
    aspace_map kernel_slot pml4_index set_page ensure_pt table_ensure then_ensure wire_table
    alloc_low take_found find_free bit_test pdpt_index pd_index present addr_of clear_table
    write_entry table_entry take_frame bit_set aspace_phys page_frame find_pd table_lookup
    alloc_low_contig scan_run scan_again claim_found claim huge pt_index page_entry
loaded = refl
