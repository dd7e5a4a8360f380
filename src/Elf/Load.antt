-- ===== src/Elf/Load.antt =====
-- src/telf.c: `telf_load`, which maps the segments of a program in an address space and fills them.
-- `bytes` is physical memory by address, as the code writes it through the physmap window. It is apart
-- from the page tables, which is right as long as the code writes to the frames of the segment only:
-- `overrun` is set when it writes past them, and then the rest of the state says nothing.
use trait_os.Base.{
  ℕ, zero, suc, ◌+◌, ◌-◌, ◌*◌, ◌/◌, ◌^◌, ltb, leb, ◌==◌, if◌then◌else◌, Bool, true, false, ◌&&◌,
  ◌||◌,
}
use trait_os.Base.{Option, none, some, List, [], ◌∷◌}
use Prim.Native.Nat.{bit_and, bit_or}
use trait_os.Ipc.Fifo.{Rc, ok, fail, on_rc}
use trait_os.Pmm.State.{Pmm, u64, alloc_low_contig}
use trait_os.Vmm.Entry.{page_write, page_user}
use trait_os.Vmm.State.{Vm, aspace_map, aspace_phys}
use trait_os.Vmm.Space.{user_base, user_end}
use trait_os.Heap.State.{page_nx}
use trait_os.Elf.Parse.{Segment, Plan, Error, range, Parsed, parsed, refused, parse}

pub record Loader : Type 0 where
  pub vm : Vm
  pub bytes : ℕ → ℕ
  pub overrun : Bool

-- The first page of a segment, and how many it takes.
unfoldable pub first_of : Segment → ℕ
first_of s = s.vaddr / 4096 * 4096

unfoldable pub pages_of : Segment → ℕ
pages_of s =
    let last = u64 (s.vaddr + s.memsz + 2 ^ 64 - 1) / 4096 * 4096 in
    u64 (last + 2 ^ 64 - first_of s) / 4096 + 1

-- The loop that looks for a page that is mapped already, from page `p` on.
unfoldable pub any_mapped : ℕ → ℕ → ℕ → ℕ → Vm → Bool
any_mapped zero p root first vm = false
any_mapped (suc rounds) p root first vm =
    let later = any_mapped rounds (p + 1) root first vm in
    elim (aspace_phys root (first + p * 4096) vm) [ none ↦ later | some phys ↦ true ]

unfoldable pub flags_of : Segment → ℕ
flags_of s =
    let writable = if bit_and s.prot 2 == 0 then page_user else bit_or page_user page_write in
    if bit_and s.prot 4 == 0 then bit_or writable page_nx else writable

-- The loop that maps the pages, from page `p` on.
unfoldable pub map_pages : ℕ → ℕ → ℕ → ℕ → ℕ → ℕ → Vm → Rc × Vm
map_pages zero p root first phys flags vm = (ok, vm)
map_pages (suc rounds) p root first phys flags vm =
    let res = aspace_map root (first + p * 4096) (phys + p * 4096) flags vm in
    let later = map_pages rounds (p + 1) root first phys flags res.1 in on_rc res.0 later res

-- The bytes of the file and the zeros after them.
unfoldable pub fill : (ℕ → ℕ) → Segment → ℕ → (ℕ → ℕ) → ℕ → ℕ
fill blob s phys bytes a =
    if leb phys a && ltb a (phys + s.filesz)
    then blob (s.offset + (a - phys))
    else if leb (phys + s.filesz) a && ltb a (phys + s.memsz)
    then 0
    else bytes a

-- The frames of a segment do not hold what is copied to them or cleared.
unfoldable pub runs_over : Segment → Bool
runs_over s = ltb (pages_of s * 4096) s.filesz || ltb (pages_of s * 4096) s.memsz

-- `none` is TELF_OK.
unfoldable pub filled : (ℕ → ℕ) → Segment → ℕ → Rc × Vm → Loader → Option Error × Loader
filled blob s phys (ok, vm) l =
    (none, record { vm = vm; bytes = fill blob s phys l.bytes; overrun = l.overrun || runs_over s })
filled blob s phys (fail, vm) l = (some range, record l { vm = vm })

unfoldable pub map_at : (ℕ → ℕ) → ℕ → Segment → ℕ × Pmm → Loader → Option Error × Loader
map_at blob root s (phys, frames) l =
    let vm = record l.vm { frames = frames } in
    if phys == 0
    then (some range, record l { vm = vm })
    else filled blob s phys (map_pages (pages_of s) 0 root (first_of s) phys (flags_of s) vm) l

unfoldable pub load_segment : (ℕ → ℕ) → ℕ → Segment → Loader → Option Error × Loader
load_segment blob root s l =
    if ltb s.vaddr user_base || ltb user_end (u64 (s.vaddr + s.memsz))
    then (some range, l)
    else if any_mapped (pages_of s) 0 root (first_of s) l.vm
    then (some range, l)
    else map_at blob root s (alloc_low_contig (pages_of s) l.vm.frames) l

unfoldable pub load_segments : (ℕ → ℕ) → ℕ → List Segment → Loader → Option Error × Loader
load_segments blob root [] l = (none, l)
load_segments blob root (s ∷ segs) l =
    let res = load_segment blob root s l in
    let later = load_segments blob root segs res.1 in elim res.0 [ none ↦ later | some e ↦ res ]

unfoldable pub load_plan : (ℕ → ℕ) → ℕ → Parsed Plan → Loader → Option Error × Loader
load_plan blob root (refused e) l = (some e, l)
load_plan blob root (parsed plan) l = load_segments blob root plan.segs l

unfoldable pub load : ℕ → (ℕ → ℕ) → ℕ → Loader → Option Error × Loader
load root blob size l = load_plan blob root (parse blob size) l
