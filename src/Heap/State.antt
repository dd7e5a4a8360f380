-- ===== src/Heap/State.antt =====
-- src/tmalloc.c: the heap's state and its operations, which run with interrupts off. `mem` holds the
-- 64-bit words of the heap by their addresses; a block's header is its `size` and, 8 bytes on, its
-- `meta`.
use trait_os.Base.{ℕ, zero, suc, ◌+◌, ◌-◌, ◌*◌, ◌/◌, ◌^◌, ltb, leb, ◌==◌, if◌then◌else◌, not}
use trait_os.Base.{Option, none, some}
use Prim.Native.Nat.{bit_or, max}
use trait_os.Base.Update.{update}
use trait_os.Ipc.Fifo.{Rc, ok, fail}
use trait_os.Pmm.State.{Pmm, u64, u32, alloc_contig, free}
use trait_os.Vmm.Entry.{page_write}
use trait_os.Vmm.State.{Vm, map_page, unmap_page}

-- `MALLOC_MAGIC`, `HEADER_SIZE`, `HEAP_VIRT_BASE` and `VMM_PAGE_NX`
abbrev pub malloc_magic : ℕ
malloc_magic = 0x54474C41

abbrev pub header_size : ℕ
header_size = 16

abbrev pub heap_virt_base : ℕ
heap_virt_base = 0xFFFFFFFFC0000000

abbrev pub page_nx : ℕ
page_nx = 2 ^ 63

pub record Heap : Type 0 where
  pub mem : ℕ → ℕ
  pub free_list : ℕ
  pub bump : ℕ
  pub bump_end : ℕ
  pub heap_virt : ℕ
  pub total_bytes : ℕ
  pub used_bytes : ℕ
  pub block_count : ℕ
  pub vm : Vm

-- `ALIGN16`, and what `tmalloc` makes of a size.
unfoldable pub align16 : ℕ → ℕ
align16 x = u64 (x + 15) / 16 * 16

unfoldable pub want_of : ℕ → ℕ
want_of size = if ltb (align16 size) 16 then 16 else align16 size

abbrev pub size_of : (ℕ → ℕ) → ℕ → ℕ
size_of mem b = mem b

abbrev pub meta_of : (ℕ → ℕ) → ℕ → ℕ
meta_of mem b = mem (b + 8)

abbrev pub put_size : (ℕ → ℕ) → ℕ → ℕ → ℕ → ℕ
put_size mem b n = update mem b n

abbrev pub put_meta : (ℕ → ℕ) → ℕ → ℕ → ℕ → ℕ
put_meta mem b n = update mem (b + 8) n

-- The loop that maps the pages of a chunk, from page `i` on: whether all were mapped, and the page
-- that it ended at.
unfoldable pub map_chunk : ℕ → ℕ → ℕ → ℕ → Vm → (Rc × ℕ) × Vm
map_chunk zero i virt base vm = ((ok, i), vm)
map_chunk (suc rounds) i virt base vm =
    let (rc, vm') =
      map_page (u64 (virt + i * 4096)) (base + i * 4096) (bit_or page_write page_nx) vm in
    let rest = map_chunk rounds (i + 1) virt base vm' in
    elim rc [ ok ↦ rest | fail ↦ ((fail, i), vm') ]

unfoldable pub unmap_chunk : ℕ → ℕ → ℕ → Vm → Vm
unmap_chunk zero j virt vm = vm
unmap_chunk (suc rounds) j virt vm =
    unmap_chunk rounds (j + 1) virt (unmap_page (u64 (virt + j * 4096)) vm)

unfoldable pub free_chunk : ℕ → ℕ → ℕ → Pmm → Pmm
free_chunk zero j base p = p
free_chunk (suc rounds) j base p = free_chunk rounds (j + 1) base (free (base + j * 4096) p)

-- What follows the loop, or is its error path.
unfoldable pub end_grow : ℕ → ℕ → (Rc × ℕ) × Vm → Heap → Heap
end_grow pages base ((ok, i), vm) h = record h {
  bump = u64 (h.heap_virt + header_size);
  bump_end = u64 (h.heap_virt + pages * 4096);
  heap_virt = u64 (h.heap_virt + pages * 4096);
  total_bytes = u64 (h.total_bytes + pages * 4096);
  vm = vm;
}
end_grow pages base ((fail, i), vm) h =
    let unmapped = unmap_chunk i 0 h.heap_virt vm in
    record h { vm = record unmapped { frames = free_chunk pages 0 base unmapped.frames } }

unfoldable pub grow_with : ℕ → ℕ × Pmm → Heap → Heap
grow_with pages (base, frames) h =
    let vm = record h.vm { frames = frames } in
    if base == 0
    then record h { vm = vm }
    else end_grow pages base (map_chunk pages 0 h.heap_virt base vm) h

-- `pages` for a need that is not within 4095 of 2^64.
unfoldable pub pages_for : ℕ → ℕ
pages_for need = (max need 65536 + 4095) / 4096

unfoldable pub grow_heap : ℕ → Heap → Heap
grow_heap need h = grow_with (pages_for need) (alloc_contig (pages_for need) h.vm.frames) h

-- `pp`, the place of a link of the free list: `&free_list`, or `&b->meta`.
pub data Link : Type 0 where
  list_head : Link
  link_of : ℕ → Link

unfoldable pub read_link : Link → Heap → ℕ
read_link list_head h = h.free_list
read_link (link_of b) h = meta_of h.mem b

unfoldable pub write_link : Link → ℕ → Heap → Heap
write_link list_head p h = record h { free_list = p }
write_link (link_of b) p h = record h { mem = put_meta h.mem b p }

-- The rest of a block that is larger than `want` by a header and 16 bytes goes back to the list.
unfoldable pub split : Link → ℕ → ℕ → Heap → Heap
split pp b want h =
    let rest = u64 (b + header_size + want) in
    let mem =
      put_meta (put_size h.mem rest (size_of h.mem b - want - header_size)) rest (read_link pp h) in
    if ltb (size_of h.mem b) (u64 (want + header_size + 16))
    then h
    else write_link pp rest (record h { mem = mem })

unfoldable pub claim_block : ℕ → ℕ → Heap → Heap
claim_block b want h = record h {
  mem = put_meta (put_size h.mem b want) b malloc_magic;
  used_bytes = u64 (h.used_bytes + want);
  block_count = u32 (h.block_count + 1);
}

unfoldable pub take_fit : Link → ℕ → ℕ → Heap → Heap
take_fit pp b want h = claim_block b want (split pp b want (write_link pp (meta_of h.mem b) h))

-- The loop over the free list. `none` is that it went on for more rounds than were asked for.
pub data Search : Type 0 where
  took : ℕ → Heap → Search
  at_end : Search
  out_of_rounds : Search

unfoldable pub first_fit : ℕ → Link → ℕ → Heap → Search
first_fit zero pp want h = out_of_rounds
first_fit (suc rounds) pp want h =
    let b = read_link pp h in
    let later = first_fit rounds (link_of b) want h in
    if b == 0
    then at_end
    else if leb want (size_of h.mem b)
    then took b (take_fit pp b want h)
    else later

-- The carving of a block from the end of the chunk.
unfoldable pub carve : ℕ → Heap → Option ℕ × Heap
carve want h = if ltb h.bump_end (u64 (h.bump + want + header_size)) then (none, h) else (
  some h.bump,
  record (claim_block h.bump want h) { bump = u64 (h.bump + header_size + want) },
)

unfoldable pub bump_carve : ℕ → Heap → Option ℕ × Heap
bump_carve want h = carve want (
    if ltb h.bump_end (u64 (h.bump + want + header_size))
    then grow_heap (u64 (want + header_size)) h
    else h)

-- What the search gives, as a result: `none` outside is a search that took too long.
unfoldable pub after_search : ℕ → Search → Heap → Option (Option ℕ × Heap)
after_search want (took b h') h = some (some b, h')
after_search want at_end h = some (bump_carve want h)
after_search want out_of_rounds h = none

unfoldable pub malloc : ℕ → ℕ → Heap → Option (Option ℕ × Heap)
malloc rounds size h = after_search (want_of size) (first_fit rounds list_head (want_of size) h) h

-- `tfree` of a pointer that is not null.
unfoldable pub give_block : ℕ → Heap → Heap
give_block b h = if not (meta_of h.mem b == malloc_magic) then h else record h {
  mem = put_meta h.mem b h.free_list;
  free_list = b;
  used_bytes = u64 (h.used_bytes + 2 ^ 64 - size_of h.mem b);
  block_count = u32 (h.block_count + 2 ^ 32 - 1);
}

unfoldable pub free_block : Option ℕ → Heap → Heap
free_block none h = h
free_block (some b) h = give_block b h

unfoldable pub malloc_total : Heap → ℕ
malloc_total h = h.total_bytes

unfoldable pub malloc_used : Heap → ℕ
malloc_used h = h.used_bytes

unfoldable pub malloc_blocks : Heap → ℕ
malloc_blocks h = h.block_count
