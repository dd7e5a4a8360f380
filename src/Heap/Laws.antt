-- ===== src/Heap/Laws.antt =====
-- What `tmalloc` and `tfree` of src/tmalloc.c do together, and where `tmalloc` fails.
use trait_os.Base.{
  ℕ, suc, ◌+◌, ◌-◌, ◌*◌, ◌^◌, ◌≤◌, ◌<◌, ◌≡◌, ◌≢◌, sym, ap, ap₂, ◌∙◌, fun_ext, arith, ltb, ◌==◌,
  if◌then◌else◌,
}
use trait_os.Base.{true, Option, none, some, if_ind}
use trait_os.Base.Update.{update_self}
use trait_os.Pmm.State.{u64, u32}
use trait_os.Base.{subst}
use trait_os.Pmm.State.{Pmm, alloc_contig}
use trait_os.Vmm.State.{Vm}
use trait_os.Ipc.Fifo.{Rc, ok, fail}
use trait_os.Heap.State.{
  pages_for, carve, grow_with, end_grow, grow_heap, map_chunk, Heap, list_head, read_link,
  write_link, size_of, meta_of, put_meta, put_size, took, at_end, first_fit, take_fit, split,
  claim_block, want_of, malloc, after_search, bump_carve, give_block, free_block, malloc_magic,
  header_size,
}

module _ (h : Heap) (b rounds size : ℕ) (set : b ≢ 0) (lent : meta_of h.mem b ≡ malloc_magic)
    (exact : want_of size ≡ size_of h.mem b) (used : h.used_bytes < 2 ^ 64)
    (blocks : h.block_count < 2 ^ 32) (small : size_of h.mem b < 2 ^ 64 - 32)
    (enough : size_of h.mem b ≤ h.used_bytes) (counted : 0 < h.block_count) where
  -- The heap after the call of `tfree`.
  abbrev freed : Heap
  freed = record h {
    mem = put_meta h.mem b h.free_list;
    free_list = b;
    used_bytes = u64 (h.used_bytes + 2 ^ 64 - size_of h.mem b);
    block_count = u32 (h.block_count + 2 ^ 32 - 1);
  }

  freed_lem : give_block b h ≡ freed
  unfolding give_block
  freed_lem = ground (arith, lent)

  found :
      first_fit (suc rounds) list_head (want_of size) freed
      ≡ took b (take_fit list_head b (want_of size) freed)
  unfolding first_fit read_link
  found = ground (arith, exact)

  same_mem : put_meta (put_size freed.mem b (want_of size)) b malloc_magic ≡ h.mem
  same_mem = fun_ext λ a. ground (arith, exact, lent, ap h.mem)

  abbrev unlinked : Heap
  unlinked = record freed { free_list = h.free_list }

  unlink : write_link list_head (meta_of freed.mem b) freed ≡ unlinked
  unfolding write_link
  unlink = ap (λ p. record freed { free_list = p }) (update_self h.mem (b + 8) h.free_list)

  no_split : split list_head b (want_of size) unlinked ≡ unlinked
  unfolding split
  no_split = ground (arith, exact)

  used_again : u64 (u64 (h.used_bytes + 2 ^ 64 - size_of h.mem b) + want_of size) ≡ h.used_bytes
  used_again = omega (arith, exact)

  blocks_again : u32 (u32 (h.block_count + 2 ^ 32 - 1) + 1) ≡ h.block_count
  blocks_again = omega arith

  claimed : claim_block b (want_of size) unlinked ≡ h
  unfolding claim_block
  claimed =
      ap
        (λ m.
          with_three m (u64 (unlinked.used_bytes + want_of size)) (u32 (unlinked.block_count + 1)))
        same_mem
      ∙ ap₂ (λ u c. with_three h.mem u c) used_again blocks_again
    where
      with_three : (ℕ → ℕ) → ℕ → ℕ → Heap
      with_three m u c = record h { mem = m; used_bytes = u; block_count = c }

  taken : take_fit list_head b (want_of size) freed ≡ h
  unfolding take_fit
  taken =
      ap (λ x. claim_block b (want_of size) (split list_head b (want_of size) x)) unlink
      ∙ ap (claim_block b (want_of size)) no_split
      ∙ claimed

  -- A block that was lent, freed and asked for again with its size comes back at once, and the heap
  -- is what it was, word for word, when the counters cover the block and do not overflow.
  pub malloc-free_block : malloc (suc rounds) size (free_block (some b) h) ≡ some (some b, h)
  unfolding malloc free_block after_search
  malloc-free_block =
      ap (malloc (suc rounds) size) freed_lem
      ∙ ap (λ r. after_search (want_of size) r freed) (found ∙ ap (took b) taken)

-- The search found no block, the chunk is too small, and the bytes asked for with their header are
-- whole pages, 64 KiB of them at least.
module _ (h : Heap) (rounds size pages : ℕ)
    (searched : first_fit rounds list_head (want_of size) h ≡ at_end)
    (whole : want_of size + 16 ≡ pages * 4096) (many : 16 ≤ pages)
    (short : h.bump_end < h.bump + want_of size + 16) (low : h.bump + want_of size + 16 < 2 ^ 64)
    (room : h.heap_virt + pages * 4096 + 32 < 2 ^ 64) where
  pages_needed : pages_for (u64 (want_of size + 16)) ≡ pages
  unfolding pages_for
  pages_needed = omega (arith, whole)

  -- The chunk cannot hold the block.
  abbrev TooSmall : Heap → Type 0
  TooSmall g = ltb g.bump_end (u64 (g.bump + want_of size + 16)) ≡ true

  end_grow-TooSmall : (base : ℕ) (res : (Rc × ℕ) × Vm) → TooSmall (end_grow pages base res h)
  unfolding end_grow
  end_grow-TooSmall base ((ok, i), vm) = ground (arith, whole)
  end_grow-TooSmall base ((fail, i), vm) = ground arith

  grow_with-TooSmall : (r : ℕ × Pmm) → TooSmall (grow_with pages r h)
  unfolding grow_with
  grow_with-TooSmall (base, frames) =
      if_ind TooSmall (base == 0) (λ _. ground arith)
        (λ _.
          end_grow-TooSmall base
            (map_chunk pages 0 h.heap_virt base (record h.vm { frames = frames })))

  carve-TooSmall : (g : Heap) → TooSmall g → carve (want_of size) g ≡ (none, g)
  unfolding carve
  carve-TooSmall g t = ground (arith, t)

  -- `tmalloc` fails, also when the heap has just grown, if no free block and not the chunk is large
  -- enough and the block with one header is whole pages, 64 KiB or more: it asks for that many
  -- bytes, and a new chunk starts a header later than it counts on.
  pub malloc_short : malloc rounds size h ≡ some (none, grow_heap (u64 (want_of size + 16)) h)
  unfolding malloc after_search bump_carve grow_heap
  malloc_short =
      ap (λ r. after_search (want_of size) r h) searched
      ∙ ap {B = Option (Option ℕ × Heap)} some (
          ap (λ b. carve (want_of size) (if b then grown else h)) grows
          ∙ carve-TooSmall grown grown-TooSmall)
    where
      grown : Heap
      grown = grow_heap (u64 (want_of size + 16)) h

      grows : ltb h.bump_end (u64 (h.bump + want_of size + header_size)) ≡ true
      grows = ground arith

      grown-TooSmall : TooSmall grown
      grown-TooSmall =
          subst (λ n. TooSmall (grow_with n (alloc_contig n h.vm.frames) h)) (sym pages_needed)
            (grow_with-TooSmall (alloc_contig pages h.vm.frames))
