-- ===== src/Heap/Safe.antt =====
-- `tmalloc` and `tfree` of src/tmalloc.c keep the blocks apart: what is lent is no part of another
-- block.
use trait_os.Base.{
  ℕ, ◌+◌, ◌*◌, ◌%◌, ◌^◌, ◌≤◌, ◌<◌, ◌≡◌, ◌≢◌, ◌⊎◌, inl, inr, refl, sym, ap, ◌∙◌, arith, ltb, ◌==◌,
  not,
}
use trait_os.Base.{Bool, true, false, Option, some, List, ◌∷◌, length, if_ind, subst}
use trait_os.Base.Update.{update_ne, update_self}
use trait_os.Pmm.State.{u64, alloc_contig}
use trait_os.Heap.State.{
  Heap, list_head, read_link, meta_of, put_meta, Search, took, at_end, out_of_rounds, first_fit,
  want_of, malloc, after_search, bump_carve, carve, grow_heap, pages_for, give_block, free_block,
  malloc_magic, header_size,
}
use trait_os.Heap.Search.{IsChain}
use trait_os.Heap.Valid.{Among, IsBlock, block_moved, IsHeap, unlend}
use trait_os.Heap.Links.{IsChain-kept}
use trait_os.Heap.Fit.{FitOk, first_fit-FitOk}
use trait_os.Heap.Lends.{SameSizes, Outcome, took-Lends, carve-Outcome}
use trait_os.Heap.Growth.{want_of_lem, pages_for_lem, Grown, grow_with-Grown}

module _ (owner : ℕ → ℕ) (live : ℕ → Bool) (frees : List ℕ) where
  -- `tmalloc` in a heap whose blocks are apart, with no more free blocks than rounds of the search and
  -- away from the end of the address space: it returns; if it fails, the lent and the free blocks are the same, with the sizes that they had; if
  -- it gives a block, that was not lent and is large enough, the other lent blocks have the sizes
  -- that they had, and all blocks are apart with the new one among them.
  pub malloc-Outcome :
      (rounds size : ℕ) (h : Heap)
      → IsHeap h owner live frees
      → length frees < rounds
      → h.heap_virt + size + 70000 < 2 ^ 64
      → (res : Option ℕ × Heap) × (malloc rounds size h ≡ some res)
        × Outcome h owner live frees size res
  unfolding malloc after_search read_link bump_carve grow_heap
  malloc-Outcome rounds size h v lt room = by_search (first_fit rounds list_head want h) (
      first_fit-FitOk owner rounds list_head frees want h v.chain (λ x i. (v.blocks x i).0)
        v.distinct tt facts.0 facts.1 (omega (arith, v.bump_in)) lt)
    where
      want : ℕ
      want = want_of size

      facts : (want % 16 ≡ 0) × (16 ≤ want) × (size ≤ want) × (want ≤ size + 16)
      facts = want_of_lem size (omega arith)

      pages : ℕ
      pages = pages_for (u64 (want + header_size))

      need_room : h.heap_virt + pages * 4096 + 32 < 2 ^ 64
      need_room = omega (arith, (pages_for_lem (u64 (want + header_size))).1, facts.3)

      grown :
          Grown owner live frees h pages v
            (pages_for_lem (u64 (want + header_size))).0
            need_room
            (grow_heap (u64 (want + header_size)) h)
      grown =
          grow_with-Grown owner live frees h pages v (pages_for_lem (u64 (want + header_size))).0
            need_room (alloc_contig pages h.vm.frames)

      carved_or_grown : Outcome h owner live frees size (bump_carve want h)
      carved_or_grown =
          if_ind (λ g. Outcome h owner live frees size (carve want g))
            (ltb h.bump_end (u64 (h.bump + want + header_size)))
            {x = grow_heap (u64 (want + header_size)) h}
            (λ _.
              carve-Outcome owner live frees h (grow_heap (u64 (want + header_size)) h) size want
                grown.0 facts.2 facts.0 facts.1 (omega (arith, grown.2, facts.3)) grown.1)
            (λ _.
              carve-Outcome owner live frees h h size want v facts.2 facts.0 facts.1
                (omega (arith, v.bump_in, facts.3)) (λ x. refl))

      by_search :
          (s : Search)
          → FitOk owner list_head frees want h s
          → (res : Option ℕ × Heap) × (after_search want s h ≡ some res)
            × Outcome h owner live frees size res
      by_search (took b h') k =
          ((some b, h'), refl, took-Lends owner live frees h size want b h' v facts.2 k)
      by_search at_end k = (bump_carve want h, refl, carved_or_grown)
      by_search out_of_rounds k = absurd k

  -- In a heap whose blocks are apart, `tfree` of a lent block makes it a free block, at the head of
  -- the list; every block, lent or free, has the size that it had, every block that is still lent is
  -- marked as lent, and all blocks are still apart.
  pub free_block-IsHeap :
      (b : ℕ) (h : Heap)
      → IsHeap h owner live frees
      → live b ≡ true
      → IsHeap (free_block (some b) h) owner (unlend live b) (b ∷ frees)
        × SameSizes h live frees (free_block (some b) h)
  unfolding free_block give_block
  free_block-IsHeap b h v l =
      if_ind (λ g. IsHeap g owner (unlend live b) (b ∷ frees) × SameSizes h live frees g)
        (not (meta_of h.mem b == malloc_magic)) {x = h}
        (λ y. absurd (ground (arith, (v.lent b l).1)))
        (λ _. (
          record {
            chain = (
              refl,
              (λ e. omega (arith, blk.nonzero)),
              subst (λ p. IsChain mem' p frees) (sym (update_self h.mem (b + 8) h.free_list))
                  (IsChain-kept h.mem mem' h.free_list frees
                    (λ x i. update_ne h.mem h.free_list (λ e. free_ne x i (omega arith))) v.chain),
            );
            blocks = blocks';
            distinct = (free_ne, v.distinct);
            lent = λ x lx. (
              kept x (v.lent x (ground (arith, lx))).0,
              update_ne h.mem h.free_list (λ e. lent_ne x lx (omega arith))
                  ∙ (v.lent x (ground (arith, lx))).1,
            );
            bump_in = v.bump_in;
            end_in = v.end_in;
            started = v.started;
            bump_aligned = v.bump_aligned;
            virt_aligned = v.virt_aligned;
          },
          λ x i. same_size x (is_block x i),
        ))
    where
      mem' : ℕ → ℕ
      mem' = put_meta h.mem b h.free_list

      blk : IsBlock h.mem h.bump owner b
      blk = (v.lent b l).0

      free_ne : (x : ℕ) → Among x frees → x ≢ b
      free_ne x i e = ground (arith, (v.blocks x i).1, ap live e, l)

      lent_ne : (x : ℕ) → unlend live b x ≡ true → x ≢ b
      lent_ne x lx e = ground (arith, lx)

      is_block : (x : ℕ) → (live x ≡ true) ⊎ Among x frees → IsBlock h.mem h.bump owner x
      is_block x (inl l) = (v.lent x l).0
      is_block x (inr i) = (v.blocks x i).0

      same_size : (x : ℕ) → IsBlock h.mem h.bump owner x → mem' x ≡ h.mem x
      same_size x k = update_ne h.mem h.free_list (λ e. omega (
        arith,
        ap owner e,
        blk.mine (b + 8) (omega arith) (omega (arith, blk.big)),
        k.mine x (omega arith) (omega arith),
      ))

      kept : (x : ℕ) → IsBlock h.mem h.bump owner x → IsBlock mem' h.bump owner x
      kept x k = block_moved k (same_size x k) (omega arith) (λ a lo hi. refl)

      blocks' :
          (x : ℕ) → Among x (b ∷ frees) → IsBlock mem' h.bump owner x × (unlend live b x ≡ false)
      blocks' x (inl e) = (subst (IsBlock mem' h.bump owner) (sym e) (kept b blk), ground arith)
      blocks' x (inr i) = (kept x (v.blocks x i).0, ground (arith, (v.blocks x i).1))
