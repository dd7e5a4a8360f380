-- ===== src/Scenario/Heap.antt =====
-- Heaps of src/tmalloc.c: two free blocks, one lent block, and none yet.
use trait_os.Base.{subst, sym, inl, inr}
use trait_os.Base.{ℕ, ◌≡◌, refl, arith, [], ◌∷◌, some, if◌then◌else◌, ◌==◌}
use trait_os.Pmm.State.{Pmm}
use trait_os.Vmm.State.{Vm}
use trait_os.Heap.State.{
  Heap, list_head, malloc_magic, heap_virt_base, first_fit, malloc, free_block, want_of, align16,
  at_end, read_link,
}
use trait_os.Heap.Search.{IsChain}
use trait_os.Base.{Bool, false, ltb, leb, ◌&&◌, Option}
use trait_os.Heap.State.{meta_of}
use trait_os.Heap.Valid.{Among, IsBlock, IsHeap, unlend}
use trait_os.Heap.Lends.{SameSizes, Outcome}
use trait_os.Heap.Safe.{malloc-Outcome, free_block-IsHeap}
use trait_os.Heap.Laws.{malloc-free_block}

abbrev no_frames : Pmm
no_frames = record {
  bitmap = λ i. 0xffffffff;
  total_frames = 32;
  free_frames = 0;
  first_free_hint = 0;
}

abbrev no_tables : Vm
no_tables = record { tables = λ t i. 0; frames = no_frames; kernel = 0x1000; current = 0x1000 }

abbrev new_heap : Heap
new_heap = record {
  mem = λ a. 0;
  free_list = 0;
  bump = 0;
  bump_end = 0;
  heap_virt = heap_virt_base;
  total_bytes = 0;
  used_bytes = 0;
  block_count = 0;
  vm = no_tables;
}

-- Blocks of 32 and 64 bytes are free.
abbrev two_free : Heap
two_free = record new_heap {
  mem = λ a.
      if a == 0x1000 then 32 else if a == 0x1008 then 0x2000 else if a == 0x2000 then 64 else 0;
  free_list = 0x1000;
}

-- A block of 32 bytes is lent.
abbrev one_lent : Heap
one_lent = record new_heap {
  mem = λ a. if a == 0x1000 then 32 else if a == 0x1008 then malloc_magic else 0;
  used_bytes = 32;
  block_count = 1;
}

two_free-IsChain : IsChain two_free.mem (read_link list_head two_free) (0x1000 ∷ 0x2000 ∷ [])
unfolding read_link
two_free-IsChain = (refl, omega arith, (refl, omega arith, refl))

want_32 : want_of 20 ≡ 32
unfolding want_of align16
want_32 = refl

malloc-free_block_example :
    malloc 1 20 (free_block (some 0x1000) one_lent) ≡ some (some 0x1000, one_lent)
malloc-free_block_example =
    malloc-free_block one_lent 0x1000 0 20 (omega arith) refl want_32 (omega arith) (omega arith)
      (omega arith) (omega arith) (omega arith)

want_big : want_of 65520 ≡ 65520
unfolding want_of align16
want_big = refl

none_free : first_fit 1 list_head (want_of 65520) new_heap ≡ at_end
unfolding first_fit read_link
none_free = refl

-- The block of 64 bytes at 0x1000 fills the chunk up to `bump`.
abbrev one_free : Heap
one_free = record new_heap {
  mem = λ a. if a == 0x1000 then 64 else 0;
  free_list = 0x1000;
  bump = 0x1050;
  bump_end = 0x2000;
}

abbrev whole_lent : Heap
whole_lent = record one_free {
  mem = λ a. if a == 0x1000 then 64 else if a == 0x1008 then malloc_magic else 0;
  free_list = 0;
  used_bytes = 64;
  block_count = 1;
}

abbrev owner_64 : ℕ → ℕ
owner_64 a = if leb 0x1000 a && ltb a 0x1050 then 0x1000 else 0

abbrev none_lent : ℕ → Bool
none_lent x = false

abbrev first_lent : ℕ → Bool
first_lent x = x == 0x1000

block_64 : (mem : ℕ → ℕ) → mem 0x1000 ≡ 64 → IsBlock mem 0x1050 owner_64 0x1000
block_64 mem h = record {
  nonzero = omega arith;
  aligned = refl;
  big = omega (arith, h);
  whole = omega (arith, h);
  inside = omega (arith, h);
  mine = λ a lo hi. ground (arith, h);
}

one_free-IsHeap : IsHeap one_free owner_64 none_lent (0x1000 ∷ [])
one_free-IsHeap = record {
  chain = (refl, omega arith, refl);
  blocks = blocks_free;
  distinct = ((λ x i. absurd i), tt);
  lent = λ x l. absurd (ground (arith, l));
  bump_in = omega arith;
  end_in = omega arith;
  started = λ e. absurd (omega arith);
  bump_aligned = refl;
  virt_aligned = refl;
}
  where
    blocks_free :
        (x : ℕ)
        → Among x (0x1000 ∷ [])
        → IsBlock one_free.mem 0x1050 owner_64 x × (none_lent x ≡ false)
    blocks_free x (inl e) =
        (subst (IsBlock one_free.mem 0x1050 owner_64) (sym e) (block_64 one_free.mem refl), refl)
    blocks_free x (inr i) = absurd i

whole_lent-IsHeap : IsHeap whole_lent owner_64 first_lent []
whole_lent-IsHeap = record {
  chain = refl;
  blocks = λ x i. absurd i;
  distinct = tt;
  lent = λ x l.
      let at : x ≡ 0x1000 = ground (arith, l) in
      subst
        (λ z. IsBlock whole_lent.mem 0x1050 owner_64 z × (meta_of whole_lent.mem z ≡ malloc_magic))
        (sym at) (block_64 whole_lent.mem refl, refl);
  bump_in = omega arith;
  end_in = omega arith;
  started = λ e. absurd (omega arith);
  bump_aligned = refl;
  virt_aligned = refl;
}

malloc-Outcome_example :
    (res : Option ℕ × Heap) × (malloc 2 20 one_free ≡ some res)
    × Outcome one_free owner_64 none_lent (0x1000 ∷ []) 20 res
malloc-Outcome_example =
    malloc-Outcome owner_64 none_lent (0x1000 ∷ []) 2 20 one_free one_free-IsHeap (omega arith)
      (omega arith)

free_block-IsHeap_example :
    IsHeap (free_block (some 0x1000) whole_lent) owner_64 (unlend first_lent 0x1000) (0x1000 ∷ [])
    × SameSizes whole_lent first_lent [] (free_block (some 0x1000) whole_lent)
free_block-IsHeap_example =
    free_block-IsHeap owner_64 first_lent [] 0x1000 whole_lent whole_lent-IsHeap refl
