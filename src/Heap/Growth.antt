-- ===== src/Heap/Growth.antt =====
-- The growth of the heap of src/tmalloc.c leaves its blocks.
use trait_os.Base.{ℕ, ◌+◌, ◌*◌, ◌/◌, ◌%◌, ◌^◌, ◌≤◌, ◌<◌, ◌≡◌, refl, arith, ◌==◌}
use trait_os.Base.{Bool, List, if_ind}
use trait_os.Ipc.Fifo.{Rc, ok, fail}
use trait_os.Pmm.State.{Pmm, u64}
use trait_os.Vmm.State.{Vm}
use trait_os.Heap.State.{
  Heap, want_of, align16, grow_with, end_grow, pages_for, map_chunk, header_size,
}
use trait_os.Heap.Valid.{IsBlock, block_moved, IsHeap}

-- What `tmalloc` makes of a size that is not at the end of the numbers.
pub want_of_lem :
    (size : ℕ)
    → size + 16 < 2 ^ 64
    → (want_of size % 16 ≡ 0)
      × (16 ≤ want_of size)
      × (size ≤ want_of size)
      × (want_of size ≤ size + 16)
unfolding want_of align16
want_of_lem size h = ground (arith, aligned size h)
  where
    aligned :
        (n : ℕ)
        → n + 16 < 2 ^ 64
        → (n ≤ u64 (n + 15) / 16 * 16)
          × (u64 (n + 15) / 16 * 16 ≤ n + 15)
          × (u64 (n + 15) / 16 * 16 % 16 ≡ 0)
    aligned n lt = (omega arith, omega arith, omega arith)

-- The pages of a growth.
pub pages_for_lem :
    (need : ℕ) → (16 ≤ pages_for need) × (pages_for need * 4096 ≤ need + 65536 + 4096)
unfolding pages_for
pages_for_lem need = (omega arith, omega arith)

module _ (owner : ℕ → ℕ) (live : ℕ → Bool) (frees : List ℕ) where
  -- A heap that has grown, or has not.
  module _ (h : Heap) (pages : ℕ) (v : IsHeap h owner live frees) (many : 16 ≤ pages)
      (room : h.heap_virt + pages * 4096 + 32 < 2 ^ 64) where
    abbrev pub Grown : Heap → Type 0
    Grown g =
        IsHeap g owner live frees × ((x : ℕ) → g.mem x ≡ h.mem x) × (g.bump ≤ h.heap_virt + 16)

    with_vm : (vm : Vm) → Grown (record h { vm = vm })
    with_vm vm = (
      record {
        chain = v.chain;
        blocks = v.blocks;
        distinct = v.distinct;
        lent = v.lent;
        bump_in = v.bump_in;
        end_in = v.end_in;
        started = v.started;
        bump_aligned = v.bump_aligned;
        virt_aligned = v.virt_aligned;
      },
      (λ x. refl),
      omega (arith, v.bump_in),
    )

    virt_after : u64 (h.heap_virt + pages * 4096) ≡ h.heap_virt + pages * 4096
    virt_after = omega arith

    bump_after : u64 (h.heap_virt + header_size) ≡ h.heap_virt + 16
    bump_after = omega arith

    wider :
        (x : ℕ)
        → IsBlock h.mem h.bump owner x
        → IsBlock h.mem (u64 (h.heap_virt + header_size)) owner x
    wider x k = block_moved k refl (omega (arith, v.bump_in, bump_after)) (λ a lo hi. refl)

    end_grow-Grown : (base : ℕ) (res : (Rc × ℕ) × Vm) → Grown (end_grow pages base res h)
    unfolding end_grow
    end_grow-Grown base ((ok, i), vm) = (
      record {
        chain = v.chain;
        blocks = λ x j. (wider x (v.blocks x j).0, (v.blocks x j).1);
        distinct = v.distinct;
        lent = λ x l. (wider x (v.lent x l).0, (v.lent x l).1);
        bump_in = omega (arith, virt_after, bump_after);
        end_in = omega arith;
        started = λ e. absurd (omega (arith, bump_after));
        bump_aligned = omega (arith, bump_after, v.virt_aligned);
        virt_aligned = omega (arith, virt_after, v.virt_aligned);
      },
      (λ x. refl),
      omega (arith, bump_after),
    )
    end_grow-Grown base ((fail, i), vm) = with_vm _

    pub grow_with-Grown : (r : ℕ × Pmm) → Grown (grow_with pages r h)
    unfolding grow_with
    grow_with-Grown (base, frames) =
        if_ind Grown (base == 0) (λ _. with_vm _)
          (λ _.
            end_grow-Grown base
              (map_chunk pages 0 h.heap_virt base (record h.vm { frames = frames })))
