-- ===== src/Heap/Lends.antt =====
-- A block that `tmalloc` of src/tmalloc.c takes from the free list, or carves from the chunk, is apart
-- from the others.
use trait_os.Base.{
  ℕ, ◌+◌, ◌%◌, ◌^◌, ◌≤◌, ◌<◌, ◌≡◌, ◌≢◌, ◌⊎◌, inl, inr, refl, sym, ap, ◌∙◌, arith, ltb, leb, ◌==◌,
  if◌then◌else◌, ◌&&◌,
}
use trait_os.Base.{Bool-cases, Bool, true, false, Option, none, some, List, if_ind, subst}
use native.Mathlib.Decide.{dec_lt}
use trait_os.Base.Update.{update_ne, update_self}
use trait_os.Pmm.State.{u64}
use trait_os.Heap.State.{
  Heap, list_head, read_link, size_of, meta_of, put_meta, put_size, carve, claim_block,
  malloc_magic, header_size,
}
use trait_os.Heap.Valid.{Among, IsBlock, block_kept, block_moved, Taken, IsHeap, lend}
use trait_os.Heap.Links.{IsChain-kept}

-- What `tmalloc` leaves: if it fails, the same blocks with the same sizes; if it gives `b`, one more lent block, which was
-- not lent, is large enough, and the sizes of the others are as they were.
pub record Lends (h : Heap) (live : ℕ → Bool) (size b : ℕ) (h' : Heap) : Type 0 where
  pub owner' : ℕ → ℕ
  pub frees' : List ℕ
  pub heap : IsHeap h' owner' (lend live b) frees'
  pub new : live b ≡ false
  pub enough : size ≤ size_of h'.mem b
  pub others : (x : ℕ) → live x ≡ true → size_of h'.mem x ≡ size_of h.mem x

-- Every block, lent or free, has the size that it had.
abbrev pub SameSizes : Heap → (ℕ → Bool) → List ℕ → Heap → Type 0
SameSizes h live frees h' =
    (x : ℕ) → (live x ≡ true) ⊎ Among x frees → size_of h'.mem x ≡ size_of h.mem x

abbrev pub Outcome : Heap → (ℕ → ℕ) → (ℕ → Bool) → List ℕ → ℕ → Option ℕ × Heap → Type 0
Outcome h owner live frees size (none, h') = IsHeap h' owner live frees × SameSizes h live frees h'
Outcome h owner live frees size (some b, h') = Lends h live size b h'

module _ (owner : ℕ → ℕ) (live : ℕ → Bool) (frees : List ℕ) where
  -- No address of a lent block is one of a free block.
  live_off :
      (h : Heap) (x a y : ℕ)
      → IsHeap h owner live frees
      → live x ≡ true
      → owner a ≡ x
      → Among y frees
      → owner a ≢ y
  live_off h x a y v l o i e = ground (arith, (v.blocks y i).1, ap live (sym o ∙ e))

  lent_own :
      (h : Heap) (x : ℕ)
      → IsHeap h owner live frees
      → live x ≡ true
      → (owner x ≡ x) × (owner (x + 8) ≡ x)
  lent_own h x v l =
      let k = (v.lent x l).0 in
      (k.mine x (omega arith) (omega arith), k.mine (x + 8) (omega arith) (omega (arith, k.big)))

  pub took-Lends :
      (h : Heap) (size want b : ℕ) (h' : Heap)
      → IsHeap h owner live frees
      → size ≤ want
      → Taken owner list_head frees want h b h'
      → Lends h live size b h'
  unfolding read_link
  took-Lends h size want b h' v le k = record {
    owner' = k.owner';
    frees' = k.rest;
    heap = record {
      chain = k.chain;
      blocks = free_after;
      distinct = k.distinct;
      lent = lent_after;
      bump_in = omega (arith, v.bump_in, k.same_bump, k.same_virt);
      end_in = omega (arith, v.end_in, k.same_end, k.same_virt);
      started = λ e. k.same_end ∙ v.started (sym k.same_bump ∙ e);
      bump_aligned = omega (arith, v.bump_aligned, k.same_bump);
      virt_aligned = omega (arith, v.virt_aligned, k.same_virt);
    };
    new = (v.blocks b k.among).1;
    enough = omega (arith, k.sized);
    others = λ x l. k.frame x (λ y i. live_off h x x y v l (lent_own h x v l).0 i) tt;
  }
    where
      still_free : (x : ℕ) → x ≢ b → Among x frees ⊎ (owner x ≡ b) → live x ≡ false
      still_free x ne (inl i) = (v.blocks x i).1
      still_free x ne (inr o) = elim (Bool-cases (live x)) [
        | inl y ↦ absurd (ne (sym (lent_own h x v y).0 ∙ o))
        | inr n ↦ n
      ]

      free_after :
          (x : ℕ) → Among x k.rest → IsBlock h'.mem h'.bump k.owner' x × (lend live b x ≡ false)
      free_after x i =
          let (block, ne, from) = k.blocks x i in
          let is_free : live x ≡ false = still_free x ne from in
          (
            subst (λ n. IsBlock h'.mem n k.owner' x) (sym k.same_bump) block,
            ground (arith, ne, is_free),
          )

      old_block :
          (x : ℕ)
          → live x ≡ true
          → IsBlock h'.mem h'.bump k.owner' x × (meta_of h'.mem x ≡ malloc_magic)
      old_block x l = (
        block_kept (v.lent x l).0
            (k.frame x (λ y i. live_off h x x y v l (lent_own h x v l).0 i) tt)
            (omega (arith, k.same_bump)) (λ a o. k.owners a (live_off h x a b v l o k.among)),
        k.frame (x + 8) (λ y i. live_off h x (x + 8) y v l (lent_own h x v l).1 i) tt
            ∙ (v.lent x l).1,
      )

      lent_after :
          (x : ℕ)
          → lend live b x ≡ true
          → IsBlock h'.mem h'.bump k.owner' x × (meta_of h'.mem x ≡ malloc_magic)
      lent_after x l = elim (Bool-cases (x == b)) [
        | inl y ↦
            subst (λ z. IsBlock h'.mem h'.bump k.owner' z × (meta_of h'.mem z ≡ malloc_magic))
              (ground arith)
              (subst (λ n. IsBlock h'.mem n k.owner' b) (sym k.same_bump) k.block, k.lent)
        | inr n ↦ old_block x (ground (arith, l, n))
      ]

  -- A block carved from the end of the chunk.
  module _ (h g : Heap) (size want : ℕ) (v : IsHeap g owner live frees) (le : size ≤ want)
      (w : want % 16 ≡ 0) (big : 16 ≤ want) (top : g.bump + want + 32 < 2 ^ 64)
      (same : (x : ℕ) → g.mem x ≡ h.mem x) where
    abbrev mem_after : ℕ → ℕ
    mem_after = put_meta (put_size g.mem g.bump want) g.bump malloc_magic

    abbrev owner_after : ℕ → ℕ
    owner_after a = if leb g.bump a && ltb a (g.bump + 16 + want) then g.bump else owner a

    end_after : u64 (g.bump + header_size + want) ≡ g.bump + 16 + want
    end_after = omega arith

    below_mem : (x a : ℕ) → IsBlock g.mem g.bump owner x → a < x + 16 → mem_after a ≡ g.mem a
    below_mem x a k lt =
        update_ne (put_size g.mem g.bump want) malloc_magic (omega (arith, k.inside))
        ∙ update_ne g.mem want (omega (arith, k.inside))

    below_block :
        (x : ℕ)
        → IsBlock g.mem g.bump owner x
        → IsBlock mem_after (u64 (g.bump + header_size + want)) owner_after x
    below_block x k =
        block_moved k (below_mem x x k (omega arith)) (omega (arith, end_after))
          (λ a lo hi. ground (arith, k.inside))

    not_bump : (x : ℕ) → IsBlock g.mem g.bump owner x → x ≢ g.bump
    not_bump x k e = omega (arith, k.inside)

    new_block :
        0 < g.bump → IsBlock mem_after (u64 (g.bump + header_size + want)) owner_after g.bump
    new_block pos = record {
      nonzero = pos;
      aligned = v.bump_aligned;
      big = omega (arith, new_size);
      whole = ap (λ n. n % 16) new_size ∙ w;
      inside = omega (arith, new_size, end_after);
      mine = λ a lo hi. ground (arith, new_size);
    }
      where
        new_size : mem_after g.bump ≡ want
        new_size = ground arith

    lent_then :
        0 < g.bump
        → (x : ℕ) → lend live g.bump x ≡ true
        → IsBlock mem_after (u64 (g.bump + header_size + want)) owner_after x
          × (mem_after (x + 8) ≡ malloc_magic)
    lent_then pos x l = elim (Bool-cases (x == g.bump)) [
      | inl y ↦
          subst
            (λ z.
              IsBlock mem_after (u64 (g.bump + header_size + want)) owner_after z
              × (mem_after (z + 8) ≡ malloc_magic))
            (ground arith)
            (new_block pos, update_self (put_size g.mem g.bump want) (g.bump + 8) malloc_magic)
      | inr n ↦
          let old : live x ≡ true = ground (arith, l, n) in
          let (k, m) = v.lent x old in (below_block x k, below_mem x (x + 8) k (omega arith) ∙ m)
    ]

    no_block : live g.bump ≡ false
    no_block = elim (Bool-cases (live g.bump)) [
      | inl y ↦ absurd (not_bump g.bump (v.lent g.bump y).0 refl)
      | inr n ↦ n
    ]

    begun : g.bump + want + 16 ≤ g.bump_end → 0 < g.bump
    begun fits = elim (dec_lt 0 g.bump) [
      | yes p ↦ p
      | no n ↦ absurd (omega (arith, v.started (omega arith)))
    ]

    carved :
        g.bump + want + 16 ≤ g.bump_end
        → Lends h live size g.bump
            (record (claim_block g.bump want g) { bump = u64 (g.bump + header_size + want) })
    unfolding claim_block
    carved fits = record {
      owner' = owner_after;
      frees' = frees;
      heap = record {
        chain =
            IsChain-kept g.mem mem_after g.free_list frees
              (λ x i. below_mem x (x + 8) (v.blocks x i).0 (omega arith)) v.chain;
        blocks = λ x i. (
          below_block x (v.blocks x i).0,
          ground (arith, not_bump x (v.blocks x i).0, (v.blocks x i).1),
        );
        distinct = v.distinct;
        lent = lent_then (begun fits);
        bump_in = omega (arith, end_after, v.end_in);
        end_in = v.end_in;
        started = λ e. absurd (omega (arith, end_after));
        bump_aligned = omega (arith, end_after, v.bump_aligned);
        virt_aligned = v.virt_aligned;
      };
      new = no_block;
      enough = ground arith;
      others = λ x l. below_mem x x (v.lent x l).0 (omega arith) ∙ same x;
    }

    pub carve-Outcome : Outcome h owner live frees size (carve want g)
    unfolding carve
    carve-Outcome =
        if_ind (Outcome h owner live frees size)
          (ltb g.bump_end (u64 (g.bump + want + header_size))) {x = (none, g)}
          (λ _. (v, λ x i. same x)) (λ n. carved (ground arith))
