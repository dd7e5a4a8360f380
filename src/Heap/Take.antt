-- ===== src/Heap/Take.antt =====
-- Taking a block out of the free list of src/tmalloc.c keeps the blocks apart.
use trait_os.Base.{
  ℕ, ◌+◌, ◌-◌, ◌%◌, ◌^◌, ◌≤◌, ◌<◌, ◌≡◌, ◌≢◌, ◌⊎◌, inl, inr, refl, sym, ap, ap₂, ◌∙◌, arith, ltb,
  leb, if◌then◌else◌, ◌&&◌,
}
use trait_os.Base.{List, ◌∷◌, if_ind, subst}
use native.Mathlib.Decide.{dec_lt}
use trait_os.Base.Update.{update, update_ne, update_self}
use trait_os.Pmm.State.{u64, u32}
use trait_os.Heap.State.{
  Heap, Link, list_head, link_of, read_link, write_link, size_of, meta_of, put_meta, put_size,
  take_fit, split, claim_block, malloc_magic, header_size,
}
use trait_os.Heap.Search.{IsChain}
use trait_os.Heap.Links.{
  IsChain-kept, set_link, set_head, set_link-Off, Off-owned, write_link-eq, set_head-set_head,
  read_link-write,
}
use trait_os.Heap.Valid.{Among, IsDistinct, IsBlock, block_kept, Off, IsLink, Taken}

module _ (owner : ℕ → ℕ) (pp : Link) (b : ℕ) (bs : List ℕ) (want : ℕ) (h : Heap)
    (chain : IsChain h.mem (read_link pp h) (b ∷ bs))
    (blocks : (x : ℕ) → Among x (b ∷ bs) → IsBlock h.mem h.bump owner x)
    (distinct : IsDistinct (b ∷ bs)) (link : IsLink owner (b ∷ bs) pp)
    (fits : want ≤ size_of h.mem b) (whole : want % 16 ≡ 0) (big : 16 ≤ want)
    (top : h.bump + 32 < 2 ^ 64) where
  blk : IsBlock h.mem h.bump owner b
  blk = blocks b (inl refl)

  next : ℕ
  next = meta_of h.mem b

  mine : (a : ℕ) → b ≤ a → a < b + 16 + size_of h.mem b → owner a ≡ b
  mine a lo hi = blk.mine a lo hi

  Off-b : (a : ℕ) → b ≤ a → a < b + 16 + size_of h.mem b → Off pp a
  Off-b a lo hi = Off-owned owner (b ∷ bs) pp b a link (inl refl) (mine a lo hi)

  -- A write inside the block leaves what lies outside it.
  write_inside :
      (mem : ℕ → ℕ) (w v a : ℕ)
      → b ≤ w
      → w < b + 16 + size_of h.mem b
      → owner a ≢ b
      → update mem w v a ≡ mem a
  write_inside mem w v a lo hi n = update_ne mem v (λ e. n (ap owner (sym e) ∙ mine w lo hi))

  -- The heap after the link was set to `q`, with the memory `mem`.
  abbrev result : ℕ → (ℕ → ℕ) → Heap
  result q mem = record h {
    mem = put_meta (put_size mem b want) b malloc_magic;
    free_list = set_head pp q h.free_list;
    used_bytes = u64 (h.used_bytes + want);
    block_count = u32 (h.block_count + 1);
  }

  result_frame : (q : ℕ) (mem : ℕ → ℕ) (a : ℕ) → owner a ≢ b → (result q mem).mem a ≡ mem a
  result_frame q mem a n =
      write_inside (put_size mem b want) (b + 8) malloc_magic a (omega arith)
        (omega (arith, blk.big)) n
      ∙ write_inside mem b want a (omega arith) (omega (arith, blk.big)) n

  result_link : (q : ℕ) (mem : ℕ → ℕ) → read_link pp (result q (set_link pp q mem)) ≡ q
  unfolding read_link
  result_link q mem = by_link pp link (result_frame q (set_link pp q mem))
    where
      by_link :
          (l : Link)
          → IsLink owner (b ∷ bs) l
          → ((a : ℕ)
              → owner a ≢ b
              → put_meta (put_size (set_link l q mem) b want) b malloc_magic a ≡ set_link l q mem a)
          → read_link l (record (result q mem) {
            mem = put_meta (put_size (set_link l q mem) b want) b malloc_magic;
            free_list = set_head l q h.free_list;
          })
            ≡ q
      by_link list_head lk fr = refl
      by_link (link_of c) lk fr =
          fr (c + 8) (λ e. lk.2 b (inl refl) (sym e ∙ lk.0)) ∙ update_self mem (c + 8) q

  size_here : size_of (set_link pp next h.mem) b ≡ size_of h.mem b
  size_here = set_link-Off pp next h.mem b (Off-b b (omega arith) (omega arith))

  sized : (q : ℕ) (mem : ℕ → ℕ) → size_of (result q mem).mem b ≡ want
  sized q mem = ground arith

  lent_block :
      (q : ℕ) (mem owner' : ℕ → ℕ)
      → ((a : ℕ) → b ≤ a → a < b + 16 + want → owner' a ≡ b)
      → IsBlock (result q mem).mem h.bump owner' b
  lent_block q mem owner' own = record {
    nonzero = blk.nonzero;
    aligned = blk.aligned;
    big = omega (arith, sized q mem);
    whole = ap (λ n. n % 16) (sized q mem) ∙ whole;
    inside = omega (arith, sized q mem, blk.inside);
    mine = λ a lo hi. own a lo (omega (arith, sized q mem));
  }

  -- The block taken whole.
  abbrev unlinked : Heap
  unlinked = record h { mem = set_link pp next h.mem; free_list = set_head pp next h.free_list }

  take_fit-whole :
      size_of h.mem b < want + 32 → take_fit pp b want h ≡ result next (set_link pp next h.mem)
  unfolding take_fit split claim_block next
  take_fit-whole small =
      ap (λ g. claim_block b want (split pp b want g)) (write_link-eq pp next h)
      ∙ ap (claim_block b want) (whole_split small)
    where
      whole_split : size_of h.mem b < want + 32 → split pp b want unlinked ≡ unlinked
      whole_split lt = ground (arith, size_here, blk.inside)

  -- The rest of a block that was split, and the memory with its header.
  rest_at : ℕ
  rest_at = b + 16 + want

  abbrev rest_mem : ℕ → ℕ
  rest_mem =
      put_meta (put_size (set_link pp next h.mem) rest_at (size_of h.mem b - want - 16)) rest_at
        next

  take_fit-split :
      want + 32 ≤ size_of h.mem b
      → take_fit pp b want h ≡ result rest_at (set_link pp rest_at rest_mem)
  unfolding take_fit claim_block next rest_at split
  take_fit-split large =
      ap (λ g. claim_block b want (split pp b want g)) (write_link-eq pp next h)
      ∙ ap (claim_block b want) (split_off large)
      ∙ ap (λ f. record (result rest_at (set_link pp rest_at rest_mem)) { free_list = f })
          (set_head-set_head pp next rest_at h.free_list)
    where
      rest_eq : u64 (b + header_size + want) ≡ b + 16 + want
      rest_eq = omega (arith, blk.inside)

      split_off :
          want + 32 ≤ size_of h.mem b
          → split pp b want unlinked ≡ record unlinked {
            mem = set_link pp rest_at rest_mem;
            free_list = set_head pp rest_at (set_head pp next h.free_list);
          }
      split_off le =
          if_ind
            (λ (g : Heap). g ≡ record unlinked {
              mem = set_link pp rest_at rest_mem;
              free_list = set_head pp rest_at (set_head pp next h.free_list);
            })
            (ltb (size_of unlinked.mem b) (u64 (want + header_size + 16))) {x = unlinked}
            (λ y. absurd (ground (arith, size_here, blk.inside, y)))
            (λ n.
              ap₂
                (λ r l. write_link pp r (record unlinked {
                  mem = put_meta (put_size unlinked.mem r (size_of unlinked.mem b - want - 16)) r l;
                }))
                rest_eq (read_link-write pp next h)
              ∙ ap
                  (λ s. write_link pp rest_at (record unlinked {
                    mem = put_meta (put_size unlinked.mem rest_at (s - want - 16)) rest_at next;
                  }))
                  size_here
              ∙ write_link-eq pp rest_at (record unlinked { mem = rest_mem }))

  in_tail : (x : ℕ) → Among x bs → (owner x ≡ x) × (owner (x + 8) ≡ x) × (x ≢ b)
  in_tail x i =
      let k = blocks x (inr i) in
      (
        k.mine x (omega arith) (omega arith),
        k.mine (x + 8) (omega arith) (omega (arith, k.big)),
        distinct.0 x i,
      )

  frame_whole :
      (a : ℕ) → owner a ≢ b → Off pp a → (result next (set_link pp next h.mem)).mem a ≡ h.mem a
  frame_whole a n off =
      result_frame next (set_link pp next h.mem) a n ∙ set_link-Off pp next h.mem a off

  rest_mem_frame :
      (a : ℕ) → want + 32 ≤ size_of h.mem b → owner a ≢ b → Off pp a → rest_mem a ≡ h.mem a
  unfolding rest_at
  rest_mem_frame a le n off =
      write_inside (put_size (set_link pp next h.mem) rest_at (size_of h.mem b - want - 16))
        (rest_at + 8) next a (omega arith) (omega arith) n
      ∙ write_inside (set_link pp next h.mem) rest_at (size_of h.mem b - want - 16) a (omega arith)
          (omega arith) n
      ∙ set_link-Off pp next h.mem a off

  frame_split :
      (a : ℕ)
      → want + 32 ≤ size_of h.mem b
      → owner a ≢ b
      → Off pp a
      → (result rest_at (set_link pp rest_at rest_mem)).mem a ≡ h.mem a
  frame_split a le n off =
      result_frame rest_at (set_link pp rest_at rest_mem) a n
      ∙ set_link-Off pp rest_at rest_mem a off
      ∙ rest_mem_frame a le n off

  -- The tail of the list is as it was, in a memory that agrees outside the block and off the link.
  tail-IsChain :
      (mem : ℕ → ℕ) → ((a : ℕ) → owner a ≢ b → Off pp a → mem a ≡ h.mem a) → IsChain mem next bs
  unfolding next
  tail-IsChain mem fr =
      IsChain-kept h.mem mem (h.mem (b + 8)) bs
        (λ x i.
          let (_, o, ne) = in_tail x i in
          fr (x + 8) (λ e. ne (sym o ∙ e)) (Off-owned owner (b ∷ bs) pp x (x + 8) link (inr i) o))
        chain.2

  tail_block :
      (mem owner' : ℕ → ℕ) (x : ℕ)
      → ((a : ℕ) → owner a ≢ b → Off pp a → mem a ≡ h.mem a)
      → ((a : ℕ) → owner a ≢ b → owner' a ≡ owner a)
      → Among x bs
      → IsBlock mem h.bump owner' x × (x ≢ b) × (Among x bs ⊎ (owner x ≡ b))
  tail_block mem owner' x fr own i =
      let (o, _, ne) = in_tail x i in
      (
        block_kept (blocks x (inr i))
            (fr x (λ e. ne (sym o ∙ e)) (Off-owned owner (b ∷ bs) pp x x link (inr i) o))
            (omega arith) (λ a e. own a (λ e'. ne (sym e ∙ e'))),
        ne,
        inl i,
      )

  to_list : (x : ℕ) → Among x bs ⊎ (owner x ≡ b) → Among x (b ∷ bs) ⊎ (owner x ≡ b)
  to_list x (inl i) = inl (inr i)
  to_list x (inr o) = inr o

  Taken-whole : Taken owner pp (b ∷ bs) want h b (result next (set_link pp next h.mem))
  Taken-whole = record {
    among = inl refl;
    owner' = owner;
    rest = bs;
    chain =
        subst (λ p. IsChain (result next (set_link pp next h.mem)).mem p bs)
          (sym (result_link next h.mem))
          (tail-IsChain (result next (set_link pp next h.mem)).mem frame_whole);
    blocks = λ x i.
        let (k, ne, j) =
          tail_block (result next (set_link pp next h.mem)).mem owner x frame_whole (λ a n. refl)
            i in
        (k, ne, to_list x j);
    distinct = distinct.1;
    block = lent_block next (set_link pp next h.mem) owner (λ a lo hi. mine a lo (omega arith));
    sized = sized next (set_link pp next h.mem);
    lent = update_self (put_size (set_link pp next h.mem) b want) (b + 8) malloc_magic;
    frame = λ a n off. frame_whole a (n b (inl refl)) off;
    owners = λ a n. refl;
    same_bump = refl;
    same_end = refl;
    same_virt = refl;
    same_head = λ c e. ap (λ l. set_head l next h.free_list) e;
  }

  Taken-split :
      want + 32 ≤ size_of h.mem b
      → Taken owner pp (b ∷ bs) want h b (result rest_at (set_link pp rest_at rest_mem))
  unfolding rest_at
  Taken-split le = record {
    among = inl refl;
    owner' = owner_after;
    rest = rest_at ∷ bs;
    chain = (
      result_link rest_at rest_mem,
      omega arith,
      subst (λ p. IsChain after p bs) (sym rest_meta)
          (tail-IsChain after (λ a n off. frame_split a le n off)),
    );
    blocks = blocks_after;
    distinct = (
      λ x i e.
          (in_tail x i).2
            (sym (in_tail x i).0 ∙ ap owner e ∙ mine rest_at (omega arith) (omega arith)),
      distinct.1,
    );
    block =
        lent_block rest_at (set_link pp rest_at rest_mem) owner_after
          (λ a lo hi. ground (arith, mine a lo (omega arith)));
    sized = sized rest_at (set_link pp rest_at rest_mem);
    lent = update_self (put_size (set_link pp rest_at rest_mem) b want) (b + 8) malloc_magic;
    frame = λ a n off. frame_split a le (n b (inl refl)) off;
    owners = owners_after;
    same_bump = refl;
    same_end = refl;
    same_virt = refl;
    same_head = λ c e. ap (λ l. set_head l rest_at h.free_list) e;
  }
    where
      after : ℕ → ℕ
      after = (result rest_at (set_link pp rest_at rest_mem)).mem

      owner_after : ℕ → ℕ
      owner_after a = if leb rest_at a && ltb a (b + 16 + size_of h.mem b) then rest_at else owner a

      owners_after : (a : ℕ) → owner a ≢ b → owner_after a ≡ owner a
      owners_after a n =
          if_ind (λ o. o ≡ owner a) (leb rest_at a && ltb a (b + 16 + size_of h.mem b))
            (λ y. absurd (n (mine a (ground arith) (ground arith)))) (λ _. refl)

      rest_meta : after (rest_at + 8) ≡ next
      rest_meta =
          update_ne (put_size (set_link pp rest_at rest_mem) b want) malloc_magic (omega arith)
          ∙ update_ne (set_link pp rest_at rest_mem) want (omega arith)
          ∙ set_link-Off pp rest_at rest_mem (rest_at + 8)
              (Off-b (rest_at + 8) (omega arith) (omega arith))
          ∙ update_self (put_size (set_link pp next h.mem) rest_at (size_of h.mem b - want - 16))
              (rest_at + 8) next

      rest_size : after rest_at ≡ size_of h.mem b - want - 16
      rest_size =
          update_ne (put_size (set_link pp rest_at rest_mem) b want) malloc_magic (omega arith)
          ∙ update_ne (set_link pp rest_at rest_mem) want (omega arith)
          ∙ set_link-Off pp rest_at rest_mem rest_at (Off-b rest_at (omega arith) (omega arith))
          ∙ update_ne (put_size (set_link pp next h.mem) rest_at (size_of h.mem b - want - 16)) next
              (omega arith)
          ∙ update_self (set_link pp next h.mem) rest_at (size_of h.mem b - want - 16)

      rest_block : IsBlock after h.bump owner_after rest_at
      rest_block = record {
        nonzero = omega arith;
        aligned = omega (arith, blk.aligned);
        big = omega (arith, rest_size);
        whole = omega (arith, rest_size, blk.whole);
        inside = omega (arith, rest_size, blk.inside);
        mine = λ a lo hi. ground (arith, rest_size);
      }

      blocks_after :
          (x : ℕ)
          → Among x (rest_at ∷ bs)
          → IsBlock after h.bump owner_after x × (x ≢ b) × (Among x (b ∷ bs) ⊎ (owner x ≡ b))
      blocks_after x (inl e) =
          subst
            (λ y. IsBlock after h.bump owner_after y × (y ≢ b) × (Among y (b ∷ bs) ⊎ (owner y ≡ b)))
            (sym e) (rest_block, omega arith, inr (mine rest_at (omega arith) (omega arith)))
      blocks_after x (inr i) =
          let (k, ne, j) =
            tail_block after owner_after x (λ a n off. frame_split a le n off) owners_after i in
          (k, ne, to_list x j)

  pub take_fit-Taken : Taken owner pp (b ∷ bs) want h b (take_fit pp b want h)
  take_fit-Taken = elim (dec_lt (size_of h.mem b) (want + 32)) [
    | yes p ↦ subst (Taken owner pp (b ∷ bs) want h b) (sym (take_fit-whole p)) Taken-whole
    | no p ↦
        subst (Taken owner pp (b ∷ bs) want h b) (sym (take_fit-split (omega arith)))
          (Taken-split (omega arith))
  ]
