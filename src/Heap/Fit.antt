-- ===== src/Heap/Fit.antt =====
-- The search of the free list of src/tmalloc.c keeps the blocks apart.
use trait_os.Base.{
  ℕ, zero, suc, ◌+◌, ◌%◌, ◌^◌, ◌≤◌, ◌<◌, ◌≡◌, ◌≢◌, ◌⊎◌, inl, inr, refl, sym, ap, ◌∙◌, arith, leb,
  ◌==◌,
}
use trait_os.Base.{List, [], ◌∷◌, length, if_ind, subst}
use trait_os.Heap.State.{
  Heap, Link, list_head, link_of, read_link, Search, took, at_end, out_of_rounds, first_fit,
  take_fit,
}
use trait_os.Heap.Search.{IsChain}
use trait_os.Heap.Valid.{Among, IsDistinct, IsBlock, block_kept, IsLink, Taken}
use trait_os.Heap.Take.{take_fit-Taken}

-- What the search leaves if it takes a block; it does not run out of rounds.
abbrev pub FitOk : (ℕ → ℕ) → Link → List ℕ → ℕ → Heap → Search → Type 0
FitOk owner pp bs want h (took b h') = Taken owner pp bs want h b h'
FitOk owner pp bs want h at_end = Unit
FitOk owner pp bs want h out_of_rounds = ⊥

-- A search from the link of a block that is passed is one from the link before it.
module _ (owner : ℕ → ℕ) (pp : Link) (b : ℕ) (bs : List ℕ) (want : ℕ) (h : Heap)
    (chain : IsChain h.mem (read_link pp h) (b ∷ bs)) (blk : IsBlock h.mem h.bump owner b)
    (fresh : (x : ℕ) → Among x bs → x ≢ b) (link : IsLink owner (b ∷ bs) pp) where
  own_b : owner b ≡ b
  own_b = blk.mine b (omega arith) (omega arith)

  own_meta : owner (b + 8) ≡ b
  own_meta = blk.mine (b + 8) (omega arith) (omega (arith, blk.big))

  module _ (t : ℕ) (h' : Heap) (k : Taken owner (link_of b) bs want h t h') where
    other : (a : ℕ) → owner a ≡ b → owner a ≢ t
    other a o e = fresh t k.among (sym e ∙ o)

    same_link : read_link pp h' ≡ b
    unfolding read_link
    same_link = by_link pp link chain.0
      where
        by_link : (l : Link) → IsLink owner (b ∷ bs) l → read_link l h ≡ b → read_link l h' ≡ b
        by_link list_head lk e = k.same_head b refl ∙ e
        by_link (link_of c) lk e =
            k.frame (c + 8) (λ x i o. lk.2 x (inr i) (sym o ∙ lk.0))
              (λ same. lk.2 b (inl refl) (omega arith))
            ∙ e

    passed_block : IsBlock h'.mem h.bump k.owner' b
    passed_block =
        block_kept blk (k.frame b (λ x i o. fresh x i (sym o ∙ own_b)) (λ e. omega arith))
          (omega arith) (λ a o. k.owners a (other a o))

    pass_blocks :
        (x : ℕ)
        → Among x (b ∷ k.rest)
        → IsBlock h'.mem h.bump k.owner' x × (x ≢ t) × (Among x (b ∷ bs) ⊎ (owner x ≡ t))
    pass_blocks x (inl e) =
        subst (λ y. IsBlock h'.mem h.bump k.owner' y × (y ≢ t) × (Among y (b ∷ bs) ⊎ (owner y ≡ t)))
          (sym e) (passed_block, (λ same. other b own_b (own_b ∙ same)), inl (inl refl))
    pass_blocks x (inr i) = let (block, ne, from) = k.blocks x i in (block, ne, wider x from)
      where
        wider : (y : ℕ) → Among y bs ⊎ (owner y ≡ t) → Among y (b ∷ bs) ⊎ (owner y ≡ t)
        wider y (inl j) = inl (inr j)
        wider y (inr o) = inr o

    pass_distinct : (x : ℕ) → Among x k.rest → x ≢ b
    pass_distinct x i e = from_where ((k.blocks x i).2)
      where
        from_where : Among x bs ⊎ (owner x ≡ t) → ⊥
        from_where (inl j) = fresh x j e
        from_where (inr o) = other b own_b (ap owner (sym e) ∙ o)

    passed : Taken owner pp (b ∷ bs) want h t h'
    unfolding read_link
    passed = record {
      among = inr k.among;
      owner' = k.owner';
      rest = b ∷ k.rest;
      chain = (same_link, chain.1, k.chain);
      blocks = pass_blocks;
      distinct = (pass_distinct, k.distinct);
      block = k.block;
      sized = k.sized;
      lent = k.lent;
      frame =
          λ a n off. k.frame a (λ x i. n x (inr i)) (λ e. n b (inl refl) (ap owner e ∙ own_meta));
      owners = k.owners;
      same_bump = k.same_bump;
      same_end = k.same_end;
      same_virt = k.same_virt;
      same_head = λ c e. k.same_head b refl;
    }

  pub FitOk-pass :
      (s : Search) → FitOk owner (link_of b) bs want h s → FitOk owner pp (b ∷ bs) want h s
  FitOk-pass (took t h') k = passed t h' k
  FitOk-pass at_end k = tt
  FitOk-pass out_of_rounds k = k

pub first_fit-FitOk :
    (owner : ℕ → ℕ) (rounds : ℕ) (pp : Link) (bs : List ℕ) (want : ℕ) (h : Heap)
    → IsChain h.mem (read_link pp h) bs
    → ((x : ℕ) → Among x bs → IsBlock h.mem h.bump owner x)
    → IsDistinct bs
    → IsLink owner bs pp
    → want % 16 ≡ 0
    → 16 ≤ want
    → h.bump + 32 < 2 ^ 64
    → length bs < rounds
    → FitOk owner pp bs want h (first_fit rounds pp want h)
unfolding first_fit read_link
first_fit-FitOk owner zero pp bs want h c k d l w big top lt = absurd (omega arith)
first_fit-FitOk owner (suc rounds) pp [] want h c k d l w big top lt = rw c tt
first_fit-FitOk owner (suc rounds) pp (b ∷ bs) want h c k d l w big top lt =
    let here : IsBlock h.mem h.bump owner b = k b (inl refl) in
    let later : FitOk owner (link_of b) bs want h (first_fit rounds (link_of b) want h) =
      first_fit-FitOk owner rounds (link_of b) bs want h c.2 (λ x i. k x (inr i)) d.1
        (
          here.mine (b + 8) (omega arith) (omega (arith, here.big)),
          here.mine b (omega arith) (omega arith),
          d.0,
        )
        w big top (omega arith) in
    rw c.0 (
      if_ind (FitOk owner pp (b ∷ bs) want h) (b == 0) {x = at_end}
        (λ y. absurd (ground (arith, c.1)))
        (λ _.
          if_ind (FitOk owner pp (b ∷ bs) want h) (leb want (h.mem b))
            {x = took b (take_fit pp b want h)}
            (λ y. take_fit-Taken owner pp b bs want h c k d l (ground arith) w big top)
            (λ _.
              FitOk-pass owner pp b bs want h c (k b (inl refl)) d.0 l
                (first_fit rounds (link_of b) want h) later)))
