-- ===== src/Heap/Search.antt =====
-- The free list of src/tmalloc.c: the search gives the first block that is large enough, and freeing
-- a block and asking for its size again gives it back.
use trait_os.Base.{ℕ, zero, suc, ◌<◌, ◌≡◌, ◌≢◌, arith, leb, if◌then◌else◌}
use trait_os.Base.{Option, none, some, List, [], ◌∷◌, length}
use trait_os.Heap.State.{
  Heap, Link, link_of, read_link, size_of, meta_of, Search, took, at_end, first_fit, take_fit,
}

-- The blocks of a chain of links that starts with the pointer `p`.
abbrev pub IsChain : (ℕ → ℕ) → ℕ → List ℕ → Type 0
IsChain mem p [] = p ≡ 0
IsChain mem p (b ∷ bs) = (p ≡ b) × (b ≢ 0) × IsChain mem (meta_of mem b) bs

-- The first of some blocks that has `want` bytes, with the link that leads to it.
unfoldable pub first_large : (ℕ → ℕ) → Link → List ℕ → ℕ → Option (Link × ℕ)
first_large mem pp [] want = none
first_large mem pp (b ∷ bs) want =
    if leb want (size_of mem b) then some (pp, b) else first_large mem (link_of b) bs want

-- The search that takes it.
unfoldable pub take_first : Option (Link × ℕ) → ℕ → Heap → Search
take_first none want h = at_end
take_first (some (pp, b)) want h = took b (take_fit pp b want h)

-- With more rounds than free blocks, the search of the free list ends: it takes the first block that
-- is large enough, at the link that leads to it, or ends without one if none is.
pub first_fit-first_large :
    (rounds : ℕ) (pp : Link) (bs : List ℕ) (want : ℕ) (h : Heap)
    → IsChain h.mem (read_link pp h) bs
    → length bs < rounds
    → first_fit rounds pp want h ≡ take_first (first_large h.mem pp bs want) want h
unfolding first_fit first_large take_first read_link
first_fit-first_large zero pp bs want h c lt = absurd (omega arith)
first_fit-first_large (suc rounds) pp [] want h c lt = ground (arith, c)
first_fit-first_large (suc rounds) pp (b ∷ bs) want h c lt =
    let ih = first_fit-first_large rounds (link_of b) bs want h c.2 (omega arith) in
    rw c.0 (ground (arith, c.1, ih))
