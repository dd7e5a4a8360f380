-- ===== src/Heap/Valid.antt =====
-- When the blocks of src/tmalloc.c are apart: a ghost owner for every address, which is the block that
-- the address lies in.
use trait_os.Base.{
  ℕ, ◌+◌, ◌%◌, ◌≤◌, ◌<◌, ◌≡◌, ◌≢◌, ◌⊎◌, inl, inr, sym, ap, ◌∙◌, arith, ◌==◌, not, ◌&&◌,
}
use trait_os.Base.{Bool, true, false, List, [], ◌∷◌}
use trait_os.Base.{◌||◌}
use native.Mathlib.Decide.{dec_lt}
use trait_os.Heap.State.{
  Heap, Link, list_head, link_of, read_link, size_of, meta_of, malloc_magic, header_size,
}
use trait_os.Heap.Search.{IsChain}

abbrev pub Among : ℕ → List ℕ → Type 0
Among x [] = ⊥
Among x (y ∷ ys) = (x ≡ y) ⊎ Among x ys

abbrev pub IsDistinct : List ℕ → Type 0
IsDistinct [] = Unit
IsDistinct (b ∷ bs) = ((x : ℕ) → Among x bs → x ≢ b) × IsDistinct bs

-- A block below `bump`, of which every address belongs to it.
pub record IsBlock (mem : ℕ → ℕ) (bump : ℕ) (owner : ℕ → ℕ) (b : ℕ) : Type 0 where
  pub nonzero : 0 < b
  pub aligned : b % 16 ≡ 0
  pub big : 16 ≤ size_of mem b
  pub whole : size_of mem b % 16 ≡ 0
  pub inside : b + header_size + size_of mem b ≤ bump
  pub mine : (a : ℕ) → b ≤ a → a < b + header_size + size_of mem b → owner a ≡ b

-- A block stays one when its size and the owners of its addresses stay.
pub block_moved :
    {mem mem' owner owner' : ℕ → ℕ} {bump bump' b : ℕ}
    → IsBlock mem bump owner b
    → size_of mem' b ≡ size_of mem b
    → bump ≤ bump'
    → ((a : ℕ) → b ≤ a → a < b + header_size + size_of mem b → owner' a ≡ owner a)
    → IsBlock mem' bump' owner' b
block_moved k same le own = record {
  nonzero = k.nonzero;
  aligned = k.aligned;
  big = omega (arith, k.big);
  whole = ap (λ n. n % 16) same ∙ k.whole;
  inside = omega (arith, k.inside);
  mine = λ a lo hi. own a lo (omega arith) ∙ k.mine a lo (omega arith);
}

pub block_kept :
    {mem mem' owner owner' : ℕ → ℕ} {bump bump' b : ℕ}
    → IsBlock mem bump owner b
    → size_of mem' b ≡ size_of mem b
    → bump ≤ bump'
    → ((a : ℕ) → owner a ≡ b → owner' a ≡ owner a)
    → IsBlock mem' bump' owner' b
block_kept k same le own = block_moved k same le (λ a lo hi. own a (k.mine a lo hi))

-- An address that is not the word of a link.
abbrev pub Off : Link → ℕ → Type 0
Off list_head a = Unit
Off (link_of c) a = a ≢ c + 8

-- A link that can be written without touching the blocks `bs`: the head, or that of another block.
abbrev pub IsLink : (ℕ → ℕ) → List ℕ → Link → Type 0
IsLink owner bs list_head = Unit
IsLink owner bs (link_of c) = (owner (c + 8) ≡ c) × (owner c ≡ c) × ((x : ℕ) → Among x bs → x ≢ c)

-- What taking `want` bytes of the block `b` from the list of `bs` at `pp` leaves.
pub record Taken (owner : ℕ → ℕ) (pp : Link) (bs : List ℕ) (want : ℕ) (h : Heap) (b : ℕ) (h' : Heap)
    : Type 0 where
  pub among : Among b bs
  pub owner' : ℕ → ℕ
  pub rest : List ℕ
  pub chain : IsChain h'.mem (read_link pp h') rest
  pub blocks :
      (x : ℕ)
      → Among x rest
      → IsBlock h'.mem h.bump owner' x × (x ≢ b) × (Among x bs ⊎ (owner x ≡ b))
  pub distinct : IsDistinct rest
  pub block : IsBlock h'.mem h.bump owner' b
  pub sized : size_of h'.mem b ≡ want
  pub lent : meta_of h'.mem b ≡ malloc_magic
  pub frame : (a : ℕ) → ((x : ℕ) → Among x bs → owner a ≢ x) → Off pp a → h'.mem a ≡ h.mem a
  pub owners : (a : ℕ) → owner a ≢ b → owner' a ≡ owner a
  pub same_bump : h'.bump ≡ h.bump
  pub same_end : h'.bump_end ≡ h.bump_end
  pub same_virt : h'.heap_virt ≡ h.heap_virt
  pub same_head : (c : ℕ) → pp ≡ link_of c → h'.free_list ≡ h.free_list

-- The heap's blocks with their owners: the chain of the free ones, and those that are lent.
pub record IsHeap (h : Heap) (owner : ℕ → ℕ) (live : ℕ → Bool) (frees : List ℕ) : Type 0 where
  pub chain : IsChain h.mem h.free_list frees
  pub blocks : (x : ℕ) → Among x frees → IsBlock h.mem h.bump owner x × (live x ≡ false)
  pub distinct : IsDistinct frees
  pub lent :
      (x : ℕ) → live x ≡ true → IsBlock h.mem h.bump owner x × (meta_of h.mem x ≡ malloc_magic)
  pub bump_in : h.bump ≤ h.heap_virt
  pub end_in : h.bump_end ≤ h.heap_virt
  pub started : h.bump ≡ 0 → h.bump_end ≡ 0
  pub bump_aligned : h.bump % 16 ≡ 0
  pub virt_aligned : h.heap_virt % 16 ≡ 0

-- The lent blocks with one more, and with one less.
abbrev pub lend : (ℕ → Bool) → ℕ → ℕ → Bool
lend live b x = x == b || live x

abbrev pub unlend : (ℕ → Bool) → ℕ → ℕ → Bool
unlend live b x = not (x == b) && live x

-- Two blocks that are lent have no address in common.
pub lent-apart :
    {h : Heap} {owner : ℕ → ℕ} {live : ℕ → Bool} {frees : List ℕ} (x y : ℕ)
    → IsHeap h owner live frees
    → live x ≡ true
    → live y ≡ true
    → x ≢ y
    → (x + 16 + size_of h.mem x ≤ y) ⊎ (y + 16 + size_of h.mem y ≤ x)
lent-apart {h} {owner} x y v lx ly ne = elim (dec_lt x y) [
  | yes lt ↦ elim (dec_lt y (x + 16 + size_of h.mem x)) [
    | yes in_x ↦ absurd (
        ne (
          sym ((v.lent x lx).0.mine y (omega arith) in_x)
          ∙ (v.lent y ly).0.mine y (omega arith) (omega arith)))
    | no out ↦ inl (omega arith)
  ]
  | no ge ↦ elim (dec_lt x (y + 16 + size_of h.mem y)) [
    | yes in_y ↦ absurd (
        ne (
          sym ((v.lent x lx).0.mine x (omega arith) (omega arith))
          ∙ (v.lent y ly).0.mine x (omega arith) in_y))
    | no out ↦ inr (omega arith)
  ]
]
