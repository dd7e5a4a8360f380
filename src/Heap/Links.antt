-- ===== src/Heap/Links.antt =====
-- Reading and writing the links of the free list of src/tmalloc.c.
use trait_os.Base.{ℕ, ◌+◌, ◌≡◌, inl, inr, refl, sym, ap, ◌∙◌}
use trait_os.Base.{List, [], ◌∷◌, subst}
use trait_os.Base.Update.{update_ne, update_self}
use trait_os.Heap.State.{Heap, Link, list_head, link_of, read_link, write_link, put_meta}
use trait_os.Heap.Search.{IsChain}
use trait_os.Heap.Valid.{Among, Off, IsLink}

pub IsChain-kept :
    (mem mem' : ℕ → ℕ) (p : ℕ) (bs : List ℕ)
    → ((x : ℕ) → Among x bs → mem' (x + 8) ≡ mem (x + 8))
    → IsChain mem p bs
    → IsChain mem' p bs
IsChain-kept mem mem' p [] same c = c
IsChain-kept mem mem' p (b ∷ bs) same c = (
  c.0,
  c.1,
  subst (λ q. IsChain mem' q bs) (sym (same b (inl refl)))
      (IsChain-kept mem mem' (mem (b + 8)) bs (λ x i. same x (inr i)) c.2),
)

-- The memory after a write to a link.
abbrev pub set_link : Link → ℕ → (ℕ → ℕ) → ℕ → ℕ
set_link list_head q mem = mem
set_link (link_of c) q mem = put_meta mem c q

abbrev pub set_head : Link → ℕ → ℕ → ℕ
set_head list_head q head = q
set_head (link_of c) q head = head

pub set_link-Off :
    (pp : Link) (q : ℕ) (mem : ℕ → ℕ) (a : ℕ) → Off pp a → set_link pp q mem a ≡ mem a
set_link-Off list_head q mem a off = refl
set_link-Off (link_of c) q mem a off = update_ne mem q (λ e. off (sym e))

pub Off-owned :
    (owner : ℕ → ℕ) (bs : List ℕ) (pp : Link) (x a : ℕ)
    → IsLink owner bs pp
    → Among x bs
    → owner a ≡ x
    → Off pp a
Off-owned owner bs list_head x a l i o = tt
Off-owned owner bs (link_of c) x a l i o = λ e. l.2 x i (sym o ∙ ap owner e ∙ l.0)

pub write_link-eq :
    (pp : Link) (q : ℕ) (h : Heap)
    → write_link pp q h
      ≡ record h { mem = set_link pp q h.mem; free_list = set_head pp q h.free_list }
unfolding write_link
write_link-eq list_head q h = refl
write_link-eq (link_of c) q h = refl

pub set_head-set_head : (pp : Link) (q r f : ℕ) → set_head pp r (set_head pp q f) ≡ set_head pp r f
set_head-set_head list_head q r f = refl
set_head-set_head (link_of c) q r f = refl

pub read_link-write :
    (pp : Link) (q : ℕ) (h : Heap)
    → read_link pp (record h { mem = set_link pp q h.mem; free_list = set_head pp q h.free_list })
      ≡ q
unfolding read_link
read_link-write list_head q h = refl
read_link-write (link_of c) q h = update_self h.mem (c + 8) q
