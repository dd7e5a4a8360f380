-- ===== src/Tfs/Unlink.antt =====
-- src/tfs.c: a list of children after `tfs_rm` has taken a node out of it.
use trait_os.Base.{ℕ, List, [], ◌∷◌, true, false, ◌==◌}
use trait_os.Base.{none, some, ◌≡◌, ◌≢◌, ◌⊎◌, inl, inr, ap, sym, ◌∙◌, subst}
use trait_os.Base.{if_ind, arith, Bool-cases, ==_iff}
use trait_os.Base.Update.{update_ne, update_self}
use native.Mathlib.Decide.{ℕ_discrete}
use trait_os.Heap.Valid.{Among}
use trait_os.Tfs.Path.{same_name, same_name_refl}
use trait_os.Tfs.State.{Node, Nodes, find_child}
use trait_os.Tfs.Change.{unlink, set_children}
use trait_os.Tfs.Valid.{HasDistinctNames}

pub unlink-Among : (n c : ℕ) (cs : List ℕ) → Among c (unlink n cs) → Among c cs
unfolding unlink
unlink-Among n c [] i = i
unlink-Among n c (x ∷ cs) i = elim (Bool-cases (x == n)) [
  | inl e ↦ inr (rw e at i)
  | inr e ↦ tail (unlink-Among n c cs) (rw e at i)
]
  where
    tail : (Among c (unlink n cs) → Among c cs) → Among c (x ∷ unlink n cs) → Among c (x ∷ cs)
    tail f (inl e) = inl e
    tail f (inr j) = inr (f j)

-- What is not taken out stays.
pub Among-unlink : (n c : ℕ) (cs : List ℕ) → c ≢ n → Among c cs → Among c (unlink n cs)
unfolding unlink
Among-unlink n c [] ne i = i
Among-unlink n c (x ∷ cs) ne (inl e) =
    if_ind (Among c) (x == n) (λ t. absurd (ne (e ∙ (==_iff x n).0 t))) (λ f. inl e)
Among-unlink n c (x ∷ cs) ne (inr j) =
    if_ind (Among c) (x == n) (λ t. j) (λ f. inr (Among-unlink n c cs ne j))

unlink_missing :
    (node : Nodes) (n : ℕ) (cs name : List ℕ)
    → find_child node cs name ≡ none
    → find_child node (unlink n cs) name ≡ none
unfolding unlink find_child
unlink_missing node n [] name h = h
unlink_missing node n (x ∷ cs) name h = elim (Bool-cases (same_name (node x).name name)) [
  | inl e ↦ absurd (some_none (rw e at h))
  | inr e ↦
      let later : find_child node cs name ≡ none = rw e at h in
      if_ind (λ l. find_child node l name ≡ none) (x == n) (λ t. later)
        λ f. rw e (unlink_missing node n cs name later)
]
  where
    some_none : some x ≡ none → ⊥
    some_none e = cc

pub unlink-names :
    (node : Nodes) (n : ℕ) (cs : List ℕ)
    → HasDistinctNames node cs
    → HasDistinctNames node (unlink n cs)
unfolding unlink
unlink-names node n [] v = v
unlink-names node n (x ∷ cs) v =
    if_ind (HasDistinctNames node) (x == n) (λ t. v.1)
      λ f. (unlink_missing node n cs (node x).name v.0, unlink-names node n cs v.1)

found_some :
    (node : Nodes) (n : ℕ) (cs : List ℕ) → Among n cs → find_child node cs (node n).name ≢ none
unfolding find_child
found_some node n [] i h = elim i [ ]
found_some node n (x ∷ cs) (inl e) h =
    let same = same_name_refl (node n).name in
    let hit : same_name (node x).name (node n).name ≡ true = rw (← e) same in
    absurd (some_none (rw hit at h))
  where
    some_none : some x ≡ none → ⊥
    some_none e = cc
found_some node n (x ∷ cs) (inr i) h = elim (Bool-cases (same_name (node x).name (node n).name)) [
  | inl e ↦ some_none (rw e at h)
  | inr e ↦ found_some node n cs i (rw e at h)
]
  where
    some_none : some x ≡ none → ⊥
    some_none e = cc

-- A node taken out of a directory is gone from it: no two of its nodes have one name.
pub unlink_gone :
    (node : Nodes) (n : ℕ) (cs : List ℕ) → HasDistinctNames node cs → Among n (unlink n cs) → ⊥
unfolding unlink
unlink_gone node n [] v i = i
unlink_gone node n (x ∷ cs) v i = elim (Bool-cases (x == n)) [
  | inl e ↦ found_some node n cs (rw e at i) (rw (← (==_iff x n).0 e) v.0)
  | inr e ↦ tail (unlink_gone node n cs v.1) e (rw e at i)
]
  where
    tail : (Among n (unlink n cs) → ⊥) → (x == n) ≡ false → Among n (x ∷ unlink n cs) → ⊥
    tail f e (inl k) = ground (arith, k)
    tail f e (inr j) = f j

-- The nodes with `n` out of its parent's list.
abbrev pub cut_out : Nodes → ℕ → Nodes
cut_out node n = set_children node (node n).parent (unlink n (node (node n).parent).children)

pub cut_children :
    (node : Nodes) (n p : ℕ)
    → ((p ≡ (node n).parent) × ((cut_out node n p).children ≡ unlink n (node p).children))
      ⊎ ((p ≢ (node n).parent) × ((cut_out node n p).children ≡ (node p).children))
cut_children node n p =
    let dir = (node n).parent in
    let cut : Node = record (node dir) { children = unlink n (node dir).children } in
    elim (ℕ_discrete p dir) [
      | yes e ↦ inl (
        e,
        subst (λ q. (cut_out node n q).children ≡ unlink n (node q).children) (sym e)
            (ap (λ (m : Node). m.children) (update_self node dir cut)),
      )
      | no d ↦ inr (d, ap (λ (m : Node). m.children) (update_ne node cut (λ e. d (sym e))))
    ]

pub cut-Among :
    (node : Nodes) (n d c : ℕ) → Among c (cut_out node n d).children → Among c (node d).children
cut-Among node n d c i = elim (cut_children node n d) [
  | inl k ↦ unlink-Among n c (node d).children (subst (λ l. Among c l) k.1 i)
  | inr k ↦ subst (λ l. Among c l) k.1 i
]
