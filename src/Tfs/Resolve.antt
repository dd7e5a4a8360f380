-- ===== src/Tfs/Resolve.antt =====
-- src/tfs.c: what `make_node` makes under a path of which only the last name is missing.
use trait_os.Base.{ℕ, List, [], ◌∷◌, ◌++◌, false, length}
use trait_os.Base.{none, some, ◌≡◌, refl, ◌<◌, ap, sym, ◌∙◌, subst, Option-cases, inl, inr, Option}
use trait_os.Tfs.Path.{Piece, is_dot, is_dotdot, pieces}
use trait_os.Tfs.State.{
  Store, Fs, Nodes, find_child, tfs_dir, node_size, walk_step, walk_path, lookup, make_node, tie,
  fill_node,
}
use trait_os.Tfs.Valid.{IsTree, here, Unused}
use trait_os.Tfs.Walk.{walk_path-Grows, walk_path-Below}
use trait_os.Tfs.Create.{Adds, fill-Adds}
use trait_os.Tfs.Existing.{make_node-tie}

walk_path-append :
    (node : Nodes) (cur c : ℕ) (ps qs : List Piece)
    → walk_path node cur ps ≡ some c
    → walk_path node cur (ps ++ qs) ≡ walk_path node c qs
unfolding walk_path
walk_path-append node cur c [] qs h = ap (λ x. walk_path node x qs) (some_eq h)
  where
    some_eq : some cur ≡ some c → cur ≡ c
    some_eq e = cc
walk_path-append node cur c (s ∷ ps) qs h = elim (Option-cases (walk_step node cur s.text)) [
  | inl e ↦ absurd (none_some (rw e at h))
  | inr (d, e) ↦ rw e (walk_path-append node d c ps qs (rw e at h))
]
  where
    none_some : none ≡ some c → ⊥
    none_some e = cc

walk_path-last :
    (node : Nodes) (dir n : ℕ) (s : Piece)
    → (node dir).type ≡ tfs_dir
    → is_dot s.text ≡ false
    → is_dotdot s.text ≡ false
    → find_child node (node dir).children s.text ≡ some n
    → walk_path node dir (s ∷ []) ≡ some n
unfolding walk_path walk_step
walk_path-last node dir n s t dot dotdot found = rw (dot, dotdot, t, found) refl

module _ (S : Store) where
  pub make_node-Makes :
      (fs : Fs S) (path : List ℕ) (type dir n : ℕ) (ps : List Piece) (s : Piece) (h' : S.State)
      → IsTree S fs.node
      → pieces path ≡ ps ++ (s ∷ [])
      → s.more ≡ false
      → walk_path fs.node S.root ps ≡ some dir
      → (fs.node dir).type ≡ tfs_dir
      → is_dot s.text ≡ false
      → is_dotdot s.text ≡ false
      → find_child fs.node (fs.node dir).children s.text ≡ none
      → length s.text < 64
      → S.tmalloc node_size fs.heap ≡ (some n, h')
      → Unused S.root fs.node n
      → let (made, fs') = make_node S fs path type in
        (made ≡ some n) × (lookup S fs' path ≡ some n) × Adds S fs dir s.text type n fs'
  unfolding lookup tie fill_node
  make_node-Makes fs path type dir n ps s h' v cut last there t dot dotdot gone short got unused =
      let b = walk_path-Below S fs.node v S.root dir ps here there in
      let adds = fill-Adds S fs dir s.text type n h' v b t short gone unused in
      let after = (tie S dir (fill_node S fs s.text type (some n, h'))).1 in
      let along = walk_path-Grows S fs.node v after.node adds.1 S.root dir ps here there in
      let at_last =
        walk_path-last after.node dir n s ((adds.1.kept dir b).1 ∙ t) dot dotdot adds.3 in
      let finds : walk_path after.node S.root (pieces path) ≡ some n =
        ap (walk_path after.node S.root) cut
        ∙ walk_path-append after.node S.root dir ps (s ∷ []) along
        ∙ at_last in
      let result =
        make_node-tie S fs path type dir n ps s h' cut last there t dot dotdot gone short got in
      subst
        (λ (out : Option ℕ × Fs S).
          (out.0 ≡ some n) × (lookup S out.1 path ≡ some n) × Adds S fs dir s.text type n out.1)
        (sym result) (refl, finds, adds)
