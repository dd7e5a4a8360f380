-- ===== src/Tfs/Existing.antt =====
-- src/tfs.c: `make_node` for paths that exist already, wholly or up to the last name.
use trait_os.Base.{ℕ, List, [], ◌∷◌, ◌++◌, false, ◌==◌, length}
use trait_os.Base.{none, some, ◌≡◌, refl, ◌<◌, inl, inr, ap, sym, ◌∙◌}
use trait_os.Base.{Bool-cases, Option-cases, arith, leb}
use trait_os.Tfs.Path.{Piece, is_dot, is_dotdot, pieces}
use trait_os.Tfs.State.{
  Store, Fs, Move, goto, stop, find_child, tfs_dir, max_name, node_size, walk_step,
}
use trait_os.Tfs.State.{
  walk_path, lookup, descend, descend_missing, resolve_create, on_move, descend_into, place_in,
  place, make_node,
}
use trait_os.Tfs.State.{fill_node, alloc_node, alloc_node_len, tie}

module _ (S : Store) where
  descend_found :
      (fs : Fs S) (cur c : ℕ) (s : Piece)
      → walk_step fs.node cur s.text ≡ some c
      → descend S fs cur s ≡ goto c fs
  unfolding descend descend_into walk_step
  descend_found fs cur c s h = elim (Bool-cases (is_dot s.text)) [
    | inl e ↦ rw e (goes (rw e at h))
    | inr e ↦ elim (Bool-cases (is_dotdot s.text)) [
      | inl e' ↦ rw (e, e') (goes (rw (e, e') at h))
      | inr e' ↦ elim (Bool-cases ((fs.node cur).type == tfs_dir)) [
        | inl t ↦ rw (e, e', t) (ap (descend_into S fs cur s) (rw (e, e', t) at h))
        | inr t ↦ absurd (none_some (rw (e, e', t) at h))
      ]
    ]
  ]
    where
      goes : {x : ℕ} → some x ≡ some c → ◌≡◌ {A = Move S} (goto x fs) (goto c fs)
      goes e = cc

      none_some : none ≡ some c → ⊥
      none_some e = cc

  -- Along a path that exists `resolve_create` changes nothing.
  resolve_create_along :
      (fs : Fs S) (cur c : ℕ) (ps qs : List Piece)
      → walk_path fs.node cur ps ≡ some c
      → resolve_create S fs cur (ps ++ qs) ≡ resolve_create S fs c qs
  unfolding walk_path resolve_create
  resolve_create_along fs cur c [] qs h = ap (λ x. resolve_create S fs x qs) (some_eq h)
    where
      some_eq : some cur ≡ some c → cur ≡ c
      some_eq e = cc
  resolve_create_along fs cur c (s ∷ ps) qs h = elim (Option-cases (walk_step fs.node cur s.text)) [
    | inl e ↦ absurd (none_some (rw e at h))
    | inr (d, e) ↦
        ap (λ m. on_move S m (λ fs' x. resolve_create S fs' x (ps ++ qs)))
          (descend_found fs cur d s e)
        ∙ resolve_create_along fs d c ps qs (rw e at h)
  ]
    where
      none_some : none ≡ some c → ⊥
      none_some e = cc

  append_nil : (ps : List Piece) → ps ++ [] ≡ ps
  append_nil [] = refl
  append_nil (s ∷ ps) = ap (λ x. s ∷ x) (append_nil ps)

  -- Making a node under a path that a lookup finds returns NULL and changes nothing.
  pub make_node_exists :
      (fs : Fs S) (path : List ℕ) (type m : ℕ)
      → lookup S fs path ≡ some m
      → make_node S fs path type ≡ (none, fs)
  unfolding make_node lookup place resolve_create
  make_node_exists fs path type m h =
      let e = resolve_create_along fs S.root m (pieces path) [] h in
      ap (place S type) (ap (resolve_create S fs S.root) (sym (append_nil (pieces path))) ∙ e)

  -- What `make_node` comes to when only the last name is missing and there is memory.
  pub make_node-tie :
      (fs : Fs S) (path : List ℕ) (type dir n : ℕ) (ps : List Piece) (s : Piece) (h' : S.State)
      → pieces path ≡ ps ++ (s ∷ [])
      → s.more ≡ false
      → walk_path fs.node S.root ps ≡ some dir
      → (fs.node dir).type ≡ tfs_dir
      → is_dot s.text ≡ false
      → is_dotdot s.text ≡ false
      → find_child fs.node (fs.node dir).children s.text ≡ none
      → length s.text < 64
      → S.tmalloc node_size fs.heap ≡ (some n, h')
      → make_node S fs path type ≡ tie S dir (fill_node S fs s.text type (some n, h'))
  unfolding make_node resolve_create descend descend_missing place place_in alloc_node
      alloc_node_len descend_into
  make_node-tie fs path type dir n ps s h' cut last there t dot dotdot gone short got =
      let fits : leb max_name (length s.text) ≡ false = ground arith in
      let e =
        ap (resolve_create S fs S.root) cut
        ∙ resolve_create_along fs S.root dir ps (s ∷ []) there in
      let missing : descend_missing S fs dir s ≡ stop (some (dir, s.text)) fs =
        rw (last, fits) refl in
      let at_last : descend S fs dir s ≡ stop (some (dir, s.text)) fs =
        rw (dot, dotdot, t) (ap (descend_into S fs dir s) gone ∙ missing) in
      let ends = e ∙ ap (λ m. on_move S m (λ fs' x. resolve_create S fs' x [])) at_last in
      let made = ap (place_in S fs dir s.text type) gone in
      let filled = ap (λ x. tie S dir (fill_node S fs s.text type x)) got in
      ap (place S type) ends ∙ made ∙ filled

  -- Making a node succeeds, and gives the block that `tmalloc` gave for it, if: the path ends with a
  -- name, with no slash behind it, which is not "." or ".." and is shorter than 64 bytes; the pieces
  -- before it lead to a directory `dir`, which has no child of that name; and `tmalloc` does give a
  -- block for the node.
  pub make_node_free :
      (fs : Fs S) (path : List ℕ) (type dir n : ℕ) (ps : List Piece) (s : Piece) (h' : S.State)
      → pieces path ≡ ps ++ (s ∷ [])
      → s.more ≡ false
      → walk_path fs.node S.root ps ≡ some dir
      → (fs.node dir).type ≡ tfs_dir
      → is_dot s.text ≡ false
      → is_dotdot s.text ≡ false
      → find_child fs.node (fs.node dir).children s.text ≡ none
      → length s.text < 64
      → S.tmalloc node_size fs.heap ≡ (some n, h')
      → (make_node S fs path type).0 ≡ some n
  unfolding tie fill_node
  make_node_free fs path type dir n ps s h' cut last there t dot dotdot gone short got =
      ap (λ x. x.0)
        (make_node-tie fs path type dir n ps s h' cut last there t dot dotdot gone short got)
