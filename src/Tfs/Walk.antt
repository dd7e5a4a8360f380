-- ===== src/Tfs/Walk.antt =====
-- src/tfs.c: where `tfs_lookup` leads in a tree and in the trees that grow from it.
use trait_os.Base.{ℕ, List, [], ◌∷◌, ◌==◌, if◌then◌else◌}
use trait_os.Base.{Option, none, some, ◌≡◌, inl, inr, sym, subst}
use trait_os.Base.{Bool-cases, Option-cases, if_ind}
use trait_os.Tfs.Path.{Piece, is_dot, is_dotdot}
use trait_os.Tfs.State.{Store, Nodes, find_child, tfs_dir, walk_step, walk_path}
use trait_os.Tfs.Valid.{IsTree, Below, here, child, find_child-Among}
use trait_os.Tfs.Grow.{Grows}

-- Where `..` leads.
abbrev pub above : Nodes → ℕ → ℕ
above node cur = if (node cur).parent == 0 then cur else (node cur).parent

module _ (S : Store) (node : Nodes) (v : IsTree S node) where
  parent-Below : (p : ℕ) → Below node S.root p → Below node S.root (node p).parent
  parent-Below p here = subst (λ q. Below node S.root q) (sym v.top) here
  parent-Below p (child {d} b i) = subst (λ q. Below node S.root q) (sym (v.parent d p b i).0) b

  pub above-Below : (p : ℕ) → Below node S.root p → Below node S.root (above node p)
  above-Below p b =
      if_ind (λ q. Below node S.root q) ((node p).parent == 0) (λ e. b) (λ e. parent-Below p b)

  pub find_child-Below :
      (d c : ℕ) (name : List ℕ)
      → Below node S.root d
      → find_child node (node d).children name ≡ some c
      → Below node S.root c
  find_child-Below d c name b f = child b (find_child-Among node (node d).children name c f)

  pub walk_step-Below :
      (p c : ℕ) (seg : List ℕ)
      → Below node S.root p
      → walk_step node p seg ≡ some c
      → Below node S.root c
  unfolding walk_step
  walk_step-Below p c seg b f = elim (Bool-cases (is_dot seg)) [
    | inl e ↦ subst (λ o. OnSome o) (rw e at f) b
    | inr e ↦ elim (Bool-cases (is_dotdot seg)) [
      | inl e' ↦ subst (λ o. OnSome o) (rw (e, e') at f) (above-Below p b)
      | inr e' ↦ elim (Bool-cases ((node p).type == tfs_dir)) [
        | inl t ↦ find_child-Below p c seg b (rw (e, e', t) at f)
        | inr t ↦ absurd (none_some (rw (e, e', t) at f))
      ]
    ]
  ]
    where
      OnSome : Option ℕ → Type 0
      OnSome none = Unit {0}
      OnSome (some q) = Below node S.root q

      none_some : none ≡ some c → ⊥
      none_some e = cc

  module _ (node' : Nodes) (g : Grows S.root node node') where
    pub walk_step-Grows :
        (p c : ℕ) (seg : List ℕ)
        → Below node S.root p
        → walk_step node p seg ≡ some c
        → walk_step node' p seg ≡ some c
    unfolding walk_step
    walk_step-Grows p c seg b f = elim (Bool-cases (is_dot seg)) [
      | inl e ↦ rw e (rw e at f)
      | inr e ↦ elim (Bool-cases (is_dotdot seg)) [
        | inl e' ↦ rw (e, e', (g.kept p b).2) (rw (e, e') at f)
        | inr e' ↦ elim (Bool-cases ((node p).type == tfs_dir)) [
          | inl t ↦ rw (e, e', (g.kept p b).1, t) (g.found p c seg b (rw (e, e', t) at f))
          | inr t ↦ absurd (none_some (rw (e, e', t) at f))
        ]
      ]
    ]
      where
        none_some : none ≡ some c → ⊥
        none_some e = cc

    pub walk_path-Grows :
        (p m : ℕ) (ps : List Piece)
        → Below node S.root p
        → walk_path node p ps ≡ some m
        → walk_path node' p ps ≡ some m
    unfolding walk_path
    walk_path-Grows p m [] b f = f
    walk_path-Grows p m (s ∷ ps) b f = elim (Option-cases (walk_step node p s.text)) [
      | inl e ↦ absurd (none_some (rw e at f))
      | inr (c, e) ↦
          rw (walk_step-Grows p c s.text b e)
            (walk_path-Grows c m ps (walk_step-Below p c s.text b e) (rw e at f))
    ]
      where
        none_some : none ≡ some m → ⊥
        none_some e = cc

  -- What a lookup finds is in the tree.
  pub walk_path-Below :
      (p m : ℕ) (ps : List Piece)
      → Below node S.root p
      → walk_path node p ps ≡ some m
      → Below node S.root m
  unfolding walk_path
  walk_path-Below p m [] b f = subst (λ q. Below node S.root q) (some_eq f) b
    where
      some_eq : some p ≡ some m → p ≡ m
      some_eq e = cc
  walk_path-Below p m (s ∷ ps) b f = elim (Option-cases (walk_step node p s.text)) [
    | inl e ↦ absurd (none_some (rw e at f))
    | inr (c, e) ↦ walk_path-Below c m ps (walk_step-Below p c s.text b e) (rw e at f)
  ]
    where
      none_some : none ≡ some m → ⊥
      none_some e = cc
