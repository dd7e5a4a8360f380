-- ===== src/Tfs/Grow.antt =====
-- src/tfs.c: the tree after a new node is tied into a directory of it.
use trait_os.Base.{ℕ, suc, List, [], ◌∷◌, true, ◌==◌, if◌then◌else◌}
use trait_os.Base.{none, some, ◌≡◌, ◌≢◌, refl, ◌<◌, ◌⊎◌, inl, inr, sym, ◌∙◌, subst}
use trait_os.Base.{Bool-cases, arith}
use native.Mathlib.Decide.{ℕ_discrete}
use trait_os.Heap.Valid.{Among}
use trait_os.Tfs.Path.{same_name, same_name_refl, same_name_sound}
use trait_os.Tfs.State.{Store, Nodes, find_child, tfs_dir, link_child}
use trait_os.Tfs.Valid.{IsTree, Unused, Below, here, child, HasDistinctNames}
use trait_os.Tfs.Valid.{find_child-same, names-same}

-- What was in the tree stays where it was, under the same names.
pub record Grows (root : ℕ) (node node' : Nodes) : Type 0 where
  pub kept :
      (p : ℕ)
      → Below node root p
      → ((node' p).name ≡ (node p).name)
        × ((node' p).type ≡ (node p).type)
        × ((node' p).parent ≡ (node p).parent)
        × ((node' p).payload ≡ (node p).payload)
        × ((node' p).size ≡ (node p).size)
  pub found :
      (d c : ℕ) (name : List ℕ)
      → Below node root d
      → find_child node (node d).children name ≡ some c
      → find_child node' (node' d).children name ≡ some c
  pub below : (p : ℕ) → Below node root p → Below node' root p

pub Grows-refl : (root : ℕ) (node : Nodes) → Grows root node node
Grows-refl root node = record {
  kept = λ p b. (refl, refl, refl, refl, refl);
  found = λ d c name b f. f;
  below = λ p b. b;
}

pub Grows-trans :
    {root : ℕ} {node node' node'' : Nodes}
    → Grows root node node'
    → Grows root node' node''
    → Grows root node node''
Grows-trans g k = record {
  kept = λ p b.
      let u = g.kept p b in
      let w = k.kept p (g.below p b) in (w.0 ∙ u.0, w.1 ∙ u.1, w.2 ∙ u.2, w.3 ∙ u.3, w.4 ∙ u.4);
  found = λ d c name b f. k.found d c name (g.below d b) (g.found d c name b f);
  below = λ p b. k.below p (g.below p b);
}

module _ (S : Store) (node base : Nodes) (dir n : ℕ) (v : IsTree S node)
    (at : Below node S.root dir) (is_dir : (node dir).type ≡ tfs_dir)
    (unused : Unused S.root node n) (same : (p : ℕ) → p ≢ n → base p ≡ node p)
    (empty : (base n).children ≡ []) (bare : (base n).payload ≡ 0)
    (unnamed : find_child node (node dir).children (base n).name ≡ none) where
  abbrev after : Nodes
  after = link_child base dir n

  fresh : (p : ℕ) → Below node S.root p → p ≢ n
  fresh p b e = unused.1 (subst (λ q. Below node S.root q) e b)

  after_new : after n ≡ record (base n) { parent = dir }
  unfolding link_child
  after_new = ground (arith, fresh dir at)

  after-dir : after dir ≡ record (node dir) { children = n ∷ (node dir).children }
  unfolding link_child
  after-dir = ground (arith, fresh dir at, same dir)

  after_old : (p : ℕ) → p ≢ n → p ≢ dir → after p ≡ node p
  unfolding link_child
  after_old p a b = ground (arith, same p)

  -- Of an old node, all but the children is as before.
  old_fields :
      (p : ℕ)
      → p ≢ n
      → ((after p).name ≡ (node p).name)
        × ((after p).type ≡ (node p).type)
        × ((after p).parent ≡ (node p).parent)
        × ((after p).payload ≡ (node p).payload)
        × ((after p).size ≡ (node p).size)
  old_fields p ne = elim (ℕ_discrete p dir) [
    | yes e ↦
        subst
          (λ q.
            ((after q).name ≡ (node q).name)
            × ((after q).type ≡ (node q).type)
            × ((after q).parent ≡ (node q).parent)
            × ((after q).payload ≡ (node q).payload)
            × ((after q).size ≡ (node q).size))
          (sym e) (rw after-dir ((refl, refl, refl, refl, refl)))
    | no d ↦ rw (after_old p ne d) ((refl, refl, refl, refl, refl))
  ]

  -- The children of an old node after the change, by cases.
  old_children :
      (p : ℕ)
      → p ≢ n
      → ((p ≡ dir) × ((after p).children ≡ n ∷ (node p).children))
        ⊎ ((after p).children ≡ (node p).children)
  old_children p ne = elim (ℕ_discrete p dir) [
    | yes e ↦
        inl (e, subst (λ q. (after q).children ≡ n ∷ (node q).children) (sym e) (rw after-dir refl))
    | no d ↦ inr (rw (after_old p ne d) refl)
  ]

  new_children : (after n).children ≡ []
  new_children = rw after_new empty

  -- A child after the change is one from before or the new node.
  after_child :
      (d c : ℕ)
      → d ≢ n
      → Among c (after d).children
      → ((c ≡ n) × (d ≡ dir)) ⊎ Among c (node d).children
  after_child d c ne i = elim (old_children d ne) [
    | inl (e, k) ↦ elim (subst (λ l. Among c l) k i) [ inl x ↦ inl (x, e) | inr j ↦ inr j ]
    | inr k ↦ inr (subst (λ l. Among c l) k i)
  ]

  child_after : (d c : ℕ) → d ≢ n → Among c (node d).children → Among c (after d).children
  child_after d c ne i = elim (old_children d ne) [
    | inl (e, k) ↦ subst (λ l. Among c l) (sym k) (inr i)
    | inr k ↦ subst (λ l. Among c l) (sym k) i
  ]

  after-Below : (p : ℕ) → Below after S.root p → Below node S.root p ⊎ (p ≡ n)
  after-Below p here = inl here
  after-Below p (child {d} b i) = elim (after-Below d b) [
    | inl old ↦ elim (after_child d p (fresh d old) i) [
      | inl e ↦ inr e.0
      | inr j ↦ inl (child old j)
    ]
    | inr e ↦
        absurd (subst (λ q. Among p q) new_children (subst (λ q. Among p (after q).children) e i))
  ]

  Below-after : (p : ℕ) → Below node S.root p → Below after S.root p
  Below-after p here = here
  Below-after p (child {d} b i) = child (Below-after d b) (child_after d p (fresh d b) i)

  old_found :
      (d : ℕ) (name : List ℕ)
      → Below node S.root d
      → find_child after (node d).children name ≡ find_child node (node d).children name
  old_found d name b =
      find_child-same node after (node d).children name
        λ c i. (old_fields c (fresh c (child b i))).0

  new_name : (after n).name ≡ (base n).name
  new_name = rw after_new refl

  grown_finds : find_child after (after dir).children (base n).name ≡ some n
  unfolding find_child
  grown_finds = rw (after-dir, new_name, same_name_refl (base n).name) refl

  grown_found :
      (d c : ℕ) (name : List ℕ)
      → Below node S.root d
      → find_child node (node d).children name ≡ some c
      → find_child after (after d).children name ≡ some c
  unfolding find_child
  grown_found d c name b f = elim (old_children d (fresh d b)) [
    | inr k ↦ rw (k, old_found d name b) f
    | inl (e, k) ↦
        rw (k, new_name)
          (elim (Bool-cases (same_name (base n).name name)) [
            | inl hit ↦ absurd (clash e hit)
            | inr miss ↦ rw (miss, old_found d name b) f
          ])
  ]
    where
      clash : d ≡ dir → same_name (base n).name name ≡ true → ⊥
      clash e hit =
          let named = same_name_sound (base n).name name hit in
          let gone : find_child node (node d).children name ≡ none = rw (e, ← named) unnamed in cc

  grown-Grows : Grows S.root node after
  grown-Grows = record {
    kept = λ p b. old_fields p (fresh p b);
    found = grown_found;
    below = Below-after;
  }

  grown_parent :
      (d c : ℕ)
      → Below after S.root d
      → Among c (after d).children
      → ((after c).parent ≡ d) × (c ≢ S.root) × (c ≢ 0)
  grown_parent d c b i = elim (after-Below d b) [
    | inr e ↦
        absurd (subst (λ q. Among c q) new_children (subst (λ q. Among c (after q).children) e i))
    | inl old ↦ elim (after_child d c (fresh d old) i) [
      | inl e ↦ (
        subst (λ q. (after q).parent ≡ d) (sym e.0) (rw after_new (sym e.1)),
        (λ r. fresh S.root here (sym r ∙ e.0)),
        (λ z. unused.0 (sym e.0 ∙ z)),
      )
      | inr j ↦
          let k = v.parent d c old j in ((old_fields c (fresh c (child old j))).2 ∙ k.0, k.1, k.2)
    ]
  ]

  grown_names : (d : ℕ) → Below after S.root d → HasDistinctNames after (after d).children
  grown_names d b = elim (after-Below d b) [
    | inr e ↦
        subst (λ q. HasDistinctNames after (after q).children) (sym e)
          (subst (λ l. HasDistinctNames after l) (sym new_children) tt)
    | inl old ↦
        let rest =
          names-same node after (node d).children (λ c i. (old_fields c (fresh c (child old i))).0)
            (v.names d old) in
        elim (old_children d (fresh d old)) [
          | inr k ↦ subst (λ l. HasDistinctNames after l) (sym k) rest
          | inl (e, k) ↦
              subst (λ l. HasDistinctNames after l) (sym k)
                ((rw new_name (old_found d (base n).name old ∙ rw e unnamed), rest))
        ]
  ]

  grown_leaves : (p : ℕ) → Below after S.root p → (after p).type ≢ tfs_dir → (after p).children ≡ []
  grown_leaves p b ne = elim (after-Below p b) [
    | inr e ↦ subst (λ q. (after q).children ≡ []) (sym e) new_children
    | inl old ↦
        let t = (old_fields p (fresh p old)).1 in
        elim (old_children p (fresh p old)) [
          | inr k ↦ k ∙ v.leaves p old (λ e. ne (t ∙ e))
          | inl (e, k) ↦ absurd (ne (t ∙ subst (λ q. (node q).type ≡ tfs_dir) (sym e) is_dir))
        ]
  ]

  -- Everything that was there stands one higher than the new node.
  abbrev grown_height : ℕ → ℕ
  grown_height p = if p == n then 0 else suc (v.height p)

  grown_lower :
      (d c : ℕ)
      → Below after S.root d
      → Among c (after d).children
      → grown_height c < grown_height d
  grown_lower d c b i = elim (after-Below d b) [
    | inr e ↦
        absurd (subst (λ q. Among c q) new_children (subst (λ q. Among c (after q).children) e i))
    | inl old ↦ elim (after_child d c (fresh d old) i) [
      | inl e ↦ ground (arith, fresh d old, e.0)
      | inr j ↦ ground (arith, fresh d old, fresh c (child old j), v.lower d c old j)
    ]
  ]

  -- A payload after the change is that of an old node.
  grown_payload :
      (p : ℕ)
      → Below after S.root p
      → (after p).payload ≢ 0
      → Below node S.root p × ((after p).payload ≡ (node p).payload)
  grown_payload p b ne = elim (after-Below p b) [
    | inr e ↦ absurd (ne (subst (λ q. (after q).payload ≡ 0) (sym e) (rw after_new bare)))
    | inl old ↦ (old, (old_fields p (fresh p old)).3)
  ]

  grown_payloads :
      (p : ℕ)
      → Below after S.root p
      → (after p).payload ≢ 0
      → Below after S.root (after p).payload
      → ⊥
  grown_payloads p b ne i =
      let (old, e) = grown_payload p b ne in
      let nz : (node p).payload ≢ 0 = λ z. ne (e ∙ z) in
      elim (after-Below (after p).payload i) [
        | inl j ↦ v.payloads p old nz (subst (λ q. Below node S.root q) e j)
        | inr x ↦ unused.2 p old nz (sym x ∙ e)
      ]

  grown_own :
      (p q : ℕ)
      → Below after S.root p
      → Below after S.root q
      → (after p).payload ≢ 0
      → (after p).payload ≡ (after q).payload
      → p ≡ q
  grown_own p q b c ne e =
      let (old, k) = grown_payload p b ne in
      let (old', k') = grown_payload q c (λ z. ne (e ∙ z)) in
      v.own p q old old' (λ z. ne (k ∙ z)) (sym k ∙ e ∙ k')

  grown-IsTree : IsTree S after
  grown-IsTree = record {
    top = (old_fields S.root (fresh S.root here)).2 ∙ v.top;
    top_nonzero = v.top_nonzero;
    parent = grown_parent;
    names = grown_names;
    leaves = grown_leaves;
    height = grown_height;
    lower = grown_lower;
    payloads = grown_payloads;
    own = grown_own;
  }

  -- The new node as it stands, in a tree that has grown by it alone.
  pub grown :
      IsTree S after
      × Grows S.root node after
      × ((p : ℕ) → Below after S.root p → Below node S.root p ⊎ (p ≡ n))
      × (find_child after (after dir).children (base n).name ≡ some n)
      × (after n ≡ record (base n) { parent = dir })
  grown = (grown-IsTree, grown-Grows, after-Below, grown_finds, after_new)
