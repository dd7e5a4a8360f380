-- ===== src/Tfs/Remove.antt =====
-- src/tfs.c: the tree after `tfs_rm`.
use trait_os.Base.{ℕ, List, [], false, ◌==◌}
use trait_os.Base.{Option, some, ◌≡◌, ◌≢◌, refl, ◌<◌, inl, inr, ap, sym, ◌∙◌, subst}
use trait_os.Base.{arith, ◌>>=◌, ◌↔◌}
use trait_os.Heap.Valid.{Among}
use trait_os.Ipc.Fifo.{ok}
use trait_os.Tfs.State.{Store, Nodes, Fs, tfs_dir}
use trait_os.Tfs.Change.{unlink, free_node, rm}
use trait_os.Tfs.Valid.{IsTree, Below, here, child, HasDistinctNames, names-same}
use trait_os.Tfs.Free.{
  SameFields, Frees, free_node-Frees, free_children-Returns, Frees-trans, IsClosed,
}
use trait_os.Tfs.Unlink.{
  unlink-Among, Among-unlink, unlink-names, unlink_gone, cut_out, cut_children, cut-Among,
}

Below-trans : {node : Nodes} {a b c : ℕ} → Below node a b → Below node b c → Below node a c
Below-trans p here = p
Below-trans p (child q i) = child (Below-trans p q) i

module _ (S : Store) (fs last : Fs S) (n : ℕ) (v : IsTree S fs.node) (at : Below fs.node S.root n)
    (ne : n ≢ S.root)
    (f : Frees S (Below fs.node n) (record fs { node = cut_out fs.node n }) last) where
  abbrev node : Nodes
  node = fs.node

  abbrev dir : ℕ
  dir = (node n).parent

  fields : (p : ℕ) → SameFields (node p) (last.node p)
  fields p =
      let w = f.same p in
      let u : SameFields (node p) (cut_out node n p) = ground arith in
      (w.0 ∙ u.0, w.1 ∙ u.1, w.2 ∙ u.2, w.3 ∙ u.3, w.4 ∙ u.4)

  -- What is left in a list was there before.
  sub : (d c : ℕ) → Among c (last.node d).children → Among c (node d).children
  sub d c i = elim (f.fewer d) [
    | inr e ↦ absurd (subst (λ l. Among c l) e i)
    | inl e ↦ elim (cut_children node n d) [
      | inl k ↦ unlink-Among n c (node d).children (subst (λ l. Among c l) (e ∙ k.1) i)
      | inr k ↦ subst (λ l. Among c l) (e ∙ k.1) i
    ]
  ]

  was : (p : ℕ) → Below last.node S.root p → Below node S.root p
  was p here = here
  was p (child {d} b i) = child (was d b) (sub d p i)

  -- The node is in no list of the tree that is left.
  unlisted : (d : ℕ) → Below last.node S.root d → Among n (last.node d).children → ⊥
  unlisted d b i =
      let home : dir ≡ d = (v.parent d n (was d b) (sub d n i)).0 in
      elim (f.fewer d) [
        | inr e ↦ subst (λ l. Among n l) e i
        | inl e ↦ elim (cut_children node n d) [
          | inl k ↦
              unlink_gone node n (node d).children (v.names d (was d b))
                (subst (λ l. Among n l) (e ∙ k.1) i)
          | inr k ↦ k.0 (sym home)
        ]
      ]

  -- Nothing below the node is reached any more.
  gone : (p : ℕ) → Below node n p → Below last.node S.root p → ⊥
  gone p here b = top_gone n refl b
    where
      top_gone : (q : ℕ) → q ≡ n → Below last.node S.root q → ⊥
      top_gone q e here = ne (sym e)
      top_gone q e (child {d} b i) = unlisted d b (subst (λ x. Among x (last.node d).children) e i)
  gone p (child {d} below i) b = climb (gone d below) p refl b
    where
      climb : (Below last.node S.root d → ⊥) → (q : ℕ) → q ≡ p → Below last.node S.root q → ⊥
      climb up q e here = (v.parent d p (Below-trans at below) i).1 (sym e)
      climb up q e (child {d = d'} b' i') =
          let here_up = (v.parent d' q (was d' b') (sub d' q i')).0 in
          let there_up = (v.parent d p (Below-trans at below) i).0 in
          up (
            subst (λ x. Below last.node S.root x)
              (sym here_up ∙ ap (λ x. (node x).parent) e ∙ there_up) b')

  -- All that is not below it still is.
  kept : (p : ℕ) → Below node S.root p → (Below node n p → ⊥) → Below last.node S.root p
  kept p here out = here
  kept p (child {d} b i) out =
      let out_up : Below node n d → ⊥ = λ q. out (child q i) in
      child (kept d b out_up) (
        subst (λ l. Among p l) (sym (f.outside d out_up))
          (elim (cut_children node n d) [
            | inl k ↦
                subst (λ l. Among p l) (sym k.1)
                  (Among-unlink n p (node d).children
                    (λ e. out (subst (λ x. Below node n x) (sym e) here)) i)
            | inr k ↦ subst (λ l. Among p l) (sym k.1) i
          ]))

  last_names :
      (d : ℕ) → Below last.node S.root d → HasDistinctNames last.node (last.node d).children
  last_names d b =
      let names = v.names d (was d b) in
      let same = λ (l : List ℕ) (w : HasDistinctNames node l).
        names-same node last.node l (λ c i. (fields c).0) w in
      elim (f.fewer d) [
        | inr e ↦ subst (λ l. HasDistinctNames last.node l) (sym e) tt
        | inl e ↦ elim (cut_children node n d) [
          | inl k ↦
              subst (λ l. HasDistinctNames last.node l) (sym (e ∙ k.1))
                (same (unlink n (node d).children) (unlink-names node n (node d).children names))
          | inr k ↦
              subst (λ l. HasDistinctNames last.node l) (sym (e ∙ k.1))
                (same (node d).children names)
        ]
      ]

  last_leaves :
      (p : ℕ)
      → Below last.node S.root p
      → (last.node p).type ≢ tfs_dir
      → (last.node p).children ≡ []
  unfolding unlink
  last_leaves p b t =
      let empty = v.leaves p (was p b) (λ e. t ((fields p).1 ∙ e)) in
      elim (f.fewer p) [
        | inr e ↦ e
        | inl e ↦ elim (cut_children node n p) [
          | inl k ↦ e ∙ k.1 ∙ ap (unlink n) empty
          | inr k ↦ e ∙ k.1 ∙ empty
        ]
      ]

  last-IsTree : IsTree S last.node
  last-IsTree = record {
    top = (fields S.root).2 ∙ v.top;
    top_nonzero = v.top_nonzero;
    parent =
        λ d c b i. let k = v.parent d c (was d b) (sub d c i) in ((fields c).2 ∙ k.0, k.1, k.2);
    names = last_names;
    leaves = last_leaves;
    height = v.height;
    lower = λ d c b i. v.lower d c (was d b) (sub d c i);
    payloads = λ p b nz x.
        let same = (fields p).3 in
        v.payloads p (was p b) (λ z. nz (same ∙ z))
          (subst (λ y. Below node S.root y) same (was (last.node p).payload x));
    own = λ p q b c nz e.
        v.own p q (was p b) (was q c) (λ z. nz ((fields p).3 ∙ z))
          (sym (fields p).3 ∙ e ∙ (fields q).3);
  }

  -- The state `last` is what is left of `fs` without `n` and all that is below it.
  pub removed :
      IsTree S last.node
      × ((p : ℕ) → Below last.node S.root p ↔ (Below node S.root p × (Below node n p → ⊥)))
      × ((p : ℕ) → SameFields (node p) (last.node p))
      × (last.buffer ≡ fs.buffer)
  removed = (
    last-IsTree,
    λ p. ((λ b. (was p b, λ q. gone p q b)), (λ k. kept p k.0 k.1)),
    fields,
    f.buffers,
  )

module _ (S : Store) where
  -- What `tfs_rm` leaves of `fs` without `n`.
  abbrev pub Removes : Fs S → ℕ → Fs S → Type 0
  Removes fs n last =
      IsTree S last.node
      × ((p : ℕ) → Below last.node S.root p ↔ (Below fs.node S.root p × (Below fs.node n p → ⊥)))
      × ((p : ℕ) → SameFields (fs.node p) (last.node p))
      × (last.buffer ≡ fs.buffer)

  -- Whatever `tmalloc` and `tfree` do with their own state, for a node of a well-formed tree other
  -- than the root, and a depth of calls above the node's height: `tfs_rm` returns 0, and leaves a
  -- well-formed tree. The tree then consists of exactly the nodes that were in it and are not below
  -- the removed one; every node record keeps its name, type, parent, size and data pointer, and the
  -- buffers are as they were.
  pub rm-Removes :
      (fs : Fs S) (n fuel : ℕ) (v : IsTree S fs.node)
      → Below fs.node S.root n
      → n ≢ S.root
      → v.height n < fuel
      → (last : Fs S) × (rm S fuel fs (some n) ≡ some (ok, last)) × Removes fs n last
  unfolding rm
  rm-Removes fs n fuel v at ne low =
      let off : (n == S.root) ≡ false = ground arith in
      let cut : Fs S = record fs { node = cut_out fs.node n } in
      let closed : IsClosed S (Below fs.node n) v.height cut.node = λ d c b i.
        let i' = cut-Among fs.node n d c i in (child b i', v.lower d c (Below-trans at b) i') in
      let (fs', e, f) =
        free_children-Returns S (Below fs.node n) v.height fuel cut n here closed low in
      let f' = Frees-trans S (Below fs.node n) f (free_node-Frees S (Below fs.node n) fs' n here) in
      (
        free_node S fs' n,
        rw off (ap (λ (o : Option (Fs S)). o >>= λ x. some (ok, free_node S x n)) e),
        removed S fs (free_node S fs' n) n v at ne f',
      )
