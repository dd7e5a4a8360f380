-- ===== src/Tfs/Free.antt =====
-- src/tfs.c: what `free_children` frees, and that it returns.
use trait_os.Base.{ℕ, zero, suc, List, [], ◌∷◌}
use trait_os.Base.{Option, some, ◌≡◌, refl, ◌<◌, ◌⊎◌, inl, inr, ap, ◌∙◌, subst}
use trait_os.Base.{arith, ◌>>=◌}
use trait_os.Base.Update.{update_ne}
use native.Mathlib.Decide.{ℕ_discrete}
use trait_os.Heap.Valid.{Among}
use trait_os.Tfs.State.{Store, Node, Nodes, Fs}
use trait_os.Tfs.Change.{free_payload, free_node, free_each, free_children, set_children}

-- The fields that freeing leaves alone.
abbrev pub SameFields : Node → Node → Type 0
SameFields m m' =
    (m'.name ≡ m.name)
    × (m'.type ≡ m.type)
    × (m'.parent ≡ m.parent)
    × (m'.payload ≡ m.payload)
    × (m'.size ≡ m.size)

module _ (S : Store) (Gone : ℕ → Type 0) where
  -- Nothing but the lists of children of the nodes of `Gone` is cleared.
  pub record Frees (fs fs' : Fs S) : Type 0 where
    pub same : (p : ℕ) → SameFields (fs.node p) (fs'.node p)
    pub outside : (p : ℕ) → (Gone p → ⊥) → (fs'.node p).children ≡ (fs.node p).children
    pub fewer :
        (p : ℕ) → ((fs'.node p).children ≡ (fs.node p).children) ⊎ ((fs'.node p).children ≡ [])
    pub buffers : fs'.buffer ≡ fs.buffer

  Frees-refl : (fs : Fs S) → Frees fs fs
  Frees-refl fs = record {
    same = λ p. (refl, refl, refl, refl, refl);
    outside = λ p g. refl;
    fewer = λ p. inl refl;
    buffers = refl;
  }

  pub Frees-trans : {fs fs' fs'' : Fs S} → Frees fs fs' → Frees fs' fs'' → Frees fs fs''
  Frees-trans {fs} {fs'} {fs''} a b = record {
    same = λ p.
        let u = a.same p in
        let w = b.same p in (w.0 ∙ u.0, w.1 ∙ u.1, w.2 ∙ u.2, w.3 ∙ u.3, w.4 ∙ u.4);
    outside = λ p g. b.outside p g ∙ a.outside p g;
    fewer = λ p. elim (b.fewer p) [
      | inl e ↦ elim (a.fewer p) [ inl e' ↦ inl (e ∙ e') | inr e' ↦ inr (e ∙ e') ]
      | inr e ↦ inr e
    ];
    buffers = b.buffers ∙ a.buffers;
  }

  pub free_node-Frees : (fs : Fs S) (c : ℕ) → Gone c → Frees fs (free_node S fs c)
  unfolding free_node free_payload
  free_node-Frees fs c g = record {
    same = λ p. (refl, refl, refl, refl, refl);
    outside = λ p h. refl;
    fewer = λ p. inl refl;
    buffers = refl;
  }

  clear-Frees :
      (fs : Fs S) (n : ℕ) → Gone n → Frees fs (record fs { node = set_children fs.node n [] })
  clear-Frees fs n g = record {
    same = λ p. ground arith;
    outside = λ p h.
        ap (λ (m : Node). m.children)
          (update_ne fs.node (record (fs.node n) { children = [] }) (λ e. h (subst Gone e g)));
    fewer = λ p. elim (ℕ_discrete n p) [ yes e ↦ inr (ground arith) | no d ↦ inl (ground arith) ];
    buffers = refl;
  }

  module _ (height : ℕ → ℕ) where
    -- `Gone` holds what is below its nodes, which stands lower.
    abbrev pub IsClosed : Nodes → Type 0
    IsClosed node = (d c : ℕ) → Gone d → Among c (node d).children → Gone c × (height c < height d)

    Frees-IsClosed : {fs fs' : Fs S} → Frees fs fs' → IsClosed fs.node → IsClosed fs'.node
    Frees-IsClosed f k d c g i = elim (f.fewer d) [
      | inl e ↦ k d c g (subst (λ l. Among c l) e i)
      | inr e ↦ absurd (subst (λ l. Among c l) e i)
    ]

    abbrev pub Returns : Fs S → Option (Fs S) → Type 0
    Returns fs out = (fs' : Fs S) × (out ≡ some fs') × Frees fs fs'

    free_each-Returns :
        (below : Fs S → ℕ → Option (Fs S)) (fuel : ℕ)
        → ((fs : Fs S) (c : ℕ)
            → Gone c
            → IsClosed fs.node
            → height c < fuel
            → Returns fs (below fs c))
        → (fs : Fs S) (cs : List ℕ) → ((c : ℕ) → Among c cs → Gone c × (height c < fuel))
        → IsClosed fs.node
        → Returns fs (free_each S below fs cs)
    unfolding free_each
    free_each-Returns below fuel one fs [] all k = (fs, refl, Frees-refl fs)
    free_each-Returns below fuel one fs (c ∷ cs) all k =
        let (g, low) = all c (inl refl) in
        let (fs', e, f) = one fs c g k low in
        let f' = Frees-trans f (free_node-Frees fs' c g) in
        let (fs'', e', f'') =
          free_each-Returns below fuel one (free_node S fs' c) cs (λ x i. all x (inr i))
            (Frees-IsClosed f' k) in
        (
          fs'',
          ap (λ o. o >>= λ x. free_each S below (free_node S x c) cs) e ∙ e',
          Frees-trans f' f'',
        )

    -- With fuel above the height of the node, `free_children` returns.
    pub free_children-Returns :
        (fuel : ℕ) (fs : Fs S) (n : ℕ)
        → Gone n
        → IsClosed fs.node
        → height n < fuel
        → Returns fs (free_children S fuel fs n)
    unfolding free_children
    free_children-Returns zero fs n g k low = absurd (omega arith)
    free_children-Returns (suc fuel) fs n g k low =
        let clear : Fs S → Fs S = λ x. record x { node = set_children x.node n [] } in
        let (fs', e, f) =
          free_each-Returns (free_children S fuel) fuel (free_children-Returns fuel) fs
            (fs.node n).children (λ c i. ((k n c g i).0, omega (arith, (k n c g i).1))) k in
        (
          record fs' { node = set_children fs'.node n [] },
          ap (λ (o : Option (Fs S)). o >>= λ x. some (clear x)) e,
          Frees-trans f (clear-Frees fs' n g),
        )
