-- ===== src/Tfs/Slash.antt =====
-- src/tfs.c: `make_node` for a path that ends in a slash.
use trait_os.Base.{ℕ, List, [], ◌∷◌, ◌++◌, true, false, ◌==◌, if◌then◌else◌}
use trait_os.Base.{Option, none, some, ◌≡◌, refl, sym, ◌∙◌}
use trait_os.Base.{if_ind}
use trait_os.Tfs.Path.{Piece, pieces, join, extend, is_dot, is_dotdot}
use trait_os.Tfs.State.{
  Store, Fs, Move, goto, stop, descend, descend_missing, descend_into, move_to, tie, alloc_node_len,
}
use trait_os.Tfs.State.{find_child, tfs_dir, resolve_create, on_move, place, make_node}

-- Every segment has something after it.
abbrev GoesOn : List Piece → Type 0
GoesOn [] = Unit {0}
GoesOn (s ∷ ps) = (s.more ≡ true) × GoesOn ps

abbrev IsSome : List Piece → Type 0
IsSome [] = ⊥
IsSome (s ∷ ps) = Unit {0}

extend-IsSome : (c : ℕ) (ps : List Piece) → IsSome (extend c ps)
unfolding extend
extend-IsSome c [] = tt
extend-IsSome c (s ∷ ps) = tt

join-IsSome : (c : ℕ) (p : List ℕ) (ps : List Piece) → IsSome (join c p ps)
unfolding join
join-IsSome c [] ps = tt
join-IsSome c (d ∷ p) ps =
    if_ind IsSome (d == b'/') {x = record { text = c ∷ []; more = true } ∷ ps} (λ e. tt)
      λ e. extend-IsSome c ps

extend-GoesOn : (c : ℕ) (ps : List Piece) → IsSome ps → GoesOn ps → GoesOn (extend c ps)
unfolding extend
extend-GoesOn c [] i g = elim i [ ]
extend-GoesOn c (s ∷ ps) i g = g

-- The path `p` with a slash after it.
abbrev pub slash : List ℕ → List ℕ
slash p = p ++ (b'/' ∷ [])

join-GoesOn :
    (c : ℕ) (p : List ℕ) → GoesOn (pieces (slash p)) → GoesOn (join c (slash p) (pieces (slash p)))
unfolding join pieces
join-GoesOn c [] g = (refl, tt)
join-GoesOn c (d ∷ p) g =
    if_ind GoesOn (d == b'/') {x = record { text = c ∷ []; more = true } ∷ pieces (slash (d ∷ p))}
      (λ e. (refl, g))
      λ e.
        extend-GoesOn c (pieces (slash (d ∷ p))) (rw e (join-IsSome d (slash p) (pieces (slash p))))
          g

slash-GoesOn : (p : List ℕ) → GoesOn (pieces (slash p))
unfolding pieces
slash-GoesOn [] = tt
slash-GoesOn (c ∷ p) =
    if_ind GoesOn (c == b'/') {x = pieces (slash p)} (λ e. slash-GoesOn p)
      λ e. join-GoesOn c p (slash-GoesOn p)

module _ (S : Store) where
  -- A round that goes on, or returns NULL.
  abbrev IsOn : Move S → Type 0
  IsOn (goto c fs) = Unit {0}
  IsOn (stop none fs) = Unit {0}
  IsOn (stop (some leaf) fs) = ⊥

  move_to-IsOn : (out : Option ℕ × Fs S) → IsOn (move_to S out)
  unfolding move_to
  move_to-IsOn (none, fs) = tt
  move_to-IsOn (some c, fs) = tt

  into-IsOn :
      (fs : Fs S) (cur : ℕ) (s : Piece) (o : Option ℕ)
      → s.more ≡ true
      → IsOn (descend_into S fs cur s o)
  unfolding descend_into descend_missing
  into-IsOn fs cur s (some c) m = tt
  into-IsOn fs cur s none m =
      if_ind IsOn s.more (λ e. move_to-IsOn (tie S cur (alloc_node_len S fs s.text tfs_dir)))
        λ e. absurd (differ (sym m ∙ e))
    where
      differ : true ≡ false → ⊥
      differ e = cc

  descend-IsOn : (fs : Fs S) (cur : ℕ) (s : Piece) → s.more ≡ true → IsOn (descend S fs cur s)
  unfolding descend
  descend-IsOn fs cur s m =
      if_ind IsOn (is_dot s.text) {x = goto cur fs} (λ e. tt)
        λ e.
          if_ind IsOn (is_dotdot s.text)
            {x = goto (if (fs.node cur).parent == 0 then cur else (fs.node cur).parent) fs}
            (λ e'. tt)
            λ e'.
              if_ind IsOn ((fs.node cur).type == tfs_dir) {y = stop none fs}
                (λ t. into-IsOn fs cur s (find_child fs.node (fs.node cur).children s.text) m)
                λ t. tt

  resolve_create_on :
      (fs : Fs S) (cur : ℕ) (ps : List Piece) → GoesOn ps → (resolve_create S fs cur ps).0 ≡ none
  unfolding resolve_create
  resolve_create_on fs cur [] g = refl
  resolve_create_on fs cur (s ∷ ps) g =
      then_on (descend S fs cur s) (λ fs' c. resolve_create_on fs' c ps g.1)
        (descend-IsOn fs cur s g.0)
    where
      then_on :
          (m : Move S)
          → ((fs' : Fs S) (c : ℕ) → (resolve_create S fs' c ps).0 ≡ none)
          → IsOn m
          → (on_move S m (λ fs' c. resolve_create S fs' c ps)).0 ≡ none
      then_on (goto c fs') later i = later fs' c
      then_on (stop none fs') later i = refl
      then_on (stop (some leaf) fs') later i = elim i [ ]

  -- For every path that ends in a slash `make_node` returns NULL.
  pub make_node-slash :
      (fs : Fs S) (p : List ℕ) (type : ℕ) → (make_node S fs (slash p) type).0 ≡ none
  unfolding make_node place
  make_node-slash fs p type =
      placed (resolve_create S fs S.root (pieces (slash p)))
        (resolve_create_on fs S.root (pieces (slash p)) (slash-GoesOn p))
    where
      placed : (out : Option (ℕ × List ℕ) × Fs S) → out.0 ≡ none → (place S type out).0 ≡ none
      placed (none, fs') e = refl
      placed (some x, fs') e = cc
