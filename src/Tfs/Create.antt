-- ===== src/Tfs/Create.antt =====
-- src/tfs.c: what a new entry of a directory does to the tree.
use trait_os.Base.{ℕ, List, [], ◌∷◌, false, if◌then◌else◌, length}
use trait_os.Base.{none, some, ◌≡◌, ◌≢◌, refl, ◌<◌, ap, sym, ◌∙◌}
use trait_os.Base.{arith, ◌⊎◌, take, leb, ◌-◌}
use trait_os.Base.Update.{update, update_self, update_ne}
use trait_os.Tfs.State.{Store, Node, Fs, find_child, tfs_dir, max_name}
use trait_os.Tfs.State.{link_child, tie, fill_node}
use trait_os.Tfs.Valid.{IsTree, Below, Unused}
use trait_os.Tfs.Grow.{Grows, grown}

pub take-length : (xs : List ℕ) → take (length xs) xs ≡ xs
take-length [] = refl
take-length (x ∷ xs) = rw (take-length xs) refl

-- A name that fits is stored whole.
stored_name :
    (name : List ℕ)
    → length name < 64
    → take (if leb max_name (length name) then max_name - 1 else length name) name ≡ name
stored_name name h =
    let e : leb max_name (length name) ≡ false = ground arith in rw e (take-length name)

-- A node as it is made.
abbrev pub new_node : List ℕ → ℕ → ℕ → Node
new_node name type dir = record {
  name = name;
  type = type;
  size = 0;
  payload = 0;
  gen = 0;
  parent = dir;
  children = [];
}

module _ (S : Store) where
  -- What a new entry `n` of the directory `dir` leaves.
  abbrev pub Adds : Fs S → ℕ → List ℕ → ℕ → ℕ → Fs S → Type 0
  Adds fs dir name type n fs' =
      IsTree S fs'.node
      × Grows S.root fs.node fs'.node
      × ((p : ℕ) → Below fs'.node S.root p → Below fs.node S.root p ⊎ (p ≡ n))
      × (find_child fs'.node (fs'.node dir).children name ≡ some n)
      × (fs'.node n ≡ new_node name type dir)

  pub fill-Adds :
      (fs : Fs S) (dir : ℕ) (name : List ℕ) (type n : ℕ) (h' : S.State)
      → IsTree S fs.node
      → Below fs.node S.root dir
      → (fs.node dir).type ≡ tfs_dir
      → length name < 64
      → find_child fs.node (fs.node dir).children name ≡ none
      → Unused S.root fs.node n
      → Adds fs dir name type n (tie S dir (fill_node S fs name type (some n, h'))).1
  unfolding tie fill_node
  fill-Adds fs dir name type n h' v b t short gone unused =
      let fresh =
        new_node (take (if leb max_name (length name) then max_name - 1 else length name) name) type
          0 in
      let base = update fs.node n fresh in
      let at_n : base n ≡ fresh = update_self fs.node n fresh in
      let named : (base n).name ≡ name = ap (λ (m : Node). m.name) at_n ∙ stored_name name short in
      let same : (p : ℕ) → p ≢ n → base p ≡ fs.node p =
        λ p ne. update_ne fs.node fresh (λ x. ne (sym x)) in
      let unnamed : find_child fs.node (fs.node dir).children (base n).name ≡ none =
        ap (find_child fs.node (fs.node dir).children) named ∙ gone in
      let no_children : (base n).children ≡ [] = ap (λ (m : Node). m.children) at_n in
      let bare : (base n).payload ≡ 0 = ap (λ (m : Node). m.payload) at_n in
      let (tree, grows, only, finds, stands) =
        grown S fs.node base dir n v b t unused same no_children bare unnamed in
      (
        tree,
        grows,
        only,
        ap (find_child (link_child base dir n) (link_child base dir n dir).children) (sym named)
            ∙ finds,
        stands
            ∙ ap (λ (m : Node). record m { parent = dir }) at_n
            ∙ ap (λ x. new_node x type dir) (stored_name name short),
      )
