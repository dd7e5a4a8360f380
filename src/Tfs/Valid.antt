-- ===== src/Tfs/Valid.antt =====
-- src/tfs.c: what the tree keeps. A node is reached from `root` along the lists of children; no two
-- nodes share a payload, and no payload is a node.
use trait_os.Base.{ℕ, List, [], ◌∷◌}
use trait_os.Base.{none, some, ◌≡◌, ◌≢◌, refl, ◌<◌, inl, inr, ◌∙◌}
use trait_os.Base.{Bool-cases, arith}
use trait_os.Heap.Valid.{Among}
use trait_os.Tfs.Path.{same_name}
use trait_os.Tfs.State.{Store, Nodes, find_child, tfs_dir}

-- The nodes below `top`, itself included.
pub data Below (node : Nodes) (top : ℕ) : ℕ → Type 0 where
  here : Below node top top
  child : {d c : ℕ} → Below node top d → Among c (node d).children → Below node top c

-- No name in a directory is that of a later node of it.
abbrev pub HasDistinctNames : Nodes → List ℕ → Type 0
HasDistinctNames node [] = Unit {0}
HasDistinctNames node (c ∷ cs) =
    (find_child node cs (node c).name ≡ none) × HasDistinctNames node cs

pub record IsTree (S : Store) (node : Nodes) : Type 0 where
  pub top : (node S.root).parent ≡ S.root
  pub top_nonzero : S.root ≢ 0
  pub parent :
      (d c : ℕ)
      → Below node S.root d
      → Among c (node d).children
      → ((node c).parent ≡ d) × (c ≢ S.root) × (c ≢ 0)
  pub names : (d : ℕ) → Below node S.root d → HasDistinctNames node (node d).children
  pub leaves : (p : ℕ) → Below node S.root p → (node p).type ≢ tfs_dir → (node p).children ≡ []
  pub height : ℕ → ℕ
  pub lower : (d c : ℕ) → Below node S.root d → Among c (node d).children → height c < height d
  pub payloads :
      (p : ℕ) → Below node S.root p → (node p).payload ≢ 0 → Below node S.root (node p).payload → ⊥
  pub own :
      (p q : ℕ)
      → Below node S.root p
      → Below node S.root q
      → (node p).payload ≢ 0
      → (node p).payload ≡ (node q).payload
      → p ≡ q

-- An address that is not null, no node of the tree and no payload of one.
abbrev pub Unused : ℕ → Nodes → ℕ → Type 0
Unused root node a =
    (a ≢ 0)
    × (Below node root a → ⊥)
    × ((p : ℕ) → Below node root p → (node p).payload ≢ 0 → a ≢ (node p).payload)

-- A child that is found is one of the list and has the name.
pub find_child-Among :
    (node : Nodes) (cs name : List ℕ) (c : ℕ) → find_child node cs name ≡ some c → Among c cs
unfolding find_child
find_child-Among node [] name c h = cc
find_child-Among node (x ∷ cs) name c h = elim (Bool-cases (same_name (node x).name name)) [
  | inl e ↦ inl (ground arith)
  | inr e ↦ inr (find_child-Among node cs name c (rw e at h))
]

-- Names that agree on a list find the same child.
pub find_child-same :
    (node node' : Nodes) (cs name : List ℕ)
    → ((c : ℕ) → Among c cs → (node' c).name ≡ (node c).name)
    → find_child node' cs name ≡ find_child node cs name
unfolding find_child
find_child-same node node' [] name same = refl
find_child-same node node' (c ∷ cs) name same =
    rw (same c (inl refl), find_child-same node node' cs name (λ x i. same x (inr i))) refl

pub names-same :
    (node node' : Nodes) (cs : List ℕ)
    → ((c : ℕ) → Among c cs → (node' c).name ≡ (node c).name)
    → HasDistinctNames node cs
    → HasDistinctNames node' cs
names-same node node' [] same v = tt
names-same node node' (c ∷ cs) same v = (
  rw (same c (inl refl))
      (find_child-same node node' cs (node c).name (λ x i. same x (inr i)) ∙ v.0),
  names-same node node' cs (λ x i. same x (inr i)) v.1,
)
