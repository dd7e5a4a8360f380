-- ===== src/Tfs/State.antt =====
-- src/tfs.c and src/tfs.h: the nodes, the walks over paths and the operations of the tree. A
-- directory's chain of `children` and `next` links is the list of its nodes, the head first;
-- `tmalloc` and `tfree` are those of the store that the definitions take.
use trait_os.Base.{ℕ, List, [], ◌∷◌, ◌==◌, if◌then◌else◌, length, ◌-◌}
use trait_os.Base.{Option, none, some, ◌>>=◌, leb, take}
use trait_os.Base.Update.{update}
use trait_os.Tfs.Path.{Piece, pieces, is_dot, is_dotdot, same_name}

-- What the tree uses of the heap, and the address of the static `root`. Nothing is assumed of the two
-- operations; the nodes and buffers below are apart from the memory that they work on.
pub record Store : Type 1 where
  pub State : Type 0
  pub tmalloc : ℕ → State → Option ℕ × State
  pub tfree : ℕ → State → State
  pub root : ℕ

-- `TFS_FILE`, `TFS_DIR`, `MAX_NAME`, `MAX_MOUNTS` and `sizeof(tfs_node_t)`
abbrev pub tfs_file : ℕ
tfs_file = 0

abbrev pub tfs_dir : ℕ
tfs_dir = 1

abbrev pub max_name : ℕ
max_name = 64

abbrev pub max_mounts : ℕ
max_mounts = 8

abbrev pub node_size : ℕ
node_size = 120

-- `payload` is the pointer `data`, and `gen` the generator's address; zero is NULL.
pub record Node : Type 0 where
  pub name : List ℕ
  pub type : ℕ
  pub size : ℕ
  pub payload : ℕ
  pub gen : ℕ
  pub parent : ℕ
  pub children : List ℕ

pub record Mount : Type 0 where
  pub label : List ℕ
  pub at : ℕ

abbrev pub Nodes : Type 0
Nodes = ℕ → Node

pub record Fs (S : Store) : Type 0 where
  pub heap : S.State
  pub node : Nodes
  pub buffer : ℕ → List ℕ
  pub mounts : List Mount

-- The static `root` before anything is in it.
abbrev pub root_node : ℕ → Node
root_node r = record {
  name = b'/' ∷ [];
  type = tfs_dir;
  size = 0;
  payload = 0;
  gen = 0;
  parent = r;
  children = [];
}

unfoldable pub find_child : Nodes → List ℕ → List ℕ → Option ℕ
find_child node [] name = none
find_child node (c ∷ cs) name =
    if same_name (node c).name name then some c else find_child node cs name

-- The walk of `tfs_lookup` over one segment.
unfoldable pub walk_step : Nodes → ℕ → List ℕ → Option ℕ
walk_step node cur seg =
    if is_dot seg
    then some cur
    else if is_dotdot seg
    then some (if (node cur).parent == 0 then cur else (node cur).parent)
    else if (node cur).type == tfs_dir
    then find_child node (node cur).children seg
    else none

unfoldable pub walk_path : Nodes → ℕ → List Piece → Option ℕ
walk_path node cur [] = some cur
walk_path node cur (s ∷ ps) = walk_step node cur s.text >>= λ c. walk_path node c ps

-- The links that tie a new node into a directory.
unfoldable pub link_child : Nodes → ℕ → ℕ → Nodes
link_child node dir n =
    let tied = update node n (record (node n) { parent = dir }) in
    update tied dir (record (tied dir) { children = n ∷ (tied dir).children })

-- What a call leaves: a walk goes on at a node, or returns.
pub data Move (S : Store) : Type 0 where
  goto : ℕ → Fs S → Move S
  stop : Option (ℕ × List ℕ) → Fs S → Move S

module _ (S : Store) where
  unfoldable pub lookup : Fs S → List ℕ → Option ℕ
  lookup fs path = walk_path fs.node S.root (pieces path)

  -- `alloc_node_len` with what `tmalloc` returned.
  unfoldable pub fill_node : Fs S → List ℕ → ℕ → Option ℕ × S.State → Option ℕ × Fs S
  fill_node fs name type (none, h) = (none, record fs { heap = h })
  fill_node fs name type (some n, h) =
      let len = if leb max_name (length name) then max_name - 1 else length name in
      let fresh : Node = record {
        name = take len name;
        type = type;
        size = 0;
        payload = 0;
        gen = 0;
        parent = 0;
        children = [];
      } in
      (some n, record fs { heap = h; node = update fs.node n fresh })

  unfoldable pub alloc_node_len : Fs S → List ℕ → ℕ → Option ℕ × Fs S
  unfolding fill_node
  alloc_node_len fs name type = fill_node fs name type (S.tmalloc node_size fs.heap)

  unfoldable pub alloc_node : Fs S → List ℕ → ℕ → Option ℕ × Fs S
  alloc_node fs name type = alloc_node_len fs name type

  -- A new node tied into `dir`, where there was memory for one.
  unfoldable pub tie : ℕ → Option ℕ × Fs S → Option ℕ × Fs S
  tie dir (none, fs) = (none, fs)
  tie dir (some n, fs) = (some n, record fs { node = link_child fs.node dir n })

  unfoldable pub move_to : Option ℕ × Fs S → Move S
  move_to (none, fs) = stop none fs
  move_to (some c, fs) = goto c fs

  -- The segment `s` is not in the directory `cur`.
  unfoldable pub descend_missing : Fs S → ℕ → Piece → Move S
  descend_missing fs cur s =
      if s.more
      then move_to (tie cur (alloc_node_len fs s.text tfs_dir))
      else if leb max_name (length s.text)
      then stop none fs
      else stop (some (cur, s.text)) fs

  -- The search for the segment `s` in `cur`, by its result.
  unfoldable pub descend_into : Fs S → ℕ → Piece → Option ℕ → Move S
  descend_into fs cur s (some c) = goto c fs
  descend_into fs cur s none = descend_missing fs cur s

  -- The round of `resolve_create` for one segment.
  unfoldable pub descend : Fs S → ℕ → Piece → Move S
  descend fs cur s =
      if is_dot s.text
      then goto cur fs
      else if is_dotdot s.text
      then goto (if (fs.node cur).parent == 0 then cur else (fs.node cur).parent) fs
      else if (fs.node cur).type == tfs_dir
      then descend_into fs cur s (find_child fs.node (fs.node cur).children s.text)
      else stop none fs

  abbrev pub on_move : Move S → (Fs S → ℕ → Option (ℕ × List ℕ) × Fs S) → Option (ℕ × List ℕ) × Fs S
  on_move (goto c fs) rest = rest fs c
  on_move (stop out fs) rest = (out, fs)

  unfoldable pub resolve_create : Fs S → ℕ → List Piece → Option (ℕ × List ℕ) × Fs S
  resolve_create fs cur [] = (none, fs)
  resolve_create fs cur (s ∷ ps) = on_move (descend fs cur s) (λ fs' c. resolve_create fs' c ps)

  -- The end of `make_node`, by the result of its search for `leaf` in `dir`.
  unfoldable pub place_in : Fs S → ℕ → List ℕ → ℕ → Option ℕ → Option ℕ × Fs S
  place_in fs dir leaf type (some c) = (none, fs)
  place_in fs dir leaf type none = tie dir (alloc_node fs leaf type)

  -- `make_node` after `resolve_create`.
  unfoldable pub place : ℕ → Option (ℕ × List ℕ) × Fs S → Option ℕ × Fs S
  place type (none, fs) = (none, fs)
  place type (some (dir, leaf), fs) =
      place_in fs dir leaf type (find_child fs.node (fs.node dir).children leaf)

  unfoldable pub make_node : Fs S → List ℕ → ℕ → Option ℕ × Fs S
  make_node fs path type = place type (resolve_create fs S.root (pieces path))

  unfoldable pub mkdir : Fs S → List ℕ → Option ℕ × Fs S
  mkdir fs path = make_node fs path tfs_dir

  unfoldable pub touch : Fs S → List ℕ → Option ℕ × Fs S
  touch fs path = make_node fs path tfs_file
