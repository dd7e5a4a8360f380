-- ===== src/Scenario/Tfs.antt =====
-- src/tfs.c: a small tree over a store that hands out rising addresses.
use trait_os.Base.{ℕ, suc, List, [], ◌∷◌, true, false, if◌then◌else◌, ◌+◌, leb}
use trait_os.Base.{Option, none, some, ◌≡◌, refl, arith}
use trait_os.Ipc.Fifo.{ok}
use trait_os.Tfs.Path.{pieces, join, extend, is_dot, is_dotdot, same_name, Piece}
use trait_os.Tfs.State.{mkdir}
use trait_os.Tfs.State.{
  Store, Fs, find_child, walk_step, walk_path, lookup, root_node, make_node, place, place_in,
  resolve_create, descend, descend_into, descend_missing, tie, link_child, alloc_node,
  alloc_node_len, fill_node, move_to, tfs_dir, tfs_file,
}
use trait_os.Tfs.Change.{rm}
use trait_os.Tfs.Valid.{IsTree, Unused, Below, here, child}
use trait_os.Tfs.Create.{Adds}
use trait_os.Tfs.Resolve.{make_node-Makes}
use trait_os.Tfs.Existing.{make_node_exists, make_node_free}
use trait_os.Tfs.Remove.{Removes, rm-Removes}
use trait_os.Tfs.Slash.{slash, make_node-slash}
use trait_os.Tfs.Walk.{walk_path-Below}
use trait_os.Tfs.Tar.{
  path_at, size_at, text_at, strip_trailing_slash, without_slashes, tar_field, octal, unpack_tar,
  unpack, unpack_entry, next_header,
}
use trait_os.Sys.State.{bytes_at}
use trait_os.Base.{◌==◌, sym, subst, ◌>>=◌, Bool, ◌⊎◌, inl, inr}

-- Sixteen addresses above the root's are handed out, then none.
abbrev rising : ℕ → ℕ → Option ℕ × ℕ
rising n h = if leb 24 h then (none, h) else (some (h + 1), h + 1)

abbrev store : Store
store = record { State = ℕ; tmalloc = rising; tfree = λ p h. h; root = 8 }

-- The tree as it starts, with nothing but the root.
abbrev bare : Fs store
bare = record { heap = 8; node = λ p. root_node 8; buffer = λ p. []; mounts = [] }

only_root : (p : ℕ) → Below bare.node 8 p → p ≡ 8
only_root p here = refl
only_root p (child b i) = elim i [ ]

bare-IsTree : IsTree store bare.node
bare-IsTree = record {
  top = refl;
  top_nonzero = omega arith;
  parent = λ d c b i. elim i [ ];
  names = λ d b. tt;
  leaves = λ p b ne. refl;
  height = λ p. 0;
  lower = λ d c b i. elim i [ ];
  payloads = λ p b ne. absurd (ne refl);
  own = λ p q b c ne e. absurd (ne refl);
}

-- "/a", "/a/b" and "/a/c"
abbrev path_a : List ℕ
path_a = b'/' ∷ b'a' ∷ []

abbrev path_ab : List ℕ
path_ab = b'/' ∷ b'a' ∷ b'/' ∷ b'b' ∷ []

abbrev path_ac : List ℕ
path_ac = b'/' ∷ b'a' ∷ b'/' ∷ b'c' ∷ []

abbrev name_a : Bool → Piece
name_a more = record { text = b'a' ∷ []; more = more }

abbrev name_b : Piece
name_b = record { text = b'b' ∷ []; more = false }

-- `tfs_mkdir("/a")`
abbrev fs_a : Fs store
fs_a = (make_node store bare path_a tfs_dir).1

root-Unused : Unused 8 bare.node 9
root-Unused = (omega arith, (λ b. omega (arith, only_root 9 b)), λ p b nz. absurd (nz refl))

made_a : Adds store bare 8 (b'a' ∷ []) tfs_dir 9 fs_a
unfolding lookup make_node resolve_create descend descend_into descend_missing tie link_child
    alloc_node alloc_node_len fill_node move_to place place_in walk_step walk_path find_child pieces
    join extend is_dot is_dotdot same_name
made_a =
    (make_node-Makes store bare path_a tfs_dir 8 9 [] (name_a false) 9 bare-IsTree refl refl refl
      refl refl refl refl (omega arith) refl root-Unused).2

in_a : (p : ℕ) → Below fs_a.node 8 p → (p ≡ 8) ⊎ (p ≡ 9)
in_a p b = elim (made_a.2 p b) [ inl old ↦ inl (only_root p old) | inr e ↦ inr e ]

payload_a : (p : ℕ) → Below fs_a.node 8 p → (fs_a.node p).payload ≡ 0
unfolding lookup make_node resolve_create descend descend_into descend_missing tie link_child
    alloc_node alloc_node_len fill_node move_to place place_in walk_step walk_path find_child pieces
    join extend is_dot is_dotdot same_name
payload_a p b = elim (in_a p b) [
  | inl e ↦ subst (λ x. (fs_a.node x).payload ≡ 0) (sym e) refl
  | inr e ↦ subst (λ x. (fs_a.node x).payload ≡ 0) (sym e) refl
]

a-Unused : Unused 8 fs_a.node 10
a-Unused = (
  omega arith,
  (λ b. elim (in_a 10 b) [ inl e ↦ absurd (omega (arith, e)) | inr e ↦ absurd (omega (arith, e)) ]),
  λ p b nz. absurd (nz (payload_a p b)),
)

-- `tfs_touch("/a/b")`
abbrev grown_fs : Fs store
grown_fs = (make_node store fs_a path_ab tfs_file).1

made_b : Adds store fs_a 9 (b'b' ∷ []) tfs_file 10 grown_fs
unfolding lookup make_node resolve_create descend descend_into descend_missing tie link_child
    alloc_node alloc_node_len fill_node move_to place place_in walk_step walk_path find_child pieces
    join extend is_dot is_dotdot same_name
made_b =
    (make_node-Makes store fs_a path_ab tfs_file 9 10 (name_a true ∷ []) name_b 10 made_a.0 refl
      refl refl refl refl refl refl (omega arith) refl a-Unused).2

finds_a : lookup store grown_fs path_a ≡ some 9
unfolding lookup make_node resolve_create descend descend_into descend_missing tie link_child
    alloc_node alloc_node_len fill_node move_to place place_in walk_step walk_path find_child pieces
    join extend is_dot is_dotdot same_name
finds_a = refl

a-Below : Below grown_fs.node 8 9
unfolding lookup
a-Below = walk_path-Below store grown_fs.node made_b.0 8 9 (pieces path_a) here finds_a

make_node_exists_example : make_node store grown_fs path_a tfs_file ≡ (none, grown_fs)
make_node_exists_example = make_node_exists store grown_fs path_a tfs_file 9 finds_a

make_node_free_example : (make_node store grown_fs path_ac tfs_dir).0 ≡ some 11
unfolding make_node resolve_create descend descend_into descend_missing tie link_child alloc_node
    alloc_node_len fill_node move_to place place_in walk_step walk_path find_child pieces join
    extend is_dot is_dotdot same_name
make_node_free_example =
    make_node_free store grown_fs path_ac tfs_dir 9 11
      (record { text = b'a' ∷ []; more = true } ∷ []) (record { text = b'c' ∷ []; more = false }) 11
      refl refl refl refl refl refl refl (omega arith) refl

rm-Removes_example :
    (last : Fs store) × (rm store (suc (made_b.0.height 9)) grown_fs (some 9) ≡ some (ok, last))
    × Removes store grown_fs 9 last
rm-Removes_example =
    rm-Removes store grown_fs 9 (suc (made_b.0.height 9)) made_b.0 a-Below (omega arith)
      (omega arith)

make_node-slash_example : (make_node store bare (slash path_a) tfs_dir).0 ≡ none
make_node-slash_example = make_node-slash store bare path_a tfs_dir

-- The directory is there all the same.
slash_made : lookup store (make_node store bare (slash path_a) tfs_dir).1 path_a ≡ some 9
unfolding lookup make_node resolve_create descend descend_into descend_missing tie link_child
    alloc_node alloc_node_len fill_node move_to place place_in walk_step walk_path find_child pieces
    join extend is_dot is_dotdot same_name
slash_made = refl

-- An archive with the directory "d" and nothing else.
abbrev archive : ℕ → ℕ
archive i = if i == 0 then b'd' else if i == 156 then b'5' else 0

-- The path and the directory that the archive makes.
path_of_d : path_at archive 0 ≡ b'd' ∷ []
unfolding path_at text_at strip_trailing_slash without_slashes
path_of_d = refl

unpacked : (unpack_tar store 3 archive 1024 bare >>= λ fs. lookup store fs (b'd' ∷ [])) ≡ some 9
unfolding unpack_tar unpack unpack_entry next_header size_at tar_field octal bytes_at path_at
    text_at strip_trailing_slash without_slashes lookup make_node resolve_create descend
    descend_into descend_missing tie link_child alloc_node alloc_node_len fill_node move_to place
    place_in walk_step walk_path find_child pieces join extend is_dot is_dotdot same_name mkdir
unpacked = refl
