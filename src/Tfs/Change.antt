-- ===== src/Tfs/Change.antt =====
-- src/tfs.c: writing a file, removing a node, virtual files, listings and mounts.
use trait_os.Base.{ℕ, zero, suc, List, [], ◌∷◌, ◌==◌, if◌then◌else◌, length}
use trait_os.Base.{Option, none, some, leb, take, ◌++◌, ◌>>=◌}
use trait_os.Base.Update.{update}
use trait_os.Ipc.Fifo.{Rc, ok, fail}
use trait_os.Tfs.State.{Mount}
use trait_os.Tfs.State.{Store, Nodes, Fs, alloc_node, tie, tfs_dir, tfs_file, max_mounts}

-- The list of the nodes after the first `n` is taken out.
unfoldable pub unlink : ℕ → List ℕ → List ℕ
unlink n [] = []
unlink n (c ∷ cs) = if c == n then cs else c ∷ unlink n cs

abbrev pub set_children : Nodes → ℕ → List ℕ → Nodes
set_children node n cs = update node n (record (node n) { children = cs })

module _ (S : Store) where
  -- Setting the generator of a new virtual file; zero is NULL.
  unfoldable pub set_gen : ℕ → Option ℕ × Fs S → Option ℕ × Fs S
  set_gen gen (none, fs) = (none, fs)
  set_gen gen (some n, fs) =
      (some n, record fs { node = update fs.node n (record (fs.node n) { gen = gen }) })

  unfoldable pub add_virtual : Fs S → Option ℕ → List ℕ → ℕ → Option ℕ × Fs S
  add_virtual fs none name gen = (none, fs)
  add_virtual fs (some dir) name gen =
      if (fs.node dir).type == tfs_dir
      then tie S dir (set_gen gen (alloc_node S fs name tfs_file))
      else (none, fs)

  -- Freeing an old payload, if there is one.
  unfoldable pub free_payload : ℕ → S.State → S.State
  free_payload p h = if p == 0 then h else S.tfree p h

  -- `buf` is the new payload's address and `fs` the state with its bytes in place.
  unfoldable pub put_payload : Fs S → ℕ → ℕ → ℕ → Fs S
  put_payload fs n buf len = record fs {
    heap = free_payload (fs.node n).payload fs.heap;
    node = update fs.node n (record (fs.node n) { payload = buf; size = len });
  }

  unfoldable pub write_buf : Fs S → ℕ → List ℕ → Option ℕ × S.State → Rc × Fs S
  write_buf fs n bytes (none, h) = (fail, record fs { heap = h })
  write_buf fs n bytes (some buf, h) = (
    ok,
    put_payload (record fs { heap = h; buffer = update fs.buffer buf bytes }) n buf (length bytes),
  )

  -- `tfs_write` to a file: a buffer for the bytes, if there are any.
  unfoldable pub fill_file : Fs S → ℕ → List ℕ → Rc × Fs S
  fill_file fs n [] = (ok, put_payload fs n 0 0)
  fill_file fs n (b ∷ bs) = write_buf fs n (b ∷ bs) (S.tmalloc (length (b ∷ bs)) fs.heap)

  -- `tfs_write` of the bytes `bytes`, `len` of them; `none` is the node NULL.
  unfoldable pub write_file : Fs S → Option ℕ → List ℕ → Rc × Fs S
  write_file fs none bytes = (fail, fs)
  write_file fs (some n) bytes =
      if (fs.node n).type == tfs_file then fill_file fs n bytes else (fail, fs)

  -- `if (c->data) tfree(c->data); tfree(c);`
  unfoldable pub free_node : Fs S → ℕ → Fs S
  free_node fs c = record fs { heap = S.tfree c (free_payload (fs.node c).payload fs.heap) }

  -- The loop of `free_children` over the nodes of a list, `below` being its own call on a node.
  unfoldable pub free_each : (Fs S → ℕ → Option (Fs S)) → Fs S → List ℕ → Option (Fs S)
  free_each below fs [] = some fs
  free_each below fs (c ∷ cs) = do fs' ← below fs c; free_each below (free_node fs' c) cs

  -- `free_children`, with fuel for the depth of the calls; `none` means that it ran out.
  unfoldable pub free_children : ℕ → Fs S → ℕ → Option (Fs S)
  free_children zero fs n = none
  free_children (suc fuel) fs n = do
    fs' ← free_each (free_children fuel) fs (fs.node n).children
    some (record fs' { node = set_children fs'.node n [] })

  -- `tfs_rm`; the node `none` is NULL.
  unfoldable pub rm : ℕ → Fs S → Option ℕ → Option (Rc × Fs S)
  rm fuel fs none = some (fail, fs)
  rm fuel fs (some n) =
      if n == S.root
      then some (fail, fs)
      else let dir = (fs.node n).parent in
        let cut = record fs { node = set_children fs.node dir (unlink n (fs.node dir).children) } in
        free_children fuel cut n >>= λ fs'. some (ok, free_node fs' n)

  -- The nodes that `tfs_list` calls its callback with, in order.
  unfoldable pub list_dir : Fs S → Option ℕ → List ℕ
  list_dir fs none = []
  list_dir fs (some dir) = if (fs.node dir).type == tfs_dir then (fs.node dir).children else []

  -- `tfs_mount`: `tstrncpy` fills at most the 32 bytes of the label, with no terminator when it
  -- fills all of them.
  unfoldable pub mount : Fs S → List ℕ → Option ℕ → Fs S
  mount fs name none = fs
  mount fs name (some n) =
      if leb max_mounts (length fs.mounts)
      then fs
      else record fs { mounts = fs.mounts ++ (record { label = take 32 name; at = n } ∷ []) }

  -- `tfs_init` and the mounts that `tfs_mount_list` calls its callback with.
  unfoldable pub init : Fs S → Fs S
  init fs = record fs { mounts = [] }

  unfoldable pub mount_list : Fs S → List Mount
  mount_list fs = fs.mounts
