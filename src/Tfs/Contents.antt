-- ===== src/Tfs/Contents.antt =====
-- src/tfs.c: what a reader sees after `tfs_write`.
use trait_os.Base.{ℕ, List}
use trait_os.Base.{◌≡◌, ◌≢◌}
use trait_os.Ipc.Fifo.{Rc, ok, fail}
use trait_os.Tfs.State.{Store, Fs}
use trait_os.Tfs.Valid.{IsTree, Below}
use trait_os.Tfs.Write.{contents, SameShape}

module _ (S : Store) where
  -- What `tfs_write` of `bytes` to the node `n` leaves, by its result.
  abbrev pub Writes : Fs S → ℕ → List ℕ → Rc × Fs S → Type 0
  Writes fs n bytes (ok, fs') =
      IsTree S fs'.node
      × SameShape fs.node fs'.node
      × (contents fs'.node fs'.buffer n ≡ bytes)
      × ((p : ℕ)
          → Below fs.node S.root p
          → p ≢ n
          → contents fs'.node fs'.buffer p ≡ contents fs.node fs.buffer p)
  Writes fs n bytes (fail, fs') =
      IsTree S fs'.node × (fs'.node ≡ fs.node) × (fs'.buffer ≡ fs.buffer)
