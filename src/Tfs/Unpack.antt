-- ===== src/Tfs/Unpack.antt =====
-- src/ttarfs.c: `tfs_unpack_tar` returns.
use trait_os.Base.{ℕ, ◌+◌, ◌≤◌, ◌≢◌}
use trait_os.Tfs.Tar.{size_at, next_header}

-- The offsets at which the loop looks for a header in an archive of `len` bytes: the start, and
-- behind each header that lies in the archive and does not begin with a zero.
pub data Reached (tar : ℕ → ℕ) (len : ℕ) : ℕ → Type 0 where
  start : Reached tar len 0
  next :
      {off : ℕ}
      → Reached tar len off
      → off + 512 ≤ len
      → tar off ≢ 0
      → Reached tar len (next_header off (size_at tar off))
