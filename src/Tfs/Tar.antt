-- ===== src/Tfs/Tar.antt =====
-- src/ttarfs.c: `tfs_unpack_tar`, which makes the nodes of an archive. `tar` gives the bytes from the
-- start of the archive on, those after its end included.
use trait_os.Base.{ℕ, zero, suc, ◌+◌, ◌-◌, ◌*◌, ◌/◌, ◌%◌, ◌^◌, List, [], ◌∷◌, ◌++◌}
use trait_os.Base.{Option, none, some, leb, ltb, ◌==◌, ◌||◌, if◌then◌else◌, take}
use trait_os.Tfs.State.{Store, Fs, mkdir, touch}
use trait_os.Tfs.Change.{write_file}
use trait_os.Sys.State.{bytes_at}

-- The two loops of `tar_field`: base 256, and octal up to the first byte that is no digit.
unfoldable pub base_256 : ℕ → List ℕ → ℕ
base_256 v [] = v
base_256 v (c ∷ cs) = base_256 ((v * 2 ^ 8 + c) % 2 ^ 64) cs

unfoldable pub octal : ℕ → List ℕ → ℕ
octal v [] = v
octal v (c ∷ cs) =
    let rest = octal ((v * 8 + (c - b'0')) % 2 ^ 64) cs in
    if ltb c b'0' || ltb b'7' c then v else rest

unfoldable pub tar_field : List ℕ → ℕ
tar_field [] = 0
tar_field (c ∷ cs) = if leb 128 c then base_256 (c % 128) cs else octal 0 (c ∷ cs)

-- A text without the slashes at its end, and `strip_trailing_slash`, which keeps the first byte.
unfoldable pub without_slashes : List ℕ → List ℕ
without_slashes [] = []
without_slashes (c ∷ cs) = elim (without_slashes cs) [
  | [] ↦ if c == b'/' then [] else c ∷ []
  | d ∷ ds ↦ c ∷ d ∷ ds
]

unfoldable pub strip_trailing_slash : List ℕ → List ℕ
strip_trailing_slash [] = []
strip_trailing_slash (c ∷ cs) = c ∷ without_slashes cs

-- The text at `a`: the bytes before the first zero, at most `n`.
unfoldable pub text_at : (ℕ → ℕ) → ℕ → ℕ → List ℕ
text_at tar a zero = []
text_at tar a (suc n) = let rest = text_at tar (a + 1) n in if tar a == 0 then [] else tar a ∷ rest

-- The path of the entry whose header is at `off`; `full` has 128 bytes, of which `tsprintf` keeps one
-- for the terminator.
unfoldable pub path_at : (ℕ → ℕ) → ℕ → List ℕ
path_at tar off =
    let prefix = text_at tar (off + 345) 128 in
    let name = text_at tar off 128 in
    strip_trailing_slash (if tar (off + 345) == 0 then name else take 127 (prefix ++ (b'/' ∷ name)))

unfoldable pub size_at : (ℕ → ℕ) → ℕ → ℕ
size_at tar off = tar_field (bytes_at tar (off + 124) 12)

-- `off + (recs + 1) * 512`
unfoldable pub next_header : ℕ → ℕ → ℕ
next_header off size = (off + ((size + 511) % 2 ^ 64 / 512 + 1) * 512) % 2 ^ 64

module _ (S : Store) where
  -- The contents of the file that `tfs_touch` returned, if it did.
  unfoldable pub fill_entry : (ℕ → ℕ) → ℕ → ℕ → Option ℕ × Fs S → Fs S
  fill_entry tar off size (none, fs) = fs
  fill_entry tar off size (some f, fs) =
      if size == 0 then fs else (write_file S fs (some f) (bytes_at tar (off + 512) size)).1

  -- The `switch` on the type of the entry.
  unfoldable pub unpack_entry : (ℕ → ℕ) → ℕ → Fs S → Fs S
  unpack_entry tar off fs =
      let path = path_at tar off in
      let flag = tar (off + 156) in
      elim path [
        | [] ↦ fs
        | c ∷ cs ↦
            if flag == b'5'
            then (mkdir S fs (c ∷ cs)).1
            else if flag == b'0' || flag == 0
            then fill_entry tar off (size_at tar off) (touch S fs (c ∷ cs))
            else fs
      ]

  -- The loop of `tfs_unpack_tar`, on fuel; `none` means that it ran out.
  unfoldable pub unpack : ℕ → (ℕ → ℕ) → ℕ → ℕ → Fs S → Option (Fs S)
  unpack zero tar len off fs = none
  unpack (suc fuel) tar len off fs =
      let rest =
        unpack fuel tar len (next_header off (size_at tar off)) (unpack_entry tar off fs) in
      if leb ((off + 512) % 2 ^ 64) len then (if tar off == 0 then some fs else rest) else some fs

  unfoldable pub unpack_tar : ℕ → (ℕ → ℕ) → ℕ → Fs S → Option (Fs S)
  unpack_tar fuel tar len fs = unpack fuel tar len 0 fs
