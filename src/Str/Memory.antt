-- ===== src/Str/Memory.antt =====
-- src/tstring.c: the routines that copy, fill and compare memory. Memory is the function from
-- an address to the byte there; no range runs over the end of the address space.
use trait_os.Base.{ℕ, zero, suc, ◌+◌, ◌%◌, ◌^◌, ltb, ◌==◌, if◌then◌else◌}
use trait_os.Base.Update.{update}

abbrev pub Memory : Type 0
Memory = ℕ → ℕ

-- `rounds` rounds of the loop of `tmemset`, from round `i` on.
unfoldable pub set_loop : ℕ → ℕ → ℕ → ℕ → Memory → Memory
set_loop s c zero i mem = mem
set_loop s c (suc rounds) i mem = set_loop s c rounds (i + 1) (update mem (s + i) (c % 2 ^ 8))

unfoldable pub memset : ℕ → ℕ → ℕ → Memory → Memory
memset s c n mem = set_loop s c n 0 mem

-- The loop of `tmemcpy`, which is the first of `tmemmove`.
unfoldable pub copy_up : ℕ → ℕ → ℕ → ℕ → Memory → Memory
copy_up dst src zero i mem = mem
copy_up dst src (suc rounds) i mem =
    copy_up dst src rounds (i + 1) (update mem (dst + i) (mem (src + i)))

unfoldable pub memcpy : ℕ → ℕ → ℕ → Memory → Memory
memcpy dst src n mem = copy_up dst src n 0 mem

-- The second loop of `tmemmove`, with `i` bytes left to copy.
unfoldable pub copy_down : ℕ → ℕ → ℕ → Memory → Memory
copy_down dst src zero mem = mem
copy_down dst src (suc i) mem = copy_down dst src i (update mem (dst + i) (mem (src + i)))

unfoldable pub memmove : ℕ → ℕ → ℕ → Memory → Memory
memmove dst src n mem =
    if ltb dst src
    then copy_up dst src n 0 mem
    else if ltb src dst
    then copy_down dst src n mem
    else mem

-- The first loop of `tstrncpy` ends at the terminator of `src`; `pad` is the second loop.
unfoldable pub pad : ℕ → ℕ → ℕ → Memory → Memory
pad dst zero i mem = mem
pad dst (suc rounds) i mem = pad dst rounds (i + 1) (update mem (dst + i) 0)

unfoldable pub copy_text : ℕ → ℕ → ℕ → ℕ → Memory → Memory
copy_text dst src zero i mem = mem
copy_text dst src (suc rounds) i mem =
    let rest = copy_text dst src rounds (i + 1) (update mem (dst + i) (mem (src + i))) in
    if mem (src + i) == 0 then pad dst (suc rounds) i mem else rest

unfoldable pub strncpy : ℕ → ℕ → ℕ → Memory → Memory
strncpy dst src n mem = copy_text dst src n 0 mem
