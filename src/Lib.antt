-- ===== src/Lib.antt =====
-- TrigerOS, a small x86-64 kernel: a model of its core logic, and theorems about it.
--
-- The kernel's parts meet in the scheduler and the memory managers. Tasks are created in a fixed
-- table and run round robin by priority; IPC parks a task in a wait queue and wakes it through
-- the scheduler; frames of physical memory come from a bitmap. Page tables take their frames from
-- it, the heap grows through both, and a program is loaded by mapping fresh frames in its address
-- space. Keys reach the shell through a ring that the keyboard's interrupt fills, the kernel's
-- image is mapped by entries that are never both writable and executable, and programs are
-- planned by an ELF parser before they are mapped. User tasks reach IPC, the scheduler and the
-- keyboard through system calls that check their buffers in the page tables, and files live in a
-- tree of nodes on the heap.
--
-- Files:
-- - Base and its children: Boolean tests, lists, finite functions for C arrays, bits of words,
--   and the window of a ring. They model no code of their own.
-- - Ipc/Fifo: the queue that the rings promise to be, and the results 0 and -1 of C functions.
--   Ipc/WaitQueue and Ipc/Mailbox: src/tipc_core.h, `tipc_waitq_t` and `tipc_mailbox_t` with
--   their `tipc_core_` functions; in each, Refine compares it with the queue.
-- - Ipc/Transfer: src/tipc.c, `tipc_send` and `tipc_recv`, each round of their loops being one
--   function; Delivery runs them interleaved. Ipc/Mutex: `tipc_mutex_t` and its functions, with
--   Exclusion for interleaved lockers.
-- - Task/Pick and Task/Slice: src/ttask_core.h. Task/Table: src/ttask.h and the static variables
--   of src/ttask.c. Task/Switch, Task/Create and Task/Ops: the functions of src/ttask.c, named
--   without their prefix `ttask_`. Task/Run: sequences of them.
-- - Pmm/Bitmap, Pmm/State and Pmm/Init: src/tpmm.c, its bitmap, its operations (named without
--   `tpmm_`) and its boot. Pmm/Count counts the bits; Pmm/Valid has the invariant; Pmm/Alloc,
--   Pmm/Contig, Pmm/RoundTrip and Pmm/Boot are about the allocators, freeing and booting.
-- - Keyboard: src/keyboard.c, its handler, ring of keys and `keyboard_getchar`; Keyboard/Refine
--   compares the ring with a queue, and Keyboard/Keys says which keys are stored.
-- - Sec/Pte: src/tsec_core.h, its functions without their prefix `tsec_`; Sec/Hardening reads the
--   flags and addresses of the entries. Sec/Kaslr: src/tsec.c, the loop of `sec_kaslr_relocate`
--   that chooses a slot; Sec/Slots is about the slot.
-- - Elf/Parse: src/telf_core.h, its functions without their prefix `telf_`; Elf/Plan is about the
--   plans it accepts. Elf/Load: src/telf.c, `telf_load`; Elf/Tables, Elf/Copies and Elf/Keep are
--   about what it leaves of the page tables and of memory.
-- - Str/Memory and Str/Number: src/tstring.c, its memory routines (named without their prefix
--   `t`), and its printing of numbers; Str/Moves and Str/Digits are about them. Str/Text: its
--   comparisons and searches of strings. Str/Format: `tsprintf`.
-- - Shell: src/tsh.c, the environment and the history, whose functions lose the prefix `tsh_`;
--   Shell/Laws is about both. Shell/Expand: history references. Shell/Tokens: `tsh_tokenize`.
-- - Vmm/Entry: src/tvmm.h and the masks of src/tvmm.c. Vmm/State: src/tvmm.c, its tables,
--   `table_ensure`, mapping, unmapping and lookup (named without `vmm_`; find_pd and find_pt are
--   the chains of `table_lookup` that the functions share). Vmm/Space: `vmm_range_user`, and the
--   making and the end of an address space. Vmm/Tree states when the tables are trees, with a
--   ghost map from each table to the space and the indices that it belongs to; Vmm/Grow, Vmm/Wire
--   and Vmm/Ensure are about fresh tables, Vmm/Write and Vmm/Lookup about last tables, Vmm/Map,
--   Vmm/Pages, Vmm/Unmap, Vmm/Range and Vmm/Create about the operations; Vmm/Perms reads off the
--   tables with arithmetic what an address allows.
-- - Heap/State: src/tmalloc.c, its blocks in a memory of words, `grow_heap`, `tmalloc` and
--   `tfree` (named without `t`; the loop over the free list is first_fit, and split, claim_block
--   and carve are the steps of `tmalloc`). Heap/Valid states when the blocks are apart, with a
--   ghost owner for every address; Heap/Links, Heap/Take, Heap/Fit, Heap/Lends and Heap/Growth
--   are about the steps, Heap/Safe, Heap/Search and Heap/Laws about the operations.
-- - Sys/State: the state that src/tsys.c works on, its `tipc_table` and the saved registers.
--   Sys/Calls: `syscall_handler`, its `switch` being dispatch, and the rounds of the calls that
--   wait. Sys/Cases splits a statement about the handler into its calls; Sys/Memory and Sys/User
--   are about the memory of the task, Sys/Objects, Sys/Effect and Sys/Entries about the table,
--   Sys/Deliver about a receive and Sys/Sleep about the deadline of a sleep.
-- - Tfs/Path and Tfs/State: src/tfs.c and src/tfs.h, how a path is cut into segments, the nodes,
--   `tfs_lookup` and `make_node` (pieces are the segments, walk_path and resolve_create the two
--   walks over them); Tfs/Change: `tfs_write`, `tfs_rm`, `tfs_add_virtual`, the listings and the
--   mounts. Tfs/Valid states when the nodes are a tree, with a ghost height for every node;
--   Tfs/Grow, Tfs/Walk, Tfs/Create, Tfs/Resolve, Tfs/Existing and Tfs/Slash are about making
--   nodes, Tfs/Write and Tfs/Contents about writing, Tfs/Free, Tfs/Unlink and Tfs/Remove about
--   removal. Tfs/Tar: src/ttarfs.c, `tfs_unpack_tar`; Tfs/Unpack is about its loop.
-- - Scenario and its children: concrete states and runs.
--
-- A C array is a function from its indices, and an unsigned integer is a natural number with its
-- wrap-around written out. A loop over a range of known length is recursion on the number of its
-- rounds, which is the exact number the source runs, so no fuel is guessed. The one loop on fuel,
-- over the digits of a number, is given the number itself, and Str/Digits shows by its result
-- that this is enough. A loop that waits for another task (`for (;;)` in src/tipc.c) is modelled
-- by its rounds: each gives the caller's result or says that it waits, and a run is any list of
-- rounds and scheduler operations. Functions that run with interrupts off are single steps, as
-- the code runs on one processor.
--
-- `ttask_switch_ctx` is assembly: it is modelled as the change of the current task, and what the
-- resumed task then does is read off the saved context. What `tmalloc` returns to the scheduler
-- is an argument. Pointers passed to the IPC functions are not null. Texts of the shell are
-- shorter than the arrays that hold them. `tpmm_init` takes the entries of the boot loader's
-- memory map as a list.
--
-- The search of the free list takes the number of its rounds as an argument; more rounds than
-- free blocks are enough for it to end. What the kernel writes in the blocks that it was lent is
-- not part of the heap's memory: a caller writes over the header.
--
-- The ghost map of the page tables (Roles) is no data of the kernel: a theorem about spaces is
-- stated for tables that some such map describes, and says which map describes them afterwards.
-- The flush of the TLB has no state, and `vmm_aspace_create` takes whether `tmalloc` has room as
-- an argument.
--
-- The tree of files takes `tmalloc` and `tfree` from a store (Tfs/State), whatever they do: nodes
-- and buffers are looked up by their addresses, and do not share memory with the headers of
-- src/tmalloc.c. In the program `tmalloc` returns the address of a header and a node is written
-- over it; what this does to later calls of `tmalloc` is not modelled. No law of the store is
-- assumed: where a theorem needs that an address that `tmalloc` gives in one call is not in use
-- in the tree already, that is a hypothesis on this call (Unused, in Tfs/Valid). A directory's
-- chain of children is the list of its nodes, the head first. `free_children` has fuel for the
-- depth of its calls; a depth above the height of the node is enough. The loop of
-- `tfs_unpack_tar` has fuel, of which a round for every 512 bytes of the archive and one more is
-- enough while the sizes in it do not wrap. A path is the list of its bytes.
--
-- The loader writes to physical memory as bytes, apart from the page tables. A segment whose size
-- in memory was cut to 32 bits can have more bytes than its frames; the copy then runs over other
-- memory, for which the model has the flag `overrun` and nothing else.
--
-- A system call that waits is its rounds, as in src/tipc.c: the first ends with the handler's
-- result or with what the call holds on to, and a further round starts from that and from the
-- state of the kernel at that time. The bytes of user memory are those of the calling task's
-- address space.
--
-- Not modelled: the rest of src/tsec.c, the generated files of src/tprocfs.c and src/tsysfs.c,
-- the search for the boot archive, the shell's commands; input and output on ports, the tables of
-- the processor, boot code in assembly, the user programs and the tests on the host.
pub mod Base
pub mod Ipc
pub mod Task
pub mod Pmm
pub mod Sec
pub mod Keyboard
pub mod Elf
pub mod Str
pub mod Shell
pub mod Vmm
pub mod Heap
pub mod Tfs
pub mod Sys
pub mod Scenario
