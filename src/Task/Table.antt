-- ===== src/Task/Table.antt =====
-- src/ttask.h and the static state of src/ttask.c: a task, and the scheduler with its task table.
use trait_os.Base.{ℕ, ◌*◌, Bool, false, List, []}
use trait_os.Task.Pick.{State, free}

abbrev pub max_tasks : ℕ
max_tasks = 32

abbrev pub name_len : ℕ
name_len = 16

abbrev pub stack_bytes : ℕ
stack_bytes = 8 * 1024

-- The iretq frame that a fresh task starts from.
pub record Frame : Type 0 where
  pub rip : ℕ
  pub cs : ℕ
  pub rflags : ℕ
  pub rsp : ℕ
  pub ss : ℕ

-- What `context` points at: the stack that `ttask_switch_ctx` resumes. A task that has run was
-- left inside `ttask_pick_switch`, whose local `next` is kept here, or inside `ttask_block`.
pub data Context : Type 0 where
  no_context : Context
  entry : Frame → Context
  in_pick_switch : ℕ → Context
  in_block : Context

-- `ttask_t`; pointers are numbers, and 0 is the null pointer.
pub record Task : Type 0 where
  pub context : Context
  pub name : List ℕ
  pub state : State
  pub priority : ℕ
  pub ticks : ℕ
  pub slice : ℕ
  pub switches : ℕ
  pub blocked_count : ℕ
  pub wake_count : ℕ
  pub fn : ℕ
  pub arg : ℕ
  pub stack : ℕ
  pub stack_size : ℕ
  pub user_mode : Bool
  pub aspace : ℕ
  pub user_rsp : ℕ

-- A task after `tmemset(t, 0, sizeof *t)`.
abbrev pub zero_task : Task
zero_task = record {
  context = no_context;
  name = [];
  state = free;
  priority = 0;
  ticks = 0;
  slice = 0;
  switches = 0;
  blocked_count = 0;
  wake_count = 0;
  fn = 0;
  arg = 0;
  stack = 0;
  stack_size = 0;
  user_mode = false;
  aspace = 0;
  user_rsp = 0;
}

-- The static variables of src/ttask.c, with the two states outside it that it writes: the kernel
-- stack of the TSS, and the address space that CR3 holds (`current` of src/tvmm.c).
pub record Sched : Type 0 where
  pub tasks : ℕ → Task
  pub scheduler_ready : Bool
  pub total_switches : ℕ
  pub total_blocks : ℕ
  pub total_wakes : ℕ
  pub current : ℕ
  pub rsp0 : ℕ
  pub active_aspace : ℕ

-- The addresses that the linker and src/tvmm.c give: `&stack_top`, `&ttask_entry`, and
-- `vmm_aspace_kernel()`.
pub record Layout : Type 0 where
  pub stack_top : ℕ
  pub task_entry : ℕ
  pub kernel_aspace : ℕ
