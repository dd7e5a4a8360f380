-- ===== src/Vmm/Space.antt =====
-- src/tvmm.c: the check of a user's buffer, and the life of an address space.
use trait_os.Base.{ℕ, zero, suc, ◌+◌, ◌-◌, ◌*◌, ◌/◌, ltb, ◌==◌, if◌then◌else◌, ◌||◌}
use trait_os.Base.{Bool, true, false, not, Option, none, some}
use Prim.Native.Nat.{bit_or}
use trait_os.Base.Update.{update}
use trait_os.Pmm.State.{Pmm, alloc_low, page_size, pages_of, free}
use trait_os.Vmm.Entry.{
  present, huge, addr_of, kernel_slot, kernel_pml4_start, page_present, page_user, page_write,
}
use trait_os.Vmm.State.{Tables, Vm, page_has, clear_table}

-- `VMM_USER_BASE` and `VMM_USER_END`
abbrev pub user_base : ℕ
user_base = 0x0000008000000000

abbrev pub user_end : ℕ
user_end = 0x0000010000000000

unfoldable pub need_of : Bool → ℕ
need_of write =
    let need = bit_or page_present page_user in if write then bit_or need page_write else need

-- The loop over the pages from `page` on.
unfoldable pub pages_have : ℕ → ℕ → ℕ → Vm → Bool
pages_have zero page need vm = true
pages_have (suc pages) page need vm =
    let rest = pages_have pages (page + page_size) need vm in
    if not (page_has page need vm) then false else rest

unfoldable pub range_user : ℕ → ℕ → Bool → Vm → Bool
range_user addr len write vm =
    if len == 0
    then true
    else if ltb addr user_base
    then false
    else if ltb user_end addr || ltb (user_end - addr) len
    then false
    else pages_have (pages_of addr len) (addr / page_size * page_size) (need_of write) vm

-- `vmm_init`, with the value of the register CR3.
unfoldable pub init : ℕ → Vm → Vm
init cr3 vm = record vm { kernel = addr_of cr3; current = addr_of cr3 }

-- The new table, with the kernel's slots copied.
unfoldable pub share_kernel : (ℕ → ℕ) → ℕ → ℕ
share_kernel kernel_slots i = if kernel_slot i then kernel_slots i else 0

-- `has_room` is whether `tmalloc` finds memory for the record of the space.
unfoldable pub created : Bool → ℕ × Pmm → Vm → Option ℕ × Vm
created has_room (frame, frames) vm =
    let ts = clear_table vm.tables (addr_of frame) in
    let shared = update ts (addr_of frame) (share_kernel (ts vm.kernel)) in
    if frame == 0
    then (none, record vm { frames = frames })
    else if not has_room
    then (none, record vm { tables = shared; frames = free frame frames })
    else (some frame, record vm { tables = shared; frames = frames })

unfoldable pub aspace_create : Bool → Vm → Option ℕ × Vm
aspace_create has_room vm = created has_room (alloc_low vm.frames) vm

-- The loops of `free_table` and `vmm_aspace_destroy` over the present entries of a table, with
-- what is done at one.
unfoldable pub at_entries : (ℕ → Pmm → Pmm) → (ℕ → ℕ) → ℕ → ℕ → Pmm → Pmm
at_entries visit table zero i p = p
at_entries visit table (suc rounds) i p =
    at_entries visit table rounds (i + 1)
      (elim (present (table i)) [ true ↦ visit (table i) p | false ↦ p ])

unfoldable pub free_table : Tables → ℕ → ℕ → Pmm → Pmm
free_table ts zero table p = at_entries (λ e q. free (addr_of e) q) (ts table) 512 0 p
free_table ts (suc level) table p =
    at_entries
      (λ e q.
        free (addr_of e) (elim (huge e) [ true ↦ q | false ↦ free_table ts level (addr_of e) q ]))
      (ts table) 512 0 p

-- A space that is null is `none`.
unfoldable pub aspace_destroy : Option ℕ → Vm → Vm
aspace_destroy none vm = vm
aspace_destroy (some root) vm = if root == vm.current then vm else record vm {
  frames = free root (
      at_entries (λ e q. free_table vm.tables 2 (addr_of e) q) (vm.tables root)
        (kernel_pml4_start - 1) 1 vm.frames);
}

unfoldable pub aspace_switch : ℕ → Vm → Vm
aspace_switch root vm = record vm { current = root }

unfoldable pub aspace_current : Vm → ℕ
aspace_current vm = vm.current

unfoldable pub aspace_kernel : Vm → ℕ
aspace_kernel vm = vm.kernel
