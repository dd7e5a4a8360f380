-- ===== src/Vmm/State.antt =====
-- src/tvmm.c: the page tables and the operations on them. A table is named by the physical
-- address of its frame, which the code turns into the pointer `VMM_PHYS_TO_VIRT(address)`; table
-- frames come from below 1 GiB, so that no such pointer is null. An address space is named by
-- the address of its PML4.
use trait_os.Base.{ℕ, ◌==◌, if◌then◌else◌}
use trait_os.Base.{Bool, false, not, Option, none, some, ◌>>=◌}
use trait_os.Base.Update.{update}
use trait_os.Ipc.Fifo.{Rc, ok, fail}
use trait_os.Pmm.State.{Pmm, alloc_low}
use trait_os.Vmm.Entry.{
  present, huge, grants, addr_of, table_entry, page_entry, pml4_index, pdpt_index, pd_index,
  pt_index, kernel_slot,
}

-- The memory of the tables: the entry at an index of the table at an address.
abbrev pub Tables : Type 0
Tables = ℕ → ℕ → ℕ

-- The tables, the frame manager they take frames from, `kernel_aspace` and `current`.
pub record Vm : Type 0 where
  pub tables : Tables
  pub frames : Pmm
  pub kernel : ℕ
  pub current : ℕ

-- `table[index] = e`
unfoldable pub write_entry : Tables → ℕ → ℕ → ℕ → Tables
write_entry ts table index e = update ts table (update (ts table) index e)

-- `tmemset(table, 0, 4096)`
unfoldable pub clear_table : Tables → ℕ → Tables
clear_table ts table = update ts table (λ index. 0)

unfoldable pub wire_table : ℕ → ℕ → ℕ → ℕ × Pmm → Vm → Option ℕ × Vm
wire_table table index flags (frame, frames) vm =
    if frame == 0 then (none, record vm { frames = frames }) else (
      some (addr_of frame),
      record vm {
        tables =
            write_entry (clear_table vm.tables (addr_of frame)) table index
              (table_entry frame flags);
        frames = frames;
      },
    )

unfoldable pub table_ensure : ℕ → ℕ → ℕ → Vm → Option ℕ × Vm
table_ensure table index flags vm =
    let e = vm.tables table index in
    if present e
    then (some (addr_of e), vm)
    else wire_table table index flags (alloc_low vm.frames) vm

-- The next `table_ensure` of a chain, which a null pointer ends.
unfoldable pub then_ensure : ℕ → ℕ → Option ℕ × Vm → Option ℕ × Vm
then_ensure index flags (none, vm) = (none, vm)
then_ensure index flags (some table, vm) = table_ensure table index flags vm

unfoldable pub ensure_pt : ℕ → ℕ → ℕ → Vm → Option ℕ × Vm
ensure_pt root virt flags vm =
    then_ensure (pd_index virt) flags
      (then_ensure (pdpt_index virt) flags (table_ensure root (pml4_index virt) flags vm))

unfoldable pub set_page : ℕ → ℕ → Option ℕ × Vm → Rc × Vm
set_page virt e (none, vm) = (fail, vm)
set_page virt e (some pt, vm) =
    (ok, record vm { tables = write_entry vm.tables pt (pt_index virt) e })

unfoldable pub aspace_map : ℕ → ℕ → ℕ → ℕ → Vm → Rc × Vm
aspace_map root virt phys flags vm =
    if kernel_slot (pml4_index virt)
    then (fail, vm)
    else set_page virt (page_entry phys flags) (ensure_pt root virt flags vm)

unfoldable pub map_page : ℕ → ℕ → ℕ → Vm → Rc × Vm
map_page virt phys flags vm =
    if not (kernel_slot (pml4_index virt))
    then (fail, vm)
    else set_page virt (page_entry phys flags) (ensure_pt vm.current virt flags vm)

unfoldable pub table_lookup : Tables → ℕ → ℕ → Option ℕ
table_lookup ts table index = let e = ts table index in if present e then some (addr_of e) else none

unfoldable pub find_pd : Tables → ℕ → ℕ → Option ℕ
find_pd ts root virt = do
  pdpt ← table_lookup ts root (pml4_index virt)
  table_lookup ts pdpt (pdpt_index virt)

unfoldable pub find_pt : Tables → ℕ → ℕ → Option ℕ
find_pt ts root virt = do pd ← find_pd ts root virt; table_lookup ts pd (pd_index virt)

unfoldable pub clear_page : ℕ → Option ℕ → Vm → Vm
clear_page virt none vm = vm
clear_page virt (some pt) vm = record vm { tables = write_entry vm.tables pt (pt_index virt) 0 }

unfoldable pub aspace_unmap : ℕ → ℕ → Vm → Vm
aspace_unmap root virt vm =
    if kernel_slot (pml4_index virt) then vm else clear_page virt (find_pt vm.tables root virt) vm

unfoldable pub unmap_page : ℕ → Vm → Vm
unmap_page virt vm =
    if not (kernel_slot (pml4_index virt))
    then vm
    else clear_page virt (find_pt vm.tables vm.current virt) vm

-- The walk of `vmm_aspace_phys` and `vmm_kernel_phys`: the frame of a page.
unfoldable pub page_frame : Tables → ℕ → ℕ → Option ℕ
page_frame ts root virt = do
  pd ← find_pd ts root virt
  if huge (ts pd (pd_index virt))
      then some (addr_of (ts pd (pd_index virt)))
      else (do pt ← table_lookup ts pd (pd_index virt); table_lookup ts pt (pt_index virt))

unfoldable pub aspace_phys : ℕ → ℕ → Vm → Option ℕ
aspace_phys root virt vm =
    if kernel_slot (pml4_index virt) then none else page_frame vm.tables root virt

unfoldable pub kernel_phys : ℕ → Vm → Option ℕ
kernel_phys virt vm =
    if not (kernel_slot (pml4_index virt)) then none else page_frame vm.tables vm.current virt

-- `page_has`, with the tables that are missing told apart from the entry that lacks a bit.
unfoldable pub page_flags : Tables → ℕ → ℕ → Option ℕ
page_flags ts root virt = do
  pd ← find_pd ts root virt
  if huge (ts pd (pd_index virt))
      then some (ts pd (pd_index virt))
      else (do pt ← table_lookup ts pd (pd_index virt); some (ts pt (pt_index virt)))

unfoldable pub entry_has : Option ℕ → ℕ → Bool
entry_has none need = false
entry_has (some e) need = grants e need

unfoldable pub page_has : ℕ → ℕ → Vm → Bool
page_has virt need vm = entry_has (page_flags vm.tables vm.current virt) need
