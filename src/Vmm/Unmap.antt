-- ===== src/Vmm/Unmap.antt =====
-- What `vmm_aspace_unmap` of src/tvmm.c promises, as `vmm_aspace_phys` sees it.
use trait_os.Base.{ℕ, ◌≡◌, refl, sym, ap, ap₂, ◌∙◌, arith, if◌then◌else◌, inl, inr}
use trait_os.Base.{Bool, true, false, Option, none, some, ◌>>=◌, [], Bool-cases, if_ind}
use trait_os.Ipc.Fifo.{ok}
use trait_os.Vmm.Entry.{page_entry, addr_of, kernel_slot, pml4_index, pt_index}
use trait_os.Vmm.Entry.Laws.{present-zero}
use trait_os.Vmm.State.{Vm, find_pd, find_pt, aspace_phys, aspace_map, aspace_unmap, clear_page}
use trait_os.Vmm.Tree.{Roles, IsTree, entry_at}
use trait_os.Vmm.Ensure.{walk_back, walk_back-role, path_of}
use trait_os.Vmm.Write.{
  page_at, page_of, written-IsTree, page_at-written, path_of-page_of, both_true,
}
use trait_os.Vmm.Lookup.{addr_in, aspace_phys-page_at}
use trait_os.Vmm.Map.{same_page, same_page-slot, aspace_map-Mapped, Mapped}
use trait_os.Vmm.Pages.{aspace_phys-kernel, aspace_map-phys}

addr_in-cleared :
    (b : Bool) (o : Option ℕ) → addr_in (if b then none else o) ≡ (if b then none else addr_in o)
addr_in-cleared true o = refl
addr_in-cleared false o = refl

-- Without a last table, the page has no entry.
page_at-none :
    (vm : Vm) (root virt s v : ℕ)
    → walk_back vm.tables (path_of virt) root ≡ none
    → same_page root virt s v ≡ true
    → page_at vm.tables s v ≡ none
unfolding page_at
page_at-none vm root virt s v h same =
    let (es, ev) = both_true root s (page_of virt) (page_of v) same in
    ap (λ o. o >>= λ t. entry_at vm.tables t (pt_index v))
      (sym (ap₂ (λ p q. walk_back vm.tables p q) (path_of-page_of virt v ev) es) ∙ h)

module _ (vm : Vm) (role : Roles) (root virt : ℕ) (tree : IsTree vm role)
    (at : role root ≡ some (root, [])) where
  -- The tables stay trees, with the same parts, and the page loses its entry.
  cleared :
      (o : Option ℕ)
      → kernel_slot (pml4_index virt) ≡ false
      → walk_back vm.tables (path_of virt) root ≡ o
      → IsTree (clear_page virt o vm) role
        × ((s v : ℕ)
            → role s ≡ some (s, [])
            → kernel_slot (pml4_index v) ≡ false
            → page_at (clear_page virt o vm).tables s v
              ≡ (if same_page root virt s v then none else page_at vm.tables s v))
  unfolding clear_page
  cleared none user h = (
    tree,
    λ s v hs u.
        if_ind (λ o. page_at vm.tables s v ≡ o) (same_page root virt s v)
          (page_at-none vm root virt s v h) (λ n. refl),
  )
  cleared (some pt) user h =
      let part =
        walk_back-role vm role root (path_of virt) pt tree at (omega arith) (tt, (tt, (user, tt)))
          h in
      (
        written-IsTree vm role tree root virt pt 0 user at part,
        λ s v hs u.
            page_at-written vm role tree root virt pt 0 user at part s v hs u h
            ∙ ap
                (λ b.
                  if same_page root virt s v
                  then (if b then some 0 else none)
                  else page_at vm.tables s v)
                present-zero,
      )

  pub aspace_unmap-IsTree : IsTree (aspace_unmap root virt vm) role
  unfolding aspace_unmap find_pt find_pd
  aspace_unmap-IsTree =
      if_ind (λ vm'. IsTree vm' role) (kernel_slot (pml4_index virt)) (λ y. tree)
        (λ n. (cleared (find_pt vm.tables root virt) n refl).0)

  cleared_phys :
      (s v : ℕ)
      → role s ≡ some (s, [])
      → kernel_slot (pml4_index virt) ≡ false
      → aspace_phys s v (clear_page virt (walk_back vm.tables (path_of virt) root) vm)
        ≡ (if same_page root virt s v then none else aspace_phys s v vm)
  cleared_phys s v hs n = elim (Bool-cases (kernel_slot (pml4_index v))) [
    | inl y ↦
        aspace_phys-kernel s v after y
        ∙ if_ind (λ o. none ≡ o) (same_page root virt s v) (λ _. refl)
            (λ _. sym (aspace_phys-kernel s v vm y))
    | inr u ↦
        aspace_phys-page_at after role (cleared (walk_back vm.tables (path_of virt) root) n refl).0
          s v hs u
        ∙ ap addr_in ((cleared (walk_back vm.tables (path_of virt) root) n refl).1 s v hs u)
        ∙ addr_in-cleared (same_page root virt s v) (page_at vm.tables s v)
        ∙ ap (λ o. if same_page root virt s v then none else o)
            (sym (aspace_phys-page_at vm role tree s v hs u))
  ]
    where
      after : Vm
      after = clear_page virt (walk_back vm.tables (path_of virt) root) vm

  -- In tables that are trees: after `vmm_aspace_unmap`, `vmm_aspace_phys` finds no frame for the
  -- addresses of that page in that space, and for every other page of this and of every other space
  -- it gives what it gave before.
  pub aspace_unmap-phys :
      (s v : ℕ)
      → role s ≡ some (s, [])
      → aspace_phys s v (aspace_unmap root virt vm)
        ≡ (if same_page root virt s v then none else aspace_phys s v vm)
  unfolding aspace_unmap find_pt find_pd
  aspace_unmap-phys s v hs =
      if_ind
        (λ vm'.
          aspace_phys s v vm' ≡ (if same_page root virt s v then none else aspace_phys s v vm))
        (kernel_slot (pml4_index virt))
        (λ y.
          if_ind (λ o. aspace_phys s v vm ≡ o) (same_page root virt s v)
            (λ same. aspace_phys-kernel s v vm (sym (same_page-slot root virt s v same) ∙ y))
            (λ _. refl))
        (cleared_phys s v hs)

-- In tables that are trees, a page of a user's slot that was mapped with success, with flags outside
-- the address bits, and then unmapped: `vmm_aspace_phys` finds no frame for it, and for every other page of this and of every other space it gives what it gave before both calls.
pub aspace_unmap-aspace_map :
    (vm : Vm) (role : Roles) (root virt phys flags s v : ℕ)
    → IsTree vm role
    → role root ≡ some (root, [])
    → addr_of flags ≡ 0
    → kernel_slot (pml4_index virt) ≡ false
    → (aspace_map root virt phys flags vm).0 ≡ ok
    → role s ≡ some (s, [])
    → aspace_phys s v (aspace_unmap root virt (aspace_map root virt phys flags vm).1)
      ≡ (if same_page root virt s v then none else aspace_phys s v vm)
aspace_unmap-aspace_map vm role root virt phys flags s v tree at plain user done hs =
    aspace_unmap-phys (aspace_map root virt phys flags vm).1 m.role' root virt m.tree
      (m.role_kept root at) s v (m.role_kept s hs)
    ∙ ground (arith, aspace_map-phys vm role root virt phys flags tree at plain s v hs, done)
  where
    m : Mapped vm role root virt (some (page_entry phys flags)) (aspace_map root virt phys flags vm)
    m = aspace_map-Mapped vm role root virt phys flags tree at user
