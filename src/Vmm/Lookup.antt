-- ===== src/Vmm/Lookup.antt =====
-- `vmm_aspace_phys` and `page_has` of src/tvmm.c in a tree: what they read is the entry of the page.
use trait_os.Base.{ℕ, ◌%◌, ◌≡◌, refl, ap, ◌∙◌, arith, if◌then◌else◌}
use trait_os.Base.{false, Option, none, some, ◌>>=◌, [], ◌∷◌, if_ind}
use trait_os.Vmm.Entry.{
  present, huge, addr_of, kernel_slot, pml4_index, pdpt_index, pd_index, pt_index,
}
use trait_os.Vmm.State.{
  Tables, Vm, table_lookup, find_pd, page_frame, aspace_phys, page_flags, entry_has, page_has,
}
use trait_os.Vmm.Tree.{Roles, IsTree, entry_at}
use trait_os.Vmm.Ensure.{walk_back-role}
use trait_os.Vmm.Entry.Laws.{grants-absent}
use trait_os.Vmm.Write.{page_at}

abbrev pub addr_in : Option ℕ → Option ℕ
addr_in none = none
addr_in (some e) = some (addr_of e)

lookup-entry_at : (ts : Tables) (t i : ℕ) → table_lookup ts t i ≡ addr_in (entry_at ts t i)
unfolding table_lookup entry_at
lookup-entry_at ts t i = ground arith

module _ (vm : Vm) (role : Roles) (tree : IsTree vm role) (root virt : ℕ)
    (at : role root ≡ some (root, [])) (user : kernel_slot (pml4_index virt) ≡ false) where
  -- No page directory of the space has a 2 MiB page.
  not_huge :
      (pd : ℕ) → find_pd vm.tables root virt ≡ some pd → huge (vm.tables pd (pd_index virt)) ≡ false
  unfolding find_pd
  not_huge pd h =
      tree.flat pd root (pdpt_index virt ∷ pml4_index virt ∷ []) (pd_index virt)
        (walk_back-role vm role root (pdpt_index virt ∷ pml4_index virt ∷ []) pd tree at
          (omega arith) (tt, (user, tt)) h)
        (omega arith) tt

  page_frame-page_at : page_frame vm.tables root virt ≡ addr_in (page_at vm.tables root virt)
  unfolding page_frame page_at find_pd
  page_frame-page_at = at_pd (find_pd vm.tables root virt) refl
    where
      leaf :
          (pt : Option ℕ)
          → (pt >>= λ t. table_lookup vm.tables t (pt_index virt))
            ≡ addr_in (pt >>= λ t. entry_at vm.tables t (pt_index virt))
      leaf none = refl
      leaf (some t) = lookup-entry_at vm.tables t (pt_index virt)

      at_pd :
          (o : Option ℕ)
          → find_pd vm.tables root virt ≡ o
          → (o >>= λ pd.
              if huge (vm.tables pd (pd_index virt))
              then some (addr_of (vm.tables pd (pd_index virt)))
              else (table_lookup vm.tables pd (pd_index virt) >>= λ pt.
                  table_lookup vm.tables pt (pt_index virt)))
            ≡ addr_in (
                o >>= (λ pd. table_lookup vm.tables pd (pd_index virt)) >>= λ pt.
                entry_at vm.tables pt (pt_index virt))
      at_pd none h = refl
      at_pd (some pd) h =
          ap
            (λ b.
              if b
              then some (addr_of (vm.tables pd (pd_index virt)))
              else (table_lookup vm.tables pd (pd_index virt) >>= λ pt.
                  table_lookup vm.tables pt (pt_index virt)))
            (not_huge pd h)
          ∙ leaf (table_lookup vm.tables pd (pd_index virt))

  pub aspace_phys-page_at : aspace_phys root virt vm ≡ addr_in (page_at vm.tables root virt)
  unfolding aspace_phys
  aspace_phys-page_at = ground (arith, user, page_frame-page_at)

  page_flags-page_at :
      (need : ℕ)
      → need % 2 ≡ 1
      → entry_has (page_flags vm.tables root virt) need
        ≡ entry_has (page_at vm.tables root virt) need
  unfolding page_flags page_at find_pd entry_has entry_at
  page_flags-page_at need odd = at_pd (find_pd vm.tables root virt) refl
    where
      Same : Option ℕ → Option ℕ → Type 0
      Same o p = entry_has o need ≡ entry_has p need

      leaf :
          (pt : Option ℕ)
          → Same
              (pt >>= λ t. some (vm.tables t (pt_index virt)))
              (pt >>= λ t. entry_at vm.tables t (pt_index virt))
      leaf none = refl
      leaf (some t) =
          if_ind (Same (some (vm.tables t (pt_index virt)))) (present (vm.tables t (pt_index virt)))
            (λ y. refl) (grants-absent (vm.tables t (pt_index virt)) need odd)

      at_pd :
          (o : Option ℕ)
          → find_pd vm.tables root virt ≡ o
          → Same
              (o >>= λ pd.
                if huge (vm.tables pd (pd_index virt))
                then some (vm.tables pd (pd_index virt))
                else (table_lookup vm.tables pd (pd_index virt) >>= λ pt.
                    some (vm.tables pt (pt_index virt))))
              (o >>= (λ pd. table_lookup vm.tables pd (pd_index virt)) >>= λ pt.
                entry_at vm.tables pt (pt_index virt))
      at_pd none h = refl
      at_pd (some pd) h =
          ap
            (λ b.
              entry_has
                (if b
                  then some (vm.tables pd (pd_index virt))
                  else (table_lookup vm.tables pd (pd_index virt) >>= λ pt.
                      some (vm.tables pt (pt_index virt))))
                need)
            (not_huge pd h)
          ∙ leaf (table_lookup vm.tables pd (pd_index virt))

  -- `page_has` in the space that is current.
  pub page_has-page_at :
      (need : ℕ)
      → need % 2 ≡ 1
      → vm.current ≡ root
      → page_has virt need vm ≡ entry_has (page_at vm.tables root virt) need
  unfolding page_has
  page_has-page_at need odd cur =
      ap (λ r. entry_has (page_flags vm.tables r virt) need) cur ∙ page_flags-page_at need odd
