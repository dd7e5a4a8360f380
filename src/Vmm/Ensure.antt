-- ===== src/Vmm/Ensure.antt =====
-- `table_ensure` of src/tvmm.c and the chain of three that finds or makes the last table of a page.
use trait_os.Base.{ℕ, ◌≤◌, ◌<◌, ◌≡◌, refl, sym, ap, ◌∙◌, arith, inl, inr, min}
use trait_os.Base.{
  false, Option, none, some, ◌>>=◌, List, [], ◌∷◌, length, if_ind, subst, Option-cases,
}
use trait_os.Pmm.State.{Pmm, alloc_low, low_frames}
use trait_os.Pmm.Alloc.{Grant, alloc_low-cases, alloc_low-Grant}
use trait_os.Vmm.Entry.{present, kernel_slot, pml4_index, pdpt_index, pd_index}
use trait_os.Vmm.State.{Tables, Vm, table_lookup, wire_table, table_ensure, then_ensure, ensure_pt}
use trait_os.Vmm.Tree.{Roles, Owned, IsTree, lookup-role, lookup-some}
use trait_os.Vmm.Grow.{IsFull, Ensured, Grows, Grows-refl, Grows-trans, role_kept}
use trait_os.Vmm.Wire.{wired-Ensured}

-- The table that indices lead to from the PML4 at `root`, the last index first.
abbrev pub walk_back : Tables → List ℕ → ℕ → Option ℕ
walk_back ts [] root = some root
walk_back ts (i ∷ path) root = walk_back ts path root >>= λ t. table_lookup ts t i

abbrev pub OwnedPath : List ℕ → Type 0
OwnedPath [] = Unit
OwnedPath (i ∷ path) = Owned path i × OwnedPath path

-- What a chain of `table_ensure` leaves: more tables, and if it gives one, it is the part of the
-- space that the indices name and they lead to it.
pub record Chain (vm : Vm) (role : Roles) (root : ℕ) (path : List ℕ) (res : Option ℕ × Vm)
    : Type 0 where
  pub role' : Roles
  pub grows : Grows root vm role res.1 role'
  pub part : (t : ℕ) → res.0 ≡ some t → role' t ≡ some (root, path)
  pub full : res.0 ≡ none → IsFull res.1
  pub led : (t : ℕ) → res.0 ≡ some t → walk_back res.1.tables path root ≡ some t

pub walk_back-role :
    (vm : Vm) (role : Roles) (root : ℕ) (path : List ℕ) (t : ℕ)
    → IsTree vm role
    → role root ≡ some (root, [])
    → length path ≤ 3
    → OwnedPath path
    → walk_back vm.tables path root ≡ some t
    → role t ≡ some (root, path)
walk_back-role vm role root [] t tree at le own h = ground (arith, ap role)
walk_back-role vm role root (i ∷ path) t tree at le own h =
    elim (Option-cases (walk_back vm.tables path root)) [
      | inl e ↦ absurd (ground (arith, e))
      | inr (u, e) ↦
          lookup-role vm role tree u root path i t
            (walk_back-role vm role root path u tree at (omega arith) own.1 e) (omega arith) own.0
            (ground (arith, e))
    ]

walk_back_kept :
    {root : ℕ} {vm vm' : Vm} {role role' : Roles} (path : List ℕ) (t : ℕ)
    → IsTree vm role
    → Grows root vm role vm' role'
    → role root ≡ some (root, [])
    → length path ≤ 3
    → OwnedPath path
    → walk_back vm.tables path root ≡ some t
    → walk_back vm'.tables path root ≡ some t
walk_back_kept [] t tree g at le own h = h
walk_back_kept {root} {vm} {vm'} {role} (i ∷ path) t tree g at le own h =
    elim (Option-cases (walk_back vm.tables path root)) [
      | inl e ↦ absurd (ground (arith, e))
      | inr (u, e) ↦
          ap (λ o. o >>= λ t. table_lookup vm'.tables t i)
            (walk_back_kept path u tree g at (omega arith) own.1 e)
          ∙ g.lookups u root path i t
              (walk_back-role vm role root path u tree at (omega arith) own.1 e) (ground (arith, e))
    ]

module _ (vm : Vm) (role : Roles) (tree : IsTree vm role) (t r : ℕ) (path : List ℕ) (i flags : ℕ)
    (at : role t ≡ some (r, path)) (short : length path < 3) (own : Owned path i) where
  wire_none :
      alloc_low vm.frames ≡ (0, vm.frames)
      → Ensured vm role t r path i (wire_table t i flags (0, vm.frames) vm)
  unfolding wire_table
  wire_none none_left = record {
    full =
        λ e f lt free. exhausted f (alloc_low-Grant vm.frames f tree.valid tree.zero_used lt free);
    role' = role;
    grows = Grows-refl tree;
    child = λ c e. absurd (ground (arith, e));
    linked = λ c e. absurd (ground (arith, e));
  }
    where
      exhausted :
          (f : ℕ)
          → Grant vm.frames (min low_frames vm.frames.total_frames) (alloc_low vm.frames)
          → ⊥
      exhausted f g = omega (arith, g.addr, g.nonzero, ap {A = ℕ × Pmm} (λ a. a.0) none_left)

  wire_table-Ensured :
      present (vm.tables t i) ≡ false
      → Ensured vm role t r path i (wire_table t i flags (alloc_low vm.frames) vm)
  unfolding wire_table
  wire_table-Ensured empty = elim (alloc_low-cases vm.frames tree.valid tree.zero_used) [
    | inl e ↦
        subst (λ a. Ensured vm role t r path i (wire_table t i flags a vm)) (sym e) (wire_none e)
    | inr g ↦
        subst (λ a. Ensured vm role t r path i (wire_table t i flags a vm))
          (ap (λ x. (x, (alloc_low vm.frames).1)) (sym g.addr))
          (wired-Ensured vm role tree t r path i flags at short own empty g.frame
            (alloc_low vm.frames).1 (omega (arith, g.below)) g.was_free g.marked g.valid g.nonzero)
  ]

  pub table_ensure-Ensured : Ensured vm role t r path i (table_ensure t i flags vm)
  unfolding table_ensure
  table_ensure-Ensured =
      if_ind (Ensured vm role t r path i) (present (vm.tables t i))
        (λ p. record {
          role' = role;
          grows = Grows-refl tree;
          child = λ c e.
              lookup-role vm role tree t r path i c at short own (lookup-some vm.tables t i p ∙ e);
          full = λ e. absurd (ground (arith, e));
          linked = λ c e. lookup-some vm.tables t i p ∙ e;
        })
        wire_table-Ensured

-- The next `table_ensure` of a chain.
then_ensure-Chain :
    (vm : Vm) (role : Roles) (root : ℕ) (path : List ℕ) (i flags : ℕ) (res : Option ℕ × Vm)
    → IsTree vm role
    → role root ≡ some (root, [])
    → length path < 3
    → Owned path i
    → OwnedPath path
    → Chain vm role root path res
    → Chain vm role root (i ∷ path) (then_ensure i flags res)
unfolding then_ensure
then_ensure-Chain vm role root path i flags (none, vm') tree at short own owns c = record {
  role' = c.role';
  grows = c.grows;
  part = λ t e. absurd (ground (arith, e));
  full = c.full;
  led = λ t e. absurd (ground (arith, e));
}
then_ensure-Chain vm role root path i flags (some u, vm') tree at short own owns c = record {
  role' = step.role';
  grows = Grows-trans tree c.grows step.grows;
  part = step.child;
  full = step.full;
  led = λ t e. ap (λ o. o >>= λ v. table_lookup after.tables v i) led_after ∙ step.linked t e;
}
  where
    after : Vm
    after = (table_ensure u i flags vm').1

    step : Ensured vm' c.role' u root path i (table_ensure u i flags vm')
    step =
        table_ensure-Ensured vm' c.role' c.grows.tree u root path i flags (c.part u refl) short own

    led_after : walk_back after.tables path root ≡ some u
    led_after =
        walk_back_kept path u c.grows.tree step.grows (role_kept tree c.grows root root [] at)
          (omega arith) owns (c.led u refl)

-- The three of a page in a user's slot.
abbrev pub path_of : ℕ → List ℕ
path_of virt = pd_index virt ∷ pdpt_index virt ∷ pml4_index virt ∷ []

pub ensure_pt-Chain :
    (vm : Vm) (role : Roles) (root virt flags : ℕ)
    → IsTree vm role
    → role root ≡ some (root, [])
    → kernel_slot (pml4_index virt) ≡ false
    → Chain vm role root (path_of virt) (ensure_pt root virt flags vm)
unfolding ensure_pt
ensure_pt-Chain vm role root virt flags tree at user =
    then_ensure-Chain vm role root (pdpt_index virt ∷ pml4_index virt ∷ []) (pd_index virt) flags
      (then_ensure (pdpt_index virt) flags (table_ensure root (pml4_index virt) flags vm)) tree at
      (omega arith) tt (tt, (user, tt))
      (then_ensure-Chain vm role root (pml4_index virt ∷ []) (pdpt_index virt) flags
        (table_ensure root (pml4_index virt) flags vm) tree at (omega arith) tt (user, tt) first)
  where
    step :
        Ensured vm role root root []
          (pml4_index virt)
          (table_ensure root (pml4_index virt) flags vm)
    step =
        table_ensure-Ensured vm role tree root root [] (pml4_index virt) flags at (omega arith) user

    first : Chain vm role root (pml4_index virt ∷ []) (table_ensure root (pml4_index virt) flags vm)
    first = record {
      role' = step.role';
      grows = step.grows;
      part = step.child;
      full = step.full;
      led = step.linked;
    }
