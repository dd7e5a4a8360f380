-- ===== src/Elf/Tables.antt =====
-- src/telf.c: what the mapping of pages, and frames taken for them, keep of the page tables.
use trait_os.Base.{ℕ, zero, suc, ◌+◌, ◌*◌, ◌≡◌, ◌≢◌, inl, inr, refl, sym, ◌∙◌, subst}
use trait_os.Base.{some, List, [], Bool-cases}
use trait_os.Ipc.Fifo.{Rc, on_rc_ind}
use trait_os.Pmm.State.{Pmm, page_size}
use trait_os.Pmm.Valid.{bits, IsValid}
use trait_os.Vmm.Entry.{kernel_slot, pml4_index}
use trait_os.Vmm.State.{Vm, aspace_map}
use trait_os.Vmm.Tree.{Roles, IsTree}
use trait_os.Vmm.Map.{aspace_map-Mapped, aspace_map-kernel}
use trait_os.Elf.Load.{map_pages}

-- The tables are still trees, every frame in use is still in use, with the part that it had, and
-- those that are no table of the space at `root` have the contents that they had.
pub record Keeps (root : ℕ) (vm : Vm) (role : Roles) (vm' : Vm) : Type 0 where
  pub role' : Roles
  pub tree : IsTree vm' role'
  pub is_root : role' root ≡ some (root, [])
  pub used : (f : ℕ) → bits vm.frames f ≡ 1 → bits vm'.frames f ≡ 1
  pub roles : (f : ℕ) → bits vm.frames f ≡ 1 → role' (f * page_size) ≡ role (f * page_size)
  pub others :
      (f : ℕ)
      → bits vm.frames f ≡ 1
      → ((path : List ℕ) → role (f * page_size) ≢ some (root, path))
      → vm'.tables (f * page_size) ≡ vm.tables (f * page_size)

pub Keeps-refl :
    (root : ℕ) (vm : Vm) (role : Roles)
    → IsTree vm role
    → role root ≡ some (root, [])
    → Keeps root vm role vm
Keeps-refl root vm role tree at = record {
  role' = role;
  tree = tree;
  is_root = at;
  used = λ f h. h;
  roles = λ f h. refl;
  others = λ f h n. refl;
}

abbrev pub Keeps-trans :
    {root : ℕ} {vm vm' vm'' : Vm} {role : Roles} (k : Keeps root vm role vm')
    → Keeps root vm' k.role' vm''
    → Keeps root vm role vm''
Keeps-trans k k' = record {
  role' = k'.role';
  tree = k'.tree;
  is_root = k'.is_root;
  used = λ f h. k'.used f (k.used f h);
  roles = λ f h. k'.roles f (k.used f h) ∙ k.roles f h;
  others =
      λ f h n. k'.others f (k.used f h) (λ path e. n path (sym (k.roles f h) ∙ e)) ∙ k.others f h n;
}

aspace_map-Keeps :
    (vm : Vm) (role : Roles) (root virt phys flags : ℕ)
    → IsTree vm role
    → role root ≡ some (root, [])
    → Keeps root vm role (aspace_map root virt phys flags vm).1
aspace_map-Keeps vm role root virt phys flags tree at =
    elim (Bool-cases (kernel_slot (pml4_index virt))) [
      | inl y ↦
          subst (λ (r : Rc × Vm). Keeps root vm role r.1)
            (sym (aspace_map-kernel vm root virt phys flags y)) (Keeps-refl root vm role tree at)
      | inr n ↦
          let m = aspace_map-Mapped vm role root virt phys flags tree at n in
          record {
            role' = m.role';
            tree = m.tree;
            is_root = m.role_kept root at;
            used = m.used;
            roles = m.roles;
            others = m.others;
          }
    ]

-- More frames in use are no matter for the trees.
pub more_used-IsTree :
    (vm : Vm) (role : Roles) (frames : Pmm)
    → IsTree vm role
    → IsValid frames
    → ((f : ℕ) → bits vm.frames f ≡ 1 → bits frames f ≡ 1)
    → IsTree (record vm { frames = frames }) role
more_used-IsTree vm role frames tree valid more = record {
  valid = valid;
  zero_used = more 0 tree.zero_used;
  page = λ t r path h. let (f, place, lt, bit) = tree.page t r path h in (f, place, lt, more f bit);
  link = tree.link;
  flat = tree.flat;
}

abbrev pub Keeps-more :
    (vm : Vm) (role : Roles) (root : ℕ) (frames : Pmm) {vm' : Vm}
    → ((f : ℕ) → bits vm.frames f ≡ 1 → bits frames f ≡ 1)
    → Keeps root (record vm { frames = frames }) role vm'
    → Keeps root vm role vm'
Keeps-more vm role root frames more k = record {
  role' = k.role';
  tree = k.tree;
  is_root = k.is_root;
  used = λ f h. k.used f (more f h);
  roles = λ f h. k.roles f (more f h);
  others = λ f h n. k.others f (more f h) n;
}

pub map_pages-Keeps :
    (rounds p root first phys flags : ℕ) (vm : Vm) (role : Roles)
    → IsTree vm role
    → role root ≡ some (root, [])
    → Keeps root vm role (map_pages rounds p root first phys flags vm).1
unfolding map_pages
map_pages-Keeps zero p root first phys flags vm role tree at = Keeps-refl root vm role tree at
map_pages-Keeps (suc rounds) p root first phys flags vm role tree at =
    let step = aspace_map-Keeps vm role root (first + p * 4096) (phys + p * 4096) flags tree at in
    let res = aspace_map root (first + p * 4096) (phys + p * 4096) flags vm in
    on_rc_ind (λ (r : Rc × Vm). Keeps root vm role r.1) res.0
      (λ _. Keeps-trans step (
        map_pages-Keeps rounds (p + 1) root first phys flags res.1 step.role' step.tree
          step.is_root))
      (λ _. step)
