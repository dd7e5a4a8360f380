-- ===== src/Vmm/Map.antt =====
-- `vmm_aspace_map` and `vmm_aspace_unmap` of src/tvmm.c: what they do to the pages of every address
-- space.
use trait_os.Base.{ℕ, ◌*◌, ◌≡◌, ◌≢◌, refl, sym, ap, ◌∙◌, arith, ◌==◌, if◌then◌else◌, ◌&&◌}
use trait_os.Base.{Bool, true, false, Option, none, some, List, [], ◌∷◌, subst}
use trait_os.Ipc.Fifo.{Rc, fail, on_rc}
use trait_os.Pmm.State.{page_size}
use trait_os.Pmm.Valid.{bits}
use trait_os.Base.Update.{update_ne}
use trait_os.Vmm.Entry.{
  present, kernel_slot, page_entry, pml4_index, pdpt_index, pd_index, pt_index,
}
use trait_os.Vmm.Entry.Laws.{present-page_entry}
use trait_os.Vmm.State.{Vm, ensure_pt, set_page, aspace_map, write_entry}
use trait_os.Vmm.Tree.{Roles, IsTree}
use trait_os.Vmm.Grow.{Grows, role_kept, IsFull}
use trait_os.Vmm.Ensure.{Chain, path_of, ensure_pt-Chain}
use trait_os.Vmm.Write.{
  page_at, page_at-slot, page_of, written-IsTree, page_at-written, page_of-indices, both_true,
}

-- Whether an address of a space is in the page of `virt` in the space at `root`.
abbrev pub same_page : ℕ → ℕ → ℕ → ℕ → Bool
same_page root virt s v = root == s && page_of virt == page_of v

-- What setting a page of the space at `root` does: the tables stay trees, the page has the entry
-- `new` if the call succeeds, every other page of every space and every other frame in use keep
-- what they had, and if it fails, no frame below 1 GiB is left.
pub record Mapped (vm : Vm) (role : Roles) (root virt : ℕ) (new : Option ℕ) (res : Rc × Vm)
    : Type 0 where
  pub role' : Roles
  pub tree : IsTree res.1 role'
  pub roles : (f : ℕ) → bits vm.frames f ≡ 1 → role' (f * page_size) ≡ role (f * page_size)
  pub used : (f : ℕ) → bits vm.frames f ≡ 1 → bits res.1.frames f ≡ 1
  pub pages :
      (s v : ℕ)
      → role s ≡ some (s, [])
      → kernel_slot (pml4_index v) ≡ false
      → page_at res.1.tables s v
        ≡ on_rc res.0
            (if same_page root virt s v then new else page_at vm.tables s v)
            (page_at vm.tables s v)
  pub others :
      (f : ℕ)
      → bits vm.frames f ≡ 1
      → ((path : List ℕ) → role (f * page_size) ≢ some (root, path))
      → res.1.tables (f * page_size) ≡ vm.tables (f * page_size)
  pub full : res.0 ≡ fail → IsFull res.1
  pub same_current : res.1.current ≡ vm.current
  pub role_kept : (s : ℕ) → role s ≡ some (s, []) → role' s ≡ some (s, [])

page_at-Grows :
    {vm vm' : Vm} {role role' : Roles} {root : ℕ} (s v : ℕ)
    → Grows root vm role vm' role'
    → role s ≡ some (s, [])
    → kernel_slot (pml4_index v) ≡ false
    → page_at vm'.tables s v ≡ page_at vm.tables s v
page_at-Grows {vm} {vm'} s v g h user =
    page_at-slot vm'.tables s v
    ∙ g.slots s s [] (pml4_index v ∷ pdpt_index v ∷ pd_index v ∷ []) (pt_index v) h refl user
    ∙ sym (page_at-slot vm.tables s v)

set_page-Mapped :
    (vm : Vm) (role : Roles) (root virt e : ℕ) (res : Option ℕ × Vm)
    → IsTree vm role
    → role root ≡ some (root, [])
    → kernel_slot (pml4_index virt) ≡ false
    → Chain vm role root (path_of virt) res
    → Mapped vm role root virt (if present e then some e else none) (set_page virt e res)
unfolding set_page write_entry
set_page-Mapped vm role root virt e (none, vm') tree at user c = record {
  role' = c.role';
  tree = c.grows.tree;
  roles = c.grows.roles;
  used = c.grows.used;
  pages = λ s v h u. page_at-Grows s v c.grows h u;
  others = c.grows.others;
  full = λ e. c.full refl;
  same_current = c.grows.same_current;
  role_kept = λ s h. role_kept tree c.grows s s [] h;
}
set_page-Mapped vm role root virt e (some pt, vm') tree at user c = record {
  role' = c.role';
  tree = written-IsTree vm' c.role' c.grows.tree root virt pt e user at' part;
  roles = c.grows.roles;
  used = c.grows.used;
  pages = λ s v h u.
      page_at-written vm' c.role' c.grows.tree root virt pt e user at' part s v
        (role_kept tree c.grows s s [] h) u (c.led pt refl)
      ∙ ap (λ o. if same_page root virt s v then (if present e then some e else none) else o)
          (page_at-Grows s v c.grows h u);
  others = λ f h n.
      update_ne vm'.tables _
        (λ same. n (path_of virt) (sym (c.grows.roles f h) ∙ ap c.role' (sym same) ∙ part))
      ∙ c.grows.others f h n;
  full = λ e. absurd (ground arith);
  same_current = c.grows.same_current;
  role_kept = λ s h. role_kept tree c.grows s s [] h;
}
  where
    at' : c.role' root ≡ some (root, [])
    at' = role_kept tree c.grows root root [] at

    part : c.role' pt ≡ some (root, path_of virt)
    part = c.part pt refl

pub aspace_map-Mapped :
    (vm : Vm) (role : Roles) (root virt phys flags : ℕ)
    → IsTree vm role
    → role root ≡ some (root, [])
    → kernel_slot (pml4_index virt) ≡ false
    → Mapped vm role root virt (some (page_entry phys flags)) (aspace_map root virt phys flags vm)
unfolding aspace_map
aspace_map-Mapped vm role root virt phys flags tree at user =
    subst
      (λ b. Mapped vm role root virt (some (page_entry phys flags)) (
        if b
        then (fail, vm)
        else set_page virt (page_entry phys flags) (ensure_pt root virt flags vm)))
      (sym user)
      (subst
        (λ b.
          Mapped vm role root virt (if b then some (page_entry phys flags) else none)
            (set_page virt (page_entry phys flags) (ensure_pt root virt flags vm)))
        (present-page_entry phys flags)
        (set_page-Mapped vm role root virt (page_entry phys flags) (ensure_pt root virt flags vm)
          tree at user (ensure_pt-Chain vm role root virt flags tree at user)))

-- A call for a page of the kernel's slots is refused and changes nothing.
pub aspace_map-kernel :
    (vm : Vm) (root virt phys flags : ℕ)
    → kernel_slot (pml4_index virt) ≡ true
    → aspace_map root virt phys flags vm ≡ (fail, vm)
unfolding aspace_map
aspace_map-kernel vm root virt phys flags h = ground (arith, h)

-- Two addresses of one page are both in the user's slots or both not.
pub same_page-slot :
    (root virt s v : ℕ)
    → same_page root virt s v ≡ true
    → kernel_slot (pml4_index virt) ≡ kernel_slot (pml4_index v)
same_page-slot root virt s v h =
    ap kernel_slot (page_of-indices virt v (both_true root s (page_of virt) (page_of v) h).1).0
