-- ===== src/Vmm/Pages.antt =====
-- What `vmm_aspace_map` and `vmm_aspace_unmap` of src/tvmm.c promise, as `vmm_aspace_phys` and
-- `page_has` see it.
use trait_os.Base.{
  ℕ, ◌*◌, ◌%◌, ◌<◌, ◌≡◌, ◌≢◌, refl, sym, ap, ◌∙◌, arith, if◌then◌else◌, inl, inr, min,
}
use trait_os.Base.{Bool, true, false, Option, none, some, List, [], Bool-cases, subst}
use Prim.Native.Nat.{bit_and, bit_or}
use trait_os.Ipc.Fifo.{Rc, ok, fail, on_rc, rc_cases}
use trait_os.Pmm.State.{page_size, low_frames}
use trait_os.Pmm.Valid.{bits}
use trait_os.Vmm.Entry.{addr_of, kernel_slot, page_present, page_entry, pml4_index}
use trait_os.Vmm.Entry.Laws.{addr_of-page_entry, grants-page_entry}
use trait_os.Vmm.State.{Vm, aspace_phys, entry_has, page_has, aspace_map}
use trait_os.Vmm.Tree.{Roles, IsTree}
use trait_os.Vmm.Write.{page_at}
use trait_os.Vmm.Lookup.{addr_in, aspace_phys-page_at, page_has-page_at}
use trait_os.Vmm.Map.{same_page, Mapped, aspace_map-Mapped, aspace_map-kernel, same_page-slot}

pub aspace_phys-kernel :
    (s v : ℕ) (vm : Vm) → kernel_slot (pml4_index v) ≡ true → aspace_phys s v vm ≡ none
unfolding aspace_phys
aspace_phys-kernel s v vm h = ground (arith, h)

addr_in-choice :
    (rc : Rc) (b : Bool) (e a : ℕ) (old : Option ℕ)
    → addr_of e ≡ a
    → addr_in (on_rc rc (if b then some e else old) old)
      ≡ on_rc rc (if b then some a else addr_in old) (addr_in old)
addr_in-choice fail b e a old h = refl
addr_in-choice ok true e a old h = ap {B = Option ℕ} some h
addr_in-choice ok false e a old h = refl

no_choice :
    (rc : Rc) (b : Bool) (a : ℕ) → b ≡ false → none ≡ on_rc rc (if b then some a else none) none
no_choice ok b a h = ground (arith, h)
no_choice fail b a h = refl

pub not_same :
    (root virt s v : ℕ)
    → kernel_slot (pml4_index virt) ≡ false
    → kernel_slot (pml4_index v) ≡ true
    → same_page root virt s v ≡ false
not_same root virt s v user kernel = elim (Bool-cases (same_page root virt s v)) [
  | inl y ↦ absurd (ground (arith, same_page-slot root virt s v y))
  | inr n ↦ n
]

module _ (vm : Vm) (role : Roles) (root virt phys flags : ℕ) (tree : IsTree vm role)
    (at : role root ≡ some (root, [])) (plain : addr_of flags ≡ 0) where
  user_phys :
      (s v : ℕ)
      → role s ≡ some (s, [])
      → kernel_slot (pml4_index virt) ≡ false
      → aspace_phys s v (aspace_map root virt phys flags vm).1
        ≡ on_rc
            (aspace_map root virt phys flags vm).0
            (if same_page root virt s v then some (addr_of phys) else aspace_phys s v vm)
            (aspace_phys s v vm)
  user_phys s v h user = elim (Bool-cases (kernel_slot (pml4_index v))) [
    | inl y ↦
        aspace_phys-kernel s v res.1 y
        ∙ no_choice res.0 (same_page root virt s v) (addr_of phys) (not_same root virt s v user y)
        ∙ ap (λ o. on_rc res.0 (if same_page root virt s v then some (addr_of phys) else o) o)
            (sym (aspace_phys-kernel s v vm y))
    | inr n ↦
        aspace_phys-page_at res.1 m.role' m.tree s v (m.role_kept s h) n
        ∙ ap addr_in (m.pages s v h n)
        ∙ addr_in-choice res.0 (same_page root virt s v) (page_entry phys flags) (addr_of phys)
            (page_at vm.tables s v) (addr_of-page_entry phys flags plain)
        ∙ ap (λ o. on_rc res.0 (if same_page root virt s v then some (addr_of phys) else o) o)
            (sym (aspace_phys-page_at vm role tree s v h n))
  ]
    where
      res : Rc × Vm
      res = aspace_map root virt phys flags vm

      m : Mapped vm role root virt (some (page_entry phys flags)) res
      m = aspace_map-Mapped vm role root virt phys flags tree at user

  -- In tables that are trees, with flags outside the address bits: after `vmm_aspace_map` has
  -- returned 0, `vmm_aspace_phys` gives the new frame for the addresses of that page in that space,
  -- and for every other page of this and of every other space what it gave before; after it has
  -- returned -1, it gives for all of them what it gave before.
  pub aspace_map-phys :
      (s v : ℕ)
      → role s ≡ some (s, [])
      → aspace_phys s v (aspace_map root virt phys flags vm).1
        ≡ on_rc
            (aspace_map root virt phys flags vm).0
            (if same_page root virt s v then some (addr_of phys) else aspace_phys s v vm)
            (aspace_phys s v vm)
  aspace_map-phys s v h = elim (Bool-cases (kernel_slot (pml4_index virt))) [
    | inl y ↦
        subst
          (λ (r : Rc × Vm).
            aspace_phys s v r.1
            ≡ on_rc r.0
                (if same_page root virt s v then some (addr_of phys) else aspace_phys s v vm)
                (aspace_phys s v vm))
          (sym (aspace_map-kernel vm root virt phys flags y)) refl
    | inr n ↦ user_phys s v h n
  ]

module _ (vm : Vm) (role : Roles) (root virt phys flags : ℕ) (tree : IsTree vm role)
    (at : role root ≡ some (root, [])) where
  -- From tables that are trees, `vmm_aspace_map` keeps them trees, and every table that a space had is the same part of
  -- the same space after it, whatever it returns.
  pub aspace_map-IsTree :
      (role' : Roles) × IsTree (aspace_map root virt phys flags vm).1 role'
      × ((f : ℕ) → bits vm.frames f ≡ 1 → role' (f * page_size) ≡ role (f * page_size))
  aspace_map-IsTree = elim (Bool-cases (kernel_slot (pml4_index virt))) [
    | inl y ↦
        subst
          (λ (r : Rc × Vm).
            (role' : Roles) × IsTree r.1 role'
            × ((f : ℕ) → bits vm.frames f ≡ 1 → role' (f * page_size) ≡ role (f * page_size)))
          (sym (aspace_map-kernel vm root virt phys flags y)) (role, tree, λ f h. refl)
    | inr n ↦
        let m = aspace_map-Mapped vm role root virt phys flags tree at n in
        (m.role', m.tree, m.roles)
  ]

  -- In tables that are trees, `vmm_aspace_map` changes no frame that is in use and is not a table of that space: the kernel's
  -- tables, the tables of the other spaces and the mapped pages keep their contents.
  pub aspace_map-others :
      (f : ℕ)
      → bits vm.frames f ≡ 1
      → ((path : List ℕ) → role (f * page_size) ≢ some (root, path))
      → (aspace_map root virt phys flags vm).1.tables (f * page_size) ≡ vm.tables (f * page_size)
  aspace_map-others f h n = elim (Bool-cases (kernel_slot (pml4_index virt))) [
    | inl y ↦
        ap (λ (r : Rc × Vm). r.1.tables (f * page_size))
          (aspace_map-kernel vm root virt phys flags y)
    | inr u ↦ (aspace_map-Mapped vm role root virt phys flags tree at u).others f h n
  ]

  -- In tables that are trees, `vmm_aspace_map` of a page in a user's slot returns 0 unless memory below 1 GiB has run out: if
  -- a frame there is free after the call, the call has succeeded.
  pub aspace_map-ok :
      (f : ℕ)
      → kernel_slot (pml4_index virt) ≡ false
      → f < min low_frames (aspace_map root virt phys flags vm).1.frames.total_frames
      → bits (aspace_map root virt phys flags vm).1.frames f ≡ 0
      → (aspace_map root virt phys flags vm).0 ≡ ok
  aspace_map-ok f u lt free = elim (rc_cases (aspace_map root virt phys flags vm).0) [
    | inl e ↦ e
    | inr e ↦ absurd ((aspace_map-Mapped vm role root virt phys flags tree at u).full e f lt free)
  ]

  -- In tables that are trees, in the space that is current: a page of a user's slot that was mapped
  -- with success passes `page_has` for every mask that has the present bit and otherwise only flags
  -- that it was mapped with.
  pub aspace_map-page_has :
      (need : ℕ)
      → vm.current ≡ root
      → kernel_slot (pml4_index virt) ≡ false
      → need % 2 ≡ 1
      → bit_and (bit_or flags page_present) need ≡ need
      → (aspace_map root virt phys flags vm).0 ≡ ok
      → page_has virt need (aspace_map root virt phys flags vm).1 ≡ true
  unfolding entry_has
  aspace_map-page_has need cur u odd has done =
      page_has-page_at (aspace_map root virt phys flags vm).1 m.role' m.tree root virt
        (m.role_kept root at) u need odd (m.same_current ∙ cur)
      ∙ ap (λ o. entry_has o need) (m.pages root virt at u ∙ chosen)
      ∙ grants-page_entry phys flags need has
    where
      m :
          Mapped vm role root virt
            (some (page_entry phys flags))
            (aspace_map root virt phys flags vm)
      m = aspace_map-Mapped vm role root virt phys flags tree at u

      chosen :
          on_rc
            (aspace_map root virt phys flags vm).0
            (if same_page root virt root virt
              then some (page_entry phys flags)
              else page_at vm.tables root virt)
            (page_at vm.tables root virt)
          ≡ some (page_entry phys flags)
      chosen = ground (arith, done)
