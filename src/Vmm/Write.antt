-- ===== src/Vmm/Write.antt =====
-- A write to the last table of a page, in a tree of src/tvmm.c, changes that page of that space.
use trait_os.Base.{
  ℕ, ◌/◌, ◌%◌, ◌^◌, ◌≤◌, ◌<◌, ◌≡◌, ◌≢◌, refl, sym, ap, ap₂, ◌∙◌, arith, ◌==◌, if◌then◌else◌, ◌&&◌,
}
use trait_os.Base.{true, false, Option, none, some, ◌>>=◌, List, [], ◌∷◌, length, if_ind}
use trait_os.Pmm.State.{page_size}
use trait_os.Vmm.Entry.{
  present, huge, addr_of, kernel_slot, pml4_index, pdpt_index, pd_index, pt_index,
}
use trait_os.Vmm.State.{Tables, Vm, table_lookup, write_entry}
use trait_os.Vmm.Tree.{Roles, IsTree, slot, walk, entry_at}
use trait_os.Vmm.Ensure.{walk_back, walk_back-role, OwnedPath, path_of}

-- The number of a page in the part of the address space that the tables translate.
abbrev pub page_of : ℕ → ℕ
page_of virt = virt / page_size % 2 ^ 36

indices-page_of :
    (v w : ℕ)
    → pml4_index v ≡ pml4_index w
    → pdpt_index v ≡ pdpt_index w
    → pd_index v ≡ pd_index w
    → pt_index v ≡ pt_index w
    → page_of v ≡ page_of w
unfolding pml4_index pdpt_index pd_index pt_index
indices-page_of v w a b c d = omega arith

pub page_of-indices :
    (v w : ℕ)
    → page_of v ≡ page_of w
    → (pml4_index v ≡ pml4_index w)
      × (pdpt_index v ≡ pdpt_index w)
      × (pd_index v ≡ pd_index w)
      × (pt_index v ≡ pt_index w)
unfolding pml4_index pdpt_index pd_index pt_index
page_of-indices v w h = (omega arith, omega arith, omega arith, omega arith)

-- Addresses of one page have the same indices above the last.
pub path_of-page_of : (v w : ℕ) → page_of v ≡ page_of w → path_of v ≡ path_of w
path_of-page_of v w h =
    let (a, b, c, _) = page_of-indices v w h in ap₂ ◌∷◌ c (ap₂ ◌∷◌ b (ap₂ ◌∷◌ a refl))

pub both_true : (a b c d : ℕ) → (a == b && c == d) ≡ true → (a ≡ b) × (c ≡ d)
both_true a b c d h = ground arith

both_false : (a b c d : ℕ) → (a == b && c == d) ≡ false → a ≡ b → c ≢ d
both_false a b c d h = ground arith

pub write_entry_self : (ts : Tables) (t i e u j : ℕ) → t ≡ u → i ≡ j → write_entry ts t i e u j ≡ e
unfolding write_entry
write_entry_self ts t i e u j p q = ground arith

pub write_entry_ne :
    (ts : Tables) (t i e u j : ℕ) → (t ≡ u → i ≢ j) → write_entry ts t i e u j ≡ ts u j
unfolding write_entry
write_entry_ne ts t i e u j ne = ground arith

-- The present entry of the page of `virt` in the space at `root`.
unfoldable pub page_at : Tables → ℕ → ℕ → Option ℕ
page_at ts root virt = walk_back ts (path_of virt) root >>= λ pt. entry_at ts pt (pt_index virt)

one_bind : (o : Option ℕ) (h : ℕ → Option ℕ) → (o >>= h) ≡ (o >>= some >>= h)
one_bind none h = refl
one_bind (some a) h = refl

two_binds :
    (o : Option ℕ) (g h : ℕ → Option ℕ) → (o >>= g >>= h) ≡ ((o >>= λ a. g a >>= some) >>= h)
two_binds none g h = refl
two_binds (some a) g h = one_bind (g a) h

three_binds :
    (o : Option ℕ) (f g h : ℕ → Option ℕ)
    → (o >>= f >>= g >>= h) ≡ ((o >>= λ a. f a >>= λ b. g b >>= some) >>= h)
three_binds none f g h = refl
three_binds (some a) f g h = two_binds (f a) g h

-- As the walk from the PML4 down.
pub page_at-slot :
    (ts : Tables) (root virt : ℕ)
    → page_at ts root virt
      ≡ slot ts (pml4_index virt ∷ pdpt_index virt ∷ pd_index virt ∷ []) (pt_index virt) root
unfolding page_at slot walk
page_at-slot ts root virt =
    three_binds (table_lookup ts root (pml4_index virt)) (λ t. table_lookup ts t (pdpt_index virt))
      (λ t. table_lookup ts t (pd_index virt)) (λ t. entry_at ts t (pt_index virt))

module _ (vm : Vm) (role : Roles) (tree : IsTree vm role) (root virt pt e : ℕ)
    (user : kernel_slot (pml4_index virt) ≡ false) (at : role root ≡ some (root, []))
    (part : role pt ≡ some (root, path_of virt)) where
  abbrev pub written : Vm
  written = record vm { tables = write_entry vm.tables pt (pt_index virt) e }

  above :
      (u s i : ℕ) (path : List ℕ)
      → role u ≡ some (s, path)
      → length path < 3
      → written.tables u i ≡ vm.tables u i
  unfolding write_entry
  above u s i path h lt = ground arith

  pub written-IsTree : IsTree written role
  written-IsTree = record {
    valid = tree.valid;
    zero_used = tree.zero_used;
    page = tree.page;
    link = λ t r path i h lt own p.
        ap role (ap addr_of (above t r i path h lt))
        ∙ tree.link t r path i h lt own (ap present (sym (above t r i path h lt)) ∙ p);
    flat = λ t r path i h lt own. ap huge (above t r i path h lt) ∙ tree.flat t r path i h lt own;
  }

  walks :
      (s : ℕ) (path : List ℕ)
      → role s ≡ some (s, [])
      → length path ≤ 3
      → OwnedPath path
      → walk_back written.tables path s ≡ walk_back vm.tables path s
  unfolding table_lookup
  walks s [] h le own = refl
  walks s (i ∷ path) h le own =
      ap (λ o. o >>= λ t. table_lookup written.tables t i) (walks s path h (omega arith) own.1)
      ∙ last_step (walk_back vm.tables path s) refl
    where
      last_step :
          (o : Option ℕ)
          → walk_back vm.tables path s ≡ o
          → (o >>= λ t. table_lookup written.tables t i) ≡ (o >>= λ t. table_lookup vm.tables t i)
      last_step none e = refl
      last_step (some t) e =
          ap (λ x. if present x then some (addr_of x) else none)
            (above t s i path (walk_back-role vm role s path t tree h (omega arith) own.1 e)
              (omega arith))

  same_walk :
      (s v : ℕ)
      → root ≡ s
      → page_of virt ≡ page_of v
      → walk_back vm.tables (path_of virt) root ≡ some pt
      → (pt_index virt ≡ pt_index v) × (walk_back vm.tables (path_of v) s ≡ some pt)
  same_walk s v es ev led =
      let paths = path_of-page_of virt v ev in
      ((page_of-indices virt v ev).3, sym (ap₂ (λ p q. walk_back vm.tables p q) paths es) ∙ led)

  -- A table of the same part with the same last index is the same page of the same space.
  same_part :
      (s v : ℕ)
      → role pt ≡ some (s, path_of v)
      → pt_index virt ≡ pt_index v
      → (root ≡ s) × (page_of virt ≡ page_of v)
  same_part s v h l =
      let (es, a, b, c) : (root ≡ s)
          × (pml4_index virt ≡ pml4_index v)
          × (pdpt_index virt ≡ pdpt_index v)
          × (pd_index virt ≡ pd_index v) =
        ground (arith, h, part) in
      (es, indices-page_of virt v a b c l)

  -- The entry of the page is the one written if it is present, and every other page of any space
  -- has the entry it had.
  pub page_at-written :
      (s v : ℕ)
      → role s ≡ some (s, [])
      → kernel_slot (pml4_index v) ≡ false
      → walk_back vm.tables (path_of virt) root ≡ some pt
      → page_at written.tables s v ≡ (
          if root == s && page_of virt == page_of v
          then (if present e then some e else none)
          else page_at vm.tables s v)
  unfolding page_at entry_at
  page_at-written s v h user' led =
      ap (λ o. o >>= λ t. entry_at written.tables t (pt_index v))
        (walks s (path_of v) h (omega arith) (tt, (tt, (user', tt))))
      ∙ finish (walk_back vm.tables (path_of v) s) refl
    where
      Agrees : Option ℕ → Option ℕ → Type 0
      Agrees o a = (o >>= λ t. entry_at written.tables t (pt_index v)) ≡ a

      entry_if : ℕ → Option ℕ
      entry_if x = if present x then some x else none

      finish :
          (o : Option ℕ)
          → walk_back vm.tables (path_of v) s ≡ o
          → Agrees o (
              if root == s && page_of virt == page_of v
              then (if present e then some e else none)
              else o >>= λ t. entry_at vm.tables t (pt_index v))
      finish none found =
          if_ind (Agrees none) (root == s && page_of virt == page_of v)
            (λ y.
              let (es, ev) = both_true root s (page_of virt) (page_of v) y in
              absurd (ground (arith, (same_walk s v es ev led).1)))
            (λ n. refl)
      finish (some u) found =
          if_ind (Agrees (some u)) (root == s && page_of virt == page_of v)
            (λ y.
              let (es, ev) = both_true root s (page_of virt) (page_of v) y in
              let (l, here) = same_walk s v es ev led in
              ap entry_if (
                write_entry_self vm.tables pt (pt_index virt) e u (pt_index v)
                  (ground (arith, here)) l))
            (λ n. ap entry_if (
              write_entry_ne vm.tables pt (pt_index virt) e u (pt_index v) (λ eu l.
                let (es, ev) =
                  same_part s v
                    (ap role eu
                      ∙ walk_back-role vm role s (path_of v) u tree h (omega arith)
                          (tt, (tt, (user', tt))) found)
                    l in
                both_false root s (page_of virt) (page_of v) n es ev)))
