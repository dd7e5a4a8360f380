-- ===== src/Vmm/Create.antt =====
-- `vmm_aspace_create` of src/tvmm.c in tables that are trees.
use trait_os.Base.{
  ℕ, ◌*◌, ◌<◌, ◌≡◌, ◌≢◌, refl, sym, ap, ◌∙◌, arith, ◌==◌, if◌then◌else◌, ◌⊎◌, inl, inr, min,
}
use trait_os.Base.{true, false, Option, none, some, if_ind, subst, List, [], ◌∷◌, length}
use trait_os.Base.Update.{update, update_self, update_ne}
use trait_os.Pmm.State.{Pmm, page_size, low_frames, alloc_low}
use trait_os.Pmm.Valid.{bits, IsValid}
use trait_os.Pmm.Alloc.{Grant, alloc_low-Grant}
use trait_os.Vmm.Entry.{present, huge, addr_of, kernel_slot, pml4_index}
use trait_os.Vmm.Entry.Laws.{present-zero, huge-zero, addr_of-frame}
use trait_os.Vmm.State.{Vm, clear_table, aspace_phys, page_frame, find_pd}
use trait_os.Vmm.Space.{share_kernel, created, aspace_create}
use trait_os.Vmm.Tree.{Roles, Owned, IsTree, lookup-none}

-- A space was made at `root`: it has no page, it shares the kernel's slots, the tables are still
-- trees with the same parts, and no other frame in use has changed.
pub record Created (vm : Vm) (role : Roles) (root : ℕ) (vm' : Vm) : Type 0 where
  pub role' : Roles
  pub tree : IsTree vm' role'
  pub is_root : role' root ≡ some (root, [])
  pub roles : (f : ℕ) → bits vm.frames f ≡ 1 → role' (f * page_size) ≡ role (f * page_size)
  pub empty : (v : ℕ) → aspace_phys root v vm' ≡ none
  pub shared : (i : ℕ) → kernel_slot i ≡ true → vm'.tables root i ≡ vm'.tables vm.kernel i
  pub others :
      (f : ℕ) → bits vm.frames f ≡ 1 → vm'.tables (f * page_size) ≡ vm.tables (f * page_size)

module _ (vm : Vm) (role : Roles) (tree : IsTree vm role) (f k : ℕ) (frames : Pmm)
    (low : f < low_frames) (fresh : bits vm.frames f ≡ 0)
    (marks : (g : ℕ) → bits frames g ≡ (if f == g then 1 else bits vm.frames g))
    (valid : IsValid frames) (kernel_at : vm.kernel ≡ k * page_size)
    (kernel_used : bits vm.frames k ≡ 1) where
  root : ℕ
  root = f * page_size

  abbrev after : Vm
  after = record vm {
    tables =
        update (clear_table vm.tables (f * page_size)) (f * page_size)
          (share_kernel (clear_table vm.tables (f * page_size) vm.kernel));
    frames = frames;
  }

  abbrev role_after : Roles
  role_after = update role (f * page_size) (some (f * page_size, []))

  in_use : (g : ℕ) → bits vm.frames g ≡ 1 → f * page_size ≢ g * page_size
  in_use g h e = let same : f ≡ g = omega arith in omega (arith, ap (bits vm.frames) same)

  apart : (u s : ℕ) (q : List ℕ) → role u ≡ some (s, q) → f * page_size ≢ u
  apart u s q h e = let (g, place, _, bit) = tree.page u s q h in in_use g bit (omega arith)

  elsewhere : (u : ℕ) → f * page_size ≢ u → after.tables u ≡ vm.tables u
  unfolding clear_table
  elsewhere u ne =
      update_ne (clear_table vm.tables (f * page_size)) _ ne ∙ update_ne vm.tables (λ i. 0) ne

  at_root :
      (i : ℕ)
      → after.tables (f * page_size) i ≡ (if kernel_slot i then vm.tables vm.kernel i else 0)
  unfolding clear_table share_kernel
  at_root i = ground (arith, in_use k kernel_used)

  back :
      (u s : ℕ) (q : List ℕ)
      → role_after u ≡ some (s, q)
      → ((f * page_size ≡ u) × ([] ≡ q)) ⊎ (role u ≡ some (s, q))
  back u s q h = ground arith

  user_entry : (u i : ℕ) → f * page_size ≡ u → kernel_slot i ≡ false → after.tables u i ≡ 0
  user_entry u i e n = ap (λ v. after.tables v i) (sym e) ∙ at_root i ∙ ground (arith, n)

  after_used : (g : ℕ) → bits vm.frames g ≡ 1 → bits frames g ≡ 1
  after_used g h = ground (arith, marks g)

  old_entries : (u s : ℕ) (q : List ℕ) → role u ≡ some (s, q) → after.tables u ≡ vm.tables u
  old_entries u s q h = elsewhere u (apart u s q h)

  old_link :
      (u s : ℕ) (q : List ℕ) (i : ℕ)
      → role u ≡ some (s, q)
      → length q < 3
      → Owned q i
      → present (after.tables u i) ≡ true
      → role_after (addr_of (after.tables u i)) ≡ some (s, i ∷ q)
  old_link u s q i h lt o p =
      let same : after.tables u i ≡ vm.tables u i = ap (λ t. t i) (old_entries u s q h) in
      let link = tree.link u s q i h lt o (ap present (sym same) ∙ p) in
      ap role_after (ap addr_of same) ∙ update_ne role _ (apart _ s (i ∷ q) link) ∙ link

  after_link :
      (u s : ℕ) (q : List ℕ) (i : ℕ)
      → role_after u ≡ some (s, q)
      → length q < 3
      → Owned q i
      → present (after.tables u i) ≡ true
      → role_after (addr_of (after.tables u i)) ≡ some (s, i ∷ q)
  after_link u s [] i h lt o p = elim (back u s [] h) [
    | inl (e, _) ↦ absurd (ground (arith, ap present (user_entry u i e o), present-zero))
    | inr h' ↦ old_link u s [] i h' lt o p
  ]
  after_link u s (j ∷ q) i h lt o p = elim (back u s (j ∷ q) h) [
    | inl (_, e) ↦ absurd (ground (arith, e))
    | inr h' ↦ old_link u s (j ∷ q) i h' lt o p
  ]

  after_flat :
      (u s : ℕ) (q : List ℕ) (i : ℕ)
      → role_after u ≡ some (s, q)
      → length q < 3
      → Owned q i
      → huge (after.tables u i) ≡ false
  after_flat u s [] i h lt o = elim (back u s [] h) [
    | inl (e, _) ↦ ap huge (user_entry u i e o) ∙ huge-zero
    | inr h' ↦ ap (λ t. huge (t i)) (old_entries u s [] h') ∙ tree.flat u s [] i h' lt o
  ]
  after_flat u s (j ∷ q) i h lt o = elim (back u s (j ∷ q) h) [
    | inl (_, e) ↦ absurd (ground (arith, e))
    | inr h' ↦ ap (λ t. huge (t i)) (old_entries u s (j ∷ q) h') ∙ tree.flat u s (j ∷ q) i h' lt o
  ]

  after_page :
      (u s : ℕ) (q : List ℕ)
      → role_after u ≡ some (s, q)
      → (g : ℕ) × (u ≡ g * page_size) × (g < low_frames) × (bits frames g ≡ 1)
  after_page u s q h = elim (back u s q h) [
    | inl (e, _) ↦ (f, sym e, low, ground (arith, marks f))
    | inr h' ↦ let (g, place, lt, bit) = tree.page u s q h' in (g, place, lt, after_used g bit)
  ]

  no_page : (v : ℕ) → aspace_phys (f * page_size) v after ≡ none
  unfolding aspace_phys page_frame find_pd
  no_page v =
      if_ind (λ o. o ≡ none) (kernel_slot (pml4_index v)) (λ _. refl)
        (λ n. rw (
          lookup-none after.tables (f * page_size) (pml4_index v)
            (ap present (user_entry (f * page_size) (pml4_index v) refl n) ∙ present-zero)))

  after-Created : Created vm role (f * page_size) after
  after-Created = record {
    role' = role_after;
    tree = record {
      valid = valid;
      zero_used = after_used 0 tree.zero_used;
      page = after_page;
      link = after_link;
      flat = after_flat;
    };
    is_root = update_self role (f * page_size) _;
    roles = λ g h. update_ne role _ (in_use g h);
    empty = no_page;
    shared = λ i h.
        ground (arith, at_root i, h)
        ∙ sym (ap (λ t. t i) (elsewhere vm.kernel (λ e. in_use k kernel_used (e ∙ kernel_at))));
    others = λ g h. elsewhere (g * page_size) (in_use g h);
  }

  made : 0 < f → created true (f * page_size, frames) vm ≡ (some (f * page_size), after)
  unfolding created
  made pos = ground (arith, addr_of-frame f)

-- In tables that are trees, with the kernel's PML4 in a frame in use: if a frame below 1 GiB is
-- free and `tmalloc` has room, `vmm_aspace_create` makes a space in which no address of a user's
-- slot is mapped and the kernel's slots are those of the kernel's PML4; the tables stay trees with
-- the parts that they had, and no other frame in use changes.
pub aspace_create-Created :
    (vm : Vm) (role : Roles) (f k : ℕ)
    → IsTree vm role
    → f < min low_frames vm.frames.total_frames
    → bits vm.frames f ≡ 0
    → vm.kernel ≡ k * page_size
    → bits vm.frames k ≡ 1
    → (root : ℕ) × ((aspace_create true vm).0 ≡ some root)
      × Created vm role root (aspace_create true vm).1
unfolding aspace_create
aspace_create-Created vm role f k tree lt free at used =
    subst Makes (ap (λ x. (x, (alloc_low vm.frames).1)) (sym g.addr)) (
      subst Made (sym made_here) (
        g.frame * page_size,
        refl,
        after-Created vm role tree g.frame k (alloc_low vm.frames).1 (omega (arith, g.below))
            g.was_free g.marked g.valid at used,
      ))
  where
    g : Grant vm.frames (min low_frames vm.frames.total_frames) (alloc_low vm.frames)
    g = alloc_low-Grant vm.frames f tree.valid tree.zero_used lt free

    Made : Option ℕ × Vm → Type 0
    Made res = (root : ℕ) × (res.0 ≡ some root) × Created vm role root res.1

    Makes : ℕ × Pmm → Type 0
    Makes a = Made (created true a vm)

    made_here : created true (g.frame * page_size, (alloc_low vm.frames).1) vm ≡ (
      some (g.frame * page_size),
      after vm role tree g.frame k
          (alloc_low vm.frames).1
          (omega (arith, g.below))
          g.was_free
          g.marked
          g.valid
          at
          used,
    )
    made_here =
        made vm role tree g.frame k (alloc_low vm.frames).1 (omega (arith, g.below)) g.was_free
          g.marked g.valid at used g.nonzero
