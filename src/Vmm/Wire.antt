-- ===== src/Vmm/Wire.antt =====
-- A fresh table in a tree of src/tvmm.c.
use trait_os.Base.{
  ℕ, ◌+◌, ◌*◌, ◌<◌, ◌≡◌, ◌≢◌, refl, sym, ap, ap₂, ◌∙◌, arith, ◌==◌, if◌then◌else◌, ◌&&◌, ◌⊎◌, inl,
  inr,
}
use trait_os.Base.{true, false, Option, none, some, List, [], ◌∷◌, length, subst}
use trait_os.Base.Update.{update, update_self, update_ne}
use trait_os.Pmm.State.{Pmm, page_size, low_frames}
use trait_os.Pmm.Valid.{bits, IsValid}
use trait_os.Vmm.Entry.{present, huge, addr_of, table_entry}
use trait_os.Vmm.Entry.Laws.{
  present-zero, huge-zero, present-table_entry, huge-table_entry, addr_of-table_entry,
  addr_of-frame,
}
use trait_os.Vmm.State.{Vm, table_lookup, write_entry, clear_table, wire_table}
use trait_os.Base.{Option-cases}
use trait_os.Vmm.Tree.{OwnedWalk-below, slot-next, slot-stop, lookup-none, lookup-some}
use trait_os.Vmm.Tree.{Roles, Owned, IsTree, OwnedWalk, walk, slot, entry_at, lookup-role}
use trait_os.Vmm.Grow.{wired-entry, Grows, Ensured}

-- The frame `f`, free before, becomes the table at index `i` of the table `t`, where none was.
module _ (vm : Vm) (role : Roles) (tree : IsTree vm role) (t r : ℕ) (path : List ℕ) (i flags : ℕ)
    (at : role t ≡ some (r, path)) (short : length path < 3) (own : Owned path i)
    (empty : present (vm.tables t i) ≡ false) (f : ℕ) (frames : Pmm) (low : f < low_frames)
    (fresh : bits vm.frames f ≡ 0)
    (marks : (g : ℕ) → bits frames g ≡ (if f == g then 1 else bits vm.frames g))
    (valid : IsValid frames) where
  abbrev pub grown : Vm
  grown = record vm {
    tables =
        write_entry (clear_table vm.tables (f * page_size)) t i (table_entry (f * page_size) flags);
    frames = frames;
  }

  abbrev pub grown_role : Roles
  grown_role = update role (f * page_size) (some (r, i ∷ path))

  -- No table with a part lies in the fresh frame.
  apart : (u s : ℕ) (q : List ℕ) → role u ≡ some (s, q) → f * page_size ≢ u
  apart u s q h e =
      let (g, place, _, bit) = tree.page u s q h in
      let same : f ≡ g = omega arith in omega (arith, fresh, bit, ap (bits vm.frames) same)

  entry :
      (u j : ℕ)
      → grown.tables u j ≡ (
          if t == u && i == j
          then table_entry (f * page_size) flags
          else if f * page_size == u
          then 0
          else vm.tables u j)
  entry u j =
      wired-entry vm.tables (f * page_size) t i (table_entry (f * page_size) flags) u j
        (apart t r path at)

  -- The entry of a table with a part is the new one, or as before.
  old_entry :
      (u j s : ℕ) (q : List ℕ)
      → role u ≡ some (s, q)
      → ((t ≡ u) × (i ≡ j) × (grown.tables u j ≡ table_entry (f * page_size) flags))
        ⊎ (((t == u && i == j) ≡ false) × (grown.tables u j ≡ vm.tables u j))
  old_entry u j s q h = ground (arith, entry u j, apart u s q h)

  fresh_entry : (j : ℕ) → grown.tables (f * page_size) j ≡ 0
  fresh_entry j = ground (arith, entry (f * page_size) j, apart t r path at)

  fresh_entry_at : (u j : ℕ) → f * page_size ≡ u → grown.tables u j ≡ 0
  fresh_entry_at u j e = ap (λ v. grown.tables v j) (sym e) ∙ fresh_entry j

  kept : (u s : ℕ) (q : List ℕ) → role u ≡ some (s, q) → grown_role u ≡ some (s, q)
  kept u s q h = update_ne role _ (apart u s q h) ∙ h

  back :
      (u s : ℕ) (q : List ℕ)
      → grown_role u ≡ some (s, q)
      → ((f * page_size ≡ u) × (r ≡ s) × (i ∷ path ≡ q)) ⊎ (role u ≡ some (s, q))
  back u s q h = ground arith

  link_kept :
      (u j s : ℕ) (q : List ℕ)
      → role u ≡ some (s, q)
      → present (vm.tables u j) ≡ true
      → grown.tables u j ≡ vm.tables u j
  link_kept u j s q h p = elim (old_entry u j s q h) [
    | inl (eu, ej, _) ↦ absurd (ground (arith, ap₂ (λ a b. present (vm.tables a b)) eu ej))
    | inr (_, same) ↦ same
  ]

  grown_used : (g : ℕ) → bits vm.frames g ≡ 1 → bits frames g ≡ 1
  grown_used g h = ground (arith, marks g)

  entry_addr : addr_of (table_entry (f * page_size) flags) ≡ f * page_size
  entry_addr = addr_of-table_entry f flags (omega arith)

  grown_page :
      (u s : ℕ) (q : List ℕ)
      → grown_role u ≡ some (s, q)
      → (g : ℕ) × (u ≡ g * page_size) × (g < low_frames) × (bits frames g ≡ 1)
  grown_page u s q h = elim (back u s q h) [
    | inl (eu, _, _) ↦ (f, sym eu, low, ground (arith, marks f))
    | inr h' ↦ let (g, place, lt, bit) = tree.page u s q h' in (g, place, lt, grown_used g bit)
  ]

  new_part :
      (u s : ℕ) (q : List ℕ) (j : ℕ)
      → t ≡ u
      → i ≡ j
      → role u ≡ some (s, q)
      → ◌≡◌ {A = Option (ℕ × List ℕ)} (some (r, i ∷ path)) (some (s, j ∷ q))
  new_part u s q j eu ej h' = ground (arith, ap role eu)

  grown_link :
      (u s : ℕ) (q : List ℕ) (j : ℕ)
      → grown_role u ≡ some (s, q)
      → length q < 3
      → Owned q j
      → present (grown.tables u j) ≡ true
      → grown_role (addr_of (grown.tables u j)) ≡ some (s, j ∷ q)
  grown_link u s q j h lt o p = elim (back u s q h) [
    | inl (eu, _, _) ↦ absurd (ground (arith, ap present (fresh_entry_at u j eu), present-zero))
    | inr h' ↦ elim (old_entry u j s q h') [
      | inl (eu, ej, same) ↦
          ap grown_role (ap addr_of same ∙ entry_addr)
          ∙ update_self role (f * page_size) _
          ∙ new_part u s q j eu ej h'
      | inr (_, same) ↦
          ap grown_role (ap addr_of same)
          ∙ kept _ s (j ∷ q) (tree.link u s q j h' lt o (ap present (sym same) ∙ p))
    ]
  ]

  grown_flat :
      (u s : ℕ) (q : List ℕ) (j : ℕ)
      → grown_role u ≡ some (s, q)
      → length q < 3
      → Owned q j
      → huge (grown.tables u j) ≡ false
  grown_flat u s q j h lt o = elim (back u s q h) [
    | inl (eu, _, _) ↦ ap huge (fresh_entry_at u j eu) ∙ huge-zero
    | inr h' ↦ elim (old_entry u j s q h') [
      | inl (_, _, same) ↦ ap huge same ∙ huge-table_entry f flags
      | inr (_, same) ↦ ap huge same ∙ tree.flat u s q j h' lt o
    ]
  ]

  grown-IsTree : IsTree grown grown_role
  grown-IsTree = record {
    valid = valid;
    zero_used = grown_used 0 tree.zero_used;
    page = grown_page;
    link = grown_link;
    flat = grown_flat;
  }

  -- Nothing is entered in the fresh table.
  fresh_slot : (rest : List ℕ) (l : ℕ) → slot grown.tables rest l (f * page_size) ≡ none
  unfolding slot walk entry_at
  fresh_slot [] l = ground (arith, ap present (fresh_entry l), present-zero)
  fresh_slot (j ∷ rest) l =
      slot-stop grown.tables j rest l (f * page_size)
        (lookup-none grown.tables (f * page_size) j (ap present (fresh_entry j) ∙ present-zero))

  new_lookup :
      (u j : ℕ)
      → grown.tables u j ≡ table_entry (f * page_size) flags
      → table_lookup grown.tables u j ≡ some (f * page_size)
  new_lookup u j same =
      lookup-some grown.tables u j (ap present same ∙ present-table_entry (f * page_size) flags)
      ∙ ap {B = Option ℕ} some (ap addr_of same ∙ entry_addr)

  old_lookup :
      (u j : ℕ)
      → grown.tables u j ≡ vm.tables u j
      → table_lookup grown.tables u j ≡ table_lookup vm.tables u j
  unfolding table_lookup
  old_lookup u j same = ap (λ e. if present e then some (addr_of e) else none) same

  empty_lookup : (u j : ℕ) → t ≡ u → i ≡ j → table_lookup vm.tables u j ≡ none
  empty_lookup u j eu ej =
      lookup-none vm.tables u j (ap₂ (λ a b. present (vm.tables a b)) (sym eu) (sym ej) ∙ empty)

  grown_lookups :
      (u s : ℕ) (q : List ℕ) (j d : ℕ)
      → role u ≡ some (s, q)
      → table_lookup vm.tables u j ≡ some d
      → table_lookup grown.tables u j ≡ some d
  grown_lookups u s q j d h e = elim (old_entry u j s q h) [
    | inl (eu, ej, _) ↦ absurd (ground (arith, empty_lookup u j eu ej))
    | inr (_, same) ↦ old_lookup u j same ∙ e
  ]

  -- A last table is not the one that the fresh one is entered in.
  last_apart :
      (u s : ℕ) (q : List ℕ) (n : ℕ) → role u ≡ some (s, q) → length q + n ≡ 3 → n ≡ 0 → t ≢ u
  last_apart u s q n h e z eu =
      let same : length path ≡ length q = ground (arith, ap role eu) in omega arith

  grown_slots :
      (u s : ℕ) (q rest : List ℕ) (l : ℕ)
      → role u ≡ some (s, q)
      → length q + length rest ≡ 3
      → OwnedWalk q rest
      → slot grown.tables rest l u ≡ slot vm.tables rest l u
  unfolding slot walk entry_at
  grown_slots u s q [] l h e o = elim (old_entry u l s q h) [
    | inl (eu, _, _) ↦ absurd (last_apart u s q 0 h e refl eu)
    | inr (_, same) ↦ ap (λ e. if present e then some e else none) same
  ]
  grown_slots u s q (j ∷ rest) l h e o = elim (old_entry u j s q h) [
    | inl (eu, ej, same) ↦
        slot-next grown.tables j rest l u (f * page_size) (new_lookup u j same)
        ∙ fresh_slot rest l
        ∙ sym (slot-stop vm.tables j rest l u (empty_lookup u j eu ej))
    | inr (_, same) ↦ elim (Option-cases (table_lookup vm.tables u j)) [
      | inl nope ↦
          slot-stop grown.tables j rest l u (old_lookup u j same ∙ nope)
          ∙ sym (slot-stop vm.tables j rest l u nope)
      | inr (d, found) ↦
          slot-next grown.tables j rest l u d (old_lookup u j same ∙ found)
          ∙ grown_slots d s (j ∷ q) rest l
              (lookup-role vm role tree u s q j d h (omega arith) o found) (omega arith)
              (OwnedWalk-below j q rest)
          ∙ sym (slot-next vm.tables j rest l u d found)
    ]
  ]

  in_use : (g : ℕ) → bits vm.frames g ≡ 1 → f * page_size ≢ g * page_size
  in_use g h e = let same : f ≡ g = omega arith in omega (arith, ap (bits vm.frames) same)

  grown_others :
      (g : ℕ)
      → bits vm.frames g ≡ 1
      → ((q : List ℕ) → role (g * page_size) ≢ some (r, q))
      → grown.tables (g * page_size) ≡ vm.tables (g * page_size)
  unfolding write_entry clear_table
  grown_others g h n =
      let not_here : t ≢ g * page_size = λ e. n path (ap role (sym e) ∙ at) in
      update_ne (clear_table vm.tables (f * page_size)) _ not_here
      ∙ update_ne vm.tables (λ j. 0) (in_use g h)

  grown_roles : (g : ℕ) → bits vm.frames g ≡ 1 → grown_role (g * page_size) ≡ role (g * page_size)
  grown_roles g h = update_ne role _ (in_use g h)

  pub grown-Grows : Grows r vm role grown grown_role
  grown-Grows = record {
    tree = grown-IsTree;
    roles = grown_roles;
    used = grown_used;
    lookups = grown_lookups;
    slots = grown_slots;
    others = grown_others;
    same_current = refl;
    same_kernel = refl;
  }

  made : 0 < f → wire_table t i flags (f * page_size, frames) vm ≡ (some (f * page_size), grown)
  unfolding wire_table
  made pos = ground (arith, addr_of-frame f)

  -- What `table_ensure` leaves when it takes the frame.
  pub wired-Ensured :
      0 < f → Ensured vm role t r path i (wire_table t i flags (f * page_size, frames) vm)
  wired-Ensured pos = subst (Ensured vm role t r path i) (sym (made pos)) (record {
    role' = grown_role;
    grows = grown-Grows;
    child = λ c e. ap grown_role (sym (same c e)) ∙ update_self role (f * page_size) _;
    full = λ e. absurd (ground (arith, e));
    linked = λ c e. new_lookup t i (ground (arith, entry t i)) ∙ e;
  })
    where
      same : (c : ℕ) → ◌≡◌ {A = Option ℕ} (some (f * page_size)) (some c) → f * page_size ≡ c
      same c e = ground (arith, e)
