-- ===== src/Vmm/Grow.antt =====
-- `table_ensure` of src/tvmm.c in a tree: a fresh table changes no page of any space.
use trait_os.Base.{
  ℕ, ◌+◌, ◌*◌, ◌<◌, ◌≡◌, ◌≢◌, refl, sym, ap, ◌∙◌, arith, ◌==◌, if◌then◌else◌, ◌&&◌, min,
}
use trait_os.Base.{Option, none, some, List, ◌∷◌, length}
use trait_os.Pmm.State.{page_size, low_frames}
use trait_os.Pmm.Valid.{bits}
use trait_os.Vmm.State.{Tables, Vm, table_lookup, write_entry, clear_table}
use trait_os.Vmm.Tree.{Roles, IsTree, OwnedWalk, slot}

-- Entries of the tables after a fresh one at `c` is entered at index `i` of the table `t`.
pub wired-entry :
    (ts : Tables) (c t i e u j : ℕ)
    → c ≢ t
    → write_entry (clear_table ts c) t i e u j
      ≡ (if t == u && i == j then e else if c == u then 0 else ts u j)
unfolding write_entry clear_table
wired-entry ts c t i e u j ne = ground arith

-- No frame below 1 GiB is free.
abbrev pub IsFull : Vm → Type 0
IsFull vm = (f : ℕ) → f < min low_frames vm.frames.total_frames → bits vm.frames f ≢ 0

-- What a step that only adds tables to the space `r` keeps.
pub record Grows (r : ℕ) (vm : Vm) (role : Roles) (vm' : Vm) (role' : Roles) : Type 0 where
  pub tree : IsTree vm' role'
  pub roles : (f : ℕ) → bits vm.frames f ≡ 1 → role' (f * page_size) ≡ role (f * page_size)
  pub used : (f : ℕ) → bits vm.frames f ≡ 1 → bits vm'.frames f ≡ 1
  pub lookups :
      (u s : ℕ) (path : List ℕ) (j d : ℕ)
      → role u ≡ some (s, path)
      → table_lookup vm.tables u j ≡ some d
      → table_lookup vm'.tables u j ≡ some d
  pub slots :
      (u s : ℕ) (path rest : List ℕ) (l : ℕ)
      → role u ≡ some (s, path)
      → length path + length rest ≡ 3
      → OwnedWalk path rest
      → slot vm'.tables rest l u ≡ slot vm.tables rest l u
  pub others :
      (f : ℕ)
      → bits vm.frames f ≡ 1
      → ((path : List ℕ) → role (f * page_size) ≢ some (r, path))
      → vm'.tables (f * page_size) ≡ vm.tables (f * page_size)
  pub same_current : vm'.current ≡ vm.current
  pub same_kernel : vm'.kernel ≡ vm.kernel

pub Grows-refl : {r : ℕ} {vm : Vm} {role : Roles} → IsTree vm role → Grows r vm role vm role
Grows-refl tree = record {
  tree = tree;
  roles = λ f h. refl;
  used = λ f h. h;
  lookups = λ u s path j d h e. e;
  slots = λ u s path rest l h e o. refl;
  others = λ f h n. refl;
  same_current = refl;
  same_kernel = refl;
}

-- A part that a table has is kept.
pub role_kept :
    {r : ℕ} {vm vm' : Vm} {role role' : Roles}
    → IsTree vm role
    → Grows r vm role vm' role'
    → (u s : ℕ) (path : List ℕ) → role u ≡ some (s, path)
    → role' u ≡ some (s, path)
role_kept {role = role} {role' = role'} tree g u s path h =
    let (f, at, low, bit) = tree.page u s path h in
    ap role' at ∙ g.roles f bit ∙ sym (ap role at) ∙ h

pub Grows-trans :
    {r : ℕ} {vm vm' vm'' : Vm} {role role' role'' : Roles}
    → IsTree vm role
    → Grows r vm role vm' role'
    → Grows r vm' role' vm'' role''
    → Grows r vm role vm'' role''
Grows-trans tree g g' = record {
  tree = g'.tree;
  roles = λ f h. g'.roles f (g.used f h) ∙ g.roles f h;
  used = λ f h. g'.used f (g.used f h);
  lookups = λ u s path j d h e.
      g'.lookups u s path j d (role_kept tree g u s path h) (g.lookups u s path j d h e);
  slots = λ u s path rest l h e o.
      g'.slots u s path rest l (role_kept tree g u s path h) e o ∙ g.slots u s path rest l h e o;
  others =
      λ f h n. g'.others f (g.used f h) (λ path e. n path (sym (g.roles f h) ∙ e)) ∙ g.others f h n;
  same_current = g'.same_current ∙ g.same_current;
  same_kernel = g'.same_kernel ∙ g.same_kernel;
}

-- What one `table_ensure` at index `i` of a table with a part leaves: more tables, and the table
-- that it gives is the part below, which the entry leads to.
pub record Ensured (vm : Vm) (role : Roles) (t r : ℕ) (path : List ℕ) (i : ℕ) (res : Option ℕ × Vm)
    : Type 0 where
  pub role' : Roles
  pub grows : Grows r vm role res.1 role'
  pub child : (c : ℕ) → res.0 ≡ some c → role' c ≡ some (r, i ∷ path)
  pub full : res.0 ≡ none → IsFull res.1
  pub linked : (c : ℕ) → res.0 ≡ some c → table_lookup res.1.tables t i ≡ some c
