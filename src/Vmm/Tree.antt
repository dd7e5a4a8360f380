-- ===== src/Vmm/Tree.antt =====
-- The tables of the address spaces of src/tvmm.c as trees: which table is which part of which
-- space, and that the links of the tables agree with it.
use trait_os.Base.{ℕ, ◌*◌, ◌<◌, ◌≡◌, ap, arith, if◌then◌else◌}
use trait_os.Base.{true, false, Option, none, some, ◌>>=◌, List, [], ◌∷◌, length}
use trait_os.Pmm.State.{page_size, low_frames}
use trait_os.Pmm.Valid.{bits, IsValid}
use trait_os.Vmm.Entry.{present, huge, addr_of, kernel_slot}
use trait_os.Vmm.State.{Tables, Vm, table_lookup}

-- The part of an address space that a table is: the space, and the indices that lead to the
-- table from its PML4, the last one first.
abbrev pub Roles : Type 0
Roles = ℕ → Option (ℕ × List ℕ)

-- The entries a space owns: below the PML4 all, in the PML4 those of the user's slots.
abbrev pub Owned : List ℕ → ℕ → Type 0
Owned [] i = kernel_slot i ≡ false
Owned (j ∷ path) i = Unit

-- A table with a part is a frame in use below 1 GiB, a present entry of it leads to the table with the part
-- below, and none is a 2 MiB page.
pub record IsTree (vm : Vm) (role : Roles) : Type 0 where
  pub valid : IsValid vm.frames
  pub zero_used : bits vm.frames 0 ≡ 1
  pub page :
      (t r : ℕ) (path : List ℕ)
      → role t ≡ some (r, path)
      → (f : ℕ) × (t ≡ f * page_size) × (f < low_frames) × (bits vm.frames f ≡ 1)
  pub link :
      (t r : ℕ) (path : List ℕ) (i : ℕ)
      → role t ≡ some (r, path)
      → length path < 3
      → Owned path i
      → present (vm.tables t i) ≡ true
      → role (addr_of (vm.tables t i)) ≡ some (r, i ∷ path)
  pub flat :
      (t r : ℕ) (path : List ℕ) (i : ℕ)
      → role t ≡ some (r, path)
      → length path < 3
      → Owned path i
      → huge (vm.tables t i) ≡ false

-- The table that a list of indices leads to.
unfoldable pub walk : Tables → List ℕ → ℕ → Option ℕ
walk ts [] t = some t
walk ts (i ∷ path) t = table_lookup ts t i >>= walk ts path

unfoldable pub entry_at : Tables → ℕ → ℕ → Option ℕ
entry_at ts t i = if present (ts t i) then some (ts t i) else none

-- The present entry at the end of a list of indices and one more.
unfoldable pub slot : Tables → List ℕ → ℕ → ℕ → Option ℕ
slot ts path i t = walk ts path t >>= λ u. entry_at ts u i

-- The indices of a walk belong to the space if the first does.
abbrev pub OwnedWalk : List ℕ → List ℕ → Type 0
OwnedWalk path [] = Unit
OwnedWalk path (i ∷ rest) = Owned path i

module _ (vm : Vm) (role : Roles) (tree : IsTree vm role) where
  -- A lookup in a table with a part gives the table with the part below it.
  pub lookup-role :
      (t r : ℕ) (path : List ℕ) (i u : ℕ)
      → role t ≡ some (r, path)
      → length path < 3
      → Owned path i
      → table_lookup vm.tables t i ≡ some u
      → role u ≡ some (r, i ∷ path)
  unfolding table_lookup
  lookup-role t r path i u h lt own e = ground (arith, tree.link t r path i h lt own)

pub slot-next :
    (ts : Tables) (i : ℕ) (path : List ℕ) (l t u : ℕ)
    → table_lookup ts t i ≡ some u
    → slot ts (i ∷ path) l t ≡ slot ts path l u
unfolding slot walk
slot-next ts i path l t u h = ap (λ o. o >>= walk ts path >>= λ v. entry_at ts v l) h

pub slot-stop :
    (ts : Tables) (i : ℕ) (path : List ℕ) (l t : ℕ)
    → table_lookup ts t i ≡ none
    → slot ts (i ∷ path) l t ≡ none
unfolding slot walk
slot-stop ts i path l t h = ap (λ o. o >>= walk ts path >>= λ v. entry_at ts v l) h

pub lookup-none : (ts : Tables) (t i : ℕ) → present (ts t i) ≡ false → table_lookup ts t i ≡ none
unfolding table_lookup
lookup-none ts t i h = ground (arith, h)

pub lookup-some :
    (ts : Tables) (t i : ℕ)
    → present (ts t i) ≡ true
    → table_lookup ts t i ≡ some (addr_of (ts t i))
unfolding table_lookup
lookup-some ts t i h = ground (arith, h)

pub OwnedWalk-below : (j : ℕ) (path rest : List ℕ) → OwnedWalk (j ∷ path) rest
OwnedWalk-below j path [] = tt
OwnedWalk-below j path (i ∷ rest) = tt
