-- ===== src/Elf/Keep.antt =====
-- `telf_load` of src/telf.c, the page tables and the memory.
use trait_os.Base.{
  ℕ, ◌+◌, ◌*◌, ◌≡◌, inl, inr, refl, sym, ◌∙◌, arith, ltb, ◌==◌, ◌||◌, if_ind, subst,
}
use trait_os.Base.{Option, none, some, List, [], ◌∷◌}
use trait_os.Ipc.Fifo.{Rc, ok, fail}
use trait_os.Pmm.State.{Pmm, u64, alloc_low_contig, page_size}
use trait_os.Pmm.Valid.{bits}
use trait_os.Pmm.Contig.{alloc_low_contig-RunGrant}
use trait_os.Vmm.State.{Vm}
use trait_os.Vmm.Space.{user_base, user_end}
use trait_os.Vmm.Tree.{Roles, IsTree}
use trait_os.Elf.Parse.{Segment, Plan, Error, Parsed, parsed, refused, parse}
use trait_os.Elf.Load.{
  Loader, map_pages, filled, map_at, load_segment, load_segments, load_plan, load, pages_of,
  first_of, flags_of, any_mapped,
}
use trait_os.Pmm.Contig.{RunGrant}
use trait_os.Elf.Load.{fill}
use trait_os.Elf.Parse.{range}
use trait_os.Base.{◌⊎◌, ap, Option-cases}
use trait_os.Elf.Plan.{AllFit, parse-Sound}
use native.Mathlib.Decide.{dec_lt}
use trait_os.Base.{false, ◌<◌, ◌≤◌, ◌/◌}
use trait_os.Elf.Tables.{Keeps, more_used-IsTree, Keeps-more, map_pages-Keeps}
use trait_os.Elf.Copies.{
  KeepsIn, KeepsIn-refl, KeepsIn-trans, IsFilled, AllFilled, pages_of-holds, runs_over-IsFilled,
}

module _ (blob : ℕ → ℕ) (root : ℕ) where
  -- The frames of a segment, granted in one run.
  module _ (s : Segment) (l : Loader) (role : Roles) (f : IsFilled s) (o : l.overrun ≡ false)
      (tree : IsTree l.vm role) (at : role root ≡ some (root, [])) (r : ℕ × Pmm) (limit : ℕ)
      (g : RunGrant l.vm.frames (pages_of s) limit r) where
    abbrev granted : Vm
    granted = record l.vm { frames = r.1 }

    no_table :
        (a : ℕ) → bits l.vm.frames (a / page_size) ≡ 0 → role (a / page_size * page_size) ≡ none
    no_table a z = elim (Option-cases (role (a / page_size * page_size))) [
      | inl e ↦ e
      | inr ((t, path), e) ↦
          let (b, place, low, bit) = tree.page (a / page_size * page_size) t path e in
          let same : a / page_size ≡ b = omega (arith, place) in
          absurd (ground (arith, z, bit, ap (bits l.vm.frames) same))
    ]

    module _
        (k : Keeps root granted role
          (map_pages (pages_of s) 0 root (first_of s) r.0 (flags_of s) granted).1) where
      copied :
          (a : ℕ)
          → (fill blob s r.0 l.bytes a ≡ l.bytes a)
            ⊎ ((bits l.vm.frames (a / page_size) ≡ 0)
                × (bits
                      (map_pages (pages_of s) 0 root (first_of s) r.0 (flags_of s) granted).1.frames
                      (a / page_size)
                    ≡ 1)
                × (k.role' (a / page_size * page_size) ≡ none))
      unfolding fill
      copied a = elim (dec_lt a r.0) [
        | yes low ↦ inl (ground arith)
        | no n ↦ elim (dec_lt a (r.0 + pages_of s * 4096)) [
          | yes p ↦
              let from : g.start ≤ a / page_size = omega (arith, g.addr) in
              let to : a / page_size < g.start + pages_of s = omega (arith, g.addr) in
              let free = g.were_free (a / page_size) from to in
              let marked : bits r.1 (a / page_size) ≡ 1 =
                ground (arith, g.marked (a / page_size), from, to) in
              inr (
                free,
                k.used (a / page_size) marked,
                k.roles (a / page_size) marked ∙ no_table a free,
              )
          | no high ↦ inl (ground (arith, pages_of-holds s f.0, f.1))
        ]
      ]

  filled-Keeps :
      (s : Segment) (phys : ℕ) (res : Rc × Vm) (l : Loader) (role : Roles)
      → IsFilled s
      → l.overrun ≡ false
      → (k : Keeps root l.vm role res.1)
      → ((a : ℕ)
          → (fill blob s phys l.bytes a ≡ l.bytes a)
            ⊎ ((bits l.vm.frames (a / page_size) ≡ 0)
                × (bits res.1.frames (a / page_size) ≡ 1)
                × (k.role' (a / page_size * page_size) ≡ none)))
      → KeepsIn root l role (filled blob s phys res l)
  unfolding filled
  filled-Keeps s phys (ok, vm) l role f o k c = (ground (arith, o, runs_over-IsFilled s f), (k, c))
  filled-Keeps s phys (fail, vm) l role f o k c = (o, (k, λ a. inl refl))

  map_at-Keeps :
      (s : Segment) (r : ℕ × Pmm) (l : Loader) (role : Roles) (limit : ℕ)
      → IsFilled s
      → l.overrun ≡ false
      → IsTree l.vm role
      → role root ≡ some (root, [])
      → RunGrant l.vm.frames (pages_of s) limit r
      → KeepsIn root l role (map_at blob root s r l)
  unfolding map_at
  map_at-Keeps s r l role limit f o tree at g =
      let frames_used = λ (b : ℕ) (h : bits l.vm.frames b ≡ 1). used_after b h in
      let tree' = more_used-IsTree l.vm role r.1 tree g.valid frames_used in
      let k =
        map_pages-Keeps (pages_of s) 0 root (first_of s) r.0 (flags_of s)
          (record l.vm { frames = r.1 }) role tree' at in
      if_ind (KeepsIn root l role) (r.0 == 0) (λ z. absurd (ground (arith, z, g.addr, g.nonzero)))
        (λ _.
          filled-Keeps s r.0
            (map_pages (pages_of s) 0 root (first_of s) r.0 (flags_of s)
              (record l.vm { frames = r.1 }))
            l role f o (Keeps-more l.vm role root r.1 frames_used k)
            (copied s l role f o tree at r limit g k))
    where
      used_after : (b : ℕ) → bits l.vm.frames b ≡ 1 → bits r.1 b ≡ 1
      used_after b h = ground (arith, g.marked b)

  refused-Keeps :
      (s : Segment) (l : Loader) (role : Roles)
      → l.overrun ≡ false
      → IsTree l.vm role
      → role root ≡ some (root, [])
      → KeepsIn root l role (map_at blob root s (0, l.vm.frames) l)
  unfolding map_at
  refused-Keeps s l role o tree at = KeepsIn-refl root l role (some range) o tree at

  load_segment-Keeps :
      (s : Segment) (l : Loader) (role : Roles)
      → IsFilled s
      → l.overrun ≡ false
      → IsTree l.vm role
      → role root ≡ some (root, [])
      → KeepsIn root l role (load_segment blob root s l)
  unfolding load_segment
  load_segment-Keeps s l role f o tree at =
      if_ind (KeepsIn root l role) (ltb s.vaddr user_base || ltb user_end (u64 (s.vaddr + s.memsz)))
        (λ _. KeepsIn-refl root l role (some range) o tree at)
        (λ _.
          if_ind (KeepsIn root l role) (any_mapped (pages_of s) 0 root (first_of s) l.vm)
            (λ _. KeepsIn-refl root l role (some range) o tree at)
            (λ _.
              elim (alloc_low_contig-RunGrant l.vm.frames (pages_of s) tree.valid tree.zero_used) [
                | inl e ↦
                    subst (λ r. KeepsIn root l role (map_at blob root s r l)) (sym e)
                      (refused-Keeps s l role o tree at)
                | inr g ↦
                    map_at-Keeps s (alloc_low_contig (pages_of s) l.vm.frames) l role _ f o tree at
                      g
              ]))

  load_segments-Keeps :
      (size : ℕ) (segs : List Segment) (l : Loader) (role : Roles)
      → AllFit size segs
      → AllFilled segs
      → l.overrun ≡ false
      → IsTree l.vm role
      → role root ≡ some (root, [])
      → KeepsIn root l role (load_segments blob root segs l)
  unfolding load_segments
  load_segments-Keeps size [] l role fits f o tree at = KeepsIn-refl root l role none o tree at
  load_segments-Keeps size (s ∷ segs) l role fits f o tree at =
      let (kept, (k, c)) = load_segment-Keeps s l role (fits.0.no_wrap, f.0) o tree at in
      let res = load_segment blob root s l in
      let later = load_segments-Keeps size segs res.1 k.role' fits.1 f.1 kept k.tree k.is_root in
      by_result res.0 (load_segments blob root segs res.1) res (kept, (k, c))
        (KeepsIn-trans root l res.1 role (load_segments blob root segs res.1) k c later)
    where
      by_result :
          (e : Option Error) (later res : Option Error × Loader)
          → KeepsIn root l role res
          → KeepsIn root l role later
          → KeepsIn root l role (elim e [ none ↦ later | some x ↦ res ])
      by_result none later res k k' = k'
      by_result (some x) later res k k' = k

-- Loading a program in a space of tables that are trees, if no segment of the plan of the file has
-- more bytes in the file than in memory: whatever is returned, also halfway, no copy has run past the
-- frames of its segment; the tables are still trees; every frame in use is still in use with the part
-- that it had; the frames in use that are no table of that space, such as the tables of the kernel
-- and of the other spaces, have the entries that they had; and a byte of memory that has changed lies
-- in a frame that was free, is in use now, and is no page table.
pub load-Keeps :
    (root : ℕ) (blob : ℕ → ℕ) (size : ℕ) (l : Loader) (role : Roles)
    → ((plan : Plan) → parse blob size ≡ parsed plan → AllFilled plan.segs)
    → l.overrun ≡ false
    → IsTree l.vm role
    → role root ≡ some (root, [])
    → KeepsIn root l role (load root blob size l)
unfolding load load_plan
load-Keeps root blob size l role whole o tree at = by_plan (parse blob size) refl
  where
    by_plan :
        (p : Parsed Plan) → parse blob size ≡ p → KeepsIn root l role (load_plan blob root p l)
    by_plan (refused e) same = KeepsIn-refl root l role (some e) o tree at
    by_plan (parsed plan) same =
        load_segments-Keeps blob root size plan.segs l role (parse-Sound blob size plan same).fits
          (whole plan same) o tree at
