-- ===== src/Elf/Plan.antt =====
-- What a plan that `telf_parse` accepts can be relied on for.
use trait_os.Base.{ℕ, zero, suc, ◌+◌, ◌-◌, ◌*◌, ◌%◌, ◌^◌, ◌≤◌, ◌<◌, ◌≡◌, ◌≢◌, ◌⊎◌, arith}
use trait_os.Base.{ltb, ◌==◌, if_ind, not, false, ◌&&◌, ◌||◌}
use trait_os.Base.{List, [], ◌∷◌, ◌++◌, length, length-append, subst}
use trait_os.Elf.Parse.{
  max_segments, Segment, Plan, Error, Parsed, parsed, refused, Phdr, bad, skip, load,
}
use trait_os.Elf.Parse.{check_load, read_phdr, read_phdrs, page_start, overlap, overlap_any}
use trait_os.Base.{Option, none, some}
use trait_os.Elf.Parse.{header_error, unless_error}
use Prim.Native.Nat.{bit_and}
use trait_os.Elf.Parse.{overlaps, finish, parse, rd32}

-- The bytes to load lie in the file, and the range of addresses does not wrap.
pub record Fits (size : ℕ) (s : Segment) : Type 0 where
  pub in_file : s.offset + s.filesz ≤ size
  pub no_wrap : s.vaddr + s.memsz < 2 ^ 64

abbrev pub AllFit : ℕ → List Segment → Type 0
AllFit size [] = Unit {0}
AllFit size (s ∷ ss) = Fits size s × AllFit size ss

-- Two segments share no page of the first's nor any address: one ends before the other's first
-- page starts.
abbrev pub Apart : Segment → Segment → Type 0
Apart s t = (s.vaddr + s.memsz ≤ page_start t) ⊎ (t.vaddr + t.memsz ≤ page_start s)

abbrev pub ApartFrom : Segment → List Segment → Type 0
ApartFrom s [] = Unit {0}
ApartFrom s (t ∷ ts) = Apart s t × ApartFrom s ts

abbrev pub AllApart : List Segment → Type 0
AllApart [] = Unit {0}
AllApart (s ∷ ss) = ApartFrom s ss × AllApart ss

-- What a header that is loaded is good for.
abbrev Loads : ℕ → Phdr → Type 0
Loads size (bad e) = Unit {0}
Loads size skip = Unit {0}
Loads size (load s) = Fits size s

check_load-Loads :
    (size flags poff vaddr filesz memsz align : ℕ)
    → Loads size (check_load size flags poff vaddr filesz memsz align)
unfolding check_load
check_load-Loads size flags poff vaddr filesz memsz align =
    if_ind (Loads size) (ltb size poff || ltb (size - poff) filesz) (λ _. tt)
      (λ inside.
        if_ind (Loads size) (ltb memsz filesz) (λ _. tt)
          (λ _.
            if_ind (Loads size) (ltb (2 ^ 64 - 1 - memsz) vaddr) (λ _. tt)
              (λ short.
                if_ind (Loads size) (not (align == 0) && not (bit_and align (align - 1) == 0))
                  (λ _. tt)
                  (λ _.
                    if_ind (Loads size) (ltb 1 align && not (vaddr % align == poff % align))
                      (λ _. tt) (λ _. record { in_file = ground arith; no_wrap = ground arith })))))

-- A header is loaded only while there is room for its segment.
abbrev Room : ℕ → Phdr → Type 0
Room n (bad e) = Unit {0}
Room n skip = Unit {0}
Room n (load s) = n ≢ max_segments

read_phdr-Loads :
    (blob : ℕ → ℕ) (size off n : ℕ)
    → Loads size (read_phdr blob size off n) × Room n (read_phdr blob size off n)
unfolding read_phdr
read_phdr-Loads blob size off n =
    if_ind P (ltb size ((off + 56) % 2 ^ 64)) (λ _. (tt, tt))
      (λ _.
        if_ind P (not (rd32 blob off == 1)) (λ _. (tt, tt))
          (λ _.
            if_ind P (n == max_segments) (λ _. (tt, tt))
              (λ room.
                (check_load-Loads size _ _ _ _ _ _, check_load-Room _ _ _ _ _ _ _ (ground arith)))))
  where
    P : Phdr → Type 0
    P h = Loads size h × Room n h

    any-Room : (h : Phdr) → n ≢ max_segments → Room n h
    any-Room (bad e) ne = tt
    any-Room skip ne = tt
    any-Room (load s) ne = ne

    check_load-Room :
        (size flags poff vaddr filesz memsz align : ℕ)
        → n ≢ max_segments
        → Room n (check_load size flags poff vaddr filesz memsz align)
    check_load-Room size flags poff vaddr filesz memsz align ne = any-Room _ ne

append-AllFit :
    (size : ℕ) (ss : List Segment) (s : Segment)
    → AllFit size ss
    → Fits size s
    → AllFit size (ss ++ (s ∷ []))
append-AllFit size [] s h f = (f, tt)
append-AllFit size (x ∷ ss) s h f = (h.0, append-AllFit size ss s h.1 f)

-- What the loop over the headers hands on, if it refuses nothing.
abbrev Found : ℕ → Parsed (List Segment) → Type 0
Found size (refused e) = Unit {0}
Found size (parsed segs) = AllFit size segs × (length segs ≤ max_segments)

read_phdrs-Found :
    (blob : ℕ → ℕ) (size phoff phentsz rounds i : ℕ) (segs : List Segment)
    → AllFit size segs
    → length segs ≤ max_segments
    → Found size (read_phdrs blob size phoff phentsz rounds i segs)
unfolding read_phdrs
read_phdrs-Found blob size phoff phentsz zero i segs h n = (h, n)
read_phdrs-Found blob size phoff phentsz (suc rounds) i segs h n =
    next (read_phdr blob size ((phoff + i * phentsz) % 2 ^ 64) (length segs))
      (read_phdr-Loads blob size _ (length segs))
      (read_phdrs-Found blob size phoff phentsz rounds (i + 1))
  where
    later : List Segment → Parsed (List Segment)
    later = read_phdrs blob size phoff phentsz rounds (i + 1)

    next :
        (p : Phdr)
        → Loads size p × Room (length segs) p
        → ((ss : List Segment) → AllFit size ss → length ss ≤ max_segments → Found size (later ss))
        → Found size
            (elim p [ bad e ↦ refused e | skip ↦ later segs | load s ↦ later (segs ++ (s ∷ [])) ])
    next (bad e) l found = tt
    next skip l found = found segs h n
    next (load s) l found =
        found (segs ++ (s ∷ [])) (append-AllFit size segs s h l.0)
          (omega (arith, length-append segs (s ∷ []), l.1, n))

overlap-Apart :
    (size : ℕ) (s t : Segment) → Fits size s → Fits size t → overlap s t ≡ false → Apart s t
overlap-Apart size s t fs ft h = grind (arith, fs.no_wrap, ft.no_wrap)

overlap_any-ApartFrom :
    (size : ℕ) (s : Segment) (ts : List Segment)
    → Fits size s
    → AllFit size ts
    → overlap_any s ts ≡ false
    → ApartFrom s ts
unfolding overlap_any
overlap_any-ApartFrom size s [] fs ft h = tt
overlap_any-ApartFrom size s (t ∷ ts) fs ft h = (
  overlap-Apart size s t fs ft.0 (ground (arith, h)),
  overlap_any-ApartFrom size s ts fs ft.1 (ground (arith, h)),
)

overlaps-AllApart :
    (size : ℕ) (ss : List Segment) → AllFit size ss → overlaps ss ≡ false → AllApart ss
unfolding overlaps
overlaps-AllApart size [] f h = tt
overlaps-AllApart size (s ∷ ss) f h = (
  overlap_any-ApartFrom size s ss f.0 f.1 (ground (arith, h)),
  overlaps-AllApart size ss f.1 (ground (arith, h)),
)

-- A plan that the loader can rely on.
pub record Sound (size : ℕ) (p : Plan) : Type 0 where
  pub fits : AllFit size p.segs
  pub apart : AllApart p.segs
  pub some_segment : 0 < length p.segs
  pub few_segments : length p.segs ≤ max_segments

abbrev Accepts : ℕ → Parsed Plan → Type 0
Accepts size (refused e) = Unit {0}
Accepts size (parsed p) = Sound size p

finish-Accepts :
    (size entry : ℕ) (r : Parsed (List Segment)) → Found size r → Accepts size (finish entry r)
unfolding finish
finish-Accepts size entry (refused e) h = tt
finish-Accepts size entry (parsed segs) h =
    if_ind (Accepts size) (length segs == 0) (λ _. tt)
      (λ more.
        if_ind (Accepts size) (overlaps segs) (λ _. tt)
          (λ apart. record {
            fits = h.0;
            apart = overlaps-AllApart size segs h.0 apart;
            some_segment = ground arith;
            few_segments = h.1;
          }))

unless_error-Accepts :
    (size : ℕ) (o : Option Error) (r : Parsed Plan)
    → Accepts size r
    → Accepts size (unless_error o r)
unless_error-Accepts size none r h = h
unless_error-Accepts size (some e) r h = tt

parse-Accepts : (blob : ℕ → ℕ) (size : ℕ) → Accepts size (parse blob size)
unfolding parse
parse-Accepts blob size =
    unless_error-Accepts size (header_error blob size) _
      (finish-Accepts size _ _ (read_phdrs-Found blob size _ _ _ 0 [] tt (omega arith)))

-- For every file: a plan that `telf_parse` returns has one to four segments; each loads bytes that
-- lie in the file and has a range of addresses that does not wrap round 2^64; and of any two of
-- them one ends at or before the first page of the other.
pub parse-Sound : (blob : ℕ → ℕ) (size : ℕ) (p : Plan) → parse blob size ≡ parsed p → Sound size p
parse-Sound blob size p e = subst (Accepts size) e (parse-Accepts blob size)
