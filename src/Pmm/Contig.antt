-- ===== src/Pmm/Contig.antt =====
-- Allocation of contiguous frames.
use mathlib.Core.Path.{subst}
use native.Mathlib.Decide.{dec_lt}
use trait_os.Base.{ℕ, zero, suc, ◌+◌, ◌-◌, ◌*◌, ◌≤◌, ◌<◌, ◌≡◌, ◌⊎◌, inl, inr, refl, arith, min}
use trait_os.Base.{◌==◌, ltb, leb, ◌&&◌, false, if◌then◌else◌, if_ind, Bool-cases}
use trait_os.Pmm.Bitmap.{Bitmap, bit_test, max_frames}
use trait_os.Pmm.State.{Pmm, page_size, u32, low_frames, Scan, found, ended, scan_run, scan_again}
use trait_os.Pmm.State.{take_frame, claim, claim_found, alloc_contig, alloc_low_contig}
use trait_os.Pmm.Valid.{bits, IsValid, take_frame-IsValid, bits-take_frame}

-- Before frame `f`: the last `run` frames are free, and they start at `start`.
record Running (bm : Bitmap) (f run start : ℕ) : Type 0 where
  fits : run ≤ f
  starts : 0 < run → start + run ≡ f
  all_free : (g : ℕ) → f ≤ g + run → g < f → bit_test bm g ≡ 0

-- A run found below `e`.
abbrev ScanOk : Bitmap → ℕ → ℕ → Scan → Type 0
ScanOk bm pages e (found s) =
    (s + pages ≤ e) × ((g : ℕ) → s ≤ g → g < s + pages → bit_test bm g ≡ 0)
ScanOk bm pages e (ended run start) = Unit {0}

no_run : (bm : Bitmap) (f start : ℕ) → Running bm f 0 start
no_run bm f start = record {
  fits = omega arith;
  starts = λ h. absurd (omega arith);
  all_free = λ g a b. absurd (omega arith);
}

-- One more free frame.
longer :
    (bm : Bitmap) (f run start : ℕ)
    → Running bm f run start
    → bit_test bm f ≡ 0
    → Running bm (f + 1) (run + 1) (if run == 0 then f else start)
longer bm f run start r z = record {
  fits = omega (arith, r.fits);
  starts = λ _. ground (arith, r.starts);
  all_free = λ g a b. elim (dec_lt g f) [
    | yes p ↦ r.all_free g (omega arith) p
    | no p ↦ let at_f : f ≡ g = omega arith in subst (λ x. bit_test bm x ≡ 0) at_f z
  ];
}

-- A run that has become long enough.
run_found :
    (bm : Bitmap) (pages f e run start : ℕ)
    → Running bm f run start
    → run ≡ pages
    → 0 < run
    → f ≤ e
    → ScanOk bm pages e (found start)
run_found bm pages f e run start l d pos h =
    let ends : start + run ≡ f = l.starts pos in
    (omega arith, λ g a b. l.all_free g (omega arith) (omega arith))

scan_run-ScanOk :
    (bm : Bitmap) (pages rounds f e run start : ℕ)
    → f + rounds ≡ e
    → e ≤ max_frames
    → Running bm f run start
    → ScanOk bm pages e (scan_run bm pages rounds f run start)
unfolding scan_run
scan_run-ScanOk bm pages zero f e run start h m r = tt
scan_run-ScanOk bm pages (suc rounds) f e run start h m r = elim (Bool-cases (bit_test bm f == 0)) [
  | inl fr ↦
      let l = longer bm f run start r (ground arith) in
      let small : u32 (run + 1) ≡ run + 1 = omega (arith, r.fits) in
      rw (fr, small)
        (if_ind (ScanOk bm pages e) (run + 1 == pages)
          (λ done.
            run_found bm pages (f + 1) e (run + 1) _ l (ground arith) (omega arith) (omega arith))
          (λ more. scan_run-ScanOk bm pages rounds (f + 1) e (run + 1) _ (omega arith) m l))
  | inr us ↦
      rw us (
        scan_run-ScanOk bm pages rounds (f + 1) e 0 start (omega arith) m (no_run bm (f + 1) start))
]

-- A scan that begins again at frame 0, which is used, forgets the run of the first loop.
scan_restart :
    (bm : Bitmap) (pages rounds e run start : ℕ)
    → bit_test bm 0 ≡ 1
    → rounds ≤ e
    → e ≤ max_frames
    → ScanOk bm pages e (scan_run bm pages rounds 0 run start)
unfolding scan_run
scan_restart bm pages zero e run start z h m = tt
scan_restart bm pages (suc rounds) e run start z h m =
    let used : (bit_test bm 0 == 0) ≡ false = ground arith in
    rw used (
      widen (scan_run bm pages rounds (0 + 1) 0 start) (
        scan_run-ScanOk bm pages rounds (0 + 1) (suc rounds) 0 start (omega arith) (omega arith)
          (no_run bm (0 + 1) start)))
  where
    widen : (r : Scan) → ScanOk bm pages (suc rounds) r → ScanOk bm pages e r
    widen (found s) ok = (omega arith, ok.1)
    widen (ended run start) ok = tt

second_scan :
    (bm : Bitmap) (pages mid e : ℕ) (first : Scan)
    → bit_test bm 0 ≡ 1
    → mid ≤ e
    → e ≤ max_frames
    → ScanOk bm pages e first
    → ScanOk bm pages e (scan_again bm pages mid first)
unfolding scan_again
second_scan bm pages mid e (found s) z h m ok = ok
second_scan bm pages mid e (ended run start) z h m ok = scan_restart bm pages mid e run start z h m

-- The state after a run of `n` free frames from `f` on is claimed.
record Claims (p : Pmm) (n f : ℕ) (q : Pmm) : Type 0 where
  valid : IsValid q
  same_total : q.total_frames ≡ p.total_frames
  fewer : p.free_frames ≡ q.free_frames + n
  marked : (g : ℕ) → bits q g ≡ (if leb f g && ltb g (f + n) then 1 else bits p g)

-- One round of the claiming loop.
abbrev claim_one : ℕ → Pmm → Pmm
claim_one f p = record (take_frame (u32 f) p) { first_free_hint = p.first_free_hint }

claim_one-IsValid :
    (p : Pmm) (f : ℕ)
    → IsValid p
    → f < p.total_frames
    → bits p f ≡ 0
    → IsValid (claim_one f p)
      × (p.free_frames ≡ (claim_one f p).free_frames + 1)
      × ((g : ℕ) → bits (claim_one f p) g ≡ (if f == g then 1 else bits p g))
unfolding take_frame
claim_one-IsValid p f v lt z =
    let same : u32 f ≡ f = omega (arith, v.total_in) in
    rw same (
      let (t, less) = take_frame-IsValid p f v lt z in
      (
        record {
          total_in = v.total_in;
          hint_in = v.hint_in;
          beyond = t.beyond;
          counted = t.counted;
        },
        less,
        λ g. bits-take_frame p f g v lt,
      ))

claim-Claims :
    (n f : ℕ) (p : Pmm)
    → IsValid p
    → f + n ≤ p.total_frames
    → ((g : ℕ) → f ≤ g → g < f + n → bits p g ≡ 0)
    → Claims p n f (claim n f p)
unfolding claim take_frame
claim-Claims zero f p v h fr = record {
  valid = v;
  same_total = refl;
  fewer = omega arith;
  marked = λ g. ground arith;
}
claim-Claims (suc n) f p v h fr =
    let (v', less, one) =
      claim_one-IsValid p f v (omega arith) (fr f (omega arith) (omega arith)) in
    let c =
      claim-Claims n (f + 1) (claim_one f p) v' (omega arith)
        (λ g a b. ground (arith, one g, fr g (omega arith) (omega arith))) in
    record {
      valid = c.valid;
      same_total = c.same_total;
      fewer = omega (arith, less, c.fewer);
      marked = λ g. ground (arith, c.marked g, one g);
    }

-- What a request for `pages` contiguous frames below `limit` comes to: it is refused and nothing
-- changes, or it is granted the address of a run of frames below `limit` that starts above frame 0;
-- all of them were free and are marked used, no other frame changes, the count of free frames
-- falls by `pages`, and the invariant is kept.
pub record RunGrant (p : Pmm) (pages limit : ℕ) (r : ℕ × Pmm) : Type 0 where
  pub start : ℕ
  pub addr : r.0 ≡ start * page_size
  pub nonzero : 0 < start
  pub within : start + pages ≤ limit
  pub were_free : (g : ℕ) → start ≤ g → g < start + pages → bits p g ≡ 0
  pub marked : (g : ℕ) → bits r.1 g ≡ (if leb start g && ltb g (start + pages) then 1 else bits p g)
  pub fewer : p.free_frames ≡ r.1.free_frames + pages
  pub valid : IsValid r.1

claim_found-RunGrant :
    (p : Pmm) (pages limit : ℕ) (s : Scan)
    → IsValid p
    → bits p 0 ≡ 1
    → 0 < pages
    → limit ≤ p.total_frames
    → ScanOk p.bitmap pages limit s
    → (claim_found pages s p ≡ (0, p)) ⊎ RunGrant p pages limit (claim_found pages s p)
unfolding claim_found
claim_found-RunGrant p pages limit (ended run start) v z pos h ok = inl refl
claim_found-RunGrant p pages limit (found s) v z pos h ok =
    let c = claim-Claims pages s p v (omega arith) ok.1 in
    inr (record {
      start = s;
      addr = refl;
      nonzero = elim (dec_lt 0 s) [
        | yes q ↦ q
        | no q ↦ absurd (ground (arith, ok.1 0 (omega arith) (omega arith)))
      ];
      within = ok.0;
      were_free = ok.1;
      marked = c.marked;
      fewer = c.fewer;
      valid = record {
        total_in = c.valid.total_in;
        hint_in = omega (arith, c.same_total, v.total_in);
        beyond = c.valid.beyond;
        counted = c.valid.counted;
      };
    })

-- In a valid state with frame 0 used, `tpmm_alloc_contig` of at least one page either is refused or
-- is granted such a run below `total_frames`.
pub alloc_contig-RunGrant :
    (p : Pmm) (pages : ℕ)
    → IsValid p
    → bits p 0 ≡ 1
    → 0 < pages
    → (alloc_contig pages p ≡ (0, p)) ⊎ RunGrant p pages p.total_frames (alloc_contig pages p)
unfolding alloc_contig
alloc_contig-RunGrant p pages v z pos =
    claim_found-RunGrant p pages p.total_frames _ v z pos (omega arith) (
      second_scan p.bitmap pages p.first_free_hint p.total_frames _ z v.hint_in v.total_in (
        scan_run-ScanOk p.bitmap pages _ p.first_free_hint p.total_frames 0 0
          (omega (arith, v.hint_in)) v.total_in (no_run p.bitmap p.first_free_hint 0)))

-- In a valid state with frame 0 used, `tpmm_alloc_low_contig` either is refused and changes
-- nothing, as it always is for no pages, or is granted a run of free frames below 1 GiB and below
-- `total_frames`, as `RunGrant` says.
pub alloc_low_contig-RunGrant :
    (p : Pmm) (pages : ℕ)
    → IsValid p
    → bits p 0 ≡ 1
    → (alloc_low_contig pages p ≡ (0, p))
      ⊎ RunGrant p pages (min low_frames p.total_frames) (alloc_low_contig pages p)
unfolding alloc_low_contig
alloc_low_contig-RunGrant p pages v z =
    if_ind Outcome (pages == 0) (λ _. inl refl)
      (λ some_pages.
        if_ind Outcome (ltb cap pages) (λ _. inl refl)
          (λ _. claim_found-RunGrant p pages cap _ v z (ground arith) (omega arith) (
            second_scan p.bitmap pages (min hint cap) cap _ z (omega arith)
              (omega (arith, v.total_in)) (first (scan_rounds (dec_lt hint cap))))))
  where
    cap : ℕ
    cap = min low_frames p.total_frames

    hint : ℕ
    hint = p.first_free_hint

    Outcome : ℕ × Pmm → Type 0
    Outcome r = (r ≡ (0, p)) ⊎ RunGrant p pages cap r

    first :
        (cap - hint ≡ 0) ⊎ (hint + (cap - hint) ≡ cap)
        → ScanOk p.bitmap pages cap (scan_run p.bitmap pages (cap - hint) hint 0 0)
    first (inl e) = rw e (unfold scan_run in tt)
    first (inr e) =
        scan_run-ScanOk p.bitmap pages (cap - hint) hint cap 0 0 e (omega (arith, v.total_in))
          (no_run p.bitmap hint 0)

    scan_rounds : Dec (hint < cap) → (cap - hint ≡ 0) ⊎ (hint + (cap - hint) ≡ cap)
    scan_rounds (yes q) = inr (omega arith)
    scan_rounds (no q) = inl (omega arith)
