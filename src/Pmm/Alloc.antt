-- ===== src/Pmm/Alloc.antt =====
-- Single-frame allocation.
use trait_os.Base.{ℕ, zero, suc, ◌+◌, ◌-◌, ◌*◌, ◌≤◌, ◌<◌, ◌≡◌, ◌≢◌, ◌⊎◌, inl, inr, refl, arith, min}
use trait_os.Base.{Option, none, some, ◌==◌, if◌then◌else◌, if_ind}
use native.Mathlib.Decide.{dec_lt}
use trait_os.Pmm.Bitmap.{Bitmap, bit_test}
use trait_os.Pmm.Count.{count_free-zero}
use trait_os.Pmm.State.{
  Pmm, page_size, low_frames, find_free, or_else, take_found, take_frame, alloc,
}
use trait_os.Pmm.State.{alloc_low}
use trait_os.Pmm.Valid.{bits, IsValid, take_frame-IsValid, bits-take_frame}

-- What a search of the frames from `f` up to `e` finds: the first free one, or that none is free.
abbrev FindsIn : Bitmap → ℕ → ℕ → Option ℕ → Type 0
FindsIn bm f e none = (g : ℕ) → f ≤ g → g < e → bit_test bm g ≢ 0
FindsIn bm f e (some k) =
    (f ≤ k) × (k < e) × (bit_test bm k ≡ 0) × ((g : ℕ) → f ≤ g → g < k → bit_test bm g ≢ 0)

FindsIn-skip :
    (bm : Bitmap) (f e : ℕ) (o : Option ℕ)
    → bit_test bm f ≢ 0
    → FindsIn bm (f + 1) e o
    → FindsIn bm f e o
FindsIn-skip bm f e none nz h = λ g le lt. elim (dec_lt f g) [
  | yes p ↦ h g (omega arith) lt
  | no p ↦ let at_f : f ≡ g = omega arith in ground arith
]
FindsIn-skip bm f e (some k) nz h = (
  omega (arith, h.0),
  h.1,
  h.2,
  λ g le lt. elim (dec_lt f g) [
    | yes p ↦ h.3 g (omega arith) lt
    | no p ↦ let at_f : f ≡ g = omega arith in ground arith
  ],
)

find_free-FindsIn :
    (bm : Bitmap) (rounds f e : ℕ) → f + rounds ≡ e → FindsIn bm f e (find_free bm rounds f)
unfolding find_free
find_free-FindsIn bm zero f e h = λ g a b. absurd (omega arith)
find_free-FindsIn bm (suc rounds) f e h =
    if_ind (FindsIn bm f e) (bit_test bm f == 0)
      (λ z. (omega arith, omega arith, ground arith, λ g a b. absurd (omega arith)))
      (λ nz.
        FindsIn-skip bm f e (find_free bm rounds (f + 1)) (ground arith)
          (find_free-FindsIn bm rounds (f + 1) e (omega arith)))

-- What both loops together find among the frames below `n`.
abbrev Finds : Bitmap → ℕ → Option ℕ → Type 0
Finds bm n none = (g : ℕ) → g < n → bit_test bm g ≢ 0
Finds bm n (some k) = (k < n) × (bit_test bm k ≡ 0)

-- The first loop looks at the frames from `hint` up to `e`, the second at those below `mid`.
or_else-Finds :
    (bm : Bitmap) (hint e mid n : ℕ) (first second : Option ℕ)
    → mid ≤ n
    → (n ≤ mid) ⊎ ((mid ≡ hint) × (e ≡ n))
    → (e ≤ n) ⊎ (e ≤ hint)
    → FindsIn bm hint e first
    → FindsIn bm 0 mid second
    → Finds bm n (or_else first second)
or_else-Finds bm hint e mid n (some k) second a b c h h' = (omega arith, h.2)
or_else-Finds bm hint e mid n none (some k) a b c h h' = (omega arith, h'.2)
or_else-Finds bm hint e mid n none none a b c h h' = λ g lt. elim (dec_lt g mid) [
  | yes p ↦ h' g (omega arith) p
  | no p ↦ h g (omega arith) (omega arith)
]

-- What an allocation that succeeds does: it returns the address of a frame below `limit` that was
-- free and is not frame 0, marks that frame used and changes no other, lowers the count of free
-- frames by one, and keeps the invariant.
pub record Grant (p : Pmm) (limit : ℕ) (r : ℕ × Pmm) : Type 0 where
  pub frame : ℕ
  pub addr : r.0 ≡ frame * page_size
  pub nonzero : 0 < frame
  pub below : frame < limit
  pub was_free : bits p frame ≡ 0
  pub marked : (g : ℕ) → bits r.1 g ≡ (if frame == g then 1 else bits p g)
  pub one_less : p.free_frames ≡ r.1.free_frames + 1
  pub valid : IsValid r.1
  pub inside : frame < r.1.total_frames

take_found-Grant :
    (p : Pmm) (limit f : ℕ) (o : Option ℕ)
    → IsValid p
    → bits p 0 ≡ 1
    → limit ≤ p.total_frames
    → f < limit
    → bits p f ≡ 0
    → Finds p.bitmap limit o
    → Grant p limit (take_found o p)
unfolding take_found take_frame
take_found-Grant p limit f none v z le lt fr h = absurd (h f lt fr)
take_found-Grant p limit f (some k) v z le lt fr h =
    let (valid, less) = take_frame-IsValid p k v (omega arith) h.1 in
    record {
      frame = k;
      addr = refl;
      nonzero = ground arith;
      below = h.0;
      was_free = h.1;
      marked = λ g. bits-take_frame p k g v (omega arith);
      one_less = less;
      valid = valid;
      inside = omega (arith, h.0);
    }

take_found-none :
    (p : Pmm) (limit : ℕ) (o : Option ℕ)
    → ((g : ℕ) → g < limit → bits p g ≢ 0)
    → Finds p.bitmap limit o
    → take_found o p ≡ (0, p)
unfolding take_found
take_found-none p limit none h f = refl
take_found-none p limit (some k) h f = absurd (h k f.0 f.1)

alloc-Finds :
    (p : Pmm)
    → IsValid p
    → Finds p.bitmap p.total_frames (
        or_else
          (find_free p.bitmap (p.total_frames - p.first_free_hint) p.first_free_hint)
          (find_free p.bitmap (min p.first_free_hint p.total_frames) 0))
alloc-Finds p v =
    or_else-Finds p.bitmap p.first_free_hint p.total_frames (min p.first_free_hint p.total_frames)
      p.total_frames _ _ (omega arith) (inr (omega (arith, v.hint_in))) (inl (omega arith))
      (find_free-FindsIn p.bitmap _ p.first_free_hint p.total_frames (omega (arith, v.hint_in)))
      (find_free-FindsIn p.bitmap _ 0 _ (omega arith))

-- In a valid state with frame 0 used, `tpmm_alloc` succeeds whenever any frame below
-- `total_frames` is free.
pub alloc-Grant :
    (p : Pmm) (f : ℕ)
    → IsValid p
    → bits p 0 ≡ 1
    → f < p.total_frames
    → bits p f ≡ 0
    → Grant p p.total_frames (alloc p)
unfolding alloc
alloc-Grant p f v z lt fr =
    take_found-Grant p p.total_frames f _ v z (omega arith) lt fr (alloc-Finds p v)

-- In a valid state with no free frame, `tpmm_alloc` returns 0 and changes nothing.
pub alloc_exhausted : (p : Pmm) → IsValid p → p.free_frames ≡ 0 → alloc p ≡ (0, p)
unfolding alloc
alloc_exhausted p v e =
    take_found-none p p.total_frames _
      (count_free-zero (bits p) p.total_frames (omega (arith, v.counted))) (alloc-Finds p v)

abbrev low_limit : Pmm → ℕ
low_limit p = min low_frames p.total_frames

alloc_low-Finds :
    (p : Pmm)
    → IsValid p
    → Finds p.bitmap (low_limit p) (
        or_else
          (find_free p.bitmap (low_limit p - p.first_free_hint) p.first_free_hint)
          (find_free p.bitmap (min p.first_free_hint low_frames) 0))
alloc_low-Finds p v =
    or_else-Finds p.bitmap p.first_free_hint (p.first_free_hint + (low_limit p - p.first_free_hint))
      (min p.first_free_hint low_frames) (low_limit p) _ _ (omega (arith, v.hint_in)) sides
      (omega (arith, v.hint_in)) (find_free-FindsIn p.bitmap _ p.first_free_hint _ refl)
      (find_free-FindsIn p.bitmap _ 0 _ (omega arith))
  where
    sides :
        (low_limit p ≤ min p.first_free_hint low_frames)
        ⊎ ((min p.first_free_hint low_frames ≡ p.first_free_hint)
            × (p.first_free_hint + (low_limit p - p.first_free_hint) ≡ low_limit p))
    sides = elim (dec_lt (low_limit p) p.first_free_hint) [
      | yes q ↦ inl (omega (arith, v.hint_in))
      | no q ↦ inr (omega arith, omega arith)
    ]

-- In a valid state with frame 0 used, `tpmm_alloc_low` succeeds whenever any frame below 1 GiB and
-- `total_frames` is free, with a frame of that range.
pub alloc_low-Grant :
    (p : Pmm) (f : ℕ)
    → IsValid p
    → bits p 0 ≡ 1
    → f < min low_frames p.total_frames
    → bits p f ≡ 0
    → Grant p (min low_frames p.total_frames) (alloc_low p)
unfolding alloc_low
alloc_low-Grant p f v z lt fr =
    take_found-Grant p (low_limit p) f _ v z (omega arith) lt fr (alloc_low-Finds p v)

take_found-cases :
    (p : Pmm) (limit : ℕ) (o : Option ℕ)
    → IsValid p
    → bits p 0 ≡ 1
    → limit ≤ p.total_frames
    → Finds p.bitmap limit o
    → (take_found o p ≡ (0, p)) ⊎ Grant p limit (take_found o p)
unfolding take_found
take_found-cases p limit none v z le h = inl refl
take_found-cases p limit (some k) v z le h =
    inr (take_found-Grant p limit k (some k) v z le h.0 h.1 h)

-- In every valid state with frame 0 used, `tpmm_alloc_low` either returns 0 and changes nothing or
-- grants a frame below 1 GiB.
pub alloc_low-cases :
    (p : Pmm)
    → IsValid p
    → bits p 0 ≡ 1
    → (alloc_low p ≡ (0, p)) ⊎ Grant p (min low_frames p.total_frames) (alloc_low p)
unfolding alloc_low
alloc_low-cases p v z = take_found-cases p (low_limit p) _ v z (omega arith) (alloc_low-Finds p v)
