-- ===== src/Pmm/RoundTrip.antt =====
-- Freeing what was allocated.
use trait_os.Base.{
  ℕ, ◌+◌, ◌*◌, ◌-◌, ◌^◌, ◌<◌, ◌≡◌, refl, sym, ap, ◌∙◌, arith, leb, if◌then◌else◌, if_ind,
}
use trait_os.Pmm.Count.{count_free-le}
use trait_os.Pmm.State.{Pmm, page_size, frame_of, alloc, give_back, free}
use trait_os.Pmm.Valid.{bits, IsValid, bits-give_back, free-IsValid}
use trait_os.Pmm.Alloc.{alloc-Grant}

frame_of_addr : (f : ℕ) → f < 2 ^ 20 → frame_of (f * page_size) ≡ f
frame_of_addr f h = omega arith

-- Giving back the frame of the table that an address names.
free_inside :
    (p : Pmm) (phys f : ℕ) → frame_of phys ≡ f → f < p.total_frames → free phys p ≡ give_back f p
unfolding free
free_inside p phys f e lt =
    ap (λ k. if leb p.total_frames k then p else give_back k p) e
    ∙ if_ind (λ q. q ≡ give_back f p) (leb p.total_frames f) (λ le. absurd (ground arith))
        (λ _. refl)

-- Giving back a used frame raises the count by one.
give_back_count :
    (p : Pmm) (f : ℕ)
    → IsValid p
    → f < p.total_frames
    → bits p f ≡ 1
    → p.free_frames < 2 ^ 32 - 1
    → (give_back f p).free_frames ≡ p.free_frames + 1
unfolding give_back
give_back_count p f v lt u small = ground arith

-- In a valid state with frame 0 used and another frame free, freeing the address that `tpmm_alloc`
-- returns gives every frame the status that it had before, and the same number of free frames.
pub free-alloc :
    (p : Pmm) (f g : ℕ)
    → IsValid p
    → bits p 0 ≡ 1
    → f < p.total_frames
    → bits p f ≡ 0
    → let q = free (alloc p).0 (alloc p).1 in
      (bits q g ≡ bits p g) × (q.free_frames ≡ p.free_frames) × IsValid q
free-alloc p f g v z lt fr =
    let r = alloc p in
    let q = alloc-Grant p f v z lt fr in
    let k = q.frame in
    let inside : k < r.1.total_frames = q.inside in
    let back : free r.0 r.1 ≡ give_back k r.1 =
      free_inside r.1 r.0 k (ap frame_of q.addr ∙ frame_of_addr k (omega (arith, q.valid.total_in)))
        inside in
    (
      ap (λ s. bits s g) back
          ∙ ground (arith, bits-give_back r.1 k g q.valid inside, q.marked g, q.was_free),
      ap (λ s. s.free_frames) back
          ∙ give_back_count r.1 k q.valid inside (ground (arith, q.marked k)) (
              omega (
                arith,
                q.one_less,
                q.valid.counted,
                count_free-le (bits r.1) r.1.total_frames,
                q.valid.total_in,
              ))
          ∙ sym q.one_less,
      free-IsValid r.1 r.0 q.valid,
    )
