-- ===== src/Pmm/Valid.antt =====
-- The manager's invariant, and the steps that keep it: taking a free frame, giving a used one back.
use trait_os.Base.{ℕ, suc, ◌+◌, ◌≤◌, ◌<◌, ◌≡◌, arith}
use trait_os.Base.{leb, ◌==◌, if◌then◌else◌, if_ind, ◌∙◌, true, false}
use trait_os.Pmm.Bitmap.{bit_set, bit_clear, bit_test, max_frames, bit_test-bit_set}
use trait_os.Pmm.Bitmap.{bit_test-bit_clear, bit_test-le-one}
use trait_os.Pmm.Count.{count_free, count_free-eq, count_free-take, count_free-le}
use trait_os.Pmm.State.{Pmm, frame_of, reserve_frame, take_frame, give_back, free}

-- The bitmap read as a table of bits.
abbrev pub bits : Pmm → ℕ → ℕ
bits p f = bit_test p.bitmap f

-- The frames beyond `total_frames` are used, `free_frames` counts the free ones below it, and the
-- hint is no frame beyond it.
pub record IsValid (p : Pmm) : Type 0 where
  pub total_in : p.total_frames ≤ max_frames
  pub hint_in : p.first_free_hint ≤ p.total_frames
  pub beyond : (f : ℕ) → p.total_frames ≤ f → f < max_frames → bits p f ≡ 1
  pub counted : p.free_frames ≡ count_free (bits p) p.total_frames

-- Taking a free frame keeps the invariant, uses up that frame alone, and lowers the count by one.
pub take_frame-IsValid :
    (p : Pmm) (f : ℕ)
    → IsValid p
    → f < p.total_frames
    → bits p f ≡ 0
    → IsValid (take_frame f p) × (p.free_frames ≡ (take_frame f p).free_frames + 1)
unfolding take_frame
take_frame-IsValid p f v lt z = (
  record {
    total_in = v.total_in;
    hint_in = omega (arith, v.total_in);
    beyond = λ g le lt'. ground (arith, set g, v.beyond g);
    counted = omega (arith, v.counted, took, small);
  },
  omega (arith, v.counted, took, small),
)
  where
    set : (g : ℕ) → bit_test (bit_set p.bitmap f) g ≡ (if f == g then 1 else bits p g)
    set g = bit_test-bit_set p.bitmap f g (omega (arith, v.total_in))

    took :
        count_free (bits p) p.total_frames
        ≡ suc (count_free (bit_test (bit_set p.bitmap f)) p.total_frames)
    took = count_free-take (bits p) (bit_test (bit_set p.bitmap f)) f p.total_frames lt z set

    small : count_free (bits p) p.total_frames ≤ max_frames
    small = omega (arith, v.total_in, count_free-le (bits p) p.total_frames)

pub bits-take_frame :
    (p : Pmm) (f g : ℕ)
    → IsValid p
    → f < p.total_frames
    → bits (take_frame f p) g ≡ (if f == g then 1 else bits p g)
unfolding take_frame
bits-take_frame p f g v lt = bit_test-bit_set p.bitmap f g (omega (arith, v.total_in))

-- Giving back a frame of the table keeps the invariant and frees that frame alone; a frame that is
-- free already is left as it is.
pub give_back-IsValid : (p : Pmm) (f : ℕ) → IsValid p → f < p.total_frames → IsValid (give_back f p)
unfolding give_back
give_back-IsValid p f v lt =
    if_ind IsValid (bit_test p.bitmap f == 0) (λ _. v)
      (λ used. record {
        total_in = v.total_in;
        hint_in = ground (arith, v.hint_in);
        beyond = λ g le lt'. ground (arith, cleared g, v.beyond g);
        counted = omega (arith, v.counted, gave used, small, v.total_in);
      })
  where
    cleared : (g : ℕ) → bit_test (bit_clear p.bitmap f) g ≡ (if f == g then 0 else bits p g)
    cleared g = bit_test-bit_clear p.bitmap f g (omega (arith, v.total_in))

    gave :
        (bit_test p.bitmap f == 0) ≡ false
        → count_free (bit_test (bit_clear p.bitmap f)) p.total_frames
          ≡ suc (count_free (bits p) p.total_frames)
    gave used =
        count_free-take (bit_test (bit_clear p.bitmap f)) (bits p) f p.total_frames lt
          (ground (arith, cleared f)) (λ g. ground (arith, cleared g, bit_test-le-one p.bitmap f))

    small : count_free (bits p) p.total_frames ≤ p.total_frames
    small = count_free-le (bits p) p.total_frames

pub bits-give_back :
    (p : Pmm) (f g : ℕ)
    → IsValid p
    → f < p.total_frames
    → bits (give_back f p) g ≡ (if f == g then 0 else bits p g)
unfolding give_back
bits-give_back p f g v lt =
    ground (arith, bit_test-bit_clear p.bitmap f g (omega (arith, v.total_in)))

-- `tpmm_free` keeps the invariant, for every address.
pub free-IsValid : (p : Pmm) (phys : ℕ) → IsValid p → IsValid (free phys p)
unfolding free
free-IsValid p phys v =
    if_ind IsValid (leb p.total_frames (frame_of phys)) (λ _. v)
      (λ inside. give_back-IsValid p (frame_of phys) v (ground arith))

-- Reserving a frame keeps the invariant, for every address.
pub reserve_frame-IsValid : (p : Pmm) (phys : ℕ) → IsValid p → IsValid (reserve_frame phys p)
unfolding reserve_frame
reserve_frame-IsValid p phys v =
    if_ind IsValid (leb p.total_frames (frame_of phys)) (λ _. v)
      (λ inside. record {
        total_in = v.total_in;
        hint_in = v.hint_in;
        beyond = λ g le lt'. ground (arith, set inside g, v.beyond g);
        counted =
            if_ind (λ n. n ≡ count_free (bit_test (bit_set p.bitmap f)) p.total_frames)
              (bit_test p.bitmap f == 0)
              (λ z. omega (arith, v.counted, v.total_in, took inside z, small))
              (λ nz. v.counted ∙ kept inside nz);
      })
  where
    f : ℕ
    f = frame_of phys

    set :
        leb p.total_frames f ≡ false
        → (g : ℕ) → bit_test (bit_set p.bitmap f) g ≡ (if f == g then 1 else bits p g)
    set inside g = bit_test-bit_set p.bitmap f g (ground (arith, v.total_in))

    took :
        leb p.total_frames f ≡ false
        → (bit_test p.bitmap f == 0) ≡ true
        → count_free (bits p) p.total_frames
          ≡ suc (count_free (bit_test (bit_set p.bitmap f)) p.total_frames)
    took inside z =
        count_free-take (bits p) (bit_test (bit_set p.bitmap f)) f p.total_frames (ground arith)
          (ground arith) (set inside)

    kept :
        leb p.total_frames f ≡ false
        → (bit_test p.bitmap f == 0) ≡ false
        → count_free (bits p) p.total_frames
          ≡ count_free (bit_test (bit_set p.bitmap f)) p.total_frames
    kept inside nz =
        count_free-eq (bits p) (bit_test (bit_set p.bitmap f)) p.total_frames
          (λ g _. ground (arith, set inside g, bit_test-le-one p.bitmap f))

    small : count_free (bits p) p.total_frames ≤ p.total_frames
    small = count_free-le (bits p) p.total_frames
