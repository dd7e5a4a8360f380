-- ===== src/Pmm/Boot.antt =====
-- What `tpmm_init` establishes.
use trait_os.Base.{ℕ, zero, suc, ◌+◌, ◌-◌, ◌%◌, ◌≤◌, ◌<◌, ◌≡◌, refl, sym, ap, subst, ◌∙◌, arith}
use trait_os.Base.{leb, ◌==◌, if◌then◌else◌, if_ind, false, List, [], ◌∷◌}
use native.Mathlib.Decide.{dec_lt}
use trait_os.Base.Bits.{testbit-ones}
use trait_os.Pmm.Bitmap.{bit_clear, bit_test, max_frames, bit_test-bit_clear, bit_test-le-one}
use trait_os.Pmm.Count.{count_free, count_free-take, count_free-le, count_free-extend}
use trait_os.Pmm.State.{Pmm, u32, page_size, reserve_pages, reserve_region, reserve_frame}
use trait_os.Pmm.Init.{MmapEntry, all_used, free_frame, free_run, first_frame, end_frame}
use trait_os.Pmm.Init.{free_entry, free_entries, init}
use trait_os.Pmm.Valid.{bits, IsValid, reserve_frame-IsValid}

all_used-IsValid : (p : Pmm) → IsValid (all_used p)
unfolding all_used
all_used-IsValid p = record {
  total_in = omega arith;
  hint_in = omega arith;
  beyond = λ f _ _. unfold bit_test in testbit-ones (f % 32) (omega arith);
  counted = refl;
}

-- A frame of an available region is freed, and the table grows to it.
free_frame-IsValid : (p : Pmm) (f : ℕ) → IsValid p → f < max_frames → IsValid (free_frame f p)
unfolding free_frame
free_frame-IsValid p f v h =
    if_ind IsValid (bit_test p.bitmap f == 0)
      (λ z. record {
        total_in = bound;
        hint_in = hint;
        beyond = λ g le lt. v.beyond g (ground arith) lt;
        counted = v.counted ∙ sym grown;
      })
      (λ nz. record {
        total_in = bound;
        hint_in = hint;
        beyond = λ g le lt. ground (arith, cleared g, v.beyond g);
        counted =
            omega
              (arith, v.counted, grown, gave nz, count_free-le (bits p) p.total_frames, v.total_in);
      })
  where
    total : ℕ
    total = if leb p.total_frames f then u32 (f + 1) else p.total_frames

    bound : total ≤ max_frames
    bound = ground (arith, v.total_in)

    hint : p.first_free_hint ≤ total
    hint = ground (arith, v.hint_in)

    cleared : (g : ℕ) → bit_test (bit_clear p.bitmap f) g ≡ (if f == g then 0 else bits p g)
    cleared g = bit_test-bit_clear p.bitmap f g h

    grown : count_free (bits p) total ≡ count_free (bits p) p.total_frames
    grown =
        let k = total - p.total_frames in
        let e : p.total_frames + k ≡ total = ground arith in
        ap (count_free (bits p)) (sym e)
        ∙ count_free-extend (bits p) p.total_frames k
            (λ g le lt. v.beyond g le (omega (arith, bound)))

    gave :
        (bit_test p.bitmap f == 0) ≡ false
        → count_free (bit_test (bit_clear p.bitmap f)) total ≡ suc (count_free (bits p) total)
    gave nz =
        count_free-take (bit_test (bit_clear p.bitmap f)) (bits p) f total (ground arith)
          (ground (arith, cleared f)) (λ g. ground (arith, cleared g, bit_test-le-one p.bitmap f))

free_run-IsValid :
    (rounds f : ℕ) (p : Pmm) → IsValid p → f + rounds ≤ max_frames → IsValid (free_run rounds f p)
unfolding free_run
free_run-IsValid zero f p v h = v
free_run-IsValid (suc rounds) f p v h =
    free_run-IsValid rounds (f + 1) (free_frame f p) (free_frame-IsValid p f v (omega arith))
      (omega arith)

end_frame-le : (e : MmapEntry) → end_frame e ≤ max_frames
end_frame-le e = ground arith

free_entry-IsValid : (e : MmapEntry) (p : Pmm) → IsValid p → IsValid (free_entry e p)
unfolding free_entry free_run
free_entry-IsValid e p v =
    if_ind IsValid e.available
      (λ _. elim (dec_lt (first_frame e) (end_frame e)) [
        | yes q ↦
            free_run-IsValid (end_frame e - first_frame e) (first_frame e) p v
              (omega (arith, end_frame-le e))
        | no q ↦ empty (end_frame e - first_frame e) (omega arith)
      ])
      (λ _. v)
  where
    empty : (rounds : ℕ) → rounds ≡ 0 → IsValid (free_run rounds (first_frame e) p)
    empty rounds z = subst (λ n. IsValid (free_run n (first_frame e) p)) (sym z) v

free_entries-IsValid : (es : List MmapEntry) (p : Pmm) → IsValid p → IsValid (free_entries es p)
unfolding free_entries
free_entries-IsValid [] p v = v
free_entries-IsValid (e ∷ es) p v =
    free_entries-IsValid es (free_entry e p) (free_entry-IsValid e p v)

reserve_pages-IsValid : (n a : ℕ) (p : Pmm) → IsValid p → IsValid (reserve_pages n a p)
unfolding reserve_pages
reserve_pages-IsValid zero a p v = v
reserve_pages-IsValid (suc n) a p v =
    reserve_pages-IsValid n (a + page_size) (reserve_frame a p) (reserve_frame-IsValid p a v)

reserve_region-IsValid :
    (base size : ℕ) (p : Pmm) → IsValid p → IsValid (reserve_region base size p)
unfolding reserve_region
reserve_region-IsValid base size p v = reserve_pages-IsValid _ _ p v

-- Whatever the memory map and the kernel's bounds, `tpmm_init` leaves the manager's invariant: no
-- frame beyond `total_frames` is free, `total_frames` is at most 2^20, the count of free frames
-- is the number of clear bits, and the hint is in range.
pub init-IsValid :
    (es : List MmapEntry) (kernel_start kernel_end : ℕ) (p : Pmm)
    → IsValid (init es kernel_start kernel_end p)
unfolding init
init-IsValid es kernel_start kernel_end p =
    reserve_region-IsValid kernel_start (kernel_end - kernel_start) _
      (reserve_region-IsValid 0 0x100000 _ (free_entries-IsValid es _ (all_used-IsValid p)))
