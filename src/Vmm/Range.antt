-- ===== src/Vmm/Range.antt =====
-- `vmm_range_user` of src/tvmm.c: the check of a user's buffer looks at every byte of it.
use trait_os.Base.{
  ℕ, zero, suc, ◌+◌, ◌-◌, ◌*◌, ◌/◌, ◌%◌, ◌^◌, ◌≤◌, ◌<◌, ◌≡◌, refl, sym, ap, ◌∙◌, arith, ◌⊎◌, ◌↔◌,
  inl, inr,
}
use trait_os.Base.{Bool, true}
use native.Mathlib.Decide.{dec_lt}
use trait_os.Pmm.State.{page_size, pages_of}
use trait_os.Vmm.State.{Vm, page_has, page_flags, find_pd}
use trait_os.Vmm.Space.{user_base, user_end, need_of, pages_have, range_user}
use trait_os.Vmm.Perms.{Permits, page_has_iff}
use trait_os.Vmm.Write.{page_of, page_of-indices}

-- The addresses of a page have the same flags.
page_has-page_of :
    (v w need : ℕ) (vm : Vm) → page_of v ≡ page_of w → page_has v need vm ≡ page_has w need vm
unfolding page_has page_flags find_pd
page_has-page_of v w need vm h =
    let (a, b, c, d) = page_of-indices v w h in rw a (rw b (rw c (rw d refl)))

pages_have-at :
    (n page need : ℕ) (vm : Vm) (k : ℕ)
    → pages_have n page need vm ≡ true
    → k < n
    → page_has (page + k * page_size) need vm ≡ true
unfolding pages_have
pages_have-at zero page need vm k h lt = absurd (omega arith)
pages_have-at (suc n) page need vm zero h lt =
    let here : page + 0 * page_size ≡ page = omega arith in
    ap (λ p. page_has p need vm) here ∙ ground (arith, h)
pages_have-at (suc n) page need vm (suc k) h lt =
    let next : page + suc k * page_size ≡ page + page_size + k * page_size = omega arith in
    ap (λ p. page_has p need vm) next
    ∙ pages_have-at n (page + page_size) need vm k (ground (arith, h)) (omega arith)

pages_have-all :
    (n page need : ℕ) (vm : Vm)
    → ((k : ℕ) → k < n → page_has (page + k * page_size) need vm ≡ true)
    → pages_have n page need vm ≡ true
unfolding pages_have
pages_have-all zero page need vm h = refl
pages_have-all (suc n) page need vm h =
    let here : page + 0 * page_size ≡ page = omega arith in
    let first : page_has page need vm ≡ true =
      ap (λ p. page_has p need vm) (sym here) ∙ h 0 (omega arith) in
    let rest : pages_have n (page + page_size) need vm ≡ true =
      pages_have-all n (page + page_size) need vm (λ k lt.
        let next : page + page_size + k * page_size ≡ page + suc k * page_size = omega arith in
        ap (λ p. page_has p need vm) next ∙ h (suc k) (omega arith)) in
    ground (arith, first, rest)

-- The buffer lies in the user's region and the loop accepts its pages.
abbrev Accepted : ℕ → ℕ → ℕ → Vm → Type 0
Accepted addr len need vm =
    (user_base ≤ addr)
    × (addr + len ≤ user_end)
    × (pages_have (pages_of addr len) (addr / page_size * page_size) need vm ≡ true)

Accepted-iff :
    (addr len : ℕ) (write : Bool) (vm : Vm)
    → (range_user addr len write vm ≡ true) ↔ ((len ≡ 0) ⊎ Accepted addr len (need_of write) vm)
unfolding range_user
Accepted-iff addr len write vm = (
  λ h. elim (dec_lt 0 len) [ yes p ↦ inr (ground (arith, h)) | no p ↦ inl (omega arith) ],
  λ h. ground (arith, h),
)

mod-small : (n : ℕ) → n < 2 ^ 64 → n % 2 ^ 64 ≡ n
mod-small n h = omega arith

page_found :
    (addr len a : ℕ)
    → addr + len ≤ user_end
    → addr ≤ a
    → a < addr + len
    → (a / page_size - addr / page_size < pages_of addr len)
      × (page_of (addr / page_size * page_size + (a / page_size - addr / page_size) * page_size)
          ≡ page_of a)
page_found addr len a h le lt = (omega (arith, no_wrap), omega arith)
  where
    no_wrap : (addr + len) % 2 ^ 64 ≡ addr + len
    no_wrap = mod-small (addr + len) (omega arith)

-- The byte of the buffer that the loop's page `k` is looked at for.
byte_of : ℕ → ℕ → ℕ
byte_of addr zero = addr
byte_of addr (suc k) = addr / page_size * page_size + suc k * page_size

byte_found :
    (addr len k : ℕ)
    → 0 < len
    → addr + len ≤ user_end
    → k < pages_of addr len
    → (addr ≤ byte_of addr k)
      × (byte_of addr k < addr + len)
      × (page_of (addr / page_size * page_size + k * page_size) ≡ page_of (byte_of addr k))
unfolding byte_of
byte_found addr len zero pos le lt = (omega arith, omega arith, omega arith)
byte_found addr len (suc k) pos le lt =
    let no_wrap = mod-small (addr + len) (omega arith) in
    (omega arith, omega (arith, no_wrap), refl)

-- The loop over the pages looks at every byte.
range_user-page_has :
    (addr len : ℕ) (write : Bool) (vm : Vm)
    → (range_user addr len write vm ≡ true) ↔ (
        (a : ℕ)
        → addr ≤ a
        → a < addr + len
        → (user_base ≤ a) × (a < user_end) × (page_has a (need_of write) vm ≡ true))
range_user-page_has addr len write vm = (
  λ h a le lt. elim ((Accepted-iff addr len write vm).0 h) [
    | inl z ↦ absurd (omega arith)
    | inr (base, in_end, pages) ↦ (omega arith, omega arith, loop_byte a le lt in_end pages)
  ],
  λ h. elim (dec_lt 0 len) [
    | yes p ↦ (Accepted-iff addr len write vm).1 (inr (accepted p h))
    | no p ↦ (Accepted-iff addr len write vm).1 (inl (omega arith))
  ],
)
  where
    need : ℕ
    need = need_of write

    loop_byte :
        (a : ℕ)
        → addr ≤ a
        → a < addr + len
        → addr + len ≤ user_end
        → pages_have (pages_of addr len) (addr / page_size * page_size) need vm ≡ true
        → page_has a need vm ≡ true
    loop_byte a le lt in_end pages =
        let (k_in, same) = page_found addr len a in_end le lt in
        page_has-page_of a
          (addr / page_size * page_size + (a / page_size - addr / page_size) * page_size) need vm
          (sym same)
        ∙ pages_have-at (pages_of addr len) (addr / page_size * page_size) need vm
            (a / page_size - addr / page_size) pages k_in

    accepted :
        0 < len
        → ((a : ℕ)
            → addr ≤ a
            → a < addr + len
            → (user_base ≤ a) × (a < user_end) × (page_has a need vm ≡ true))
        → Accepted addr len need vm
    accepted pos h =
        let in_end : addr + len ≤ user_end =
          omega (arith, h (addr + (len - 1)) (omega arith) (omega arith)) in
        (
          (h addr (omega arith) (omega arith)).0,
          in_end,
          pages_have-all (pages_of addr len) (addr / page_size * page_size) need vm (λ k lt.
              let (le, small, same) = byte_found addr len k pos in_end lt in
              page_has-page_of (addr / page_size * page_size + k * page_size) (byte_of addr k) need
                vm same
              ∙ (h (byte_of addr k) le small).2),
        )

-- `vmm_range_user` accepts a buffer if and only if every byte of it lies in the user's region, and the
-- walk of the current space's tables finds an entry for its page that is present, the user's, and
-- writable where a write is asked for: bits 0, 2 and 1 of the entry. An empty buffer is accepted
-- wherever it lies.
pub range_user_iff :
    (addr len : ℕ) (write : Bool) (vm : Vm)
    → (range_user addr len write vm ≡ true) ↔ (
        (a : ℕ)
        → addr ≤ a
        → a < addr + len
        → (user_base ≤ a) × (a < user_end) × Permits vm.tables vm.current a write)
range_user_iff addr len write vm = (
  λ h a le lt.
      let (low, high, has) = (range_user-page_has addr len write vm).0 h a le lt in
      (low, high, (page_has_iff a write vm).0 has),
  λ h. (range_user-page_has addr len write vm).1 (λ a le lt.
      let (low, high, permits) = h a le lt in (low, high, (page_has_iff a write vm).1 permits)),
)
