-- ===== src/Vmm/Perms.antt =====
-- What an address of a space allows, read off the page tables with arithmetic, as the processor's
-- walk has it, and that `page_has` of src/tvmm.c tests for that.
use trait_os.Base.{
  ℕ, zero, suc, ◌/◌, ◌%◌, ◌^◌, ◌≡◌, ◌⊎◌, ◌↔◌, inl, inr, refl, ap, ◌∙◌, arith, ◌==◌, not, Bool, true,
  false, Option, none, some, if◌then◌else◌, Bool-cases, ◌>>=◌,
}
use native.Mathlib.Decide.{dec_lt}
use Prim.Native.Nat.{bit_and}
use trait_os.Base.Bits.{testbit, testbit-bit_and, testbit-le-one, testbit-zero}
use trait_os.Base.Masks.{testbit-ext}
use trait_os.Vmm.Entry.{addr_of, present, huge, grants, pml4_index, pdpt_index, pd_index, pt_index}
use trait_os.Vmm.Entry.Laws.{flag-set, flag-clear}
use trait_os.Vmm.State.{Tables, Vm, table_lookup, find_pd, page_flags, entry_has, page_has}
use trait_os.Vmm.Space.{need_of}

-- Bit `k` of an entry is set, or clear.
abbrev pub HasBit : ℕ → ℕ → Type 0
HasBit k e = e / 2 ^ k % 2 ≡ 1

abbrev pub LacksBit : ℕ → ℕ → Type 0
LacksBit k e = e / 2 ^ k % 2 ≡ 0

-- The entry at `index` of a table is present and has the address `next`.
abbrev pub Leads : Tables → ℕ → ℕ → ℕ → Type 0
Leads ts table index next = HasBit 0 (ts table index) × (addr_of (ts table index) ≡ next)

-- The entry `e` that a page directory has for an address: of a 2 MiB page, where bit 7 is set, or of
-- a page in the table that the directory leads to.
abbrev pub EntryUnder : Tables → ℕ → ℕ → ℕ → Type 0
EntryUnder ts pd v e =
    (HasBit 7 (ts pd (pd_index v)) × (ts pd (pd_index v) ≡ e))
    ⊎ (LacksBit 7 (ts pd (pd_index v))
        × ((pt : ℕ) × Leads ts pd (pd_index v) pt × (ts pt (pt_index v) ≡ e)))

-- The entry `e` of the page of an address, found from the root of a space.
abbrev pub LeafEntry : Tables → ℕ → ℕ → ℕ → Type 0
LeafEntry ts root v e =
    (pdpt : ℕ) × Leads ts root (pml4_index v) pdpt
    × ((pd : ℕ) × Leads ts pdpt (pdpt_index v) pd × EntryUnder ts pd v e)

-- The page of an address is present (bit 0) and the user's (bit 2), and writable (bit 1) if `write`.
abbrev pub Permits : Tables → ℕ → ℕ → Bool → Type 0
Permits ts root v write =
    (e : ℕ) × LeafEntry ts root v e × (HasBit 0 e × HasBit 2 e × (write ≡ true → HasBit 1 e))

mask_iff : (k e : ℕ) → (not (bit_and e (2 ^ k) == 0) ≡ true) ↔ (testbit e k ≡ 1)
mask_iff k e = (
  λ h. elim (dec_lt 0 (testbit e k)) [
    | yes p ↦ omega (arith, testbit-le-one e k)
    | no n ↦ absurd (ground (arith, h, flag-clear k e (omega arith)))
  ],
  λ h. ground (arith, flag-set k e h),
)

present_iff : (e : ℕ) → (present e ≡ true) ↔ HasBit 0 e
unfolding present
present_iff e = (λ h. omega (arith, (mask_iff 0 e).0 h), λ h. (mask_iff 0 e).1 (omega arith))

huge_iff : (e : ℕ) → (huge e ≡ true) ↔ HasBit 7 e
unfolding huge
huge_iff e = (λ h. omega (arith, (mask_iff 7 e).0 h), λ h. (mask_iff 7 e).1 (omega arith))

-- An entry grants a mask if it has every bit of the mask.
grants_iff :
    (e need : ℕ) → (grants e need ≡ true) ↔ ((k : ℕ) → testbit need k ≡ 1 → testbit e k ≡ 1)
unfolding grants
grants_iff e need = (
  λ h k one.
      let same : bit_and e need ≡ need = ground (arith, h) in
      omega (arith, ap (λ n. testbit n k) same, testbit-bit_and e need k, testbit-le-one e k),
  λ h.
      let same : bit_and e need ≡ need = testbit-ext _ need (λ k. elim (dec_lt 0 (testbit need k)) [
        | yes p ↦
            let one : testbit need k ≡ 1 = omega (arith, testbit-le-one need k) in
            omega (arith, testbit-bit_and e need k, h k one)
        | no n ↦ omega (arith, testbit-bit_and e need k)
      ]) in
      ground (arith, same),
)

grants-need_of :
    (e : ℕ) (write : Bool)
    → (grants e (need_of write) ≡ true) ↔ (HasBit 0 e × HasBit 2 e × (write ≡ true → HasBit 1 e))
unfolding need_of
grants-need_of e true = (
  λ h.
      let bits = (grants_iff e 7).0 h in
      (omega (arith, bits 0 refl), omega (arith, bits 2 refl), λ w. omega (arith, bits 1 refl)),
  λ h. (grants_iff e 7).1 (bits_of h),
)
  where
    bits_of :
        HasBit 0 e × HasBit 2 e × (true ≡ true → HasBit 1 e)
        → (k : ℕ) → testbit 7 k ≡ 1
        → testbit e k ≡ 1
    bits_of h zero one = omega (arith, h.0)
    bits_of h (suc zero) one = omega (arith, h.2 refl)
    bits_of h (suc (suc zero)) one = omega (arith, h.1)
    bits_of h (suc (suc (suc k))) one = absurd (omega (arith, testbit-zero k))
grants-need_of e false = (
  λ h.
      let bits = (grants_iff e 5).0 h in
      (omega (arith, bits 0 refl), omega (arith, bits 2 refl), λ w. absurd (ground (arith, w))),
  λ h. (grants_iff e 5).1 (bits_of h),
)
  where
    bits_of :
        HasBit 0 e × HasBit 2 e × (false ≡ true → HasBit 1 e)
        → (k : ℕ) → testbit 5 k ≡ 1
        → testbit e k ≡ 1
    bits_of h zero one = omega (arith, h.0)
    bits_of h (suc zero) one = absurd (omega arith)
    bits_of h (suc (suc zero)) one = omega (arith, h.1)
    bits_of h (suc (suc (suc k))) one = absurd (omega (arith, testbit-zero k))

-- What a chain of lookups finds.
bind-some :
    (o : Option ℕ) (f : ℕ → Option ℕ) (e : ℕ)
    → ((o >>= f) ≡ some e) ↔ ((x : ℕ) × (o ≡ some x) × (f x ≡ some e))
bind-some none f e = (λ h. absurd (ground (arith, h)), λ (x, h, k). absurd (ground (arith, h)))
bind-some (some y) f e = (λ h. (y, refl, h), λ (x, h, k). ground (arith, h, k))

table_lookup_iff :
    (ts : Tables) (table index next : ℕ)
    → (table_lookup ts table index ≡ some next) ↔ Leads ts table index next
unfolding table_lookup
table_lookup_iff ts table index next = elim (Bool-cases (present (ts table index))) [
  | inl y ↦
      (λ h. ((present_iff (ts table index)).0 y, ground (arith, y, h)), λ h. ground (arith, y, h.1))
  | inr n ↦ (
    λ h. absurd (ground (arith, n, h)),
    λ h. absurd (ground (arith, n, (present_iff (ts table index)).1 h.0)),
  )
]

under_iff :
    (ts : Tables) (pd v e : ℕ)
    → ((if huge (ts pd (pd_index v))
          then some (ts pd (pd_index v))
          else (table_lookup ts pd (pd_index v) >>= λ pt. some (ts pt (pt_index v))))
        ≡ some e)
      ↔ EntryUnder ts pd v e
under_iff ts pd v e = elim (Bool-cases (huge (ts pd (pd_index v)))) [
  | inl y ↦ rw y (
    λ h. inl ((huge_iff (ts pd (pd_index v))).0 y, ground (arith, h)),
    λ h. elim h [
      | inl (bit, same) ↦ ap some same
      | inr (clear, rest) ↦ absurd (omega (arith, (huge_iff (ts pd (pd_index v))).0 y))
    ],
  )
  | inr n ↦ rw n (
    λ h.
        let (pt, found, same) = (bind-some _ _ e).0 h in
        inr (lacks n, (pt, (table_lookup_iff ts pd (pd_index v) pt).0 found, ground (arith, same))),
    λ h. elim h [
      | inl (bit, same) ↦ absurd (ground (arith, n, (huge_iff (ts pd (pd_index v))).1 bit))
      | inr (clear, (pt, leads, same)) ↦
          (bind-some _ _ e).1 (pt, (table_lookup_iff ts pd (pd_index v) pt).1 leads, ap some same)
    ],
  )
]
  where
    lacks : huge (ts pd (pd_index v)) ≡ false → LacksBit 7 (ts pd (pd_index v))
    lacks n = elim (dec_lt 0 (ts pd (pd_index v) / 2 ^ 7 % 2)) [
      | yes p ↦ absurd (ground (arith, n, (huge_iff (ts pd (pd_index v))).1 (omega arith)))
      | no z ↦ omega arith
    ]

page_flags_iff :
    (ts : Tables) (root v e : ℕ) → (page_flags ts root v ≡ some e) ↔ LeafEntry ts root v e
unfolding page_flags find_pd
page_flags_iff ts root v e = (
  λ h.
      let (pd, found, under) = (bind-some _ _ e).0 h in
      let (pdpt, first, second) = (bind-some _ _ pd).0 found in
      (
        pdpt,
        (table_lookup_iff ts root (pml4_index v) pdpt).0 first,
        (pd, (table_lookup_iff ts pdpt (pdpt_index v) pd).0 second, (under_iff ts pd v e).0 under),
      ),
  λ (pdpt, first, (pd, second, under)). (bind-some _ _ e).1 (
    pd,
    (bind-some _ _ pd).1 (
      pdpt,
      (table_lookup_iff ts root (pml4_index v) pdpt).1 first,
      (table_lookup_iff ts pdpt (pdpt_index v) pd).1 second,
    ),
    (under_iff ts pd v e).1 under,
  ),
)

-- `page_has`, asked for what `vmm_range_user` needs.
pub page_has_iff :
    (v : ℕ) (write : Bool) (vm : Vm)
    → (page_has v (need_of write) vm ≡ true) ↔ Permits vm.tables vm.current v write
unfolding page_has entry_has
page_has_iff v write vm = (
  λ h. found (page_flags vm.tables vm.current v) refl h,
  λ (e, leaf, bits).
      ap (λ o. entry_has o (need_of write)) ((page_flags_iff vm.tables vm.current v e).1 leaf)
      ∙ (grants-need_of e write).1 bits,
)
  where
    found :
        (o : Option ℕ)
        → page_flags vm.tables vm.current v ≡ o
        → entry_has o (need_of write) ≡ true
        → Permits vm.tables vm.current v write
    found none same h = absurd (ground (arith, h))
    found (some e) same h =
        (e, (page_flags_iff vm.tables vm.current v e).0 same, (grants-need_of e write).0 h)
