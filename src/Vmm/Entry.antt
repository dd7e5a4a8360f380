-- ===== src/Vmm/Entry.antt =====
-- src/tvmm.c, src/tvmm.h: the entries of the page tables, 64-bit words with a physical address in
-- bits 12 to 51 and flags around it.
pub mod Laws
use trait_os.Base.{
  ℕ, zero, suc, ◌+◌, ◌-◌, ◌*◌, ◌/◌, ◌%◌, ◌^◌, ◌≤◌, ◌<◌, ◌≡◌, refl, sym, ap, ◌∙◌, arith,
}
use trait_os.Base.{
  Bool, true, false, not, ◌==◌, if◌then◌else◌, ltb, ltb→lt, ltb-false→le, Bool-cases, min, ◌⊎◌, inl,
  inr, ◌||◌, leb,
}
use Prim.Native.Nat.{bit_and, bit_or, max}
use trait_os.Base.Bits.{
  testbit, testbit-bit_and, testbit-bit_or, testbit-zero, testbit-le-one, bit_of, testbit-pow,
}
use trait_os.Base.Masks.{testbit-ext, testbit-above, testbit-below, testbit-shift, testbit-row}

-- `VMM_PAGE_PRESENT`, `VMM_PAGE_WRITE`, `VMM_PAGE_USER`, and bit 7, which marks a 2 MiB page.
abbrev pub page_present : ℕ
page_present = 2 ^ 0

abbrev pub page_write : ℕ
page_write = 2 ^ 1

abbrev pub page_user : ℕ
page_user = 2 ^ 2

abbrev pub page_huge : ℕ
page_huge = 2 ^ 7

abbrev pub addr_mask : ℕ
addr_mask = 0x000FFFFFFFFFF000

-- `e & ADDR_MASK`
unfoldable pub addr_of : ℕ → ℕ
addr_of e = bit_and e addr_mask

-- `e & VMM_PAGE_PRESENT`, `e & (1ull << 7)` and `(e & need) == need` as conditions.
unfoldable pub present : ℕ → Bool
present e = not (bit_and e page_present == 0)

unfoldable pub huge : ℕ → Bool
huge e = not (bit_and e page_huge == 0)

unfoldable pub grants : ℕ → ℕ → Bool
grants e need = bit_and e need == need

-- What `table_ensure` writes for a fresh table, and the entry of a page.
unfoldable pub table_entry : ℕ → ℕ → ℕ
table_entry frame flags =
    bit_or (bit_or (bit_or frame page_present) page_write) (bit_and flags page_user)

unfoldable pub page_entry : ℕ → ℕ → ℕ
page_entry phys flags = bit_or (bit_or (addr_of phys) flags) page_present

-- `PML4_INDEX`, `PDPT_INDEX`, `PD_INDEX` and `PT_INDEX`.
unfoldable pub pml4_index : ℕ → ℕ
pml4_index v = v / 2 ^ 39 % 512

unfoldable pub pdpt_index : ℕ → ℕ
pdpt_index v = v / 2 ^ 30 % 512

unfoldable pub pd_index : ℕ → ℕ
pd_index v = v / 2 ^ 21 % 512

unfoldable pub pt_index : ℕ → ℕ
pt_index v = v / 2 ^ 12 % 512

-- `KERNEL_PML4_START`
abbrev pub kernel_pml4_start : ℕ
kernel_pml4_start = 256

unfoldable pub kernel_slot : ℕ → Bool
kernel_slot i = i == 0 || leb kernel_pml4_start i
