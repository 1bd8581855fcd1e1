-- ===== src/Pmap/Words.antt =====
-- The words that page_insert and pgdir_walk write into page tables and directories, read back.
use os2017_lab.Base.{ℕ, ◌*◌, ◌/◌, ◌%◌, ◌^◌, ◌<◌, ◌≡◌, ap, bit_or, true, arith, ◌==◌, has_bits}
use os2017_lab.Base.Bits.{bit_or-page, bit_or-odd, bit_or-zero, bit_and-one}
use os2017_lab.Memlayout.{pte_p, pte_w, pte_u, pgsize, pgnum}
use os2017_lab.Pmap.{page2pa, paddr}

pub has_bits-pte_p : (x : ℕ) → has_bits x pte_p ≡ (x % 2 == 1)
unfolding has_bits
has_bits-pte_p x = ground (arith, bit_and-one x)

-- The entry that maps a page with permissions `perm`.
abbrev pub mapping : ℕ → ℕ → ℕ
mapping pp perm = bit_or (bit_or (page2pa pp) pte_p) perm

pub page2pa-small : (pp : ℕ) → pp < 2 ^ 20 → page2pa pp ≡ pp * pgsize
unfolding page2pa
page2pa-small pp h = omega arith

pub has_bits-mapping : (pp perm : ℕ) → has_bits (mapping pp perm) pte_p ≡ true
has_bits-mapping pp perm = ground (
  arith,
  has_bits-pte_p (mapping pp perm),
  bit_or-odd (bit_or (page2pa pp) pte_p) perm,
  bit_or-odd (page2pa pp) pte_p,
)

pub pgnum-mapping : (pp perm : ℕ) → pp < 2 ^ 20 → perm < pgsize → pgnum (mapping pp perm) ≡ pp
pgnum-mapping pp perm h small = omega (
  arith,
  bit_or-page (bit_or (page2pa pp) pte_p) perm,
  bit_or-page (page2pa pp) pte_p,
  page2pa-small pp h,
  ap (λ (n : ℕ). bit_or (bit_or (page2pa pp) pte_p / 4096) n) low,
  bit_or-zero (bit_or (page2pa pp) pte_p / 4096),
  bit_or-zero (page2pa pp / 4096),
)
  where
    low : perm / 4096 ≡ 0
    low = omega arith

-- The entry that pgdir_walk writes for a new page table.
abbrev pub directory_entry : ℕ → ℕ
directory_entry t = bit_or (bit_or (bit_or (paddr t) pte_p) pte_w) pte_u

pub has_bits-directory_entry : (t : ℕ) → has_bits (directory_entry t) pte_p ≡ true
has_bits-directory_entry t = ground (
  arith,
  has_bits-pte_p (directory_entry t),
  bit_or-odd (bit_or (bit_or (paddr t) pte_p) pte_w) pte_u,
  bit_or-odd (bit_or (paddr t) pte_p) pte_w,
  bit_or-odd (paddr t) pte_p,
)

pub pgnum-directory_entry : (t : ℕ) → pgnum (directory_entry t) ≡ t
pgnum-directory_entry t = omega (
  arith,
  bit_or-page (bit_or (bit_or (paddr t) pte_p) pte_w) pte_u,
  bit_or-page (bit_or (paddr t) pte_p) pte_w,
  bit_or-page (paddr t) pte_p,
  bit_or-zero (bit_or (bit_or (paddr t) pte_p) pte_w / 4096),
  bit_or-zero (bit_or (paddr t) pte_p / 4096),
  bit_or-zero (paddr t / 4096),
)
