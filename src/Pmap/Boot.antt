-- ===== src/Pmap/Boot.antt =====
-- The boot-time part of kern/pmap.c: boot_alloc, the list of free pages that page_init makes, and
-- boot_map_region; and the page tables of kern/entrypgdir.c that the kernel starts with.
use os2017_lab.Base.{
  ℕ, zero, suc, ◌+◌, ◌*◌, ◌/◌, ◌%◌, ◌^◌, ◌≤◌, ◌<◌, ◌≡◌, refl, ◌∙◌, bit_or, Bool, true, false, not,
  ◌&&◌, ◌||◌, none, some, List, [], ◌∷◌, arith, ltb, leb, ◌==◌, if◌then◌else◌, has_bits, Bool-cases,
  inl, inr,
}
use os2017_lab.Base.Arrays.{update}
use os2017_lab.Base.Bits.{bit_or_step, bit_or-disjoint, bit_and-one, bit_and-two}
use os2017_lab.Base.Chain.{has, Chain-frame}
use os2017_lab.Memlayout.{
  u32_mod, pgsize, ptsize, pte_p, pte_w, kernbase, extphysmem, mpentry_paddr, pgnum, pdx, ptx,
  pte_addr, roundup,
}
use os2017_lab.Kernel.{Kernel, Cmd, pure, ◌>>=◌, ◌>>◌, modify, assert}
use os2017_lab.Pmap.{store_entry, link_free, set_ref, pgdir_walk}
use os2017_lab.Pmap.View.{Memory, mmu_entry, mmu_allows}
use os2017_lab.Pmap.FreeList.{IsFreeList}

-- The result and the new `nextfree`, which is 0 before the first call; `kernel_end` is the linker's
-- symbol `end`.
unfoldable pub boot_alloc : (kernel_end n nextfree : ℕ) → ℕ × ℕ
boot_alloc kernel_end n nextfree =
    let result = if nextfree == 0 then roundup kernel_end pgsize else nextfree in
    (result, (result + roundup n pgsize) % u32_mod)

-- Whether page_init makes page `i` free; `base` is npages_basemem and `first` the number of the
-- first page that boot_alloc has not given out.
abbrev pub is_free : (base first i : ℕ) → Bool
is_free base first i =
    not (i == 0)
    && not (i == mpentry_paddr / pgsize)
    && (ltb i base || not (leb i (extphysmem / pgsize) || ltb i first))

-- The page gets `ref` references and no link.
abbrev pub reserve : (i ref : ℕ) → Kernel → Kernel
reserve i ref k = record k { pages = update k.pages i (record { pp_link = none; pp_ref = ref }) }

-- One round of the loop of page_init.
unfoldable pub init_page : (base first i : ℕ) → Kernel → Kernel
init_page base first i k =
    if (i == 0) || (i == mpentry_paddr / pgsize)
    then reserve i 1 k
    else if ltb i base
    then link_free i (set_ref i 0 k)
    else if leb i (extphysmem / pgsize) || ltb i first
    then reserve i (((k.pages i).pp_ref + 1) % 2 ^ 16) k
    else link_free i (set_ref i 0 k)

unfoldable pub init_pages : (base first rounds i : ℕ) → Kernel → Kernel
unfolding init_page
init_pages base first zero i k = k
init_pages base first (suc rounds) i k =
    init_pages base first rounds (suc i) (init_page base first i k)

unfoldable pub page_init : (base first : ℕ) → Kernel → Kernel
page_init base first k = init_pages base first k.npages 0 (record k { page_free_list = none })

-- The free pages below `n`, the highest first.
abbrev pub free_below : (base first n : ℕ) → List ℕ
free_below base first zero = []
free_below base first (suc n) =
    let rest = free_below base first n in if is_free base first n then n ∷ rest else rest

has-free_below : (base first n i : ℕ) → n ≤ i → has i (free_below base first n) ≡ false
has-free_below base first zero i h = refl
has-free_below base first (suc n) i h = ground (arith, has-free_below base first n i)

IsFreeList-of_equal : (a b : Kernel) (xs : List ℕ) → a ≡ b → IsFreeList b xs → IsFreeList a xs
IsFreeList-of_equal a b xs same c = rw same c

module _ (base first i : ℕ) (k : Kernel) (c : IsFreeList k (free_below base first i)) where
  reserve-IsFreeList : (ref : ℕ) → IsFreeList (reserve i ref k) (free_below base first i)
  reserve-IsFreeList ref =
      Chain-frame _ (λ j. ((reserve i ref k).pages j).pp_link) k.page_free_list _
        (λ j h. ground (arith, has-free_below base first i i)) c

  freed-IsFreeList : IsFreeList (link_free i (set_ref i 0 k)) (i ∷ free_below base first i)
  unfolding link_free set_ref
  freed-IsFreeList =
      let s = link_free i (set_ref i 0 k) in
      let link : (s.pages i).pp_link ≡ k.page_free_list = ground arith in
      (
        refl,
        has-free_below base first i i (omega arith),
        rw link (
            Chain-frame _ (λ j. (s.pages j).pp_link) k.page_free_list _
              (λ j h. ground (arith, has-free_below base first i i)) c),
      )

  init_page-IsFreeList : IsFreeList (init_page base first i k) (free_below base first (suc i))
  unfolding init_page
  init_page-IsFreeList = elim (Bool-cases (is_free base first i)) [
    | inl free ↦
        let to : init_page base first i k ≡ link_free i (set_ref i 0 k) = ground arith in
        rw free (IsFreeList-of_equal _ _ (i ∷ free_below base first i) to freed-IsFreeList)
    | inr taken ↦ rw taken (elim (Bool-cases ((i == 0) || (i == mpentry_paddr / pgsize))) [
      | inl fixed ↦
          let to : init_page base first i k ≡ reserve i 1 k = ground arith in
          IsFreeList-of_equal _ _ (free_below base first i) to (reserve-IsFreeList 1)
      | inr other ↦
          let ref = ((k.pages i).pp_ref + 1) % 2 ^ 16 in
          let to : init_page base first i k ≡ reserve i ref k = ground arith in
          IsFreeList-of_equal _ _ (free_below base first i) to (reserve-IsFreeList ref)
    ])
  ]

init_pages-IsFreeList :
    (base first rounds i n : ℕ) (k : Kernel)
    → n ≡ i + rounds
    → IsFreeList k (free_below base first i)
    → IsFreeList (init_pages base first rounds i k) (free_below base first n)
unfolding init_pages
init_pages-IsFreeList base first zero i n k e c = let same : n ≡ i = omega arith in rw same c
init_pages-IsFreeList base first (suc rounds) i n k e c =
    init_pages-IsFreeList base first rounds (suc i) n (init_page base first i k) (omega arith)
      (init_page-IsFreeList base first i k c)

-- page_init links exactly these pages, the highest first: the base memory and the memory above the
-- kernel's boot allocations, without page 0 and the page at MPENTRY_PADDR.
pub page_init_links :
    (base first : ℕ) (k : Kernel)
    → IsFreeList (page_init base first k) (free_below base first k.npages)
unfolding page_init
page_init_links base first k =
    init_pages-IsFreeList base first k.npages 0 k.npages (record k { page_free_list = none })
      (omega arith) refl

-- The loop of boot_map_region; it ends early where there is no page for a page table.
unfoldable pub map_pages : (pgdir rounds va pa perm : ℕ) → Cmd (Unit {0})
map_pages pgdir zero va pa perm = pure tt
map_pages pgdir (suc rounds) va pa perm = do
  pte ← pgdir_walk pgdir va true
  elim pte [
    | none ↦ pure tt
    | some p ↦ do
      modify (store_entry p (bit_or (bit_or (pte_addr pa) perm) pte_p))
      map_pages pgdir rounds ((va + pgsize) % u32_mod) ((pa + pgsize) % u32_mod) perm
  ]

-- ROUNDUP of the size is not assigned there, and the second part of the assertion is 0, the count
-- that cprintf returns.
unfoldable pub boot_map_region : (pgdir va size pa perm : ℕ) → Cmd (Unit {0})
boot_map_region pgdir va size pa perm = do
  assert (size % pgsize == 0)
  map_pages pgdir (size / pgsize) va pa perm

-- The tables of kern/entrypgdir.c, the directory for a page table in frame `t`.
abbrev pub entry_pgtable : ℕ → ℕ
entry_pgtable i = bit_or (bit_or (i * 0x1000) pte_p) pte_w

abbrev pub entry_pgdir : (t i : ℕ) → ℕ
entry_pgdir t i =
    if i == 0
    then t * pgsize + pte_p
    else if i == pdx kernbase
    then t * pgsize + pte_p + pte_w
    else 0

entry_pgtable_lem : (i : ℕ) → entry_pgtable i ≡ i * 4096 + 3
entry_pgtable_lem i =
    let one : bit_or (i * 0x1000) pte_p ≡ i * 4096 + 1 = bit_or-disjoint 12 i 1 (omega arith) in
    let half : (i * 4096 + 1) / 2 ≡ i * 2 ^ 11 = omega arith in
    let tens : bit_or ((i * 4096 + 1) / 2) 1 ≡ i * 2 ^ 11 + 1 =
      rw half (bit_or-disjoint 11 i 1 (omega arith)) in
    rw one (omega (arith, bit_or_step (i * 4096 + 1) 2, tens))

mmu_allows-of_entries :
    (m : Memory) (d va dir pte : ℕ)
    → m d (pdx va) ≡ dir
    → mmu_entry m d va ≡ pte
    → mmu_allows m d va pte_w
      ≡ (has_bits dir pte_p && has_bits pte pte_p && has_bits dir pte_w && has_bits pte pte_w)
unfolding mmu_allows
mmu_allows-of_entries m d va dir pte first second = rw (first, second) refl

-- With the directory in frame `d` and the table in frame `t`, below 2^20: for an address below 4 MB,
-- it and the address that is KERNBASE higher both have the frame of the former in their table
-- entries, with PTE_P and PTE_W. The processor may write through the higher address, whose directory
-- entry has PTE_W too, and not through the lower one, whose directory entry has PTE_P without PTE_W.
pub entry_pgdir_maps :
    (m : Memory) (d t a : ℕ)
    → ((i : ℕ) → m d i ≡ entry_pgdir t i)
    → ((i : ℕ) → m t i ≡ entry_pgtable i)
    → t < 2 ^ 20
    → a < ptsize
    → (mmu_entry m d a ≡ pgnum a * pgsize + 3)
      × (mmu_entry m d (kernbase + a) ≡ pgnum a * pgsize + 3)
      × (has_bits (m d (pdx a)) pte_p ≡ true)
      × (mmu_allows m d a pte_w ≡ false)
      × (mmu_allows m d (kernbase + a) pte_w ≡ true)
unfolding mmu_entry has_bits
entry_pgdir_maps m d t a dir tab small low =
    let first : pdx a ≡ 0 = omega arith in
    let second : pdx (kernbase + a) ≡ 960 = omega arith in
    let index : ptx (kernbase + a) ≡ ptx a = omega arith in
    let own : ptx a ≡ pgnum a = omega arith in
    let frame : (t * pgsize + 1) / 2 ^ 12 ≡ t = omega arith in
    let frame' : (t * pgsize + pte_p + pte_w) / 2 ^ 12 ≡ t = omega arith in
    let lower : mmu_entry m d a ≡ pgnum a * pgsize + 3 =
      rw (first, dir 0, frame, tab (ptx a))
        (ground (arith, bit_and-one (t * pgsize + 1), entry_pgtable_lem (ptx a))) in
    let upper : mmu_entry m d (kernbase + a) ≡ pgnum a * pgsize + 3 =
      rw (second, dir 960, frame', index, tab (ptx a))
        (ground (arith, bit_and-one (t * pgsize + pte_p + pte_w), entry_pgtable_lem (ptx a))) in
    (
      lower,
      upper,
      rw (first, dir 0) (ground (arith, bit_and-one (t * pgsize + 1))),
      mmu_allows-of_entries m d a (t * pgsize + 1) (pgnum a * pgsize + 3) (rw first (dir 0)) lower
          ∙ ground (arith, bit_and-two (t * pgsize + 1)),
      mmu_allows-of_entries m d (kernbase + a) (t * pgsize + pte_p + pte_w) (pgnum a * pgsize + 3)
            (rw second (dir 960)) upper
          ∙ ground (
            arith,
            bit_and-one (t * pgsize + pte_p + pte_w),
            bit_and-two (t * pgsize + pte_p + pte_w),
            bit_and-one (pgnum a * pgsize + 3),
            bit_and-two (pgnum a * pgsize + 3),
          ),
    )
