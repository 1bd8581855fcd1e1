-- ===== src/Icode/Region.antt =====
-- region_alloc of kern/env.c: which pages it maps.
use os2017_lab.Base.{
  ℕ, ◌+◌, ◌-◌, ◌*◌, ◌/◌, ◌%◌, ◌^◌, ◌≤◌, ◌<◌, ◌≡◌, ◌≢◌, refl, ◌∙◌, true, false, some, inl, inr, sym,
  ◌&&◌, Bool-cases, bit_or, arith, ◌==◌, has_bits,
}
use mathlib.Core.Path.{ap₂}
use os2017_lab.Memlayout.{
  u32_mod, pgsize, pte_p, pte_w, pte_u, pgnum, pdx, ptx, utop, rounddown, roundup,
}
use os2017_lab.Kernel.{Kernel, ok}
use os2017_lab.Pmap.{alloc_zero, page_insert}
use os2017_lab.Pmap.View.{IsSpace, mmu_entry, same_page}
use os2017_lab.Pmap.Walk.{popped, page_alloc-kept}
use os2017_lab.Pmap.Insert.{HasRoom}
use os2017_lab.Pmap.Mapping.{MapsTo, page_insert_maps}
use os2017_lab.Env.{map_region, region_alloc}

-- PTE_U | PTE_W | PTE_P
abbrev pub region_perm : ℕ
region_perm = bit_or (bit_or pte_u pte_w) pte_p

kept_flags : has_bits 0 alloc_zero ≡ false
unfolding has_bits
kept_flags = refl

one_round :
    (pgdir va pp : ℕ) (k k' : Kernel)
    → k.page_free_list ≡ some pp
    → page_insert pgdir pp va region_perm (popped pp k) ≡ ok 0 k'
    → map_region pgdir 1 va k ≡ ok tt k'
unfolding map_region
one_round pgdir va pp k k' head runs = simp (page_alloc-kept 0 k pp head kept_flags, runs)

rounds_of : (len : ℕ) → 0 < len → len ≤ pgsize → roundup len pgsize / pgsize ≡ 1
unfolding roundup rounddown
rounds_of len some_bytes small = omega arith

page_parts : (a : ℕ) → a < u32_mod → pgnum a ≡ pdx a * 2 ^ 10 + ptx a
page_parts a small = omega arith

equal_parts : (d d' t t' : ℕ) → ((d == d') && (t == t')) ≡ true → (d ≡ d') × (t ≡ t')
equal_parts d d' t t' same = (ground arith, ground arith)

-- A page that is one page on is another one.
next_page :
    (a b : ℕ)
    → a % pgsize ≡ 0
    → a + pgsize ≤ b
    → b < a + 2 * pgsize
    → b < u32_mod
    → same_page a b ≡ false
next_page a b whole after before small =
    let parts = page_parts a (omega (arith, after, small)) in
    let parts' = page_parts b small in
    let apart : pgnum a ≢ pgnum b = λ same. absurd (omega (arith, whole, after)) in
    elim (Bool-cases (same_page a b)) [
      | inr other ↦ other
      | inl same ↦
          let dir : pdx a ≡ pdx b = (equal_parts (pdx a) (pdx b) (ptx a) (ptx b) same).0 in
          let index : ptx a ≡ ptx b = (equal_parts (pdx a) (pdx b) (ptx a) (ptx b) same).1 in
          absurd (apart (parts ∙ ap₂ (λ (x y : ℕ). x * 2 ^ 10 + y) dir index ∙ sym parts'))
    ]

-- For a range of at most one page in length whose last byte is on the page after that of its first,
-- below UTOP, in a well-formed address space with a free page and room for a mapping at the first
-- page: region_alloc returns, maps the first page of the range to the free page, and leaves the
-- page of the last byte as it was.
pub region_alloc_stops_short :
    (k : Kernel) (e va len pgdir pp : ℕ)
    → (k.envs e).env_pgdir ≡ some pgdir
    → k.page_free_list ≡ some pp
    → pp < 2 ^ 20
    → len ≤ pgsize
    → pgsize < va % pgsize + len
    → va + len ≤ utop
    → IsSpace k.npages k.mem pgdir
    → HasRoom (popped pp k) pgdir (rounddown va pgsize)
    → (k' : Kernel) × (region_alloc e va len k ≡ ok tt k')
      × MapsTo k.mem k'.mem pgdir pp (rounddown va pgsize) region_perm
      × (mmu_entry k'.mem pgdir (va + len - 1) ≡ mmu_entry k.mem pgdir (va + len - 1))
unfolding region_alloc popped rounddown
region_alloc_stops_short k e va len pgdir pp own head page short crosses user space room =
    let first = rounddown va pgsize in
    let rounds : roundup len pgsize / pgsize ≡ 1 = rounds_of len (omega arith) short in
    let (k', runs, maps) =
      page_insert_maps pgdir pp first region_perm (popped pp k) (omega arith) page (omega arith)
        space room in
    let other : same_page first (va + len - 1) ≡ false =
      next_page first (va + len - 1) (omega arith) (omega arith) (omega arith) (omega arith) in
    (
      k',
      simp (own, rounds, one_round pgdir first pp k k' head runs),
      maps,
      maps.2 (va + len - 1) (omega arith) ∙ rw other refl,
    )
