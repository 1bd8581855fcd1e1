-- ===== src/Pmap/Faults.antt =====
-- page_lookup and page_remove of kern/pmap.c at an address without a mapping, and page_free of a
-- page that is free already.
use os2017_lab.Base.{ℕ, ◌<◌, ◌≡◌, refl, ◌∙◌, true, false, Option, some, arith, has_bits}
use os2017_lab.Memlayout.{pgnum, pdx, ptx}
use os2017_lab.Kernel.{Kernel, Cmd, ok, ◌>>=◌, ◌>>◌, pure}
use os2017_lab.Pmap.{
  alloc_zero, page_alloc, page_free, page_remove, page_lookup, pte_at, link_free, set_ref,
  store_entry, tlb_invalidate,
}
use os2017_lab.Pmap.View.{has_table, table, mmu_entry, IsSpace}
use os2017_lab.Pmap.Walk.{popped, page_alloc-kept}
use os2017_lab.Pmap.Remove.{dropped, removed, page_remove-there, page_lookup-there}

module _ (k : Kernel) (pgdir va : ℕ) (space : IsSpace k.npages k.mem pgdir)
    (there : has_table k.mem pgdir (pdx va) ≡ true) (empty : mmu_entry k.mem pgdir va ≡ 0)
    (pages : 0 < k.npages) where
  -- At an address that is not mapped but has a page table, page_lookup returns page 0 rather than
  -- NULL.
  pub page_lookup_unmapped :
      page_lookup pgdir va k ≡ ok (some (0, pte_at (table k.mem pgdir (pdx va)) (ptx va))) k
  page_lookup_unmapped =
      let page : pgnum (mmu_entry k.mem pgdir va) ≡ 0 = ground arith in
      page_lookup-there k pgdir va space there (omega arith) ∙ rw page

  -- In a well-formed address space, page_remove at an address that has a page table but a zero
  -- entry takes a reference from page 0: with the one that page_init gives it, page 0 goes to the
  -- head of the free list.
  pub page_remove_frees_page_zero :
      (k.pages 0).pp_ref ≡ 1
      → (k' : Kernel) × (page_remove pgdir va k ≡ ok tt k')
        × (k'.page_free_list ≡ some 0)
        × ((k'.pages 0).pp_ref ≡ 0)
  unfolding removed dropped store_entry tlb_invalidate set_ref link_free
  page_remove_frees_page_zero one =
      let page : pgnum (mmu_entry k.mem pgdir va) ≡ 0 = ground arith in
      (
        removed k pgdir va,
        page_remove-there k pgdir va space there (omega arith),
        rw page (ground arith),
        rw page (ground arith),
      )

-- The caller that frees a page twice and then allocates two.
abbrev pub double_free : ℕ → Cmd (Option ℕ × Option ℕ)
double_free p = do page_free p; page_free p; a ← page_alloc 0; b ← page_alloc 0; pure (a, b)

page_free-ok : (p : ℕ) (k : Kernel) → (k.pages p).pp_ref ≡ 0 → page_free p k ≡ ok tt (link_free p k)
unfolding page_free
page_free-ok p k unused = ground arith

has_bits_zero : has_bits 0 alloc_zero ≡ false
unfolding has_bits
has_bits_zero = refl

-- A page without references can be freed twice: no assertion fails, and the next two calls of
-- page_alloc return the same page.
pub double_free_shares :
    (p : ℕ) (k : Kernel)
    → (k.pages p).pp_ref ≡ 0
    → (k' : Kernel) × (double_free p k ≡ ok (some p, some p) k')
unfolding link_free popped
double_free_shares p k unused =
    let once = link_free p k in
    let twice = link_free p once in
    let linked : (popped p twice).page_free_list ≡ some p = ground arith in
    (
      popped p (popped p twice),
      simp (
        page_free-ok p k unused,
        page_free-ok p once (ground arith),
        page_alloc-kept 0 twice p refl has_bits_zero,
        page_alloc-kept 0 (popped p twice) p linked has_bits_zero,
      ),
    )
