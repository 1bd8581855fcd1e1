-- ===== src/Pmap/Remove.antt =====
-- page_decref and page_remove: which state they leave, and what the processor then sees.
use os2017_lab.Base.{
  ℕ, ◌+◌, ◌-◌, ◌%◌, ◌^◌, ◌<◌, ◌≡◌, refl, true, false, ◌&&◌, some, arith, ◌==◌, if◌then◌else◌,
}
use os2017_lab.Memlayout.{pgnum, pdx, ptx, utop}
use os2017_lab.Kernel.{Kernel, ok}
use os2017_lab.Pmap.{
  pte_at, store_entry, set_ref, link_free, page_free, page_decref, page_lookup, page_remove,
  pa2page, tlb_invalidate,
}
use os2017_lab.Pmap.View.{has_table, table, mmu_entry, IsSpace, same_page, mmu_entry-store}
use os2017_lab.Pmap.Walk.{pgdir_walk-present}

abbrev pub minus_one : ℕ → ℕ
minus_one n = (n + 2 ^ 16 - 1) % 2 ^ 16

-- The state after one reference to page `q` is gone.
unfoldable pub dropped : ℕ → Kernel → Kernel
unfolding set_ref link_free
dropped q k =
    let less = set_ref q (minus_one (k.pages q).pp_ref) k in
    let last = minus_one (k.pages q).pp_ref == 0 in
    record k {
      pages = if last then (link_free q less).pages else less.pages;
      page_free_list = if last then some q else k.page_free_list;
    }

-- A page without references goes to the free list, so the assertion of page_free holds here.
pub page_decref-ok : (q : ℕ) (k : Kernel) → page_decref q k ≡ ok tt (dropped q k)
unfolding page_decref page_free dropped
page_decref-ok q k = ground arith

-- The state that page_remove leaves where there is a page table.
unfoldable pub removed : Kernel → ℕ → ℕ → Kernel
removed k pgdir va = tlb_invalidate pgdir va (
    store_entry (pte_at (table k.mem pgdir (pdx va)) (ptx va)) 0
      (dropped (pgnum (mmu_entry k.mem pgdir va)) k))

module _ (k : Kernel) (pgdir va : ℕ) (space : IsSpace k.npages k.mem pgdir)
    (there : has_table k.mem pgdir (pdx va) ≡ true) where
  -- page_lookup answers with the page number in the entry, whether or not the entry is present.
  pub page_lookup-there :
      pgnum (mmu_entry k.mem pgdir va) < k.npages
      → page_lookup pgdir va k
        ≡ ok
            (some (pgnum (mmu_entry k.mem pgdir va), pte_at (table k.mem pgdir (pdx va)) (ptx va)))
            k
  unfolding page_lookup pa2page mmu_entry
  page_lookup-there h = rw (pgdir_walk-present k pgdir va false space there) (ground arith)

  pub page_remove-there :
      pgnum (mmu_entry k.mem pgdir va) < k.npages
      → page_remove pgdir va k ≡ ok tt (removed k pgdir va)
  unfolding page_remove removed
  page_remove-there h =
      simp (pgdir_walk-present k pgdir va false space there, page_lookup-there h, page_decref-ok)

  module _ (user : va < utop) (valid : pgnum (mmu_entry k.mem pgdir va) < k.npages) where
    -- In a well-formed address space, at an address below UTOP with a page table, whose entry holds
    -- a valid page number: page_remove returns with the entry of the address cleared and every
    -- other address translated as before.
    pub page_remove_unmaps :
        (k' : Kernel) × (page_remove pgdir va k ≡ ok tt k')
        × ((va' : ℕ)
            → mmu_entry k'.mem pgdir va'
              ≡ (if same_page va va' then 0 else mmu_entry k.mem pgdir va'))
    unfolding removed dropped tlb_invalidate store_entry
    page_remove_unmaps = (
      removed k pgdir va,
      page_remove-there valid,
      λ va'. mmu_entry-store k space user there 0 va',
    )

module _ (k : Kernel) (q : ℕ) where
  -- The other pages keep their descriptors when page `q` loses a reference; `q` goes to the head of
  -- the free list exactly when that reference was its last.
  pub pages-dropped :
      (i : ℕ)
      → ((dropped q k).pages i).pp_ref
        ≡ (if i == q then minus_one (k.pages q).pp_ref else (k.pages i).pp_ref)
  unfolding dropped
  pages-dropped i = ground arith

  pub links-dropped :
      (i : ℕ)
      → ((dropped q k).pages i).pp_link ≡ (
          if (i == q) && (minus_one (k.pages q).pp_ref == 0)
          then k.page_free_list
          else (k.pages i).pp_link)
  unfolding dropped
  links-dropped i = ground arith

  pub head-dropped :
      (dropped q k).page_free_list
      ≡ (if minus_one (k.pages q).pp_ref == 0 then some q else k.page_free_list)
  unfolding dropped
  head-dropped = refl
