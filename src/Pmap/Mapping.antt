-- ===== src/Pmap/Mapping.antt =====
-- The contracts of page_insert in kern/pmap.c: the address space it leaves, the reference counts,
-- and the case of a page that is inserted again where it already is.
use os2017_lab.Base.{
  ℕ, ◌+◌, ◌%◌, ◌^◌, ◌<◌, ◌≡◌, ◌≢◌, inl, inr, true, false, none, some, arith, ◌==◌, if◌then◌else◌,
  has_bits, Bool-cases,
}
use os2017_lab.Memlayout.{pte_p, pgsize, pgnum, pdx, utop}
use os2017_lab.Kernel.{Kernel, ok}
use os2017_lab.Pmap.{
  page_insert, neg_e_no_mem, incref, set_ref, link_free, tlb_invalidate, unlink_head, store_entry,
}
use os2017_lab.Pmap.View.{Memory, has_table, mmu_entry, IsSpace, same_page}
use os2017_lab.Pmap.Walk.{pgdir_walk-absent, pgdir_walk-no_memory}
use os2017_lab.Pmap.Words.{mapping, has_bits-mapping, pgnum-mapping}
use os2017_lab.Pmap.Remove.{removed, dropped}
use os2017_lab.Pmap.Insert.{
  HasRoom, table_there, table_free, written, replaced, filled, extended, page_insert-replaces,
  page_insert-fills, page_insert-extends, mmu_entry-filled, mmu_entry-replaced, mmu_entry-extended,
}

-- The user addresses of `va`'s page map to page `pp` with `perm`, and every other user address is
-- translated as in `m`.
abbrev pub MapsTo : Memory → Memory → (pgdir pp va perm : ℕ) → Type 0
MapsTo m m' pgdir pp va perm =
    (has_bits (mmu_entry m' pgdir va) pte_p ≡ true)
    × (pgnum (mmu_entry m' pgdir va) ≡ pp)
    × ((va' : ℕ)
        → va' < utop
        → mmu_entry m' pgdir va'
          ≡ (if same_page va va' then mapping pp perm else mmu_entry m pgdir va'))

module _ (pgdir pp va perm : ℕ) (k : Kernel) (user : va < utop) (page : pp < 2 ^ 20)
    (bits : perm < pgsize) where
  pub MapsTo-of_entries :
      (m' : Memory)
      → ((va' : ℕ)
          → va' < utop
          → mmu_entry m' pgdir va'
            ≡ (if same_page va va' then mapping pp perm else mmu_entry k.mem pgdir va'))
      → MapsTo k.mem m' pgdir pp va perm
  MapsTo-of_entries m' all = (
    ground (arith, all va user, has_bits-mapping pp perm),
    ground (arith, all va user, pgnum-mapping pp perm page bits),
    all,
  )

  -- In a well-formed address space, for an address below UTOP, a page number below 2^20 and
  -- permission bits below PGSIZE: with a page table for the address whose entry for it, present or
  -- not, holds the number of a page of the machine, or without one but with a fresh page for it,
  -- page_insert returns 0 and maps the address to the page; it changes the translation of no other
  -- user page.
  pub page_insert_maps :
      IsSpace k.npages k.mem pgdir
      → HasRoom k pgdir va
      → (k' : Kernel) × (page_insert pgdir pp va perm k ≡ ok 0 k')
        × MapsTo k.mem k'.mem pgdir pp va perm
  page_insert_maps space (table_free t missing fresh) = (
    extended pgdir pp va perm k t,
    page_insert-extends pgdir pp va perm k t missing fresh,
    MapsTo-of_entries _ (mmu_entry-extended pgdir pp va perm k user t missing fresh space),
  )
  page_insert_maps space (table_there there valid) =
      elim (Bool-cases (has_bits (mmu_entry k.mem pgdir va) pte_p)) [
        | inl present ↦ (
          replaced pgdir pp va perm k,
          page_insert-replaces pgdir pp va perm k space there present valid,
          MapsTo-of_entries _
              (λ va' user'. mmu_entry-replaced pgdir pp va perm k user space there va'),
        )
        | inr empty ↦ (
          filled pgdir pp va perm k,
          page_insert-fills pgdir pp va perm k space there empty,
          MapsTo-of_entries _
              (λ va' user'. mmu_entry-filled pgdir pp va perm k user space there va'),
        )
      ]

module _ (pgdir pp va perm : ℕ) (k : Kernel) where
  -- Where neither a page table nor a free page is there, page_insert returns -E_NO_MEM and changes
  -- nothing.
  pub page_insert_no_memory :
      has_table k.mem pgdir (pdx va) ≡ false
      → k.page_free_list ≡ none
      → page_insert pgdir pp va perm k ≡ ok neg_e_no_mem k
  unfolding page_insert
  page_insert_no_memory missing empty =
      simp (pgdir_walk-absent k pgdir va missing, pgdir_walk-no_memory k pgdir va missing empty)

  module _ (space : IsSpace k.npages k.mem pgdir)
      (there : has_table k.mem pgdir (pdx va) ≡ true) where
    -- In a well-formed address space, at an address with a page table but no mapping: page_insert
    -- returns 0, the page gains one reference in 16 bits, and the other pages keep theirs.
    pub page_insert_counts :
        has_bits (mmu_entry k.mem pgdir va) pte_p ≡ false
        → (k' : Kernel) × (page_insert pgdir pp va perm k ≡ ok 0 k')
          × ((i : ℕ)
              → (k'.pages i).pp_ref
                ≡ (if i == pp then ((k.pages pp).pp_ref + 1) % 2 ^ 16 else (k.pages i).pp_ref))
    unfolding filled written incref set_ref unlink_head store_entry tlb_invalidate
    page_insert_counts empty = (
      filled pgdir pp va perm k,
      page_insert-fills pgdir pp va perm k space there empty,
      λ i. ground arith,
    )

    -- In a well-formed address space, a page inserted again at the address where it is mapped keeps
    -- its reference count, and the free list begins where it did, also when that was the only
    -- reference; the page has between 1 and 2^16 - 1 references and is not first on the free list.
    pub page_insert_again :
        has_bits (mmu_entry k.mem pgdir va) pte_p ≡ true
        → pgnum (mmu_entry k.mem pgdir va) ≡ pp
        → pp < k.npages
        → 0 < (k.pages pp).pp_ref
        → (k.pages pp).pp_ref < 2 ^ 16
        → k.page_free_list ≢ some pp
        → (k' : Kernel) × (page_insert pgdir pp va perm k ≡ ok 0 k')
          × (k'.page_free_list ≡ k.page_free_list)
          × ((i : ℕ) → (k'.pages i).pp_ref ≡ (k.pages i).pp_ref)
    unfolding replaced written incref set_ref unlink_head removed store_entry tlb_invalidate dropped
        link_free
    page_insert_again present same valid held small off = (
      replaced pgdir pp va perm k,
      page_insert-replaces pgdir pp va perm k space there present (ground arith),
      rw same (ground arith),
      λ i. rw same (ground arith),
    )
