-- ===== src/Pmap/Insert.antt =====
-- page_insert of kern/pmap.c, case by case: the states that it leaves, and the translation in them.
use os2017_lab.Base.{
  ℕ, ◌<◌, ◌≡◌, ◌≢◌, refl, ap, ◌∙◌, true, false, some, arith, ◌==◌, if◌then◌else◌, has_bits,
}
use os2017_lab.Memlayout.{pte_p, pgnum, pdx, ptx, utop}
use os2017_lab.Kernel.{Kernel, ok}
use os2017_lab.Pmap.{
  PtePointer, pte_at, kernel_frames, store_entry, clear_frame, set_ref, incref, tlb_invalidate,
  unlink_head, write_mapping, page_insert,
}
use os2017_lab.Pmap.View.{
  has_table, table, mmu_entry, IsSpace, same_page, store_entry-store_entry, mmu_entry-store,
  mmu_entry-there, pdx-lt-user_tables,
}
use os2017_lab.Pmap.Walk.{
  pgdir_walk-present, pgdir_walk-absent, pgdir_walk-makes, with_table, popped,
}
use os2017_lab.Pmap.Words.{
  mapping, directory_entry, has_bits-directory_entry, pgnum-directory_entry,
}
use os2017_lab.Pmap.Remove.{dropped, removed, page_remove-there}

-- Frame `t` heads the free list and is no part of the address space.
pub record IsFresh (k : Kernel) (pgdir t : ℕ) : Type 0 where
  pub head : k.page_free_list ≡ some t
  pub in_range : t < k.npages
  pub reachable : t < kernel_frames
  pub ne_dir : t ≢ pgdir
  pub no_table : (i : ℕ) → has_table k.mem pgdir i ≡ true → table k.mem pgdir i ≢ t

-- A page table for the address is there, with the number of a page of the machine in the entry, or
-- else a free page to make one.
pub data HasRoom (k : Kernel) (pgdir va : ℕ) : Type 0 where
  table_there :
      has_table k.mem pgdir (pdx va) ≡ true
      → pgnum (mmu_entry k.mem pgdir va) < k.npages
      → HasRoom k pgdir va
  table_free :
      (t : ℕ) → has_table k.mem pgdir (pdx va) ≡ false → IsFresh k pgdir t → HasRoom k pgdir va

unfoldable pub written : ℕ → ℕ → ℕ → ℕ → PtePointer → Kernel → Kernel
written pgdir pp va perm p k =
    tlb_invalidate pgdir va (incref pp (store_entry p (mapping pp perm) k))

write_mapping-ok :
    (pgdir pp va perm : ℕ) (p : PtePointer) (k : Kernel)
    → write_mapping pgdir pp va perm p k ≡ ok 0 (written pgdir pp va perm p k)
unfolding write_mapping written
write_mapping-ok pgdir pp va perm p k = refl

module _ (pgdir pp va perm : ℕ) (k : Kernel) where
  abbrev here : PtePointer
  here = pte_at (table k.mem pgdir (pdx va)) (ptx va)

  -- The states that page_insert leaves: over a mapping, into an empty entry, into a new table.
  unfoldable pub replaced : Kernel
  replaced = written pgdir pp va perm here (unlink_head pp (removed k pgdir va))

  unfoldable pub filled : Kernel
  filled = written pgdir pp va perm here (unlink_head pp k)

  unfoldable pub extended : ℕ → Kernel
  extended t = written pgdir pp va perm (pte_at t (ptx va)) (with_table k pgdir va t)

  pub page_insert-replaces :
      IsSpace k.npages k.mem pgdir
      → has_table k.mem pgdir (pdx va) ≡ true
      → has_bits (mmu_entry k.mem pgdir va) pte_p ≡ true
      → pgnum (mmu_entry k.mem pgdir va) < k.npages
      → page_insert pgdir pp va perm k ≡ ok 0 replaced
  unfolding page_insert replaced
  page_insert-replaces space there present valid = simp (
    pgdir_walk-present k pgdir va false space there,
    ← mmu_entry-there k.mem pgdir va there,
    present,
    page_remove-there k pgdir va space there valid,
    write_mapping-ok,
  )

  pub page_insert-fills :
      IsSpace k.npages k.mem pgdir
      → has_table k.mem pgdir (pdx va) ≡ true
      → has_bits (mmu_entry k.mem pgdir va) pte_p ≡ false
      → page_insert pgdir pp va perm k ≡ ok 0 filled
  unfolding page_insert filled
  page_insert-fills space there empty = simp (
    pgdir_walk-present k pgdir va false space there,
    ← mmu_entry-there k.mem pgdir va there,
    empty,
    write_mapping-ok,
  )

  pub page_insert-extends :
      (t : ℕ)
      → has_table k.mem pgdir (pdx va) ≡ false
      → IsFresh k pgdir t
      → page_insert pgdir pp va perm k ≡ ok 0 (extended t)
  unfolding page_insert extended
  page_insert-extends t missing fresh = simp (
    pgdir_walk-absent k pgdir va missing,
    pgdir_walk-makes k pgdir va t missing fresh.head fresh.in_range fresh.reachable,
    write_mapping-ok,
  )

module _ (pgdir pp va perm : ℕ) (k : Kernel) (user : va < utop) where
  pub mmu_entry-filled :
      IsSpace k.npages k.mem pgdir
      → has_table k.mem pgdir (pdx va) ≡ true
      → (va' : ℕ)
      → mmu_entry (filled pgdir pp va perm k).mem pgdir va'
        ≡ (if same_page va va' then mapping pp perm else mmu_entry k.mem pgdir va')
  unfolding filled written incref set_ref tlb_invalidate unlink_head store_entry
  mmu_entry-filled space there va' = mmu_entry-store k space user there (mapping pp perm) va'

  pub mmu_entry-replaced :
      IsSpace k.npages k.mem pgdir
      → has_table k.mem pgdir (pdx va) ≡ true
      → (va' : ℕ)
      → mmu_entry (replaced pgdir pp va perm k).mem pgdir va'
        ≡ (if same_page va va' then mapping pp perm else mmu_entry k.mem pgdir va')
  unfolding replaced written incref set_ref tlb_invalidate unlink_head removed dropped store_entry
  mmu_entry-replaced space there va' =
      ap (λ m. mmu_entry m pgdir va') (store_entry-store_entry _ 0 (mapping pp perm) k)
      ∙ mmu_entry-store k space user there (mapping pp perm) va'

  module _ (t : ℕ) (missing : has_table k.mem pgdir (pdx va) ≡ false)
      (fresh : IsFresh k pgdir t) where
    pub extended_dir :
        (i : ℕ)
        → (extended pgdir pp va perm k t).mem pgdir i
          ≡ (if i == pdx va then directory_entry t else k.mem pgdir i)
    unfolding extended written incref set_ref tlb_invalidate with_table popped clear_frame
        store_entry
    extended_dir i = ground (arith, fresh.ne_dir)

    extended_table :
        (i : ℕ)
        → (extended pgdir pp va perm k t).mem t i ≡ (if i == ptx va then mapping pp perm else 0)
    unfolding extended written incref set_ref tlb_invalidate with_table popped clear_frame
        store_entry
    extended_table i = ground (arith, fresh.ne_dir)

    extended_rest :
        (f i : ℕ) → f ≢ t → f ≢ pgdir → (extended pgdir pp va perm k t).mem f i ≡ k.mem f i
    unfolding extended written incref set_ref tlb_invalidate with_table popped clear_frame
        store_entry
    extended_rest f i h r = ground arith

    pub mmu_entry-extended :
        IsSpace k.npages k.mem pgdir
        → (va' : ℕ) → va' < utop
        → mmu_entry (extended pgdir pp va perm k t).mem pgdir va'
          ≡ (if same_page va va' then mapping pp perm else mmu_entry k.mem pgdir va')
    unfolding mmu_entry
    mmu_entry-extended space va' user' = rw (extended_dir (pdx va')) (
        ground (
          arith,
          extended_table (ptx va'),
          extended_rest (table k.mem pgdir (pdx va')) (ptx va'),
          fresh.no_table (pdx va'),
          space.off_dir (pdx va') (pdx-lt-user_tables va' user'),
          has_bits-directory_entry t,
          pgnum-directory_entry t,
        ))
