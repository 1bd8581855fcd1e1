-- ===== src/Syscall/Memory.antt =====
-- sys_page_alloc and sys_page_map of kern/syscall.c on their way to page_insert.
use os2017_lab.Base.{
  [], ◌∷◌, ◌≢◌, ℕ, ◌<◌, ◌≡◌, refl, sym, ap, ◌∙◌, true, false, some, arith, has_bits,
}
use os2017_lab.Memlayout.{pte_w, pgsize, pgnum, pdx, utop}
use os2017_lab.Kernel.{Kernel, ok}
use os2017_lab.Pmap.{neg_e_no_mem, kernel_frames, alloc_zero, clear_frame}
use os2017_lab.Pmap.View.{has_table, mmu_entry, IsSpace, IsSpace-dir}
use os2017_lab.Pmap.Walk.{popped, page_alloc-zeroed, has_bits-alloc_zero}
use os2017_lab.Pmap.Insert.{HasRoom, IsFresh, table_there}
use os2017_lab.Pmap.Isolation.{Outside, page_insert-Inserts}
use os2017_lab.Pmap.FreeList.{IsFreeList, page_free_pushes}
use os2017_lab.Pmap.Mapping.{page_insert_no_memory, MapsTo, page_insert_maps}
use os2017_lab.Pmap.Faults.{page_lookup_unmapped}
use os2017_lab.Syscall.{pgdir_of, alloc_and_insert, share_page}

-- Frame `pp` heads the free list and is no part of the address space: clearing it keeps the space.
module _ (k : Kernel) (pgdir pp : ℕ) (fresh : IsFresh k pgdir pp) where
  abbrev pub cleared : Kernel
  cleared = clear_frame pp (popped pp k)

  cleared_dir : (i : ℕ) → cleared.mem pgdir i ≡ k.mem pgdir i
  unfolding clear_frame popped
  cleared_dir i = ground (arith, fresh.ne_dir)

  cleared_entry : (va : ℕ) → mmu_entry cleared.mem pgdir va ≡ mmu_entry k.mem pgdir va
  unfolding mmu_entry clear_frame popped
  cleared_entry va = ground (arith, fresh.ne_dir, fresh.no_table (pdx va))

  cleared_npages : cleared.npages ≡ k.npages
  unfolding clear_frame popped
  cleared_npages = refl

  cleared-IsSpace : IsSpace k.npages k.mem pgdir → IsSpace cleared.npages cleared.mem pgdir
  cleared-IsSpace =
      IsSpace-dir k.npages cleared.npages k.mem cleared.mem pgdir cleared_npages cleared_dir

  cleared_zero : (i : ℕ) → cleared.mem pp i ≡ 0
  unfolding clear_frame popped
  cleared_zero i = ground arith

  -- page_insert writes no table of the space into the page.
  pp-Outside : (va : ℕ) → has_table k.mem pgdir (pdx va) ≡ true → Outside cleared pgdir va pp
  pp-Outside va there =
      let same : cleared.mem pgdir (pdx va) ≡ k.mem pgdir (pdx va) = cleared_dir (pdx va) in
      record {
        ne_dir = fresh.ne_dir;
        ne_table = λ has at. fresh.no_table (pdx va) there (ap pgnum (sym same) ∙ sym at);
        ne_free = λ missing. absurd (ground (arith, there, missing, same));
      }

  -- In a well-formed address space that the first free page, which the kernel reaches, is no part
  -- of, for permission bits below PGSIZE and an address below UTOP with a page table, whose entry
  -- for it, present or not, holds the number of a page of the machine: the end of sys_page_alloc
  -- returns 0 and maps the address to that page with `perm`; no other user page is translated
  -- differently than before the call, and after it the page reads zero.
  pub alloc_and_insert_maps :
      (e va perm : ℕ)
      → (k.envs e).env_pgdir ≡ some pgdir
      → va < utop
      → perm < pgsize
      → IsSpace k.npages k.mem pgdir
      → has_table k.mem pgdir (pdx va) ≡ true
      → pgnum (mmu_entry k.mem pgdir va) < k.npages
      → (k' : Kernel) × (alloc_and_insert e va perm k ≡ ok 0 k')
        × ((i : ℕ) → k'.mem pp i ≡ 0)
        × MapsTo k.mem k'.mem pgdir pp va perm
  unfolding alloc_and_insert pgdir_of clear_frame popped
  alloc_and_insert_maps e va perm own user bits space there valid =
      let dir : has_table cleared.mem pgdir (pdx va) ≡ true = rw (cleared_dir (pdx va)) there in
      let small : pgnum (mmu_entry cleared.mem pgdir va) < cleared.npages =
        rw (cleared_entry va) valid in
      let (k', inserts) =
        page_insert-Inserts pgdir pp va perm cleared user (omega (arith, fresh.reachable)) bits
          (cleared-IsSpace space) (table_there dir small) in
      let alloc =
        page_alloc-zeroed alloc_zero k pp fresh.head has_bits-alloc_zero fresh.in_range
          fresh.reachable in
      (
        k',
        simp (alloc, own, inserts.runs),
        λ i. inserts.rest pp i (pp-Outside va there) ∙ cleared_zero i,
        (
          inserts.maps.0,
          inserts.maps.1,
          λ va' below. inserts.maps.2 va' below ∙ rw (cleared_entry va') refl,
        ),
      )

-- Where the only free page, which has no references and is not the page directory, would be needed
-- for the mapping and the address has no page table, the end of sys_page_alloc answers -E_NO_MEM
-- and the page is free again.
pub alloc_and_insert_gives_back :
    (k : Kernel) (e va perm pgdir pp : ℕ)
    → (k.envs e).env_pgdir ≡ some pgdir
    → has_table k.mem pgdir (pdx va) ≡ false
    → IsFreeList k (pp ∷ [])
    → pp < k.npages
    → pp < kernel_frames
    → pp ≢ pgdir
    → (k.pages pp).pp_ref ≡ 0
    → (k' : Kernel) × (alloc_and_insert e va perm k ≡ ok neg_e_no_mem k') × IsFreeList k' (pp ∷ [])
unfolding alloc_and_insert pgdir_of clear_frame popped
alloc_and_insert_gives_back k e va perm pgdir pp own missing free in_range reachable apart unused =
    let s = clear_frame pp (popped pp k) in
    let dir : has_table s.mem pgdir (pdx va) ≡ false = ground (arith, missing) in
    let (k', freed, list) = page_free_pushes s pp [] free.2 refl unused in
    (
      k',
      simp (
        page_alloc-zeroed alloc_zero k pp free.0 has_bits-alloc_zero in_range reachable,
        own,
        page_insert_no_memory pgdir pp va perm s dir free.2,
        freed,
      ),
      list,
    )

-- In well-formed address spaces, the end of sys_page_map from an address that has a page table but
-- no mapping, without PTE_W in `perm` and with room for the destination below UTOP, returns 0 and
-- maps the destination to page 0.
pub share_page_unmapped :
    (k : Kernel) (srcenv dstenv srcva dstva perm src dst : ℕ)
    → (k.envs srcenv).env_pgdir ≡ some src
    → (k.envs dstenv).env_pgdir ≡ some dst
    → IsSpace k.npages k.mem src
    → has_table k.mem src (pdx srcva) ≡ true
    → mmu_entry k.mem src srcva ≡ 0
    → 0 < k.npages
    → has_bits perm pte_w ≡ false
    → dstva < utop
    → perm < pgsize
    → IsSpace k.npages k.mem dst
    → HasRoom k dst dstva
    → (k' : Kernel) × (share_page srcenv dstenv srcva dstva perm k ≡ ok 0 k')
      × MapsTo k.mem k'.mem dst 0 dstva perm
unfolding share_page pgdir_of
share_page_unmapped k srcenv dstenv srcva dstva perm src dst own own' space there empty pages read
      user bits space' room =
    let (k', runs, maps) =
      page_insert_maps dst 0 dstva perm k user (omega arith) bits space' room in
    (
      k',
      simp (own, page_lookup_unmapped k src srcva space there empty pages, read, own', runs),
      maps,
    )
