-- ===== src/Pmap/Walk.antt =====
-- pgdir_walk, case by case: the table is there, it is not, and a new one is made.
use os2017_lab.Base.{ℕ, ◌<◌, ◌≡◌, refl, bit_or, Bool, true, false, none, some, arith, has_bits}
use os2017_lab.Memlayout.{pte_p, pte_w, pte_u, pgnum, pdx, ptx}
use os2017_lab.Kernel.{Kernel, ok}
use os2017_lab.Pmap.{
  pte_at, kernel_frames, kaddr, page2kva, page_alloc, alloc_zero, pgdir_walk, make_table,
  clear_frame, incref, store_entry, paddr,
}
use os2017_lab.Pmap.View.{has_table, table, IsSpace}

pub kaddr-ok :
    (pa : ℕ) (k : Kernel)
    → pgnum pa < k.npages
    → pgnum pa < kernel_frames
    → kaddr pa k ≡ ok (pgnum pa) k
unfolding kaddr
kaddr-ok pa k h r = ground arith

pub page2kva-ok :
    (pp : ℕ) (k : Kernel) → pp < k.npages → pp < kernel_frames → page2kva pp k ≡ ok pp k
unfolding page2kva
page2kva-ok pp k h r = ground arith

-- The state after page `t` has left the head of the free list.
unfoldable pub popped : ℕ → Kernel → Kernel
popped t k = record k { page_free_list = (k.pages t).pp_link }

module _ (flags : ℕ) (k : Kernel) (t : ℕ) (head : k.page_free_list ≡ some t) where
  pub page_alloc-zeroed :
      has_bits flags alloc_zero ≡ true
      → t < k.npages
      → t < kernel_frames
      → page_alloc flags k ≡ ok (some t) (clear_frame t (popped t k))
  unfolding page_alloc popped
  page_alloc-zeroed zero h r = rw (head, page_alloc) (rw zero (rw (page2kva-ok t (popped t k) h r)))

  pub page_alloc-kept :
      has_bits flags alloc_zero ≡ false → page_alloc flags k ≡ ok (some t) (popped t k)
  unfolding page_alloc popped
  page_alloc-kept no_zero = rw (head, page_alloc) (rw no_zero)

pub has_bits-alloc_zero : has_bits alloc_zero alloc_zero ≡ true
unfolding has_bits
has_bits-alloc_zero = refl

module _ (k : Kernel) (pgdir va : ℕ) where
  pub pgdir_walk-present :
      (create : Bool)
      → IsSpace k.npages k.mem pgdir
      → has_table k.mem pgdir (pdx va) ≡ true
      → pgdir_walk pgdir va create k ≡ ok (some (pte_at (table k.mem pgdir (pdx va)) (ptx va))) k
  unfolding pgdir_walk kaddr
  pgdir_walk-present create space there =
      rw there (ground (arith, space.in_range (pdx va) there, space.reachable (pdx va) there))

  pub pgdir_walk-absent :
      has_table k.mem pgdir (pdx va) ≡ false → pgdir_walk pgdir va false k ≡ ok none k
  unfolding pgdir_walk
  pgdir_walk-absent missing = rw missing

  pub pgdir_walk-no_memory :
      has_table k.mem pgdir (pdx va) ≡ false
      → k.page_free_list ≡ none
      → pgdir_walk pgdir va true k ≡ ok none k
  unfolding pgdir_walk make_table page_alloc
  pgdir_walk-no_memory missing empty = ground arith

  -- The state after frame `t` has become the page table for `va`.
  unfoldable pub with_table : ℕ → Kernel
  with_table t =
      store_entry (pte_at pgdir (pdx va)) (bit_or (bit_or (bit_or (paddr t) pte_p) pte_w) pte_u)
        (incref t (clear_frame t (popped t k)))

  pub pgdir_walk-makes :
      (t : ℕ)
      → has_table k.mem pgdir (pdx va) ≡ false
      → k.page_free_list ≡ some t
      → t < k.npages
      → t < kernel_frames
      → pgdir_walk pgdir va true k ≡ ok (some (pte_at t (ptx va))) (with_table t)
  unfolding pgdir_walk make_table with_table clear_frame popped
  pgdir_walk-makes t missing head h r = simp (
    missing,
    page_alloc-zeroed alloc_zero k t head has_bits-alloc_zero h r,
    page2kva-ok t (clear_frame t (popped t k)) h r,
  )
