-- ===== src/Pmap/FreeList.antt =====
-- The list of free pages of kern/pmap.c, linked through pp_link, as a list of distinct page
-- numbers; page_alloc, page_free and page_remove on it.
use os2017_lab.Base.{
  ℕ, ◌-◌, ◌^◌, ◌<◌, ◌≡◌, refl, inl, inr, true, false, ◌&&◌, not, none, some, List, [], ◌∷◌, arith,
  ◌==◌, if◌then◌else◌, has_bits, Bool-cases,
}
use os2017_lab.Base.Chain.{has, Chain, Chain-frame}
use os2017_lab.Memlayout.{pgnum, pdx}
use os2017_lab.Kernel.{Kernel, ok, fault, assertion}
use os2017_lab.Pmap.{
  kernel_frames, alloc_zero, is_null, page_alloc, page_free, link_free, clear_frame, page_remove,
  store_entry, tlb_invalidate,
}
use os2017_lab.Pmap.View.{has_table, mmu_entry, IsSpace}
use os2017_lab.Pmap.Walk.{popped, page_alloc-zeroed, page_alloc-kept}
use os2017_lab.Pmap.Remove.{
  dropped, removed, head-dropped, pages-dropped, links-dropped, page_remove-there,
}

-- The pages that are linked from page_free_list, in order.
abbrev pub IsFreeList : Kernel → List ℕ → Type 0
IsFreeList k xs = Chain (λ i. (k.pages i).pp_link) k.page_free_list xs

-- page_alloc on an empty list returns NULL and changes nothing.
pub page_alloc_empty : (flags : ℕ) (k : Kernel) → IsFreeList k [] → page_alloc flags k ≡ ok none k
unfolding page_alloc
page_alloc_empty flags k e = ground arith

-- page_alloc with a nonempty list, whose first page the kernel reaches, returns that page and
-- leaves the rest of the list. With ALLOC_ZERO the frame of that page reads zero; without it,
-- memory is as before; other frames never change.
pub page_alloc_pops :
    (flags : ℕ) (k : Kernel) (p : ℕ) (xs : List ℕ)
    → IsFreeList k (p ∷ xs)
    → p < k.npages
    → p < kernel_frames
    → (k' : Kernel) × (page_alloc flags k ≡ ok (some p) k')
      × IsFreeList k' xs
      × ((f i : ℕ) → k'.mem f i ≡ (if (f == p) && has_bits flags alloc_zero then 0 else k.mem f i))
unfolding popped clear_frame
page_alloc_pops flags k p xs c h r = elim (Bool-cases (has_bits flags alloc_zero)) [
  | inl zeroed ↦ (
    clear_frame p (popped p k),
    page_alloc-zeroed flags k p c.0 zeroed h r,
    c.2,
    λ f i. ground arith,
  )
  | inr kept ↦ (popped p k, page_alloc-kept flags k p c.0 kept, c.2, λ f i. ground arith)
]

-- page_free of a page without references that is not free yet puts it in front of the list,
-- whatever its link holds.
pub page_free_pushes :
    (k : Kernel) (p : ℕ) (xs : List ℕ)
    → IsFreeList k xs
    → has p xs ≡ false
    → (k.pages p).pp_ref ≡ 0
    → (k' : Kernel) × (page_free p k ≡ ok tt k') × IsFreeList k' (p ∷ xs)
unfolding page_free link_free
page_free_pushes k p xs c out unused =
    let link : ((link_free p k).pages p).pp_link ≡ k.page_free_list = ground arith in
    (
      link_free p k,
      ground arith,
      (
        refl,
        out,
        rw link (
            Chain-frame _ (λ i. ((link_free p k).pages i).pp_link) k.page_free_list xs
              (λ i h. ground arith) c),
      ),
    )

-- page_free stops the kernel exactly when the page has both a reference and a link.
pub page_free_asserts :
    (k : Kernel) (p : ℕ)
    → page_free p k ≡ (
        if not ((k.pages p).pp_ref == 0) && not (is_null (k.pages p).pp_link)
        then fault assertion
        else ok tt (link_free p k))
unfolding page_free
page_free_asserts k p = ground arith

dropped-IsFreeList :
    (k : Kernel) (q : ℕ) (xs : List ℕ)
    → 0 < (k.pages q).pp_ref
    → (k.pages q).pp_ref < 2 ^ 16
    → IsFreeList k xs
    → has q xs ≡ false
    → IsFreeList (dropped q k) (if (k.pages q).pp_ref == 1 then q ∷ xs else xs)
dropped-IsFreeList k q xs held small c out =
    let kept =
      Chain-frame _ (λ i. ((dropped q k).pages i).pp_link) k.page_free_list xs
        (λ i h. ground (arith, links-dropped k q i)) c in
    elim (Bool-cases ((k.pages q).pp_ref == 1)) [
      | inl last ↦
          let link : ((dropped q k).pages q).pp_link ≡ k.page_free_list =
            ground (arith, links-dropped k q q) in
          rw last (ground (arith, head-dropped k q), out, rw link kept)
      | inr more ↦
          let head : (dropped q k).page_free_list ≡ k.page_free_list =
            ground (arith, head-dropped k q) in
          rw (more, head) kept
    ]

-- In a well-formed address space, at an address with a page table whose entry holds page `q`, which
-- has between 1 and 2^16 - 1 references and is not free: page_remove returns, `q` loses a reference
-- and joins the free list exactly when that was its last; no other page's count changes.
pub page_remove_releases :
    (k : Kernel) (pgdir va q : ℕ) (xs : List ℕ)
    → IsSpace k.npages k.mem pgdir
    → has_table k.mem pgdir (pdx va) ≡ true
    → pgnum (mmu_entry k.mem pgdir va) ≡ q
    → q < k.npages
    → 0 < (k.pages q).pp_ref
    → (k.pages q).pp_ref < 2 ^ 16
    → IsFreeList k xs
    → has q xs ≡ false
    → (k' : Kernel) × (page_remove pgdir va k ≡ ok tt k')
      × IsFreeList k' (if (k.pages q).pp_ref == 1 then q ∷ xs else xs)
      × ((i : ℕ)
          → (k'.pages i).pp_ref ≡ (if i == q then (k.pages q).pp_ref - 1 else (k.pages i).pp_ref))
unfolding removed store_entry tlb_invalidate
page_remove_releases k pgdir va q xs space there page valid held small c out = (
  removed k pgdir va,
  page_remove-there k pgdir va space there (rw page valid),
  rw page (dropped-IsFreeList k q xs held small c out),
  λ i. rw page (ground (arith, pages-dropped k q i)),
)
