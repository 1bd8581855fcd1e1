-- ===== src/Pmap.antt =====
-- kern/pmap.c and kern/pmap.h: the physical page allocator and the two-level page tables.
-- The kernel maps physical memory at KERNBASE, so a kernel pointer reaches the first 65536 frames
-- (256 MB); to form one to a frame beyond is the fault `wild_pointer`.
pub mod View
pub mod Walk
pub mod Words
pub mod Remove
pub mod Insert
pub mod Mapping
pub mod Isolation
pub mod Faults
pub mod FreeList
pub mod UserMem
pub mod Boot
use os2017_lab.Base.{
  ℕ, zero, suc, ◌+◌, ◌-◌, ◌*◌, ◌/◌, ◌%◌, ◌^◌, bit_and, bit_or, Bool, true, false, not, ◌&&◌, ◌||◌,
  Option, none, some, ◌∷◌, ltb, leb, ◌==◌, if◌then◌else◌, has_bits, same_pointer,
}
use os2017_lab.Base.Arrays.{update}
use os2017_lab.Memlayout.{
  u32_mod, pgsize, pte_p, pte_w, pte_u, ulim, pgnum, pdx, ptx, pte_addr, roundup,
}
use os2017_lab.Kernel.{
  PageInfo, Env, Kernel, kernel_panic, null_pointer, wild_pointer, ok, fault, out_of_fuel, Run, Cmd,
  pure, stop, ◌>>=◌, ◌>>◌, and_then, get, modify, assert,
}

abbrev pub is_null : Option ℕ → Bool
is_null none = true
is_null (some p) = false

-- The flag of page_alloc.
abbrev pub alloc_zero : ℕ
alloc_zero = 1

-- The number of frames that the kernel's mapping at KERNBASE reaches.
abbrev pub kernel_frames : ℕ
kernel_frames = 65536

-- KADDR: the frame behind the kernel virtual address of `pa`.
unfoldable pub kaddr : ℕ → Cmd ℕ
kaddr pa k =
    if leb k.npages (pgnum pa)
    then fault kernel_panic
    else if leb kernel_frames (pgnum pa)
    then fault wild_pointer
    else ok (pgnum pa) k

-- PADDR of a kernel pointer to a frame.
abbrev pub paddr : ℕ → ℕ
paddr frame = frame * pgsize

unfoldable pub page2pa : ℕ → ℕ
page2pa pp = pp * pgsize % u32_mod

unfoldable pub pa2page : ℕ → Cmd ℕ
pa2page pa k = if leb k.npages (pgnum pa) then fault kernel_panic else ok (pgnum pa) k

unfoldable pub page2kva : ℕ → Cmd ℕ
unfolding kaddr page2pa
page2kva pp = kaddr (page2pa pp)

-- A pointer to an entry of a page table: its frame and index.
pub record PtePointer : Type 0 where
  pub frame : ℕ
  pub index : ℕ

abbrev pub pte_at : ℕ → ℕ → PtePointer
pte_at f i = record { frame = f; index = i }

abbrev pub entry : Kernel → PtePointer → ℕ
entry k p = k.mem p.frame p.index

-- `*pte = v`
unfoldable pub store_entry : PtePointer → ℕ → Kernel → Kernel
store_entry p v k = record k { mem = update k.mem p.frame (update (k.mem p.frame) p.index v) }

-- `memset(kva, 0, PGSIZE)` of a whole frame
unfoldable pub clear_frame : ℕ → Kernel → Kernel
clear_frame f k = record k { mem = update k.mem f (λ _. 0) }

unfoldable pub set_ref : ℕ → ℕ → Kernel → Kernel
set_ref pp n k = record k { pages = update k.pages pp (record (k.pages pp) { pp_ref = n }) }

-- `pp->pp_ref++` on a uint16_t
unfoldable pub incref : ℕ → Kernel → Kernel
unfolding set_ref
incref pp k = set_ref pp (((k.pages pp).pp_ref + 1) % 2 ^ 16) k

unfoldable pub page_alloc : ℕ → Cmd (Option ℕ)
page_alloc alloc_flags k = elim k.page_free_list [
  | none ↦ ok none k
  | some pp ↦
      (do
        modify (λ s. record s { page_free_list = (s.pages pp).pp_link })
        if has_bits alloc_flags alloc_zero
            then (do f ← page2kva pp; modify (clear_frame f); pure (some pp))
            else pure (some pp))
        k
]

unfoldable pub link_free : ℕ → Kernel → Kernel
link_free pp k = record k {
  pages = update k.pages pp (record (k.pages pp) { pp_link = k.page_free_list });
  page_free_list = some pp;
}

unfoldable pub page_free : ℕ → Cmd (Unit {0})
page_free pp = do
  k ← get
  assert (((k.pages pp).pp_ref == 0) || is_null (k.pages pp).pp_link)
  modify (link_free pp)

unfoldable pub page_decref : ℕ → Cmd (Unit {0})
page_decref pp = do
  modify (λ k. set_ref pp (((k.pages pp).pp_ref + 2 ^ 16 - 1) % 2 ^ 16) k)
  k ← get
  if (k.pages pp).pp_ref == 0 then page_free pp else pure tt

-- The page directory's branch of pgdir_walk where there is no page table.
unfoldable pub make_table : ℕ → ℕ → Cmd (Option PtePointer)
make_table pgdir va = do
  page ← page_alloc alloc_zero
  elim page [
    | none ↦ pure none
    | some pp ↦ do
      pgtable ← page2kva pp
      modify (incref pp)
      modify (
          store_entry (pte_at pgdir (pdx va))
            (bit_or (bit_or (bit_or (paddr pgtable) pte_p) pte_w) pte_u))
      pure (some (pte_at pgtable (ptx va)))
  ]

unfoldable pub pgdir_walk : ℕ → ℕ → Bool → Cmd (Option PtePointer)
pgdir_walk pgdir va create = do
  k ← get
  if has_bits (k.mem pgdir (pdx va)) pte_p
      then (do
        pgtable ← kaddr (pte_addr (k.mem pgdir (pdx va)))
        pure (some (pte_at pgtable (ptx va))))
      else if not create
      then pure none
      else make_table pgdir va

-- `!curenv || curenv->env_pgdir == pgdir`
unfoldable pub in_use : ℕ → Kernel → Bool
in_use pgdir k = elim k.curenv [
  | none ↦ true
  | some e ↦ same_pointer (k.envs e).env_pgdir (some pgdir)
]

-- Flush only if the page tables are those in use.
unfoldable pub tlb_invalidate : ℕ → ℕ → Kernel → Kernel
tlb_invalidate pgdir va k = record k {
  flushed = if in_use pgdir k then va ∷ k.flushed else k.flushed;
}

-- The page and, through `pte_store`, the address of its entry.
unfoldable pub page_lookup : ℕ → ℕ → Cmd (Option (ℕ × PtePointer))
page_lookup pgdir va = do
  pte ← pgdir_walk pgdir va false
  elim pte [
    | none ↦ pure none
    | some p ↦ do k ← get; pp ← pa2page (pte_addr (entry k p)); pure (some (pp, p))
  ]

-- `pte_store` is set by the walk before page_lookup sets it to the same entry.
unfoldable pub page_remove : ℕ → ℕ → Cmd (Unit {0})
page_remove pgdir va = do
  _ ← pgdir_walk pgdir va false
  found ← page_lookup pgdir va
  elim found [
    | none ↦ pure tt
    | some (pp, p) ↦ do page_decref pp; modify (store_entry p 0); modify (tlb_invalidate pgdir va)
  ]

-- `page_free_list == pp`: the page that a removal has just freed is taken off the list again.
unfoldable pub unlink_head : ℕ → Kernel → Kernel
unlink_head pp k = record k {
  page_free_list =
      if same_pointer k.page_free_list (some pp) then (k.pages pp).pp_link else k.page_free_list;
}

-- The last part of page_insert.
unfoldable pub write_mapping : ℕ → ℕ → ℕ → ℕ → PtePointer → Cmd ℕ
write_mapping pgdir pp va perm p = do
  modify (store_entry p (bit_or (bit_or (page2pa pp) pte_p) perm))
  modify (incref pp)
  modify (tlb_invalidate pgdir va)
  pure 0

-- -E_NO_MEM as a 32-bit word.
abbrev pub neg_e_no_mem : ℕ
neg_e_no_mem = u32_mod - 4

unfoldable pub page_insert : ℕ → ℕ → ℕ → ℕ → Cmd ℕ
page_insert pgdir pp va perm = do
  pte ← pgdir_walk pgdir va false
  elim pte [
    | some p ↦ do
      k ← get
      if has_bits (entry k p) pte_p then page_remove pgdir va else pure tt
      modify (unlink_head pp)
      write_mapping pgdir pp va perm p
    | none ↦ do
      made ← pgdir_walk pgdir va true
      elim made [ none ↦ pure neg_e_no_mem | some p ↦ write_mapping pgdir pp va perm p ]
  ]
