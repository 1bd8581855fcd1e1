-- ===== src/Pmap/UserMem.antt =====
-- user_mem_check of kern/pmap.c: may an environment use a range of its addresses?
pub mod Range
use os2017_lab.Base.{
  ℕ, zero, suc, ◌+◌, ◌-◌, ◌/◌, ◌%◌, bit_and, bit_or, Bool, true, false, not, ◌||◌, Option, none,
  some, ltb, ◌==◌, if◌then◌else◌, has_bits,
}
use os2017_lab.Memlayout.{u32_mod, pgsize, pte_p, ulim, pgnum, roundup}
use os2017_lab.Kernel.{
  Env, Kernel, out_of_fuel, null_pointer, Cmd, pure, stop, ◌>>=◌, ◌>>◌, and_then, ok, get, modify,
  deref,
}
use os2017_lab.Pmap.{PtePointer, entry, pgdir_walk}
use os2017_lab.Pmap.View.{mmu_entry}

-- -E_FAULT as a 32-bit word.
abbrev pub neg_e_fault : ℕ
neg_e_fault = u32_mod - 6

abbrev pub set_check_addr : ℕ → Kernel → Kernel
set_check_addr a k = record k { user_mem_check_addr = a }

-- The code behind the label `err`, which reads `*pte`; where the walk gave NULL that is the word at
-- address 0 of the address space in use, if a page is mapped there.
unfoldable pub check_failed : ℕ → Option PtePointer → Cmd ℕ
check_failed va pte = do
  k ← get
  if k.user_mem_check_addr == va then modify (set_check_addr va) >> pure neg_e_fault else elim pte [
    | none ↦
        let pte = mmu_entry k.mem k.cr3 0 in
        if has_bits pte pte_p
        then modify (set_check_addr (k.mem (pgnum pte) 0)) >> pure neg_e_fault
        else stop null_pointer
    | some p ↦ modify (set_check_addr (entry k p)) >> pure neg_e_fault
  ]

-- The loop, on fuel; the address that it counts is the global user_mem_check_addr.
unfoldable pub check_loop : (pgdir va end_va perm fuel : ℕ) → Cmd ℕ
check_loop pgdir va end_va perm zero = λ _. out_of_fuel
check_loop pgdir va end_va perm (suc fuel) = do
  k ← get
  let rest =
      modify (set_check_addr ((k.user_mem_check_addr + pgsize) % u32_mod))
      >> check_loop pgdir va end_va perm fuel
  if not (ltb k.user_mem_check_addr end_va) then pure 0 else (do
    pte ← pgdir_walk pgdir k.user_mem_check_addr false
    elim pte [
      | none ↦ check_failed va none
      | some p ↦
          if ltb ulim k.user_mem_check_addr || not (bit_and (entry k p) perm == perm)
          then check_failed va (some p)
          else rest
    ])

abbrev pub end_of : ℕ → ℕ → ℕ
end_of va len = roundup ((va + len) % u32_mod) pgsize

-- Each round goes one page on, so a round for each page below the end is enough.
unfoldable pub user_mem_check : Env → (va len perm : ℕ) → Cmd ℕ
user_mem_check env va len perm = do
  pgdir ← deref env.env_pgdir
  modify (set_check_addr va)
  check_loop pgdir va (end_of va len) (bit_or perm pte_p) (suc (suc (end_of va len / pgsize)))
