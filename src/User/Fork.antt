-- ===== src/User/Fork.antt =====
-- lib/fork.c: pgfault, duppage, fork and sfork.
use os2017_lab.Base.{
  ℕ, zero, suc, ◌+◌, ◌-◌, ◌*◌, ◌%◌, Bool, true, false, not, ◌||◌, bit_and, bit_or, ◌==◌,
  if◌then◌else◌, has_bits,
}
use os2017_lab.Memlayout.{
  u32_mod, pgsize, ptsize, nptentries, pgnum, pdx, pte_p, pte_w, pte_u, pte_avail, uxstacktop,
  ustacktop,
}
use os2017_lab.Env.{is_negative}
use os2017_lab.User.{Sys, UserRun, returns, panics}

abbrev pub pte_cow : ℕ
pte_cow = 0x800

abbrev pub fec_wr : ℕ
fec_wr = 0x2

abbrev pub utext : ℕ
utext = 2 * ptsize

abbrev pub pftemp : ℕ
pftemp = ptsize + ptsize - pgsize

abbrev pub minus_one : ℕ
minus_one = u32_mod - 1

abbrev pub env_runnable : ℕ
env_runnable = 2

-- PTE_U | PTE_P | PTE_W
abbrev pub perm_rw : ℕ
perm_rw = pte_u + pte_p + pte_w

-- ROUNDDOWN(addr, PGSIZE)
abbrev pub page_of : ℕ → ℕ
page_of addr = addr - addr % pgsize

-- The permissions with which duppage maps a page of entry `pte`.
unfoldable pub dup_perm : (pte : ℕ) → ℕ
dup_perm pte =
    if has_bits pte pte_w || has_bits pte pte_cow
    then bit_or (pte_u + pte_p) pte_cow
    else pte_u + pte_p

-- `uvpt[pn] & ~(uvpt[pn] & ~(PTE_P | PTE_U | PTE_W | PTE_AVAIL))`
abbrev pub share_perm : (pte : ℕ) → ℕ
share_perm pte =
    bit_and pte (u32_mod - 1 - bit_and pte (u32_mod - 1 - (pte_p + pte_u + pte_w + pte_avail)))

-- Whether a call failed, and the state after it.
abbrev pub failed : {S : Type 0} → ℕ × S → Bool
failed (r, s) = is_negative r

module _ {S : Type 0} (sys : Sys S) where
  open sys use {
    sys_getenvid, sys_exofork, sys_page_alloc, sys_page_map, sys_page_unmap, sys_env_set_status,
    sys_env_set_pgfault_upcall, uvpt, copy_page, set_pgfault_handler, set_thisenv,
  }

  -- The page fault handler; every check that fails panics.
  unfoldable pub pgfault : (fault_va err : ℕ) → S → UserRun S
  pgfault addr err s =
      if not (has_bits err fec_wr)
      then panics
      else if not (has_bits (uvpt s (pgnum addr)) pte_cow)
      then panics
      else (let envid = sys_getenvid s in
          let (r1, s1) = sys_page_alloc envid pftemp perm_rw s in
          if is_negative r1
          then panics
          else (let s2 = copy_page pftemp (page_of addr) s1 in
              let (r3, s3) = sys_page_map envid pftemp envid (page_of addr) perm_rw s2 in
              if is_negative r3
              then panics
              else (let (r4, s4) = sys_page_unmap envid pftemp s3 in
                  if is_negative r4 then panics else returns 0 s4)))

  unfoldable pub duppage : (envid pn : ℕ) → S → ℕ × S
  unfolding dup_perm
  duppage envid pn s =
      let myenvid = sys_getenvid s in
      let va = (pn * pgsize) % u32_mod in
      let perm = dup_perm (uvpt s pn) in
      let (r1, s1) = sys_page_map myenvid va envid va perm s in
      if is_negative r1
      then (r1, s1)
      else if has_bits perm pte_cow
      then (let (r2, s2) = sys_page_map myenvid va myenvid va perm s1 in
          if is_negative r2 then (r2, s2) else (0, s2))
      else (0, s1)

  -- The inner loop of fork, with `n` entries of the page table left from page `pn` on; the result
  -- of duppage is dropped.
  unfoldable pub dup_pages : (envid n pn : ℕ) → S → S
  unfolding duppage
  dup_pages envid zero pn s = s
  dup_pages envid (suc n) pn s =
      let dup = dup_pages envid n (pn + 1) (duppage envid pn s).1 in
      let skip = dup_pages envid n (pn + 1) s in
      if pn == pgnum (uxstacktop - pgsize)
      then s
      else if has_bits (uvpt s pn) pte_p
      then dup
      else skip

  -- The outer loop, with `n` page tables left from `i` on.
  unfoldable pub dup_tables : (envid n i : ℕ) → S → S
  dup_tables envid zero i s = s
  dup_tables envid (suc n) i s =
      let dup = dup_tables envid n (i + 1) (dup_pages envid nptentries (i * nptentries) s) in
      let skip = dup_tables envid n (i + 1) s in if has_bits (sys.uvpd s i) pte_p then dup else skip

  -- The inner loop of sfork: whether it went to its end.
  unfoldable pub share_pages : (envid n pn : ℕ) → S → Bool × S
  unfolding duppage
  share_pages envid zero pn s = (true, s)
  share_pages envid (suc n) pn s =
      let dup = share_pages envid n (pn + 1) (duppage envid pn s).1 in
      let va = pn * pgsize in
      let (r, s1) = sys_page_map (sys_getenvid s) va envid va (share_perm (uvpt s pn)) s in
      let share = share_pages envid n (pn + 1) s1 in
      let skip = share_pages envid n (pn + 1) s in
      if pn == pgnum (uxstacktop - pgsize)
      then (true, s)
      else if pn == pgnum (ustacktop - pgsize)
      then dup
      else if has_bits (uvpt s pn) pte_p
      then (if is_negative r then (false, s1) else share)
      else skip

  unfoldable pub share_tables : (envid n i : ℕ) → S → Bool × S
  unfolding share_pages
  share_tables envid zero i s = (true, s)
  share_tables envid (suc n) i s =
      let (whole, s1) = share_pages envid nptentries (i * nptentries) s in
      let share = share_tables envid n (i + 1) s1 in
      let skip = share_tables envid n (i + 1) s in
      if has_bits (sys.uvpd s i) pte_p then (if whole then share else (false, s1)) else skip

  -- What fork and sfork do once the address space is copied; the memmove copies the page of the
  -- child over the exception stack of the caller.
  unfoldable pub start_child : (envid upcall : ℕ) → S → ℕ × S
  start_child envid upcall s =
      let myenvid = sys_getenvid s in
      let uxstack = uxstacktop - pgsize in
      let (r1, s1) = sys_page_alloc envid uxstack perm_rw s in
      let (r2, s2) = sys_page_map envid uxstack myenvid pftemp perm_rw s1 in
      let (r3, s3) = sys_page_unmap myenvid pftemp (copy_page uxstack pftemp s2) in
      let (r4, s4) = sys_env_set_pgfault_upcall envid upcall s3 in
      let (r5, s5) = sys_env_set_status envid env_runnable s4 in
      if is_negative r1
      then (minus_one, s1)
      else if is_negative r2
      then (minus_one, s2)
      else if is_negative r3
      then (minus_one, s3)
      else if is_negative r4
      then (minus_one, s4)
      else if is_negative r5
      then (minus_one, s5)
      else (envid, s5)

  -- The rounds of the outer loop: from PDX(UTEXT) to PDX(UXSTACKTOP).
  abbrev pub table_rounds : ℕ
  table_rounds = pdx uxstacktop - pdx utext

  -- `upcall` is the address of _pgfault_upcall.
  unfoldable pub fork : (upcall : ℕ) → S → ℕ × S
  unfolding dup_tables start_child
  fork upcall s =
      let (envid, s1) = sys_exofork (set_pgfault_handler s) in
      if is_negative envid
      then (minus_one, s1)
      else if envid == 0
      then (0, set_thisenv s1)
      else start_child envid upcall (dup_tables envid table_rounds (pdx utext) s1)

  unfoldable pub sfork : (upcall : ℕ) → S → ℕ × S
  unfolding share_tables start_child
  sfork upcall s =
      let (envid, s1) = sys_exofork (set_pgfault_handler s) in
      if is_negative envid
      then (minus_one, s1)
      else if envid == 0
      then (0, set_thisenv s1)
      else (let (whole, s2) = share_tables envid table_rounds (pdx utext) s1 in
          if whole then start_child envid upcall s2 else (minus_one, s2))
