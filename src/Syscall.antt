-- ===== src/Syscall.antt =====
-- kern/syscall.c: the system calls and their dispatcher. What sys_cputs and the messages print is
-- not modelled. A result is an int32_t as a 32-bit word.
pub mod Permission
pub mod Memory
pub mod Share
pub mod CopyOnWrite
pub mod Fork
use os2017_lab.Base.{
  ℕ, ◌-◌, ◌%◌, bit_and, Bool, true, false, not, ◌&&◌, ◌||◌, Option, none, some, leb, ◌==◌,
  if◌then◌else◌, has_bits,
}
use os2017_lab.Memlayout.{u32_mod, pgsize, pte_p, pte_w, pte_u, pte_syscall, utop}
use os2017_lab.Kernel.{
  PushRegs, Trapframe, EnvStatus, env_runnable, env_not_runnable, Env, Kernel, Cmd, kernel_panic,
  ok, and_then, pure, stop, ◌>>=◌, ◌>>◌, get, modify, deref,
}
use os2017_lab.Pmap.{
  alloc_zero, neg_e_no_mem, entry, page_alloc, page_free, page_insert, page_lookup, page_remove,
}
use os2017_lab.Env.{is_negative, neg_e_bad_env, set_env, envid2env, env_alloc}
use os2017_lab.Sched.{sched_yield}
use os2017_lab.Destroy.{env_destroy, user_mem_assert}
use os2017_lab.Console.{cons_getc}

abbrev pub neg_e_inval : ℕ
neg_e_inval = u32_mod - 3

-- `perm & ~PTE_SYSCALL`
abbrev pub other_bits : ℕ → ℕ
other_bits perm = bit_and perm (u32_mod - 1 - pte_syscall)

-- `va >= UTOP || va % PGSIZE`
abbrev pub bad_user_page : ℕ → Bool
bad_user_page va = leb utop va || not (va % pgsize == 0)

-- The environment that made the call.
unfoldable pub caller : Cmd ℕ
caller = do k ← get; deref k.curenv

unfoldable pub sys_cputs : (s len : ℕ) → Cmd (Unit {0})
unfolding caller
sys_cputs s len = do c ← caller; user_mem_assert c s len pte_u

unfoldable pub sys_getenvid : Cmd ℕ
unfolding caller
sys_getenvid = do c ← caller; k ← get; pure (k.envs c).env_id

-- envid2env with the permission check, for a caller that stops at an error with the given code.
unfoldable pub managed : {A : Type 0} → ℕ → (ℕ → A) → (ℕ → Cmd A) → Cmd A
managed envid failed next = do
  (r, e) ← envid2env envid true
  if is_negative r then pure (failed r) else (do p ← deref e; next p)

unfoldable pub sys_env_destroy : ℕ → Cmd ℕ
sys_env_destroy envid = managed envid (λ r. r) λ e. env_destroy e >> pure 0

-- `tf_regs.reg_eax = 0`
abbrev pub return_zero : Trapframe → Trapframe
return_zero tf = record tf { tf_regs = record (tf.tf_regs) { reg_eax = 0 } }

unfoldable pub sys_exofork : Cmd ℕ
unfolding caller
sys_exofork = do
  c ← caller
  k ← get
  (err, child) ← env_alloc (k.envs c).env_id
  if is_negative err then pure err else do
    e ← deref child
    modify (λ s. set_env e (record (s.envs e) { env_status = env_not_runnable }) s)
    modify (λ s. set_env e (record (s.envs e) { env_tf = (s.envs c).env_tf }) s)
    modify (λ s. set_env e (record (s.envs e) { env_tf = return_zero (s.envs e).env_tf }) s)
    s ← get
    pure (s.envs e).env_id

-- The numbers of the two states that sys_env_set_status accepts.
abbrev pub settable : ℕ → Option EnvStatus
settable status =
    if status == 2 then some env_runnable else if status == 4 then some env_not_runnable else none

unfoldable pub set_status : ℕ → Option EnvStatus → Cmd ℕ
set_status e none = pure neg_e_inval
set_status e (some st) = do
  modify (λ k. set_env e (record (k.envs e) { env_status = st }) k)
  pure 0

unfoldable pub sys_env_set_status : (envid status : ℕ) → Cmd ℕ
unfolding set_status
sys_env_set_status envid status =
    managed envid (λ r. neg_e_bad_env) λ e. set_status e (settable status)

unfoldable pub sys_env_set_pgfault_upcall : (envid func : ℕ) → Cmd ℕ
sys_env_set_pgfault_upcall envid func =
    managed envid (λ r. neg_e_bad_env)
      λ e. do
        modify (λ k. set_env e (record (k.envs e) { env_pgfault_upcall = func }) k)
        user_mem_assert e func 4 0
        pure 0

-- `e->env_pgdir`, about to be followed
unfoldable pub pgdir_of : ℕ → Cmd ℕ
pgdir_of e = do k ← get; deref (k.envs e).env_pgdir

unfoldable pub alloc_and_insert : (e va perm : ℕ) → Cmd ℕ
alloc_and_insert e va perm = do
  page ← page_alloc alloc_zero
  elim page [
    | none ↦ pure neg_e_no_mem
    | some pp ↦ do
      pgdir ← pgdir_of e
      r ← page_insert pgdir pp va perm
      if is_negative r then page_free pp >> pure neg_e_no_mem else pure 0
  ]

-- sys_page_alloc for the environment `e` that it has found.
unfoldable pub page_alloc_for : (e va perm : ℕ) → Cmd ℕ
page_alloc_for e va perm =
    if bad_user_page va
    then pure neg_e_inval
    else if not (has_bits perm pte_u) || not (has_bits perm pte_p)
    then pure neg_e_inval
    else if not (other_bits perm == 0)
    then pure neg_e_no_mem
    else alloc_and_insert e va perm

unfoldable pub sys_page_alloc : (envid va perm : ℕ) → Cmd ℕ
sys_page_alloc envid va perm = managed envid (λ r. neg_e_bad_env) λ e. page_alloc_for e va perm

-- The end of sys_page_map, with the entry of the source page.
unfoldable pub share_page : (srcenv dstenv srcva dstva perm : ℕ) → Cmd ℕ
share_page srcenv dstenv srcva dstva perm = do
  src ← pgdir_of srcenv
  found ← page_lookup src srcva
  elim found [
    | none ↦ pure neg_e_inval
    | some (pp, pte) ↦ do
      k ← get
      if has_bits perm pte_w && not (has_bits (entry k pte) pte_w) then pure neg_e_inval else (do
        dst ← pgdir_of dstenv
        r ← page_insert dst pp dstva perm
        pure (if r == 0 then 0 else neg_e_no_mem))
  ]

unfoldable pub sys_page_map : (srcenvid srcva dstenvid dstva perm : ℕ) → Cmd ℕ
sys_page_map srcenvid srcva dstenvid dstva perm =
    managed srcenvid (λ r. neg_e_bad_env)
      λ srcenv.
        managed dstenvid (λ r. neg_e_bad_env)
          λ dstenv.
            if bad_user_page srcva || bad_user_page dstva
            then pure neg_e_inval
            else if not (has_bits perm pte_u)
                || not (has_bits perm pte_p)
                || not (other_bits perm == 0)
            then pure neg_e_inval
            else share_page srcenv dstenv srcva dstva perm

unfoldable pub sys_page_unmap : (envid va : ℕ) → Cmd ℕ
sys_page_unmap envid va =
    managed envid (λ r. neg_e_bad_env)
      λ e.
        if bad_user_page va
        then pure neg_e_inval
        else (do pgdir ← pgdir_of e; page_remove pgdir va; pure 0)

-- These two calls only panic.
unfoldable pub sys_ipc_try_send : (envid value srcva perm : ℕ) → Cmd ℕ
sys_ipc_try_send envid value srcva perm = stop kernel_panic

unfoldable pub sys_ipc_recv : ℕ → Cmd ℕ
sys_ipc_recv dstva = stop kernel_panic

unfoldable pub syscall : (syscallno a1 a2 a3 a4 a5 : ℕ) → Cmd ℕ
syscall syscallno a1 a2 a3 a4 a5 =
    if syscallno == 0
    then sys_cputs a1 a2 >> pure 0
    else if syscallno == 1
    then cons_getc
    else if syscallno == 2
    then sys_getenvid
    else if syscallno == 3
    then sys_env_destroy a1
    else if syscallno == 4
    then sys_page_alloc a1 a2 a3
    else if syscallno == 5
    then sys_page_map a1 a2 a3 a4 a5
    else if syscallno == 6
    then sys_page_unmap a1 a2
    else if syscallno == 7
    then sys_exofork
    else if syscallno == 8
    then sys_env_set_status a1 a2
    else if syscallno == 9
    then sys_env_set_pgfault_upcall a1 a2
    else if syscallno == 10
    then sched_yield
    else if syscallno == 11
    then sys_ipc_try_send a1 a2 a3 a4
    else if syscallno == 12
    then sys_ipc_recv a1
    else stop kernel_panic
