-- ===== src/User.antt =====
-- User environments: lib/fork.c and lib/ipc.c, over the system calls of lib/syscall.c and what a
-- user program sees of its page tables.
pub mod Fork
pub mod Ipc
pub mod Dumbfork
pub mod Pgfault
pub mod Cow
pub mod CopySpace
pub mod CopyLoops
use os2017_lab.Base.{ℕ, Option}

-- What the library asks of the kernel, with `S` for the state of the machine. A system call returns
-- an int32_t as a 32-bit word; sys_exofork returns 0 in the child. `uvpt` and `uvpd` are the page
-- tables of the caller, and `copy_page` is a memmove of PGSIZE bytes, the destination first.
pub record Sys (S : Type 0) : Type 0 where
  pub sys_getenvid : S → ℕ
  pub sys_exofork : S → ℕ × S
  pub sys_page_alloc : (envid va perm : ℕ) → S → ℕ × S
  pub sys_page_map : (srcenv srcva dstenv dstva perm : ℕ) → S → ℕ × S
  pub sys_page_unmap : (envid va : ℕ) → S → ℕ × S
  pub sys_env_set_status : (envid status : ℕ) → S → ℕ × S
  pub sys_env_set_pgfault_upcall : (envid func : ℕ) → S → ℕ × S
  pub sys_ipc_recv : (dstva : ℕ) → S → ℕ × S
  pub sys_ipc_try_send : (envid value srcva perm : ℕ) → S → ℕ × S
  pub sys_yield : S → S
  pub uvpt : S → ℕ → ℕ
  pub uvpd : S → ℕ → ℕ
  pub copy_page : (dst src : ℕ) → S → S
  pub set_pgfault_handler : S → S
  pub set_thisenv : S → S
  pub env_ipc_value : S → ℕ
  pub env_ipc_from : S → ℕ
  pub env_ipc_perm : S → ℕ

-- How user code ends: it returns, it panics, or the fuel runs out.
pub data UserRun (S : Type 0) : Type 0 where
  returns : ℕ → S → UserRun S
  panics : UserRun S
  out_of_fuel : UserRun S
