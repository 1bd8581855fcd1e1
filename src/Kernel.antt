-- ===== src/Kernel.antt =====
-- The state of the kernel as one record (kern/pmap.c, kern/env.c, inc/memlayout.h, inc/env.h,
-- inc/trap.h), and the monad of kernel code over it. A pointer into `pages[]` or `envs[]` is the
-- index of the element, `none` stands for NULL. A pointer to a page-aligned kernel address is the
-- number of the physical page (frame) behind it. Physical memory is an array of frames of 1024
-- words.
use os2017_lab.Base.{ℕ, Option, List, Bool, if◌then◌else◌, none, some}

-- struct PageInfo
pub record PageInfo : Type 0 where
  pub pp_link : Option ℕ
  pub pp_ref : ℕ

-- struct PushRegs
pub record PushRegs : Type 0 where
  pub reg_edi : ℕ
  pub reg_esi : ℕ
  pub reg_ebp : ℕ
  pub reg_oesp : ℕ
  pub reg_ebx : ℕ
  pub reg_edx : ℕ
  pub reg_ecx : ℕ
  pub reg_eax : ℕ

-- struct Trapframe, without its padding
pub record Trapframe : Type 0 where
  pub tf_regs : PushRegs
  pub tf_es : ℕ
  pub tf_ds : ℕ
  pub tf_trapno : ℕ
  pub tf_err : ℕ
  pub tf_eip : ℕ
  pub tf_cs : ℕ
  pub tf_eflags : ℕ
  pub tf_esp : ℕ
  pub tf_ss : ℕ

-- The values of env_status.
pub data EnvStatus : Type 0 where
  env_free env_dying env_runnable env_running env_not_runnable : EnvStatus

-- enum EnvType
pub data EnvType : Type 0 where
  env_type_user env_type_idle env_type_yield : EnvType

-- The values of cpu_status.
pub data CpuStatus : Type 0 where
  cpu_unused cpu_started cpu_halted : CpuStatus

-- struct Env
pub record Env : Type 0 where
  pub env_tf : Trapframe
  pub env_link : Option ℕ
  pub env_id : ℕ
  pub env_parent_id : ℕ
  pub env_type : EnvType
  pub env_status : EnvStatus
  pub env_runs : ℕ
  pub env_cpunum : ℕ
  pub env_pgdir : Option ℕ
  pub env_pgfault_upcall : ℕ
  pub env_ipc_recving : Bool
  pub env_ipc_dstva : ℕ
  pub env_ipc_value : ℕ
  pub env_ipc_from : ℕ
  pub env_ipc_perm : ℕ

-- The circular buffer of console input.
pub record Cons : Type 0 where
  pub buf : ℕ → ℕ
  pub rpos : ℕ
  pub wpos : ℕ

-- The global variables, the physical memory, and what the processor holds: the page directory in
-- CR3 and the addresses that `invlpg` was called on, last first. `serial_input` and `kbd_input` are
-- what the serial port and the keyboard answer at the next poll, up to their -1.
pub record Kernel : Type 0 where
  pub npages : ℕ
  pub pages : ℕ → PageInfo
  pub page_free_list : Option ℕ
  pub mem : ℕ → ℕ → ℕ
  pub kern_pgdir : ℕ
  pub user_mem_check_addr : ℕ
  pub envs : ℕ → Env
  pub env_free_list : Option ℕ
  pub curenv : Option ℕ
  pub cpunum : ℕ
  pub cpu_status : CpuStatus
  pub locked : Bool
  pub cons : Cons
  pub serial_exists : Bool
  pub serial_input : List ℕ
  pub kbd_input : List ℕ
  pub cr3 : ℕ
  pub flushed : List ℕ

-- Why the kernel stops: `panic`, a failed `assert`, or an access through a bad pointer.
pub data Fault : Type 0 where
  kernel_panic assertion null_pointer wild_pointer : Fault

-- How a stretch of kernel code ends: it returns, it leaves the kernel for user mode of an
-- environment (`iret`), it halts this processor, it stays in the monitor for good, it stops by a
-- fault, or the model's fuel runs out.
pub data Run {ℓ} (A : Type ℓ) : Type ℓ where
  ok : A → Kernel → Run A
  enters_user : ℕ → Kernel → Run A
  halts : Kernel → Run A
  stays_in_monitor : Kernel → Run A
  fault : Fault → Run A
  out_of_fuel : Run A

abbrev pub Cmd : Type 0 → Type 0
Cmd A = Kernel → Run A

abbrev pub pure : {A : Type 0} → A → Cmd A
pure a k = ok a k

abbrev pub stop : {A : Type 0} → Fault → Cmd A
stop f k = fault f

-- Only code that returns goes on.
abbrev pub and_then : {A B : Type 0} → Run A → (A → Cmd B) → Run B
and_then (ok a k) f = f a k
and_then (enters_user e k) f = enters_user e k
and_then (halts k) f = halts k
and_then (stays_in_monitor k) f = stays_in_monitor k
and_then (fault x) f = fault x
and_then out_of_fuel f = out_of_fuel

infixl 5 ◌>>=◌ ◌>>◌
abbrev pub ◌>>=◌ : {A B : Type 0} → Cmd A → (A → Cmd B) → Cmd B
◌>>=◌ m f k = and_then (m k) f

abbrev pub ◌>>◌ : {B : Type 0} → Cmd (Unit {0}) → Cmd B → Cmd B
m >> n = m >>= λ _. n

-- The state as a value, for conditions on it.
abbrev pub get : Cmd Kernel
get k = ok k k

abbrev pub modify : (Kernel → Kernel) → Cmd (Unit {0})
modify f k = ok tt (f k)

abbrev pub assert : Bool → Cmd (Unit {0})
assert b k = if b then ok tt k else fault assertion

-- A pointer that is about to be followed.
abbrev pub deref : Option ℕ → Cmd ℕ
deref none k = fault null_pointer
deref (some p) k = ok p k
