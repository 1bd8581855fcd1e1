-- ===== src/Examples.antt =====
-- A small machine: sixteen pages, two environments, one page table and a short free list.
pub mod Memory
pub mod Processes
pub mod Sharing
pub mod Traps
pub mod Text
pub mod Devices
pub mod Loading
pub mod Library
use os2017_lab.Base.{
  ℕ, ◌<◌, ◌≡◌, refl, true, false, ◌&&◌, none, some, [], ◌∷◌, arith, ◌==◌, if◌then◌else◌, has_bits,
}
use os2017_lab.Kernel.{
  PageInfo, EnvStatus, env_running, env_runnable, env_type_user, cpu_started, Env, Cons, Kernel,
}
use os2017_lab.Pmap.Insert.{IsFresh}
use os2017_lab.Pmap.Boot.{entry_pgdir, entry_pgtable}
use os2017_lab.Pmap.FreeList.{IsFreeList}
use os2017_lab.Pmap.View.{has_table, table, mmu_entry, IsSpace, IsSpace-dir}
use os2017_lab.Env.{initial_tf}
use os2017_lab.Env.FreeList.{IsFreeEnvs}
use os2017_lab.Env.Running.{OneRunning}

-- Frame 2 is a page directory whose first entry has the table in frame 3; that one maps address
-- 0x1000 to page 5.
abbrev pub small_mem : ℕ → ℕ → ℕ
small_mem f i = if (f == 2) && (i == 0) then 0x3007 else if (f == 3) && (i == 1) then 0x5007 else 0

-- The free pages are 7, 8 and 9.
abbrev pub small_pages : ℕ → PageInfo
small_pages i = record {
  pp_link = if i == 7 then some 8 else if i == 8 then some 9 else none;
  pp_ref =
      if (i == 0)
      then 1
      else if (i == 2)
      then 1
      else if (i == 3)
      then 1
      else if (i == 5)
      then 1
      else 0;
}

abbrev pub blank_env : Env
blank_env = record {
  env_tf = initial_tf;
  env_link = none;
  env_id = 0;
  env_parent_id = 0;
  env_type = env_type_user;
  env_status = EnvStatus.env_free;
  env_runs = 0;
  env_cpunum = 0;
  env_pgdir = none;
  env_pgfault_upcall = 0;
  env_ipc_recving = false;
  env_ipc_dstva = 0;
  env_ipc_value = 0;
  env_ipc_from = 0;
  env_ipc_perm = 0;
}

abbrev pub small_envs : ℕ → Env
small_envs i =
    if i == 0
    then record blank_env { env_id = 4096; env_status = env_running; env_pgdir = some 2 }
    else if i == 1
    then record blank_env {
      env_id = 4097;
      env_parent_id = 4096;
      env_status = env_runnable;
      env_pgdir = some 2;
    }
    else if i == 2
    then record blank_env { env_link = some 3 }
    else blank_env

abbrev pub empty_cons : Cons
empty_cons = record { buf = λ _. 0; rpos = 0; wpos = 0 }

abbrev pub small : Kernel
small = record {
  npages = 16;
  pages = small_pages;
  page_free_list = some 7;
  mem = small_mem;
  kern_pgdir = 1;
  user_mem_check_addr = 0;
  envs = small_envs;
  env_free_list = some 2;
  curenv = some 0;
  cpunum = 0;
  cpu_status = cpu_started;
  locked = true;
  cons = empty_cons;
  serial_exists = true;
  serial_input = [];
  kbd_input = [];
  cr3 = 2;
  flushed = [];
}

no_table : (i : ℕ) → 0 < i → has_table small_mem 2 i ≡ false
unfolding has_bits
no_table i h = ground arith

-- The same directory where the last entry of the table in frame 3 maps page 5.
abbrev pub full_mem : ℕ → ℕ → ℕ
full_mem f i = if (f == 3) && (i == 1023) then 0x5007 else small_mem f i

abbrev pub full_table : Kernel
full_table = record small { mem = full_mem }

pub only_table : (i : ℕ) → has_table small_mem 2 i ≡ true → (i ≡ 0) × (table small_mem 2 i ≡ 3)
only_table i there = ground (arith, no_table i)

pub small-IsSpace : IsSpace 16 small_mem 2
small-IsSpace = record {
  in_range = λ i there. omega (arith, only_table i there);
  reachable = λ i there. omega (arith, only_table i there);
  apart = λ i j low there there' same. omega (arith, only_table i there, only_table j there');
  off_dir = λ i low there. omega (arith, only_table i there);
}

pub has_table_zero : has_table small_mem 2 0 ≡ true
unfolding has_bits
has_table_zero = refl

pub no_table_one : has_table small_mem 2 1 ≡ false
no_table_one = no_table 1 (omega arith)

pub entry_there : mmu_entry small_mem 2 0x1000 ≡ 0x5007
unfolding mmu_entry has_bits
entry_there = refl

pub entry_empty : mmu_entry small_mem 2 0x2000 ≡ 0
unfolding mmu_entry has_bits
entry_empty = refl

pub present_there : has_bits (mmu_entry small_mem 2 0x1000) 1 ≡ true
unfolding mmu_entry has_bits
present_there = refl

pub absent_empty : has_bits (mmu_entry small_mem 2 0x2000) 1 ≡ false
unfolding mmu_entry has_bits
absent_empty = refl

pub small-IsFresh : IsFresh small 2 7
small-IsFresh = record {
  head = refl;
  in_range = omega arith;
  reachable = omega arith;
  ne_dir = omega arith;
  no_table = λ i there. omega (arith, only_table i there);
}

pub small-IsFreeList : IsFreeList small (7 ∷ 8 ∷ 9 ∷ [])
small-IsFreeList = (refl, refl, (refl, refl, (refl, refl, refl)))

-- The machine without a free page.
abbrev pub exhausted : Kernel
exhausted = record small { page_free_list = none }

pub small-IsFreeEnvs : IsFreeEnvs small (2 ∷ 3 ∷ [])
small-IsFreeEnvs = (refl, refl, (refl, refl, refl))

pub small-OneRunning : OneRunning small
small-OneRunning i = ground arith

full_dir : (i : ℕ) → full_mem 2 i ≡ small_mem 2 i
full_dir i = ground arith

pub full_table-IsSpace : IsSpace 16 full_mem 2
full_table-IsSpace = IsSpace-dir 16 16 small_mem full_mem 2 refl full_dir small-IsSpace

pub full_no_table : has_table full_mem 2 1 ≡ false
full_no_table = no_table 1 (omega arith)

-- The pages of the machine are 16 here too; frame 4 is the directory and frame 5 the table of
-- kern/entrypgdir.c.
abbrev pub boot_mem : ℕ → ℕ → ℕ
boot_mem f i = if f == 4 then entry_pgdir 5 i else entry_pgtable i
