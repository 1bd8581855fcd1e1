-- ===== src/Env.antt =====
-- kern/env.c: the table of environments, the list of free ones, and the operations that create,
-- find, free and run an environment.
pub mod Ids
pub mod Lookup
pub mod Alloc
pub mod FreeList
pub mod Release
pub mod Freeing
pub mod Freed
pub mod Running
use os2017_lab.Base.{
  ℕ, zero, suc, ◌+◌, ◌-◌, ◌*◌, ◌/◌, ◌%◌, ◌^◌, bit_or, Bool, true, false, not, ◌||◌, Option, none,
  some, leb, ◌==◌, if◌then◌else◌, has_bits, same_pointer,
}
use os2017_lab.Base.Arrays.{update}
use os2017_lab.Memlayout.{
  u32_mod, pgsize, pte_p, pte_w, pte_u, pgnum, pdx, pte_addr, pgaddr, utop, uvpt, ustacktop,
  rounddown, roundup,
}
use os2017_lab.Kernel.{
  PushRegs, Trapframe, EnvStatus, env_running, env_runnable, env_type_user, Env, Kernel, Cmd,
  kernel_panic, null_pointer, enters_user, fault, ok, and_then, pure, stop, ◌>>=◌, ◌>>◌, get,
  modify, deref,
}
use os2017_lab.Pmap.{
  alloc_zero, neg_e_no_mem, kaddr, paddr, pa2page, page2kva, incref, pte_at, store_entry,
  page_alloc, page_decref, page_insert, page_remove,
}

abbrev pub nenv : ℕ
nenv = 1024

-- 1 << ENVGENSHIFT
abbrev pub one_generation : ℕ
one_generation = 2 ^ 12

-- The selectors of inc/memlayout.h, and the interrupt flag of inc/mmu.h.
abbrev pub gd_kt : ℕ
gd_kt = 0x08

abbrev pub gd_ut : ℕ
gd_ut = 0x18

abbrev pub gd_ud : ℕ
gd_ud = 0x20

abbrev pub fl_if : ℕ
fl_if = 0x200

abbrev pub neg_e_bad_env : ℕ
neg_e_bad_env = u32_mod - 2

abbrev pub neg_e_no_free_env : ℕ
neg_e_no_free_env = u32_mod - 5

-- `r < 0` for an int held as a 32-bit word
abbrev pub is_negative : ℕ → Bool
is_negative r = leb (2 ^ 31) r

abbrev pub is_status : EnvStatus → EnvStatus → Bool
is_status EnvStatus.env_free s = elim s [ EnvStatus.env_free ↦ true | _ ↦ false ]
is_status EnvStatus.env_dying s = elim s [ EnvStatus.env_dying ↦ true | _ ↦ false ]
is_status EnvStatus.env_runnable s = elim s [ EnvStatus.env_runnable ↦ true | _ ↦ false ]
is_status EnvStatus.env_running s = elim s [ EnvStatus.env_running ↦ true | _ ↦ false ]
is_status EnvStatus.env_not_runnable s = elim s [ EnvStatus.env_not_runnable ↦ true | _ ↦ false ]

-- ENVX: the mask NENV - 1 is a remainder.
abbrev pub envx : ℕ → ℕ
envx envid = envid % nenv

abbrev pub set_env : ℕ → Env → Kernel → Kernel
set_env e v k = record k { envs = update k.envs e v }

-- The result code and what `*env_store` is set to.
unfoldable pub envid2env : ℕ → Bool → Cmd (ℕ × Option ℕ)
envid2env envid checkperm k =
    let e = envx envid in
    if envid == 0
    then ok (0, k.curenv) k
    else if is_status EnvStatus.env_free (k.envs e).env_status || not ((k.envs e).env_id == envid)
    then ok (neg_e_bad_env, none) k
    else if not checkperm
    then ok (0, some e) k
    else elim k.curenv [
      | none ↦ fault null_pointer
      | some c ↦
          if (e == c) || ((k.envs e).env_parent_id == (k.envs c).env_id)
          then ok (0, some e) k
          else ok (neg_e_bad_env, none) k
    ]

-- One round of the loop of env_init.
unfoldable pub init_env : ℕ → Kernel → Kernel
init_env e k = record k {
  envs = update k.envs e (record (k.envs e) {
    env_id = 0;
    env_parent_id = 0;
    env_type = env_type_user;
    env_status = EnvStatus.env_free;
    env_runs = 0;
    env_pgdir = none;
    env_link = k.env_free_list;
  });
  env_free_list = some e;
}

-- The loop counts `temp` down from NENV - 1 to 0.
unfoldable pub init_envs : ℕ → Kernel → Kernel
unfolding init_env
init_envs zero k = k
init_envs (suc temp) k = init_envs temp (init_env temp k)

unfoldable pub env_init : Kernel → Kernel
env_init k = init_envs nenv (record k { env_free_list = none })

-- memcpy of a whole frame
unfoldable pub copy_frame : (dst src : ℕ) → Kernel → Kernel
copy_frame dst src k = record k { mem = update k.mem dst (k.mem src) }

unfoldable pub env_setup_vm : ℕ → Cmd ℕ
env_setup_vm e = do
  page ← page_alloc alloc_zero
  elim page [
    | none ↦ pure neg_e_no_mem
    | some p ↦ do
      modify (incref p)
      page_dir ← page2kva p
      modify (λ k. copy_frame page_dir k.kern_pgdir k)
      modify (λ k. set_env e (record (k.envs e) { env_pgdir = some page_dir }) k)
      modify
          (store_entry (pte_at page_dir (pdx uvpt)) (bit_or (bit_or (paddr page_dir) pte_p) pte_u))
      pure 0
  ]

-- The generation part of the new identifier, in the slot that last had `env_id`.
unfoldable pub next_generation : ℕ → ℕ
next_generation env_id =
    let generation = (env_id + one_generation) % u32_mod / nenv * nenv in
    if (generation == 0) || is_negative generation then one_generation else generation

abbrev pub no_regs : PushRegs
no_regs = record {
  reg_edi = 0;
  reg_esi = 0;
  reg_ebp = 0;
  reg_oesp = 0;
  reg_ebx = 0;
  reg_edx = 0;
  reg_ecx = 0;
  reg_eax = 0;
}

-- The register state that env_alloc sets up, after clearing it.
abbrev pub initial_tf : Trapframe
initial_tf = record {
  tf_regs = no_regs;
  tf_es = bit_or gd_ud 3;
  tf_ds = bit_or gd_ud 3;
  tf_trapno = 0;
  tf_err = 0;
  tf_eip = 0;
  tf_cs = bit_or gd_ut 3;
  tf_eflags = bit_or 0 fl_if;
  tf_esp = ustacktop;
  tf_ss = bit_or gd_ud 3;
}

-- What env_alloc writes into the slot `e` once the address space is there.
unfoldable pub fill_env : ℕ → ℕ → Env → Env
unfolding next_generation
fill_env e parent_id v = record v {
  env_id = bit_or (next_generation v.env_id) e;
  env_parent_id = parent_id;
  env_type = env_type_user;
  env_status = env_runnable;
  env_runs = 0;
  env_tf = initial_tf;
  env_pgfault_upcall = 0;
  env_ipc_recving = false;
}

-- The body of env_alloc, given the head of the free list.
unfoldable pub alloc_slot : ℕ → Option ℕ → Cmd (ℕ × Option ℕ)
alloc_slot parent_id none = pure (neg_e_no_free_env, none)
alloc_slot parent_id (some e) = do
  r ← env_setup_vm e
  if is_negative r then pure (r, none) else do
    modify (λ s. set_env e (fill_env e parent_id (s.envs e)) s)
    modify (λ s. record s { env_free_list = (s.envs e).env_link })
    pure (0, some e)

-- The result code and what `*newenv_store` is set to.
unfoldable pub env_alloc : ℕ → Cmd (ℕ × Option ℕ)
unfolding alloc_slot
env_alloc parent_id k = alloc_slot parent_id k.env_free_list k

-- The loop of region_alloc, a round for each page of the length.
unfoldable pub map_region : (pgdir rounds va : ℕ) → Cmd (Unit {0})
map_region pgdir zero va = pure tt
map_region pgdir (suc rounds) va = do
  page ← page_alloc 0
  elim page [
    | none ↦ stop kernel_panic
    | some pp ↦ do
      ret ← page_insert pgdir pp va (bit_or (bit_or pte_u pte_w) pte_p)
      if ret == 0 then map_region pgdir rounds ((va + pgsize) % u32_mod) else stop kernel_panic
  ]

unfoldable pub region_alloc : ℕ → (va len : ℕ) → Cmd (Unit {0})
region_alloc e va len = do
  k ← get
  pgdir ← deref (k.envs e).env_pgdir
  map_region pgdir (roundup len pgsize / pgsize) (rounddown va pgsize)

-- The inner loop of env_free over the entries of one page table.
unfoldable pub unmap_entries : (pgdir pdeno pt rounds pteno : ℕ) → Cmd (Unit {0})
unmap_entries pgdir pdeno pt zero pteno = pure tt
unmap_entries pgdir pdeno pt (suc rounds) pteno = do
  k ← get
  if has_bits (k.mem pt pteno) pte_p then page_remove pgdir (pgaddr pdeno pteno 0) else pure tt
  unmap_entries pgdir pdeno pt rounds (pteno + 1)

-- One round of the outer loop: the page table in directory entry `pdeno`.
unfoldable pub free_table : (pgdir pdeno : ℕ) → Cmd (Unit {0})
free_table pgdir pdeno = do
  k ← get
  let pde = k.mem pgdir pdeno
  if not (has_bits pde pte_p) then pure tt else do
    pt ← kaddr (pte_addr pde)
    unmap_entries pgdir pdeno pt 1024 0
    modify (store_entry (pte_at pgdir pdeno) 0)
    pp ← pa2page (pte_addr pde)
    page_decref pp

unfoldable pub free_tables : (pgdir rounds pdeno : ℕ) → Cmd (Unit {0})
free_tables pgdir zero pdeno = pure tt
free_tables pgdir (suc rounds) pdeno = do
  free_table pgdir pdeno
  free_tables pgdir rounds (pdeno + 1)

-- The slot goes back to the head of the free list.
unfoldable pub release_env : ℕ → Kernel → Kernel
release_env e k = record k {
  envs =
      update k.envs e
        (record (k.envs e) { env_status = EnvStatus.env_free; env_link = k.env_free_list });
  env_free_list = some e;
}

unfoldable pub env_free : ℕ → Cmd (Unit {0})
env_free e = do
  modify (λ k. if same_pointer (some e) k.curenv then record k { cr3 = k.kern_pgdir } else k)
  k ← get
  pgdir ← deref (k.envs e).env_pgdir
  free_tables pgdir (pdx utop) 0
  modify (λ s. set_env e (record (s.envs e) { env_pgdir = none }) s)
  pp ← pa2page (paddr pgdir)
  page_decref pp
  modify (release_env e)

-- The processor stops being in the current environment.
unfoldable pub deschedule : Kernel → Kernel
deschedule k = elim k.curenv [
  | none ↦ k
  | some c ↦
      if is_status env_running (k.envs c).env_status
      then set_env c (record (k.envs c) { env_status = env_runnable }) k
      else k
]

-- The switch to `e`, with its page directory; env_pop_tf leaves the kernel.
unfoldable pub enter : {A : Type 0} → ℕ → Option ℕ → Cmd A
enter e none k = fault kernel_panic
enter e (some pgdir) k = enters_user e (record k {
  curenv = some e;
  envs = update k.envs e (record (k.envs e) {
    env_status = env_running;
    env_runs = ((k.envs e).env_runs + 1) % u32_mod;
    env_cpunum = k.cpunum;
  });
  cr3 = pgdir;
})

unfoldable pub env_run : ℕ → {A : Type 0} → Cmd A
unfolding enter
env_run e k = let s = deschedule k in enter e (s.envs e).env_pgdir s
