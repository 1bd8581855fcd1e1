-- ===== src/Examples/Processes.antt =====
-- The theorems on kern/env.c, kern/sched.c, kern/console.c and kern/syscall.c at the small machine.
use os2017_lab.Base.{
  ℕ, ◌^◌, false, ◌≤◌, ◌<◌, ◌≡◌, ◌≢◌, ◌↔◌, ◌⊎◌, refl, true, ◌&&◌, none, some, [], ◌∷◌, ◌++◌, arith,
  ◌==◌, if◌then◌else◌, same_pointer, has_bits,
}
use os2017_lab.Memlayout.{pdx, uvpt, pte_p}
use os2017_lab.Kernel.{
  EnvStatus, env_type_user, env_running, env_runnable, env_not_runnable, Cons, Kernel, ok,
  enters_user, fault, null_pointer,
}
use os2017_lab.Pmap.UserMem.{user_mem_check}
use os2017_lab.Pmap.UserMem.Range.{Grants, mask, user_mem_check_iff, user_mem_check_stops_kernel}
use os2017_lab.Pmap.View.{mmu_entry}
use os2017_lab.Pmap.FreeList.{IsFreeList}
use os2017_lab.Pmap.Mapping.{MapsTo}
use os2017_lab.Env.{neg_e_bad_env, is_status, set_env, envid2env, envx, env_alloc, env_run}
use os2017_lab.Env.Lookup.{Names, MayManage, envid2env_checked}
use os2017_lab.Env.FreeList.{IsFreeEnvs}
use os2017_lab.Env.Alloc.{self_entry, user_frame, env_alloc_creates}
use os2017_lab.Env.Running.{OneRunning, env_run_switches}
use os2017_lab.Console.{put_char}
use os2017_lab.Console.Ring.{slice, queue, count, IsRing, put_char_appends}
use os2017_lab.Syscall.{neg_e_inval, sys_env_set_status, sys_exofork, alloc_and_insert}
use os2017_lab.Syscall.Permission.{sys_env_set_status_confined}
use os2017_lab.Syscall.Memory.{alloc_and_insert_maps}
use os2017_lab.Syscall.Fork.{sys_exofork_child}
use os2017_lab.Examples.{
  small_mem, small, small-IsSpace, has_table_zero, entry_empty, full_table, full_table-IsSpace,
  full_no_table, small-IsFresh, small-IsFreeEnvs, small-OneRunning,
}

envid2env_checked_example :
    (envid2env 4097 true small ≡ ok (0, some 1) small) ↔ (Names small 4097 1 × MayManage small 0 1)
envid2env_checked_example = envid2env_checked small 0 4097 refl (omega arith) 1

env_alloc_creates_example :
    (k' : Kernel) × (id : ℕ) × (env_alloc 4096 small ≡ ok (0, some 2) k')
    × IsFreeEnvs k' (3 ∷ [])
    × (k'.envs 2 ≡ record (small.envs 2) {
      env_id = id;
      env_parent_id = 4096;
      env_type = env_type_user;
      env_status = env_runnable;
      env_runs = 0;
      env_tf = user_frame;
      env_pgdir = some 7;
      env_pgfault_upcall = 0;
      env_ipc_recving = false;
    })
    × (0 < id)
    × (id < 2 ^ 31)
    × (envx id ≡ 2)
    × (id ≢ (small.envs 2).env_id)
    × ((i : ℕ) → i ≢ 2 → k'.envs i ≡ small.envs i)
    × ((i : ℕ) → k'.mem 7 i ≡ (if i == pdx uvpt then self_entry 7 else small_mem 1 i))
env_alloc_creates_example =
    env_alloc_creates small 2 7 refl (omega arith) (omega arith) 4096 (3 ∷ []) small-IsFreeEnvs
      (omega arith) (omega arith) (omega arith)

env_run_switches_example :
    (k' : Kernel) × (env_run 1 {A = ℕ} small ≡ enters_user 1 k')
    × (k'.curenv ≡ some 1)
    × (k'.cr3 ≡ 2)
    × ((k'.envs 1).env_runs ≡ 1)
    × ((i : ℕ)
        → (k'.envs i).env_status ≡ (
            if i == 1
            then env_running
            else if same_pointer (some 0) (some i)
                && is_status env_running (small.envs i).env_status
            then env_runnable
            else (small.envs i).env_status))
    × OneRunning k'
env_run_switches_example = env_run_switches small 1 2 refl small-OneRunning

-- ENV_NOT_RUNNABLE
abbrev requested : ℕ
requested = 4

sys_env_set_status_confined_example :
    ((sys_env_set_status 4097 4 small ≡ ok neg_e_bad_env small)
      × ((e : ℕ) → ¬ (Names small 4097 e × MayManage small 0 e)))
    ⊎ ((sys_env_set_status 4097 4 small ≡ ok neg_e_inval small) × (requested ≢ 2) × (requested ≢ 4))
    ⊎ ((e : ℕ) × (st : EnvStatus) × Names small 4097 e
        × MayManage small 0 e
        × ((requested ≡ 2 × st ≡ env_runnable) ⊎ (requested ≡ 4 × st ≡ env_not_runnable))
        × (sys_env_set_status 4097 4 small
            ≡ ok 0 (set_env e (record (small.envs e) { env_status = st }) small)))
sys_env_set_status_confined_example = sys_env_set_status_confined small 0 4097 refl (omega arith) 4

alloc_and_insert_maps_example :
    (k' : Kernel) × (alloc_and_insert 0 0x2000 7 small ≡ ok 0 k')
    × ((i : ℕ) → k'.mem 7 i ≡ 0)
    × MapsTo small_mem k'.mem 2 7 0x2000 7
alloc_and_insert_maps_example =
    alloc_and_insert_maps small 2 7 small-IsFresh 0 0x2000 7 refl (omega arith) (omega arith)
      small-IsSpace has_table_zero (omega (arith, entry_empty))

-- The machine with one free page.
abbrev last_page : Kernel
last_page = record small { pages = λ i. record (small.pages i) { pp_link = none } }

last_page-IsFreeList : IsFreeList last_page (7 ∷ [])
last_page-IsFreeList = (refl, refl, refl)

sys_exofork_child_example :
    (k' : Kernel) × (sys_exofork small ≡ ok (k'.envs 2).env_id k')
    × ((k'.envs 2).env_status ≡ env_not_runnable)
    × ((k'.envs 2).env_parent_id ≡ 4096)
    × ((k'.envs 2).env_pgdir ≡ some 7)
    × ((k'.envs 2).env_tf ≡ record ((small.envs 0).env_tf) {
      tf_regs = record ((small.envs 0).env_tf.tf_regs) { reg_eax = 0 };
    })
    × ((i : ℕ) → i ≢ 2 → k'.envs i ≡ small.envs i)
sys_exofork_child_example =
    sys_exofork_child small 0 2 7 (3 ∷ []) refl (omega arith) small-IsFreeEnvs refl (omega arith)
      (omega arith) (omega arith)

-- One character waits.
abbrev one_waiting : Cons
one_waiting = record { buf = λ _. 65; rpos = 511; wpos = 0 }

one_waiting-IsRing : IsRing one_waiting
one_waiting-IsRing = record { read_in = omega arith; write_in = omega arith }

one_waiting-queue : queue one_waiting ≡ 65 ∷ []
unfolding queue count slice
one_waiting-queue = refl

put_char_appends_example :
    (queue (put_char 66 one_waiting)
      ≡ (if count one_waiting == 511 then [] else queue one_waiting ++ 66 ∷ []))
    × IsRing (put_char 66 one_waiting)
put_char_appends_example = put_char_appends one_waiting 66 one_waiting-IsRing (omega arith)

user_mem_check_iff_example :
    ((k' : Kernel) × (user_mem_check (small.envs 0) 0x1000 100 4 small ≡ ok 0 k'))
    ↔ ((a : ℕ) → 0x1000 ≤ a → a < 0x1064 → Grants small 2 (mask 4) a)
user_mem_check_iff_example =
    user_mem_check_iff (small.envs 0) small 2 0x1000 100 4 small-IsSpace refl (omega arith)
      (omega arith)

last_page_granted : Grants full_table 2 (mask 4) 0x3ff000
unfolding mmu_entry has_bits
last_page_granted = refl

zero_unmapped : has_bits (mmu_entry full_table.mem full_table.cr3 0) pte_p ≡ false
unfolding mmu_entry has_bits
zero_unmapped = refl

user_mem_check_stops_kernel_example :
    user_mem_check (small.envs 0) 0x3ff000 8192 4 full_table ≡ fault null_pointer
user_mem_check_stops_kernel_example =
    user_mem_check_stops_kernel (small.envs 0) full_table 2 0x3ff000 8192 4 full_table-IsSpace refl
      (omega arith) (omega arith) (omega arith) last_page_granted full_no_table zero_unmapped
