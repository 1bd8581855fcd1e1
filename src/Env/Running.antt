-- ===== src/Env/Running.antt =====
-- env_run of kern/env.c: the switch from one environment to another.
use os2017_lab.Base.{
  ℕ, ◌+◌, ◌%◌, ◌≡◌, refl, ap, ◌∙◌, some, arith, ◌==◌, if◌then◌else◌, same_pointer, ◌&&◌,
}
use os2017_lab.Base.Arrays.{update}
use os2017_lab.Memlayout.{u32_mod}
use os2017_lab.Kernel.{env_runnable, env_running, Kernel, enters_user}
use os2017_lab.Env.{is_status, deschedule, enter, env_run}

-- No environment but the current one is in the state ENV_RUNNING.
abbrev pub OneRunning : Kernel → Type 0
OneRunning k = (i : ℕ) → (k.envs i).env_status ≡ env_running → k.curenv ≡ some i

-- The state that env_run enters user mode with.
unfoldable pub switched : (e pgdir : ℕ) → Kernel → Kernel
switched e pgdir k =
    let s = deschedule k in
    record s {
      curenv = some e;
      envs = update s.envs e (record (s.envs e) {
        env_status = env_running;
        env_runs = ((s.envs e).env_runs + 1) % u32_mod;
        env_cpunum = s.cpunum;
      });
      cr3 = pgdir;
    }

deschedule_pgdir : (k : Kernel) (e : ℕ) → ((deschedule k).envs e).env_pgdir ≡ (k.envs e).env_pgdir
unfolding deschedule
deschedule_pgdir k e = ground arith

pub env_run-switched :
    {A : Type 0} (k : Kernel) (e pgdir : ℕ)
    → (k.envs e).env_pgdir ≡ some pgdir
    → env_run e {A = A} k ≡ enters_user e (switched e pgdir k)
unfolding env_run switched enter
env_run-switched k e pgdir own = ap (λ o. enter e o (deschedule k)) (deschedule_pgdir k e ∙ own)

switched-OneRunning : (k : Kernel) (e pgdir : ℕ) → OneRunning k → OneRunning (switched e pgdir k)
unfolding switched deschedule
switched-OneRunning k e pgdir one i = ground (arith, one i)

-- Where at most the current environment is in the state ENV_RUNNING, which stays so, env_run of an
-- environment with a page directory enters user mode in it, with that directory loaded, the
-- environment current and in the state ENV_RUNNING. Its run count goes up by one in 32 bits; an
-- environment that was running before becomes runnable, and no other status changes.
pub env_run_switches :
    {A : Type 0} (k : Kernel) (e pgdir : ℕ)
    → (k.envs e).env_pgdir ≡ some pgdir
    → OneRunning k
    → (k' : Kernel) × (env_run e {A = A} k ≡ enters_user e k')
      × (k'.curenv ≡ some e)
      × (k'.cr3 ≡ pgdir)
      × ((k'.envs e).env_runs ≡ ((k.envs e).env_runs + 1) % u32_mod)
      × ((i : ℕ)
          → (k'.envs i).env_status ≡ (
              if i == e
              then env_running
              else if same_pointer k.curenv (some i) && is_status env_running (k.envs i).env_status
              then env_runnable
              else (k.envs i).env_status))
      × OneRunning k'
unfolding switched deschedule
env_run_switches k e pgdir own one = (
  switched e pgdir k,
  env_run-switched k e pgdir own,
  refl,
  refl,
  ground arith,
  λ i. ground arith,
  switched-OneRunning k e pgdir one,
)
