-- ===== src/Sched.antt =====
-- kern/sched.c: the round-robin choice of the next environment, and the halt of an idle processor.
pub mod RoundRobin
use os2017_lab.Base.{
  ℕ, zero, suc, ◌+◌, ◌%◌, Bool, true, false, not, ◌||◌, Option, none, some, ◌==◌, if◌then◌else◌,
}
use os2017_lab.Kernel.{
  EnvStatus, env_runnable, env_running, env_dying, cpu_halted, Kernel, Cmd, ok, halts,
  stays_in_monitor, out_of_fuel, and_then, pure, ◌>>=◌, get,
}
use os2017_lab.Env.{nenv, envx, is_status, env_run}

abbrev pub status_of : Kernel → ℕ → EnvStatus
status_of k i = (k.envs i).env_status

-- The loop of sched_yield on fuel; `some i` is the environment that it runs.
unfoldable pub search_loop : (fuel start i : ℕ) → Bool → Cmd (Option ℕ)
search_loop zero start i first k = out_of_fuel
search_loop (suc fuel) start i first k =
    let rest = search_loop fuel start ((i + 1) % nenv) false k in
    if not (i == start) || first
    then (if is_status env_runnable (status_of k i) then ok (some i) k else rest)
    else ok none k

-- Whether the loop of sched_halt finds an environment that may still run, from index `i` on.
unfoldable pub any_alive : (rounds i : ℕ) → Kernel → Bool
any_alive zero i k = false
any_alive (suc rounds) i k =
    is_status env_runnable (status_of k i)
    || is_status env_running (status_of k i)
    || is_status env_dying (status_of k i)
    || any_alive rounds (i + 1) k

unfoldable pub sched_halt : {A : Type 0} → Cmd A
sched_halt k =
    if any_alive nenv 0 k
    then halts
        (record k { curenv = none; cr3 = k.kern_pgdir; cpu_status = cpu_halted; locked = false })
    else stays_in_monitor k

-- Where the search starts: the slot of the environment that this processor runs.
unfoldable pub start_of : Kernel → ℕ
start_of k = elim k.curenv [ none ↦ 0 | some c ↦ envx (k.envs c).env_id ]

-- What follows a loop that found nothing.
unfoldable pub run_idle : {A : Type 0} → Cmd A
run_idle k = elim k.curenv [
  | none ↦ sched_halt k
  | some c ↦ if is_status env_running (status_of k c) then env_run c k else sched_halt k
]

unfoldable pub resume : {A : Type 0} → Option ℕ → Cmd A
resume none = run_idle
resume (some i) = env_run i

-- A search goes through each of the NENV slots once and stops in the round after that.
unfoldable pub sched_yield : {A : Type 0} → Cmd A
sched_yield = do
  k ← get
  found ← search_loop (suc nenv) (start_of k) (start_of k) true
  resume found
