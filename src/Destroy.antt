-- ===== src/Destroy.antt =====
-- env_destroy of kern/env.c and user_mem_assert of kern/pmap.c, which ends an environment.
use os2017_lab.Base.{ℕ, bit_or, not, ◌&&◌, some, none, if◌then◌else◌, same_pointer}
use os2017_lab.Memlayout.{pte_u}
use os2017_lab.Kernel.{env_running, env_dying, Cmd, pure, ◌>>=◌, ◌>>◌, get, modify}
use os2017_lab.Pmap.UserMem.{user_mem_check}
use os2017_lab.Env.{is_negative, is_status, set_env, env_free}
use os2017_lab.Sched.{sched_yield}

unfoldable pub env_destroy : ℕ → Cmd (Unit {0})
env_destroy e = do
  k ← get
  if is_status env_running (k.envs e).env_status && not (same_pointer k.curenv (some e))
      then modify (set_env e (record (k.envs e) { env_status = env_dying }))
      else (do
        env_free e
        s ← get
        if same_pointer s.curenv (some e)
            then modify (λ t. record t { curenv = none }) >> sched_yield
            else pure tt)

unfoldable pub user_mem_assert : (e va len perm : ℕ) → Cmd (Unit {0})
user_mem_assert e va len perm = do
  k ← get
  r ← user_mem_check (k.envs e) va len (bit_or perm pte_u)
  if is_negative r then env_destroy e else pure tt
