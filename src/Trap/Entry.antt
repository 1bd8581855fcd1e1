-- ===== src/Trap/Entry.antt =====
-- What `trap` of kern/trap.c does for a system call.
use os2017_lab.Base.{ℕ, ◌+◌, ◌%◌, ◌≡◌, ◌≢◌, refl, ap, ◌∙◌, true, false, Option, some, arith, ◌==◌}
use os2017_lab.Kernel.{Trapframe, env_running, env_dying, Kernel, ok, and_then, enters_user}
use os2017_lab.Env.{is_status, set_env, env_run, deschedule}
use os2017_lab.Env.Running.{switched, env_run-switched}
use os2017_lab.Syscall.{syscall}
use os2017_lab.Trap.{
  t_pgflt, t_brkpt, t_syscall, irq_spurious, irq_offset, answer, wake, trap_dispatch,
  enter_from_user, leave_to, leave, trap,
}

-- The state in which the trap of environment `c` is dispatched.
abbrev pub entered : (c : ℕ) → Trapframe → Kernel → Kernel
entered c tf k = let s = wake k in set_env c (record (s.envs c) { env_tf = tf }) s

module _ (fault_va : ℕ) (src : Option ℕ) (tf : Trapframe) (s : Kernel) where
  trap_dispatch-syscall :
      (r : ℕ) (k' : Kernel)
      → tf.tf_trapno ≡ t_syscall
      → let g = tf.tf_regs in
        syscall g.reg_eax g.reg_edx g.reg_ecx g.reg_ebx g.reg_edi g.reg_esi s ≡ ok r k'
        → trap_dispatch fault_va src tf s ≡ ok tt (answer src r k')
  unfolding trap_dispatch
  trap_dispatch-syscall r k' call returns =
      let spurious : (tf.tf_trapno == irq_offset + irq_spurious) ≡ false = ground arith in
      let page : (tf.tf_trapno == t_pgflt) ≡ false = ground arith in
      let breakpoint : (tf.tf_trapno == t_brkpt) ≡ false = ground arith in
      let this : (tf.tf_trapno == t_syscall) ≡ true = ground arith in
      simp (spurious, page, breakpoint, this, returns)

leave-running :
    {A : Type 0} (s : Kernel) (c : ℕ)
    → s.curenv ≡ some c
    → (s.envs c).env_status ≡ env_running
    → leave {A = A} s ≡ env_run c s
unfolding leave leave_to
leave-running s c now running =
    let test : is_status env_running (s.envs c).env_status ≡ true = ground arith in
    ap (λ o. leave_to o s) now ∙ rw test refl

module _ (k : Kernel) (tf : Trapframe) (fault_va c : ℕ) (user : tf.tf_cs % 4 ≡ 3)
    (now : k.curenv ≡ some c) where
  enter_from_user-ok :
      (k.envs c).env_status ≢ env_dying → enter_from_user tf (wake k) ≡ ok (some c) (entered c tf k)
  unfolding enter_from_user
  enter_from_user-ok alive = ground arith

  trap-dispatched :
      {A : Type 0}
      → (k.envs c).env_status ≢ env_dying
      → trap fault_va tf {A = A} k
        ≡ and_then (trap_dispatch fault_va (some c) tf (entered c tf k)) (λ _. leave)
  unfolding trap
  trap-dispatched alive =
      let test : (tf.tf_cs % 4 == 3) ≡ true = ground arith in simp (test, enter_from_user-ok alive)

  -- The system call's result goes where `answer` puts it, and the environment is resumed.
  trap_resumes :
      {A : Type 0} (r : ℕ) (k' : Kernel)
      → tf.tf_trapno ≡ t_syscall
      → (k.envs c).env_status ≢ env_dying
      → let g = tf.tf_regs in
        syscall g.reg_eax g.reg_edx g.reg_ecx g.reg_ebx g.reg_edi g.reg_esi (entered c tf k)
          ≡ ok r k'
        → k'.curenv ≡ some c
        → (k'.envs c).env_status ≡ env_running
        → trap fault_va tf {A = A} k ≡ env_run c (answer (some c) r k')
  trap_resumes r k' call alive returns still running =
      trap-dispatched alive
      ∙ ap (λ run. and_then run (λ _. leave))
          (trap_dispatch-syscall fault_va (some c) tf (entered c tf k) r k' call returns)
      ∙ leave-running (answer (some c) r k') c still (ground arith)

  -- For a system call trap from user mode of a current environment that is not dying: where the
  -- call, made with the numbers that the trap frame has in %eax, %edx, %ecx, %ebx, %edi and %esi,
  -- returns `r` and leaves the environment current, running and with a page directory, `trap` enters
  -- user mode in that environment, which is current, with its page directory loaded. Its saved frame
  -- is the one that the call left but for `r` in %eax; the other environments and the memory are as
  -- the call left them.
  pub trap_answers :
      {A : Type 0} (r pgdir : ℕ) (k' : Kernel)
      → tf.tf_trapno ≡ t_syscall
      → (k.envs c).env_status ≢ env_dying
      → let g = tf.tf_regs in
        syscall g.reg_eax g.reg_edx g.reg_ecx g.reg_ebx g.reg_edi g.reg_esi (entered c tf k)
          ≡ ok r k'
        → k'.curenv ≡ some c
        → (k'.envs c).env_status ≡ env_running
        → (k'.envs c).env_pgdir ≡ some pgdir
        → (u : Kernel) × (trap fault_va tf {A = A} k ≡ enters_user c u)
          × (u.curenv ≡ some c)
          × (u.cr3 ≡ pgdir)
          × ((u.envs c).env_tf ≡ record ((k'.envs c).env_tf) {
            tf_regs = record ((k'.envs c).env_tf.tf_regs) { reg_eax = r };
          })
          × ((i : ℕ) → i ≢ c → u.envs i ≡ k'.envs i)
          × (u.mem ≡ k'.mem)
  unfolding switched deschedule
  trap_answers r pgdir k' call alive returns still running own =
      let s = answer (some c) r k' in
      let dir : (s.envs c).env_pgdir ≡ some pgdir = ground (arith, own) in
      (
        switched c pgdir s,
        trap_resumes r k' call alive returns still running ∙ env_run-switched s c pgdir dir,
        refl,
        refl,
        ground arith,
        λ i other. ground (arith, still),
        ground arith,
      )
