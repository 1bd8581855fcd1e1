-- ===== src/Syscall/Fork.antt =====
-- sys_exofork of kern/syscall.c: the child that it makes.
use os2017_lab.Base.{ℕ, ◌<◌, ◌≡◌, ◌≢◌, some, List, ◌∷◌, arith}
use os2017_lab.Kernel.{Kernel, env_not_runnable, ok}
use os2017_lab.Pmap.{kernel_frames}
use os2017_lab.Env.{fill_env, set_env}
use os2017_lab.Env.FreeList.{IsFreeEnvs}
use os2017_lab.Env.Alloc.{env_alloc_fills}
use os2017_lab.Syscall.{caller, return_zero, sys_exofork}

-- What sys_exofork makes of the state that env_alloc has left.
child_made : (c e : ℕ) → Kernel → Kernel
child_made c e k =
    let s = set_env e (record (k.envs e) { env_status = env_not_runnable }) k in
    let t = set_env e (record (s.envs e) { env_tf = (s.envs c).env_tf }) s in
    set_env e (record (t.envs e) { env_tf = return_zero (t.envs e).env_tf }) t

-- With a free slot other than the caller's, and a free page that the kernel reaches and that is not
-- the kernel's page directory, sys_exofork returns the new environment's identifier. The child is
-- not runnable, has the caller as its parent, the new page as its page directory, and the caller's
-- registers but for a 0 in %eax; no other environment changes.
pub sys_exofork_child :
    (k : Kernel) (c e p : ℕ) (es : List ℕ)
    → k.curenv ≡ some c
    → c ≢ e
    → IsFreeEnvs k (e ∷ es)
    → k.page_free_list ≡ some p
    → p < k.npages
    → p < kernel_frames
    → p ≢ k.kern_pgdir
    → (k' : Kernel) × (sys_exofork k ≡ ok (k'.envs e).env_id k')
      × ((k'.envs e).env_status ≡ env_not_runnable)
      × ((k'.envs e).env_parent_id ≡ (k.envs c).env_id)
      × ((k'.envs e).env_pgdir ≡ some p)
      × ((k'.envs e).env_tf ≡ record ((k.envs c).env_tf) {
        tf_regs = record ((k.envs c).env_tf.tf_regs) { reg_eax = 0 };
      })
      × ((i : ℕ) → i ≢ e → k'.envs i ≡ k.envs i)
unfolding sys_exofork caller fill_env child_made
sys_exofork_child k c e p es now other free head in_range reachable apart =
    let (s, runs, rest, slot, others, frame) =
      env_alloc_fills k e p head in_range reachable (k.envs c).env_id es free apart in
    (
      child_made c e s,
      simp (now, runs),
      ground arith,
      ground (arith, slot),
      ground (arith, slot),
      ground (arith, others c other),
      λ i h. ground (arith, others i h),
    )
