-- ===== src/Env/Alloc.antt =====
-- env_alloc and env_setup_vm of kern/env.c: the environment and the address space that a successful
-- call leaves, and the state after a failed one.
use os2017_lab.Base.{
  ℕ, ◌<◌, ◌≡◌, ◌≢◌, ◌^◌, ◌∙◌, false, bit_or, none, some, List, [], ◌∷◌, arith, ◌==◌, if◌then◌else◌,
}
use os2017_lab.Base.Chain.{Chain-frame}
use os2017_lab.Memlayout.{pte_p, pte_u, pdx, uvpt}
use os2017_lab.Kernel.{Kernel, ok, Trapframe, Env, env_runnable, env_type_user}
use os2017_lab.Pmap.{
  kernel_frames, alloc_zero, neg_e_no_mem, paddr, pte_at, store_entry, incref, set_ref, clear_frame,
  page_alloc,
}
use os2017_lab.Pmap.Walk.{popped, page_alloc-zeroed, page2kva-ok, has_bits-alloc_zero}
use os2017_lab.Env.{
  neg_e_no_free_env, set_env, copy_frame, env_setup_vm, fill_env, env_alloc, nenv, envx,
}
use os2017_lab.Env.Ids.{fill_env_id}
use os2017_lab.Env.FreeList.{IsFreeEnvs}

-- The page directory that env_setup_vm makes in frame `p`.
abbrev pub self_entry : ℕ → ℕ
self_entry p = bit_or (bit_or (paddr p) pte_p) pte_u

-- The frame that a new environment starts with, as a user program should find it.
abbrev pub user_frame : Trapframe
user_frame = record {
  tf_regs = record {
    reg_edi = 0;
    reg_esi = 0;
    reg_ebp = 0;
    reg_oesp = 0;
    reg_ebx = 0;
    reg_edx = 0;
    reg_ecx = 0;
    reg_eax = 0;
  };
  tf_es = 0x23;
  tf_ds = 0x23;
  tf_trapno = 0;
  tf_err = 0;
  tf_eip = 0;
  tf_cs = 0x1b;
  tf_eflags = 0x200;
  tf_esp = 0xeebfe000;
  tf_ss = 0x23;
}

fill_env_fields :
    (e parent_id : ℕ) (v : Env)
    → fill_env e parent_id v ≡ record v {
      env_id = (fill_env e parent_id v).env_id;
      env_parent_id = parent_id;
      env_type = env_type_user;
      env_status = env_runnable;
      env_runs = 0;
      env_tf = user_frame;
      env_pgfault_upcall = 0;
      env_ipc_recving = false;
    }
unfolding fill_env
fill_env_fields e parent_id v = λ i. fill_env e parent_id v

after_setup : ℕ → ℕ → Kernel → Kernel
after_setup e p k =
    let taken = incref p (clear_frame p (popped p k)) in
    let copied = copy_frame p k.kern_pgdir taken in
    store_entry (pte_at p (pdx uvpt)) (self_entry p)
      (set_env e (record (copied.envs e) { env_pgdir = some p }) copied)

module _ (k : Kernel) (e p : ℕ) (head : k.page_free_list ≡ some p) (in_range : p < k.npages)
    (reachable : p < kernel_frames) where
  env_setup_vm-ok : env_setup_vm e k ≡ ok 0 (after_setup e p k)
  unfolding env_setup_vm after_setup clear_frame incref set_ref popped
  env_setup_vm-ok = simp (
    page_alloc-zeroed alloc_zero k p head has_bits-alloc_zero in_range reachable,
    page2kva-ok p (incref p (clear_frame p (popped p k))) in_range reachable,
  )

  after_alloc : ℕ → Kernel
  after_alloc parent_id =
      let s = after_setup e p k in
      let filled = set_env e (fill_env e parent_id (s.envs e)) s in
      record filled { env_free_list = (filled.envs e).env_link }

  env_alloc-ok :
      (parent_id : ℕ)
      → k.env_free_list ≡ some e
      → env_alloc parent_id k ≡ ok (0, some e) (after_alloc parent_id)
  unfolding env_alloc after_alloc
  env_alloc-ok parent_id free = simp (free, env_setup_vm-ok)

  new_slot :
      (parent_id : ℕ)
      → (after_alloc parent_id).envs e
        ≡ fill_env e parent_id (record (k.envs e) { env_pgdir = some p })
  unfolding after_alloc after_setup set_ref incref clear_frame popped copy_frame store_entry
      fill_env
  new_slot parent_id = ground arith

  -- The first free slot and the first free page are taken.
  pub env_alloc_fills :
      (parent_id : ℕ) (es : List ℕ)
      → IsFreeEnvs k (e ∷ es)
      → p ≢ k.kern_pgdir
      → (k' : Kernel) × (env_alloc parent_id k ≡ ok (0, some e) k')
        × IsFreeEnvs k' es
        × (k'.envs e ≡ fill_env e parent_id (record (k.envs e) { env_pgdir = some p }))
        × ((i : ℕ) → i ≢ e → k'.envs i ≡ k.envs i)
        × ((i : ℕ) → k'.mem p i ≡ (if i == pdx uvpt then self_entry p else k.mem k.kern_pgdir i))
  unfolding after_alloc after_setup set_ref incref clear_frame popped copy_frame store_entry
      fill_env
  env_alloc_fills parent_id es free apart =
      let next : (after_alloc parent_id).env_free_list ≡ (k.envs e).env_link = ground arith in
      (
        after_alloc parent_id,
        env_alloc-ok parent_id free.0,
        rw next (
            Chain-frame (λ i. (k.envs i).env_link) (λ i. ((after_alloc parent_id).envs i).env_link)
              (k.envs e).env_link es (λ i h. ground arith) free.2),
        new_slot parent_id,
        λ i other. ground arith,
        λ i. ground arith,
      )

  -- With a free slot and a free page that the kernel reaches and that is not the kernel's page
  -- directory, where the slot is below NENV and its last identifier is not negative: env_alloc takes
  -- the first of each. The slot gets the page for its page directory, the parent's identifier, the
  -- type of a user program, the status ENV_RUNNABLE, no runs, no page fault upcall, no wait for a
  -- message, and the frame of a user program at the top of its stack with interrupts on; what is
  -- left of the slot is as it was, but for the identifier, which is positive as a 32-bit int, has
  -- the slot for its index part, and is not the one before. The other slots are untouched, the rest
  -- of the list stays free, and the new page directory is the kernel's but for the entry that maps
  -- it into itself.
  pub env_alloc_creates :
      (parent_id : ℕ) (es : List ℕ)
      → IsFreeEnvs k (e ∷ es)
      → p ≢ k.kern_pgdir
      → e < nenv
      → (k.envs e).env_id < 2 ^ 31
      → (k' : Kernel) × (id : ℕ) × (env_alloc parent_id k ≡ ok (0, some e) k')
        × IsFreeEnvs k' es
        × (k'.envs e ≡ record (k.envs e) {
          env_id = id;
          env_parent_id = parent_id;
          env_type = env_type_user;
          env_status = env_runnable;
          env_runs = 0;
          env_tf = user_frame;
          env_pgdir = some p;
          env_pgfault_upcall = 0;
          env_ipc_recving = false;
        })
        × (0 < id)
        × (id < 2 ^ 31)
        × (envx id ≡ e)
        × (id ≢ (k.envs e).env_id)
        × ((i : ℕ) → i ≢ e → k'.envs i ≡ k.envs i)
        × ((i : ℕ) → k'.mem p i ≡ (if i == pdx uvpt then self_entry p else k.mem k.kern_pgdir i))
  env_alloc_creates parent_id es free apart low old =
      let (k', runs, rest, slot, others, frame) = env_alloc_fills parent_id es free apart in
      let fresh = record (k.envs e) { env_pgdir = some p } in
      let (positive, int, index, moved) = fill_env_id e parent_id fresh low old in
      (
        k',
        (fill_env e parent_id fresh).env_id,
        runs,
        rest,
        slot ∙ fill_env_fields e parent_id fresh,
        positive,
        int,
        index,
        moved,
        others,
        frame,
      )

-- Without a free page env_alloc returns -E_NO_FREE_ENV where no slot is free, and -E_NO_MEM where
-- one is; both leave the state as it was.
pub env_alloc_fails :
    (k : Kernel) (parent_id : ℕ) (es : List ℕ)
    → IsFreeEnvs k es
    → k.page_free_list ≡ none
    → env_alloc parent_id k
      ≡ ok (elim es [ [] ↦ neg_e_no_free_env | e ∷ rest ↦ neg_e_no_mem ], none) k
unfolding env_alloc env_setup_vm page_alloc
env_alloc_fails k parent_id [] free empty = ground arith
env_alloc_fails k parent_id (e ∷ es) free empty = ground arith
