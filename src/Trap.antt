-- ===== src/Trap.antt =====
-- kern/trap.c: the entry into the kernel from a trap, the dispatch, and the page fault upcall of an
-- environment. What is printed, the acknowledgement to the local APIC and the check of the
-- processor's interrupt flag are not modelled.
pub mod Entry
pub mod Upcall
use os2017_lab.Base.{
  ℕ, zero, suc, ◌+◌, ◌-◌, ◌*◌, ◌/◌, ◌%◌, ◌^◌, bit_or, Bool, true, false, not, ◌&&◌, ◌||◌, Option,
  none, some, List, [], ◌∷◌, ◌++◌, leb, ◌==◌, if◌then◌else◌, has_bits,
}
use os2017_lab.Memlayout.{u32_mod, pgsize, pte_p, pte_w, pte_u, pgnum, pdx, ptx, uxstacktop}
use os2017_lab.Kernel.{
  PushRegs, Trapframe, env_running, env_dying, cpu_started, CpuStatus, Env, Kernel, Cmd,
  kernel_panic, assertion, ok, and_then, pure, stop, stays_in_monitor, ◌>>=◌, ◌>>◌, get, modify,
  assert, deref,
}
use os2017_lab.Pmap.{PtePointer, pte_at, entry, store_entry}
use os2017_lab.Env.{gd_kt, is_status, set_env, env_free, env_run}
use os2017_lab.Sched.{sched_yield}
use os2017_lab.Destroy.{env_destroy, user_mem_assert}
use os2017_lab.Syscall.{caller, syscall}

abbrev pub t_brkpt : ℕ
t_brkpt = 3

abbrev pub t_pgflt : ℕ
t_pgflt = 14

abbrev pub t_syscall : ℕ
t_syscall = 48

abbrev pub irq_offset : ℕ
irq_offset = 32

abbrev pub irq_timer : ℕ
irq_timer = 0

abbrev pub irq_spurious : ℕ
irq_spurious = 7

-- The frame that a store of the kernel to a user address reaches: with CR0_WP set both the
-- directory entry and the table entry must be present and writeable.
unfoldable pub writes_to : Kernel → (va : ℕ) → Option ℕ
writes_to k va =
    let pde = k.mem k.cr3 (pdx va) in
    let pte = k.mem (pgnum pde) (ptx va) in
    if has_bits pde pte_p && has_bits pde pte_w && has_bits pte pte_p && has_bits pte pte_w
    then some (pgnum pte)
    else none

-- Byte `n` of the word `w` replaced.
abbrev pub with_byte : (w n byte : ℕ) → ℕ
with_byte w n byte = w - w / 256 ^ n % 256 * 256 ^ n + byte * 256 ^ n

-- A store that faults is a page fault in kernel mode, at which the kernel panics.
unfoldable pub write_byte : (va byte : ℕ) → Cmd (Unit {0})
write_byte va byte k = elim (writes_to k va) [
  | none ↦ stop kernel_panic k
  | some f ↦
      let p = pte_at f (va % pgsize / 4) in
      ok tt (store_entry p (with_byte (entry k p) (va % 4) byte) k)
]

unfoldable pub write_word : (va w : ℕ) → Cmd (Unit {0})
write_word va w = do
  write_byte va (w % 256)
  write_byte ((va + 1) % u32_mod) (w / 256 % 256)
  write_byte ((va + 2) % u32_mod) (w / 256 ^ 2 % 256)
  write_byte ((va + 3) % u32_mod) (w / 256 ^ 3 % 256)

unfoldable pub write_words : (va : ℕ) → List ℕ → Cmd (Unit {0})
write_words va [] = pure tt
write_words va (w ∷ ws) = do write_word va w; write_words ((va + 4) % u32_mod) ws

-- The fields of struct UTrapframe in their order.
abbrev pub utf_words : (fault_va : ℕ) → Trapframe → List ℕ
utf_words fault_va tf =
    let r = tf.tf_regs in
    fault_va ∷ tf.tf_err ∷ r.reg_edi ∷ r.reg_esi ∷ r.reg_ebp ∷ r.reg_oesp ∷ r.reg_ebx ∷ r.reg_edx
    ∷ r.reg_ecx ∷ r.reg_eax ∷ tf.tf_eip ∷ tf.tf_eflags ∷ tf.tf_esp ∷ []

abbrev pub utf_size : ℕ
utf_size = 52

-- Where the frame goes for a fault with stack pointer `esp`.
unfoldable pub exstack_of : (esp : ℕ) → ℕ
exstack_of esp =
    if leb (uxstacktop - pgsize) esp && leb esp (uxstacktop - 1)
    then (esp + u32_mod - utf_size - 4) % u32_mod
    else uxstacktop - utf_size

-- The environment continues in its upcall, on the frame.
abbrev pub redirect : (utf : ℕ) → Env → Env
redirect utf v = record v {
  env_tf = record (v.env_tf) { tf_esp = utf; tf_eip = v.env_pgfault_upcall };
}

-- `fault_va` is what CR2 holds.
unfoldable pub page_fault_handler : (fault_va : ℕ) → Trapframe → Cmd (Unit {0})
unfolding caller
page_fault_handler fault_va tf = if tf.tf_cs == gd_kt then stop kernel_panic else do
  c ← caller
  k ← get
  if (k.envs c).env_pgfault_upcall == 0 then env_destroy c else do
    user_mem_assert c (uxstacktop - 4) 4 0
    let utf = exstack_of tf.tf_esp
    write_words utf (utf_words fault_va tf)
    user_mem_assert c utf utf_size (bit_or (bit_or pte_p pte_w) pte_u)
    modify (λ s. set_env c (redirect utf (s.envs c)) s)
    env_run c

-- `tf->tf_regs.reg_eax = r` in the saved frame of environment `e`; a frame of the kernel's own is
-- not used again.
abbrev pub answer : Option ℕ → (r : ℕ) → Kernel → Kernel
answer none r k = k
answer (some e) r k =
    let v = k.envs e in
    set_env e
      (record v {
        env_tf = record (v.env_tf) { tf_regs = record (v.env_tf.tf_regs) { reg_eax = r } };
      })
      k

-- `src` is the environment whose saved frame `tf` is, none for a trap from kernel mode. No command
-- makes the monitor return.
unfoldable pub trap_dispatch : (fault_va : ℕ) (src : Option ℕ) → Trapframe → Cmd (Unit {0})
trap_dispatch fault_va src tf =
    let r = tf.tf_regs in
    if tf.tf_trapno == irq_offset + irq_spurious
    then pure tt
    else if tf.tf_trapno == t_pgflt
    then page_fault_handler fault_va tf
    else if tf.tf_trapno == t_brkpt
    then (λ k. stays_in_monitor k)
    else if tf.tf_trapno == t_syscall
    then (do
      value ← syscall r.reg_eax r.reg_edx r.reg_ecx r.reg_ebx r.reg_edi r.reg_esi
      modify (answer src value))
    else if tf.tf_trapno == irq_offset + irq_timer
    then sched_yield
    else if tf.tf_cs == gd_kt
    then stop kernel_panic
    else (do k ← get; c ← deref k.curenv; env_destroy c)

-- A processor that was halted takes the kernel lock again.
abbrev pub wake : Kernel → Kernel
wake k = record k {
  cpu_status = cpu_started;
  locked = elim k.cpu_status [ CpuStatus.cpu_halted ↦ true | _ ↦ k.locked ];
}

-- The part of `trap` for a trap from user mode, with the environment whose frame is then in use.
unfoldable pub enter_from_user : Trapframe → Cmd (Option ℕ)
enter_from_user tf k = elim k.curenv [
  | none ↦ stop assertion k
  | some c ↦
      if is_status env_dying (k.envs c).env_status
      then (env_free c >> modify (λ s. record s { curenv = none }) >> sched_yield) k
      else ok (some c) (set_env c (record (k.envs c) { env_tf = tf }) k)
]

-- The end of `trap`, given `curenv`.
unfoldable pub leave_to : {A : Type 0} → Option ℕ → Cmd A
leave_to none k = sched_yield k
leave_to (some c) k =
    if is_status env_running (k.envs c).env_status then env_run c k else sched_yield k

unfoldable pub leave : {A : Type 0} → Cmd A
leave k = leave_to k.curenv k

unfoldable pub trap : (fault_va : ℕ) → Trapframe → {A : Type 0} → Cmd A
trap fault_va tf = do
  modify wake
  src ← if tf.tf_cs % 4 == 3 then enter_from_user tf else pure none
  trap_dispatch fault_va src tf
  leave
