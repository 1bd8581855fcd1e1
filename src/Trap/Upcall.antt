-- ===== src/Trap/Upcall.antt =====
-- The frame that page_fault_handler of kern/trap.c pushes on the user exception stack.
use os2017_lab.Base.{
  ℕ, ◌+◌, ◌-◌, ◌%◌, ◌<◌, ◌≤◌, ◌≡◌, ◌≢◌, ◌↔◌, false, none, some, List, ◌∷◌, arith, ◌==◌,
}
use os2017_lab.Memlayout.{u32_mod, pgsize, uxstacktop}
use os2017_lab.Kernel.{Trapframe, Kernel, ok, fault, kernel_panic}
use os2017_lab.Env.{gd_kt}
use os2017_lab.Destroy.{user_mem_assert}
use os2017_lab.Trap.{
  writes_to, write_byte, write_word, write_words, utf_size, exstack_of, page_fault_handler,
}

-- The page of the exception stack.
abbrev pub stack_page : ℕ
stack_page = uxstacktop - pgsize

-- For a 32-bit stack pointer, the frame lies within the page of the exception stack exactly when
-- the fault came from outside that page, or with 56 bytes of that page below its stack pointer.
pub exstack_of_fits :
    (esp : ℕ)
    → esp < u32_mod
    → (stack_page ≤ exstack_of esp × exstack_of esp + utf_size ≤ uxstacktop)
      ↔ ¬ (stack_page ≤ esp × esp < stack_page + utf_size + 4)
unfolding exstack_of
exstack_of_fits esp h = (λ p q. ground arith, λ n. ground arith)

write_byte-faults :
    (va byte : ℕ) (k : Kernel) → writes_to k va ≡ none → write_byte va byte k ≡ fault kernel_panic
unfolding write_byte
write_byte-faults va byte k missing = rw (missing, write_byte)

write_words-faults :
    (va w : ℕ) (ws : List ℕ) (k : Kernel)
    → writes_to k va ≡ none
    → write_words va (w ∷ ws) k ≡ fault kernel_panic
unfolding write_words write_word
write_words-faults va w ws k missing = simp (write_byte-faults va (w % 256) k missing)

-- A user fault of the current environment, which has an upcall, stops the kernel where the frame
-- would begin on a page that is not writeable and the first check, of the word below UXSTACKTOP
-- without PTE_W, has passed: the handler writes the frame before it checks where it writes.
pub page_fault_handler_panics :
    (fault_va c : ℕ) (tf : Trapframe) (k k' : Kernel)
    → k.curenv ≡ some c
    → tf.tf_cs ≢ gd_kt
    → (k.envs c).env_pgfault_upcall ≢ 0
    → user_mem_assert c (uxstacktop - 4) 4 0 k ≡ ok tt k'
    → writes_to k' (exstack_of tf.tf_esp) ≡ none
    → page_fault_handler fault_va tf k ≡ fault kernel_panic
unfolding page_fault_handler
page_fault_handler_panics fault_va c tf k k' now user upcall checked missing =
    let mode : (tf.tf_cs == gd_kt) ≡ false = ground arith in
    let set : ((k.envs c).env_pgfault_upcall == 0) ≡ false = ground arith in
    simp (mode, now, set, checked, write_words-faults (exstack_of tf.tf_esp) fault_va _ k' missing)
