-- ===== src/Examples/Traps.antt =====
-- The theorems on kern/trap.c and on the boot-time part of kern/pmap.c at the small machine.
use os2017_lab.Base.{ℕ, ◌+◌, ◌≡◌, ◌≢◌, refl, some, true, false, arith, has_bits}
use os2017_lab.Memlayout.{kernbase, pdx, pte_p, pte_w}
use os2017_lab.Kernel.{Trapframe, env_dying, Kernel, ok, enters_user}
use os2017_lab.Pmap.View.{mmu_entry, mmu_allows}
use os2017_lab.Pmap.FreeList.{IsFreeList}
use os2017_lab.Pmap.Boot.{page_init, free_below, page_init_links, entry_pgdir_maps}
use os2017_lab.Env.{initial_tf}
use os2017_lab.Syscall.{syscall, sys_getenvid, caller}
use os2017_lab.Trap.{trap}
use os2017_lab.Trap.Entry.{entered, trap_answers}
use os2017_lab.Examples.{small, boot_mem}

page_init_links_example : IsFreeList (page_init 160 300 small) (free_below 160 300 16)
page_init_links_example = page_init_links 160 300 small

entry_pgdir_maps_example :
    (mmu_entry boot_mem 4 0x1234 ≡ 0x1003)
    × (mmu_entry boot_mem 4 (kernbase + 0x1234) ≡ 0x1003)
    × (has_bits (boot_mem 4 (pdx 0x1234)) pte_p ≡ true)
    × (mmu_allows boot_mem 4 0x1234 pte_w ≡ false)
    × (mmu_allows boot_mem 4 (kernbase + 0x1234) pte_w ≡ true)
entry_pgdir_maps_example =
    entry_pgdir_maps boot_mem 4 5 0x1234 (λ i. refl) (λ i. refl) (omega arith) (omega arith)

-- Environment 0 asks for its identifier.
abbrev getenvid_tf : Trapframe
getenvid_tf = record initial_tf {
  tf_trapno = 48;
  tf_cs = 27;
  tf_regs = record (initial_tf.tf_regs) { reg_eax = 2 };
}

small_alive : (small.envs 0).env_status ≢ env_dying
small_alive = ground arith

getenvid_returns :
    syscall 2 0 0 0 0 0 (entered 0 getenvid_tf small) ≡ ok 4096 (entered 0 getenvid_tf small)
unfolding syscall sys_getenvid caller
getenvid_returns = refl

trap_answers_example :
    (u : Kernel) × (trap 0 getenvid_tf {A = ℕ} small ≡ enters_user 0 u)
    × (u.curenv ≡ some 0)
    × (u.cr3 ≡ 2)
    × ((u.envs 0).env_tf ≡ record (((entered 0 getenvid_tf small).envs 0).env_tf) {
      tf_regs = record (((entered 0 getenvid_tf small).envs 0).env_tf.tf_regs) { reg_eax = 4096 };
    })
    × ((i : ℕ) → i ≢ 0 → u.envs i ≡ (entered 0 getenvid_tf small).envs i)
    × (u.mem ≡ (entered 0 getenvid_tf small).mem)
trap_answers_example =
    trap_answers small getenvid_tf 0 0 refl refl 4096 2 (entered 0 getenvid_tf small) refl
      small_alive getenvid_returns refl refl refl
