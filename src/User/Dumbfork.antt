-- ===== src/User/Dumbfork.antt =====
-- user/dumbfork.c: a fork that copies every page at once.
use os2017_lab.Base.{ℕ, zero, suc, ◌+◌, ◌-◌, ◌/◌, ◌%◌, ◌==◌, if◌then◌else◌}
use os2017_lab.Memlayout.{u32_mod, pgsize, ptsize}
use os2017_lab.Env.{is_negative}
use os2017_lab.User.{Sys, UserRun, returns, panics}
use os2017_lab.User.Fork.{utext, env_runnable, perm_rw, page_of}

abbrev pub utemp : ℕ
utemp = ptsize

-- Goes on with the state of a call that did not fail.
abbrev pub or_panic : {S : Type 0} → ℕ × S → (S → UserRun S) → UserRun S
or_panic (r, s) next = if is_negative r then panics else next s

-- What follows code that returns.
abbrev pub and_then : {S : Type 0} → UserRun S → (S → UserRun S) → UserRun S
and_then (returns r s) next = next s
and_then panics next = panics
and_then UserRun.out_of_fuel next = UserRun.out_of_fuel

module _ {S : Type 0} (sys : Sys S) where
  open sys use {
    sys_exofork, sys_page_alloc, sys_page_map, sys_page_unmap, sys_env_set_status, copy_page,
    set_thisenv,
  }

  unfoldable pub duppage : (dstenv addr : ℕ) → S → UserRun S
  duppage dstenv addr s = or_panic (sys_page_alloc dstenv addr perm_rw s) λ s1.
      or_panic (sys_page_map dstenv addr 0 utemp perm_rw s1)
        λ s2. or_panic (sys_page_unmap 0 utemp (copy_page utemp addr s2)) λ s3. returns 0 s3

  -- The loop over the program, with `n` pages left.
  unfoldable pub copy_program : (envid n addr : ℕ) → S → UserRun S
  unfolding duppage
  copy_program envid zero addr s = returns 0 s
  copy_program envid (suc n) addr s =
      and_then (duppage envid addr s) (copy_program envid n ((addr + pgsize) % u32_mod))

  -- `program_end` is the address of `end`, not below UTEXT, and `stack` that of the local variable
  -- `addr`.
  unfoldable pub dumbfork : (program_end stack : ℕ) → S → UserRun S
  unfolding copy_program
  dumbfork program_end stack s = or_panic (sys_exofork s) λ s1.
      let envid = (sys_exofork s).0 in
      if envid == 0
      then returns 0 (set_thisenv s1)
      else and_then (copy_program envid ((program_end - utext + (pgsize - 1)) / pgsize) utext s1)
          λ s2.
            and_then (duppage envid (page_of stack) s2)
              λ s3. or_panic (sys_env_set_status envid env_runnable s3) λ s4. returns envid s4
