-- ===== src/User/Pgfault.antt =====
-- lib/pgfault.c: the registration of a page fault handler.
use os2017_lab.Base.{ℕ, ◌-◌, ◌==◌, not, if◌then◌else◌}
use os2017_lab.Memlayout.{pgsize, uxstacktop}
use os2017_lab.User.{Sys, UserRun, returns, panics}
use os2017_lab.User.Fork.{perm_rw}

module _ {S : Type 0} (sys : Sys S) where
  open sys use {sys_page_alloc, sys_env_set_pgfault_upcall}

  -- `current` is `_pgfault_handler`, whose new value is returned, `env_id` is that of `thisenv`, and
  -- `upcall` is the address of _pgfault_upcall.
  unfoldable pub set_pgfault_handler : (current env_id upcall handler : ℕ) → S → UserRun S
  set_pgfault_handler current env_id upcall handler s =
      if not (current == 0)
      then returns handler s
      else (let (r, s1) = sys_page_alloc env_id (uxstacktop - pgsize) perm_rw s in
          if not (r == 0)
          then panics
          else returns handler (sys_env_set_pgfault_upcall env_id upcall s1).1)
