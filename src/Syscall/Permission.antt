-- ===== src/Syscall/Permission.antt =====
-- The checks that the system calls of kern/syscall.c make before they act.
use os2017_lab.Base.{
  ℕ, ◌≡◌, ◌≢◌, refl, ◌⊎◌, inl, inr, true, not, ◌||◌, some, arith, ◌==◌, has_bits, Option-cases,
  none, sym, Bool-cases, ◌∙◌,
}
use os2017_lab.Memlayout.{pte_p, pte_u}
use os2017_lab.Kernel.{EnvStatus, env_runnable, env_not_runnable, Kernel, Cmd, ok}
use os2017_lab.Pmap.{neg_e_no_mem}
use os2017_lab.Env.{is_negative, neg_e_bad_env, set_env}
use os2017_lab.Env.Lookup.{Names, MayManage, envid2env_checked, envid2env_answers}
use os2017_lab.Syscall.{
  neg_e_inval, other_bits, bad_user_page, managed, settable, set_status, sys_env_set_status,
  page_alloc_for, sys_page_alloc,
}

-- The two states that a program may ask for.
settable_refuses : (status : ℕ) → settable status ≡ none → (status ≢ 2) × (status ≢ 4)
settable_refuses status bad = (λ h. absurd (ground arith), λ h. absurd (ground arith))

settable_accepts :
    (status : ℕ) (st : EnvStatus)
    → settable status ≡ some st
    → (status ≡ 2 × st ≡ env_runnable) ⊎ (status ≡ 4 × st ≡ env_not_runnable)
settable_accepts status st good = ground arith

module _ (k : Kernel) (c envid : ℕ) (now : k.curenv ≡ some c) (nonzero : envid ≢ 0) where
  -- The environment is found and may be managed, or the caller's error is the answer.
  managed_cases :
      {A : Type 0} (failed : ℕ → A) (next : ℕ → Cmd A)
      → ((e : ℕ) × Names k envid e × MayManage k c e × (managed envid failed next k ≡ next e k))
        ⊎ ((managed envid failed next k ≡ ok (failed neg_e_bad_env) k)
            × ((e : ℕ) → ¬ (Names k envid e × MayManage k c e)))
  unfolding managed
  managed_cases failed next = elim (envid2env_answers k c envid now nonzero) [
    | inl (e, found) ↦
        let p = (envid2env_checked k c envid now nonzero e).0 found in inl (e, p.0, p.1, rw found)
    | inr missing ↦ inr (
      rw missing,
      λ e p.
          let found = (envid2env_checked k c envid now nonzero e).1 p in
          absurd (ground (arith, sym missing ∙ found)),
    )
  ]

  -- For a nonzero identifier, while an environment is current, sys_env_set_status returns. It
  -- answers -E_BAD_ENV and changes nothing where the identifier names no slot that the caller may
  -- manage, -E_INVAL and changes nothing where the status is not 2 or 4, and 0 otherwise: then the
  -- status of the slot that the identifier names becomes ENV_RUNNABLE for 2 and ENV_NOT_RUNNABLE
  -- for 4, and nothing else changes.
  pub sys_env_set_status_confined :
      (status : ℕ)
      → ((sys_env_set_status envid status k ≡ ok neg_e_bad_env k)
          × ((e : ℕ) → ¬ (Names k envid e × MayManage k c e)))
        ⊎ ((sys_env_set_status envid status k ≡ ok neg_e_inval k) × (status ≢ 2) × (status ≢ 4))
        ⊎ ((e : ℕ) × (st : EnvStatus) × Names k envid e
            × MayManage k c e
            × ((status ≡ 2 × st ≡ env_runnable) ⊎ (status ≡ 4 × st ≡ env_not_runnable))
            × (sys_env_set_status envid status k
                ≡ ok 0 (set_env e (record (k.envs e) { env_status = st }) k)))
  unfolding sys_env_set_status
  sys_env_set_status_confined status =
      elim (managed_cases (λ r. neg_e_bad_env) (λ e. set_status e (settable status))) [
        | inr (refused, nobody) ↦ inl (refused, nobody)
        | inl (e, named, may, runs) ↦ elim (Option-cases (settable status)) [
          | inl bad ↦ inr (
              inl (
                runs ∙ rw (bad, set_status),
                (settable_refuses status bad).0,
                (settable_refuses status bad).1,
              ))
          | inr (st, good) ↦ inr (
              inr
                (e, st, named, may, settable_accepts status st good, runs ∙ rw (good, set_status)))
        ]
      ]

  -- For a nonzero identifier, while an environment is current, sys_page_alloc with an address that
  -- is not a user page, or with wrong permission bits, returns an error and changes nothing.
  pub sys_page_alloc_rejects :
      (va perm : ℕ)
      → (bad_user_page va
          || not (has_bits perm pte_u)
          || not (has_bits perm pte_p)
          || not (other_bits perm == 0))
        ≡ true
      → (r : ℕ) × (is_negative r ≡ true) × (sys_page_alloc envid va perm k ≡ ok r k)
  unfolding sys_page_alloc page_alloc_for
  sys_page_alloc_rejects va perm bad =
      elim (managed_cases (λ r. neg_e_bad_env) (λ e. page_alloc_for e va perm)) [
        | inr (refused, nobody) ↦ (neg_e_bad_env, refl, refused)
        | inl (e, named, may, runs) ↦
            elim (Bool-cases
              (bad_user_page va || not (has_bits perm pte_u) || not (has_bits perm pte_p))) [
                | inl first ↦ (neg_e_inval, refl, runs ∙ ground arith)
                | inr later ↦ (neg_e_no_mem, refl, runs ∙ ground arith)
              ]
      ]
