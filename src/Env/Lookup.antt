-- ===== src/Env/Lookup.antt =====
-- envid2env of kern/env.c: which identifiers are accepted, and what for.
use os2017_lab.Base.{
  ℕ, ◌≡◌, ◌≢◌, ◌↔◌, ◌⊎◌, inl, inr, true, not, ◌||◌, none, some, arith, ◌==◌, Bool-cases,
}
use os2017_lab.Kernel.{Kernel, EnvStatus, ok}
use os2017_lab.Env.{envx, is_status, neg_e_bad_env, envid2env}

-- A nonzero identifier names slot `e`: the slot is in use under exactly this identifier.
abbrev pub Names : Kernel → ℕ → ℕ → Type 0
Names k envid e =
    (e ≡ envx envid) × ((k.envs e).env_status ≢ EnvStatus.env_free) × ((k.envs e).env_id ≡ envid)

-- The environment `c` may manipulate `e`: itself or an immediate child.
abbrev pub MayManage : Kernel → (c e : ℕ) → Type 0
MayManage k c e = (e ≡ c) ⊎ ((k.envs e).env_parent_id ≡ (k.envs c).env_id)

module _ (k : Kernel) (c envid : ℕ) (now : k.curenv ≡ some c) (nonzero : envid ≢ 0) where
  -- While an environment is current, envid2env with the permission check finds for a nonzero
  -- identifier exactly the slot that it names, provided that the current environment may manage it.
  pub envid2env_checked :
      (e : ℕ) → (envid2env envid true k ≡ ok (0, some e) k) ↔ (Names k envid e × MayManage k c e)
  unfolding envid2env
  envid2env_checked e = (λ r. ground arith, λ p. ground arith)

  -- For a nonzero identifier, while an environment is current, envid2env with the permission check
  -- changes nothing, and either finds a slot or answers -E_BAD_ENV with NULL.
  pub envid2env_answers :
      ((e : ℕ) × (envid2env envid true k ≡ ok (0, some e) k))
      ⊎ (envid2env envid true k ≡ ok (neg_e_bad_env, none) k)
  unfolding envid2env
  envid2env_answers =
      let e = envx envid in
      let stale =
        is_status EnvStatus.env_free (k.envs e).env_status || not ((k.envs e).env_id == envid) in
      let mine = (e == c) || ((k.envs e).env_parent_id == (k.envs c).env_id) in
      elim (Bool-cases stale) [
        | inl bad ↦ inr (ground arith)
        | inr live ↦ elim (Bool-cases mine) [
          | inl yours ↦ inl (e, ground arith)
          | inr other ↦ inr (ground arith)
        ]
      ]
