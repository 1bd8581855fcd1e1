-- ===== src/Env/FreeList.antt =====
-- The list of free environments of kern/env.c, and env_init, which makes it.
use os2017_lab.Base.{ℕ, zero, suc, ◌+◌, ◌≤◌, ◌<◌, ◌≡◌, refl, none, List, arith}
use native.Mathlib.Nat.{zero-add}
use os2017_lab.Base.Chain.{Chain, Chain-frame, range_from, has-range_from_below}
use os2017_lab.Kernel.{Kernel, EnvStatus}
use os2017_lab.Env.{nenv, init_env, init_envs, env_init}

abbrev pub IsFreeEnvs : Kernel → List ℕ → Type 0
IsFreeEnvs k xs = Chain (λ i. (k.envs i).env_link) k.env_free_list xs

-- Slot `i` holds no environment.
abbrev pub IsVacant : Kernel → ℕ → Type 0
IsVacant k i =
    ((k.envs i).env_status ≡ EnvStatus.env_free)
    × ((k.envs i).env_id ≡ 0)
    × ((k.envs i).env_pgdir ≡ none)

-- The free list is the `n` slots from `temp` on, in order, and they are vacant.
pub record Linked (k : Kernel) (temp n : ℕ) : Type 0 where
  pub list : IsFreeEnvs k (range_from temp n)
  pub vacant : (i : ℕ) → temp ≤ i → i < temp + n → IsVacant k i

init_env-Linked :
    (temp n : ℕ) (k : Kernel) → Linked k (suc temp) n → Linked (init_env temp k) temp (suc n)
unfolding init_env
init_env-Linked temp n k l = record {
  list =
      let link : ((init_env temp k).envs temp).env_link ≡ k.env_free_list = ground arith in
      let apart = has-range_from_below (suc temp) n in
      (
        refl,
        apart temp (omega arith),
        rw link (
            Chain-frame (λ i. (k.envs i).env_link) (λ i. ((init_env temp k).envs i).env_link)
              k.env_free_list (range_from (suc temp) n) (λ i h. ground (arith, apart temp)) l.list),
      );
  vacant = λ i from to. ground (arith, l.vacant i);
}

init_envs-Linked :
    (temp n : ℕ) (k : Kernel) → Linked k temp n → Linked (init_envs temp k) 0 (temp + n)
unfolding init_envs
init_envs-Linked zero n k l = rw zero-add l
init_envs-Linked (suc temp) n k l =
    let count : suc temp + n ≡ temp + suc n = omega arith in
    rw count (init_envs-Linked temp (suc n) (init_env temp k) (init_env-Linked temp n k l))

-- env_init makes every slot vacant and links the slots in the order of the array.
pub env_init_links : (k : Kernel) → Linked (env_init k) 0 nenv
unfolding env_init
env_init_links k =
    init_envs-Linked nenv 0 (record k { env_free_list = none })
      (record { list = refl; vacant = λ i from to. absurd (omega arith) })
