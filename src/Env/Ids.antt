-- ===== src/Env/Ids.antt =====
-- The identifiers that env_alloc gives out (kern/env.c, inc/env.h).
use os2017_lab.Base.{ℕ, ◌+◌, ◌*◌, ◌/◌, ◌^◌, ◌<◌, ◌≡◌, ◌≢◌, bit_or, arith}
use os2017_lab.Base.Bits.{bit_or-disjoint}
use os2017_lab.Kernel.{Env}
use os2017_lab.Env.{nenv, envx, next_generation, fill_env}

next_generation_range :
    (old : ℕ)
    → (0 < next_generation old / nenv)
      × (next_generation old / nenv < 2 ^ 21)
      × (next_generation old ≡ next_generation old / nenv * 2 ^ 10)
unfolding next_generation
next_generation_range old = ground arith

bit_or-multiple : (g q e : ℕ) → g ≡ q * 2 ^ 10 → e < nenv → bit_or g e ≡ q * nenv + e
bit_or-multiple g q e multiple h = rw multiple (bit_or-disjoint 10 q e h)

next_generation_moves :
    (old e : ℕ) → e < nenv → old < 2 ^ 31 → next_generation old / nenv * nenv + e ≢ old
unfolding next_generation
next_generation_moves old e h small = ground arith

-- For a slot `e` below NENV whose last identifier is not negative, the identifier that env_alloc
-- writes is positive as a 32-bit int, has `e` for its index part, and is not the one that the slot
-- had before.
pub fill_env_id :
    (e parent_id : ℕ) (v : Env)
    → e < nenv
    → v.env_id < 2 ^ 31
    → (0 < (fill_env e parent_id v).env_id)
      × ((fill_env e parent_id v).env_id < 2 ^ 31)
      × (envx (fill_env e parent_id v).env_id ≡ e)
      × ((fill_env e parent_id v).env_id ≢ v.env_id)
unfolding fill_env
fill_env_id e parent_id v h small = omega (
  arith,
  next_generation_range v.env_id,
  next_generation_moves v.env_id e h small,
  bit_or-multiple (next_generation v.env_id) (next_generation v.env_id / nenv) e
      ((next_generation_range v.env_id).2) h,
)
