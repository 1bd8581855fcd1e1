-- ===== src/Sched/RoundRobin.antt =====
-- What sched_yield of kern/sched.c chooses.
use os2017_lab.Base.{
  ℕ, zero, suc, ◌+◌, ◌-◌, ◌%◌, ◌≤◌, ◌<◌, ◌≡◌, refl, ◌⊎◌, inl, inr, Bool, true, false, not, ◌||◌,
  Option, none, some, arith, ◌==◌, if◌then◌else◌, Bool-cases,
}
use os2017_lab.Kernel.{EnvStatus, Kernel, Run, ok}
use os2017_lab.Env.{nenv, is_status, env_run}
use native.Mathlib.Decide.{dec_lt, ℕ_discrete}
use os2017_lab.Sched.{status_of, search_loop, sched_halt}

abbrev pub IsRunnable : Kernel → ℕ → Type 0
IsRunnable k i = status_of k i ≡ EnvStatus.env_runnable

-- The slot `n` places after `start`, going round.
abbrev pub place : ℕ → ℕ → ℕ
place start n = (start + n) % nenv

-- The search from place `n` on: the first runnable slot, or none up to the place before the start.
pub data Chosen (k : Kernel) (start n : ℕ) : Option ℕ → Type 0 where
  runs :
      (m : ℕ)
      → n ≤ m
      → m < nenv
      → IsRunnable k (place start m)
      → ((j : ℕ) → n ≤ j → j < m → ¬ IsRunnable k (place start j))
      → Chosen k start n (some (place start m))
  nobody : ((j : ℕ) → n ≤ j → j < nenv → ¬ IsRunnable k (place start j)) → Chosen k start n none

Chosen-step :
    (k : Kernel) (start n : ℕ) (o : Option ℕ)
    → ¬ IsRunnable k (place start n)
    → Chosen k start (n + 1) o
    → Chosen k start n o
Chosen-step k start n o skip (runs m from to here before) =
    runs m (omega arith) to here
      λ j a b. elim (ℕ_discrete j n) [ yes now ↦ rw now skip | no later ↦ before j (omega arith) b ]
Chosen-step k start n o skip (nobody none_after) = nobody λ j a b. elim (ℕ_discrete j n) [
  | yes now ↦ rw now skip
  | no later ↦ none_after j (omega arith) b
]

search_loop_skips :
    (fuel start n : ℕ) (first : Bool) (k : Kernel) (o : Option ℕ)
    → (not (place start n == start) || first) ≡ true
    → is_status EnvStatus.env_runnable (status_of k (place start n)) ≡ false
    → search_loop fuel start (place start (n + 1)) false k ≡ ok o k
    → search_loop (suc fuel) start (place start n) first k ≡ ok o k
unfolding search_loop
search_loop_skips fuel start n first k o going skip e =
    let next : (place start n + 1) % nenv ≡ place start (n + 1) = omega arith in
    rw (going, skip, next) e

-- After the first round the search is at place `n`, 0 < n; it comes back to the start after the
-- last.
search_loop-Chosen :
    (fuel start n : ℕ) (first : Bool) (k : Kernel)
    → start < nenv
    → n ≤ nenv
    → nenv - n < fuel
    → (first ≡ true) × (n ≡ 0) ⊎ (first ≡ false) × (0 < n)
    → (o : Option ℕ) × (search_loop fuel start (place start n) first k ≡ ok o k)
      × Chosen k start n o
unfolding search_loop
search_loop-Chosen zero start n first k s h f w = absurd (omega arith)
search_loop-Chosen (suc fuel) start n first k s h f w = elim (dec_lt n nenv) [
  | no round ↦
      let back : place start n ≡ start = omega arith in
      (none, ground arith, nobody (λ j a b. absurd (omega arith)))
  | yes more ↦
      let going : (not (place start n == start) || first) ≡ true = ground arith in
      elim (Bool-cases (is_status EnvStatus.env_runnable (status_of k (place start n)))) [
        | inl here ↦ (
          some (place start n),
          rw (going, here),
          runs n (omega arith) more (ground arith) (λ j a b. absurd (omega arith)),
        )
        | inr skip ↦
            let (o, e, c) =
              search_loop-Chosen fuel start (n + 1) false k s (omega arith) (omega arith)
                (inr (refl, omega arith)) in
            (
              o,
              search_loop_skips fuel start n first k o going skip e,
              Chosen-step k start n o (ground arith) c,
            )
      ]
]

-- The loop of sched_yield ends, and changes nothing: it finds the first runnable environment in the
-- circular order that begins with the slot it starts from, or finds none where none of the NENV
-- slots is runnable.
pub search_loop_chooses :
    (k : Kernel) (start : ℕ)
    → start < nenv
    → (o : Option ℕ) × (search_loop (suc nenv) start start true k ≡ ok o k) × Chosen k start 0 o
search_loop_chooses k start s =
    let here : place start 0 ≡ start = omega arith in
    rw here at (
      search_loop-Chosen (suc nenv) start 0 true k s (omega arith) (omega arith) (inl (refl, refl)))

-- The index part of the current environment's identifier; 0 where there is no environment.
abbrev pub current_slot : Kernel → ℕ
current_slot k = elim k.curenv [ none ↦ 0 | some c ↦ (k.envs c).env_id % 1024 ]

-- The choice carried out: the chosen environment runs; without one, the current environment does if
-- it is still in the state ENV_RUNNING, and the processor halts if not.
abbrev pub carried_out : {A : Type 0} → Option ℕ → Kernel → Run A
carried_out (some i) k = env_run i k
carried_out none k = elim k.curenv [
  | none ↦ sched_halt k
  | some c ↦
      if is_status EnvStatus.env_running (k.envs c).env_status then env_run c k else sched_halt k
]
