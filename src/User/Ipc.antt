-- ===== src/User/Ipc.antt =====
-- lib/ipc.c: ipc_recv, ipc_send and ipc_find_env.
use os2017_lab.Base.{
  ℕ, zero, suc, ◌+◌, ◌-◌, ◌<◌, ◌≡◌, refl, Bool, true, not, ◌&&◌, Option, none, some, arith, ltb,
  ◌==◌, if◌then◌else◌,
}
use os2017_lab.Memlayout.{u32_mod, utop}
use os2017_lab.User.{Sys, UserRun, returns, panics, out_of_fuel}

abbrev pub neg_e_ipc_not_recv : ℕ
neg_e_ipc_not_recv = u32_mod - 8

-- `pg ? pg : (void *) UTOP`, with 0 for NULL
abbrev pub page_or_none : ℕ → ℕ
page_or_none pg = if pg == 0 then utop else pg

-- The result of ipc_recv, and what it stores through the two pointers.
pub record Received : Type 0 where
  pub result : ℕ
  pub from_env_store : Option ℕ
  pub perm_store : Option ℕ

abbrev pub store_if : Bool → ℕ → Option ℕ
store_if wanted v = if wanted then some v else none

module _ {S : Type 0} (sys : Sys S) where
  open sys use {
    sys_ipc_recv, sys_ipc_try_send, sys_yield, env_ipc_value, env_ipc_from, env_ipc_perm,
  }

  unfoldable pub ipc_recv : (wants_from : Bool) (pg : ℕ) (wants_perm : Bool) → S → Received × S
  ipc_recv wants_from pg wants_perm s =
      let (r, s1) = sys_ipc_recv (page_or_none pg) s in
      (
        record {
          result = if not (r == 0) then r else env_ipc_value s1;
          from_env_store = store_if wants_from (if r == 0 then env_ipc_from s1 else 0);
          perm_store = store_if wants_perm (if (r == 0) && ltb pg utop then env_ipc_perm s1 else 0);
        },
        s1,
      )

  -- The loop of ipc_send, on fuel for its rounds.
  unfoldable pub ipc_send : (fuel to_env val pg perm : ℕ) → S → UserRun S
  ipc_send zero to_env val pg perm s = out_of_fuel
  ipc_send (suc fuel) to_env val pg perm s =
      let (r, s1) = sys_ipc_try_send to_env val (page_or_none pg) perm s in
      let again = ipc_send fuel to_env val pg perm (sys_yield s1) in
      if not (r == 0) && not (r == neg_e_ipc_not_recv)
      then panics
      else if not (r == 0)
      then again
      else returns 0 (sys_yield s1)

  -- The state after `n` refused rounds.
  unfoldable pub refused : (n to_env val pg perm : ℕ) → S → S
  refused zero to_env val pg perm s = s
  refused (suc n) to_env val pg perm s =
      let (r, s1) = sys_ipc_try_send to_env val (page_or_none pg) perm s in
      refused n to_env val pg perm (sys_yield s1)

  -- The round_answer of the kernel in round `n`.
  abbrev pub round_answer : (n to_env val pg perm : ℕ) → S → ℕ
  round_answer n to_env val pg perm s =
      (sys_ipc_try_send to_env val (page_or_none pg) perm (refused n to_env val pg perm s)).0

  -- When the receiver is not ready in the first `n` rounds and the next succeeds, ipc_send returns
  -- after that round, in the state that these rounds leave.
  pub ipc_send_succeeds :
      (n fuel to_env val pg perm : ℕ) (s : S)
      → n < fuel
      → ((i : ℕ) → i < n → round_answer i to_env val pg perm s ≡ neg_e_ipc_not_recv)
      → round_answer n to_env val pg perm s ≡ 0
      → ipc_send fuel to_env val pg perm s ≡ returns 0 (refused (suc n) to_env val pg perm s)
  unfolding ipc_send refused
  ipc_send_succeeds zero (suc fuel) to_env val pg perm s enough waits sent =
      let done : ((sys_ipc_try_send to_env val (page_or_none pg) perm s).0 == 0) ≡ true =
        ground (arith, sent) in
      rw done refl
  ipc_send_succeeds (suc n) (suc fuel) to_env val pg perm s enough waits sent =
      let first : (sys_ipc_try_send to_env val (page_or_none pg) perm s).0 ≡ neg_e_ipc_not_recv =
        waits 0 (omega arith) in
      rw first (
        ipc_send_succeeds n fuel to_env val pg perm
          (sys_yield (sys_ipc_try_send to_env val (page_or_none pg) perm s).1) (omega arith)
          (λ i low. waits (suc i) (omega arith)) sent)
  ipc_send_succeeds n zero to_env val pg perm s enough waits sent = absurd (omega arith)

-- The first environment of a type among the NENV.
unfoldable pub ipc_find_env : (types ids : ℕ → ℕ) (type i n : ℕ) → ℕ
ipc_find_env types ids type i zero = 0
ipc_find_env types ids type i (suc n) =
    let rest = ipc_find_env types ids type (i + 1) n in if types i == type then ids i else rest
