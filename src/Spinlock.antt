-- ===== src/Spinlock.antt =====
-- kern/spinlock.c and kern/spinlock.h: the kernel lock with its debugging checks, for any number of
-- processors, one access to the shared lock at a time. Text output is not modelled; a processor
-- that fails a check is `panicked`, and what get_caller_pcs finds on the stack is any array.
pub mod Safety
pub mod Progress
use os2017_lab.Base.{ℕ, ◌≡◌, ◌≢◌, Option, none, some}
use os2017_lab.Base.Arrays.{update}

-- struct spinlock, without its name
pub record Spinlock : Type 0 where
  pub locked : ℕ
  pub cpu : Option ℕ
  pub pcs : ℕ → ℕ

-- Where a processor stands in spin_lock or spin_unlock.
pub data Pc : Type 0 where
  outside : Pc
  lock_entered : Pc  -- `holding` is about to read `locked`
  lock_checked : Pc  -- `holding` is about to read `cpu`
  spinning : Pc  -- at the xchg of the loop
  acquired : Pc  -- about to write `cpu`
  recording : Pc  -- about to write `pcs`
  critical : Pc  -- between the two calls
  unlock_entered : Pc
  unlock_checked : Pc
  clearing : Pc  -- about to write `pcs[0]`
  forgetting : Pc  -- about to clear `cpu`
  releasing : Pc  -- at the last xchg
  panicked : Pc

-- __spin_initlock
unfoldable pub spin_initlock : Spinlock → Spinlock
spin_initlock lk = record lk { locked = 0; cpu = none }

-- One step of processor `i`. The kernel calls spin_lock only outside, and spin_unlock only between
-- the two calls.
pub data Move (i : ℕ) (lk : Spinlock) : Pc → Spinlock → Pc → Type 0 where
  call_lock : Move i lk outside lk lock_entered
  not_locked : lk.locked ≡ 0 → Move i lk lock_entered lk spinning
  is_locked : lk.locked ≢ 0 → Move i lk lock_entered lk lock_checked
  not_mine : lk.cpu ≢ some i → Move i lk lock_checked lk spinning
  already_holding : lk.cpu ≡ some i → Move i lk lock_checked lk panicked
  spin : lk.locked ≢ 0 → Move i lk spinning (record lk { locked = 1 }) spinning
  win : lk.locked ≡ 0 → Move i lk spinning (record lk { locked = 1 }) acquired
  record_cpu : Move i lk acquired (record lk { cpu = some i }) recording
  get_caller_pcs : (stack : ℕ → ℕ) → Move i lk recording (record lk { pcs = stack }) critical
  call_unlock : Move i lk critical lk unlock_entered
  unlock_not_locked : lk.locked ≡ 0 → Move i lk unlock_entered lk panicked
  unlock_is_locked : lk.locked ≢ 0 → Move i lk unlock_entered lk unlock_checked
  held_by_other : lk.cpu ≢ some i → Move i lk unlock_checked lk panicked
  held : lk.cpu ≡ some i → Move i lk unlock_checked lk clearing
  clear_pcs : Move i lk clearing (record lk { pcs = update lk.pcs 0 0 }) forgetting
  clear_cpu : Move i lk forgetting (record lk { cpu = none }) releasing
  release : Move i lk releasing (record lk { locked = 0 }) outside

pub record Machine : Type 0 where
  pub lock : Spinlock
  pub pc : ℕ → Pc

-- The processors take turns in any order.
pub data Step (s : Machine) : Machine → Type 0 where
  turn :
      (i : ℕ) {lk : Spinlock} {p : Pc}
      → Move i s.lock (s.pc i) lk p
      → Step s (record { lock = lk; pc = update s.pc i p })

pub data Steps (s : Machine) : Machine → Type 0 where
  here : Steps s s
  later : {t u : Machine} → Steps s t → Step t u → Steps s u

-- The machine after __spin_initlock, with every processor outside.
abbrev pub start : Spinlock → Machine
start lk = record { lock = spin_initlock lk; pc = λ _. outside }
