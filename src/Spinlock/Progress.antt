-- ===== src/Spinlock/Progress.antt =====
-- The kernel lock of kern/spinlock.c: a processor that spins can get it.
use os2017_lab.Base.{
  ℕ, zero, suc, ◌<◌, ◌≡◌, ◌≢◌, refl, true, false, none, some, arith, Bool-cases, inl, inr,
}
use os2017_lab.Base.Arrays.{update}
use native.Mathlib.Decide.{ℕ_discrete}
use os2017_lab.Spinlock.{
  Spinlock, Pc, outside, spinning, acquired, recording, critical, unlock_entered, unlock_checked,
  clearing, forgetting, releasing, Move, Machine, Step, Steps, start,
}
use os2017_lab.Spinlock.Safety.{holds, named, Inv, Step-Inv, Steps-Inv, start-Inv}

-- Where the holder of the lock goes next, and what the lock is then.
abbrev next_pc : Pc → Pc
next_pc acquired = recording
next_pc recording = critical
next_pc critical = unlock_entered
next_pc unlock_entered = unlock_checked
next_pc unlock_checked = clearing
next_pc clearing = forgetting
next_pc forgetting = releasing
next_pc p = outside

abbrev next_lock : ℕ → Spinlock → Pc → Spinlock
next_lock i lk acquired = record lk { cpu = some i }
next_lock i lk clearing = record lk { pcs = update lk.pcs 0 0 }
next_lock i lk forgetting = record lk { cpu = none }
next_lock i lk releasing = record lk { locked = 0 }
next_lock i lk p = lk

-- The steps that the holder has left before the last.
abbrev rank : Pc → ℕ
rank acquired = 7
rank recording = 6
rank critical = 5
rank unlock_entered = 4
rank unlock_checked = 3
rank clearing = 2
rank forgetting = 1
rank p = 0

holder_moves :
    (i : ℕ) (lk : Spinlock) (p : Pc)
    → holds p ≡ true
    → lk.locked ≢ 0
    → (named p ≡ true → lk.cpu ≡ some i)
    → Move i lk p (next_lock i lk p) (next_pc p)
holder_moves i lk acquired h taken mine = Move.record_cpu
holder_moves i lk recording h taken mine = Move.get_caller_pcs lk.pcs
holder_moves i lk critical h taken mine = Move.call_unlock
holder_moves i lk unlock_entered h taken mine = Move.unlock_is_locked taken
holder_moves i lk unlock_checked h taken mine = Move.held (mine refl)
holder_moves i lk clearing h taken mine = Move.clear_pcs
holder_moves i lk forgetting h taken mine = Move.clear_cpu
holder_moves i lk releasing h taken mine = Move.release
holder_moves i lk outside h taken mine = absurd (ground arith)
holder_moves i lk p h taken mine = absurd (ground arith)

rank_falls : (p : Pc) → holds (next_pc p) ≡ true → rank (next_pc p) < rank p
rank_falls acquired h = omega arith
rank_falls outside h = absurd (ground arith)
rank_falls p h = ground arith

freed :
    (i : ℕ) (lk : Spinlock) (p : Pc)
    → holds p ≡ true
    → holds (next_pc p) ≡ false
    → (next_lock i lk p).locked ≡ 0
freed i lk releasing h n = refl
freed i lk p h n = ground arith

Steps-first : {s t u : Machine} → Step s t → Steps t u → Steps s u
Steps-first st Steps.here = Steps.later Steps.here st
Steps-first st (Steps.later r last) = Steps.later (Steps-first st r) last

-- The machine in which processor `j`, the holder, has taken a step.
abbrev advanced : Machine → ℕ → Machine
advanced s j = record { lock = next_lock j s.lock (s.pc j); pc = update s.pc j (next_pc (s.pc j)) }

holder_steps :
    (s : Machine) (j : ℕ) → Inv s.lock s.pc → holds (s.pc j) ≡ true → Step s (advanced s j)
holder_steps s j inv h =
    Step.turn j (holder_moves j s.lock (s.pc j) h (inv.taken j h) (inv.recorded j))

-- The holder can go on until the lock is free, while another processor waits.
holder_leaves :
    (n : ℕ) (s : Machine) (i j : ℕ)
    → Inv s.lock s.pc
    → holds (s.pc j) ≡ true
    → rank (s.pc j) < n
    → s.pc i ≡ spinning
    → (t : Machine) × Steps s t × (t.lock.locked ≡ 0) × (t.pc i ≡ spinning)
holder_leaves zero s i j inv h low waits = absurd (omega arith)
holder_leaves (suc n) s i j inv h low waits =
    let st = holder_steps s j inv h in
    let other : i ≢ j = ground arith in
    let still : (advanced s j).pc i ≡ spinning = ground arith in
    elim (Bool-cases (holds (next_pc (s.pc j)))) [
      | inr out ↦ (advanced s j, Steps.later Steps.here st, freed j s.lock (s.pc j) h out, still)
      | inl inside ↦
          let (t, r, free, waiting) =
            holder_leaves n (advanced s j) i j (Step-Inv st inv) (ground arith)
              (ground (arith, rank_falls (s.pc j))) still in
          (t, Steps-first st r, free, waiting)
    ]

-- From any state that the processors can reach, however they took turns, a processor that spins has
-- a continuation in which it gets the lock.
pub spin_lock_progresses :
    (lk : Spinlock) (s : Machine) (i : ℕ)
    → Steps (start lk) s
    → s.pc i ≡ spinning
    → (t : Machine) × Steps s t × (t.pc i ≡ acquired)
spin_lock_progresses lk s i r waits = elim (ℕ_discrete s.lock.locked 0) [
  | yes free ↦ wins s Steps.here free waits
  | no taken ↦
      let inv = Steps-Inv r (start-Inv lk) in
      let (j, held) = inv.held_by taken in
      let (t, path, free, waiting) =
        holder_leaves (suc (rank (s.pc j))) s i j inv held (omega arith) waits in
      wins t path free waiting
]
  where
    wins :
        (t : Machine)
        → Steps s t
        → t.lock.locked ≡ 0
        → t.pc i ≡ spinning
        → (u : Machine) × Steps s u × (u.pc i ≡ acquired)
    wins t path free waiting =
        let mv : Move i t.lock (t.pc i) (record (t.lock) { locked = 1 }) acquired =
          rw waiting (Move.win free) in
        (_, Steps.later path (Step.turn i mv), ground arith)
