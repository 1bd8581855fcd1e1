-- ===== src/Spinlock/Safety.antt =====
-- The kernel lock of kern/spinlock.c: who holds it.
use os2017_lab.Base.{ℕ, ◌≡◌, ◌≢◌, refl, Bool, true, false, some, arith}
use os2017_lab.Base.Arrays.{update}
use os2017_lab.Spinlock.{
  Spinlock, Pc, acquired, recording, critical, unlock_entered, unlock_checked, clearing, forgetting,
  releasing, panicked, spin_initlock, Move, Machine, Step, Steps, start,
}

-- From the successful xchg of spin_lock to the last xchg of spin_unlock.
abbrev pub holds : Pc → Bool
holds acquired = true
holds recording = true
holds critical = true
holds unlock_entered = true
holds unlock_checked = true
holds clearing = true
holds forgetting = true
holds releasing = true
holds _ = false

-- While `cpu` names the holder.
abbrev pub named : Pc → Bool
named recording = true
named critical = true
named unlock_entered = true
named unlock_checked = true
named clearing = true
named forgetting = true
named _ = false

pub record Inv (lk : Spinlock) (pc : ℕ → Pc) : Type 0 where
  pub unique : (i j : ℕ) → holds (pc i) ≡ true → holds (pc j) ≡ true → i ≡ j
  pub taken : (i : ℕ) → holds (pc i) ≡ true → lk.locked ≢ 0
  pub recorded : (i : ℕ) → named (pc i) ≡ true → lk.cpu ≡ some i
  pub owner : (i : ℕ) → lk.cpu ≡ some i → named (pc i) ≡ true
  pub held_by : lk.locked ≢ 0 → (i : ℕ) × (holds (pc i) ≡ true)
  pub no_panic : (i : ℕ) → pc i ≢ panicked

-- The premise of a move.
abbrev Guard : {i : ℕ} {lk lk' : Spinlock} {p p' : Pc} → Move i lk p lk' p' → Type 0
Guard {lk} (Move.not_locked _) = lk.locked ≡ 0
Guard {lk} (Move.is_locked _) = lk.locked ≢ 0
Guard {i} {lk} (Move.not_mine _) = lk.cpu ≢ some i
Guard {i} {lk} (Move.already_holding _) = lk.cpu ≡ some i
Guard {lk} (Move.spin _) = lk.locked ≢ 0
Guard {lk} (Move.win _) = lk.locked ≡ 0
Guard {lk} (Move.unlock_not_locked _) = lk.locked ≡ 0
Guard {lk} (Move.unlock_is_locked _) = lk.locked ≢ 0
Guard {i} {lk} (Move.held_by_other _) = lk.cpu ≢ some i
Guard {i} {lk} (Move.held _) = lk.cpu ≡ some i
Guard _ = Unit

guard : {i : ℕ} {lk lk' : Spinlock} {p p' : Pc} (mv : Move i lk p lk' p') → Guard mv
guard (Move.not_locked g) = g
guard (Move.is_locked g) = g
guard (Move.not_mine g) = g
guard (Move.already_holding g) = g
guard (Move.spin g) = g
guard (Move.win g) = g
guard (Move.unlock_not_locked g) = g
guard (Move.unlock_is_locked g) = g
guard (Move.held_by_other g) = g
guard (Move.held g) = g
guard _ = tt

module _ {lk : Spinlock} {pc : ℕ → Pc} (inv : Inv lk pc) (i : ℕ) where
  open inv use {unique, taken, recorded, owner, held_by, no_panic}

  Move-unique :
      {p p' : Pc} {lk' : Spinlock}
      → Move i lk p lk' p'
      → pc i ≡ p
      → (a b : ℕ) → holds (update pc i p' a) ≡ true
      → holds (update pc i p' b) ≡ true
      → a ≡ b
  Move-unique (Move.win g) e a b ha hb = ground (arith, taken a, taken b, unique a b)
  Move-unique mv e a b ha hb = ground (arith, guard mv, unique a b, unique i a, unique i b)

  Move-taken :
      {p p' : Pc} {lk' : Spinlock}
      → Move i lk p lk' p'
      → pc i ≡ p
      → (a : ℕ) → holds (update pc i p' a) ≡ true
      → lk'.locked ≢ 0
  Move-taken Move.release e a ha = ground (arith, unique i a)
  Move-taken mv e a ha = ground (arith, guard mv, taken a, taken i)

  Move-recorded :
      {p p' : Pc} {lk' : Spinlock}
      → Move i lk p lk' p'
      → pc i ≡ p
      → (a : ℕ) → named (update pc i p' a) ≡ true
      → lk'.cpu ≡ some a
  Move-recorded Move.clear_cpu e a ha = ground (arith, recorded a, recorded i)
  Move-recorded mv e a ha = ground (arith, guard mv, recorded a, recorded i, unique i a)

  Move-owner :
      {p p' : Pc} {lk' : Spinlock}
      → Move i lk p lk' p'
      → pc i ≡ p
      → (a : ℕ) → lk'.cpu ≡ some a
      → named (update pc i p' a) ≡ true
  Move-owner Move.record_cpu e a ha = ground (arith, owner a)
  Move-owner mv e a ha = ground (arith, guard mv, owner a, owner i, taken i, recorded i)

  Move-no_panic :
      {p p' : Pc} {lk' : Spinlock}
      → Move i lk p lk' p'
      → pc i ≡ p
      → (a : ℕ) → update pc i p' a ≢ panicked
  Move-no_panic Move.call_lock e a = ground (arith, no_panic a)
  Move-no_panic mv e a = ground (arith, guard mv, no_panic a, owner i, recorded i, taken i)

  -- The holder after a move: the one before, or the processor that has just won the lock.
  Move-held_by :
      {p p' : Pc} {lk' : Spinlock}
      → Move i lk p lk' p'
      → pc i ≡ p
      → lk'.locked ≢ 0
      → (a : ℕ) × (holds (update pc i p' a) ≡ true)
  Move-held_by (Move.win g) e h = (i, ground arith)
  Move-held_by (Move.spin g) e h = let (a, held) = held_by g in (a, ground arith)
  Move-held_by Move.release e h = absurd (h refl)
  Move-held_by mv e h =
      let (a, held) = held_by h in (a, ground (arith, guard mv, taken i, recorded i))

  Move-Inv : {p' : Pc} {lk' : Spinlock} → Move i lk (pc i) lk' p' → Inv lk' (update pc i p')
  Move-Inv mv = record {
    unique = Move-unique mv refl;
    taken = Move-taken mv refl;
    recorded = Move-recorded mv refl;
    owner = Move-owner mv refl;
    held_by = Move-held_by mv refl;
    no_panic = Move-no_panic mv refl;
  }

pub start-Inv : (lk : Spinlock) → Inv (start lk).lock (start lk).pc
unfolding spin_initlock
start-Inv lk = record {
  unique = λ i j a b. cc;
  taken = λ i a. cc;
  recorded = λ i a. cc;
  owner = λ i a. cc;
  held_by = λ h. absurd (h refl);
  no_panic = λ i. ground arith;
}

pub Step-Inv : {s t : Machine} → Step s t → Inv s.lock s.pc → Inv t.lock t.pc
Step-Inv (Step.turn i mv) inv = Move-Inv inv i mv

pub Steps-Inv : {s t : Machine} → Steps s t → Inv s.lock s.pc → Inv t.lock t.pc
Steps-Inv Steps.here inv = inv
Steps-Inv (Steps.later r st) inv = Step-Inv st (Steps-Inv r inv)
