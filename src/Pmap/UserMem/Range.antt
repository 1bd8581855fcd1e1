-- ===== src/Pmap/UserMem/Range.antt =====
-- The ranges that user_mem_check of kern/pmap.c grants, and its error path.
use os2017_lab.Base.{
  ℕ, zero, suc, ◌+◌, ◌-◌, ◌*◌, ◌/◌, ◌%◌, ◌≤◌, ◌<◌, ◌≡◌, ◌≢◌, ◌↔◌, ◌∙◌, bit_and, bit_or, true, false,
  inl, inr, Option, none, some, arith, ltb, Bool-cases, has_bits,
}
use os2017_lab.Base.Bits.{bit_or-odd, zero-bit_and}
use os2017_lab.Memlayout.{u32_mod, pgsize, pte_p, ulim, pgnum, pdx, ptx}
use os2017_lab.Memlayout.Laws.{roundup_least}
use os2017_lab.Kernel.{Env, Kernel, ok, fault, null_pointer}
use native.Mathlib.Decide.{dec_lt}
use os2017_lab.Pmap.{PtePointer, pte_at}
use os2017_lab.Pmap.View.{has_table, table, mmu_entry, IsSpace, mmu_entry-there}
use os2017_lab.Pmap.Walk.{pgdir_walk-present, pgdir_walk-absent}
use os2017_lab.Pmap.UserMem.{set_check_addr, check_failed, check_loop, end_of, user_mem_check}

-- The entry for address `a` has every bit of `p`.
abbrev pub Grants : Kernel → (pgdir p a : ℕ) → Type 0
Grants k pgdir p a = bit_and (mmu_entry k.mem pgdir a) p ≡ p

module _ (pgdir va end_va p : ℕ) (odd : p % 2 ≡ 1) where
  -- With an odd mask an address without a page table is not granted.
  has_table-of_Grants :
      (k : Kernel) (a : ℕ) → Grants k pgdir p a → has_table k.mem pgdir (pdx a) ≡ true
  unfolding mmu_entry
  has_table-of_Grants k a g = ground (arith, zero-bit_and p)

  Grants-same_page :
      (k : Kernel) (a b : ℕ) → pgnum a ≡ pgnum b → Grants k pgdir p a → Grants k pgdir p b
  unfolding mmu_entry
  Grants-same_page k a b e g =
      let dir : pdx a ≡ pdx b = omega arith in
      let tab : ptx a ≡ ptx b = omega arith in rw (← dir, ← tab) g

  -- One round of the loop.
  check_loop-stops :
      (fuel : ℕ) (k : Kernel)
      → end_va ≤ k.user_mem_check_addr
      → check_loop pgdir va end_va p (suc fuel) k ≡ ok 0 k
  unfolding check_loop
  check_loop-stops fuel k h = ground arith

  check_loop-goes_on :
      (fuel : ℕ) (k : Kernel)
      → IsSpace k.npages k.mem pgdir
      → k.user_mem_check_addr < end_va
      → k.user_mem_check_addr ≤ ulim
      → Grants k pgdir p k.user_mem_check_addr
      → check_loop pgdir va end_va p (suc fuel) k
        ≡ check_loop pgdir va end_va p fuel
            (set_check_addr ((k.user_mem_check_addr + pgsize) % u32_mod) k)
  unfolding check_loop
  check_loop-goes_on fuel k space h low g =
      let there = has_table-of_Grants k k.user_mem_check_addr g in
      let more : ltb k.user_mem_check_addr end_va ≡ true = ground arith in
      rw more (
        rw (pgdir_walk-present k pgdir k.user_mem_check_addr false space there)
          (ground (arith, mmu_entry-there k.mem pgdir k.user_mem_check_addr there)))

  check_loop-faults :
      (fuel : ℕ) (k : Kernel)
      → k.user_mem_check_addr < end_va
      → k.user_mem_check_addr ≢ va
      → has_table k.mem pgdir (pdx k.user_mem_check_addr) ≡ false
      → has_bits (mmu_entry k.mem k.cr3 0) pte_p ≡ false
      → check_loop pgdir va end_va p (suc fuel) k ≡ fault null_pointer
  unfolding check_loop check_failed
  check_loop-faults fuel k h other missing unmapped =
      let more : ltb k.user_mem_check_addr end_va ≡ true = ground arith in
      rw more
        (rw (pgdir_walk-absent k pgdir k.user_mem_check_addr missing) (ground (arith, unmapped)))

  check_failed-ne-zero : (k k' : Kernel) (pte : Option PtePointer) → check_failed va pte k ≢ ok 0 k'
  unfolding check_failed
  check_failed-ne-zero k k' none e = ground arith
  check_failed-ne-zero k k' (some q) e = ground arith

  -- A round that ends in the answer 0 has found its page granted.
  Passed : ℕ → Kernel → Kernel → Type 0
  Passed fuel k k' =
      Grants k pgdir p k.user_mem_check_addr
      × (k.user_mem_check_addr ≤ ulim)
      × (check_loop pgdir va end_va p fuel
            (set_check_addr ((k.user_mem_check_addr + pgsize) % u32_mod) k)
          ≡ ok 0 k')

  check_loop-Passed :
      (fuel : ℕ) (k k' : Kernel)
      → IsSpace k.npages k.mem pgdir
      → k.user_mem_check_addr < end_va
      → check_loop pgdir va end_va p (suc fuel) k ≡ ok 0 k'
      → Passed fuel k k'
  unfolding check_loop Passed
  check_loop-Passed fuel k k' space h e =
      let more : ltb k.user_mem_check_addr end_va ≡ true = ground arith in
      let e' = rw more at e in
      elim (Bool-cases (has_table k.mem pgdir (pdx k.user_mem_check_addr))) [
        | inr missing ↦ absurd (
            check_failed-ne-zero k k' none
              (rw (pgdir_walk-absent k pgdir k.user_mem_check_addr missing) at e'))
        | inl there ↦
            let e'' =
              rw (pgdir_walk-present k pgdir k.user_mem_check_addr false space there) at e' in
            ground (
              arith,
              mmu_entry-there k.mem pgdir k.user_mem_check_addr there,
              check_failed-ne-zero k k' (
                  some (
                    pte_at (table k.mem pgdir (pdx k.user_mem_check_addr))
                      (ptx k.user_mem_check_addr))),
            )
      ]

  -- From address `c` on, every page below the end is granted.
  Rest : Kernel → ℕ → Type 0
  Rest k c = (a : ℕ) → pgnum c ≤ pgnum a → a < end_va → Grants k pgdir p a

  check_loop_sound :
      (fuel : ℕ) (k k' : Kernel)
      → IsSpace k.npages k.mem pgdir
      → end_va + pgsize ≤ u32_mod
      → end_va % pgsize ≡ 0
      → check_loop pgdir va end_va p fuel k ≡ ok 0 k'
      → Rest k k.user_mem_check_addr
  unfolding Rest check_loop Passed
  check_loop_sound zero k k' space top whole e a from below = cc
  check_loop_sound (suc fuel) k k' space top whole e a from below =
      let (g, low, e') = check_loop-Passed fuel k k' space (omega arith) e in
      elim (dec_lt (pgnum k.user_mem_check_addr) (pgnum a)) [
        | yes later ↦
            check_loop_sound fuel (set_check_addr ((k.user_mem_check_addr + pgsize) % u32_mod) k) k'
              space top whole e' a (omega arith) below
        | no same ↦ Grants-same_page k k.user_mem_check_addr a (omega arith) g
      ]

  check_loop_complete :
      (fuel : ℕ) (k : Kernel)
      → IsSpace k.npages k.mem pgdir
      → end_va + pgsize ≤ u32_mod
      → end_va ≤ ulim
      → end_va ≤ k.user_mem_check_addr + fuel * pgsize
      → Rest k k.user_mem_check_addr
      → (k' : Kernel) × (check_loop pgdir va end_va p (suc fuel) k ≡ ok 0 k')
  unfolding Rest
  check_loop_complete zero k space top low enough rest = (k, check_loop-stops zero k (omega arith))
  check_loop_complete (suc fuel) k space top low enough rest =
      elim (dec_lt k.user_mem_check_addr end_va) [
        | no done ↦ (k, check_loop-stops (suc fuel) k (omega arith))
        | yes more ↦
            let next = set_check_addr ((k.user_mem_check_addr + pgsize) % u32_mod) k in
            let ahead =
              check_loop_complete fuel next space top low (omega arith)
                (λ a from below. rest a (omega arith) below) in
            (
              ahead.0,
              check_loop-goes_on (suc fuel) k space more (omega arith) (rest _ (omega arith) more)
                  ∙ ahead.1,
            )
      ]

-- The mask that the pages are held to.
abbrev pub mask : ℕ → ℕ
mask perm = bit_or perm pte_p

module _ (env : Env) (k : Kernel) (pgdir va len perm : ℕ) (space : IsSpace k.npages k.mem pgdir)
    (own : env.env_pgdir ≡ some pgdir) (some_bytes : 0 < len) (below : va + len ≤ ulim) where
  mask_odd : mask perm % 2 ≡ 1
  mask_odd = ground (arith, bit_or-odd perm pte_p)

  end_bounds :
      (va + len ≤ end_of va len)
      × (end_of va len < va + len + pgsize)
      × (end_of va len % pgsize ≡ 0)
  end_bounds =
      let fits : (va + len) % u32_mod ≡ va + len = omega arith in
      rw fits (roundup_least (va + len) (omega arith))

  -- A page that the loop visits holds a byte of the range.
  visited :
      ((a : ℕ) → va ≤ a → a < va + len → Grants k pgdir (mask perm) a)
      → (a : ℕ) → pgnum va ≤ pgnum a
      → a < end_of va len
      → Grants k pgdir (mask perm) a
  visited all a from to = elim (dec_lt a va) [
    | yes before ↦ same va (omega arith) (all va (omega arith) (omega arith))
    | no inside ↦ elim (dec_lt a (va + len)) [
      | yes within ↦ all a (omega arith) within
      | no beyond ↦
          same (va + len - 1) (omega (arith, end_bounds)) (all _ (omega arith) (omega arith))
    ]
  ]
    where
      same :
          (b : ℕ) → pgnum b ≡ pgnum a → Grants k pgdir (mask perm) b → Grants k pgdir (mask perm) a
      same b e = Grants-same_page pgdir va (end_of va len) (mask perm) mask_odd k b a e

  -- For an environment with a well-formed address space and a nonempty range up to ULIM at most,
  -- user_mem_check returns 0 exactly when every byte of the range lies on a page whose entry has
  -- all of `perm | PTE_P`.
  pub user_mem_check_iff :
      ((k' : Kernel) × (user_mem_check env va len perm k ≡ ok 0 k'))
      ↔ ((a : ℕ) → va ≤ a → a < va + len → Grants k pgdir (mask perm) a)
  unfolding user_mem_check Rest
  user_mem_check_iff = (
    λ (k', e) a from to.
        check_loop_sound pgdir va (end_of va len) (mask perm) mask_odd _ (set_check_addr va k) k'
          space (omega (arith, end_bounds)) (end_bounds.2) (rw own at e) a (omega arith)
          (omega (arith, end_bounds)),
    λ all.
        let done =
          check_loop_complete pgdir va (end_of va len) (mask perm) mask_odd
            (suc (end_of va len / pgsize)) (set_check_addr va k) space (omega (arith, end_bounds))
            (omega (arith, end_bounds)) (omega (arith, end_bounds)) (visited all) in
        (done.0, rw own done.1),
  )

  -- For an environment with a well-formed address space, a range up to ULIM at most that is longer
  -- than a page, whose first page is granted and whose second page has no page table, while no page
  -- is mapped at address 0 of the address space in use: user_mem_check stops the kernel, since the
  -- error path follows the NULL that the walk returned.
  pub user_mem_check_stops_kernel :
      pgsize < len
      → Grants k pgdir (mask perm) va
      → has_table k.mem pgdir (pdx (va + pgsize)) ≡ false
      → has_bits (mmu_entry k.mem k.cr3 0) pte_p ≡ false
      → user_mem_check env va len perm k ≡ fault null_pointer
  unfolding user_mem_check
  user_mem_check_stops_kernel long first missing unmapped =
      let next : (va + pgsize) % u32_mod ≡ va + pgsize = omega arith in
      let end_va = end_of va len in
      rw own (
        check_loop-goes_on pgdir va end_va (mask perm) mask_odd (suc (end_va / pgsize))
          (set_check_addr va k) space (omega (arith, end_bounds)) (omega arith) first
        ∙ check_loop-faults pgdir va end_va (mask perm) mask_odd (end_va / pgsize)
            (set_check_addr ((va + pgsize) % u32_mod) k) (omega (arith, end_bounds)) (omega arith)
            (rw next missing) unmapped)

-- For an environment with a page directory and a range that wraps around 2^32 and ends at least a
-- page below its start, user_mem_check returns 0 without looking at any page.
pub user_mem_check_wraps :
    (env : Env) (k : Kernel) (pgdir va len perm : ℕ)
    → env.env_pgdir ≡ some pgdir
    → va < u32_mod
    → len < u32_mod
    → u32_mod ≤ va + len
    → va + len - u32_mod + pgsize ≤ va
    → user_mem_check env va len perm k ≡ ok 0 (set_check_addr va k)
unfolding user_mem_check
user_mem_check_wraps env k pgdir va len perm own word small over short =
    let wrapped : (va + len) % u32_mod ≡ va + len - u32_mod = omega arith in
    let stop : end_of va len ≤ va =
      rw wrapped (omega (arith, roundup_least (va + len - u32_mod) (omega arith))) in
    rw own (
      check_loop-stops pgdir va (end_of va len) (mask perm) (ground (arith, bit_or-odd perm pte_p))
        _ (set_check_addr va k) stop)
