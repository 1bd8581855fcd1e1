-- ===== src/Env/Release.antt =====
-- The inner loop of env_free of kern/env.c, over the entries of one page table.
use os2017_lab.Base.{
  ℕ, zero, suc, ◌+◌, ◌^◌, ◌≤◌, ◌<◌, ◌≡◌, ◌≢◌, refl, sym, ap, ◌∙◌, inl, inr, true, arith, has_bits,
  Bool-cases,
}
use os2017_lab.Memlayout.{pte_p, pgnum, pdx, ptx, pgaddr}
use os2017_lab.Memlayout.Laws.{pgaddr-sum}
use os2017_lab.Kernel.{Kernel, ok}
use os2017_lab.Pmap.{page_remove, store_entry, set_ref, link_free, tlb_invalidate}
use os2017_lab.Pmap.View.{
  has_table, table, mmu_entry, IsSpace, IsSpace-dir, user_tables, mmu_entry-there,
}
use os2017_lab.Pmap.Remove.{dropped, removed, page_remove-there}
use os2017_lab.Env.{unmap_entries}

-- Every present entry of page table `d` holds a page of the machine.
abbrev pub HasPages : Kernel → (pgdir d : ℕ) → Type 0
HasPages k pgdir d =
    (t : ℕ)
    → t < 1024
    → has_bits (k.mem (table k.mem pgdir d) t) pte_p ≡ true
    → pgnum (k.mem (table k.mem pgdir d) t) < k.npages

-- Only frame `pt` has changed, and there no entry from `from` on.
pub record Unmaps (k k' : Kernel) (pt from : ℕ) : Type 0 where
  pub npages_kept : k'.npages ≡ k.npages
  pub envs_kept : k'.envs ≡ k.envs
  pub free_kept : k'.env_free_list ≡ k.env_free_list
  pub others : (f i : ℕ) → f ≢ pt → k'.mem f i ≡ k.mem f i
  pub later : (i : ℕ) → from ≤ i → k'.mem pt i ≡ k.mem pt i

Unmaps-none : (k : Kernel) (pt from : ℕ) → Unmaps k k pt from
Unmaps-none k pt from = record {
  npages_kept = refl;
  envs_kept = refl;
  free_kept = refl;
  others = λ f i off. refl;
  later = λ i after. refl;
}

-- The address that env_free gives to page_remove for an entry.
entry_address :
    (d t : ℕ) → d < 2 ^ 10 → t < 1024 → (pdx (pgaddr d t 0) ≡ d) × (ptx (pgaddr d t 0) ≡ t)
entry_address d t hd ht =
    let sum = pgaddr-sum d t 0 hd ht (omega arith) in (rw sum (omega arith), rw sum (omega arith))

module _ (k : Kernel) (pgdir d t : ℕ) (space : IsSpace k.npages k.mem pgdir)
    (user : d < user_tables) (low : t < 1024) (there : has_table k.mem pgdir d ≡ true) where
  page_remove-entry :
      pgnum (k.mem (table k.mem pgdir d) t) < k.npages
      → (k' : Kernel) × (page_remove pgdir (pgaddr d t 0) k ≡ ok tt k')
        × Unmaps k k' (table k.mem pgdir d) (t + 1)
  unfolding removed dropped store_entry tlb_invalidate link_free set_ref
  page_remove-entry valid =
      let (dir, index) = entry_address d t (omega (arith, user)) low in
      let there' : has_table k.mem pgdir (pdx (pgaddr d t 0)) ≡ true = rw dir there in
      let entry : mmu_entry k.mem pgdir (pgaddr d t 0) ≡ k.mem (table k.mem pgdir d) t =
        mmu_entry-there k.mem pgdir (pgaddr d t 0) there' ∙ rw (dir, index) refl in
      (
        removed k pgdir (pgaddr d t 0),
        page_remove-there k pgdir (pgaddr d t 0) space there' (rw entry valid),
        record {
          npages_kept = refl;
          envs_kept = refl;
          free_kept = refl;
          others = λ f i off. rw (dir, index) (ground (arith, off));
          later = λ i after. rw (dir, index) (ground (arith, after));
        },
      )

Unmaps-then :
    (k k1 k' : Kernel) (pt from to : ℕ)
    → from ≤ to
    → Unmaps k k1 pt from
    → Unmaps k1 k' pt to
    → Unmaps k k' pt to
Unmaps-then k k1 k' pt from to more one two = record {
  npages_kept = two.npages_kept ∙ one.npages_kept;
  envs_kept = two.envs_kept ∙ one.envs_kept;
  free_kept = two.free_kept ∙ one.free_kept;
  others = λ f i off. two.others f i off ∙ one.others f i off;
  later = λ i after. two.later i after ∙ one.later i (omega arith);
}

pub unmap_entries-Unmaps :
    (rounds t end pt : ℕ) (k : Kernel) (pgdir d : ℕ)
    → t + rounds ≡ end
    → end ≤ 1024
    → table k.mem pgdir d ≡ pt
    → IsSpace k.npages k.mem pgdir
    → d < user_tables
    → has_table k.mem pgdir d ≡ true
    → ((i : ℕ)
        → t ≤ i
        → i < end
        → has_bits (k.mem pt i) pte_p ≡ true
        → pgnum (k.mem pt i) < k.npages)
    → (k' : Kernel) × (unmap_entries pgdir d pt rounds t k ≡ ok tt k') × Unmaps k k' pt end
unfolding unmap_entries
unmap_entries-Unmaps zero t end pt k pgdir d span within own space user there pages =
    (k, refl, Unmaps-none k pt end)
unmap_entries-Unmaps (suc rounds) t end pt k pgdir d span within own space user there pages =
    elim (Bool-cases (has_bits (k.mem pt t) pte_p)) [
      | inr absent ↦
          let (k', runs, unmaps) =
            unmap_entries-Unmaps rounds (t + 1) end pt k pgdir d (omega arith) within own space user
              there (λ i after. pages i (omega (arith, after))) in
          (k', rw absent runs, unmaps)
      | inl present ↦
          let (k1, removes, removed') =
            page_remove-entry k pgdir d t space user (omega arith) there
              (rw own (pages t (omega arith) (omega arith) present)) in
          let once : Unmaps k k1 pt (t + 1) = rw (← own) removed' in
          let dir : (i : ℕ) → k1.mem pgdir i ≡ k.mem pgdir i =
            λ i. once.others pgdir i (λ same. space.off_dir d user there (own ∙ sym same)) in
          let (k', runs, unmaps) =
            unmap_entries-Unmaps rounds (t + 1) end pt k1 pgdir d (omega arith) within
              (ap pgnum (dir d) ∙ own)
              (IsSpace-dir k.npages k1.npages k.mem k1.mem pgdir once.npages_kept dir space) user
              (rw (dir d) there)
              (λ i after low.
                rw (once.later i after, once.npages_kept) (pages i (omega (arith, after)) low)) in
          (
            k',
            rw present (simp (removes, runs)),
            Unmaps-then k k1 k' pt (t + 1) end (omega arith) once unmaps,
          )
    ]
