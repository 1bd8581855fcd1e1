-- ===== src/Pmap/Isolation.antt =====
-- page_insert of kern/pmap.c and the address spaces of the other environments.
use os2017_lab.Base.{
  ℕ, ◌^◌, ◌<◌, ◌≡◌, ◌≢◌, ◌⊎◌, refl, sym, ap, ◌∙◌, inl, inr, true, false, some, arith, ◌==◌,
  has_bits, Bool-cases,
}
use os2017_lab.Memlayout.{pte_p, pgsize, pgnum, pdx, ptx, utop}
use os2017_lab.Kernel.{Kernel, ok}
use os2017_lab.Pmap.{
  page_insert, incref, set_ref, link_free, tlb_invalidate, unlink_head, store_entry, clear_frame,
}
use os2017_lab.Pmap.View.{
  Memory, has_table, table, mmu_entry, IsSpace, user_tables, pdx-lt-user_tables,
}
use os2017_lab.Pmap.Walk.{with_table, popped}
use os2017_lab.Pmap.Words.{pgnum-directory_entry}
use os2017_lab.Pmap.Remove.{removed, dropped}
use os2017_lab.Pmap.Insert.{
  HasRoom, IsFresh, table_there, table_free, written, replaced, filled, extended,
  page_insert-replaces, page_insert-fills, page_insert-extends, mmu_entry-filled,
  mmu_entry-replaced, mmu_entry-extended, extended_dir,
}
use os2017_lab.Pmap.Mapping.{MapsTo, MapsTo-of_entries}

-- No user table of `own` is a frame of the page tables of `other`.
pub record IsApart (m : Memory) (own other : ℕ) : Type 0 where
  pub ne_dir : own ≢ other
  pub off_dir : (i : ℕ) → i < user_tables → has_table m own i ≡ true → table m own i ≢ other
  pub dir_off : (j : ℕ) → has_table m other j ≡ true → own ≢ table m other j
  pub off_table :
      (i j : ℕ)
      → i < user_tables
      → has_table m own i ≡ true
      → has_table m other j ≡ true
      → table m own i ≢ table m other j

-- The page directory `pgdir` and its tables have the entries in `m'` that they have in `m`.
pub record Kept (m m' : Memory) (pgdir : ℕ) : Type 0 where
  pub dir : (i : ℕ) → m' pgdir i ≡ m pgdir i
  pub tables :
      (j i : ℕ) → has_table m pgdir j ≡ true → m' (table m pgdir j) i ≡ m (table m pgdir j) i

-- Where its tables are kept, an address space is translated as before.
pub mmu_entry-Kept :
    (m m' : Memory) (pgdir va : ℕ) → Kept m m' pgdir → mmu_entry m' pgdir va ≡ mmu_entry m pgdir va
unfolding mmu_entry
mmu_entry-Kept m m' pgdir va kept =
    rw (kept.dir (pdx va)) (ground (arith, kept.tables (pdx va) (ptx va)))

-- Memory outside the frames that page_insert writes.
pub record Outside (k : Kernel) (pgdir va f : ℕ) : Type 0 where
  pub ne_dir : f ≢ pgdir
  pub ne_table : has_table k.mem pgdir (pdx va) ≡ true → f ≢ table k.mem pgdir (pdx va)
  pub ne_free : has_table k.mem pgdir (pdx va) ≡ false → k.page_free_list ≢ some f

-- A page table that was there before.
abbrev pub WasThere : Memory → Memory → (pgdir j : ℕ) → Type 0
WasThere m m' pgdir j = (has_table m pgdir j ≡ true) × (table m' pgdir j ≡ table m pgdir j)

-- Where a page table has to be made for the address, the page for it is no part of `other`.
abbrev pub Unused : Kernel → (pgdir other va : ℕ) → Type 0
Unused k pgdir other va =
    has_table k.mem pgdir (pdx va) ≡ false → (t : ℕ) → k.page_free_list ≡ some t → IsFresh k other t

-- page_insert succeeds: what it maps, and the frames, tables and fields that it leaves alone.
pub record Inserts (k k' : Kernel) (pgdir pp va perm : ℕ) : Type 0 where
  pub runs : page_insert pgdir pp va perm k ≡ ok 0 k'
  pub maps : MapsTo k.mem k'.mem pgdir pp va perm
  pub rest : (f i : ℕ) → Outside k pgdir va f → k'.mem f i ≡ k.mem f i
  pub tables :
      (j : ℕ)
      → has_table k'.mem pgdir j ≡ true
      → WasThere k.mem k'.mem pgdir j
        ⊎ ((has_table k.mem pgdir (pdx va) ≡ false)
            × (k.page_free_list ≡ some (table k'.mem pgdir j)))
  pub npages_kept : k'.npages ≡ k.npages
  pub envs_kept : k'.envs ≡ k.envs
  pub curenv_kept : k'.curenv ≡ k.curenv

module _ (pgdir pp va perm : ℕ) (k : Kernel) (user : va < utop) (page : pp < 2 ^ 20)
    (bits : perm < pgsize) (space : IsSpace k.npages k.mem pgdir) where
  page_insert_extends :
      (t : ℕ)
      → has_table k.mem pgdir (pdx va) ≡ false
      → IsFresh k pgdir t
      → Inserts k (extended pgdir pp va perm k t) pgdir pp va perm
  unfolding extended written incref set_ref tlb_invalidate with_table popped clear_frame store_entry
  page_insert_extends t missing fresh = record {
    runs = page_insert-extends pgdir pp va perm k t missing fresh;
    maps =
        MapsTo-of_entries pgdir pp va perm k user page bits _
          (mmu_entry-extended pgdir pp va perm k user t missing fresh space);
    rest = λ f i out.
        let other : f ≢ t = λ same. out.ne_free missing (rw same fresh.head) in
        ground (arith, out.ne_dir);
    tables = λ j there. elim (Bool-cases (j == pdx va)) [
      | inl here ↦ inr (
        missing,
        fresh.head
            ∙ ap some (
                sym (
                  ap pgnum (extended_dir pgdir pp va perm k user t missing fresh j ∙ rw here refl)
                  ∙ pgnum-directory_entry t)),
      )
      | inr off ↦
          let same : (extended pgdir pp va perm k t).mem pgdir j ≡ k.mem pgdir j =
            extended_dir pgdir pp va perm k user t missing fresh j ∙ rw off refl in
          inl (rw (← same) there, ap pgnum same)
    ];
    npages_kept = refl;
    envs_kept = refl;
    curenv_kept = refl;
  }

  module _ (there : has_table k.mem pgdir (pdx va) ≡ true) where
    page_insert_fills :
        has_bits (mmu_entry k.mem pgdir va) pte_p ≡ false
        → Inserts k (filled pgdir pp va perm k) pgdir pp va perm
    unfolding filled written incref set_ref tlb_invalidate unlink_head store_entry
    page_insert_fills empty = record {
      runs = page_insert-fills pgdir pp va perm k space there empty;
      maps =
          MapsTo-of_entries pgdir pp va perm k user page bits _
            (λ va' user'. mmu_entry-filled pgdir pp va perm k user space there va');
      rest = λ f i out. ground (arith, out.ne_table there);
      tables = λ j there'.
          inl (ground (arith, space.off_dir (pdx va) (pdx-lt-user_tables va user) there));
      npages_kept = refl;
      envs_kept = refl;
      curenv_kept = refl;
    }

    page_insert_replaces :
        has_bits (mmu_entry k.mem pgdir va) pte_p ≡ true
        → pgnum (mmu_entry k.mem pgdir va) < k.npages
        → Inserts k (replaced pgdir pp va perm k) pgdir pp va perm
    unfolding replaced written incref set_ref tlb_invalidate unlink_head removed dropped link_free
        store_entry
    page_insert_replaces present valid = record {
      runs = page_insert-replaces pgdir pp va perm k space there present valid;
      maps =
          MapsTo-of_entries pgdir pp va perm k user page bits _
            (λ va' user'. mmu_entry-replaced pgdir pp va perm k user space there va');
      rest = λ f i out. ground (arith, out.ne_table there);
      tables = λ j there'.
          inl (ground (arith, space.off_dir (pdx va) (pdx-lt-user_tables va user) there));
      npages_kept = refl;
      envs_kept = refl;
      curenv_kept = refl;
    }

  pub page_insert-Inserts : HasRoom k pgdir va → (k' : Kernel) × Inserts k k' pgdir pp va perm
  page_insert-Inserts (table_free t missing fresh) =
      (extended pgdir pp va perm k t, page_insert_extends t missing fresh)
  page_insert-Inserts (table_there there valid) =
      elim (Bool-cases (has_bits (mmu_entry k.mem pgdir va) pte_p)) [
        | inl present ↦ (replaced pgdir pp va perm k, page_insert_replaces there present valid)
        | inr empty ↦ (filled pgdir pp va perm k, page_insert_fills there empty)
      ]

  -- In a well-formed address space whose user page tables are no part of a second one, for an
  -- address below UTOP with a page table or a fresh page for one that is no part of the second
  -- either, a page number below 2^20 and permission bits below PGSIZE: page_insert returns 0 and
  -- maps the address in the first to the page; it changes no entry of the page directory of the
  -- second and of its tables.
  pub page_insert_isolates :
      (other : ℕ)
      → HasRoom k pgdir va
      → IsApart k.mem pgdir other
      → Unused k pgdir other va
      → (k' : Kernel) × Inserts k k' pgdir pp va perm × Kept k.mem k'.mem other
  page_insert_isolates other room apart unused =
      let (k', inserts) = page_insert-Inserts room in
      (
        k',
        inserts,
        record {
          dir = λ i. inserts.rest other i record {
            ne_dir = λ h. apart.ne_dir (sym h);
            ne_table = λ there h. apart.off_dir (pdx va) (pdx-lt-user_tables va user) there (sym h);
            ne_free = λ missing h. (unused missing other h).ne_dir refl;
          };
          tables = λ j i has. inserts.rest (table k.mem other j) i record {
            ne_dir = λ h. apart.dir_off j has (sym h);
            ne_table = λ there h.
                apart.off_table (pdx va) j (pdx-lt-user_tables va user) there has (sym h);
            ne_free = λ missing h. (unused missing (table k.mem other j) h).no_table j has refl;
          };
        },
      )
