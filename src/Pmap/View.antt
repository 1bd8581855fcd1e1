-- ===== src/Pmap/View.antt =====
-- What the page tables of kern/pmap.c mean to the processor: the entry that its two-level walk
-- finds for an address, as a function of the physical memory alone.
use os2017_lab.Base.{
  ℕ, ◌<◌, ◌≡◌, ◌≢◌, fun_ext, Bool, true, ◌&&◌, arith, ◌==◌, if◌then◌else◌, has_bits,
}
use os2017_lab.Memlayout.{pte_p, pgnum, pdx, ptx, utop}
use os2017_lab.Kernel.{Kernel}
use os2017_lab.Pmap.{PtePointer, pte_at, store_entry, kernel_frames}

abbrev pub Memory : Type 0
Memory = ℕ → ℕ → ℕ

-- Directory entry `i` has a page table, and the frame of that table.
abbrev pub has_table : Memory → ℕ → ℕ → Bool
has_table m pgdir i = has_bits (m pgdir i) pte_p

abbrev pub table : Memory → ℕ → ℕ → ℕ
table m pgdir i = pgnum (m pgdir i)

-- The entry of the page table for address `va`, zero where there is no table; the permission bits of
-- the directory entry are not part of it.
unfoldable pub mmu_entry : Memory → ℕ → ℕ → ℕ
mmu_entry m pgdir va = if has_table m pgdir (pdx va) then m (table m pgdir (pdx va)) (ptx va) else 0

-- Whether the processor finds the permission bits `perm` set at both levels of its walk for `va`, with
-- both entries present.
unfoldable pub mmu_allows : Memory → (pgdir va perm : ℕ) → Bool
mmu_allows m pgdir va perm =
    let dir = m pgdir (pdx va) in
    let pte = mmu_entry m pgdir va in
    has_bits dir pte_p && has_bits pte pte_p && has_bits dir perm && has_bits pte perm

abbrev pub IsMapped : Memory → ℕ → ℕ → Type 0
IsMapped m pgdir va = has_bits (mmu_entry m pgdir va) pte_p ≡ true

-- Two addresses lie on one page.
abbrev pub same_page : ℕ → ℕ → Bool
same_page va va' = (pdx va == pdx va') && (ptx va == ptx va')

-- Directory entries below this one are the user part of an address space.
abbrev pub user_tables : ℕ
user_tables = pdx utop

-- A well-formed address space: a page directory whose tables the kernel can reach, and whose user
-- tables are its own: none serves two entries, and none is the directory itself.
pub record IsSpace (n : ℕ) (m : Memory) (pgdir : ℕ) : Type 0 where
  pub in_range : (i : ℕ) → has_table m pgdir i ≡ true → table m pgdir i < n
  pub reachable : (i : ℕ) → has_table m pgdir i ≡ true → table m pgdir i < kernel_frames
  pub apart :
      (i j : ℕ)
      → i < user_tables
      → has_table m pgdir i ≡ true
      → has_table m pgdir j ≡ true
      → table m pgdir i ≡ table m pgdir j
      → i ≡ j
  pub off_dir : (i : ℕ) → i < user_tables → has_table m pgdir i ≡ true → table m pgdir i ≢ pgdir

-- Only the page directory matters for it.
pub IsSpace-dir :
    (n n' : ℕ) (m m' : Memory) (pgdir : ℕ)
    → n' ≡ n
    → ((i : ℕ) → m' pgdir i ≡ m pgdir i)
    → IsSpace n m pgdir
    → IsSpace n' m' pgdir
IsSpace-dir n n' m m' pgdir pages same space = record {
  in_range = λ i. rw (same i, pages) (space.in_range i);
  reachable = λ i. rw (same i) (space.reachable i);
  apart = λ i j. rw (same i, same j) (space.apart i j);
  off_dir = λ i. rw (same i) (space.off_dir i);
}

pub pdx-lt-user_tables : (va : ℕ) → va < utop → pdx va < user_tables
pdx-lt-user_tables va h = omega arith

pub mmu_entry-there :
    (m : Memory) (pgdir va : ℕ)
    → has_table m pgdir (pdx va) ≡ true
    → mmu_entry m pgdir va ≡ m (table m pgdir (pdx va)) (ptx va)
unfolding mmu_entry
mmu_entry-there m pgdir va there = rw there

pub store_entry-store_entry :
    (p : PtePointer) (v w : ℕ) (k : Kernel)
    → (store_entry p w (store_entry p v k)).mem ≡ (store_entry p w k).mem
unfolding store_entry
store_entry-store_entry p v w k = fun_ext λ f. fun_ext λ i. twice f i
  where
    twice : (f i : ℕ) → (store_entry p w (store_entry p v k)).mem f i ≡ (store_entry p w k).mem f i
    twice f i = ground arith

-- A write to the entry of `va` changes the walk for the addresses of that page and no other.
module _ (k : Kernel) {n : ℕ} {pgdir va : ℕ} (space : IsSpace n k.mem pgdir) (user : va < utop)
    (there : has_table k.mem pgdir (pdx va) ≡ true) where
  pub mmu_entry-store :
      (v va' : ℕ)
      → mmu_entry (store_entry (pte_at (table k.mem pgdir (pdx va)) (ptx va)) v k).mem pgdir va'
        ≡ (if same_page va va' then v else mmu_entry k.mem pgdir va')
  unfolding mmu_entry store_entry
  mmu_entry-store v va' = ground (
    arith,
    space.off_dir (pdx va) (pdx-lt-user_tables va user) there,
    space.apart (pdx va) (pdx va') (pdx-lt-user_tables va user) there,
  )
