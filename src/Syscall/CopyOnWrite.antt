-- ===== src/Syscall/CopyOnWrite.antt =====
-- The two calls of sys_page_map by which duppage of lib/fork.c shares a page copy-on-write, in the
-- page tables of the kernel.
use os2017_lab.Base.{
  ℕ, ◌^◌, ◌≤◌, ◌<◌, ◌≡◌, refl, sym, ◌∙◌, inl, inr, false, some, arith, if◌then◌else◌, has_bits,
}
use os2017_lab.Memlayout.{pte_w, pdx, utop}
use os2017_lab.Kernel.{Kernel, ok}
use os2017_lab.Pmap.View.{mmu_entry, IsSpace, IsSpace-dir, same_page}
use os2017_lab.Pmap.Words.{mapping}
use os2017_lab.Pmap.Insert.{HasRoom, table_there}
use os2017_lab.Pmap.Isolation.{IsApart, Kept, Inserts, Unused, mmu_entry-Kept}
use os2017_lab.Syscall.{bad_user_page, sys_page_map}
use os2017_lab.Syscall.Share.{IsThere, page_at, MayWrite, Manages, IsUserPerm, sys_page_map-Inserts}

-- Two address spaces whose user page tables are apart, and a mapped page of the first at an address
-- for which the second has room.
pub record CanShare (k : Kernel) (src dst va : ℕ) : Type 0 where
  pub few : k.npages ≤ 2 ^ 20
  pub space : IsSpace k.npages k.mem src
  pub space' : IsSpace k.npages k.mem dst
  pub mapped : IsThere k src va
  pub room : HasRoom k dst va
  pub apart : IsApart k.mem dst src
  pub apart' : IsApart k.mem src dst
  pub unused : Unused k dst src va

-- An address space whose tables are kept stays well-formed, and its pages stay mapped.
module _ (k k' : Kernel) (pgdir : ℕ) (kept : Kept k.mem k'.mem pgdir)
    (same : k'.npages ≡ k.npages) where
  kept-IsSpace : IsSpace k.npages k.mem pgdir → IsSpace k'.npages k'.mem pgdir
  kept-IsSpace = IsSpace-dir k.npages k'.npages k.mem k'.mem pgdir same kept.dir

  kept-IsThere : (va : ℕ) → IsThere k pgdir va → IsThere k' pgdir va
  kept-IsThere va mapped =
      let entry = mmu_entry-Kept k.mem k'.mem pgdir va kept in
      record {
        there = rw (kept.dir (pdx va)) mapped.there;
        present = rw entry mapped.present;
        valid = rw (entry, same) mapped.valid;
      }

-- After a page went into the second address space, its tables are still apart from those of the
-- first: one that is new was free before.
inserted-IsApart :
    (k k' : Kernel) (src dst pp va perm : ℕ)
    → IsApart k.mem src dst
    → Unused k dst src va
    → Inserts k k' dst pp va perm
    → Kept k.mem k'.mem src
    → IsApart k'.mem src dst
inserted-IsApart k k' src dst pp va perm apart unused inserts kept = record {
  ne_dir = apart.ne_dir;
  off_dir = λ i low. rw (kept.dir i) (apart.off_dir i low);
  dir_off = λ j there. elim (inserts.tables j there) [
    | inl (old, same) ↦ rw same (apart.dir_off j old)
    | inr (missing, head) ↦ λ h. (unused missing _ head).ne_dir (sym h)
  ];
  off_table = λ i j low has there. elim (inserts.tables j there) [
    | inl (old, same) ↦ rw (same, kept.dir i) (apart.off_table i j low (rw (← kept.dir i) has) old)
    | inr (missing, head) ↦
        rw (kept.dir i) ((unused missing _ head).no_table i (rw (← kept.dir i) has))
  ];
}

module _ (k : Kernel) (c myid childid child va perm src dst : ℕ) (now : k.curenv ≡ some c)
    (me : Manages k c myid c) (target : Manages k c childid child) (page : bad_user_page va ≡ false)
    (bits : IsUserPerm perm) (read_only : has_bits perm pte_w ≡ false)
    (own : (k.envs c).env_pgdir ≡ some src) (own' : (k.envs child).env_pgdir ≡ some dst)
    (can : CanShare k src dst va) where
  abbrev pub WithPage : Kernel → ℕ → Type 0
  WithPage k' pgdir =
      (va' : ℕ)
      → va' < utop
      → mmu_entry k'.mem pgdir va'
        ≡ (if same_page va va' then mapping (page_at k src va) perm else mmu_entry k.mem pgdir va')

  no_write : (k' : Kernel) (pgdir : ℕ) → MayWrite k' pgdir va perm
  no_write k' pgdir = rw read_only refl

  -- While environment `c` is current and maps a user page of its own, first into an environment
  -- that it may manage and then again into itself, with accepted permission bits below PGSIZE and
  -- without PTE_W: both calls of sys_page_map return 0, both environments then have the page that
  -- `c` had there, with these bits, and no other user page of either is translated differently. The
  -- two address spaces are well-formed, their user page tables are apart, the page was mapped, the
  -- other space has a page table there or a fresh page for one, and the machine has at most 2^20
  -- pages.
  pub sys_page_map_shares_twice :
      (k1 k2 : Kernel) × (sys_page_map myid va childid va perm k ≡ ok 0 k1)
      × (sys_page_map myid va myid va perm k1 ≡ ok 0 k2)
      × WithPage k2 src
      × WithPage k2 dst
  sys_page_map_shares_twice =
      let (k1, runs, inserts, kept) =
        sys_page_map-Inserts k c myid childid c child va va perm now me target page page bits src
          dst src own own' can.few can.space can.mapped (no_write k src) can.space' can.room
          can.apart can.unused in
      let pages = inserts.npages_kept in
      let slots = inserts.envs_kept in
      let current = inserts.curenv_kept in
      let mapped = kept-IsThere k k1 src kept pages va can.mapped in
      let space = kept-IsSpace k k1 src kept pages can.space in
      let apart = inserted-IsApart k k1 src dst _ va perm can.apart' can.unused inserts kept in
      let (k2, runs', inserts', kept') =
        sys_page_map-Inserts k1 c myid myid c c va va perm (rw current now) (rw slots me)
          (rw slots me) page page bits src src dst (rw slots own) (rw slots own) (rw pages can.few)
          space mapped (no_write k1 src) space (table_there mapped.there mapped.valid) apart
          (λ missing. absurd (ground (arith, missing, mapped.there))) in
      let same = λ (a : ℕ). mmu_entry-Kept k.mem k1.mem src a kept in
      (
        k1,
        k2,
        runs,
        runs',
        λ va' user. inserts'.maps.2 va' user ∙ rw (same va, same va') refl,
        λ va' user. mmu_entry-Kept k1.mem k2.mem dst va' kept' ∙ inserts.maps.2 va' user,
      )
