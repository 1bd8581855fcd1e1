-- ===== src/Syscall/Share.antt =====
-- sys_page_map of kern/syscall.c for a mapped page, and the two calls by which duppage of lib/fork.c
-- shares a page copy-on-write.
use os2017_lab.Base.{ℕ, ◌^◌, ◌≤◌, ◌<◌, ◌≡◌, ◌≢◌, ◌∙◌, true, false, not, ◌&&◌, some, arith, has_bits}
use os2017_lab.Memlayout.{pte_p, pte_w, pte_u, pgsize, pgnum, pdx, utop}
use os2017_lab.Kernel.{Kernel, Cmd, ok}
use os2017_lab.Pmap.{page_insert}
use os2017_lab.Pmap.View.{has_table, mmu_entry, IsSpace, mmu_entry-there}
use os2017_lab.Pmap.Remove.{page_lookup-there}
use os2017_lab.Pmap.Insert.{HasRoom}
use os2017_lab.Pmap.Isolation.{IsApart, Kept, Inserts, Unused, mmu_entry-Kept, page_insert_isolates}
use os2017_lab.Pmap.Mapping.{MapsTo}
use os2017_lab.Env.Lookup.{Names, MayManage, envid2env_checked}
use os2017_lab.Syscall.{bad_user_page, other_bits, managed, pgdir_of, share_page, sys_page_map}

-- An identifier of an environment that the caller may manage reaches its slot.
pub managed-runs :
    {A : Type 0} (failed : ℕ → A) (next : ℕ → Cmd A) (k : Kernel) (c envid e : ℕ)
    → k.curenv ≡ some c
    → envid ≢ 0
    → Names k envid e
    → MayManage k c e
    → managed envid failed next k ≡ next e k
unfolding managed
managed-runs failed next k c envid e now nonzero named may =
    let (to, from) = envid2env_checked k c envid now nonzero e in simp (from (named, may))

-- Address `va` of `pgdir` is a user address that is mapped to a page of the machine.
pub record IsThere (k : Kernel) (pgdir va : ℕ) : Type 0 where
  pub there : has_table k.mem pgdir (pdx va) ≡ true
  pub present : has_bits (mmu_entry k.mem pgdir va) pte_p ≡ true
  pub valid : pgnum (mmu_entry k.mem pgdir va) < k.npages

-- The page that an address is mapped to.
abbrev pub page_at : Kernel → (pgdir va : ℕ) → ℕ
page_at k pgdir va = pgnum (mmu_entry k.mem pgdir va)

-- `perm` asks for no PTE_W on a page that the source may not write.
abbrev pub MayWrite : Kernel → (pgdir va perm : ℕ) → Type 0
MayWrite k pgdir va perm =
    (has_bits perm pte_w && not (has_bits (mmu_entry k.mem pgdir va) pte_w)) ≡ false

module _ (k : Kernel) (srcenv dstenv srcva dstva perm src dst : ℕ)
    (own : (k.envs srcenv).env_pgdir ≡ some src) (own' : (k.envs dstenv).env_pgdir ≡ some dst)
    (space : IsSpace k.npages k.mem src) (source : IsThere k src srcva)
    (write : MayWrite k src srcva perm) where
  pub share_page-inserts :
      (k' : Kernel)
      → page_insert dst (page_at k src srcva) dstva perm k ≡ ok 0 k'
      → share_page srcenv dstenv srcva dstva perm k ≡ ok 0 k'
  unfolding share_page pgdir_of
  share_page-inserts k' runs = simp (
    own,
    page_lookup-there k src srcva space source.there source.valid,
    ← mmu_entry-there k.mem src srcva source.there,
    write,
    own',
    runs,
  )

-- A nonzero identifier of slot `e`, which the current environment `c` may manage.
abbrev pub Manages : Kernel → (c envid e : ℕ) → Type 0
Manages k c envid e = (envid ≢ 0) × Names k envid e × MayManage k c e

-- The permission bits that the page system calls accept, as a 12-bit number.
abbrev pub IsUserPerm : ℕ → Type 0
IsUserPerm perm =
    (perm < pgsize)
    × (has_bits perm pte_u ≡ true)
    × (has_bits perm pte_p ≡ true)
    × (other_bits perm ≡ 0)

module _ (k : Kernel) (c srcid dstid srcenv dstenv srcva dstva perm : ℕ) (now : k.curenv ≡ some c)
    (source : Manages k c srcid srcenv) (target : Manages k c dstid dstenv)
    (from : bad_user_page srcva ≡ false) (to : bad_user_page dstva ≡ false)
    (bits : IsUserPerm perm) where
  pub sys_page_map-shares :
      sys_page_map srcid srcva dstid dstva perm k ≡ share_page srcenv dstenv srcva dstva perm k
  unfolding sys_page_map
  sys_page_map-shares =
      managed-runs _ _ k c srcid srcenv now source.0 source.1 source.2
      ∙ managed-runs _ _ k c dstid dstenv now target.0 target.1 target.2
      ∙ ground (arith, bits.1, bits.2)

  module _ (src dst other : ℕ) (own : (k.envs srcenv).env_pgdir ≡ some src)
      (own' : (k.envs dstenv).env_pgdir ≡ some dst) (few : k.npages ≤ 2 ^ 20)
      (space : IsSpace k.npages k.mem src) (there : IsThere k src srcva)
      (write : MayWrite k src srcva perm) (space' : IsSpace k.npages k.mem dst)
      (room : HasRoom k dst dstva) (apart : IsApart k.mem dst other)
      (unused : Unused k dst other dstva) where
    pub sys_page_map-Inserts :
        (k' : Kernel) × (sys_page_map srcid srcva dstid dstva perm k ≡ ok 0 k')
        × Inserts k k' dst (page_at k src srcva) dstva perm
        × Kept k.mem k'.mem other
    sys_page_map-Inserts =
        let user : dstva < utop = ground (arith, to) in
        let small : page_at k src srcva < 2 ^ 20 = omega (arith, there.valid) in
        let (k', inserts, kept) =
          page_insert_isolates dst (page_at k src srcva) dstva perm k user small bits.0 space' other
            room apart unused in
        (
          k',
          sys_page_map-shares
              ∙ share_page-inserts k srcenv dstenv srcva dstva perm src dst own own' space there
                  write k' inserts.runs,
          inserts,
          kept,
        )

    -- While an environment is current, on a machine of at most 2^20 pages: where the caller may
    -- manage the source and the destination, the same or not, both addresses are user pages, the
    -- bits below PGSIZE are ones that the call accepts, without PTE_W if the source may not write,
    -- the source page is mapped, both address spaces are well-formed and the destination has a page
    -- table or a fresh page for one, sys_page_map returns 0 and maps the destination to the page of
    -- the source with these bits. No other user page of that address space is translated
    -- differently, and no address of any space that its user tables and the fresh page are no part
    -- of.
    pub sys_page_map_maps :
        (k' : Kernel) × (sys_page_map srcid srcva dstid dstva perm k ≡ ok 0 k')
        × MapsTo k.mem k'.mem dst (page_at k src srcva) dstva perm
        × ((va : ℕ) → mmu_entry k'.mem other va ≡ mmu_entry k.mem other va)
    sys_page_map_maps =
        let (k', runs, inserts, kept) = sys_page_map-Inserts in
        (k', runs, inserts.maps, λ va. mmu_entry-Kept k.mem k'.mem other va kept)
