-- ===== src/Env/Freed.antt =====
-- env_free of kern/env.c: what becomes of the page tables and of the slot.
use os2017_lab.Base.{
  ℕ, ◌<◌, ◌≡◌, refl, sym, ap, ◌∙◌, inl, inr, true, false, none, some, arith, ◌==◌, if◌then◌else◌,
  same_pointer, Bool-cases,
}
use os2017_lab.Memlayout.{pgnum, pdx, utop}
use os2017_lab.Kernel.{Kernel, EnvStatus, ok}
use os2017_lab.Pmap.{pa2page, paddr, set_ref, link_free}
use os2017_lab.Pmap.View.{has_table, table, IsSpace, user_tables}
use os2017_lab.Pmap.Remove.{dropped, page_decref-ok}
use os2017_lab.Pmap.Isolation.{IsApart, Kept}
use os2017_lab.Env.{set_env, free_tables, release_env, env_free}
use os2017_lab.Env.Freeing.{Frees, span, pa2page_ok, free_tables-Frees}
use os2017_lab.Env.Release.{HasPages}

-- The state after the switch away from an address space that is about to go.
unfoldable switched : ℕ → Kernel → Kernel
switched e k = if same_pointer (some e) k.curenv then record k { cr3 = k.kern_pgdir } else k

switched-keeps :
    (e : ℕ) (k : Kernel)
    → ((switched e k).mem ≡ k.mem)
      × ((switched e k).npages ≡ k.npages)
      × ((switched e k).envs ≡ k.envs)
      × ((switched e k).env_free_list ≡ k.env_free_list)
unfolding switched
switched-keeps e k = elim (Bool-cases (same_pointer (some e) k.curenv)) [
  | inl current ↦ rw current (refl, refl, refl, refl)
  | inr other ↦ rw other (refl, refl, refl, refl)
]

-- The last part of env_free.
unfoldable finished : (e pgdir : ℕ) → Kernel → Kernel
finished e pgdir s =
    release_env e (dropped pgdir (set_env e (record (s.envs e) { env_pgdir = none }) s))

env_free-finishes :
    (e pgdir : ℕ) (k s : Kernel)
    → ((switched e k).envs e).env_pgdir ≡ some pgdir
    → free_tables pgdir (pdx utop) 0 (switched e k) ≡ ok tt s
    → pgdir < s.npages
    → env_free e k ≡ ok tt (finished e pgdir s)
unfolding env_free finished switched
env_free-finishes e pgdir k s own runs small =
    let page : pgnum (paddr pgdir) ≡ pgdir = omega arith in
    let s2 = set_env e (record (s.envs e) { env_pgdir = none }) s in
    let found : pa2page (paddr pgdir) s2 ≡ ok pgdir s2 =
      pa2page_ok (paddr pgdir) s2 (rw page small) ∙ ap (λ (f : ℕ). ok f s2) page in
    simp (own, runs, found, page_decref-ok)

module _ (k : Kernel) (e pgdir : ℕ) (own : (k.envs e).env_pgdir ≡ some pgdir)
    (small : pgdir < k.npages) (space : IsSpace k.npages k.mem pgdir)
    (pages : (d : ℕ) → d < user_tables → has_table k.mem pgdir d ≡ true → HasPages k pgdir d) where
  finished-keeps :
      (s : Kernel)
      → ((finished e pgdir s).mem ≡ s.mem)
        × ((finished e pgdir s).env_free_list ≡ some e)
        × ((i : ℕ)
            → (finished e pgdir s).envs i ≡ (
                if i == e
                then record (s.envs e) {
                  env_pgdir = none;
                  env_status = EnvStatus.env_free;
                  env_link = s.env_free_list;
                }
                else s.envs i))
  unfolding finished release_env dropped set_ref link_free
  finished-keeps s = (refl, refl, λ i. ground arith)

  finished-Kept :
      (s : Kernel) (other : ℕ)
      → Frees (switched e k) s pgdir (span 0 user_tables)
      → IsApart k.mem pgdir other
      → Kept k.mem (finished e pgdir s).mem other
  finished-Kept s other frees apart =
      let (mem, number, slots, free) = switched-keeps e k in
      let gone = λ (j : ℕ) (low : span 0 user_tables j ≡ true).
        let user : j < user_tables = ground (arith, low) in user in
      rw ((finished-keeps s).0) (record {
        dir = λ i.
            frees.rest other i (λ same. apart.ne_dir (sym same))
              (λ j low. rw mem (λ there same. apart.off_dir j (gone j low) there (sym same)))
            ∙ rw mem refl;
        tables = λ j i there.
            frees.rest (table k.mem other j) i (λ same. apart.dir_off j there (sym same))
              (λ d low.
                rw mem (λ there' same. apart.off_table d j (gone d low) there' there (sym same)))
            ∙ rw mem refl;
      })

  finished-releases :
      (s : Kernel) (other : ℕ)
      → free_tables pgdir (pdx utop) 0 (switched e k) ≡ ok tt s
      → Frees (switched e k) s pgdir (span 0 user_tables)
      → IsApart k.mem pgdir other
      → (k' : Kernel) × (env_free e k ≡ ok tt k')
        × (k'.env_free_list ≡ some e)
        × ((i : ℕ)
            → k'.envs i ≡ (
                if i == e
                then record (k.envs e) {
                  env_pgdir = none;
                  env_status = EnvStatus.env_free;
                  env_link = k.env_free_list;
                }
                else k.envs i))
        × ((d : ℕ) → d < user_tables → has_table k'.mem pgdir d ≡ false)
        × Kept k.mem k'.mem other
  finished-releases s other runs frees apart =
      let (mem, number, slots, free) = switched-keeps e k in
      let (mem', head, envs') = finished-keeps s in
      let mine : ((switched e k).envs e).env_pgdir ≡ some pgdir = rw slots own in
      let valid : pgdir < s.npages = rw (frees.npages_kept, number) small in
      (
        finished e pgdir s,
        env_free-finishes e pgdir k s mine runs valid,
        head,
        λ i. envs' i ∙ rw (frees.envs_kept, frees.free_kept, slots, free) refl,
        λ d low. rw mem' (frees.freed d (ground (arith, low))),
        finished-Kept s other frees apart,
      )

  -- For an environment with a well-formed address space, whose page directory is a page of the
  -- machine and whose present user entries all hold pages of the machine, and another address space
  -- that its user page tables are no part of: env_free returns. The slot is first on the list of
  -- free ones, before the list there was, is marked free and has no page directory; the other slots
  -- are as before. The old page directory has no user page table left, and the other address space
  -- is as it was.
  pub env_free_releases :
      (other : ℕ)
      → IsApart k.mem pgdir other
      → (k' : Kernel) × (env_free e k ≡ ok tt k')
        × (k'.env_free_list ≡ some e)
        × ((i : ℕ)
            → k'.envs i ≡ (
                if i == e
                then record (k.envs e) {
                  env_pgdir = none;
                  env_status = EnvStatus.env_free;
                  env_link = k.env_free_list;
                }
                else k.envs i))
        × ((d : ℕ) → d < user_tables → has_table k'.mem pgdir d ≡ false)
        × Kept k.mem k'.mem other
  env_free_releases other apart =
      let (mem, number, slots, free) = switched-keeps e k in
      let (s, runs, frees) =
        free_tables-Frees user_tables 0 (switched e k) pgdir (omega arith) (rw (mem, number) space)
          (λ d after low. rw (mem, number) (pages d low)) in
      finished-releases s other runs frees apart
