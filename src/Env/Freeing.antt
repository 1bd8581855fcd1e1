-- ===== src/Env/Freeing.antt =====
-- The outer loop of env_free of kern/env.c, over the user page tables of an environment.
use os2017_lab.Base.{
  ℕ, zero, suc, ◌+◌, ◌≤◌, ◌<◌, ◌≡◌, ◌≢◌, refl, sym, ap, ◌∙◌, inl, inr, Bool, true, false, ◌&&◌,
  ◌||◌, arith, ltb, leb, ◌==◌, has_bits, Bool-cases,
}
use os2017_lab.Memlayout.{pte_p, pgnum, pte_addr}
use os2017_lab.Kernel.{Kernel, ok}
use os2017_lab.Pmap.{pte_at, kaddr, pa2page, store_entry, set_ref, link_free}
use os2017_lab.Pmap.View.{has_table, table, IsSpace, user_tables}
use os2017_lab.Pmap.Walk.{kaddr-ok}
use os2017_lab.Pmap.Remove.{dropped, page_decref-ok}
use os2017_lab.Env.{unmap_entries, free_table, free_tables}
use os2017_lab.Env.Release.{HasPages, Unmaps, unmap_entries-Unmaps}

-- The page tables of the directory entries for which `gone` holds are freed.
pub record Frees (k k' : Kernel) (pgdir : ℕ) (gone : ℕ → Bool) : Type 0 where
  pub npages_kept : k'.npages ≡ k.npages
  pub envs_kept : k'.envs ≡ k.envs
  pub free_kept : k'.env_free_list ≡ k.env_free_list
  pub freed : (i : ℕ) → gone i ≡ true → has_table k'.mem pgdir i ≡ false
  pub stays : (i : ℕ) → has_table k'.mem pgdir i ≡ true → k'.mem pgdir i ≡ k.mem pgdir i
  pub others : (i : ℕ) → gone i ≡ false → k'.mem pgdir i ≡ k.mem pgdir i
  pub rest :
      (f i : ℕ)
      → f ≢ pgdir
      → ((j : ℕ) → gone j ≡ true → has_table k.mem pgdir j ≡ true → f ≢ table k.mem pgdir j)
      → k'.mem f i ≡ k.mem f i

has_bits_zero : has_bits 0 pte_p ≡ false
unfolding has_bits
has_bits_zero = refl

pub pa2page_ok : (pa : ℕ) (k : Kernel) → pgnum pa < k.npages → pa2page pa k ≡ ok (pgnum pa) k
unfolding pa2page
pa2page_ok pa k small = ground arith

module _ (k : Kernel) (pgdir d : ℕ) (space : IsSpace k.npages k.mem pgdir)
    (user : d < user_tables) where
  -- The state after the entries are gone: the table's own page loses its reference.
  unfoldable closed : ℕ → Kernel → Kernel
  closed pt k1 = dropped pt (store_entry (pte_at pgdir d) 0 k1)

  closed-Frees :
      (k1 : Kernel)
      → has_table k.mem pgdir d ≡ true
      → Unmaps k k1 (table k.mem pgdir d) 1024
      → Frees k (closed (table k.mem pgdir d) k1) pgdir (λ j. j == d)
  unfolding closed dropped store_entry link_free set_ref
  closed-Frees k1 there unmaps =
      let dir : (i : ℕ) → k1.mem pgdir i ≡ k.mem pgdir i =
        λ i. unmaps.others pgdir i (λ same. space.off_dir d user there (sym same)) in
      record {
        npages_kept = unmaps.npages_kept;
        envs_kept = unmaps.envs_kept;
        free_kept = unmaps.free_kept;
        freed = λ i here. ground (arith, here, has_bits_zero);
        stays = λ i there'. ground (arith, there', has_bits_zero, dir i);
        others = λ i off. ground (arith, off, dir i);
        rest = λ f i off apart.
            let self : (d == d) ≡ true = ground arith in
            let out = unmaps.others f i (apart d self there) in ground (arith, off, out);
      }

  free_table_skips : has_table k.mem pgdir d ≡ false → free_table pgdir d k ≡ ok tt k
  unfolding free_table
  free_table_skips missing = rw missing refl

  skipped-Frees : has_table k.mem pgdir d ≡ false → Frees k k pgdir (λ j. j == d)
  skipped-Frees missing = record {
    npages_kept = refl;
    envs_kept = refl;
    free_kept = refl;
    freed = λ i here. let same : i ≡ d = ground (arith, here) in rw same missing;
    stays = λ i there. refl;
    others = λ i off. refl;
    rest = λ f i off none'. refl;
  }

  npages_stored : (k1 : Kernel) → (store_entry (pte_at pgdir d) 0 k1).npages ≡ k1.npages
  unfolding store_entry
  npages_stored k1 = refl

  free_table-closes :
      (k1 : Kernel)
      → has_table k.mem pgdir d ≡ true
      → unmap_entries pgdir d (table k.mem pgdir d) 1024 0 k ≡ ok tt k1
      → k1.npages ≡ k.npages
      → free_table pgdir d k ≡ ok tt (closed (table k.mem pgdir d) k1)
  unfolding free_table closed
  free_table-closes k1 there runs pages =
      let pde = k.mem pgdir d in
      let page : pgnum (pte_addr pde) ≡ pgnum pde = omega arith in
      let reach : kaddr (pte_addr pde) k ≡ ok (pgnum pde) k =
        kaddr-ok (pte_addr pde) k (rw page (space.in_range d there))
          (rw page (space.reachable d there))
        ∙ ap (λ (f : ℕ). ok f k) page in
      let s = store_entry (pte_at pgdir d) 0 k1 in
      let valid : pgnum (pte_addr pde) < s.npages =
        omega (arith, page, npages_stored k1, pages, space.in_range d there) in
      let own : pa2page (pte_addr pde) s ≡ ok (pgnum pde) s =
        pa2page_ok (pte_addr pde) s valid ∙ ap (λ (f : ℕ). ok f s) page in
      simp (there, reach, runs, own, page_decref-ok)

  free_table-Frees :
      (has_table k.mem pgdir d ≡ true → HasPages k pgdir d)
      → (k' : Kernel) × (free_table pgdir d k ≡ ok tt k') × Frees k k' pgdir (λ j. j == d)
  free_table-Frees pages = elim (Bool-cases (has_table k.mem pgdir d)) [
    | inr missing ↦ (k, free_table_skips missing, skipped-Frees missing)
    | inl there ↦
        let (k1, runs, unmaps) =
          unmap_entries-Unmaps 1024 0 1024 (table k.mem pgdir d) k pgdir d (omega arith)
            (omega arith) refl space user there (λ i low. pages there i) in
        (
          closed (table k.mem pgdir d) k1,
          free_table-closes k1 there runs unmaps.npages_kept,
          closed-Frees k1 there unmaps,
        )
  ]

module _ (k k1 : Kernel) (pgdir : ℕ) (gone : ℕ → Bool) (frees : Frees k k1 pgdir gone) where
  was_there : (i : ℕ) → has_table k1.mem pgdir i ≡ true → has_table k.mem pgdir i ≡ true
  was_there i there = rw (← frees.stays i there) there

  freed-IsSpace : IsSpace k.npages k.mem pgdir → IsSpace k1.npages k1.mem pgdir
  freed-IsSpace space = record {
    in_range = λ i there.
        rw (frees.stays i there, frees.npages_kept) (space.in_range i (was_there i there));
    reachable = λ i there. rw (frees.stays i there) (space.reachable i (was_there i there));
    apart = λ i j low there there'.
        rw (frees.stays i there, frees.stays j there')
          (space.apart i j low (was_there i there) (was_there j there'));
    off_dir = λ i low there. rw (frees.stays i there) (space.off_dir i low (was_there i there));
  }

  freed-HasPages :
      (i : ℕ)
      → IsSpace k.npages k.mem pgdir
      → i < user_tables
      → gone i ≡ false
      → ((j : ℕ) → gone j ≡ true → j < user_tables)
      → (has_table k.mem pgdir i ≡ true → HasPages k pgdir i)
      → has_table k1.mem pgdir i ≡ true
      → HasPages k1 pgdir i
  freed-HasPages i space low kept users pages there t small =
      let before = was_there i there in
      let same : k1.mem (table k.mem pgdir i) t ≡ k.mem (table k.mem pgdir i) t =
        frees.rest (table k.mem pgdir i) t (space.off_dir i low before) (λ j away there' h.
          let twin : i ≡ j = space.apart i j low before there' h in
          absurd (ground (arith, kept, away, ap gone twin))) in
      rw (frees.others i kept, same, frees.npages_kept) (pages before t small)

  Frees-then :
      (k' : Kernel) (later both : ℕ → Bool)
      → ((j : ℕ) → both j ≡ (gone j || later j))
      → Frees k1 k' pgdir later
      → Frees k k' pgdir both
  Frees-then k' later both either two = record {
    npages_kept = two.npages_kept ∙ frees.npages_kept;
    envs_kept = two.envs_kept ∙ frees.envs_kept;
    free_kept = two.free_kept ∙ frees.free_kept;
    freed = λ i away. elim (Bool-cases (later i)) [
      | inl now ↦ two.freed i now
      | inr before ↦
          rw (two.others i before) (frees.freed i (ground (arith, either i, away, before)))
    ];
    stays = λ i there.
        let same = two.stays i there in
        let there1 : has_table k1.mem pgdir i ≡ true = rw (← same) there in
        same ∙ frees.stays i there1;
    others = λ i kept.
        two.others i (ground (arith, either i, kept))
        ∙ frees.others i (ground (arith, either i, kept));
    rest = λ f i off apart.
        two.rest f i off (λ j now there1.
          rw (frees.stays j there1) (apart j (ground (arith, either j, now)) (was_there j there1)))
        ∙ frees.rest f i off (λ j away. apart j (ground (arith, either j, away)));
  }

abbrev pub span : (d n j : ℕ) → Bool
span d n j = leb d j && ltb j (d + n)

pub free_tables-Frees :
    (n d : ℕ) (k : Kernel) (pgdir : ℕ)
    → d + n ≤ user_tables
    → IsSpace k.npages k.mem pgdir
    → ((i : ℕ) → d ≤ i → i < d + n → has_table k.mem pgdir i ≡ true → HasPages k pgdir i)
    → (k' : Kernel) × (free_tables pgdir n d k ≡ ok tt k') × Frees k k' pgdir (span d n)
unfolding free_tables
free_tables-Frees zero d k pgdir within space pages = (
  k,
  refl,
  record {
    npages_kept = refl;
    envs_kept = refl;
    free_kept = refl;
    freed = λ i away. absurd (ground (arith, away));
    stays = λ i there. refl;
    others = λ i kept. refl;
    rest = λ f i off apart. refl;
  },
)
free_tables-Frees (suc n) d k pgdir within space pages =
    let (k1, runs, once) =
      free_table-Frees k pgdir d space (omega arith) (pages d (omega arith) (omega arith)) in
    let (k', more, then') =
      free_tables-Frees n (d + 1) k1 pgdir (omega arith)
        (freed-IsSpace k k1 pgdir (λ j. j == d) once space)
        (λ i after low.
          freed-HasPages k k1 pgdir (λ j. j == d) once i space (omega arith) (ground (arith, after))
            (λ j same. ground (arith, same, within))
            (pages i (omega (arith, after)) (omega (arith, low)))) in
    (
      k',
      simp (runs, more),
      Frees-then k k1 pgdir (λ j. j == d) once k' (span (d + 1) n) (span d (suc n))
          (λ j. ground arith) then',
    )
