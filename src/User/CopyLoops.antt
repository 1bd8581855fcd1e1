-- ===== src/User/CopyLoops.antt =====
-- The two loops of fork of lib/fork.c: which pages they share with the child.
use os2017_lab.Base.{
  ℕ, zero, suc, ◌+◌, ◌*◌, ◌/◌, ◌≤◌, ◌<◌, ◌≡◌, ◌≢◌, sym, ap, ◌∙◌, Bool, true, false, ◌&&◌, ◌||◌,
  arith, ltb, leb, ◌==◌, has_bits, Bool-cases, inl, inr,
}
use os2017_lab.Memlayout.{nptentries, pdx, pte_p}
use os2017_lab.User.{Sys}
use os2017_lab.User.Fork.{utext, duppage, dup_pages, dup_tables, table_rounds}
use os2017_lab.User.Cow.{Mapping, Paging}
use os2017_lab.User.CopySpace.{
  Steady, Copied, Copied-none, Copied-skip, Copied-then, duppage-Copied, last_page,
}

-- The pages of the `n` entries from `pn` on, without the exception stack and what lies above it.
abbrev pub entries : (pn n q : ℕ) → Bool
entries pn n q = leb pn q && ltb q (pn + n) && ltb q last_page

-- The state after the loops of fork.
abbrev pub copied : {S : Type 0} → Sys S → ℕ → S → S
copied sys envid s = dup_tables sys envid (table_rounds sys) (pdx utext) s

module _ {S : Type 0} (sys : Sys S) (space : S → ℕ → ℕ → Mapping) (good : S → Type 0) (envid : ℕ)
    (paging : Paging sys space) (steady : Steady sys envid good) (named : envid ≢ 0) where
  Copied-same :
      (s t : S) (first second : ℕ → Bool)
      → ((q : ℕ) → second q ≡ first q)
      → Copied sys space good envid s t first
      → Copied sys space good envid s t second
  Copied-same s t first second same copied = record {
    stays = copied.stays;
    caller_kept = copied.caller_kept;
    tables_kept = copied.tables_kept;
    shared = λ q small in_range. copied.shared q small (sym (same q) ∙ in_range);
    absent = copied.absent;
    rest = λ q e small known out. copied.rest q e small known (sym (same q) ∙ out);
  }

  -- One page, then the next ones.
  page_then :
      (n pn : ℕ) (s t u : S)
      → pn < last_page
      → Copied sys space good envid s t (λ q. q == pn)
      → Copied sys space good envid t u (entries (pn + 1) n)
      → Copied sys space good envid s u (entries pn (suc n))
  page_then n pn s t u before once more =
      Copied-same s u (λ q. (q == pn) || entries (pn + 1) n q) (entries pn (suc n))
        (λ q. ground (arith, before))
        (Copied-then sys space good envid paging named s t u (λ q. q == pn) (entries (pn + 1) n)
          (λ q here. ground (arith, here)) once more)

  pub dup_pages-Copied :
      (n pn : ℕ) (s : S)
      → pn + n ≤ last_page + 1
      → good s
      → envid ≢ sys.sys_getenvid s
      → Copied sys space good envid s (dup_pages sys envid n pn s) (entries pn n)
  unfolding dup_pages
  dup_pages-Copied zero pn s within fine child =
      Copied-none sys space good envid s (entries pn 0) fine (λ q. ground arith)
  dup_pages-Copied (suc n) pn s within fine child = elim (Bool-cases (pn == last_page)) [
    | inl stop ↦
        rw stop
          (Copied-none sys space good envid s (entries pn (suc n)) fine (λ q. ground (arith, stop)))
    | inr go ↦
        let before : pn < last_page = ground (arith, go, within) in
        elim (Bool-cases (has_bits (sys.uvpt s pn) pte_p)) [
          | inl here ↦
              let once =
                duppage-Copied sys space good envid paging named steady pn s (omega arith) fine
                  child here in
              let t = (duppage sys envid pn s).1 in
              let more =
                dup_pages-Copied n (pn + 1) t (omega arith) once.stays
                  (λ same. child (same ∙ once.caller_kept)) in
              rw (go, here) (page_then n pn s t (dup_pages sys envid n (pn + 1) t) before once more)
          | inr missing ↦
              let more = dup_pages-Copied n (pn + 1) s (omega arith) fine child in
              rw (go, missing)
                (page_then n pn s s (dup_pages sys envid n (pn + 1) s) before
                  (Copied-skip sys space good envid s pn fine missing) more)
        ]
  ]

  -- The pages of the `n` tables from `i` on that are present in the state `s`.
  abbrev pub in_tables : S → (i n q : ℕ) → Bool
  in_tables s i n q =
      entries (i * nptentries) (n * nptentries) q && has_bits (sys.uvpd s (q / nptentries)) pte_p

  table_then :
      (n i : ℕ) (s t u : S)
      → (n + 1 + i) * nptentries ≤ last_page + 1
      → has_bits (sys.uvpd s i) pte_p ≡ true
      → Copied sys space good envid s t (entries (i * nptentries) nptentries)
      → Copied sys space good envid t u (in_tables t (i + 1) n)
      → Copied sys space good envid s u (in_tables s i (suc n))
  table_then n i s t u within here once more =
      Copied-same s u (λ q. entries (i * nptentries) nptentries q || in_tables t (i + 1) n q)
        (in_tables s i (suc n))
        (λ q.
          let first : (q / nptentries ≡ i) → has_bits (sys.uvpd s (q / nptentries)) pte_p ≡ true =
            λ same. rw same here in
          ground (
            arith,
            first,
            once.tables_kept,
            ap (λ (d : ℕ → ℕ). has_bits (d (q / nptentries)) pte_p) once.tables_kept,
          ))
        (Copied-then sys space good envid paging named s t u (entries (i * nptentries) nptentries)
          (in_tables t (i + 1) n) (λ q here. ground (arith, here)) once more)

  pub dup_tables-Copied :
      (n i : ℕ) (s : S)
      → (n + i) * nptentries ≤ last_page + 1
      → good s
      → envid ≢ sys.sys_getenvid s
      → Copied sys space good envid s (dup_tables sys envid n i s) (in_tables s i n)
  unfolding dup_tables
  dup_tables-Copied zero i s within fine child =
      Copied-none sys space good envid s (in_tables s i 0) fine (λ q. ground arith)
  dup_tables-Copied (suc n) i s within fine child =
      elim (Bool-cases (has_bits (sys.uvpd s i) pte_p)) [
        | inl here ↦
            let once = dup_pages-Copied nptentries (i * nptentries) s (omega arith) fine child in
            let t = dup_pages sys envid nptentries (i * nptentries) s in
            let more =
              dup_tables-Copied n (i + 1) t (omega arith) once.stays
                (λ same. child (same ∙ once.caller_kept)) in
            rw here
              (table_then n i s t (dup_tables sys envid n (i + 1) t) (omega arith) here once more)
        | inr missing ↦
            let more = dup_tables-Copied n (i + 1) s (omega arith) fine child in
            rw missing (
              Copied-same s (dup_tables sys envid n (i + 1) s) (in_tables s (i + 1) n)
                (in_tables s i (suc n))
                (λ q.
                  let first : (q / nptentries ≡ i)
                      → has_bits (sys.uvpd s (q / nptentries)) pte_p ≡ false =
                    λ same. rw same missing in
                  ground (arith, first))
                more)
      ]
