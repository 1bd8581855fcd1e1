-- ===== src/User/CopySpace.antt =====
-- The loops by which fork of lib/fork.c copies an address space, page by page.
use os2017_lab.Base.{
  ℕ, ◌*◌, ◌%◌, ◌<◌, ◌≡◌, ◌≢◌, refl, sym, ap, ◌∙◌, ◌⊎◌, Bool, true, false, ◌||◌, arith, ◌==◌,
  has_bits, Bool-cases, inl, inr,
}
use os2017_lab.Memlayout.{u32_mod, pgsize, pte_p, pte_w, pte_u, pgnum, utop}
use os2017_lab.Syscall.{other_bits}
use os2017_lab.Env.{is_negative}
use os2017_lab.User.{Sys}
use os2017_lab.User.Fork.{pte_cow, dup_perm, duppage}
use os2017_lab.User.Cow.{Mapping, Paging, Shared, user_pages, duppage_shares}

-- The address of page `q`.
abbrev pub page_va : ℕ → ℕ
page_va q = (q * pgsize) % u32_mod

-- The permissions that sys_page_map takes for any page: PTE_U and PTE_P, no bit that programs may not
-- set, and no PTE_W.
abbrev pub Accepted : ℕ → Type 0
Accepted perm =
    (has_bits perm pte_u ≡ true)
    × (has_bits perm pte_p ≡ true)
    × (other_bits perm ≡ 0)
    × (has_bits perm pte_w ≡ false)

-- In the states `good`, the kernel has memory enough for the page tables that `child` still needs:
-- there sys_page_map of a present user page of the caller, with accepted permissions and into the
-- same address of the caller itself or of `child`, does not fail, and the state stays good. It
-- changes neither who the caller is nor which page tables the caller has.
pub record Steady {S : Type 0} (sys : Sys S) (child : ℕ) (good : S → Type 0) : Type 0 where
  pub copies :
      (me dstenv pn perm : ℕ) (s : S)
      → me ≡ sys.sys_getenvid s
      → good s
      → (dstenv ≡ child) ⊎ (dstenv ≡ me)
      → pn < user_pages
      → has_bits (sys.uvpt s pn) pte_p ≡ true
      → Accepted perm
      → let r = sys.sys_page_map me (page_va pn) dstenv (page_va pn) perm s in
        (is_negative r.0 ≡ false)
        × good r.1
        × (sys.sys_getenvid r.1 ≡ sys.sys_getenvid s)
        × (sys.uvpd r.1 ≡ sys.uvpd s)

dup_perm-Accepted : (pte : ℕ) → Accepted (dup_perm pte)
unfolding dup_perm has_bits
dup_perm-Accepted pte = elim (Bool-cases (has_bits pte pte_w || has_bits pte pte_cow)) [
  | inl shared ↦ rw (shared, has_bits) (refl, refl, refl, refl)
  | inr read_only ↦ rw (read_only, has_bits) (refl, refl, refl, refl)
]

-- The page where the copy stops: the exception stack.
abbrev pub last_page : ℕ
last_page = 0xeebff

module _ {S : Type 0} (sys : Sys S) (space : S → ℕ → ℕ → Mapping) (good : S → Type 0)
    (envid : ℕ) where
  -- From `s` to `t`, the pages of the caller for which `touched` holds are shared copy-on-write with
  -- `envid` if they are present; all other user pages stay as they are in every environment.
  pub record Copied (s t : S) (touched : ℕ → Bool) : Type 0 where
    pub stays : good t
    pub caller_kept : sys.sys_getenvid t ≡ sys.sys_getenvid s
    pub tables_kept : sys.uvpd t ≡ sys.uvpd s
    pub shared :
        (q : ℕ)
        → q < user_pages
        → touched q ≡ true
        → has_bits (sys.uvpt s q) pte_p ≡ true
        → Shared
            (space s (sys.sys_getenvid s) (page_va q))
            (space t (sys.sys_getenvid s) (page_va q))
            (space t envid (page_va q))
    pub absent :
        (q e : ℕ)
        → q < user_pages
        → e ≢ 0
        → has_bits (sys.uvpt s q) pte_p ≡ false
        → space t e (page_va q) ≡ space s e (page_va q)
    pub rest :
        (q e : ℕ)
        → q < user_pages
        → e ≢ 0
        → touched q ≡ false
        → space t e (page_va q) ≡ space s e (page_va q)

  pub Copied-none :
      (s : S) (touched : ℕ → Bool) → good s → ((q : ℕ) → touched q ≡ false) → Copied s s touched
  Copied-none s touched fine none = record {
    stays = fine;
    caller_kept = refl;
    tables_kept = refl;
    shared = λ q small yes' present. absurd (ground (arith, none q));
    absent = λ q e small named no'. refl;
    rest = λ q e small named no'. refl;
  }

  -- A page that is not present is passed over.
  pub Copied-skip :
      (s : S) (pn : ℕ) → good s → has_bits (sys.uvpt s pn) pte_p ≡ false → Copied s s (λ q. q == pn)
  Copied-skip s pn fine missing = record {
    stays = fine;
    caller_kept = refl;
    tables_kept = refl;
    shared = λ q small here present.
        let same : q ≡ pn = ground (arith, here) in
        let bit = ap (λ (x : ℕ). has_bits (sys.uvpt s x) pte_p) same in
        absurd (ground (arith, present, missing, bit));
    absent = λ q e small named no'. refl;
    rest = λ q e small named no'. refl;
  }

  module _ (paging : Paging sys space) (child_named : envid ≢ 0) where
    shown_same :
        (s t : S) (q bit : ℕ)
        → q < user_pages
        → bit < pgsize
        → sys.sys_getenvid t ≡ sys.sys_getenvid s
        → space t (sys.sys_getenvid s) (page_va q) ≡ space s (sys.sys_getenvid s) (page_va q)
        → has_bits (sys.uvpt t q) bit ≡ has_bits (sys.uvpt s q) bit
    shown_same s t q bit user low me same =
        paging.shown t q bit user low ∙ rw (me, same) refl ∙ sym (paging.shown s q bit user low)

    -- One stretch of pages after another.
    pub Copied-then :
        (s t u : S) (first second : ℕ → Bool)
        → ((q : ℕ) → first q ≡ true → second q ≡ false)
        → Copied s t first
        → Copied t u second
        → Copied s u (λ q. first q || second q)
    Copied-then s t u first second apart one two = record {
      stays = two.stays;
      caller_kept = two.caller_kept ∙ one.caller_kept;
      tables_kept = two.tables_kept ∙ one.tables_kept;
      shared = λ q small in_range present. elim (Bool-cases (first q)) [
        | inl early ↦
            rw
              (
                two.rest q (sys.sys_getenvid s) small (paging.caller_named s) (apart q early),
                two.rest q envid small child_named (apart q early),
              )
              (one.shared q small early present)
        | inr late ↦
            let mine = one.rest q (sys.sys_getenvid s) small (paging.caller_named s) late in
            let bit = shown_same s t q pte_p small (omega arith) one.caller_kept mine in
            rw (← mine, ← one.caller_kept)
              (two.shared q small (ground (arith, in_range)) (bit ∙ present))
      ];
      absent = λ q e small named no'.
          let mine = one.absent q (sys.sys_getenvid s) small (paging.caller_named s) no' in
          let bit = shown_same s t q pte_p small (omega arith) one.caller_kept mine in
          two.absent q e small named (bit ∙ no') ∙ one.absent q e small named no';
      rest = λ q e small named no'.
          two.rest q e small named (ground (arith, no'))
          ∙ one.rest q e small named (ground (arith, no'));
    }

    page_apart :
        (q pn : ℕ)
        → q < user_pages
        → pn < user_pages
        → q ≢ pn
        → (page_va q < utop) × (pgnum (page_va q) ≢ pgnum (page_va pn))
    page_apart q pn small small' other = (omega arith, omega arith)

    module _ (steady : Steady sys envid good) (pn : ℕ) (s : S) (user : pn < user_pages) where
      -- What calls that map at the address of page `pn` leave as it is.
      record Leaves (t : S) : Type 0 where
        stays : good t
        caller_kept : sys.sys_getenvid t ≡ sys.sys_getenvid s
        tables_kept : sys.uvpd t ≡ sys.uvpd s
        elsewhere :
            (e va : ℕ)
            → e ≢ 0
            → va < utop
            → pgnum va ≢ pgnum (page_va pn)
            → space t e va ≡ space s e va

      start-Leaves : good s → Leaves s
      start-Leaves fine = record {
        stays = fine;
        caller_kept = refl;
        tables_kept = refl;
        elsewhere = λ e va named low off. refl;
      }

      -- A call reports no error.
      abbrev Dups : ℕ × S → Type 0
      Dups d = (is_negative d.0 ≡ false) × Leaves d.1

      -- The destination is the child or the caller, and not named 0.
      map-Dups :
          (dstenv pte : ℕ) (t : S)
          → Leaves t
          → (dstenv ≡ envid) ⊎ (dstenv ≡ sys.sys_getenvid s)
          → dstenv ≢ 0
          → has_bits (sys.uvpt t pn) pte_p ≡ true
          → Dups (
              sys.sys_page_map
                (sys.sys_getenvid s)
                (page_va pn)
                dstenv
                (page_va pn)
                (dup_perm pte)
                t)
      map-Dups dstenv pte t leaves who named here =
          let me = sys.sys_getenvid s in
          let (reported, stays, caller, tables) =
            steady.copies me dstenv pn (dup_perm pte) t (sym leaves.caller_kept) leaves.stays who
              user here (dup_perm-Accepted pte) in
          (
            reported,
            record {
              stays = stays;
              caller_kept = caller ∙ leaves.caller_kept;
              tables_kept = tables ∙ leaves.tables_kept;
              elsewhere = λ e va named' low off.
                  paging.others me (page_va pn) dstenv (page_va pn) (dup_perm pte) t e va named
                    named' low (inr off)
                  ∙ leaves.elsewhere e va named' low off;
            },
          )

      duppage-Dups :
          good s
          → envid ≢ sys.sys_getenvid s
          → has_bits (sys.uvpt s pn) pte_p ≡ true
          → Dups (duppage sys envid pn s)
      unfolding duppage
      duppage-Dups fine child here =
          let pte = sys.uvpt s pn in
          let perm = dup_perm pte in
          let me = sys.sys_getenvid s in
          let va = page_va pn in
          let t = (sys.sys_page_map me va envid va perm s).1 in
          let (first, once) =
            map-Dups envid pte s (start-Leaves fine) (inl refl) child_named here in
          elim (Bool-cases (has_bits perm pte_cow)) [
            | inl shared ↦
                let kept =
                  paging.others me va envid va perm s me va child_named (paging.caller_named s)
                    (omega arith) (inl (λ h. child (sym h))) in
                let bit = shown_same s t pn pte_p user (omega arith) once.caller_kept kept in
                let (second, twice) =
                  map-Dups me pte t once (inr refl) (paging.caller_named s) (bit ∙ here) in
                rw (first, shared, second) (refl, twice)
            | inr plain ↦ rw (first, plain) (refl, once)
          ]

      pub duppage-Copied :
          good s
          → envid ≢ sys.sys_getenvid s
          → has_bits (sys.uvpt s pn) pte_p ≡ true
          → Copied s (duppage sys envid pn s).1 (λ q. q == pn)
      duppage-Copied fine child here =
          let (reported, leaves) = duppage-Dups fine child here in
          record {
            stays = leaves.stays;
            caller_kept = leaves.caller_kept;
            tables_kept = leaves.tables_kept;
            shared = λ q small' touched present.
                let same : q ≡ pn = ground (arith, touched) in
                rw same
                  (duppage_shares sys space paging envid pn s child_named child user here reported);
            absent = λ q e small' named no'.
                let other : q ≢ pn = λ same.
                  let bit = ap (λ (x : ℕ). has_bits (sys.uvpt s x) pte_p) same in
                  absurd (ground (arith, no', here, bit)) in
                let (low, off) = page_apart q pn small' user other in
                leaves.elsewhere e (page_va q) named low off;
            rest = λ q e small' named no'.
                let other : q ≢ pn = λ same. absurd (ground (arith, no')) in
                let (low, off) = page_apart q pn small' user other in
                leaves.elsewhere e (page_va q) named low off;
          }
