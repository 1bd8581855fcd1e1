-- ===== src/User/Cow.antt =====
-- duppage of lib/fork.c: copy-on-write.
use os2017_lab.Base.{
  ℕ, ◌+◌, ◌*◌, ◌%◌, ◌<◌, ◌≡◌, ◌≢◌, refl, sym, ap, ◌∙◌, ◌⊎◌, Bool, true, false, ◌||◌, bit_or, arith,
  has_bits, Bool-cases, inl, inr,
}
use mathlib.Core.Path.{ap₂}
use os2017_lab.Memlayout.{u32_mod, pgsize, pte_p, pte_w, pte_u, pgnum, utop}
use os2017_lab.Env.{is_negative}
use os2017_lab.User.{Sys}
use os2017_lab.User.Fork.{pte_cow, dup_perm, duppage}

-- A page that an environment sees: which page of memory, and with what permissions.
pub record Mapping : Type 0 where
  pub frame : ℕ
  pub perm : ℕ

-- The pages below UTOP.
abbrev pub user_pages : ℕ
user_pages = 0xeec00

-- What sys_page_map documents, for a view `space s e va` of the address spaces, the environments by
-- their identifiers, which are not 0, since 0 names the caller. Where the source is present and the
-- permissions have PTE_P, success maps the page of the source at the destination with them. Whatever
-- the result, no other user page of any environment changes. The `uvpt` of the caller shows the
-- permission bits of its own user pages.
pub record Paging {S : Type 0} (sys : Sys S) (space : S → ℕ → ℕ → Mapping) : Type 0 where
  pub caller_named : (s : S) → sys.sys_getenvid s ≢ 0
  pub maps :
      (srcenv srcva dstenv dstva perm : ℕ) (s : S)
      → srcenv ≢ 0
      → dstenv ≢ 0
      → has_bits (space s srcenv srcva).perm pte_p ≡ true
      → has_bits perm pte_p ≡ true
      → is_negative (sys.sys_page_map srcenv srcva dstenv dstva perm s).0 ≡ false
      → space (sys.sys_page_map srcenv srcva dstenv dstva perm s).1 dstenv dstva
        ≡ record { frame = (space s srcenv srcva).frame; perm = perm }
  pub others :
      (srcenv srcva dstenv dstva perm : ℕ) (s : S) (e va : ℕ)
      → dstenv ≢ 0
      → e ≢ 0
      → va < utop
      → (e ≢ dstenv) ⊎ (pgnum va ≢ pgnum dstva)
      → space (sys.sys_page_map srcenv srcva dstenv dstva perm s).1 e va ≡ space s e va
  pub shown :
      (s : S) (pn bit : ℕ)
      → pn < user_pages
      → bit < pgsize
      → has_bits (sys.uvpt s pn) bit
        ≡ has_bits (space s (sys.sys_getenvid s) ((pn * pgsize) % u32_mod)).perm bit

with_cow :
    (has_bits (bit_or (pte_u + pte_p) pte_cow) pte_cow ≡ true)
    × (has_bits (bit_or (pte_u + pte_p) pte_cow) pte_w ≡ false)
unfolding has_bits
with_cow = (refl, refl)

without_cow : (has_bits (pte_u + pte_p) pte_cow ≡ false) × (has_bits (pte_u + pte_p) pte_w ≡ false)
unfolding has_bits
without_cow = (refl, refl)

true_not_false : true ≢ false
true_not_false h = absurd (ground arith)

dup_perm_cow :
    (pte : ℕ) → has_bits (dup_perm pte) pte_cow ≡ (has_bits pte pte_w || has_bits pte pte_cow)
unfolding dup_perm
dup_perm_cow pte = elim (Bool-cases (has_bits pte pte_w || has_bits pte pte_cow)) [
  | inl shared ↦ rw shared with_cow.0
  | inr read_only ↦ rw read_only without_cow.0
]

pub dup_perm_read_only : (pte : ℕ) → has_bits (dup_perm pte) pte_w ≡ false
unfolding dup_perm
dup_perm_read_only pte = elim (Bool-cases (has_bits pte pte_w || has_bits pte pte_cow)) [
  | inl shared ↦ rw shared with_cow.1
  | inr read_only ↦ rw read_only without_cow.1
]

pub dup_perm_present : (pte : ℕ) → has_bits (dup_perm pte) pte_p ≡ true
unfolding dup_perm has_bits
dup_perm_present pte = elim (Bool-cases (has_bits pte pte_w || has_bits pte pte_cow)) [
  | inl shared ↦ rw (shared, has_bits) refl
  | inr read_only ↦ rw (read_only, has_bits) refl
]

-- Both environments see the page of `before`, copy-on-write when it was writable or copy-on-write;
-- neither may write it.
pub record Shared (before mine child : Mapping) : Type 0 where
  pub same_page : child.frame ≡ before.frame
  pub kept_page : mine.frame ≡ before.frame
  pub child_read_only : has_bits child.perm pte_w ≡ false
  pub mine_read_only : has_bits mine.perm pte_w ≡ false
  pub child_cow :
      has_bits child.perm pte_cow ≡ (has_bits before.perm pte_w || has_bits before.perm pte_cow)
  pub mine_cow :
      has_bits mine.perm pte_cow ≡ (has_bits before.perm pte_w || has_bits before.perm pte_cow)

module _ {S : Type 0} (sys : Sys S) (space : S → ℕ → ℕ → Mapping) (paging : Paging sys space)
    (envid pn : ℕ) (s : S) (named : envid ≢ 0) (child : envid ≢ sys.sys_getenvid s)
    (user : pn < user_pages) (present : has_bits (sys.uvpt s pn) pte_p ≡ true) where
  open paging use {caller_named, maps, others, shown}

  abbrev me : ℕ
  me = sys.sys_getenvid s

  abbrev va : ℕ
  va = (pn * pgsize) % u32_mod

  abbrev before : Mapping
  before = space s me va

  abbrev perm : ℕ
  perm = dup_perm (sys.uvpt s pn)

  abbrev first : ℕ × S
  first = sys.sys_page_map me va envid va perm s

  abbrev second : ℕ × S
  second = sys.sys_page_map me va me va perm first.1

  perm_cow : has_bits perm pte_cow ≡ (has_bits before.perm pte_w || has_bits before.perm pte_cow)
  perm_cow =
      dup_perm_cow (sys.uvpt s pn)
      ∙ ap₂ (λ (x y : Bool). x || y) (shown s pn pte_w user (omega arith))
          (shown s pn pte_cow user (omega arith))

  kept : space first.1 me va ≡ before
  kept =
      others me va envid va perm s me va named (caller_named s) (omega arith)
        (inl (λ (e : me ≡ envid). child (sym e)))

  source : has_bits before.perm pte_p ≡ true
  source = sym (shown s pn pte_p user (omega arith)) ∙ present

  -- What the first call maps.
  there :
      is_negative first.0 ≡ false
      → space first.1 envid va ≡ record { frame = before.frame; perm = perm }
  there =
      maps me va envid va perm s (caller_named s) named source (dup_perm_present (sys.uvpt s pn))

  first_fails : is_negative first.0 ≡ true → (duppage sys envid pn s).0 ≡ first.0
  unfolding duppage
  first_fails bad = rw bad refl

  second_fails :
      is_negative first.0 ≡ false
      → has_bits perm pte_cow ≡ true
      → is_negative second.0 ≡ true
      → (duppage sys envid pn s).0 ≡ second.0
  unfolding duppage
  second_fails good shared bad = rw (good, shared, bad) refl

  -- A read-only page is mapped in the child alone.
  first-Shared :
      is_negative first.0 ≡ false
      → has_bits perm pte_cow ≡ false
      → Shared before (space first.1 me va) (space first.1 envid va)
  first-Shared done plain =
      rw (kept, there done)
        (record {
          same_page = refl;
          kept_page = refl;
          child_read_only = dup_perm_read_only (sys.uvpt s pn);
          mine_read_only = ground (arith, perm_cow);
          child_cow = perm_cow;
          mine_cow = ground (arith, perm_cow);
        })

  second-Shared :
      is_negative first.0 ≡ false
      → is_negative second.0 ≡ false
      → Shared before (space second.1 me va) (space second.1 envid va)
  second-Shared done again =
      let still : has_bits (space first.1 me va).perm pte_p ≡ true = rw kept source in
      let mine =
        maps me va me va perm first.1 (caller_named s) (caller_named s) still
          (dup_perm_present (sys.uvpt s pn)) again in
      let same : space second.1 envid va ≡ space first.1 envid va =
        others me va me va perm first.1 envid va (caller_named s) named (omega arith) (inl child) in
      rw (same, there done, mine, kept)
        (record {
          same_page = refl;
          kept_page = refl;
          child_read_only = dup_perm_read_only (sys.uvpt s pn);
          mine_read_only = dup_perm_read_only (sys.uvpt s pn);
          child_cow = perm_cow;
          mine_cow = perm_cow;
        })

  pub duppage_shares :
      is_negative (duppage sys envid pn s).0 ≡ false
      → let t = (duppage sys envid pn s).1 in
        Shared (space s me va) (space t me va) (space t envid va)
  unfolding duppage
  duppage_shares done = elim (Bool-cases (is_negative first.0)) [
    | inl bad ↦ absurd (true_not_false (sym bad ∙ ap is_negative (sym (first_fails bad)) ∙ done))
    | inr good ↦ elim (Bool-cases (has_bits perm pte_cow)) [
      | inl shared ↦ elim (Bool-cases (is_negative second.0)) [
        | inl bad ↦
            absurd (
              true_not_false (sym bad ∙ ap is_negative (sym (second_fails good shared bad)) ∙ done))
        | inr again ↦ rw (good, shared, again) (second-Shared good again)
      ]
      | inr plain ↦ rw (good, plain) (first-Shared good plain)
    ]
  ]
