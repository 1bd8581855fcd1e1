-- ===== src/Examples/Library.antt =====
-- The theorems on the library of user programs, on small inputs.
use os2017_lab.Base.{
  ℕ, ◌-◌, ◌*◌, ◌%◌, ◌≡◌, false, Bool, not, ◌||◌, ◌&&◌, some, List, [], ◌∷◌, ◌++◌, map, arith, ◌==◌,
  if◌then◌else◌, has_bits, inl,
}
use os2017_lab.Memlayout.{u32_mod, pgsize, pgnum, pte_p, pte_w, pte_u}
use os2017_lab.Printf.{
  Args, codes, length, printnum, no_flags, getint, other_args, signed_decimal, vprintfmt, vcprintf,
  vsnprintf, take,
}
use os2017_lab.Printf.Roundtrip.{strtol-printnum, strtol-signed_decimal}
use os2017_lab.Printf.Directives.{vprintfmt_prints}
use os2017_lab.Printf.Buffers.{byte, joined, AllShort, vcprintf_writes_all, vsnprintf_truncates}
use os2017_lab.Strings.Strtol.{strtol}
use os2017_lab.Syscall.{other_bits, bad_user_page, neg_e_inval}
use os2017_lab.User.{Sys}
use os2017_lab.User.Cow.{Mapping}

strtol-printnum_example : strtol (printnum 255 16 6 32) 16 ≡ (255, [])
strtol-printnum_example =
    strtol-printnum 255 16 6 (omega arith) (omega arith) (omega arith) (inl (omega arith))

-- The arguments -5, of which only the first is read.
abbrev minus_five : Args
minus_five _ = u32_mod - 5

strtol-signed_decimal_example :
    strtol (signed_decimal no_flags (getint 0 minus_five).0) 10 ≡ (minus_five 0, [])
strtol-signed_decimal_example = strtol-signed_decimal minus_five (omega arith)

-- A string at address 100, and the arguments 100 and 42.
abbrev name_at : ℕ → List ℕ
name_at p = if p == 100 then codes "ls" else []

abbrev two_words : Args
two_words i = if i == 0 then 100 else 42

vprintfmt_prints_example :
    vprintfmt name_at
      (codes "a " ++ (b'%' ∷ b's' ∷ (codes ": " ++ (b'%' ∷ b'd' ∷ codes "."))))
      two_words
    ≡ some (
        codes "a "
        ++ (name_at (two_words 0)
            ++ (codes ": "
                ++ (signed_decimal no_flags (getint 0 (other_args two_words)).0 ++ codes "."))))
vprintfmt_prints_example =
    vprintfmt_prints name_at (codes "a ") (codes ": ") (codes ".") two_words (ground arith)
      (ground arith) (ground arith) (omega arith) (omega arith)

vcprintf_writes_all_example :
    let (count, texts) = vcprintf (codes "abcd") in
    (joined texts ≡ map byte (codes "abcd")) × AllShort texts × (count ≡ length (codes "abcd"))
vcprintf_writes_all_example = vcprintf_writes_all (codes "abcd") (omega arith)

vsnprintf_truncates_example :
    vsnprintf false 3 (codes "abcd")
    ≡ (length (codes "abcd"), take (3 - 1) (map byte (codes "abcd")) ++ 0 ∷ [])
vsnprintf_truncates_example =
    vsnprintf_truncates 3 (codes "abcd") (omega arith) (omega arith) (omega arith)

-- A machine whose state is what each environment sees; environment 1 runs, and is also named 0.
abbrev Spaces : Type 0
Spaces = ℕ → ℕ → Mapping

abbrev named_env : ℕ → ℕ
named_env envid = if envid == 0 then 1 else envid

-- The permissions, the source and the alignment of the destination are checked.
abbrev accepts : (srcenv srcva dstenv dstva perm : ℕ) → Spaces → Bool
accepts srcenv srcva dstenv dstva perm s =
    has_bits perm pte_u
    && has_bits perm pte_p
    && (other_bits perm == 0)
    && not (bad_user_page dstva)
    && has_bits (s (named_env srcenv) srcva).perm pte_p
    && (not (has_bits perm pte_w) || has_bits (s (named_env srcenv) srcva).perm pte_w)

abbrev remap : (srcenv srcva dstenv dstva perm : ℕ) → Spaces → Spaces
remap srcenv srcva dstenv dstva perm s e va =
    if (named_env e == named_env dstenv) && (pgnum va == pgnum dstva)
    then record { frame = (s (named_env srcenv) srcva).frame; perm = perm }
    else s e va

abbrev map_checked : (srcenv srcva dstenv dstva perm : ℕ) → Spaces → ℕ × Spaces
map_checked srcenv srcva dstenv dstva perm s =
    if accepts srcenv srcva dstenv dstva perm s
    then (0, remap srcenv srcva dstenv dstva perm s)
    else (neg_e_inval, s)

abbrev fine : Spaces → ℕ × Spaces
fine s = (0, s)

abbrev toy : Sys Spaces
toy = record {
  sys_getenvid = λ s. 1;
  sys_exofork = λ s. (2, s);
  sys_page_alloc = λ envid va perm. fine;
  sys_page_map = map_checked;
  sys_page_unmap = λ envid va. fine;
  sys_env_set_status = λ envid status. fine;
  sys_env_set_pgfault_upcall = λ envid func. fine;
  sys_ipc_recv = λ dstva. fine;
  sys_ipc_try_send = λ envid val srcva perm. fine;
  sys_yield = λ s. s;
  uvpt = λ s pn. (s 1 ((pn * pgsize) % u32_mod)).perm;
  uvpd = λ s i. 1;
  copy_page = λ dst src s. s;
  set_pgfault_handler = λ s. s;
  set_thisenv = λ s. s;
  env_ipc_value = λ s. 0;
  env_ipc_from = λ s. 0;
  env_ipc_perm = λ s. 0;
}

-- Page 3 of environment 1 is writable.
abbrev writable : Spaces
writable e va = record { frame = 7; perm = 7 }

abbrev child_id : ℕ
child_id = 2

-- Every state of it has memory enough.
abbrev AnyState : Spaces → Type 0
AnyState s = Unit
