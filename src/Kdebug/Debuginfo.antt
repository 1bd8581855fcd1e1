-- ===== src/Kdebug/Debuginfo.antt =====
-- debuginfo_eip of kern/kdebug.c, on top of the binary search.
use os2017_lab.Base.{
  ℕ, zero, suc, ◌+◌, ◌-◌, ◌%◌, ◌<◌, ◌≡◌, ◌⊎◌, refl, inl, inr, not, ◌&&◌, ◌||◌, Option, none, some,
  List, [], ◌∷◌, ltb, leb, ◌==◌, if◌then◌else◌, Bool-cases,
}
use os2017_lab.Memlayout.{u32_mod, ulim}
use os2017_lab.Strings.Cstring.{strlen, strfind}
use os2017_lab.Kdebug.{Stab, Region, stab_binsearch}
use os2017_lab.Kdebug.Ends.{stab_binsearch_ends}

abbrev pub n_fun : ℕ
n_fun = 0x24

abbrev pub n_sline : ℕ
n_sline = 0x44

abbrev pub n_so : ℕ
n_so = 0x64

abbrev pub n_sol : ℕ
n_sol = 0x84

abbrev pub n_psym : ℕ
n_psym = 0xa0

-- A symbol table of `count` entries and its string table of `size` bytes, 0 where its end is not
-- behind its beginning. The linker provides that of the kernel. That of the user program is where the
-- structure at USTABDATA says, in memory of the program, which nothing checks.
pub record Symbols : Type 0 where
  pub stabs : ℕ → Stab
  pub count : ℕ
  pub stabstr : ℕ → ℕ
  pub size : ℕ

-- A pointer to a name: "<unknown>", or an offset in the string table.
pub data Name : Type 0 where
  unknown : Name
  named : ℕ → Name

pub record Eipdebuginfo : Type 0 where
  pub eip_file : Name
  pub eip_line : ℕ
  pub eip_fn_name : Name
  pub eip_fn_namelen : ℕ
  pub eip_fn_addr : ℕ
  pub eip_fn_narg : ℕ

-- debuginfo_eip returns a number, as a 32-bit word, with the information; or it reads the entry in
-- front of the symbol table, at index -1; or a search runs out of fuel.
pub data DebugRun : Type 0 where
  returns : ℕ → Eipdebuginfo → DebugRun
  reads_outside : DebugRun
  out_of_fuel : DebugRun

abbrev pub minus_one : ℕ
minus_one = u32_mod - 1

-- The string of at most `n` bytes from offset `i` on.
unfoldable pub text_at : (stabstr : ℕ → ℕ) (n i : ℕ) → List ℕ
text_at stabstr zero i = []
text_at stabstr (suc n) i =
    let rest = text_at stabstr n (i + 1) in if stabstr i == 0 then [] else stabstr i ∷ rest

-- `strfind(name, ':') - name`
unfoldable pub name_length : Symbols → Name → ℕ
name_length t unknown = 9
name_length t (named i) =
    let name = text_at t.stabstr (t.size - i) i in strlen name - strlen (strfind name b':')

-- The name at `n_strx`, if that is within the string table.
unfoldable pub name_of : Symbols → ℕ → Name → Name
name_of t strx other = if ltb strx t.size then named strx else other

-- The loop down from entry `i` to one that names a file; `lfile` is at least 1.
unfoldable pub file_entry : Symbols → (lfile i : ℕ) → Option ℕ
file_entry t lfile zero = none
file_entry t lfile (suc i) =
    let rest = file_entry t lfile i in
    let s = t.stabs (suc i) in
    if not (leb lfile (suc i))
    then none
    else if not (s.n_type == n_sol) && (not (s.n_type == n_so) || (s.n_value == 0))
    then rest
    else some (suc i)

-- The loop over the entries of arguments, with `n` entries left from `i` on.
unfoldable pub count_args : Symbols → (n i : ℕ) → ℕ
count_args t zero i = 0
count_args t (suc n) i =
    let rest = count_args t n (i + 1) in if (t.stabs i).n_type == n_psym then suc rest else 0

-- A search, and what is done with the region that it finds, unless the left end is -1.
unfoldable pub search : Symbols → (left stop type addr : ℕ) → (Region → DebugRun) → DebugRun
search t left stop type addr next = elim (stab_binsearch t.stabs left stop type addr) [
  | none ↦ out_of_fuel
  | some r ↦ if r.left == minus_one then reads_outside else next r
]

-- `*info` at first.
abbrev pub no_info : ℕ → Eipdebuginfo
no_info addr = record {
  eip_file = unknown;
  eip_line = 0;
  eip_fn_name = unknown;
  eip_fn_namelen = 9;
  eip_fn_addr = addr;
  eip_fn_narg = 0;
}

-- After the search for the line in `line`: the file, and the arguments of the function in `fun`.
unfoldable pub finish_info : Symbols → (lfile : ℕ) (fun line : Region) → Eipdebuginfo → DebugRun
unfolding file_entry count_args name_of
finish_info t lfile fun line info =
    if not (ltb line.left line.stop)
    then returns minus_one info
    else returns 0 (record info {
      eip_line = (t.stabs line.left).n_desc;
      eip_file = elim (file_entry t lfile line.left) [
        | none ↦ info.eip_file
        | some i ↦ name_of t (t.stabs i).n_strx info.eip_file
      ];
      eip_fn_narg =
          if ltb (fun.left + 1) fun.stop
          then count_args t (fun.stop - 1 - (fun.left + 1)) (fun.left + 1)
          else 0;
    })

-- After the search for the function in `fun`, within the file in `file`.
unfoldable pub find_line : Symbols → (addr : ℕ) (file fun : Region) → DebugRun
unfolding search name_of name_length finish_info
find_line t addr file fun =
    if ltb fun.left fun.stop
    then (let name = name_of t (t.stabs fun.left).n_strx unknown in
        let start = (t.stabs fun.left).n_value in
        search t fun.left fun.stop n_sline ((addr + u32_mod - start) % u32_mod) λ line.
          finish_info t file.left fun line (record (no_info addr) {
            eip_fn_name = name;
            eip_fn_addr = start;
            eip_fn_namelen = name_length t name;
          }))
    else search t file.left file.stop n_sline addr
        λ line. finish_info t file.left fun line (no_info addr)

-- What follows the choice of the symbol table.
unfoldable pub search_symbols : Symbols → (addr : ℕ) → DebugRun
unfolding search find_line
search_symbols t addr =
    if (t.size == 0) || not (t.stabstr (t.size - 1) == 0)
    then returns minus_one (no_info addr)
    else search t 0 t.count n_so addr λ file.
      if file.left == 0
      then returns minus_one (no_info addr)
      else search t file.left file.stop n_fun addr (find_line t addr file)

unfoldable pub debuginfo_eip : (kernel_symbols user_symbols : Symbols) (addr : ℕ) → DebugRun
unfolding search_symbols
debuginfo_eip kernel_symbols user_symbols addr =
    if leb ulim addr then search_symbols kernel_symbols addr else search_symbols user_symbols addr

-- An answer of 0 or -1, or a read of the entry in front of the table.
abbrev pub Answers : DebugRun → Type 0
Answers o =
    ((r : ℕ) × (info : Eipdebuginfo) × (o ≡ returns r info) × ((r ≡ 0) ⊎ (r ≡ minus_one)))
    ⊎ (o ≡ reads_outside)

module _ (t : Symbols) (words : (i : ℕ) → (t.stabs i).n_value < u32_mod) where
  search-Answers :
      (left stop type addr : ℕ) (next : Region → DebugRun)
      → ((r : Region) → Answers (next r))
      → Answers (search t left stop type addr next)
  unfolding search
  search-Answers left stop type addr next each =
      let (r, ends) = stab_binsearch_ends t.stabs left stop type addr words in
      elim (Bool-cases (r.left == minus_one)) [
        | inl before ↦ inr (rw (ends, search) (rw before refl))
        | inr inside ↦ rw (ends, search) (rw inside (each r))
      ]

  finish_info-Answers :
      (lfile : ℕ) (fun line : Region) (info : Eipdebuginfo)
      → Answers (finish_info t lfile fun line info)
  unfolding finish_info
  finish_info-Answers lfile fun line info = elim (Bool-cases (ltb line.left line.stop)) [
    | inl found ↦ rw found (inl (0, _, refl, inl refl))
    | inr nothing ↦ rw nothing (inl (minus_one, info, refl, inr refl))
  ]

  find_line-Answers : (addr : ℕ) (file fun : Region) → Answers (find_line t addr file fun)
  unfolding find_line
  find_line-Answers addr file fun = elim (Bool-cases (ltb fun.left fun.stop)) [
    | inl found ↦ rw found (
        search-Answers fun.left fun.stop n_sline
          ((addr + u32_mod - (t.stabs fun.left).n_value) % u32_mod) _
          (λ line. finish_info-Answers file.left fun line _))
    | inr nothing ↦ rw nothing (
        search-Answers file.left file.stop n_sline addr _
          (λ line. finish_info-Answers file.left fun line _))
  ]

  find_file-Answers :
      (addr : ℕ) (file : Region)
      → Answers (
          if file.left == 0
          then returns minus_one (no_info addr)
          else search t file.left file.stop n_fun addr (find_line t addr file))
  find_file-Answers addr file = elim (Bool-cases (file.left == 0)) [
    | inl none' ↦ rw none' (inl (minus_one, no_info addr, refl, inr refl))
    | inr found ↦ rw found (
        search-Answers file.left file.stop n_fun addr (find_line t addr file)
          (find_line-Answers addr file))
  ]

  search_symbols-Answers : (addr : ℕ) → Answers (search_symbols t addr)
  unfolding search_symbols
  search_symbols-Answers addr =
      elim (Bool-cases ((t.size == 0) || not (t.stabstr (t.size - 1) == 0))) [
        | inl bad ↦ rw bad (inl (minus_one, no_info addr, refl, inr refl))
        | inr good ↦ rw good (search-Answers 0 t.count n_so addr _ (find_file-Answers addr))
      ]

-- With 32-bit addresses in both symbol tables, whatever the order and the types of their entries and
-- whatever the string tables hold, debuginfo_eip ends: it answers 0 or -1, or it reads the entry in
-- front of the table.
pub debuginfo_eip-Answers :
    (kernel_symbols user_symbols : Symbols) (addr : ℕ)
    → ((i : ℕ) → (kernel_symbols.stabs i).n_value < u32_mod)
    → ((i : ℕ) → (user_symbols.stabs i).n_value < u32_mod)
    → Answers (debuginfo_eip kernel_symbols user_symbols addr)
unfolding debuginfo_eip
debuginfo_eip-Answers kernel_symbols user_symbols addr words words' =
    elim (Bool-cases (leb ulim addr)) [
      | inl kernel ↦ rw kernel (search_symbols-Answers kernel_symbols words addr)
      | inr user ↦ rw user (search_symbols-Answers user_symbols words' addr)
    ]
