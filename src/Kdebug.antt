-- ===== src/Kdebug.antt =====
-- kern/kdebug.c: the binary search in the symbol table. Indices are ints that may be -1, so a right
-- end is kept as one more than the source's.
pub mod Ends
pub mod Nearest
pub mod Debuginfo
use os2017_lab.Base.{
  ℕ, zero, suc, ◌+◌, ◌-◌, ◌*◌, ◌/◌, ◌%◌, Bool, true, false, not, ◌&&◌, Option, none, some, ltb, leb,
  ◌==◌, if◌then◌else◌,
}
use os2017_lab.Memlayout.{u32_mod}

-- struct Stab, without the field n_other that nothing reads.
pub record Stab : Type 0 where
  pub n_strx : ℕ
  pub n_type : ℕ
  pub n_desc : ℕ
  pub n_value : ℕ

-- The last entry of a type among the `n + 1` from `l` on.
unfoldable pub last_of_type : (stabs : ℕ → Stab) (type l n : ℕ) → Option ℕ
last_of_type stabs type l zero = if (stabs l).n_type == type then some l else none
last_of_type stabs type l (suc n) =
    let rest = last_of_type stabs type l n in
    if (stabs (l + suc n)).n_type == type then some (l + suc n) else rest

-- The variables of the search: `r + 1` is `end`, `*region_left` is `left`, and `*region_right + 1`
-- is `stop`.
pub record Search : Type 0 where
  pub l : ℕ
  pub end : ℕ
  pub addr : ℕ
  pub left : ℕ
  pub stop : ℕ
  pub any_matches : Bool

-- The rest of a round in which `m` is the entry of the type.
unfoldable pub compare_at : (stabs : ℕ → Stab) (true_m m : ℕ) → Search → Search
compare_at stabs true_m m s =
    if ltb (stabs m).n_value s.addr
    then record s { left = m; l = true_m + 1; any_matches = true }
    else if ltb s.addr (stabs m).n_value
    then record s { stop = m; end = m; any_matches = true }
    else record s { left = m; l = m; addr = (s.addr + 1) % u32_mod; any_matches = true }

-- One round of the loop, where `l < end`.
unfoldable pub round : (stabs : ℕ → Stab) (type : ℕ) → Search → Search
unfolding last_of_type compare_at
round stabs type s =
    let true_m = (s.l + (s.end - 1)) / 2 in
    elim (last_of_type stabs type s.l (true_m - s.l)) [
      | none ↦ record s { l = true_m + 1 }
      | some m ↦ compare_at stabs true_m m s
    ]

unfoldable pub search_rounds : (stabs : ℕ → Stab) (type fuel : ℕ) → Search → Option Search
unfolding round
search_rounds stabs type zero s = none
search_rounds stabs type (suc fuel) s =
    let rest = search_rounds stabs type fuel (round stabs type s) in
    if ltb s.l s.end then rest else some s

-- The loop down from `stop - 1` to an entry of the type or to `left`; an empty region gives -1.
unfoldable pub rightmost : (stabs : ℕ → Stab) (type left stop : ℕ) → ℕ
rightmost stabs type left zero = u32_mod - 1
rightmost stabs type left (suc l) =
    let rest = rightmost stabs type left l in
    if ltb left l && not ((stabs l).n_type == type) then rest else l

-- `*region_left` and `*region_right + 1` at the end.
pub record Region : Type 0 where
  pub left : ℕ
  pub stop : ℕ

unfoldable pub region_of : (stabs : ℕ → Stab) (type : ℕ) → Search → Region
unfolding rightmost
region_of stabs type s =
    if not s.any_matches
    then record { left = s.left; stop = s.left }
    else record { left = rightmost stabs type s.left s.stop; stop = s.stop }

abbrev pub search_start : (left stop addr : ℕ) → Search
search_start left stop addr = record {
  l = left;
  end = stop;
  addr = addr;
  left = left;
  stop = stop;
  any_matches = false;
}

abbrev pub rounds_for : Search → ℕ
rounds_for s = (s.end - s.l) * 2 + 2

unfoldable pub stab_binsearch : (stabs : ℕ → Stab) (left stop type addr : ℕ) → Option Region
unfolding search_rounds region_of
stab_binsearch stabs left stop type addr =
    let s = search_start left stop addr in
    elim (search_rounds stabs type (rounds_for s) s) [
      | none ↦ none
      | some s' ↦ some (region_of stabs type s')
    ]
