-- ===== src/Strings/Strtol.antt =====
-- strtol of lib/string.c. A string is the list of its bytes before the final 0, and a pointer into
-- it is what is left of the list. A base is an int that is not negative; the products and sums of
-- the value wrap around at 32 bits.
use os2017_lab.Base.{
  ℕ, ◌+◌, ◌-◌, ◌*◌, ◌%◌, Bool, true, false, ◌&&◌, ◌||◌, Option, none, some, List, [], ◌∷◌, leb,
  ◌==◌, if◌then◌else◌,
}
use os2017_lab.Memlayout.{u32_mod}

unfoldable pub skip_blanks : List ℕ → List ℕ
skip_blanks [] = []
skip_blanks (c ∷ cs) =
    let rest = skip_blanks cs in if (c == b' ') || (c == b'\t') then rest else c ∷ cs

-- Whether the value is to be negated, and what follows the sign.
unfoldable pub skip_sign : List ℕ → Bool × List ℕ
skip_sign [] = (false, [])
skip_sign (c ∷ cs) =
    if c == b'+' then (false, cs) else if c == b'-' then (true, cs) else (false, c ∷ cs)

abbrev pub starts_with : ℕ → List ℕ → Bool
starts_with c [] = false
starts_with c (d ∷ ds) = d == c

abbrev pub tail : List ℕ → List ℕ
tail [] = []
tail (c ∷ cs) = cs

-- The base, and what follows its prefix.
unfoldable pub skip_prefix : (base : ℕ) → List ℕ → ℕ × List ℕ
skip_prefix base s =
    if ((base == 0) || (base == 16)) && (starts_with b'0' s && starts_with b'x' (tail s))
    then (16, tail (tail s))
    else if (base == 0) && starts_with b'0' s
    then (8, tail s)
    else if base == 0
    then (10, s)
    else (base, s)

unfoldable pub digit_of : ℕ → Option ℕ
digit_of c =
    if leb b'0' c && leb c b'9'
    then some (c - b'0')
    else if leb b'a' c && leb c b'z'
    then some (c - b'a' + 10)
    else if leb b'A' c && leb c b'Z'
    then some (c - b'A' + 10)
    else none

-- The digits from `val` on: the value, and the string after them.
unfoldable pub strtol_digits : (base val : ℕ) → List ℕ → ℕ × List ℕ
unfolding digit_of
strtol_digits base val [] = (val, [])
strtol_digits base val (c ∷ cs) = elim (digit_of c) [
  | none ↦ (val, c ∷ cs)
  | some dig ↦
      let more = strtol_digits base ((val * base + dig) % u32_mod) cs in
      if leb base dig then (val, c ∷ cs) else more
]

abbrev pub negate_if : Bool → ℕ → ℕ
negate_if neg val = if neg then (u32_mod - val) % u32_mod else val

-- The result, a 32-bit word, and `*endptr`.
unfoldable pub strtol : List ℕ → (base : ℕ) → ℕ × List ℕ
unfolding skip_blanks skip_sign skip_prefix strtol_digits
strtol s base =
    let (neg, s1) = skip_sign (skip_blanks s) in
    let (base', s2) = skip_prefix base s1 in
    let (val, end) = strtol_digits base' 0 s2 in (negate_if neg val, end)
