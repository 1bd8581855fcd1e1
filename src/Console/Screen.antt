-- ===== src/Console/Screen.antt =====
-- The text screen of kern/console.c: cga_putc. A character is a 32-bit word with its colours above
-- the low byte, and the ports of the cursor are not modelled.
use os2017_lab.Base.{
  ℕ, zero, suc, ◌+◌, ◌-◌, ◌*◌, ◌/◌, ◌%◌, ◌^◌, ◌≤◌, ◌<◌, ◌≡◌, ◌≢◌, refl, sym, ap, ◌∙◌, List, [], ◌∷◌,
  map, arith, ltb, leb, ◌==◌, if◌then◌else◌, Bool-cases, inl, inr,
}
use os2017_lab.Base.Arrays.{update, update_self, update_ne}
use mathlib.Core.Path.{ap₂}
use os2017_lab.Printf.{length}

abbrev pub crt_cols : ℕ
crt_cols = 80

abbrev pub crt_size : ℕ
crt_size = 25 * crt_cols

-- crt_buf, an array of 16-bit cells, and the 16-bit crt_pos
pub record Screen : Type 0 where
  pub crt_buf : ℕ → ℕ
  pub crt_pos : ℕ

-- Black on white where no attribute is given.
abbrev pub with_attribute : ℕ → ℕ
with_attribute c = if c / 2 ^ 8 == 0 then c + 1792 else c

-- `0x0700 | ' '`
abbrev pub blank : ℕ
blank = 1792 + b' '

abbrev pub write_cell : (c : ℕ) → Screen → Screen
write_cell c s = record s {
  crt_buf = update s.crt_buf s.crt_pos (c % 2 ^ 16);
  crt_pos = (s.crt_pos + 1) % 2 ^ 16;
}

abbrev pub back_space : (c : ℕ) → Screen → Screen
back_space c s =
    if ltb 0 s.crt_pos
    then record s {
      crt_pos = s.crt_pos - 1;
      crt_buf = update s.crt_buf (s.crt_pos - 1) ((c - c % 2 ^ 8 + b' ') % 2 ^ 16);
    }
    else s

abbrev pub carriage_return : Screen → Screen
carriage_return s = record s { crt_pos = s.crt_pos - s.crt_pos % crt_cols }

abbrev pub new_line : Screen → Screen
new_line s = carriage_return (record s { crt_pos = (s.crt_pos + crt_cols) % 2 ^ 16 })

-- The switch on the low byte, but for a tab.
unfoldable pub put_plain : (c : ℕ) → Screen → Screen
put_plain c s =
    if c % 2 ^ 8 == 8
    then back_space c s
    else if c % 2 ^ 8 == 10
    then new_line s
    else if c % 2 ^ 8 == 13
    then carriage_return s
    else write_cell c s

-- One row up once the position is below the last row: the memmove, and the loop that clears a row.
unfoldable pub scroll : Screen → Screen
scroll s =
    if leb crt_size s.crt_pos
    then record {
      crt_buf = λ i.
          if ltb i (crt_size - crt_cols)
          then s.crt_buf (i + crt_cols)
          else if ltb i crt_size
          then blank
          else s.crt_buf i;
      crt_pos = s.crt_pos - crt_cols;
    }
    else s

-- cga_putc(' ')
abbrev pub put_space : Screen → Screen
put_space s = scroll (put_plain (with_attribute b' ') s)

unfoldable pub cga_putc : (c : ℕ) → Screen → Screen
unfolding put_plain scroll
cga_putc c s = scroll (
    if with_attribute c % 2 ^ 8 == 9
    then put_space (put_space (put_space (put_space (put_space s))))
    else put_plain (with_attribute c) s)

-- A position on the screen, and nothing changed outside of it.
abbrev pub OnScreen : (s t : Screen) → Type 0
OnScreen s t = (t.crt_pos < crt_size) × ((i : ℕ) → crt_size ≤ i → t.crt_buf i ≡ s.crt_buf i)

-- The position may be below the last row by less than a row, or by one row.
abbrev NearScreen : (s t : Screen) → Type 0
NearScreen s t =
    (t.crt_pos < crt_size + crt_cols) × ((i : ℕ) → crt_size ≤ i → t.crt_buf i ≡ s.crt_buf i)

put_plain-NearScreen : (c : ℕ) (s : Screen) → s.crt_pos < crt_size → NearScreen s (put_plain c s)
unfolding put_plain
put_plain-NearScreen c s h = (ground arith, λ i out. ground arith)

scroll-OnScreen : (s t : Screen) → NearScreen s t → OnScreen s (scroll t)
unfolding scroll
scroll-OnScreen s t (pos, same) = (ground arith, λ i out. ground (arith, same i out))

put_space-OnScreen : (s t : Screen) → OnScreen s t → OnScreen s (put_space t)
put_space-OnScreen s t (h, same) =
    let (pos, kept) =
      scroll-OnScreen t (put_plain (with_attribute b' ') t)
        (put_plain-NearScreen (with_attribute b' ') t h) in
    (pos, λ i out. kept i out ∙ same i out)

-- From a position on the screen, cga_putc of any character leaves a position on the screen, and it
-- writes no cell beyond the screen's.
pub cga_putc-OnScreen : (c : ℕ) (s : Screen) → s.crt_pos < crt_size → OnScreen s (cga_putc c s)
unfolding cga_putc
cga_putc-OnScreen c s h = elim (Bool-cases (with_attribute c % 2 ^ 8 == 9)) [
  | inl tab ↦
      let spaces = put_space-OnScreen s _ (
        put_space-OnScreen s _ (
          put_space-OnScreen s _
            (put_space-OnScreen s _ (put_space-OnScreen s s (h, λ i out. refl))))) in
      rw tab (scroll-OnScreen s _ (omega (arith, spaces.0), spaces.1))
  | inr other ↦ rw other (scroll-OnScreen s _ (put_plain-NearScreen (with_attribute c) s h))
]

-- The characters of a text in turn.
unfoldable pub cputs : List ℕ → Screen → Screen
cputs [] s = s
cputs (c ∷ cs) s = cputs cs (cga_putc c s)

-- Characters that the switch has no case for.
abbrev pub AllPlain : List ℕ → Type 0
AllPlain [] = Unit
AllPlain (c ∷ cs) =
    (c % 2 ^ 8 ≢ 8) × (c % 2 ^ 8 ≢ 9) × (c % 2 ^ 8 ≢ 10) × (c % 2 ^ 8 ≢ 13) × AllPlain cs

cga_putc-cell :
    (c : ℕ) (s : Screen)
    → s.crt_pos + 1 < crt_size
    → c % 2 ^ 8 ≢ 8
    → c % 2 ^ 8 ≢ 9
    → c % 2 ^ 8 ≢ 10
    → c % 2 ^ 8 ≢ 13
    → cga_putc c s ≡ write_cell (with_attribute c) s
unfolding cga_putc put_plain scroll
cga_putc-cell c s h a b d e = ground arith

abbrev pub cells : (ℕ → ℕ) → (pos n : ℕ) → List ℕ
cells buf pos zero = []
cells buf pos (suc n) = buf pos ∷ cells buf (pos + 1) n

abbrev pub shown_as : ℕ → ℕ
shown_as c = with_attribute c % 2 ^ 16

-- The text from the position on, and no other cell changed.
pub record Written (cs : List ℕ) (s t : Screen) : Type 0 where
  pub moved : t.crt_pos ≡ s.crt_pos + length cs
  pub text : cells t.crt_buf s.crt_pos (length cs) ≡ map shown_as cs
  pub before : (i : ℕ) → i < s.crt_pos → t.crt_buf i ≡ s.crt_buf i
  pub after : (i : ℕ) → s.crt_pos + length cs ≤ i → t.crt_buf i ≡ s.crt_buf i

-- A text of characters other than backspace, tab, newline and carriage return, which ends before
-- the last cell of the screen, appears from the position on with its colours, black on white where
-- it has none, and no other cell changes.
pub cputs_writes :
    (cs : List ℕ) (s : Screen)
    → AllPlain cs
    → s.crt_pos + length cs < crt_size
    → Written cs s (cputs cs s)
unfolding cputs
cputs_writes [] s h room = record {
  moved = omega arith;
  text = refl;
  before = λ i low. refl;
  after = λ i high. refl;
}
cputs_writes (c ∷ cs) s (a, b, d, e, h) room =
    let s1 = cga_putc c s in
    let one = cga_putc-cell c s (omega arith) a b d e in
    let pos : s1.crt_pos ≡ s.crt_pos + 1 = ap (λ (t : Screen). t.crt_pos) one ∙ ground arith in
    let buf : (i : ℕ) → s1.crt_buf i ≡ update s.crt_buf s.crt_pos (shown_as c) i =
      λ i. ap (λ (t : Screen). t.crt_buf i) one in
    let rest = cputs_writes cs s1 h (omega arith) in
    let first : (cputs cs s1).crt_buf s.crt_pos ≡ shown_as c =
      rest.before s.crt_pos (omega arith)
      ∙ buf s.crt_pos
      ∙ update_self s.crt_buf s.crt_pos (shown_as c) in
    let others : cells (cputs cs s1).crt_buf (s.crt_pos + 1) (length cs) ≡ map shown_as cs =
      ap (λ (p : ℕ). cells (cputs cs s1).crt_buf p (length cs)) (sym pos) ∙ rest.text in
    record {
      moved = omega (arith, rest.moved);
      text = ap₂ (λ (x : ℕ) (xs : List ℕ). x ∷ xs) first others;
      before = λ i low.
          rest.before i (omega arith)
          ∙ buf i
          ∙ update_ne s.crt_buf s.crt_pos (shown_as c) i (omega arith);
      after = λ i high.
          rest.after i (omega arith)
          ∙ buf i
          ∙ update_ne s.crt_buf s.crt_pos (shown_as c) i (omega arith);
    }
