-- ===== src/Printf/Roundtrip.antt =====
-- printnum of lib/printfmt.c against strtol of lib/string.c.
use os2017_lab.Base.{
  ℕ, zero, suc, ◌+◌, ◌-◌, ◌*◌, ◌%◌, ◌^◌, ◌≤◌, ◌<◌, ◌≡◌, refl, ap, ◌∙◌, inl, inr, true, false, some,
  List, [], ◌∷◌, ◌++◌, map, arith, leb, if◌then◌else◌, Bool-cases,
}
use native.Mathlib.Nat.{mod-eq_of_lt, mul-le-mul_left}
use os2017_lab.Memlayout.{u32_mod}
use os2017_lab.Strings.Strtol.{skip_blanks, skip_sign, skip_prefix, digit_of, strtol_digits, strtol}
use os2017_lab.Env.{is_negative}
use os2017_lab.Printf.{
  repeated, digit_char, length, printnum, Args, no_flags, minus_one, getint, signed_decimal,
}
use os2017_lab.Printf.Number.{value_from, digits, field_of, AllBelow, WidthFits, printnum_prints}

skip_blanks-repeated : (n : ℕ) (s : List ℕ) → skip_blanks (repeated n 32 ++ s) ≡ skip_blanks s
unfolding skip_blanks
skip_blanks-repeated zero s = refl
skip_blanks-repeated (suc n) s = skip_blanks-repeated n s

digit_of-digit_char : (d : ℕ) → d < 36 → digit_of (digit_char d) ≡ some d
unfolding digit_of
digit_of-digit_char d h = ground arith

value_from_grows : (base acc : ℕ) (ds : List ℕ) → 1 ≤ base → acc ≤ value_from base acc ds
value_from_grows base acc [] h = omega arith
value_from_grows base acc (d ∷ ds) h =
    omega (arith, value_from_grows base (acc * base + d) ds h, mul-le-mul_left acc h)

strtol_digits_reads :
    (base acc : ℕ) (ds : List ℕ)
    → 1 ≤ base
    → base ≤ 36
    → AllBelow base ds
    → value_from base acc ds < u32_mod
    → strtol_digits base acc (map digit_char ds) ≡ (value_from base acc ds, [])
unfolding strtol_digits
strtol_digits_reads base acc [] h small below fits = refl
strtol_digits_reads base acc (d ∷ ds) h small (low, below) fits =
    let grows = value_from_grows base (acc * base + d) ds h in
    let keeps : (acc * base + d) % u32_mod ≡ acc * base + d = mod-eq_of_lt (omega arith) in
    let goes : leb base d ≡ false = ground arith in
    rw (digit_of-digit_char d (omega arith), goes, keeps, strtol_digits)
      (strtol_digits_reads base (acc * base + d) ds h small below fits)

-- A string that starts with a digit of base 16 at most, and does not go on with an `x`.
skip-digits :
    (base : ℕ) (ds : List ℕ)
    → 2 ≤ base
    → base ≤ 16
    → AllBelow base ds
    → let s = map digit_char ds in
      (skip_blanks s ≡ s) × (skip_sign s ≡ (false, s)) × (skip_prefix base s ≡ (base, s))
unfolding skip_blanks skip_sign skip_prefix
skip-digits base [] h small below = (refl, refl, ground arith)
skip-digits base (d ∷ []) h small (low, below) = (ground arith, ground arith, ground arith)
skip-digits base (d ∷ e ∷ ds) h small (low, (lower, below)) =
    (ground arith, ground arith, ground arith)

-- For a 32-bit number, a base from 2 to 16, and a width below 2^31 or at least 2^31 + 64 as a 32-bit
-- word: strtol in this base, on what printnum prints with blanks for padding, gives the number back
-- and stops at the end.
pub strtol-printnum :
    (num base width : ℕ)
    → 2 ≤ base
    → base ≤ 16
    → num < u32_mod
    → WidthFits 64 width
    → strtol (printnum num base width 32) base ≡ (num, [])
unfolding strtol
strtol-printnum num base width h small fits wide =
    let ds = digits 64 base num in
    let s = map digit_char ds in
    let (printed, below, stands) = printnum_prints num base width 32 h (omega arith) wide in
    let (blanks, sign, pre) = skip-digits base ds h small below in
    let read = strtol_digits_reads base 0 ds (omega arith) (omega arith) below (omega arith) in
    simp (
      printed,
      skip_blanks-repeated (field_of width - length ds) s,
      blanks,
      sign,
      pre,
      read,
      stands,
    )

minus_sign : (s : List ℕ) → skip_sign (skip_blanks (45 ∷ s)) ≡ (true, s)
unfolding skip_blanks skip_sign
minus_sign s = refl

-- Without a width there is no padding, so the digits can follow a sign.
strtol-negative :
    (num : ℕ)
    → num < u32_mod
    → strtol (45 ∷ printnum num 10 minus_one 32) 10 ≡ ((u32_mod - num) % u32_mod, [])
unfolding strtol
strtol-negative num fits =
    let ds = digits 64 10 num in
    let s = map digit_char ds in
    let (printed, below, stands) =
      printnum_prints num 10 minus_one 32 (omega arith) (omega arith) (ground arith) in
    let (blanks, sign, pre) = skip-digits 10 ds (omega arith) (omega arith) below in
    let read = strtol_digits_reads 10 0 ds (omega arith) (omega arith) below (omega arith) in
    let none_left : 0 - length ds ≡ 0 = omega arith in
    let printed' : printnum num 10 minus_one 32 ≡ s =
      printed ∙ ap (λ (n : ℕ). repeated n 32 ++ s) none_left in
    let minus : skip_sign (skip_blanks (45 ∷ s)) ≡ (true, s) = minus_sign s in
    simp (printed', read, stands)

signed_decimal-negative :
    (num : ℕ)
    → 2 ^ 63 ≤ num
    → signed_decimal no_flags num ≡ 45 ∷ printnum (2 ^ 64 - num) 10 minus_one 32
unfolding signed_decimal
signed_decimal-negative num h = let b : leb (2 ^ 63) num ≡ true = ground arith in rw b refl

signed_decimal-positive :
    (num : ℕ) → num < 2 ^ 63 → signed_decimal no_flags num ≡ printnum num 10 minus_one 32
unfolding signed_decimal
signed_decimal-positive num h = let b : leb (2 ^ 63) num ≡ false = ground arith in rw b refl

getint_lem :
    (ws : Args) → (getint 0 ws).0 ≡ (if is_negative (ws 0) then ws 0 + 2 ^ 64 - u32_mod else ws 0)
unfolding getint
getint_lem ws = refl

-- strtol in base 10 reads back the int that `%d` prints without a width, any int.
pub strtol-signed_decimal :
    (ws : Args) → ws 0 < u32_mod → strtol (signed_decimal no_flags (getint 0 ws).0) 10 ≡ (ws 0, [])
strtol-signed_decimal ws fits = elim (Bool-cases (is_negative (ws 0))) [
  | inl neg ↦
      let word : (getint 0 ws).0 ≡ ws 0 + 2 ^ 64 - u32_mod = ground (arith, getint_lem ws) in
      let size : 2 ^ 64 - (ws 0 + 2 ^ 64 - u32_mod) ≡ u32_mod - ws 0 = omega arith in
      let back : (u32_mod - (u32_mod - ws 0)) % u32_mod ≡ ws 0 = ground arith in
      simp (
        word,
        signed_decimal-negative (ws 0 + 2 ^ 64 - u32_mod) (ground arith),
        size,
        strtol-negative (u32_mod - ws 0) (ground arith),
        back,
      )
  | inr pos ↦
      let word : (getint 0 ws).0 ≡ ws 0 = ground (arith, getint_lem ws) in
      simp (
        word,
        signed_decimal-positive (ws 0) (omega arith),
        strtol-printnum (ws 0) 10 minus_one (omega arith) (omega arith) fits (ground arith),
      )
]
