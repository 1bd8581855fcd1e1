-- ===== src/Printf/Number.antt =====
-- printnum of lib/printfmt.c: the digits that it prints, and the padding before them.
use os2017_lab.Base.{
  ℕ, zero, suc, ◌+◌, ◌-◌, ◌*◌, ◌/◌, ◌%◌, ◌^◌, ◌≤◌, ◌<◌, ◌≡◌, refl, ap, ◌∙◌, ◌⊎◌, inl, inr, true,
  List, [], ◌∷◌, ◌++◌, map, arith, leb, if◌then◌else◌, Bool-cases,
}
use mathlib.Core.List.{map-append, append_assoc}
use native.Mathlib.Nat.{
  pow-suc, div-mul-le_self, div-add-mod', mod-eq_of_lt, mod-lt, mul-le-mul_left,
}
use os2017_lab.Memlayout.{u32_mod}
use os2017_lab.Env.{is_negative}
use os2017_lab.Printf.{repeated, rounds_of, sub_int, digit_char, length, printnum_steps, printnum}

-- The number that digits in a base stand for, the most significant first, after those that have
-- made `acc`.
abbrev pub value_from : (base acc : ℕ) → List ℕ → ℕ
value_from base acc [] = acc
value_from base acc (d ∷ ds) = value_from base (acc * base + d) ds

abbrev pub value : ℕ → List ℕ → ℕ
value base ds = value_from base 0 ds

-- The digits of a number, by the remainders.
unfoldable pub digits : (fuel base num : ℕ) → List ℕ
digits zero base num = []
digits (suc fuel) base num =
    let more = digits fuel base (num / base) in
    (if leb base num then more else []) ++ (num % base) ∷ []

-- The characters that a width asks for.
abbrev pub field_of : ℕ → ℕ
field_of width = if is_negative width then 0 else width

half_quotient : (num base : ℕ) → 2 ≤ base → num / base * 2 ≤ num
half_quotient num base h = omega (arith, div-mul-le_self num base, mul-le-mul_left (num / base) h)

half_fits : (fuel num base : ℕ) → 2 ≤ base → num < 2 ^ suc fuel → num / base < 2 ^ fuel
half_fits fuel num base h small = omega (arith, half_quotient num base h, pow-suc 2 fuel)

pub length-append : (xs ys : List ℕ) → length (xs ++ ys) ≡ length xs + length ys
length-append [] ys = omega arith
length-append (x ∷ xs) ys = omega (arith, length-append xs ys)

value_from-append :
    (base acc d : ℕ) (ds : List ℕ)
    → value_from base acc (ds ++ d ∷ []) ≡ value_from base acc ds * base + d
value_from-append base acc d [] = refl
value_from-append base acc d (e ∷ ds) = value_from-append base (acc * base + e) d ds

value-digits :
    (fuel base num : ℕ) → 2 ≤ base → num < 2 ^ fuel → value base (digits fuel base num) ≡ num
unfolding digits
value-digits zero base num h small = omega arith
value-digits (suc fuel) base num h small = elim (Bool-cases (leb base num)) [
  | inl more ↦ rw more (
      value_from-append base 0 (num % base) (digits fuel base (num / base))
      ∙ ap (λ (v : ℕ). v * base + num % base)
          (value-digits fuel base (num / base) h (half_fits fuel num base h small))
      ∙ div-add-mod' num base)
  | inr last ↦ rw last (ground (arith, mod-eq_of_lt {n = num} {m = base}))
]

-- Widths that do not reach the least int while printnum counts down.
abbrev pub WidthFits : (fuel width : ℕ) → Type 0
WidthFits fuel width = (width < 2 ^ 31) ⊎ ((2 ^ 31 + fuel ≤ width) × (width < u32_mod))

narrower :
    (fuel width : ℕ) → fuel < 2 ^ 31 → WidthFits (suc fuel) width → WidthFits fuel (sub_int width 1)
narrower fuel width h (inl low) = ground arith
narrower fuel width h (inr high) = ground arith

map-singleton :
    (ds : List ℕ) (d : ℕ) → map digit_char (ds ++ d ∷ []) ≡ map digit_char ds ++ digit_char d ∷ []
map-singleton ds d = map-append digit_char ds (d ∷ [])

fuel_left : (fuel num base : ℕ) → 2 ≤ base → base ≤ num → num < 2 ^ suc fuel → 0 < fuel
fuel_left zero num base h more small = omega arith
fuel_left (suc fuel) num base h more small = omega arith

leb-true : {a b : ℕ} → leb a b ≡ true → a ≤ b
leb-true h = ground arith

printnum_steps_lem :
    (fuel num base width padc : ℕ)
    → 2 ≤ base
    → 0 < fuel
    → fuel < 2 ^ 31
    → num < 2 ^ fuel
    → WidthFits fuel width
    → printnum_steps fuel num base width padc
      ≡ repeated (field_of width - length (digits fuel base num)) padc
        ++ map digit_char (digits fuel base num)
unfolding printnum_steps digits
printnum_steps_lem zero num base width padc h some_fuel few small fits = absurd (omega arith)
printnum_steps_lem (suc fuel) num base width padc h some_fuel few small fits =
    elim (Bool-cases (leb base num)) [
      | inl more ↦
          let ds = digits fuel base (num / base) in
          let some_left = fuel_left fuel num base h (leb-true more) small in
          let ih =
            printnum_steps_lem fuel (num / base) base (sub_int width 1) padc h some_left
              (omega arith) (half_fits fuel num base h small)
              (narrower fuel width (omega arith) fits) in
          let pad : field_of (sub_int width 1) - length ds
              ≡ field_of width - length (ds ++ (num % base) ∷ []) =
            ground (arith, length-append ds ((num % base) ∷ [])) in
          rw more (simp (ih, map-singleton, append_assoc, pad))
      | inr last ↦
          let pad : rounds_of (sub_int width 1) ≡ field_of width - 1 = ground arith in
          rw last (rw pad refl)
    ]

abbrev pub AllBelow : ℕ → List ℕ → Type 0
AllBelow base [] = Unit
AllBelow base (d ∷ ds) = (d < base) × AllBelow base ds

AllBelow-append :
    (base d : ℕ) (ds : List ℕ) → AllBelow base ds → d < base → AllBelow base (ds ++ d ∷ [])
AllBelow-append base d [] h low = (low, tt)
AllBelow-append base d (e ∷ ds) (first, rest) low = (first, AllBelow-append base d ds rest low)

pub digits-AllBelow : (fuel base num : ℕ) → 2 ≤ base → AllBelow base (digits fuel base num)
unfolding digits
digits-AllBelow zero base num h = tt
digits-AllBelow (suc fuel) base num h =
    let low : num % base < base = mod-lt num {m = base} (omega arith) in
    elim (Bool-cases (leb base num)) [
      | inl more ↦ rw more (
          AllBelow-append base (num % base) (digits fuel base (num / base))
            (digits-AllBelow fuel base (num / base) h) low)
      | inr last ↦ rw last (low, tt)
    ]

-- In a base of two or more, and with a width that cannot pass the least int while printnum counts
-- down, printnum prints the padding that the width still asks for and then digits, which are all
-- below the base and stand for the number, any of 64 bits.
pub printnum_prints :
    (num base width padc : ℕ)
    → 2 ≤ base
    → num < 2 ^ 64
    → WidthFits 64 width
    → let ds = digits 64 base num in
      (printnum num base width padc
        ≡ repeated (field_of width - length ds) padc ++ map digit_char ds)
      × AllBelow base ds
      × (value base ds ≡ num)
unfolding printnum
printnum_prints num base width padc h small fits = (
  printnum_steps_lem 64 num base width padc h (omega arith) (omega arith) small fits,
  digits-AllBelow 64 base num h,
  value-digits 64 base num h small,
)
