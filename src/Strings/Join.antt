-- ===== src/Strings/Join.antt =====
-- strcpy and strcat of lib/string.c, over a memory of bytes. The loops run to a 0 byte, and are given
-- as many rounds as the caller says.
use os2017_lab.Base.{
  ℕ, zero, suc, ◌+◌, ◌-◌, ◌≤◌, ◌<◌, ◌≡◌, ◌≢◌, ◌⊎◌, refl, sym, ap, ◌∙◌, inl, inr, true, false,
  Option, none, some, leb, ◌==◌, if◌then◌else◌, arith, Bool-cases,
}
use os2017_lab.Base.Arrays.{update, update_ne}
use os2017_lab.Strings.{Bytes}
use os2017_lab.Strings.Copy.{moved}

-- The bytes that `*src++` gives are those that `*dst++` receives.
unfoldable pub strcpy : (fuel dst src : ℕ) → Bytes → Option Bytes
strcpy zero dst src m = none
strcpy (suc fuel) dst src m =
    let m' = update m dst (m src) in
    let rest = strcpy fuel (dst + 1) (src + 1) m' in if m src == 0 then some m' else rest

-- strlen of the string at `s`.
unfoldable pub length_at : (fuel s : ℕ) → Bytes → Option ℕ
length_at zero s m = none
length_at (suc fuel) s m =
    let rest = length_at fuel (s + 1) m in
    if m s == 0 then some 0 else elim rest [ none ↦ none | some n ↦ some (suc n) ]

unfoldable pub strcat : (fuel dst src : ℕ) → Bytes → Option Bytes
unfolding strcpy length_at
strcat fuel dst src m = elim (length_at fuel dst m) [
  | none ↦ none
  | some len ↦ strcpy fuel (dst + len) src m
]

-- A string of `n` bytes other than 0 begins at `s`.
pub record IsText (m : Bytes) (s n : ℕ) : Type 0 where
  pub inside : (i : ℕ) → i < n → m (s + i) ≢ 0
  pub ends : m (s + n) ≡ 0

first_moved : (dst src : ℕ) (m : Bytes) (a : ℕ) → update m dst (m src) a ≡ moved dst src (0 + 1) m a
first_moved dst src m a = elim (Bool-cases (a == dst)) [
  | inl here ↦
      let place : a - dst + src ≡ src = ground (arith, here) in rw place (ground (arith, here))
  | inr off ↦ ground (arith, off)
]

moved_step :
    (dst src n : ℕ) (m : Bytes) (a : ℕ)
    → (dst + suc n < src) ⊎ (src + suc n < dst)
    → moved (dst + 1) (src + 1) (n + 1) (update m dst (m src)) a ≡ moved dst src (suc n + 1) m a
moved_step dst src n m a apart = elim (Bool-cases (leb (dst + 1) a)) [
  | inl later ↦
      let place : a - (dst + 1) + (src + 1) ≡ a - dst + src = ground (arith, later) in
      rw place (ground (arith, later, apart))
  | inr before ↦ elim (Bool-cases (a == dst)) [
    | inl here ↦
        let place : a - dst + src ≡ src = ground (arith, here) in rw place (ground (arith, here))
    | inr off ↦ ground (arith, off, before)
  ]
]

shifted_apart :
    (dst src n : ℕ)
    → (dst + suc n < src) ⊎ (src + suc n < dst)
    → (dst + 1 + n < src + 1) ⊎ (src + 1 + n < dst + 1)
shifted_apart dst src n (inl h) = inl (omega arith)
shifted_apart dst src n (inr h) = inr (omega arith)

-- Where a string of `n` bytes and the place for it are apart, strcpy with more than `n` rounds
-- copies the string and its 0, and changes no other byte.
pub strcpy_copies :
    (n fuel dst src : ℕ) (m : Bytes)
    → n < fuel
    → IsText m src n
    → (dst + n < src) ⊎ (src + n < dst)
    → (m' : Bytes) × (strcpy fuel dst src m ≡ some m')
      × ((a : ℕ) → m' a ≡ moved dst src (n + 1) m a)
unfolding strcpy
strcpy_copies n zero dst src m enough text apart = absurd (omega arith)
strcpy_copies zero (suc fuel) dst src m enough text apart =
    let place : src ≡ src + 0 = omega arith in
    let ends : m src ≡ 0 = ap m place ∙ text.ends in
    let stop : (m src == 0) ≡ true = ground (arith, ends) in
    (update m dst (m src), rw stop refl, first_moved dst src m)
strcpy_copies (suc n) (suc fuel) dst src m enough text apart =
    let m1 = update m dst (m src) in
    let place : src ≡ src + 0 = omega arith in
    let first : m src ≢ 0 = λ none'. text.inside 0 (omega arith) (ap m (sym place) ∙ none') in
    let go : (m src == 0) ≡ false = ground (arith, first) in
    let later : (i : ℕ) → i ≤ n → m1 (src + 1 + i) ≡ m (src + suc i) = λ i low.
      let next : src + 1 + i ≡ src + suc i = omega arith in
      let off : src + 1 + i ≢ dst = λ same. absurd (omega (arith, apart)) in
      update_ne m dst (m src) (src + 1 + i) off ∙ ap m next in
    let (m', runs, copies) =
      strcpy_copies n fuel (dst + 1) (src + 1) m1 (omega (arith, enough))
        (record {
          inside = λ i low none'.
              text.inside (suc i) (omega arith) (sym (later i (omega arith)) ∙ none');
          ends = later n (omega arith) ∙ text.ends;
        })
        (shifted_apart dst src n apart) in
    (m', rw go runs, λ a. copies a ∙ moved_step dst src n m a apart)
