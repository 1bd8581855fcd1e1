-- ===== src/Strings/Cstring.antt =====
-- strlen, strcmp, strchr, strfind and memset of lib/string.c. A string is the list of its bytes
-- before the final 0, and a pointer into it is what is left of the list; memset is over a memory of
-- bytes.
use os2017_lab.Base.{
  ℕ, zero, suc, ◌+◌, ◌-◌, ◌*◌, ◌/◌, ◌%◌, ◌^◌, ◌<◌, ◌≡◌, ◌≢◌, refl, sym, ap, ◌∙◌, ◌↔◌, true, ◌&&◌,
  Option, none, some, List, [], ◌∷◌, arith, ltb, leb, ◌==◌, if◌then◌else◌, Bool-cases, inl, inr,
}
use mathlib.Core.Path.{ap₂}
use os2017_lab.Strings.{Bytes, byte_difference}

unfoldable pub strlen : List ℕ → ℕ
strlen [] = 0
strlen (c ∷ s) = suc (strlen s)

-- The byte at a pointer, the final 0 included.
abbrev pub byte_at : List ℕ → ℕ
byte_at [] = 0
byte_at (c ∷ s) = c

-- An int as a 32-bit word.
unfoldable pub strcmp : (p q : List ℕ) → ℕ
strcmp [] q = byte_difference 0 (byte_at q)
strcmp (c ∷ p) [] = byte_difference c 0
strcmp (c ∷ p) (d ∷ q) = let rest = strcmp p q in if c == d then rest else byte_difference c d

unfoldable pub strchr : (s : List ℕ) (c : ℕ) → Option (List ℕ)
strchr [] c = none
strchr (d ∷ s) c = let rest = strchr s c in if d == c then some (d ∷ s) else rest

unfoldable pub strfind : (s : List ℕ) (c : ℕ) → List ℕ
strfind [] c = []
strfind (d ∷ s) c = let rest = strfind s c in if d == c then d ∷ s else rest

-- Bytes of a C string.
abbrev pub AllBytes : List ℕ → Type 0
AllBytes [] = Unit
AllBytes (c ∷ s) = (c ≢ 0) × (c < 2 ^ 8) × AllBytes s

strcmp_self : (s : List ℕ) → strcmp s s ≡ 0
unfolding strcmp
strcmp_self [] = refl
strcmp_self (c ∷ s) = let same : (c == c) ≡ true = ground arith in rw same (strcmp_self s)

strcmp_zero : (p q : List ℕ) → AllBytes p → AllBytes q → strcmp p q ≡ 0 → p ≡ q
unfolding strcmp
strcmp_zero [] [] hp hq h = refl
strcmp_zero [] (d ∷ q) hp (nonzero, small, hq) h = absurd (ground arith)
strcmp_zero (c ∷ p) [] (nonzero, small, hp) hq h = absurd (ground arith)
strcmp_zero (c ∷ p) (d ∷ q) (nonzero, small, hp) (nonzero', small', hq) h =
    elim (Bool-cases (c == d)) [
      | inl same ↦
          let first : c ≡ d = ground arith in
          ap₂ (λ (x : ℕ) (xs : List ℕ). x ∷ xs) first (strcmp_zero p q hp hq (ground arith))
      | inr other ↦ absurd (ground arith)
    ]

-- strcmp returns 0 exactly on equal strings.
pub strcmp_equal : (p q : List ℕ) → AllBytes p → AllBytes q → (strcmp p q ≡ 0) ↔ (p ≡ q)
strcmp_equal p q hp hq = (strcmp_zero p q hp hq, λ same. ap (strcmp p) (sym same) ∙ strcmp_self p)

-- `rep stos` of units of `u` bytes of `value`, the low byte first.
abbrev pub store_unit : (u d value : ℕ) → Bytes → Bytes
store_unit u d value m a =
    if leb d a && ltb a (d + u) then value / (2 ^ 8) ^ (a - d) % 2 ^ 8 else m a

unfoldable pub store_units : (u rounds d value : ℕ) → Bytes → Bytes
store_units u zero d value m = m
store_units u (suc rounds) d value m = store_units u rounds (d + u) value (store_unit u d value m)

-- `(c<<24)|(c<<16)|(c<<8)|c`
abbrev pub four_bytes : ℕ → ℕ
four_bytes c = c * 2 ^ 24 + c * 2 ^ 16 + c * 2 ^ 8 + c

unfoldable pub memset : (v c n : ℕ) → Bytes → Bytes
unfolding store_units
memset v c n m =
    if n == 0
    then m
    else if (v % 4 == 0) && (n % 4 == 0)
    then store_units 4 (n / 4) v (four_bytes (c % 2 ^ 8)) m
    else store_units 1 n v c m

-- Bytes from `d` on are all `c`.
four_bytes_at : (c i : ℕ) → c < 2 ^ 8 → i < 4 → four_bytes c / (2 ^ 8) ^ i % 2 ^ 8 ≡ c
four_bytes_at c zero h low = omega arith
four_bytes_at c (suc zero) h low = omega arith
four_bytes_at c (suc (suc zero)) h low = omega arith
four_bytes_at c (suc (suc (suc zero))) h low = omega arith
four_bytes_at c (suc (suc (suc (suc i)))) h low = absurd (omega arith)

one_byte_at : (c i : ℕ) → i < 1 → c / (2 ^ 8) ^ i % 2 ^ 8 ≡ c % 2 ^ 8
one_byte_at c zero low = omega arith
one_byte_at c (suc i) low = absurd (omega arith)

abbrev filled : (d n c : ℕ) → Bytes → Bytes
filled d n c m a = if leb d a && ltb a (d + n) then c else m a

store_units_fill :
    (u rounds d value c : ℕ) (m : Bytes) (a : ℕ)
    → 0 < u
    → ((i : ℕ) → i < u → value / (2 ^ 8) ^ i % 2 ^ 8 ≡ c)
    → store_units u rounds d value m a ≡ filled d (rounds * u) c m a
unfolding store_units
store_units_fill u zero d value c m a some_bytes each = ground arith
store_units_fill u (suc rounds) d value c m a some_bytes each =
    let rest =
      store_units_fill u rounds (d + u) value c (store_unit u d value m) a some_bytes each in
    let size : suc rounds * u ≡ u + rounds * u = omega arith in
    rest ∙ ground (arith, size, each (a - d))

-- At any address, aligned or not, and for any size, memset makes the `n` bytes from `v` on the low
-- byte of `c`, and changes no other.
pub memset_fills :
    (v c n : ℕ) (m : Bytes) (a : ℕ)
    → memset v c n m a ≡ (if leb v a && ltb a (v + n) then c % 2 ^ 8 else m a)
unfolding memset
memset_fills v c n m a = elim (Bool-cases (n == 0)) [
  | inl nothing ↦ rw nothing (ground arith)
  | inr some_bytes ↦ elim (Bool-cases ((v % 4 == 0) && (n % 4 == 0))) [
    | inl words ↦
        let whole : n / 4 * 4 ≡ n = ground arith in
        let fill =
          store_units_fill 4 (n / 4) v (four_bytes (c % 2 ^ 8)) (c % 2 ^ 8) m a (omega arith)
            (λ i low. four_bytes_at (c % 2 ^ 8) i (omega arith) low) in
        rw (some_bytes, words) (fill ∙ ap (λ (k : ℕ). filled v k (c % 2 ^ 8) m a) whole)
    | inr bytes ↦
        let fill = store_units_fill 1 n v c (c % 2 ^ 8) m a (omega arith) (one_byte_at c) in
        rw (some_bytes, bytes) (fill ∙ ap (λ (k : ℕ). filled v k (c % 2 ^ 8) m a) (omega arith))
  ]
]
