-- ===== src/Strings/Search.antt =====
-- memcmp, memfind and strnlen of lib/string.c against what they search for.
use os2017_lab.Base.{
  ℕ, zero, suc, ◌+◌, ◌%◌, ◌^◌, ◌≤◌, ◌<◌, ◌≡◌, ◌≢◌, ◌↔◌, refl, true, false, not, arith, ◌==◌, ◌⊎◌,
  inl, inr,
}
use native.Mathlib.Decide.{ℕ_discrete}
use os2017_lab.Strings.{Bytes, memcmp, memfind, strnlen}

-- The two regions of `n` bytes hold the same bytes.
abbrev pub Agree : (v1 v2 n : ℕ) → Bytes → Type 0
Agree v1 v2 n m = (i : ℕ) → i < n → m (v1 + i) ≡ m (v2 + i)

Agree-suc :
    (v1 v2 n : ℕ) (m : Bytes) → m v1 ≡ m v2 → Agree (v1 + 1) (v2 + 1) n m → Agree v1 v2 (suc n) m
Agree-suc v1 v2 n m same rest zero h =
    let a : v1 + 0 ≡ v1 = omega arith in let b : v2 + 0 ≡ v2 = omega arith in rw (a, b) same
Agree-suc v1 v2 n m same rest (suc i) h =
    let a : v1 + suc i ≡ v1 + 1 + i = omega arith in
    let b : v2 + suc i ≡ v2 + 1 + i = omega arith in rw (a, b) (rest i (omega arith))

Agree-first : (v1 v2 n : ℕ) (m : Bytes) → Agree v1 v2 (suc n) m → m v1 ≡ m v2
Agree-first v1 v2 n m all =
    let a : v1 + 0 ≡ v1 = omega arith in
    let b : v2 + 0 ≡ v2 = omega arith in rw (a, b) at (all 0 (omega arith))

Agree-rest : (v1 v2 n : ℕ) (m : Bytes) → Agree v1 v2 (suc n) m → Agree (v1 + 1) (v2 + 1) n m
Agree-rest v1 v2 n m all i h =
    let a : v1 + suc i ≡ v1 + 1 + i = omega arith in
    let b : v2 + suc i ≡ v2 + 1 + i = omega arith in rw (a, b) at (all (suc i) (omega arith))

-- In a memory of bytes, memcmp answers 0 exactly when the two regions hold the same bytes.
pub memcmp_iff :
    (v1 v2 n : ℕ) (m : Bytes) → ((a : ℕ) → m a < 2 ^ 8) → (memcmp v1 v2 n m ≡ 0) ↔ Agree v1 v2 n m
unfolding memcmp
memcmp_iff v1 v2 zero m bytes = (λ e i h. absurd (omega arith), λ all. refl)
memcmp_iff v1 v2 (suc n) m bytes = elim (ℕ_discrete (m v1) (m v2)) [
  | yes same ↦
      let test : not (m v1 == m v2) ≡ false = ground arith in
      let rest = memcmp_iff (v1 + 1) (v2 + 1) n m bytes in
      rw test (λ e. Agree-suc v1 v2 n m same (rest.0 e), λ all. rest.1 (Agree-rest v1 v2 n m all))
  | no differ ↦
      let test : not (m v1 == m v2) ≡ true = ground arith in
      rw test (
        λ e. absurd (differ (omega (arith, bytes v1, bytes v2))),
        λ all. absurd (differ (Agree-first v1 v2 n m all)),
      )
]

-- memfind returns the address of the first byte of the region that equals `c` in eight bits, and
-- the end of the region where none does.
pub memfind_first :
    (s c n : ℕ) (m : Bytes)
    → (s ≤ memfind s c n m)
      × (memfind s c n m ≤ s + n)
      × ((a : ℕ) → s ≤ a → a < memfind s c n m → m a ≢ c % 2 ^ 8)
      × ((memfind s c n m ≡ s + n) ⊎ (m (memfind s c n m) ≡ c % 2 ^ 8))
unfolding memfind
memfind_first s c zero m =
    (omega arith, omega arith, λ a from to. absurd (omega arith), inl (omega arith))
memfind_first s c (suc n) m =
    let rest = memfind_first (s + 1) c n m in
    elim (ℕ_discrete (m s) (c % 2 ^ 8)) [
      | yes here ↦
          let test : (m s == c % 2 ^ 8) ≡ true = ground arith in
          rw test (omega arith, omega arith, λ a from to. absurd (omega arith), inr here)
      | no other ↦
          let test : (m s == c % 2 ^ 8) ≡ false = ground arith in
          let end : s + suc n ≡ s + 1 + n = omega arith in
          rw (test, end)
            (
              omega (arith, rest.0),
              rest.1,
              λ a from to. elim (ℕ_discrete a s) [
                | yes now ↦ rw now other
                | no later ↦ rest.2 a (omega arith) to
              ],
              rest.3,
            )
    ]

-- strnlen counts the bytes before the first 0, and `size` where there is none among as many.
pub strnlen_first :
    (s size : ℕ) (m : Bytes)
    → (strnlen s size m ≤ size)
      × ((i : ℕ) → i < strnlen s size m → m (s + i) ≢ 0)
      × ((strnlen s size m ≡ size) ⊎ (m (s + strnlen s size m) ≡ 0))
unfolding strnlen
strnlen_first s zero m = (omega arith, λ i h. absurd (omega arith), inl refl)
strnlen_first s (suc size) m =
    let rest = strnlen_first (s + 1) size m in
    let here : s + 0 ≡ s = omega arith in
    elim (ℕ_discrete (m s) 0) [
      | yes ends ↦
          let test : not (m s == 0) ≡ false = ground arith in
          rw (test, here) (omega arith, λ i h. absurd (omega arith), inr ends)
      | no goes_on ↦
          let test : not (m s == 0) ≡ true = ground arith in
          let shift : s + suc (strnlen (s + 1) size m) ≡ s + 1 + strnlen (s + 1) size m =
            omega arith in
          rw (test, shift)
            (
              omega (arith, rest.0),
              nonzero_shift (strnlen (s + 1) size m) goes_on rest.1,
              elim (rest.2) [ inl full ↦ inl (omega (arith, full)) | inr ended ↦ inr ended ],
            )
    ]
  where
    nonzero_shift :
        (n : ℕ)
        → m s ≢ 0
        → ((i : ℕ) → i < n → m (s + 1 + i) ≢ 0)
        → (i : ℕ) → i < suc n
        → m (s + i) ≢ 0
    nonzero_shift n first later zero h = let here : s + 0 ≡ s = omega arith in rw here first
    nonzero_shift n first later (suc i) h =
        let next : s + suc i ≡ s + 1 + i = omega arith in rw next (later i (omega arith))
