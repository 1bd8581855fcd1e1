-- ===== src/Base/Chain.antt =====
-- Linked lists through an array of link fields, as lists of distinct indices.
use Prim.Native.Nat.{ℕ, zero, suc, ◌<◌}
use mathlib.Core.Path.{◌≡◌, refl}
use mathlib.Core.Bool.{Bool, true, false, ◌||◌}
use mathlib.Core.Option.{Option, none, some}
use mathlib.Core.List.{List, [], ◌∷◌}
use native.Mathlib.Omega.{arith}
use os2017_lab.Base.Tests.{◌==◌}

abbrev pub has : ℕ → List ℕ → Bool
has p [] = false
has p (x ∷ xs) = (p == x) || has p xs

-- From `head` the links lead through the distinct elements `xs` to NULL.
abbrev pub Chain : (ℕ → Option ℕ) → Option ℕ → List ℕ → Type 0
Chain next head [] = head ≡ none
Chain next head (p ∷ xs) = (head ≡ some p) × (has p xs ≡ false) × Chain next (next p) xs

-- A list survives any change that keeps the links of its own elements.
pub Chain-frame :
    (next next' : ℕ → Option ℕ) (head : Option ℕ) (xs : List ℕ)
    → ((i : ℕ) → has i xs ≡ true → next' i ≡ next i)
    → Chain next head xs
    → Chain next' head xs
Chain-frame next next' head [] same c = c
Chain-frame next next' head (p ∷ xs) same c =
    let link : next' p ≡ next p = same p (ground arith) in
    (c.0, c.1, rw link (Chain-frame next next' (next p) xs (λ i h. same i (ground arith)) c.2))

-- The numbers from `start` on, `n` of them.
abbrev pub range_from : ℕ → ℕ → List ℕ
range_from start zero = []
range_from start (suc n) = start ∷ range_from (suc start) n

pub has-range_from_below : (start n i : ℕ) → i < start → has i (range_from start n) ≡ false
has-range_from_below start zero i h = refl
has-range_from_below start (suc n) i h = ground (arith, has-range_from_below (suc start) n i)
