-- ===== src/Kdebug/Ends.antt =====
-- stab_binsearch of kern/kdebug.c: the search ends.
use os2017_lab.Base.{
  ℕ, zero, suc, ◌+◌, ◌-◌, ◌*◌, ◌/◌, ◌≤◌, ◌<◌, ◌≡◌, ◌≢◌, refl, none, some, arith, ltb, ◌==◌,
  if◌then◌else◌, Bool-cases, Option-cases, inl, inr,
}
use os2017_lab.Memlayout.{u32_mod}
use os2017_lab.Kdebug.{
  Stab, last_of_type, Search, compare_at, round, search_rounds, Region, region_of, search_start,
  rounds_for, stab_binsearch,
}

-- What last_of_type finds: the last entry of the type in its range.
pub last_of_type-some :
    (stabs : ℕ → Stab) (type l n m : ℕ)
    → last_of_type stabs type l n ≡ some m
    → (l ≤ m)
      × (m ≤ l + n)
      × ((stabs m).n_type ≡ type)
      × ((i : ℕ) → m < i → i ≤ l + n → (stabs i).n_type ≢ type)
unfolding last_of_type
last_of_type-some stabs type l zero m h =
    (ground arith, ground arith, ground arith, λ i low high. absurd (ground arith))
last_of_type-some stabs type l (suc n) m h =
    elim (Bool-cases ((stabs (l + suc n)).n_type == type)) [
      | inl here ↦
          let found : l + suc n ≡ m = ground arith in
          (omega arith, omega arith, ground arith, λ i low high. absurd (omega arith))
      | inr other ↦
          let (low, high, typed, none_after) = last_of_type-some stabs type l n m (ground arith) in
          (low, omega arith, typed, λ i after within. ground (arith, none_after i after))
    ]

pub last_of_type-none :
    (stabs : ℕ → Stab) (type l n : ℕ)
    → last_of_type stabs type l n ≡ none
    → (i : ℕ) → l ≤ i
    → i ≤ l + n
    → (stabs i).n_type ≢ type
unfolding last_of_type
last_of_type-none stabs type l zero h i low high = ground arith
last_of_type-none stabs type l (suc n) h i low high =
    ground (arith, last_of_type-none stabs type l n (ground arith) i low)

-- 1 while the first entry of the range is an exact match, which the next round looks at again.
unfoldable again : (stabs : ℕ → Stab) → Search → ℕ
again stabs s = if (stabs s.l).n_value == s.addr then 1 else 0

unfoldable pub weight : (stabs : ℕ → Stab) → Search → ℕ
unfolding again
weight stabs s = (s.end - s.l) * 2 + again stabs s

compare_at_lighter :
    (stabs : ℕ → Stab) (true_m m : ℕ) (s : Search)
    → s.l ≤ m
    → m ≤ true_m
    → true_m < s.end
    → (stabs m).n_value < u32_mod
    → weight stabs (compare_at stabs true_m m s) < weight stabs s
unfolding weight again compare_at
compare_at_lighter stabs true_m m s low high inside word = ground arith

abbrev pub middle : Search → ℕ
middle s = (s.l + (s.end - 1)) / 2

pub middle_in :
    (s : Search)
    → s.l < s.end
    → (s.l ≤ middle s) × (middle s < s.end) × (s.l + (middle s - s.l) ≡ middle s)
middle_in s h = (omega arith, omega arith, omega arith)

-- A round in which the middle and all entries before it have another type.
pub round-none :
    (stabs : ℕ → Stab) (type : ℕ) (s : Search)
    → last_of_type stabs type s.l (middle s - s.l) ≡ none
    → round stabs type s ≡ record s { l = middle s + 1 }
unfolding round
round-none stabs type s h = rw (h, round) refl

pub round-some :
    (stabs : ℕ → Stab) (type m : ℕ) (s : Search)
    → last_of_type stabs type s.l (middle s - s.l) ≡ some m
    → round stabs type s ≡ compare_at stabs (middle s) m s
unfolding round
round-some stabs type m s h = rw (h, round) refl

skip_lighter :
    (stabs : ℕ → Stab) (s : Search)
    → s.l < s.end
    → weight stabs (record s { l = middle s + 1 }) < weight stabs s
unfolding weight again
skip_lighter stabs s h = ground (arith, middle_in s h)

round_lighter :
    (stabs : ℕ → Stab) (type : ℕ) (s : Search)
    → ((i : ℕ) → (stabs i).n_value < u32_mod)
    → s.l < s.end
    → weight stabs (round stabs type s) < weight stabs s
round_lighter stabs type s words h =
    let (low, high, range) = middle_in s h in
    elim (Option-cases (last_of_type stabs type s.l (middle s - s.l))) [
      | inl none_there ↦ rw (round-none stabs type s none_there) (skip_lighter stabs s h)
      | inr (m, found) ↦
          let (first, last, typed, others) =
            last_of_type-some stabs type s.l (middle s - s.l) m found in
          rw (round-some stabs type m s found)
            (compare_at_lighter stabs (middle s) m s first (omega arith) high (words m))
    ]

pub search_ends :
    (stabs : ℕ → Stab) (type fuel : ℕ) (s : Search)
    → ((i : ℕ) → (stabs i).n_value < u32_mod)
    → weight stabs s < fuel
    → (t : Search) × (search_rounds stabs type fuel s ≡ some t)
unfolding search_rounds
search_ends stabs type zero s words enough = absurd (omega arith)
search_ends stabs type (suc fuel) s words enough = elim (Bool-cases (ltb s.l s.end)) [
  | inl goes ↦
      let lighter = round_lighter stabs type s words (ground arith) in
      rw goes (search_ends stabs type fuel (round stabs type s) words (omega arith))
  | inr done ↦ rw done (s, refl)
]

pub weight_bound : (stabs : ℕ → Stab) (s : Search) → weight stabs s < rounds_for s
unfolding weight again
weight_bound stabs s = ground arith

-- On any symbol table, whatever the order of its entries, the type and the address, the loop of
-- stab_binsearch ends within two rounds for each entry of the region and two more.
pub stab_binsearch_ends :
    (stabs : ℕ → Stab) (left stop type addr : ℕ)
    → ((i : ℕ) → (stabs i).n_value < u32_mod)
    → (region : Region) × (stab_binsearch stabs left stop type addr ≡ some region)
unfolding stab_binsearch
stab_binsearch_ends stabs left stop type addr words =
    let s = search_start left stop addr in
    let (t, ends) = search_ends stabs type (rounds_for s) s words (weight_bound stabs s) in
    (region_of stabs type t, rw (ends, stab_binsearch) refl)
