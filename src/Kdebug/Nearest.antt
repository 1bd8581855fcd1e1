-- ===== src/Kdebug/Nearest.antt =====
-- stab_binsearch of kern/kdebug.c: the entry that it finds.
use os2017_lab.Base.{
  ℕ, zero, suc, ◌+◌, ◌-◌, ◌%◌, ◌≤◌, ◌<◌, ◌≡◌, ◌≢◌, refl, ap, true, some, arith, ltb, Bool-cases,
  Option-cases, ◌⊎◌, inl, inr,
}
use native.Mathlib.Decide.{ℕ_discrete}
use os2017_lab.Memlayout.{u32_mod}
use os2017_lab.Kdebug.{
  Stab, last_of_type, Search, compare_at, round, search_rounds, rightmost, Region, region_of,
  search_start, rounds_for, stab_binsearch,
}
use os2017_lab.Kdebug.Ends.{
  last_of_type-some, last_of_type-none, middle, middle_in, round-none, round-some, search_ends,
  weight_bound,
}

-- Entry `t` is the one to find: of the type, at or before the address, and the entries of the type
-- after it begin more than one byte after the address.
pub record IsNearest (stabs : ℕ → Stab) (left stop type addr t : ℕ) : Type 0 where
  pub words : (i : ℕ) → (stabs i).n_value < u32_mod
  pub sorted :
      (i j : ℕ)
      → left ≤ i
      → i < j
      → j < stop
      → (stabs i).n_type ≡ type
      → (stabs j).n_type ≡ type
      → (stabs i).n_value ≤ (stabs j).n_value
  pub no_wrap : addr + 1 < u32_mod
  pub in_left : left ≤ t
  pub in_right : t < stop
  pub typed : (stabs t).n_type ≡ type
  pub at_most : (stabs t).n_value ≤ addr
  pub later : (i : ℕ) → t < i → i < stop → (stabs i).n_type ≡ type → addr + 1 < (stabs i).n_value

module _ {stabs : ℕ → Stab} {left stop type addr t : ℕ}
    (target : IsNearest stabs left stop type addr t) where
  open target use {sorted, no_wrap, in_left, in_right, typed, at_most, later}

  record Inv (s : Search) : Type 0 where
    bound : t < s.end
    within : s.end ≤ stop
    same_stop : s.stop ≡ s.end
    near : (s.l ≤ t) ⊎ ((s.left ≡ t) × (s.any_matches ≡ true))
    passed : (i : ℕ) → left ≤ i → i < s.l → (stabs i).n_type ≡ type → i ≤ t
    from : left ≤ s.l
    sought : (s.addr ≡ addr) ⊎ (s.addr ≡ addr + 1)

  before_target :
      (m : ℕ) → m < stop → (stabs m).n_type ≡ type → (stabs m).n_value ≤ addr + 1 → m ≤ t
  before_target m inside h value = ground (arith, later m)

  after_target : (m : ℕ) → left ≤ m → (stabs m).n_type ≡ type → addr < (stabs m).n_value → t < m
  after_target m inside h value = elim (ℕ_discrete m t) [
    | yes same ↦ absurd (
        let v : (stabs m).n_value ≡ (stabs t).n_value = ap (λ (i : ℕ). (stabs i).n_value) same in
        omega arith)
    | no other ↦ ground (arith, sorted m t)
  ]

  skip-Inv :
      (s : Search)
      → Inv s
      → s.l < s.end
      → ((i : ℕ) → s.l ≤ i → i ≤ middle s → (stabs i).n_type ≢ type)
      → Inv (record s { l = middle s + 1 })
  skip-Inv s inv h others =
      let (low, high, range) = middle_in s h in
      record {
        bound = inv.bound;
        within = inv.within;
        same_stop = inv.same_stop;
        near = ground (arith, others t, inv.near);
        passed = λ i from before here. ground (arith, others i, inv.passed i);
        from = omega (arith, inv.from);
        sought = inv.sought;
      }

  module _ (s : Search) (m : ℕ) (inv : Inv s) (h : s.l < s.end) (first : s.l ≤ m)
      (last : m ≤ middle s) (here : (stabs m).n_type ≡ type)
      (others : (i : ℕ) → m < i → i ≤ middle s → (stabs i).n_type ≢ type) where
    inside : m < stop
    inside = omega (arith, middle_in s h, inv.within)

    below-Inv :
        (stabs m).n_value < s.addr
        → Inv (record s { left = m; l = middle s + 1; any_matches = true })
    below-Inv value =
        let at_target : m ≤ t = before_target m inside here (ground (arith, inv.sought)) in
        record {
          bound = inv.bound;
          within = inv.within;
          same_stop = inv.same_stop;
          near = ground (arith, others t);
          passed = λ i from before typed_i. ground (arith, others i);
          from = omega (arith, inv.from);
          sought = inv.sought;
        }

    above-Inv :
        s.addr < (stabs m).n_value → Inv (record s { stop = m; end = m; any_matches = true })
    above-Inv value =
        let before : t < m =
          after_target m (omega (arith, inv.from)) here (ground (arith, inv.sought)) in
        record {
          bound = before;
          within = omega arith;
          same_stop = refl;
          near = ground (arith, inv.near);
          passed = inv.passed;
          from = inv.from;
          sought = inv.sought;
        }

    exact-Inv :
        (stabs m).n_value ≡ s.addr
        → Inv (record s { left = m; l = m; addr = (s.addr + 1) % u32_mod; any_matches = true })
    exact-Inv value =
        let at_target : m ≤ t = before_target m inside here (ground (arith, inv.sought)) in
        let asked : s.addr ≡ addr =
          ground (arith, inv.sought, after_target m (omega (arith, inv.from)) here) in
        record {
          bound = inv.bound;
          within = inv.within;
          same_stop = inv.same_stop;
          near = inl at_target;
          passed = λ i from before typed_i. omega arith;
          from = omega (arith, inv.from);
          sought = inr (ground arith);
        }

    compare_at-Inv : Inv (compare_at stabs (middle s) m s)
    unfolding compare_at
    compare_at-Inv = elim (Bool-cases (ltb (stabs m).n_value s.addr)) [
      | inl below ↦ rw below (below-Inv (ground arith))
      | inr not_below ↦ elim (Bool-cases (ltb s.addr (stabs m).n_value)) [
        | inl above ↦ rw (not_below, above) (above-Inv (ground arith))
        | inr not_above ↦ rw (not_below, not_above) (exact-Inv (ground arith))
      ]
    ]

  round-Inv : (s : Search) → Inv s → s.l < s.end → Inv (round stabs type s)
  round-Inv s inv h =
      let (low, high, range) = middle_in s h in
      elim (Option-cases (last_of_type stabs type s.l (middle s - s.l))) [
        | inl none_there ↦
            let others = last_of_type-none stabs type s.l (middle s - s.l) none_there in
            rw (round-none stabs type s none_there)
              (skip-Inv s inv h (λ i from to. others i from (omega arith)))
        | inr (m, found) ↦
            let (first, last, here, others) =
              last_of_type-some stabs type s.l (middle s - s.l) m found in
            rw (round-some stabs type m s found) (
              compare_at-Inv s m inv h first (omega arith) here
                (λ i from to. others i from (omega arith)))
      ]

  search_rounds-Inv :
      (fuel : ℕ) (s s' : Search)
      → Inv s
      → search_rounds stabs type fuel s ≡ some s'
      → Inv s' × (s'.end ≤ s'.l)
  unfolding search_rounds
  search_rounds-Inv zero s s' inv h = absurd (ground arith)
  search_rounds-Inv (suc fuel) s s' inv h = elim (Bool-cases (ltb s.l s.end)) [
    | inl goes ↦
        search_rounds-Inv fuel (round stabs type s) s' (round-Inv s inv (ground arith))
          (ground arith)
    | inr done ↦ let same : s ≡ s' = ground arith in rw (← same) (inv, ground arith)
  ]

rightmost_at :
    (stabs : ℕ → Stab) (type left stop : ℕ)
    → left < stop
    → ((i : ℕ) → left < i → i < stop → (stabs i).n_type ≢ type)
    → rightmost stabs type left stop ≡ left
unfolding rightmost
rightmost_at stabs type left zero h others = absurd (omega arith)
rightmost_at stabs type left (suc l) h others = elim (ℕ_discrete l left) [
  | yes same ↦ ground arith
  | no more ↦
      let rest =
        rightmost_at stabs type left l (omega arith) (λ i from to. others i from (omega arith)) in
      ground (arith, others l)
]

start-Inv :
    {stabs : ℕ → Stab} {left stop type addr t : ℕ} (target : IsNearest stabs left stop type addr t)
    → Inv target (search_start left stop addr)
start-Inv target = record {
  bound = target.in_right;
  within = omega arith;
  same_stop = refl;
  near = inl target.in_left;
  passed = λ i from before here. absurd (omega arith);
  from = omega arith;
  sought = inl refl;
}

-- In a region whose entries of the type are in the order of their addresses, where entry `t` of the
-- type is at or before the address, the entries of the type after `t` begin more than one byte
-- after the address, and the address after it is below 2^32: stab_binsearch ends, its left end is
-- `t`, and up to its right end, which stays within the region, no other entry of the type follows.
pub stab_binsearch_nearest :
    (stabs : ℕ → Stab) (left stop type addr t : ℕ)
    → IsNearest stabs left stop type addr t
    → (region : Region) × (stab_binsearch stabs left stop type addr ≡ some region)
      × (region.left ≡ t)
      × (t < region.stop)
      × (region.stop ≤ stop)
      × ((i : ℕ) → t < i → i < region.stop → (stabs i).n_type ≢ type)
unfolding stab_binsearch region_of
stab_binsearch_nearest stabs left stop type addr t target =
    let s = search_start left stop addr in
    let (s', ends) = search_ends stabs type (rounds_for s) s target.words (weight_bound stabs s) in
    let (inv, over) = search_rounds-Inv target (rounds_for s) s s' (start-Inv target) ends in
    let found : (s'.left ≡ t) × (s'.any_matches ≡ true) = ground (arith, inv.near, inv.bound) in
    let bound : t < s'.stop = omega (arith, inv.bound, inv.same_stop) in
    let others : (i : ℕ) → t < i → i < s'.stop → (stabs i).n_type ≢ type = λ i from to here.
      absurd (
        omega (
          arith,
          inv.passed i (omega (arith, target.in_left)) (omega (arith, inv.same_stop)) here,
        )) in
    let region : region_of stabs type s' ≡ record { left = t; stop = s'.stop } = rw found.1 (
      rw found.0 (
        ap (λ (l : ℕ). record { left = l; stop = s'.stop })
          (rightmost_at stabs type t s'.stop bound others))) in
    (
      record { left = t; stop = s'.stop },
      rw (ends, stab_binsearch) (ap some region),
      refl,
      bound,
      omega (arith, inv.same_stop, inv.within),
      others,
    )
