-- ===== src/Mpconfig/Tables.antt =====
-- The tables of kern/mpconfig.c: the structure that the search finds, and the processors that are
-- counted.
use os2017_lab.Base.{
  ℕ, zero, suc, ◌+◌, ◌-◌, ◌*◌, ◌/◌, ◌%◌, ◌≤◌, ◌<◌, ◌≡◌, ◌≢◌, ◌⊎◌, ◌↔◌, ◌^◌, refl, sym, ltb, none,
  some, ap, ◌∙◌, true, false, arith, leb, ◌==◌, Bool-cases, inl, inr,
}
use native.Mathlib.Decide.{ℕ_discrete}
use os2017_lab.Memlayout.{u32_mod}
use os2017_lab.Base.Arrays.{update}
use os2017_lab.Kernel.{cpu_started}
use os2017_lab.Strings.{Bytes}
use os2017_lab.Mpconfig.{
  ncpu_max, Found, at, null, is_mp, has_text, total, search_from, in_memory, virtual, mpsearch1,
  Cpus, settle, start_bootcpu, listed, add_processor, scan_entries, read_conf, read16, read32,
  conf_entry, conf_entries, conf_lapicaddr,
}

-- What the search must find in 16 bytes: the signature `_MP_`, and a sum that is a multiple of 256.
abbrev pub IsMp : Bytes → ℕ → Type 0
IsMp m a =
    ((m a ≡ 0x5F) × (m (a + 1) ≡ 0x4D) × (m (a + 2) ≡ 0x50) × (m (a + 3) ≡ 0x5F))
    × ((m a
            + m (a + 1)
            + m (a + 2)
            + m (a + 3)
            + m (a + 4)
            + m (a + 5)
            + m (a + 6)
            + m (a + 7)
            + m (a + 8)
            + m (a + 9)
            + m (a + 10)
            + m (a + 11)
            + m (a + 12)
            + m (a + 13)
            + m (a + 14)
            + m (a + 15))
          % 256
        ≡ 0)

is_mp-IsMp : (m : Bytes) (a : ℕ) → (is_mp m a ≡ true) ↔ IsMp m a
unfolding has_text total
is_mp-IsMp m a = (λ h. ground (arith, h), λ h. ground (arith, h))

-- What a search of `rounds` structures from `mp` on gives: the first one, or NULL without one.
abbrev pub Searched : Bytes → (rounds mp : ℕ) → Found → Type 0
Searched m rounds mp f =
    ((f ≡ null) × ((i : ℕ) → i < rounds → ¬ IsMp m (mp + i * 16)))
    ⊎ ((i : ℕ) × (i < rounds)
        × (f ≡ at (mp + i * 16))
        × IsMp m (mp + i * 16)
        × ((j : ℕ) → j < i → ¬ IsMp m (mp + j * 16)))

not_next :
    (m : Bytes) (mp i : ℕ)
    → ¬ IsMp m mp
    → (i ≢ 0 → ¬ IsMp m (mp + 16 + (i - 1) * 16))
    → ¬ IsMp m (mp + i * 16)
not_next m mp i first later = elim (ℕ_discrete i 0) [
  | yes none_before ↦ let same : mp + i * 16 ≡ mp = omega arith in rw same first
  | no more ↦ let same : mp + i * 16 ≡ mp + 16 + (i - 1) * 16 = omega arith in rw same (later more)
]

later-Searched :
    (m : Bytes) (rounds mp : ℕ) (f : Found)
    → ¬ IsMp m mp
    → Searched m rounds (mp + 16) f
    → Searched m (suc rounds) mp f
later-Searched m rounds mp f first (inl (missing, all)) =
    inl (missing, λ i low. not_next m mp i first (λ more. all (i - 1) (omega arith)))
later-Searched m rounds mp f first (inr (i, low, place, good, before)) =
    let same : mp + 16 + i * 16 ≡ mp + suc i * 16 = omega arith in
    inr (
      suc i,
      omega arith,
      place ∙ ap at same,
      rw (← same) good,
      λ j less. not_next m mp j first (λ more. before (j - 1) (omega arith)),
    )

search_from-Searched : (m : Bytes) (rounds mp : ℕ) → Searched m rounds mp (search_from m rounds mp)
unfolding search_from
search_from-Searched m zero mp = inl (refl, λ i low. absurd (omega arith))
search_from-Searched m (suc rounds) mp = elim (Bool-cases (is_mp m mp)) [
  | inl here ↦
      let same : mp + 0 * 16 ≡ mp = omega arith in
      inr (
        0,
        omega arith,
        rw here (ap at (sym same)),
        rw same ((is_mp-IsMp m mp).0 here),
        λ j less. absurd (omega arith),
      )
  | inr other ↦
      let absent : ¬ IsMp m mp = λ h. absurd (ground (arith, other, (is_mp-IsMp m mp).1 h)) in
      rw other (
        later-Searched m rounds mp (search_from m rounds (mp + 16)) absent
          (search_from-Searched m rounds (mp + 16)))
]

-- As many processors as are counted have their own number, and no more are counted than there is
-- room for.
pub record Counted (c : Cpus) : Type 0 where
  pub room : c.ncpu ≤ ncpu_max
  pub ids : (i : ℕ) → i < c.ncpu → c.cpu_id i ≡ i
  pub first : c.cpu_id 0 ≡ 0

add_processor-Counted : (flags : ℕ) (c : Cpus) → Counted c → Counted (add_processor flags c)
unfolding add_processor
add_processor-Counted flags c h = record {
  room = ground (arith, h.room);
  ids = λ i low. ground (arith, h.ids i);
  first = ground (arith, h.first);
}

scan_entries-Counted : (m : Bytes) (n p : ℕ) (c : Cpus) → Counted c → Counted (scan_entries m n p c)
unfolding scan_entries
scan_entries-Counted m zero p c h = h
scan_entries-Counted m (suc n) p c h = elim (Bool-cases (m p == 0)) [
  | inl processor ↦ rw processor (
      scan_entries-Counted m n (p + 20) (add_processor (m (p + 3)) c)
        (add_processor-Counted (m (p + 3)) c h))
  | inr device ↦ elim (Bool-cases (leb (m p) 4)) [
    | inl known ↦ rw (device, known) (scan_entries-Counted m n (p + 8) c h)
    | inr strange ↦ rw (device, strange) (record { room = h.room; ids = h.ids; first = h.first })
  ]
]

-- For a range in memory that ends below 256 MB, mpsearch1 gives the first 16-byte step from its
-- start, among those that begin in the range, whose 16 bytes begin with `_MP_` and add up to a
-- multiple of 256; without such a step it gives NULL.
pub mpsearch1_first :
    (m : Bytes) (npages a len : ℕ)
    → in_memory npages a ≡ true
    → in_memory npages (a + len) ≡ true
    → a + len < 2 ^ 28
    → Searched m ((len + 15) / 16) a (mpsearch1 m npages a len)
unfolding mpsearch1
mpsearch1_first m npages a len low high small =
    let word : (a + len) % u32_mod ≡ a + len = omega arith in
    let rounds : (virtual (a + len) - virtual a + 15) / 16 ≡ (len + 15) / 16 = omega arith in
    rw (word, low, high, rounds) (search_from-Searched m ((len + 15) / 16) a)

-- The index of the boot processor is in the array or one behind it.
scan_entries_bootcpu :
    (m : Bytes) (n p : ℕ) (c : Cpus)
    → Counted c
    → c.bootcpu ≤ ncpu_max
    → (scan_entries m n p c).bootcpu ≤ ncpu_max
unfolding scan_entries add_processor
scan_entries_bootcpu m zero p c h low = low
scan_entries_bootcpu m (suc n) p c h low = elim (Bool-cases (m p == 0)) [
  | inl processor ↦ rw processor (
      scan_entries_bootcpu m n (p + 20) (add_processor (m (p + 3)) c)
        (add_processor-Counted (m (p + 3)) c h) (ground (arith, h.room)))
  | inr device ↦ elim (Bool-cases (leb (m p) 4)) [
    | inl known ↦ rw (device, known) (scan_entries_bootcpu m n (p + 8) c h low)
    | inr strange ↦ rw (device, strange) low
  ]
]

settle-Counted : (c : Cpus) → Counted c → Counted (settle c)
settle-Counted c h = record {
  room = ground (arith, h.room);
  ids = λ i low. ground (arith, h.ids i, h.first);
  first = ground (arith, h.first);
}

start_bootcpu-inside :
    (c : Cpus)
    → ltb c.bootcpu ncpu_max ≡ true
    → start_bootcpu c ≡ some (record c { cpu_status = update c.cpu_status c.bootcpu cpu_started })
unfolding start_bootcpu
start_bootcpu-inside c inside = rw inside refl

start_bootcpu-outside : (c : Cpus) → ltb c.bootcpu ncpu_max ≡ false → start_bootcpu c ≡ none
unfolding start_bootcpu
start_bootcpu-outside c outside = rw outside refl

finished :
    (m : Bytes) (conf : ℕ) (c : Cpus)
    → Counted (listed m conf c)
    → (listed m conf c).bootcpu ≤ ncpu_max
    → (((listed m conf c).bootcpu < ncpu_max)
        × (c' : Cpus) × (read_conf m conf c ≡ some c')
        × Counted c'
        × (c'.bootcpu < ncpu_max)
        × (c'.cpu_status c'.bootcpu ≡ cpu_started))
      ⊎ (((listed m conf c).bootcpu ≡ ncpu_max) × (read_conf m conf c ≡ none))
unfolding read_conf
finished m conf c h low =
    let c1 = listed m conf c in
    let s = record c1 { cpu_status = update c1.cpu_status c1.bootcpu cpu_started } in
    let h1 : Counted s = record { room = h.room; ids = h.ids; first = h.first } in
    elim (Bool-cases (ltb c1.bootcpu ncpu_max)) [
      | inl inside ↦ inl (
        ground (arith, inside),
        settle s,
        rw (start_bootcpu-inside c1 inside, read_conf) refl,
        settle-Counted s h1,
        ground (arith, inside),
        ground arith,
      )
      | inr outside ↦
          inr (ground (arith, outside), rw (start_bootcpu-outside c1 outside, read_conf) refl)
    ]

-- From at most eight processors that are numbered by their place, and with number 0 in place 0: when
-- the table makes `bootcpu` point into the array, mp_init leaves at most eight processors that are
-- numbered by their place, and the one at `bootcpu` started. Else `bootcpu` points just behind the
-- array, and the write of its status is outside of it.
pub read_conf_counts :
    (m : Bytes) (conf : ℕ) (c : Cpus)
    → Counted c
    → (((listed m conf c).bootcpu < ncpu_max)
        × (c' : Cpus) × (read_conf m conf c ≡ some c')
        × Counted c'
        × (c'.bootcpu < ncpu_max)
        × (c'.cpu_status c'.bootcpu ≡ cpu_started))
      ⊎ (((listed m conf c).bootcpu ≡ ncpu_max) × (read_conf m conf c ≡ none))
unfolding listed
read_conf_counts m conf c h =
    let c0 = record c { bootcpu = 0; ismp = true; lapicaddr = read32 m (conf_lapicaddr conf) } in
    let h0 : Counted c0 = record { room = h.room; ids = h.ids; first = h.first } in
    let n = read16 m (conf_entry conf) in
    finished m conf c (scan_entries-Counted m n (conf_entries conf) c0 h0)
      (scan_entries_bootcpu m n (conf_entries conf) c0 h0 (omega arith))
