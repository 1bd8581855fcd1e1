-- ===== src/Strings/Copy.antt =====
-- memmove and strlcpy of lib/string.c, against a copy of all bytes at once.
use os2017_lab.Base.{
  ℕ, zero, suc, ◌+◌, ◌-◌, ◌*◌, ◌/◌, ◌%◌, ◌≤◌, ◌<◌, ◌≡◌, ◌⊎◌, inl, inr, refl, ◌∙◌, not, ◌&&◌, arith,
  ltb, leb, ◌==◌, if◌then◌else◌, Bool-cases,
}
use os2017_lab.Strings.{
  Bytes, move_unit, span_of, copy_up, copy_down, by_words, memmove, strlcpy_loop, strlcpy,
}
use os2017_lab.Base.Arrays.{update}

-- The memory after the `n` bytes from `s` on have been copied to `d` at once.
abbrev pub moved : (d s n : ℕ) → Bytes → Bytes
moved d s n m a = if leb d a && ltb a (d + n) then m (a - d + s) else m a

-- Going up is right where the destination starts at or below the source, or behind it.
copy_up_moves :
    (u rounds d s : ℕ) (m : Bytes) (a : ℕ)
    → (d ≤ s) ⊎ (s + span_of u rounds ≤ d)
    → copy_up u rounds d s m a ≡ moved d s (span_of u rounds) m a
unfolding copy_up
copy_up_moves u zero d s m a clear = ground arith
copy_up_moves u (suc rounds) d s m a clear =
    copy_up_moves u rounds (d + u) (s + u) (move_unit u d s m) a (omega arith) ∙ ground arith

copy_down_moves :
    (u rounds d s : ℕ) (m : Bytes) (a : ℕ)
    → s ≤ d
    → copy_down u rounds d s m a ≡ moved d s (span_of u rounds) m a
unfolding copy_down
copy_down_moves u zero d s m a below = ground arith
copy_down_moves u (suc rounds) d s m a below =
    copy_down_moves u rounds d s (move_unit u (d + span_of u rounds) (s + span_of u rounds) m) a
      below
    ∙ ground arith

span_of-words : (rounds : ℕ) → span_of 4 rounds ≡ 4 * rounds
span_of-words zero = refl
span_of-words (suc rounds) = omega (arith, span_of-words rounds)

span_of-bytes : (rounds : ℕ) → span_of 1 rounds ≡ rounds
span_of-bytes zero = refl
span_of-bytes (suc rounds) = omega (arith, span_of-bytes rounds)

span_of-quarters : (n : ℕ) → n % 4 ≡ 0 → span_of 4 (n / 4) ≡ n
span_of-quarters n whole = omega (arith, span_of-words (n / 4))

module _ (d s n : ℕ) (m : Bytes) (a : ℕ) where
  words_up : n % 4 ≡ 0 → (d ≤ s) ⊎ (s + n ≤ d) → copy_up 4 (n / 4) d s m a ≡ moved d s n m a
  words_up whole = rw (span_of-quarters n whole) at (copy_up_moves 4 (n / 4) d s m a)

  bytes_up : (d ≤ s) ⊎ (s + n ≤ d) → copy_up 1 n d s m a ≡ moved d s n m a
  bytes_up = rw (span_of-bytes n) at (copy_up_moves 1 n d s m a)

  words_down : n % 4 ≡ 0 → s ≤ d → copy_down 4 (n / 4) d s m a ≡ moved d s n m a
  words_down whole = rw (span_of-quarters n whole) at (copy_down_moves 4 (n / 4) d s m a)

  bytes_down : s ≤ d → copy_down 1 n d s m a ≡ moved d s n m a
  bytes_down = rw (span_of-bytes n) at (copy_down_moves 1 n d s m a)

-- memmove leaves the memory that copying all bytes at once leaves, for regions that overlap in
-- either direction or not at all, and whether it moves words or bytes.
pub memmove_moves :
    (dst src n : ℕ) (m : Bytes) (a : ℕ) → memmove dst src n m a ≡ moved dst src n m a
unfolding memmove
memmove_moves dst src n m a = elim (Bool-cases (ltb src dst && ltb dst (src + n))) [
  | inl down ↦ elim (Bool-cases (by_words (dst + n) (src + n) n)) [
    | inl words ↦ rw (down, words) (words_down dst src n m a (ground arith) (ground arith))
    | inr bytes ↦ rw (down, bytes) (bytes_down dst src n m a (ground arith))
  ]
  | inr up ↦ elim (Bool-cases (by_words dst src n)) [
    | inl words ↦ rw (up, words) (words_up dst src n m a (ground arith) (ground arith))
    | inr bytes ↦ rw (up, bytes) (bytes_up dst src n m a (ground arith))
  ]
]

strlcpy_loop_ends :
    (dst src room : ℕ) (m : Bytes)
    → (dst ≤ (strlcpy_loop dst src room m).0)
      × ((strlcpy_loop dst src room m).0 ≤ dst + room)
      × ((strlcpy_loop dst src room m).1 (strlcpy_loop dst src room m).0 ≡ 0)
unfolding strlcpy_loop
strlcpy_loop_ends dst src zero m = (omega arith, omega arith, ground arith)
strlcpy_loop_ends dst src (suc room) m = elim (Bool-cases (not (m src == 0))) [
  | inr ends ↦ rw ends (omega arith, omega arith, ground arith)
  | inl goes_on ↦
      let rest = strlcpy_loop_ends (dst + 1) (src + 1) room (update m dst (m src)) in
      rw goes_on (omega (arith, rest.0), omega (arith, rest.1), rest.2)
]

-- With a size above 0, strlcpy returns a number below the size and leaves a 0 that many bytes into
-- the destination.
pub strlcpy_terminates :
    (dst src size : ℕ) (m : Bytes)
    → 0 < size
    → ((strlcpy dst src size m).0 < size)
      × ((strlcpy dst src size m).1 (dst + (strlcpy dst src size m).0) ≡ 0)
unfolding strlcpy
strlcpy_terminates dst src zero m h = absurd (omega arith)
strlcpy_terminates dst src (suc room) m h =
    let ends = strlcpy_loop_ends dst src room m in
    let last : dst + ((strlcpy_loop dst src room m).0 - dst) ≡ (strlcpy_loop dst src room m).0 =
      omega (arith, ends.0) in
    (omega (arith, ends.0, ends.1), rw last ends.2)
