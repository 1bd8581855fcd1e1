-- ===== src/Console/Keyboard/Shift.antt =====
-- kbd_proc_data of kern/console.c: the shift state, and the characters of keys.
use os2017_lab.Base.{
  ℕ, zero, suc, ◌+◌, ◌-◌, ◌%◌, ◌^◌, ◌<◌, ◌≡◌, ◌≢◌, refl, ap, ◌∙◌, bit_and, bit_or, bit_xor, Bool,
  true, false, not, ◌&&◌, ◌||◌, some, [], ◌∷◌, ◌++◌, arith, leb, ◌==◌, if◌then◌else◌, has_bits,
  Bool-cases, inl, inr,
}
use os2017_lab.Base.Bits.{bit_or-zero}
use os2017_lab.Memlayout.{u32_mod}
use os2017_lab.Kernel.{Cons}
use os2017_lab.Console.{put_char, cons_intr}
use os2017_lab.Console.Ring.{queue, count, IsRing, put_char_appends}
use os2017_lab.Console.Keyboard.{
  shift_bit, ctl_bit, capslock, e0esc, shiftcode, togglecode, normalmap, shiftmap, other_case, Key,
  no_char, key_pressed, kbd_proc_data, kbd_stream,
}

abbrev all_below : ℕ → (ℕ → Bool) → Bool
all_below zero p = true
all_below (suc n) p = p n && all_below n p

all_below_at : (n : ℕ) (p : ℕ → Bool) (i : ℕ) → all_below n p ≡ true → i < n → p i ≡ true
all_below_at zero p i h low = absurd (omega arith)
all_below_at (suc n) p i h low = elim (Bool-cases (i == n)) [
  | inl last ↦ let same : i ≡ n = ground arith in rw same (ground arith)
  | inr before ↦ all_below_at n p i (ground arith) (ground arith)
]

-- No shift key, no control key, no caps lock, and no escape byte before.
abbrev pub IsBare : ℕ → Type 0
IsBare s = (s < 128) × (bit_and s (shift_bit + ctl_bit + capslock + e0esc) ≡ 0)

abbrev with_shift : ℕ → ℕ
with_shift s = bit_or s shift_bit

abbrev bare_facts : ℕ → Bool
bare_facts s =
    not (bit_and s 75 == 0)
    || ((bit_and (bit_or s 1) 3 == 1)
        && not (has_bits (bit_or s 1) 8)
        && not (has_bits s 64)
        && not (has_bits (bit_or s 1) 64)
        && (bit_and (bit_or s 1) (u32_mod - 1 - 65) == s)
        && (bit_xor (bit_or s 1) 0 == bit_or s 1)
        && not (bit_and (bit_or s 1) 6 == 6))

bare_facts_hold : all_below 128 bare_facts ≡ true
unfolding has_bits
bare_facts_hold = refl

-- What the shift key does to a bare state.
record Bare (s : ℕ) : Type 0 where
  index : bit_and (with_shift s) 3 ≡ 1
  no_caps : has_bits (with_shift s) 8 ≡ false
  no_escape : has_bits s 64 ≡ false
  still_none : has_bits (with_shift s) 64 ≡ false
  cleared : bit_and (with_shift s) (u32_mod - 1 - 65) ≡ s
  no_toggle : bit_xor (with_shift s) 0 ≡ with_shift s
  no_reboot : (bit_and (with_shift s) 6 == 6) ≡ false

IsBare-Bare : (s : ℕ) → IsBare s → Bare s
IsBare-Bare s (low, bare) =
    let h = all_below_at 128 bare_facts s bare_facts_hold low in
    record {
      index = ground arith;
      no_caps = ground arith;
      no_escape = ground arith;
      still_none = ground arith;
      cleared = ground arith;
      no_toggle = ground arith;
      no_reboot = ground arith;
    }

-- A key of the main block: not a modifier, and no prefix.
abbrev pub IsOrdinary : ℕ → Type 0
IsOrdinary code = (code < 128) × (shiftcode code ≡ 0) × (togglecode code ≡ 0)

low_code : all_below 128 (λ c. not (has_bits c 128)) ≡ true
unfolding has_bits
low_code = refl

key_pressed-shiftmap :
    (code t s : ℕ)
    → Bare s
    → bit_xor (bit_or t (shiftcode code)) (togglecode code) ≡ with_shift s
    → key_pressed code t
      ≡ record { answer = some (shiftmap code); shift = with_shift s; reboots = false }
unfolding key_pressed
key_pressed-shiftmap code t s bare h =
    rw (h, key_pressed) (rw (bare.index, bare.no_caps, bare.no_reboot) refl)

high_bit : has_bits 170 128 ≡ true
unfolding has_bits
high_bit = refl

low_bit : (c : ℕ) → c < 128 → has_bits c 128 ≡ false
low_bit c low =
    let h = all_below_at 128 (λ (x : ℕ). not (has_bits x 128)) c low_code low in ground arith

shift_down : (s : ℕ) → Bare s → kbd_proc_data (some 42) s ≡ no_char (with_shift s)
unfolding kbd_proc_data shiftmap
shift_down s bare =
    let high : has_bits 42 128 ≡ false = low_bit 42 (omega arith) in
    rw (high, bare.no_escape) (key_pressed-shiftmap 42 s s bare bare.no_toggle)

ordinary_down :
    (code s : ℕ)
    → IsOrdinary code
    → Bare s
    → kbd_proc_data (some code) (with_shift s)
      ≡ record { answer = some (shiftmap code); shift = with_shift s; reboots = false }
unfolding kbd_proc_data
ordinary_down code s (low, none_held, no_lock) bare =
    let toggled : bit_xor (bit_or (with_shift s) (shiftcode code)) (togglecode code)
        ≡ with_shift s =
      simp (none_held, no_lock, bit_or-zero (with_shift s), bare.no_toggle) in
    let prefix : (code == 224) ≡ false = ground arith in
    rw (prefix, low_bit code low, bare.still_none)
      (key_pressed-shiftmap code (with_shift s) s bare toggled)

shift_up : (s : ℕ) → Bare s → kbd_proc_data (some 170) (with_shift s) ≡ no_char s
unfolding kbd_proc_data
shift_up s bare =
    let high : has_bits 170 128 ≡ true = high_bit in
    rw (high, bare.still_none) (ap no_char bare.cleared)

put_zero : (b : Cons) → put_char 0 b ≡ b
unfolding put_char
put_zero b = refl

-- From a state without shift, control, caps lock or an escape byte, and with a character that the
-- key has and fewer than 511 waiting, the bytes of the left shift key down, an ordinary key, and
-- the shift key up add to the console's queue the one character of the shifted key, and leave the
-- state as it was.
pub shift_types :
    (code s : ℕ) (b : Cons)
    → IsOrdinary code
    → IsBare s
    → IsRing b
    → shiftmap code ≢ 0
    → count b ≢ 511
    → let (answers, last) = kbd_stream (42 ∷ code ∷ 170 ∷ []) s in
      (queue (cons_intr answers b) ≡ queue b ++ (shiftmap code % 2 ^ 8) ∷ []) × (last ≡ s)
unfolding kbd_stream cons_intr
shift_types code s b ordinary bare ring char room =
    let facts = IsBare-Bare s bare in
    let full : (count b == 511) ≡ false = ground arith in
    let (appends, _) = put_char_appends b (shiftmap code) ring char in
    rw (shift_down s facts, ordinary_down code s ordinary facts, shift_up s facts)
      (
        ap queue (
              put_zero (put_char (shiftmap code) (put_char 0 b))
              ∙ ap (put_char (shiftmap code)) (put_zero b))
            ∙ appends
            ∙ rw full refl,
        refl,
      )

-- What caps lock and neither key do in a bare state.
abbrev caps_facts : ℕ → Bool
caps_facts s =
    not (bit_and s 75 == 0)
    || ((bit_and s 3 == 0)
        && not (has_bits s 8)
        && (bit_xor s 0 == s)
        && (bit_and (bit_or s 8) 3 == 0)
        && has_bits (bit_or s 8) 8
        && not (has_bits (bit_or s 8) 64)
        && (bit_xor (bit_or s 8) 0 == bit_or s 8))

caps_facts_hold : all_below 128 caps_facts ≡ true
unfolding has_bits
caps_facts_hold = refl

abbrev pub is_letter : ℕ → Bool
is_letter c = (leb b'a' c && leb c b'z') || (leb b'A' c && leb c b'Z')

abbrev letter_facts : ℕ → Bool
letter_facts code =
    other_case (normalmap code)
    == (if is_letter (normalmap code) then shiftmap code else normalmap code)

letter_facts_hold : all_below 128 letter_facts ≡ true
unfolding normalmap shiftmap
letter_facts_hold = refl

-- An ordinary key in a state where neither the control nor the shift key is held.
key_pressed-normalmap :
    (code t : ℕ)
    → IsOrdinary code
    → has_bits t 64 ≡ false
    → bit_xor t 0 ≡ t
    → bit_and t 3 ≡ 0
    → (kbd_proc_data (some code) t).answer
      ≡ some (if has_bits t 8 then other_case (normalmap code) else normalmap code)
unfolding kbd_proc_data key_pressed
key_pressed-normalmap code t (low, none_held, no_lock) no_escape no_toggle index =
    let toggled : bit_xor (bit_or t (shiftcode code)) (togglecode code) ≡ t =
      simp (none_held, no_lock, bit_or-zero t, no_toggle) in
    let prefix : (code == 224) ≡ false = ground arith in
    rw (prefix, low_bit code low, no_escape) (rw (toggled, index) refl)

-- From a state without shift, control, caps lock or an escape byte: with caps lock, an ordinary key
-- that types a letter types what it types with the shift key, and any other what it types with
-- neither.
pub caps_lock_shifts_letters :
    (code s : ℕ)
    → IsOrdinary code
    → IsBare s
    → (kbd_proc_data (some code) (bit_or s capslock)).answer ≡ (
        if is_letter (normalmap code)
        then (kbd_proc_data (some code) (bit_or s shift_bit)).answer
        else (kbd_proc_data (some code) s).answer)
caps_lock_shifts_letters code s ordinary (low, bare) =
    let h = all_below_at 128 caps_facts s caps_facts_hold low in
    let letter : other_case (normalmap code)
        ≡ (if is_letter (normalmap code) then shiftmap code else normalmap code) =
      ground (arith, all_below_at 128 letter_facts code letter_facts_hold ordinary.0) in
    let facts = IsBare-Bare s (low, bare) in
    let caps =
      key_pressed-normalmap code (bit_or s 8) ordinary (ground arith) (ground arith)
        (ground arith) in
    let neither =
      key_pressed-normalmap code s ordinary facts.no_escape (ground arith) (ground arith) in
    let shifted = ap (λ (k : Key). k.answer) (ordinary_down code s ordinary facts) in
    let on : has_bits (bit_or s 8) 8 ≡ true = ground arith in
    let off : has_bits s 8 ≡ false = ground arith in
    ground (arith, caps, neither, shifted, letter, on, off)
