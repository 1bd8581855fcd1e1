-- ===== src/Console/Keyboard.antt =====
-- Keyboard input of kern/console.c: kbd_proc_data, over what the controller's ports give.
pub mod Shift
use os2017_lab.Base.{
  ℕ, zero, suc, ◌+◌, ◌-◌, ◌^◌, bit_and, bit_or, bit_xor, Bool, true, false, not, ◌&&◌, Option, none,
  some, List, [], ◌∷◌, leb, ltb, ◌==◌, has_bits, if◌then◌else◌,
}
use os2017_lab.Memlayout.{u32_mod}

abbrev pub no : ℕ
no = 0

abbrev pub shift_bit : ℕ
shift_bit = 1

abbrev pub ctl_bit : ℕ
ctl_bit = 2

abbrev pub alt_bit : ℕ
alt_bit = 4

abbrev pub capslock : ℕ
capslock = 8

abbrev pub numlock : ℕ
numlock = 16

abbrev pub scrolllock : ℕ
scrolllock = 32

abbrev pub e0esc : ℕ
e0esc = 64

-- The values of kbdreg.h.
abbrev pub key_home : ℕ
key_home = 224

abbrev pub key_end : ℕ
key_end = 225

abbrev pub key_up : ℕ
key_up = 226

abbrev pub key_dn : ℕ
key_dn = 227

abbrev pub key_lf : ℕ
key_lf = 228

abbrev pub key_rt : ℕ
key_rt = 229

abbrev pub key_pgup : ℕ
key_pgup = 230

abbrev pub key_pgdn : ℕ
key_pgdn = 231

abbrev pub key_ins : ℕ
key_ins = 232

abbrev pub key_del : ℕ
key_del = 233

abbrev pub shiftcode : ℕ → ℕ
shiftcode d =
    if d == 29
    then ctl_bit
    else if d == 42
    then shift_bit
    else if d == 54
    then shift_bit
    else if d == 56
    then alt_bit
    else if d == 157
    then ctl_bit
    else if d == 184
    then alt_bit
    else 0

abbrev pub togglecode : ℕ → ℕ
togglecode d =
    if d == 58 then capslock else if d == 69 then numlock else if d == 70 then scrolllock else 0

-- An initialiser: its rows from 0 on, its other entries, and 0 elsewhere.
abbrev pub entry : (others : List (ℕ × ℕ)) → ℕ → ℕ
entry [] d = 0
entry ((i, c) ∷ others) d = if d == i then c else entry others d

abbrev pub table : (rows : List ℕ) (others : List (ℕ × ℕ)) → ℕ → ℕ
table rows others d = go rows d
  where
    go : List ℕ → ℕ → ℕ
    go [] i = entry others d
    go (c ∷ cs) zero = c
    go (c ∷ cs) (suc i) = go cs i

abbrev pub special_keys : List (ℕ × ℕ)
special_keys =
    (199, key_home)
    ∷ (156, 10)
    ∷ (181, b'/')
    ∷ (200, key_up)
    ∷ (201, key_pgup)
    ∷ (203, key_lf)
    ∷ (205, key_rt)
    ∷ (207, key_end)
    ∷ (208, key_dn)
    ∷ (209, key_pgdn)
    ∷ (210, key_ins)
    ∷ (211, key_del)
    ∷ []

unfoldable pub normalmap : ℕ → ℕ
normalmap =
    table
      (no ∷ 27 ∷ b'1' ∷ b'2' ∷ b'3' ∷ b'4' ∷ b'5' ∷ b'6' ∷ b'7' ∷ b'8' ∷ b'9' ∷ b'0' ∷ b'-' ∷ b'='
        ∷ 8 ∷ 9 ∷ b'q' ∷ b'w' ∷ b'e' ∷ b'r' ∷ b't' ∷ b'y' ∷ b'u' ∷ b'i' ∷ b'o' ∷ b'p' ∷ b'[' ∷ b']'
        ∷ 10 ∷ no ∷ b'a' ∷ b's' ∷ b'd' ∷ b'f' ∷ b'g' ∷ b'h' ∷ b'j' ∷ b'k' ∷ b'l' ∷ b';' ∷ 39 ∷ b'`'
        ∷ no ∷ 92 ∷ b'z' ∷ b'x' ∷ b'c' ∷ b'v' ∷ b'b' ∷ b'n' ∷ b'm' ∷ b',' ∷ b'.' ∷ b'/' ∷ no ∷ b'*'
        ∷ no ∷ 32 ∷ no ∷ no ∷ no ∷ no ∷ no ∷ no ∷ no ∷ no ∷ no ∷ no ∷ no ∷ no ∷ no ∷ b'7' ∷ b'8'
        ∷ b'9' ∷ b'-' ∷ b'4' ∷ b'5' ∷ b'6' ∷ b'+' ∷ b'1' ∷ b'2' ∷ b'3' ∷ b'0' ∷ b'.' ∷ no ∷ no ∷ no
        ∷ no ∷ [])
      special_keys

unfoldable pub shiftmap : ℕ → ℕ
shiftmap =
    table
      (no ∷ 27 ∷ b'!' ∷ b'@' ∷ b'#' ∷ b'$' ∷ b'%' ∷ b'^' ∷ b'&' ∷ b'*' ∷ b'(' ∷ b')' ∷ b'_' ∷ b'+'
        ∷ 8 ∷ 9 ∷ b'Q' ∷ b'W' ∷ b'E' ∷ b'R' ∷ b'T' ∷ b'Y' ∷ b'U' ∷ b'I' ∷ b'O' ∷ b'P' ∷ b'{' ∷ b'}'
        ∷ 10 ∷ no ∷ b'A' ∷ b'S' ∷ b'D' ∷ b'F' ∷ b'G' ∷ b'H' ∷ b'J' ∷ b'K' ∷ b'L' ∷ b':' ∷ 34 ∷ b'~'
        ∷ no ∷ b'|' ∷ b'Z' ∷ b'X' ∷ b'C' ∷ b'V' ∷ b'B' ∷ b'N' ∷ b'M' ∷ b'<' ∷ b'>' ∷ b'?' ∷ no
        ∷ b'*' ∷ no ∷ 32 ∷ no ∷ no ∷ no ∷ no ∷ no ∷ no ∷ no ∷ no ∷ no ∷ no ∷ no ∷ no ∷ no ∷ b'7'
        ∷ b'8' ∷ b'9' ∷ b'-' ∷ b'4' ∷ b'5' ∷ b'6' ∷ b'+' ∷ b'1' ∷ b'2' ∷ b'3' ∷ b'0' ∷ b'.' ∷ no
        ∷ no ∷ no ∷ no ∷ [])
      special_keys

unfoldable pub ctlmap : ℕ → ℕ
ctlmap =
    table
      (no ∷ no ∷ no ∷ no ∷ no ∷ no ∷ no ∷ no ∷ no ∷ no ∷ no ∷ no ∷ no ∷ no ∷ no ∷ no ∷ 17 ∷ 23 ∷ 5
        ∷ 18 ∷ 20 ∷ 25 ∷ 21 ∷ 9 ∷ 15 ∷ 16 ∷ no ∷ no ∷ 13 ∷ no ∷ 1 ∷ 19 ∷ 4 ∷ 6 ∷ 7 ∷ 8 ∷ 10 ∷ 11
        ∷ 12 ∷ no ∷ no ∷ no ∷ no ∷ 28 ∷ 26 ∷ 24 ∷ 3 ∷ 22 ∷ 2 ∷ 14 ∷ 13 ∷ no ∷ no ∷ 239 ∷ no ∷ no
        ∷ [])
      ((151, key_home)
        ∷ (181, 239)
        ∷ (200, key_up)
        ∷ (201, key_pgup)
        ∷ (203, key_lf)
        ∷ (205, key_rt)
        ∷ (207, key_end)
        ∷ (208, key_dn)
        ∷ (209, key_pgdn)
        ∷ (210, key_ins)
        ∷ (211, key_del)
        ∷ [])

-- charcode, at an index below 4
abbrev pub charcode : ℕ → ℕ → ℕ
charcode index d = if index == 0 then normalmap d else if index == 1 then shiftmap d else ctlmap d

abbrev pub other_case : ℕ → ℕ
other_case c =
    if leb b'a' c && leb c b'z'
    then c - b'a' + b'A'
    else if leb b'A' c && leb c b'Z'
    then c - b'A' + b'a'
    else c

-- `shift &= ~mask`
abbrev pub clear_bits : (shift mask : ℕ) → ℕ
clear_bits shift mask = bit_and shift (u32_mod - 1 - mask)

-- What a call returns, `none` for its -1, with the shift state after it, and whether it asked for a
-- reboot.
pub record Key : Type 0 where
  pub answer : Option ℕ
  pub shift : ℕ
  pub reboots : Bool

abbrev pub no_char : ℕ → Key
no_char shift = record { answer = some 0; shift = shift; reboots = false }

-- A key that is pressed.
unfoldable pub key_pressed : (code shift : ℕ) → Key
unfolding normalmap shiftmap ctlmap
key_pressed code shift =
    let shift' = bit_xor (bit_or shift (shiftcode code)) (togglecode code) in
    let c = charcode (bit_and shift' (ctl_bit + shift_bit)) code in
    let c' = if has_bits shift' capslock then other_case c else c in
    record {
      answer = some c';
      shift = shift';
      reboots = (bit_and shift' (ctl_bit + alt_bit) == ctl_bit + alt_bit) && (c' == key_del);
    }

-- The byte at KBDATAP, or none where the status has no KBS_DIB.
unfoldable pub kbd_proc_data : Option ℕ → (shift : ℕ) → Key
unfolding key_pressed
kbd_proc_data none shift = record { answer = none; shift = shift; reboots = false }
kbd_proc_data (some code) shift =
    if code == 224
    then no_char (bit_or shift e0esc)
    else if has_bits code 128
    then (let code' = if has_bits shift e0esc then code else bit_and code 127 in
        no_char (clear_bits shift (bit_or (shiftcode code') e0esc)))
    else if has_bits shift e0esc
    then key_pressed (bit_or code 128) (clear_bits shift e0esc)
    else key_pressed code shift

abbrev pub answer_or_zero : Option ℕ → ℕ
answer_or_zero none = 0
answer_or_zero (some c) = c

-- The calls that cons_intr makes for the bytes that wait: what they return, and the shift state
-- after them.
unfoldable pub kbd_stream : (bytes : List ℕ) (shift : ℕ) → List ℕ × ℕ
unfolding kbd_proc_data
kbd_stream [] shift = ([], shift)
kbd_stream (code ∷ bytes) shift =
    let key = kbd_proc_data (some code) shift in
    let (answers, last) = kbd_stream bytes key.shift in (answer_or_zero key.answer ∷ answers, last)
