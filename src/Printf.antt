-- ===== src/Printf.antt =====
-- lib/printfmt.c: formatted output. A format is the list of its bytes without the final 0, the
-- arguments are the words on the stack that va_arg reads in turn, and `text_at` gives the bytes of
-- the string at a pointer. The result is the list of values that `putch` gets; `none` stands for a
-- read outside of error_string. An int is a 32-bit word, and the characters of strings are ASCII.
pub mod Number
pub mod Roundtrip
pub mod Directives
pub mod Buffers
use Prim.Native.Char.{code}
use Prim.Native.String.{String}
use os2017_lab.Base.{
  ℕ, zero, suc, ◌+◌, ◌-◌, ◌*◌, ◌/◌, ◌%◌, ◌^◌, Bool, true, false, not, ◌&&◌, ◌||◌, Option, none,
  some, List, [], ◌∷◌, ◌++◌, ltb, leb, ◌==◌, if◌then◌else◌,
}
use mathlib.Core.List.{reverse}
use os2017_lab.Memlayout.{u32_mod}
use os2017_lab.Env.{is_negative}

-- The characters of a text, all ASCII.
abbrev pub codes : String → List ℕ
codes String.[] = []
codes (String.◌∷◌ c s) = code c ∷ codes s

abbrev pub repeated : ℕ → ℕ → List ℕ
repeated zero c = []
repeated (suc n) c = c ∷ repeated n c

-- -1 as an int
abbrev pub minus_one : ℕ
minus_one = u32_mod - 1

-- `w > 0` for an int
abbrev pub is_positive : ℕ → Bool
is_positive w = not (w == 0) && not (is_negative w)

abbrev pub sub_int : ℕ → ℕ → ℕ
sub_int a b = (a + u32_mod - b) % u32_mod

-- A loop that runs while a counter is positive, and counts down.
abbrev pub rounds_of : ℕ → ℕ
rounds_of w = if is_positive w then w else 0

-- "0123456789abcdef"[d]
abbrev pub digit_char : ℕ → ℕ
digit_char d = if ltb d 10 then 48 + d else 87 + d

-- The recursion of printnum, on fuel; a base of two or more needs one step for each bit.
unfoldable pub printnum_steps : (fuel num base width padc : ℕ) → List ℕ
printnum_steps zero num base width padc = []
printnum_steps (suc fuel) num base width padc =
    let more = printnum_steps fuel (num / base) base (sub_int width 1) padc in
    (if leb base num then more else repeated (rounds_of (sub_int width 1)) padc)
    ++ digit_char (num % base) ∷ []

unfoldable pub printnum : (num base width padc : ℕ) → List ℕ
unfolding printnum_steps
printnum num base width padc = printnum_steps 64 num base width padc

-- The flags and fields of an escape.
pub record Flags : Type 0 where
  pub padc : ℕ
  pub width : ℕ
  pub precision : ℕ
  pub lflag : ℕ
  pub altflag : Bool

abbrev pub no_flags : Flags
no_flags = record {
  padc = 32;
  width = minus_one;
  precision = minus_one;
  lflag = 0;
  altflag = false;
}

-- What vprintfmt is about to read: plain text, or an escape of which it has seen `seen`, and with
-- `number` where it reads the digits of a width.
pub data Mode : Type 0 where
  plain : Mode
  escape : (seen : List ℕ) → Flags → (number : Option ℕ) → Mode

-- The words on the stack that va_arg reads.
abbrev pub Args : Type 0
Args = ℕ → ℕ

-- The mode, the arguments that are left, and the colour for the next character.
pub record Printer : Type 0 where
  pub mode : Mode
  pub args : Args
  pub color : ℕ

-- va_arg of one word, and the words after it.
abbrev pub next_arg : Args → ℕ
next_arg ws = ws 0

abbrev pub other_args : Args → Args
other_args ws i = ws (suc i)

-- getuint, and what it leaves; a long long is two words, the low one first.
unfoldable pub getuint : (lflag : ℕ) → Args → ℕ × Args
getuint lflag ws =
    if leb 2 lflag
    then (next_arg ws + next_arg (other_args ws) * u32_mod, other_args (other_args ws))
    else (next_arg ws, other_args ws)

-- getint, as a 64-bit word: a word is extended by its sign.
unfoldable pub getint : (lflag : ℕ) → Args → ℕ × Args
getint lflag ws =
    if leb 2 lflag
    then (next_arg ws + next_arg (other_args ws) * u32_mod, other_args (other_args ws))
    else (
      (if is_negative (next_arg ws) then next_arg ws + 2 ^ 64 - u32_mod else next_arg ws),
      other_args ws,
    )

-- The label `process_precision`.
abbrev pub process_precision : ℕ → Flags → Flags
process_precision p f =
    if is_negative f.width
    then record f { width = p; precision = minus_one }
    else record f { precision = p }

-- %d, given the number.
unfoldable pub signed_decimal : Flags → ℕ → List ℕ
signed_decimal f num =
    if leb (2 ^ 63) num
    then 45 ∷ printnum (2 ^ 64 - num) 10 f.width f.padc
    else printnum num 10 f.width f.padc

abbrev pub take : ℕ → List ℕ → List ℕ
take n [] = []
take zero (x ∷ xs) = []
take (suc n) (x ∷ xs) = x ∷ take n xs

abbrev pub length : List ℕ → ℕ
length [] = 0
length (x ∷ xs) = suc (length xs)

-- The characters of %s that the precision lets through.
abbrev pub within : (precision : ℕ) → List ℕ → List ℕ
within precision text = if is_negative precision then text else take precision text

abbrev pub shown : (altflag : Bool) → List ℕ → List ℕ
shown altflag [] = []
shown altflag (c ∷ cs) = (if altflag && (ltb c 32 || ltb 126 c) then 63 else c) ∷ shown altflag cs

-- %s, given the string; strnlen takes the precision as a size.
unfoldable pub string_field : Flags → List ℕ → List ℕ
string_field f text =
    let left = is_positive f.width && not (f.padc == 45) in
    let less = sub_int f.width (length (take f.precision text)) in
    let width = if left then (if is_positive less then 0 else less) else f.width in
    let body = within f.precision text in
    (if left then repeated (rounds_of less) f.padc else [])
    ++ shown f.altflag body
    ++ repeated (rounds_of (sub_int width (length body))) 32

-- The strings of error_string; E_NO_SYS has none.
unfoldable pub error_string : ℕ → Option (List ℕ)
error_string e =
    if e == 1
    then some (codes "unspecified error")
    else if e == 2
    then some (codes "bad environment")
    else if e == 3
    then some (codes "invalid parameter")
    else if e == 4
    then some (codes "out of memory")
    else if e == 5
    then some (codes "out of environments")
    else if e == 6
    then some (codes "segmentation fault")
    else if e == 8
    then some (codes "env is not recving")
    else if e == 9
    then some (codes "unexpected end of file")
    else none

abbrev pub maxerror : ℕ
maxerror = 10

-- %e, by the inner calls of printfmt with "error %d" and "%s"; -(-2^31) is -2^31.
unfoldable pub error_field : ℕ → Option (List ℕ)
error_field word =
    let err = if is_negative word then u32_mod - word else word in
    if is_negative err
    then none
    else some (elim (if leb maxerror err then none else error_string err) [
      | none ↦ codes "error " ++ signed_decimal no_flags err
      | some text ↦ string_field no_flags text
    ])

abbrev pub color_of : ℕ → ℕ
color_of n = if n == 4 then 4 * 256 else if n == 2 then 2 * 256 else 0

-- What a character of the format prints, and how it leaves the printer.
abbrev pub Printed : Type 0
Printed = Option (List ℕ × Printer)

abbrev pub prints : List ℕ → Args → ℕ → Printed
prints out ws color = some (out, record { mode = plain; args = ws; color = color })

-- `goto reswitch`
abbrev pub reswitch : List ℕ → Flags → Option ℕ → Args → ℕ → Printed
reswitch seen f number ws color =
    some ([], record { mode = escape seen f number; args = ws; color = color })

abbrev pub number_field : (base : ℕ) → Flags → ℕ × Args → ℕ → Printed
number_field base f (num, ws) color = prints (printnum num base f.width f.padc) ws color

abbrev pub is_digit : ℕ → Bool
is_digit c = leb 48 c && leb c 57

-- The switch on the character `c` of an escape.
unfoldable pub switch : (text_at : ℕ → List ℕ) (c : ℕ) (seen : List ℕ) → Flags → Args → ℕ → Printed
switch text_at c seen f ws color =
    let seen' = seen ++ c ∷ [] in
    if c == b'-'
    then reswitch seen' (record f { padc = b'-' }) none ws color
    else if c == b'0'
    then reswitch seen' (record f { padc = b'0' }) none ws color
    else if is_digit c
    then reswitch seen' f (some (c - 48)) ws color
    else if c == b'*'
    then reswitch seen' (process_precision (next_arg ws) f) none (other_args ws) color
    else if c == b'.'
    then reswitch seen' (if is_negative f.width then record f { width = 0 } else f) none ws color
    else if c == b'#'
    then reswitch seen' (record f { altflag = true }) none ws color
    else if c == b'l'
    then reswitch seen' (record f { lflag = f.lflag + 1 }) none ws color
    else if c == b'c'
    then prints (((next_arg ws + color) % u32_mod) ∷ []) (other_args ws) 0
    else if c == b'C'
    then reswitch seen' f none (other_args ws) (color_of (next_arg ws))
    else if c == b'e'
    then elim (error_field (next_arg ws)) [
      | none ↦ none
      | some out ↦ prints out (other_args ws) color
    ]
    else if c == b's'
    then prints
        (string_field f (if next_arg ws == 0 then codes "(null)" else text_at (next_arg ws)))
        (other_args ws) color
    else if c == b'd'
    then (let (num, ws') = getint f.lflag ws in prints (signed_decimal f num) ws' color)
    else if c == b'u'
    then number_field 10 f (getuint f.lflag ws) color
    else if c == b'o'
    then number_field 8 f (getuint f.lflag ws) color
    else if c == b'p'
    then prints (b'0' ∷ b'x' ∷ printnum (next_arg ws) 16 f.width f.padc) (other_args ws) color
    else if c == b'x'
    then number_field 16 f (getuint f.lflag ws) color
    else if c == b'%'
    then prints (b'%' ∷ []) ws color
    else prints (b'%' ∷ seen') ws color

-- One character of the format. A digit goes on with the number of a width; any other character ends
-- the number first. An unknown escape prints its `%` and is read again as text, up to the same
-- place.
unfoldable pub print_char : (text_at : ℕ → List ℕ) (c : ℕ) → Mode → Args → ℕ → Printed
unfolding switch
print_char text_at c plain ws color =
    if c == b'%' then reswitch [] no_flags none ws color else prints (c ∷ []) ws color
print_char text_at c (escape seen f none) ws color = switch text_at c seen f ws color
print_char text_at c (escape seen f (some n)) ws color =
    if is_digit c
    then reswitch (seen ++ c ∷ []) f (some (sub_int (n * 10 + c) 48)) ws color
    else switch text_at c seen (process_precision n f) ws color

-- At the end of the format an open escape is unknown.
abbrev pub last_text : Mode → List ℕ
last_text plain = []
last_text (escape seen f number) = b'%' ∷ seen

abbrev pub after_text : List ℕ → Option (List ℕ) → Option (List ℕ)
after_text out none = none
after_text out (some more) = some (out ++ more)

unfoldable pub print_rest : (text_at : ℕ → List ℕ) (fmt : List ℕ) → Printer → Option (List ℕ)
unfolding print_char
print_rest text_at [] p = some (last_text p.mode)
print_rest text_at (c ∷ fmt) p = elim (print_char text_at c p.mode p.args p.color) [
  | none ↦ none
  | some (out, p') ↦ after_text out (print_rest text_at fmt p')
]

unfoldable pub vprintfmt : (text_at : ℕ → List ℕ) (fmt : List ℕ) → Args → Option (List ℕ)
unfolding print_rest
vprintfmt text_at fmt ws = print_rest text_at fmt (record { mode = plain; args = ws; color = 0 })

-- struct sprintbuf, with the number of bytes written in place of the pointer, and what they are,
-- last first; `room` is `ebuf - buf` at the start.
pub record SprintBuf : Type 0 where
  pub written : List ℕ
  pub room : ℕ
  pub cnt : ℕ

unfoldable pub sprintputch : ℕ → SprintBuf → SprintBuf
sprintputch ch b = record b {
  cnt = (b.cnt + 1) % u32_mod;
  written = if ltb (length b.written) b.room then (ch % 2 ^ 8) ∷ b.written else b.written;
}

-- A callback applied to each value of the output in turn.
abbrev pub feed : {S : Type 0} → (ℕ → S → S) → List ℕ → S → S
feed put [] s = s
feed put (c ∷ cs) s = feed put cs (put c s)

-- vsnprintf into the buffer of `n` bytes, given what vprintfmt prints: the result, and the bytes
-- that it writes from `buf` on.
unfoldable pub vsnprintf : (is_null : Bool) (n : ℕ) (out : List ℕ) → ℕ × List ℕ
unfolding sprintputch
vsnprintf is_null n out =
    if is_null || not (is_positive n)
    then (u32_mod - 3, [])
    else (let b = feed sprintputch out (record { written = []; room = n - 1; cnt = 0 }) in
        (b.cnt, reverse (0 ∷ b.written)))

-- struct printbuf of lib/printf.c: the characters in the buffer, last first. `flushed` is what the
-- calls of sys_cputs have printed, last first.
pub record PrintBuf : Type 0 where
  pub buf : List ℕ
  pub total : ℕ
  pub flushed : List (List ℕ)

unfoldable pub putch : ℕ → PrintBuf → PrintBuf
putch ch b =
    let buf = (ch % 2 ^ 8) ∷ b.buf in
    let cnt = (b.total + 1) % u32_mod in
    if length buf == 256 - 1
    then record { buf = []; total = cnt; flushed = reverse buf ∷ b.flushed }
    else record { buf = buf; total = cnt; flushed = b.flushed }

-- vcprintf, given what vprintfmt prints: the result and the texts of its system calls.
unfoldable pub vcprintf : (out : List ℕ) → ℕ × List (List ℕ)
unfolding putch
vcprintf out =
    let b = feed putch out (record { buf = []; total = 0; flushed = [] }) in
    (b.total, reverse (reverse b.buf ∷ b.flushed))
