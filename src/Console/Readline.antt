-- ===== src/Console/Readline.antt =====
-- lib/readline.c, over what getchar returns in turn, as 32-bit words. `buf` is kept last character
-- first. The prompt and the message of an error are not modelled.
use os2017_lab.Base.{
  ℕ, ◌-◌, ◌%◌, ◌^◌, ◌≤◌, ◌<◌, ◌≡◌, ap, ◌∙◌, Bool, true, false, ◌&&◌, ◌||◌, Option, none, some, List,
  [], ◌∷◌, ◌++◌, arith, ltb, leb, ◌==◌, if◌then◌else◌, Bool-cases, inl, inr,
}
use mathlib.Core.List.{reverse, reverse-cons, append-nil}
use mathlib.Core.Path.{ap₂}
use os2017_lab.Env.{is_negative}
use os2017_lab.Printf.{length, take}
use os2017_lab.Printf.Buffers.{length-reverse, room_for, no_room}

abbrev pub buflen : ℕ
buflen = 1024

-- The characters in `buf`, and those given to cputchar, last first.
pub record Line : Type 0 where
  pub buf : List ℕ
  pub echoed : List ℕ

abbrev pub echo : (echoing : Bool) → ℕ → List ℕ → List ℕ
echo echoing c out = if echoing then c ∷ out else out

abbrev pub drop_last : List ℕ → List ℕ
drop_last [] = []
drop_last (c ∷ cs) = cs

-- How readline ends: with an error of getchar, or with the line, and the input that is left.
pub data Answer : Type 0 where
  read_error : ℕ → Answer
  line : (text echoed input : List ℕ) → Answer

-- A character that is neither an error nor the end of the line.
unfoldable pub take_key : (echoing : Bool) → ℕ → Line → Line
take_key echoing c l =
    if ((c == 8) || (c == 127)) && ltb 0 (length l.buf)
    then record { buf = drop_last l.buf; echoed = echo echoing 8 l.echoed }
    else if leb 32 c && ltb (length l.buf) (buflen - 1)
    then record { buf = (c % 2 ^ 8) ∷ l.buf; echoed = echo echoing c l.echoed }
    else l

-- A backspace that has something to erase, or a character that is kept, is no end of the line.
abbrev pub ends_line : ℕ → Bool
ends_line c = (c == 10) || (c == 13)

-- `none` where the input has no end of the line.
unfoldable pub readline : (echoing : Bool) (input : List ℕ) → Line → Option Answer
unfolding take_key
readline echoing [] l = none
readline echoing (c ∷ input) l =
    let rest = readline echoing input (take_key echoing c l) in
    if is_negative c
    then some (read_error c)
    else if ends_line c
    then some (line (reverse l.buf) (reverse (echo echoing 10 l.echoed)) input)
    else rest

abbrev pub no_line : Line
no_line = record { buf = []; echoed = [] }

abbrev pub AllPrintable : List ℕ → Type 0
AllPrintable [] = Unit
AllPrintable (c ∷ cs) = (32 ≤ c) × (c < 127) × AllPrintable cs

take_key-kept :
    (c : ℕ) (l : Line)
    → 32 ≤ c
    → c < 127
    → length l.buf < buflen - 1
    → take_key true c l ≡ record { buf = c ∷ l.buf; echoed = c ∷ l.echoed }
unfolding take_key
take_key-kept c l low high room = let same : c % 2 ^ 8 ≡ c = ground arith in ground arith

take_key-full :
    (c : ℕ) (l : Line) → 32 ≤ c → c < 127 → buflen - 1 ≤ length l.buf → take_key true c l ≡ l
unfolding take_key
take_key-full c l low high room = ground arith

abbrev Fits : Line → Type 0
Fits l = length l.buf < buflen

drop_last_shorter : (cs : List ℕ) → length (drop_last cs) ≤ length cs
drop_last_shorter [] = omega arith
drop_last_shorter (c ∷ cs) = omega arith

take_key-Fits : (echoing : Bool) (c : ℕ) (l : Line) → Fits l → Fits (take_key echoing c l)
unfolding take_key
take_key-Fits echoing c l h = ground (arith, drop_last_shorter l.buf)

readline-Fits :
    (echoing : Bool) (input : List ℕ) (l : Line) (text out rest : List ℕ)
    → Fits l
    → readline echoing input l ≡ some (line text out rest)
    → length text < buflen
unfolding readline
readline-Fits echoing [] l text out rest fits h = absurd (ground arith)
readline-Fits echoing (c ∷ input) l text out rest fits h = elim (Bool-cases (is_negative c)) [
  | inl bad ↦ absurd (ground arith)
  | inr good ↦ elim (Bool-cases (ends_line c)) [
    | inl ends ↦
        let same : reverse l.buf ≡ text = ground arith in
        rw (← same) (ground (arith, length-reverse l.buf))
    | inr goes ↦
        readline-Fits echoing input (take_key echoing c l) text out rest
          (take_key-Fits echoing c l fits) (ground arith)
  ]
]

-- `line` with the characters of `cs` that still have room.
abbrev typed : Line → List ℕ → List ℕ → Option Answer
typed l cs input = some (
    line (reverse l.buf ++ take (buflen - 1 - length l.buf) cs)
      ((reverse l.echoed ++ take (buflen - 1 - length l.buf) cs) ++ 10 ∷ []) input)

readline-typed :
    (cs input : List ℕ) (l : Line)
    → AllPrintable cs
    → readline true (cs ++ 10 ∷ input) l ≡ typed l cs input
unfolding readline
readline-typed [] input l h =
    simp (append-nil (reverse l.buf), append-nil (reverse l.echoed), reverse-cons 10 l.echoed)
readline-typed (c ∷ cs) input l (low, high, h) =
    elim (Bool-cases (ltb (length l.buf) (buflen - 1))) [
      | inl room ↦
          let goes : is_negative c ≡ false = ground arith in
          let on : ends_line c ≡ false = ground arith in
          rw (goes, on, take_key-kept c l low high (ground arith))
            (readline-typed cs input (record { buf = c ∷ l.buf; echoed = c ∷ l.echoed }) h
              ∙ ap₂ (λ (text out : List ℕ). some (line text (out ++ 10 ∷ []) input))
                  (room_for l.buf cs c (buflen - 1) (length l.buf) (ground arith))
                  (room_for l.echoed cs c (buflen - 1) (length l.buf) (ground arith)))
      | inr full ↦
          let goes : is_negative c ≡ false = ground arith in
          let on : ends_line c ≡ false = ground arith in
          rw (goes, on, take_key-full c l low high (ground arith))
            (readline-typed cs input l h
              ∙ ap
                  (λ (t : List ℕ).
                    some (line (reverse l.buf ++ t) ((reverse l.echoed ++ t) ++ 10 ∷ []) input))
                  (no_room cs (c ∷ cs) (buflen - 1 - length l.buf) (ground arith)))
    ]

-- For any text of printable characters and then a newline, readline at the console returns the
-- first 1023 characters of the text, echoes just these and a newline, and leaves the input after
-- the newline.
pub readline_takes :
    (cs input : List ℕ)
    → AllPrintable cs
    → readline true (cs ++ 10 ∷ input) no_line
      ≡ some (line (take 1023 cs) (take 1023 cs ++ 10 ∷ []) input)
readline_takes cs input h =
    let room : 1023 - 0 ≡ 1023 = omega arith in
    readline-typed cs input no_line h
    ∙ ap (λ (n : ℕ). some (line (take n cs) (take n cs ++ 10 ∷ []) input)) room

-- Whatever the input, a line that readline returns fits in the buffer with its final 0.
pub readline_fits :
    (echoing : Bool) (input text out rest : List ℕ)
    → readline echoing input no_line ≡ some (line text out rest)
    → length text < buflen
readline_fits echoing input text out rest h =
    readline-Fits echoing input no_line text out rest (omega arith) h
