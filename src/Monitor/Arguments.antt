-- ===== src/Monitor/Arguments.antt =====
-- runcmd of kern/monitor.c: the arguments of a line.
use os2017_lab.Base.{
  ℕ, suc, ◌+◌, ◌-◌, ◌≤◌, ◌<◌, ◌≡◌, ◌≢◌, refl, ap, Bool, true, false, Option, none, some, List, [],
  ◌∷◌, map, arith, ltb, ◌==◌, if◌then◌else◌, Bool-cases, inl, inr,
}
use mathlib.Core.Path.{ap₂}
use native.Mathlib.Decide.{ℕ_discrete}
use os2017_lab.Strings.Cstring.{strchr}
use os2017_lab.Monitor.{
  maxargs, whitespace, is_some, Parsed, zeroed, passed, pointed, scan, string_at, too_many, invoke,
  runcmd, is_space, first_word, words, NoZero,
}

strchr-whitespace : (c : ℕ) → is_some (strchr whitespace c) ≡ is_space c
unfolding strchr
strchr-whitespace c = ground arith

abbrev pub word_count : List (List ℕ) → ℕ
word_count [] = 0
word_count (w ∷ ws) = suc (word_count ws)

-- Inside an argument, the scanned line starts with its end.
abbrev Continues : (in_arg : Bool) (cs : List ℕ) → Parsed → Type 0
Continues false cs a = Unit
Continues true cs a = string_at a.buf ≡ first_word cs

-- What the scan of a line must give.
abbrev Scanned : (in_arg : Bool) (argc : ℕ) (cs : List ℕ) → Option Parsed → Type 0
Scanned in_arg argc cs none = 15 < argc + word_count (words in_arg cs)
Scanned in_arg argc cs (some a) =
    (argc + word_count (words in_arg cs) ≤ 15)
    × Continues in_arg cs a
    × (map string_at a.argv ≡ words in_arg cs)

zeroed-Scanned :
    (in_arg : Bool) (argc c : ℕ) (cs : List ℕ) (o : Option Parsed)
    → is_space c ≡ true
    → Scanned false argc cs o
    → Scanned in_arg argc (c ∷ cs) (zeroed o)
unfolding words first_word
zeroed-Scanned false argc c cs none space h = rw space h
zeroed-Scanned true argc c cs none space h = rw space h
zeroed-Scanned false argc c cs (some a) space (few, tt, found) = rw space (few, tt, found)
zeroed-Scanned true argc c cs (some a) space (few, tt, found) = rw space (few, refl, found)

string_at-cons : (c : ℕ) (s w : List ℕ) → c ≢ 0 → string_at s ≡ w → string_at (c ∷ s) ≡ c ∷ w
string_at-cons c s w char h =
    let test : (c == 0) ≡ false = ground arith in rw test (ap (λ (t : List ℕ). c ∷ t) h)

words-start :
    (c : ℕ) (cs : List ℕ)
    → is_space c ≡ false
    → word_count (words false (c ∷ cs)) ≡ suc (word_count (words true cs))
unfolding words
words-start c cs other = rw other refl

passed-Scanned :
    (argc c : ℕ) (cs : List ℕ) (o : Option Parsed)
    → c ≢ 0
    → is_space c ≡ false
    → Scanned true argc cs o
    → Scanned true argc (c ∷ cs) (passed c o)
unfolding words first_word
passed-Scanned argc c cs none char other h = rw other h
passed-Scanned argc c cs (some a) char other (few, starts, found) =
    rw other (few, string_at-cons c a.buf (first_word cs) char starts, found)

pointed-Scanned :
    (argc c : ℕ) (cs : List ℕ) (o : Option Parsed)
    → c ≢ 0
    → is_space c ≡ false
    → Scanned true (argc + 1) cs o
    → Scanned false argc (c ∷ cs) (pointed (passed c o))
unfolding words first_word
pointed-Scanned argc c cs none char other h = rw other (omega arith)
pointed-Scanned argc c cs (some a) char other (few, starts, found) = rw other (
  omega arith,
  tt,
  ap₂ (λ (w : List ℕ) (ws : List (List ℕ)). w ∷ ws)
      (string_at-cons c a.buf (first_word cs) char starts) found,
)

scan-Scanned :
    (in_arg : Bool) (argc : ℕ) (cs : List ℕ)
    → argc ≤ 15
    → NoZero cs
    → Scanned in_arg argc cs (scan in_arg argc cs)
unfolding scan words first_word
scan-Scanned false argc [] few text = (omega arith, tt, refl)
scan-Scanned true argc [] few text = (omega arith, refl, refl)
scan-Scanned false argc (c ∷ cs) few (char, text) = elim (Bool-cases (is_space c)) [
  | inl space ↦
      rw (strchr-whitespace c, space)
        (zeroed-Scanned false argc c cs (scan false argc cs) space
          (scan-Scanned false argc cs few text))
  | inr other ↦ elim (ℕ_discrete argc 15) [
    | yes full ↦
        let full' : (argc == maxargs - 1) ≡ true = ground arith in
        rw (strchr-whitespace c, other, full') (omega (arith, words-start c cs other))
    | no room ↦
        let room' : (argc == maxargs - 1) ≡ false = ground arith in
        rw (strchr-whitespace c, other, room')
          (pointed-Scanned argc c cs (scan true (argc + 1) cs) char other
            (scan-Scanned true (argc + 1) cs (omega arith) text))
  ]
]
scan-Scanned true argc (c ∷ cs) few (char, text) = elim (Bool-cases (is_space c)) [
  | inl space ↦
      rw (strchr-whitespace c, space)
        (zeroed-Scanned true argc c cs (scan false argc cs) space
          (scan-Scanned false argc cs few text))
  | inr other ↦
      rw (strchr-whitespace c, other)
        (passed-Scanned argc c cs (scan true argc cs) char other
          (scan-Scanned true argc cs few text))
]

runcmd_of :
    (names : List (List ℕ)) (line : List ℕ) (o : Option Parsed)
    → scan false 0 line ≡ o
    → Scanned false 0 line o
    → runcmd names line ≡ (
        if ltb 15 (word_count (words false line))
        then too_many
        else invoke names (words false line))
unfolding runcmd
runcmd_of names line none e many =
    let test : ltb 15 (word_count (words false line)) ≡ true = ground arith in
    rw (e, test, runcmd) refl
runcmd_of names line (some a) e (few, tt, found) =
    let test : ltb 15 (word_count (words false line)) ≡ false = ground arith in
    rw (e, test, runcmd) (ap (invoke names) found)

-- For a line without 0 bytes, runcmd refuses more than 15 words, and of any other it takes as the
-- command and its arguments exactly the words of the line, read from the line that it has cut up
-- with zeros.
pub runcmd_words :
    (names : List (List ℕ)) (line : List ℕ)
    → NoZero line
    → runcmd names line ≡ (
        if ltb 15 (word_count (words false line))
        then too_many
        else invoke names (words false line))
runcmd_words names line text =
    runcmd_of names line (scan false 0 line) refl (scan-Scanned false 0 line (omega arith) text)
