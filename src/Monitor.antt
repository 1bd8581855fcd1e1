-- ===== src/Monitor.antt =====
-- kern/monitor.c: runcmd. The line is the list of its bytes before the final 0; an argument is a
-- pointer into the line as runcmd leaves it, so what is left of that line from there. The commands
-- are a parameter.
pub mod Arguments
use os2017_lab.Base.{
  ℕ, zero, suc, ◌+◌, ◌-◌, ◌≤◌, ◌<◌, ◌≡◌, ◌≢◌, refl, sym, ap, ◌∙◌, Bool, true, false, not, ◌&&◌,
  ◌||◌, Option, none, some, List, [], ◌∷◌, ◌++◌, map, arith, ltb, leb, ◌==◌, if◌then◌else◌,
  Bool-cases, inl, inr, ◌⊎◌,
}
use os2017_lab.Strings.Cstring.{strcmp, strchr}

abbrev pub maxargs : ℕ
maxargs = 16

-- "\t\r\n "
abbrev pub whitespace : List ℕ
whitespace = 9 ∷ 13 ∷ 10 ∷ 32 ∷ []

abbrev pub is_some : {A : Type 0} → Option A → Bool
is_some none = false
is_some (some a) = true

-- The line after the scan, and argv.
pub record Parsed : Type 0 where
  pub buf : List ℕ
  pub argv : List (List ℕ)

abbrev pub zeroed : Option Parsed → Option Parsed
zeroed none = none
zeroed (some a) = some (record { buf = 0 ∷ a.buf; argv = a.argv })

abbrev pub passed : ℕ → Option Parsed → Option Parsed
passed c none = none
passed c (some a) = some (record { buf = c ∷ a.buf; argv = a.argv })

-- A new argument that starts here.
abbrev pub pointed : Option Parsed → Option Parsed
pointed none = none
pointed (some a) = some (record { buf = a.buf; argv = a.buf ∷ a.argv })

-- The scan from one byte on, in the loop over whitespace or over an argument, with `argc` arguments
-- so far; `none` is "Too many arguments".
unfoldable pub scan : (in_arg : Bool) (argc : ℕ) → List ℕ → Option Parsed
scan in_arg argc [] = some (record { buf = []; argv = [] })
scan false argc (c ∷ cs) =
    let gap = scan false argc cs in
    let arg = scan true (argc + 1) cs in
    if is_some (strchr whitespace c)
    then zeroed gap
    else if argc == maxargs - 1
    then none
    else pointed (passed c arg)
scan true argc (c ∷ cs) =
    let gap = scan false argc cs in
    let arg = scan true argc cs in
    if is_some (strchr whitespace c) then zeroed gap else passed c arg

-- The bytes of a string up to its 0.
abbrev pub string_at : List ℕ → List ℕ
string_at [] = []
string_at (c ∷ cs) = if c == 0 then [] else c ∷ string_at cs

-- What runcmd does with a line: nothing, a complaint, or a command with its arguments.
pub data Action : Type 0 where
  nothing : Action
  too_many : Action
  unknown : List ℕ → Action
  command : ℕ → List (List ℕ) → Action

-- The first command of the name, by its number.
unfoldable pub find_command : (names : List (List ℕ)) (name : List ℕ) (i : ℕ) → Option ℕ
unfolding strcmp
find_command [] name i = none
find_command (n ∷ names) name i =
    let rest = find_command names name (i + 1) in if strcmp name n == 0 then some i else rest

-- The end of runcmd, given the arguments.
unfoldable pub invoke : (names : List (List ℕ)) (argv : List (List ℕ)) → Action
unfolding find_command
invoke names [] = nothing
invoke names (name ∷ args) = elim (find_command names name 0) [
  | none ↦ unknown name
  | some i ↦ command i (name ∷ args)
]

unfoldable pub runcmd : (names : List (List ℕ)) (buf : List ℕ) → Action
unfolding scan invoke strchr
runcmd names buf = elim (scan false 0 buf) [
  | none ↦ too_many
  | some a ↦ invoke names (map string_at a.argv)
]

-- The words of a line, by its spaces alone: `word` is the one that is being read, if any.
abbrev pub is_space : ℕ → Bool
is_space c = (c == 9) || (c == 10) || (c == 13) || (c == 32)

-- The word at the start of a line, and the words after it.
unfoldable pub first_word : List ℕ → List ℕ
first_word [] = []
first_word (c ∷ cs) = let rest = first_word cs in if is_space c then [] else c ∷ rest

-- The words that start in a line; `inside` says that a word has already started before it.
unfoldable pub words : (inside : Bool) → List ℕ → List (List ℕ)
unfolding first_word
words inside [] = []
words false (c ∷ cs) =
    let gap = words false cs in
    let rest = words true cs in if is_space c then gap else first_word (c ∷ cs) ∷ rest
words true (c ∷ cs) =
    let gap = words false cs in let rest = words true cs in if is_space c then gap else rest

abbrev pub NoZero : List ℕ → Type 0
NoZero [] = Unit
NoZero (c ∷ cs) = (c ≢ 0) × NoZero cs
