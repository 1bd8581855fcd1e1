-- ===== src/Examples/Text.antt =====
-- The theorems on lib/string.c at a small memory.
use os2017_lab.Base.{ℕ, ◌^◌, ◌<◌, ◌≡◌, arith, ◌==◌, if◌then◌else◌}
use os2017_lab.Strings.{Bytes, memmove}
use os2017_lab.Strings.Copy.{moved, memmove_moves}

-- The letters `ab` and a 0 stand at 8, and again at 16.
abbrev letters : Bytes
letters a =
    if a == 8 then 97 else if a == 9 then 98 else if a == 16 then 97 else if a == 17 then 98 else 0

letters_small : (a : ℕ) → letters a < 2 ^ 8
letters_small a = ground arith

memmove_moves_example : memmove 9 8 3 letters 10 ≡ moved 9 8 3 letters 10
memmove_moves_example = memmove_moves 9 8 3 letters 10
