-- ===== src/Examples/Devices.antt =====
-- The theorems on the lock, the console, the symbol table and the monitor, on small inputs.
use os2017_lab.Base.{
  ℕ, ◌+◌, ◌-◌, ◌%◌, ◌^◌, ◌≤◌, ◌<◌, ◌≡◌, ◌≢◌, ◌⊎◌, refl, true, false, none, some, List, [], ◌∷◌,
  ◌++◌, arith, ltb, leb, ◌&&◌, ◌==◌, if◌then◌else◌, has_bits,
}
use os2017_lab.Base.Arrays.{update}
use os2017_lab.Spinlock.{
  Spinlock, Pc, outside, lock_entered, lock_checked, spinning, acquired, recording, critical,
  spin_initlock, Move, Machine, Step, Steps, start,
}
use os2017_lab.Console.{cons_intr}
use os2017_lab.Console.Ring.{IsRing, queue, count}
use os2017_lab.Console.Keyboard.{shiftmap, kbd_stream}
use os2017_lab.Console.Keyboard.Shift.{IsOrdinary, IsBare, shift_types}
use os2017_lab.Console.Screen.{Screen, blank, OnScreen}
use os2017_lab.Console.Cprintf.{cprintf, cprintf-OnScreen}
use os2017_lab.Console.Readline.{readline, take_key, no_line, line, readline_takes}
use os2017_lab.Printf.{Args, codes, take, vprintfmt, print_rest, print_char}
use os2017_lab.Kdebug.{
  Stab, last_of_type, compare_at, round, search_rounds, rightmost, Region, region_of,
  stab_binsearch,
}
use os2017_lab.Kdebug.Nearest.{IsNearest, stab_binsearch_nearest}
use os2017_lab.Strings.Cstring.{strcmp, strchr}
use os2017_lab.Monitor.{NoZero, words, scan, invoke, find_command, runcmd, too_many, command}
use os2017_lab.Monitor.Arguments.{word_count, runcmd_words}
use os2017_lab.Strings.{Bytes}
use os2017_lab.Mpconfig.{
  mpsearch1, Cpus, add_processor, scan_entries, listed, start_bootcpu, read_conf,
}
use os2017_lab.Kernel.{cpu_unused, cpu_started}
use os2017_lab.Mpconfig.Tables.{Searched, mpsearch1_first, Counted, read_conf_counts}
use os2017_lab.Examples.{empty_cons}
use os2017_lab.Spinlock.Progress.{spin_lock_progresses}

-- Processor 0 has taken the lock, and processor 1 has begun to spin.
abbrev free_lock : Spinlock
free_lock = record { locked = 0; cpu = none; pcs = λ _. 0 }

abbrev held_lock : Spinlock
held_lock = record { locked = 1; cpu = some 0; pcs = λ _. 0 }

abbrev everywhere : ℕ → Pc
everywhere _ = outside

abbrev first_in : ℕ → Pc
first_in =
    update
      (update (update (update (update everywhere 0 lock_entered) 0 spinning) 0 acquired) 0
        recording)
      0 critical

abbrev contended : Machine
contended = record {
  lock = held_lock;
  pc = update (update (update first_in 1 lock_entered) 1 lock_checked) 1 spinning;
}

first_takes : Steps (start free_lock) (record { lock = held_lock; pc = first_in })
unfolding spin_initlock
first_takes =
    Steps.later
      (Steps.later
        (Steps.later
          (Steps.later (Steps.later Steps.here (Step.turn 0 Move.call_lock))
            (Step.turn 0 (Move.not_locked refl)))
          (Step.turn 0 (Move.win refl)))
        (Step.turn 0 Move.record_cpu))
      (Step.turn 0 (Move.get_caller_pcs (λ _. 0)))

other_cpu : held_lock.cpu ≢ some 1
other_cpu h = absurd (ground arith)

contended_steps : Steps (start free_lock) contended
contended_steps =
    Steps.later
      (Steps.later (Steps.later first_takes (Step.turn 1 Move.call_lock))
        (Step.turn 1 (Move.is_locked (λ h. absurd (omega arith)))))
      (Step.turn 1 (Move.not_mine other_cpu))

spin_lock_progresses_example : (t : Machine) × Steps contended t × (t.pc 1 ≡ acquired)
spin_lock_progresses_example = spin_lock_progresses free_lock contended 1 contended_steps refl

-- Two source files with a function each; 0x64 is N_SO and 0x24 is N_FUN.
abbrev stabs : ℕ → Stab
stabs i = record {
  n_strx = 0;
  n_desc = 7;
  n_type = if i % 2 == 0 then 100 else 36;
  n_value = if i == 0 then 16 else if i == 1 then 16 else if i == 2 then 32 else 40;
}

first_file : IsNearest stabs 0 4 100 20 0
first_file = record {
  words = λ i. ground arith;
  sorted = λ i j. ground arith;
  no_wrap = omega arith;
  in_left = omega arith;
  in_right = omega arith;
  typed = refl;
  at_most = omega arith;
  later = λ i. ground arith;
}

stab_binsearch_nearest_example :
    (region : Region) × (stab_binsearch stabs 0 4 100 20 ≡ some region)
    × (region.left ≡ 0)
    × (0 < region.stop)
    × (region.stop ≤ 4)
    × ((i : ℕ) → 0 < i → i < region.stop → (stabs i).n_type ≢ 100)
stab_binsearch_nearest_example = stab_binsearch_nearest stabs 0 4 100 20 0 first_file

-- Line numbers at addresses 10 and 11: the search for 10 ends at the entry of 11.
abbrev lines : ℕ → Stab
lines i = record { n_strx = 0; n_desc = i; n_type = 68; n_value = 10 + i }

next_byte_test : stab_binsearch lines 0 2 68 10 ≡ some (record { left = 1; stop = 2 })
unfolding stab_binsearch search_rounds round last_of_type compare_at region_of rightmost
next_byte_test = refl

-- The key `a`.
a_key : IsOrdinary 30
a_key = (omega arith, refl, refl)

no_modifier : IsBare 0
no_modifier = (omega arith, refl)

empty-IsRing : IsRing empty_cons
empty-IsRing = record { read_in = omega arith; write_in = omega arith }

a_key_shifted : shiftmap 30 ≡ b'A'
unfolding shiftmap
a_key_shifted = refl

none_waits : count empty_cons ≡ 0
unfolding count
none_waits = refl

shift_types_example :
    let (answers, last) = kbd_stream (42 ∷ 30 ∷ 170 ∷ []) 0 in
    (queue (cons_intr answers empty_cons) ≡ queue empty_cons ++ (shiftmap 30 % 2 ^ 8) ∷ [])
    × (last ≡ 0)
shift_types_example =
    shift_types 30 0 empty_cons a_key no_modifier empty-IsRing (omega (arith, a_key_shifted))
      (omega (arith, none_waits))

abbrev empty_screen : Screen
empty_screen = record { crt_buf = λ _. blank; crt_pos = 1999 }

abbrev no_words : Args
no_words _ = 0

hi_prints : vprintfmt (λ _. []) (codes "hi\n") no_words ≡ some (codes "hi\n")
unfolding vprintfmt print_rest print_char
hi_prints = refl

cprintf-OnScreen_example :
    (t : Screen) × (cprintf (λ _. []) (codes "hi\n") no_words empty_screen ≡ some (0, t))
    × OnScreen empty_screen t
cprintf-OnScreen_example =
    cprintf-OnScreen (λ _. []) (codes "hi\n") no_words empty_screen (codes "hi\n") (omega arith)
      hi_prints

readline_takes_example :
    readline true (codes "ls" ++ 10 ∷ 7 ∷ []) no_line
    ≡ some (line (take 1023 (codes "ls")) (take 1023 (codes "ls") ++ 10 ∷ []) (7 ∷ []))
readline_takes_example =
    readline_takes (codes "ls") (7 ∷ []) (omega arith, omega arith, (omega arith, omega arith, tt))

-- DEL is kept as a character where there is nothing to erase.
lone_del_test : readline true (127 ∷ 10 ∷ []) no_line ≡ some (line (127 ∷ []) (127 ∷ 10 ∷ []) [])
unfolding readline take_key
lone_del_test = refl

abbrev names : List (List ℕ)
names = codes "help" ∷ codes "kerninfo" ∷ []

no_zero : NoZero (codes " help me")
no_zero = ground arith

runcmd_words_example : runcmd names (codes " help me") ≡ (
    if ltb 15 (word_count (words false (codes " help me")))
    then too_many
    else invoke names (words false (codes " help me")))
runcmd_words_example = runcmd_words names (codes " help me") no_zero

help_test : runcmd names (codes " help  me") ≡ command 0 (codes "help" ∷ codes "me" ∷ [])
unfolding runcmd scan invoke find_command strcmp strchr
help_test = refl

-- Memory that holds, at 0, a table with nine entries of type 0 whose boot flag is set.
abbrev nine_boot : Bytes
nine_boot a = if a == 34 then 9 else if (leb 44 a && ((a - 44) % 20 == 3)) then 2 else 0

abbrev no_cpus : Cpus
no_cpus = record {
  ncpu = 0;
  cpu_id = λ _. 0;
  cpu_status = λ _. cpu_unused;
  bootcpu = 0;
  ismp = false;
  lapicaddr = 0;
}

no_cpus-Counted : Counted no_cpus
no_cpus-Counted = record { room = omega arith; ids = λ i low. absurd (omega arith); first = refl }

read_conf_counts_example :
    (((listed nine_boot 0 no_cpus).bootcpu < 8)
      × (c' : Cpus) × (read_conf nine_boot 0 no_cpus ≡ some c')
      × Counted c'
      × (c'.bootcpu < 8)
      × (c'.cpu_status c'.bootcpu ≡ cpu_started))
    ⊎ (((listed nine_boot 0 no_cpus).bootcpu ≡ 8) × (read_conf nine_boot 0 no_cpus ≡ none))
read_conf_counts_example = read_conf_counts nine_boot 0 no_cpus no_cpus-Counted

-- The ninth of them makes bootcpu point behind the table of eight.
boot_outside_test : read_conf nine_boot 0 no_cpus ≡ none
unfolding read_conf listed start_bootcpu scan_entries add_processor has_bits
boot_outside_test = refl

mpsearch1_first_example : Searched nine_boot 64 0 (mpsearch1 nine_boot 16 0 1024)
mpsearch1_first_example = mpsearch1_first nine_boot 16 0 1024 refl refl (omega arith)
