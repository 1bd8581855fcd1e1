-- ===== src/Console/Cprintf.antt =====
-- kern/printf.c: the kernel's cprintf, which prints to the console. The serial and the parallel
-- port, which cons_putc writes too, are not modelled.
use os2017_lab.Base.{ℕ, ◌<◌, ◌≡◌, refl, ap, ◌∙◌, Option, none, some, List, [], ◌∷◌}
use os2017_lab.Printf.{Args, vprintfmt}
use os2017_lab.Console.Screen.{Screen, cga_putc, cputs, crt_size, OnScreen, cga_putc-OnScreen}

-- cputchar, by cons_putc
abbrev pub cputchar : (c : ℕ) → Screen → Screen
cputchar c s = cga_putc c s

-- `*cnt++` moves the pointer and leaves the counter.
abbrev pub putch : (ch cnt : ℕ) → Screen → ℕ × Screen
putch ch cnt s = (cnt, cputchar ch s)

-- putch over what vprintfmt prints, from the counter `cnt`.
unfoldable pub put_all : (out : List ℕ) (cnt : ℕ) → Screen → ℕ × Screen
put_all [] cnt s = (cnt, s)
put_all (ch ∷ out) cnt s = let (cnt', s') = putch ch cnt s in put_all out cnt' s'

-- The result and the screen; `none` where vprintfmt reads outside of error_string.
unfoldable pub cprintf : (text_at : ℕ → List ℕ) (fmt : List ℕ) → Args → Screen → Option (ℕ × Screen)
unfolding put_all
cprintf text_at fmt ws s = elim (vprintfmt text_at fmt ws) [
  | none ↦ none
  | some out ↦ some (put_all out 0 s)
]

put_all_lem : (out : List ℕ) (cnt : ℕ) (s : Screen) → put_all out cnt s ≡ (cnt, cputs out s)
unfolding put_all cputs
put_all_lem [] cnt s = refl
put_all_lem (ch ∷ out) cnt s = put_all_lem out cnt (cputchar ch s)

cprintf_lem :
    (text_at : ℕ → List ℕ) (fmt : List ℕ) (ws : Args) (s : Screen) (out : List ℕ)
    → vprintfmt text_at fmt ws ≡ some out
    → cprintf text_at fmt ws s ≡ some (0, cputs out s)
unfolding cprintf
cprintf_lem text_at fmt ws s out h = rw (h, cprintf) (ap some (put_all_lem out 0 s))

cputs-OnScreen : (cs : List ℕ) (s : Screen) → s.crt_pos < crt_size → OnScreen s (cputs cs s)
unfolding cputs
cputs-OnScreen [] s h = (h, λ i out. refl)
cputs-OnScreen (c ∷ cs) s h =
    let (pos, same) = cga_putc-OnScreen c s h in
    let (pos', same') = cputs-OnScreen cs (cga_putc c s) pos in
    (pos', λ i out. same' i out ∙ same i out)

-- From a position on the screen and whatever the format and the arguments, when vprintfmt reads
-- nothing out of bounds cprintf keeps the position on the screen and writes no other memory of the
-- display, and its result is 0, not the number of characters.
pub cprintf-OnScreen :
    (text_at : ℕ → List ℕ) (fmt : List ℕ) (ws : Args) (s : Screen) (out : List ℕ)
    → s.crt_pos < crt_size
    → vprintfmt text_at fmt ws ≡ some out
    → (t : Screen) × (cprintf text_at fmt ws s ≡ some (0, t)) × OnScreen s t
cprintf-OnScreen text_at fmt ws s out h prints =
    (cputs out s, cprintf_lem text_at fmt ws s out prints, cputs-OnScreen out s h)
