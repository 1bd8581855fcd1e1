-- ===== src/Console.antt =====
-- kern/console.c: the circular buffer of input characters, which the device interrupts fill and
-- cons_getc empties.
pub mod Ring
pub mod Screen
pub mod Cprintf
pub mod Readline
pub mod Keyboard
use os2017_lab.Base.{ℕ, ◌+◌, ◌%◌, ◌^◌, not, List, [], ◌∷◌, ◌==◌, if◌then◌else◌}
use os2017_lab.Base.Arrays.{update}
use os2017_lab.Kernel.{Cons, Kernel, Cmd, ok}

abbrev pub consbufsize : ℕ
consbufsize = 512

-- The position after `p`: back to 0 at the end of the buffer.
abbrev pub advance : ℕ → ℕ
advance p = if p + 1 == consbufsize then 0 else p + 1

-- One round of cons_intr; a 0 from the device is no character.
unfoldable pub put_char : ℕ → Cons → Cons
put_char c b =
    if c == 0 then b else record b { buf = update b.buf b.wpos (c % 2 ^ 8); wpos = advance b.wpos }

-- cons_intr over what the device answers until its -1.
unfoldable pub cons_intr : List ℕ → Cons → Cons
cons_intr [] b = b
cons_intr (c ∷ cs) b = cons_intr cs (put_char c b)

unfoldable pub serial_intr : Kernel → Kernel
serial_intr k =
    if k.serial_exists
    then record k { cons = cons_intr k.serial_input k.cons; serial_input = [] }
    else k

unfoldable pub kbd_intr : Kernel → Kernel
kbd_intr k = record k { cons = cons_intr k.kbd_input k.cons; kbd_input = [] }

-- The end of cons_getc: the next character, or 0.
unfoldable pub take_char : Cons → ℕ × Cons
take_char b =
    if not (b.rpos == b.wpos) then (b.buf b.rpos, record b { rpos = advance b.rpos }) else (0, b)

unfoldable pub cons_getc : Cmd ℕ
unfolding serial_intr kbd_intr take_char cons_intr put_char
cons_getc k =
    let polled = kbd_intr (serial_intr k) in
    let (c, b) = take_char polled.cons in ok c (record polled { cons = b })
