-- ===== src/Strings.antt =====
-- lib/string.c: the routines on memory of a given size, over a memory of bytes. A pointer is an
-- address; C leaves pointers beyond the end of an object undefined, so they do not wrap around.
pub mod Copy
pub mod Join
pub mod Search
pub mod Strtol
pub mod Cstring
use os2017_lab.Base.{
  ℕ, zero, suc, ◌+◌, ◌-◌, ◌*◌, ◌/◌, ◌%◌, ◌^◌, ◌≤◌, ◌<◌, Bool, true, false, not, ◌&&◌, ltb, leb,
  ◌==◌, if◌then◌else◌,
}
use os2017_lab.Base.Arrays.{update}
use os2017_lab.Memlayout.{u32_mod}

abbrev pub Bytes : Type 0
Bytes = ℕ → ℕ

-- One `movs` of `u` bytes: all are read before any is written.
abbrev pub move_unit : (u d s : ℕ) → Bytes → Bytes
move_unit u d s m a = if leb d a && ltb a (d + u) then m (a - d + s) else m a

-- The bytes of `rounds` units.
abbrev pub span_of : (u rounds : ℕ) → ℕ
span_of u zero = 0
span_of u (suc rounds) = u + span_of u rounds

-- `cld; rep movs`
unfoldable pub copy_up : (u rounds d s : ℕ) → Bytes → Bytes
copy_up u zero d s m = m
copy_up u (suc rounds) d s m = copy_up u rounds (d + u) (s + u) (move_unit u d s m)

-- `std; rep movs`, where `d` and `s` are the lowest addresses: the highest unit moves first.
unfoldable pub copy_down : (u rounds d s : ℕ) → Bytes → Bytes
copy_down u zero d s m = m
copy_down u (suc rounds) d s m =
    copy_down u rounds d s (move_unit u (d + span_of u rounds) (s + span_of u rounds) m)

abbrev pub by_words : (d s n : ℕ) → Bool
by_words d s n = (s % 4 == 0) && (d % 4 == 0) && (n % 4 == 0)

-- Where the copy goes down, the pointers are first moved to the ends.
unfoldable pub memmove : (dst src n : ℕ) → Bytes → Bytes
memmove dst src n m =
    if ltb src dst && ltb dst (src + n)
    then (if by_words (dst + n) (src + n) n
        then copy_down 4 (n / 4) dst src m
        else copy_down 1 n dst src m)
    else (if by_words dst src n then copy_up 4 (n / 4) dst src m else copy_up 1 n dst src m)

abbrev pub memcpy : (dst src n : ℕ) → Bytes → Bytes
memcpy dst src n m = memmove dst src n m

-- `*s1 - *s2` as a 32-bit word.
abbrev pub byte_difference : (a b : ℕ) → ℕ
byte_difference a b = (a + u32_mod - b) % u32_mod

unfoldable pub memcmp : (v1 v2 n : ℕ) → Bytes → ℕ
memcmp v1 v2 zero m = 0
memcmp v1 v2 (suc n) m =
    if not (m v1 == m v2) then byte_difference (m v1) (m v2) else memcmp (v1 + 1) (v2 + 1) n m

unfoldable pub memfind : (s c n : ℕ) → Bytes → ℕ
memfind s c zero m = s
memfind s c (suc n) m = if m s == c % 2 ^ 8 then s else memfind (s + 1) c n m

unfoldable pub strnlen : (s size : ℕ) → Bytes → ℕ
strnlen s zero m = 0
strnlen s (suc size) m = if not (m s == 0) then suc (strnlen (s + 1) size m) else 0

unfoldable pub strncmp : (p q n : ℕ) → Bytes → ℕ
strncmp p q zero m = 0
strncmp p q (suc n) m =
    if not (m p == 0) && (m p == m q)
    then strncmp (p + 1) (q + 1) n m
    else byte_difference (m p) (m q)

-- The source pointer stays at the terminator.
unfoldable pub strncpy : (dst src size : ℕ) → Bytes → Bytes
strncpy dst src zero m = m
strncpy dst src (suc size) m =
    let copied = update m dst (m src) in
    strncpy (dst + 1) (if not (copied src == 0) then src + 1 else src) size copied

-- The loop of strlcpy with `room` bytes left before the terminator; the result is where it ends.
unfoldable pub strlcpy_loop : (dst src room : ℕ) → Bytes → ℕ × Bytes
strlcpy_loop dst src zero m = (dst, update m dst 0)
strlcpy_loop dst src (suc room) m =
    if not (m src == 0)
    then strlcpy_loop (dst + 1) (src + 1) room (update m dst (m src))
    else (dst, update m dst 0)

-- The result is the number of bytes copied.
unfoldable pub strlcpy : (dst src size : ℕ) → Bytes → ℕ × Bytes
unfolding strlcpy_loop
strlcpy dst src zero m = (0, m)
strlcpy dst src (suc room) m = let (end, m') = strlcpy_loop dst src room m in (end - dst, m')
