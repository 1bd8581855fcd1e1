-- ===== src/Printf/Buffers.antt =====
-- The callbacks of formatted output: sprintputch and vsnprintf of lib/printfmt.c, and the buffer of
-- lib/printf.c.
use os2017_lab.Base.{
  ℕ, zero, suc, ◌+◌, ◌-◌, ◌%◌, ◌^◌, ◌≤◌, ◌<◌, ◌≡◌, refl, sym, ap, ◌∙◌, inl, inr, true, false, List,
  [], ◌∷◌, ◌++◌, map, arith, ltb, ◌==◌, if◌then◌else◌, Bool-cases,
}
use mathlib.Core.List.{reverse, reverse-cons, append_assoc, append-nil}
use native.Mathlib.Nat.{mod-eq_of_lt}
use os2017_lab.Memlayout.{u32_mod}
use os2017_lab.Printf.{
  take, length, is_positive, SprintBuf, sprintputch, feed, vsnprintf, PrintBuf, putch, vcprintf,
}
use os2017_lab.Printf.Number.{length-append}

-- The low byte of a value, without its colour.
abbrev pub byte : ℕ → ℕ
byte c = c % 2 ^ 8

take_suc : (n x : ℕ) (xs : List ℕ) → 0 < n → take n (x ∷ xs) ≡ x ∷ take (n - 1) xs
take_suc zero x xs h = absurd (omega arith)
take_suc (suc n) x xs h = ap (λ (m : ℕ). x ∷ take m xs) (omega arith)

take_zero : (xs : List ℕ) → take 0 xs ≡ []
take_zero [] = refl
take_zero (x ∷ xs) = refl

-- One more byte where the buffer still has room.
pub room_for :
    (w bs : List ℕ) (x room n : ℕ)
    → n < room
    → reverse (x ∷ w) ++ take (room - suc n) bs ≡ reverse w ++ take (room - n) (x ∷ bs)
room_for w bs x room n h =
    let less : room - n - 1 ≡ room - suc n = omega arith in
    let more : take (room - n) (x ∷ bs) ≡ x ∷ take (room - suc n) bs =
      take_suc (room - n) x bs (omega arith) ∙ ap (λ (m : ℕ). x ∷ take m bs) less in
    simp (reverse-cons x w, append_assoc (reverse w) (x ∷ []) (take (room - suc n) bs), more)

pub no_room : (bs cs : List ℕ) (n : ℕ) → n ≡ 0 → take n bs ≡ take n cs
no_room bs cs n h = rw h (take_zero bs ∙ sym (take_zero cs))

sprintputch-written :
    (c : ℕ) (b : SprintBuf)
    → (sprintputch c b).written
      ≡ (if ltb (length b.written) b.room then byte c ∷ b.written else b.written)
unfolding sprintputch
sprintputch-written c b = refl

feed-sprintputch :
    (out : List ℕ) (b : SprintBuf)
    → reverse (feed sprintputch out b).written
      ≡ reverse b.written ++ take (b.room - length b.written) (map byte out)
unfolding sprintputch
feed-sprintputch [] b = sym (append-nil (reverse b.written))
feed-sprintputch (c ∷ cs) b = elim (Bool-cases (ltb (length b.written) b.room)) [
  | inl fits ↦
      let more : (sprintputch c b).written ≡ byte c ∷ b.written =
        sprintputch-written c b ∙ rw fits refl in
      feed-sprintputch cs (sprintputch c b)
      ∙ ap (λ (w : List ℕ). reverse w ++ take (b.room - length w) (map byte cs)) more
      ∙ room_for b.written (map byte cs) (byte c) b.room (length b.written) (ground arith)
  | inr full ↦
      let same : (sprintputch c b).written ≡ b.written = sprintputch-written c b ∙ rw full refl in
      feed-sprintputch cs (sprintputch c b)
      ∙ ap (λ (w : List ℕ). reverse w ++ take (b.room - length w) (map byte cs)) same
      ∙ ap (λ (t : List ℕ). reverse b.written ++ t)
          (no_room (map byte cs) (byte c ∷ map byte cs) (b.room - length b.written) (ground arith))
]

feed-cnt :
    (out : List ℕ) (b : SprintBuf)
    → b.cnt + length out < u32_mod
    → (feed sprintputch out b).cnt ≡ b.cnt + length out
unfolding sprintputch
feed-cnt [] b h = omega arith
feed-cnt (c ∷ cs) b h =
    let small : (b.cnt + 1) % u32_mod ≡ b.cnt + 1 = mod-eq_of_lt (omega arith) in
    ground (arith, feed-cnt cs (sprintputch c b), small)

-- With a buffer of `n` bytes, `n` a positive int, and an output of fewer than 2^32 characters,
-- vsnprintf writes exactly the bytes of the first `n - 1` characters and a 0 after them, and
-- returns how many characters there would have been with enough room.
pub vsnprintf_truncates :
    (n : ℕ) (out : List ℕ)
    → 0 < n
    → n < 2 ^ 31
    → length out < u32_mod
    → vsnprintf false n out ≡ (length out, take (n - 1) (map byte out) ++ 0 ∷ [])
unfolding vsnprintf
vsnprintf_truncates n out some_room int short =
    let go : is_positive n ≡ true = ground arith in
    let b = feed sprintputch out (record { written = []; room = n - 1; cnt = 0 }) in
    let count : b.cnt ≡ length out =
      feed-cnt out (record { written = []; room = n - 1; cnt = 0 }) (omega arith) ∙ omega arith in
    let text : reverse b.written ≡ take (n - 1 - 0) (map byte out) =
      feed-sprintputch out (record { written = []; room = n - 1; cnt = 0 }) in
    let room : n - 1 - 0 ≡ n - 1 = omega arith in
    rw go (simp (reverse-cons 0 b.written, text, count, room))

-- The texts of system calls one after the other.
abbrev pub joined : List (List ℕ) → List ℕ
joined [] = []
joined (t ∷ ts) = t ++ joined ts

-- Texts of at most 255 bytes.
abbrev pub AllShort : List (List ℕ) → Type 0
AllShort [] = Unit
AllShort (t ∷ ts) = (length t ≤ 255) × AllShort ts

joined-append : (ts us : List (List ℕ)) → joined (ts ++ us) ≡ joined ts ++ joined us
joined-append [] us = refl
joined-append (t ∷ ts) us =
    ap (λ (rest : List ℕ). t ++ rest) (joined-append ts us)
    ∙ sym (append_assoc t (joined ts) (joined us))

AllShort-append : (ts us : List (List ℕ)) → AllShort ts → AllShort us → AllShort (ts ++ us)
AllShort-append [] us h k = k
AllShort-append (t ∷ ts) us (first, rest) k = (first, AllShort-append ts us rest k)

AllShort-reverse : (ts : List (List ℕ)) → AllShort ts → AllShort (reverse ts)
AllShort-reverse [] h = tt
AllShort-reverse (t ∷ ts) (first, rest) =
    rw (reverse-cons t ts)
      (AllShort-append (reverse ts) (t ∷ []) (AllShort-reverse ts rest) (first, tt))

pub length-reverse : (xs : List ℕ) → length (reverse xs) ≡ length xs
length-reverse [] = refl
length-reverse (x ∷ xs) =
    ap length (reverse-cons x xs)
    ∙ length-append (reverse xs) (x ∷ [])
    ∙ ground (arith, length-reverse xs)

-- All that the callback of lib/printf.c has got.
abbrev content : PrintBuf → List ℕ
content b = joined (reverse b.flushed) ++ reverse b.buf

abbrev Fits : PrintBuf → Type 0
Fits b = (length b.buf < 255) × AllShort b.flushed

push_text : (ts : List (List ℕ)) (t : List ℕ) → joined (reverse (t ∷ ts)) ≡ joined (reverse ts) ++ t
push_text ts t =
    ap joined (reverse-cons t ts)
    ∙ joined-append (reverse ts) (t ∷ [])
    ∙ ap (λ (rest : List ℕ). joined (reverse ts) ++ rest) (append-nil t)

one_more :
    (text : List ℕ) (x : ℕ) (xs : List ℕ)
    → text ++ reverse (x ∷ xs) ≡ (text ++ reverse xs) ++ x ∷ []
one_more text x xs =
    ap (λ (rest : List ℕ). text ++ rest) (reverse-cons x xs)
    ∙ sym (append_assoc text (reverse xs) (x ∷ []))

putch-content : (c : ℕ) (b : PrintBuf) → content (putch c b) ≡ content b ++ byte c ∷ []
unfolding putch
putch-content c b = elim (Bool-cases (length (byte c ∷ b.buf) == 256 - 1)) [
  | inl full ↦ rw full (
      append-nil (joined (reverse (reverse (byte c ∷ b.buf) ∷ b.flushed)))
      ∙ push_text b.flushed (reverse (byte c ∷ b.buf))
      ∙ one_more (joined (reverse b.flushed)) (byte c) b.buf)
  | inr more ↦ rw more (one_more (joined (reverse b.flushed)) (byte c) b.buf)
]

putch-Fits : (c : ℕ) (b : PrintBuf) → Fits b → Fits (putch c b)
unfolding putch
putch-Fits c b (low, short) = elim (Bool-cases (length (byte c ∷ b.buf) == 256 - 1)) [
  | inl full ↦ rw full (omega arith, (ground (arith, length-reverse (byte c ∷ b.buf)), short))
  | inr more ↦ rw more (ground arith, short)
]

feed-content :
    (out : List ℕ) (b : PrintBuf) → content (feed putch out b) ≡ content b ++ map byte out
feed-content [] b = sym (append-nil (content b))
feed-content (c ∷ cs) b =
    feed-content cs (putch c b)
    ∙ ap (λ (t : List ℕ). t ++ map byte cs) (putch-content c b)
    ∙ append_assoc (content b) (byte c ∷ []) (map byte cs)

feed-Fits : (out : List ℕ) (b : PrintBuf) → Fits b → Fits (feed putch out b)
feed-Fits [] b h = h
feed-Fits (c ∷ cs) b h = feed-Fits cs (putch c b) (putch-Fits c b h)

feed-total :
    (out : List ℕ) (b : PrintBuf)
    → b.total + length out < u32_mod
    → (feed putch out b).total ≡ b.total + length out
unfolding putch
feed-total [] b h = omega arith
feed-total (c ∷ cs) b h =
    let small : (b.total + 1) % u32_mod ≡ b.total + 1 = mod-eq_of_lt (omega arith) in
    ground (arith, feed-total cs (putch c b), small)

-- For an output of fewer than 2^32 characters, the texts that the C library's vcprintf hands to
-- sys_cputs are of at most 255 bytes each, one after the other they are the bytes of the whole
-- output in order, and the result is how many there are.
pub vcprintf_writes_all :
    (out : List ℕ)
    → length out < u32_mod
    → let (count, texts) = vcprintf out in
      (joined texts ≡ map byte out) × AllShort texts × (count ≡ length out)
unfolding vcprintf
vcprintf_writes_all out short =
    let b0 : PrintBuf = record { buf = []; total = 0; flushed = [] } in
    let b = feed putch out b0 in
    let (low, all) = feed-Fits out b0 (omega arith, tt) in
    let last : length (reverse b.buf) ≤ 255 = ground (arith, length-reverse b.buf) in
    (
      push_text b.flushed (reverse b.buf) ∙ feed-content out b0,
      AllShort-reverse (reverse b.buf ∷ b.flushed) (last, all),
      feed-total out b0 (omega arith) ∙ omega arith,
    )
