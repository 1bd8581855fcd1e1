-- ===== src/Console/Ring.antt =====
-- The console input buffer of kern/console.c as a queue of characters.
use os2017_lab.Base.{
  ℕ, zero, suc, ◌+◌, ◌-◌, ◌%◌, ◌^◌, ◌<◌, ◌≡◌, ◌≢◌, refl, ap, ◌∙◌, false, true, List, [], ◌∷◌, ◌++◌,
  arith, ◌==◌, if◌then◌else◌,
}
use mathlib.Core.Path.{ap₂}
use native.Mathlib.Decide.{ℕ_discrete}
use os2017_lab.Base.Arrays.{update}
use os2017_lab.Kernel.{Cons}
use os2017_lab.Console.{consbufsize, advance, put_char, take_char}

-- `n` characters from position `p` on, going round.
unfoldable pub slice : (ℕ → ℕ) → ℕ → ℕ → List ℕ
slice buf p zero = []
slice buf p (suc n) = buf p ∷ slice buf (advance p) n

unfoldable pub count : Cons → ℕ
count b = (b.wpos + consbufsize - b.rpos) % consbufsize

-- The characters that wait, oldest first.
unfoldable pub queue : Cons → List ℕ
queue b = slice b.buf b.rpos (count b)

-- Both positions lie in the buffer.
pub record IsRing (b : Cons) : Type 0 where
  pub read_in : b.rpos < consbufsize
  pub write_in : b.wpos < consbufsize

abbrev spot : ℕ → ℕ → ℕ
spot p n = (p + n) % consbufsize

slice-append :
    (buf : ℕ → ℕ) (p n v : ℕ)
    → p < consbufsize
    → n < consbufsize
    → slice (update buf (spot p n) v) p (suc n) ≡ slice buf p n ++ v ∷ []
unfolding slice
slice-append buf p zero v h r =
    let here : update buf (spot p 0) v p ≡ v = ground arith in ap (λ c. c ∷ []) here
slice-append buf p (suc n) v h r =
    let same : spot p (suc n) ≡ spot (advance p) n = ground arith in
    let kept : update buf (spot p (suc n)) v p ≡ buf p = ground arith in
    ap₂ ◌∷◌ kept (
      ap (λ s. slice (update buf s v) (advance p) (suc n)) same
      ∙ slice-append buf (advance p) n v (ground arith) (omega arith))

slice-write :
    (buf : ℕ → ℕ) (p w n n' v : ℕ)
    → p < consbufsize
    → n < consbufsize
    → w ≡ spot p n
    → n' ≡ suc n
    → slice (update buf w v) p n' ≡ slice buf p n ++ v ∷ []
slice-write buf p w n n' v h r at more = rw (at, more) (slice-append buf p n v h r)

-- With both positions inside the buffer, which they stay: a character other than 0 joins the end of
-- the queue while fewer than 511 wait. The character that comes when 511 wait makes the buffer read
-- as empty: all of them are lost.
pub put_char_appends :
    (b : Cons) (c : ℕ)
    → IsRing b
    → c ≢ 0
    → (queue (put_char c b) ≡ (if count b == 511 then [] else queue b ++ (c % 2 ^ 8) ∷ []))
      × IsRing (put_char c b)
unfolding put_char queue count slice
put_char_appends b c ring char =
    let test : (c == 0) ≡ false = ground arith in
    (
      elim (ℕ_discrete (count b) 511) [
        | yes full ↦
            let all : (count b == 511) ≡ true = ground arith in
            let gone : (advance b.wpos + consbufsize - b.rpos) % consbufsize ≡ 0 = ground arith in
            rw all (rw (test, gone))
        | no room ↦
            let some_room : (count b == 511) ≡ false = ground arith in
            rw some_room (
              rw test (
                slice-write b.buf b.rpos b.wpos (count b) _ (c % 2 ^ 8) ring.read_in (omega arith)
                  (omega arith) (ground arith)))
      ],
      record { read_in = ground arith; write_in = ground arith },
    )

slice-empty : (buf : ℕ → ℕ) (p n c : ℕ) (cs : List ℕ) → n ≡ 0 → slice buf p n ≢ c ∷ cs
unfolding slice
slice-empty buf p zero c cs e = ground arith
slice-empty buf p (suc n) c cs e = absurd (omega arith)

slice-nonempty : (buf : ℕ → ℕ) (p n : ℕ) → 0 < n → slice buf p n ≢ []
unfolding slice
slice-nonempty buf p zero h e = absurd (omega arith)
slice-nonempty buf p (suc n) h e = ground arith

slice-cons :
    (buf : ℕ → ℕ) (p n n' c : ℕ) (cs : List ℕ)
    → n ≡ suc n'
    → slice buf p n ≡ c ∷ cs
    → (buf p ≡ c) × (slice buf (advance p) n' ≡ cs)
unfolding slice
slice-cons buf p zero n' c cs e l = absurd (omega arith)
slice-cons buf p (suc n) n' c cs e l = let same : n ≡ n' = omega arith in rw (← same) (ground arith)

-- The oldest character, 0 where none waits, and the others.
abbrev pub first : List ℕ → ℕ
first [] = 0
first (x ∷ xs) = x

abbrev pub rest : List ℕ → List ℕ
rest [] = []
rest (x ∷ xs) = xs

-- With both positions inside the buffer, which they stay: reading takes the oldest character off;
-- at an empty queue it answers 0 and leaves it empty.
pub take_char_pops :
    (b : Cons) (xs : List ℕ)
    → IsRing b
    → queue b ≡ xs
    → ((take_char b).0 ≡ first xs) × (queue (take_char b).1 ≡ rest xs) × IsRing (take_char b).1
unfolding take_char queue count
take_char_pops b [] ring empty = elim (ℕ_discrete b.rpos b.wpos) [
  | yes none_left ↦
      let test : (b.rpos == b.wpos) ≡ true = ground arith in rw test (refl, empty, ring)
  | no left ↦ absurd (slice-nonempty b.buf b.rpos (count b) (omega arith) empty)
]
take_char_pops b (c ∷ cs) ring waiting = elim (ℕ_discrete b.rpos b.wpos) [
  | yes none_left ↦
      let zero_left : count b ≡ 0 = omega arith in
      absurd (slice-empty b.buf b.rpos (count b) c cs zero_left waiting)
  | no left ↦
      let test : (b.rpos == b.wpos) ≡ false = ground arith in
      let parts =
        slice-cons b.buf b.rpos (count b) ((b.wpos + consbufsize - advance b.rpos) % consbufsize) c
          cs (ground arith) waiting in
      rw test (parts.0, parts.1, record { read_in = ground arith; write_in = ring.write_in })
]
