-- ===== src/Printf/Directives.antt =====
-- vprintfmt of lib/printfmt.c: text between escapes, `%s` and `%d`.
use os2017_lab.Base.{
  ℕ, ◌^◌, ◌<◌, ◌≡◌, ◌≢◌, refl, sym, ap, ◌∙◌, false, List, [], ◌∷◌, ◌++◌, Option, none, some, arith,
  ◌==◌,
}
use mathlib.Core.List.{append_assoc, append-nil}
use os2017_lab.Printf.{
  rounds_of, sub_int, minus_one, length, shown, string_field, no_flags, Args, other_args, plain,
  Printer, getint, signed_decimal, after_text, print_char, switch, print_rest, vprintfmt,
}

abbrev pub NoPercent : List ℕ → Type 0
NoPercent [] = Unit
NoPercent (c ∷ cs) = (c ≢ b'%') × NoPercent cs

-- The printer between two escapes.
abbrev at_text : Args → ℕ → Printer
at_text ws color = record { mode = plain; args = ws; color = color }

after_text-after_text :
    (s t : List ℕ) (rest : Option (List ℕ))
    → after_text s (after_text t rest) ≡ after_text (s ++ t) rest
after_text-after_text s t none = refl
after_text-after_text s t (some out) = ap some (sym (append_assoc s t out))

after_text-nil : (rest : Option (List ℕ)) → after_text [] rest ≡ rest
after_text-nil none = refl
after_text-nil (some out) = refl

print_rest-text :
    (text_at : ℕ → List ℕ) (text fmt : List ℕ) (ws : Args) (color : ℕ)
    → NoPercent text
    → print_rest text_at (text ++ fmt) (at_text ws color)
      ≡ after_text text (print_rest text_at fmt (at_text ws color))
unfolding print_rest print_char
print_rest-text text_at [] fmt ws color h =
    sym (after_text-nil (print_rest text_at fmt (at_text ws color)))
print_rest-text text_at (c ∷ cs) fmt ws color (ordinary, h) =
    let b : c == b'%' ≡ false = ground arith in
    rw (b, print_rest)
      (ap (after_text (c ∷ [])) (print_rest-text text_at cs fmt ws color h)
        ∙ after_text-after_text (c ∷ []) cs (print_rest text_at fmt (at_text ws color)))

print_rest-decimal :
    (text_at : ℕ → List ℕ) (fmt : List ℕ) (ws : Args) (color : ℕ)
    → print_rest text_at (b'%' ∷ b'd' ∷ fmt) (at_text ws color)
      ≡ after_text
          (signed_decimal no_flags (getint 0 ws).0)
          (print_rest text_at fmt (at_text (other_args ws) color))
unfolding print_rest print_char switch getint
print_rest-decimal text_at fmt ws color = after_text-nil (
    after_text (signed_decimal no_flags (getint 0 ws).0)
      (print_rest text_at fmt (at_text (other_args ws) color)))

print_rest-string :
    (text_at : ℕ → List ℕ) (fmt : List ℕ) (ws : Args) (color : ℕ)
    → ws 0 ≢ 0
    → print_rest text_at (b'%' ∷ b's' ∷ fmt) (at_text ws color)
      ≡ after_text
          (string_field no_flags (text_at (ws 0)))
          (print_rest text_at fmt (at_text (other_args ws) color))
unfolding print_rest print_char switch
print_rest-string text_at fmt ws color h =
    let b : ws 0 == 0 ≡ false = ground arith in
    rw b (
      after_text-nil (
        after_text (string_field no_flags (text_at (ws 0)))
          (print_rest text_at fmt (at_text (other_args ws) color))))

shown-all : (text : List ℕ) → shown false text ≡ text
shown-all [] = refl
shown-all (c ∷ cs) = ap (λ (rest : List ℕ). c ∷ rest) (shown-all cs)

-- Without flags, `%s` prints a string as it is.
string_field-no_flags : (text : List ℕ) → length text < 2 ^ 31 → string_field no_flags text ≡ text
unfolding string_field
string_field-no_flags text h =
    let none_left : rounds_of (sub_int minus_one (length text)) ≡ 0 = ground arith in
    simp (shown-all text, none_left, append-nil text)

print_rest-plain :
    (text_at : ℕ → List ℕ) (text : List ℕ) (ws : Args) (color : ℕ)
    → NoPercent text
    → print_rest text_at text (at_text ws color) ≡ some text
unfolding print_rest
print_rest-plain text_at text ws color h =
    ap (λ (t : List ℕ). print_rest text_at t (at_text ws color)) (sym (append-nil text))
    ∙ print_rest-text text_at text [] ws color h
    ∙ ends
  where
    ends : after_text text (print_rest text_at [] (at_text ws color)) ≡ some text
    ends = ap some (append-nil text)

-- For a format of text without `%`, then `%s`, text, `%d` and text, with a string at the first
-- argument, shorter than 2^31, vprintfmt prints the texts and in the place of the escapes the whole
-- string and then the decimal of the second argument.
pub vprintfmt_prints :
    (text_at : ℕ → List ℕ) (pre mid post : List ℕ) (ws : Args)
    → NoPercent pre
    → NoPercent mid
    → NoPercent post
    → ws 0 ≢ 0
    → length (text_at (ws 0)) < 2 ^ 31
    → vprintfmt text_at (pre ++ (b'%' ∷ b's' ∷ (mid ++ (b'%' ∷ b'd' ∷ post)))) ws
      ≡ some (
          pre
          ++ (text_at (ws 0)
              ++ (mid ++ (signed_decimal no_flags (getint 0 (other_args ws)).0 ++ post))))
unfolding vprintfmt
vprintfmt_prints text_at pre mid post ws hpre hmid hpost there short =
    let fmt1 = b'%' ∷ b'd' ∷ post in
    let fmt2 = mid ++ fmt1 in
    let text = text_at (ws 0) in
    let printed1 : print_rest text_at fmt1 (at_text (other_args ws) 0)
        ≡ some (signed_decimal no_flags (getint 0 (other_args ws)).0 ++ post) =
      print_rest-decimal text_at post (other_args ws) 0
      ∙ ap (after_text (signed_decimal no_flags (getint 0 (other_args ws)).0))
          (print_rest-plain text_at post (other_args (other_args ws)) 0 hpost) in
    let printed2 =
      print_rest-text text_at mid fmt1 (other_args ws) 0 hmid ∙ ap (after_text mid) printed1 in
    let printed3 =
      print_rest-string text_at fmt2 ws 0 there
      ∙ ap (λ (t : List ℕ). after_text t (print_rest text_at fmt2 (at_text (other_args ws) 0)))
          (string_field-no_flags text short)
      ∙ ap (after_text text) printed2 in
    print_rest-text text_at pre (b'%' ∷ b's' ∷ fmt2) ws 0 hpre ∙ ap (after_text pre) printed3
