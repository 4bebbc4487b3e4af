-- ===== src/Prelude/Text/Digits.antt =====
-- Printed numbers are parsed back, and the last separator is found behind any text.
use feynman_engine.Prelude.{
  ℕ, zero, suc, ◌+◌, ◌-◌, ◌*◌, ◌/◌, ◌%◌, ◌<◌, ◌^◌, ◌≡◌, refl, ap, ◌∙◌, String, Bool, true, false,
  none, some, leb, lt→ltb, ◌==◌, inl, inr, Bool-cases, arith,
}
use Prim.Native.Char.{Char, code}
use text.Mathlib.TextLemmas.{nil-append, cons-append, append-nil}
use feynman_engine.Prelude.Text.{
  ◌++◌, digit, show_digits, zeros, show_ℕ, show_padded, count_digits, rsplit_once, parse_from,
  parse_uint,
}

abbrev pub is_empty_text : String → Bool
is_empty_text String.[] = true
is_empty_text (String.◌∷◌ c s) = false

pub one-append : (c : Char) (s : String) → String.◌∷◌ c "" ++ s ≡ String.◌∷◌ c s
one-append c s = cons-append c "" s ∙ ap (String.◌∷◌ c) (nil-append s)

parse_from-char :
    (v d : ℕ) (c : Char) (s : String)
    → code c ≡ d + 48
    → d < 10
    → parse_from v (String.◌∷◌ c "" ++ s) ≡ parse_from (v * 10 + d) s
unfolding parse_from
parse_from-char v d c s e h =
    let low : leb 48 (d + 48) ≡ true = ground arith in
    let high : leb (d + 48) 57 ≡ true = ground arith in
    let value : d + 48 - 48 ≡ d = omega arith in rw (one-append c s, e, low, high, value) refl

parse_from-digit :
    (v d : ℕ) (s : String) → d < 10 → parse_from v (digit d ++ s) ≡ parse_from (v * 10 + d) s
unfolding digit
parse_from-digit v zero s h = parse_from-char v 0 "0" s refl h
parse_from-digit v (suc zero) s h = parse_from-char v 1 "1" s refl h
parse_from-digit v (suc (suc zero)) s h = parse_from-char v 2 "2" s refl h
parse_from-digit v (suc (suc (suc zero))) s h = parse_from-char v 3 "3" s refl h
parse_from-digit v (suc (suc (suc (suc zero)))) s h = parse_from-char v 4 "4" s refl h
parse_from-digit v (suc (suc (suc (suc (suc zero))))) s h = parse_from-char v 5 "5" s refl h
parse_from-digit v (suc (suc (suc (suc (suc (suc zero)))))) s h = parse_from-char v 6 "6" s refl h
parse_from-digit v (suc (suc (suc (suc (suc (suc (suc zero))))))) s h =
    parse_from-char v 7 "7" s refl h
parse_from-digit v (suc (suc (suc (suc (suc (suc (suc (suc zero)))))))) s h =
    parse_from-char v 8 "8" s refl h
parse_from-digit v (suc (suc (suc (suc (suc (suc (suc (suc (suc n))))))))) s h =
    let zero_left : n ≡ 0 = omega arith in
    rw zero_left (parse_from-char v 9 "9" s refl (omega arith))

first_digit : (n : ℕ) (s : String) → n < 10 → parse_from 0 (digit (n % 10) ++ s) ≡ parse_from n s
first_digit n s h =
    let value : 0 * 10 + n % 10 ≡ n = omega arith in
    parse_from-digit 0 (n % 10) s (omega arith) ∙ ap (λ k. parse_from k s) value

parse_from-show_digits :
    (f n : ℕ) (s : String) → n < f → parse_from 0 (show_digits f n s) ≡ parse_from n s
unfolding show_digits
parse_from-show_digits zero n s h = absurd (omega arith)
parse_from-show_digits (suc f) n s h =
    let value : n / 10 * 10 + n % 10 ≡ n = omega arith in
    elim (Bool-cases (n / 10 == 0)) [
      | inl done ↦ rw done (first_digit n s (ground arith))
      | inr more ↦ rw more (
          parse_from-show_digits f (n / 10) (digit (n % 10) ++ s) (ground arith)
          ∙ parse_from-digit (n / 10) (n % 10) s (omega arith)
          ∙ ap (λ k. parse_from k s) value)
    ]

parse_from-zeros : (k : ℕ) (s : String) → parse_from 0 (zeros k s) ≡ parse_from 0 s
unfolding zeros
parse_from-zeros zero s = refl
parse_from-zeros (suc k) s =
    parse_from-char 0 0 "0" (zeros k s) refl (omega arith) ∙ parse_from-zeros k s

pub parse_from-show_ℕ : (n : ℕ) → parse_from 0 (show_ℕ n) ≡ some n
unfolding show_ℕ parse_from
parse_from-show_ℕ n = parse_from-show_digits (suc n) n "" (omega arith)

pub parse_from-show_padded : (width n : ℕ) → parse_from 0 (show_padded width n) ≡ some n
unfolding show_padded
parse_from-show_padded width n =
    parse_from-zeros (width - count_digits (suc n) n) (show_ℕ n) ∙ parse_from-show_ℕ n

-- A printed number has a digit.
append-is_empty_text : (x s : String) → is_empty_text x ≡ false → is_empty_text (x ++ s) ≡ false
append-is_empty_text String.[] s h = absurd (ground arith)
append-is_empty_text (String.◌∷◌ c x) s h = rw (cons-append c x s) refl

is_empty_text-digit : (d : ℕ) → is_empty_text (digit d) ≡ false
unfolding digit
is_empty_text-digit zero = refl
is_empty_text-digit (suc zero) = refl
is_empty_text-digit (suc (suc zero)) = refl
is_empty_text-digit (suc (suc (suc zero))) = refl
is_empty_text-digit (suc (suc (suc (suc zero)))) = refl
is_empty_text-digit (suc (suc (suc (suc (suc zero))))) = refl
is_empty_text-digit (suc (suc (suc (suc (suc (suc zero)))))) = refl
is_empty_text-digit (suc (suc (suc (suc (suc (suc (suc zero))))))) = refl
is_empty_text-digit (suc (suc (suc (suc (suc (suc (suc (suc zero)))))))) = refl
is_empty_text-digit (suc (suc (suc (suc (suc (suc (suc (suc (suc n))))))))) = refl

show_digits-is_empty_text :
    (f n : ℕ) (s : String) → is_empty_text s ≡ false → is_empty_text (show_digits f n s) ≡ false
unfolding show_digits
show_digits-is_empty_text zero n s h = h
show_digits-is_empty_text (suc f) n s h =
    let first = append-is_empty_text (digit (n % 10)) s (is_empty_text-digit (n % 10)) in
    let more = show_digits-is_empty_text f (n / 10) (digit (n % 10) ++ s) first in
    elim (Bool-cases (n / 10 == 0)) [ inl done ↦ rw done first | inr later ↦ rw later more ]

zeros-is_empty_text :
    (k : ℕ) (s : String) → is_empty_text s ≡ false → is_empty_text (zeros k s) ≡ false
unfolding zeros
zeros-is_empty_text zero s h = h
zeros-is_empty_text (suc k) s h = append-is_empty_text "0" (zeros k s) refl

show_ℕ-is_empty_text : (n : ℕ) → is_empty_text (show_ℕ n) ≡ false
unfolding show_ℕ show_digits
show_ℕ-is_empty_text n =
    let first = append-is_empty_text (digit (n % 10)) "" (is_empty_text-digit (n % 10)) in
    let more = show_digits-is_empty_text n (n / 10) (digit (n % 10) ++ "") first in
    elim (Bool-cases (n / 10 == 0)) [ inl done ↦ rw done first | inr later ↦ rw later more ]

-- Digits hold no separator.
pub parse_from-rsplit_once :
    (sep v w : ℕ) (s : String) → sep < 48 → parse_from v s ≡ some w → rsplit_once sep s ≡ none
unfolding parse_from rsplit_once
parse_from-rsplit_once sep v w String.[] h e = refl
parse_from-rsplit_once sep v w (String.◌∷◌ c s) h e =
    let later = parse_from-rsplit_once sep (v * 10 + (code c - 48)) w s h in ground (arith, later)

-- What is parsed digit by digit is parsed as a number, if it fits.
parse_uint-parse_from :
    (width v : ℕ) (s : String)
    → parse_from 0 s ≡ some v
    → is_empty_text s ≡ false
    → v < 2 ^ width
    → parse_uint width s ≡ some v
unfolding parse_uint parse_from
parse_uint-parse_from width v String.[] e h b = ground arith
parse_uint-parse_from width v (String.◌∷◌ c s) e h b = ground (arith, lt→ltb v (2 ^ width) b)

pub parse_uint-show_padded :
    (bits width n : ℕ) → n < 2 ^ bits → parse_uint bits (show_padded width n) ≡ some n
unfolding show_padded
parse_uint-show_padded bits width n h =
    parse_uint-parse_from bits n (show_padded width n) (parse_from-show_padded width n)
      (zeros-is_empty_text (width - count_digits (suc n) n) (show_ℕ n) (show_ℕ-is_empty_text n)) h

pub rsplit_once-append :
    (sep : ℕ) (x s before after : String)
    → rsplit_once sep s ≡ some (before, after)
    → rsplit_once sep (x ++ s) ≡ some (x ++ before, after)
unfolding rsplit_once
rsplit_once-append sep String.[] s before after h = rw (nil-append s, nil-append before) h
rsplit_once-append sep (String.◌∷◌ c x) s before after h =
    rw (cons-append c x s, cons-append c x before, rsplit_once-append sep x s before after h) refl

-- What stands behind the last separator.
pub rsplit_once-sep :
    (sep : ℕ) (c : Char) (x s : String)
    → code c ≡ sep
    → rsplit_once sep s ≡ none
    → rsplit_once sep (x ++ (String.◌∷◌ c "" ++ s)) ≡ some (x, s)
unfolding rsplit_once
rsplit_once-sep sep c x s e h =
    let found : rsplit_once sep (String.◌∷◌ c s) ≡ some ("", s) = ground (arith, h) in
    rw (one-append c s)
      (rsplit_once-append sep x (String.◌∷◌ c s) "" s found ∙ ap (λ t. some (t, s)) (append-nil x))
