-- ===== src/Prelude/Text.antt =====
-- `format!` on texts and whole numbers.
pub mod Digits
use feynman_engine.Prelude.{
  ℕ, zero, suc, ◌+◌, ◌*◌, ◌^◌, false, Option, none, some, ltb, ◌-◌, ◌/◌, ◌%◌, String, Bool, true,
  ◌&&◌, ◌||◌, leb, ◌==◌, if◌then◌else◌,
}
use feynman_engine.Prelude.Int.{ℤ, pos, negsuc}
use Prim.Native.Char.{Char, code}
pub use Prim.Native.String.{◌++◌}

digit : ℕ → String
digit zero = "0"
digit (suc zero) = "1"
digit (suc (suc zero)) = "2"
digit (suc (suc (suc zero))) = "3"
digit (suc (suc (suc (suc zero)))) = "4"
digit (suc (suc (suc (suc (suc zero))))) = "5"
digit (suc (suc (suc (suc (suc (suc zero)))))) = "6"
digit (suc (suc (suc (suc (suc (suc (suc zero))))))) = "7"
digit (suc (suc (suc (suc (suc (suc (suc (suc zero)))))))) = "8"
digit _ = "9"

-- The digits of `n` in front of `acc`; one round for each digit, so fuel above `n` is enough.
show_digits : ℕ → ℕ → String → String
unfolding digit
show_digits zero n acc = acc
show_digits (suc f) n acc =
    let more = show_digits f (n / 10) (digit (n % 10) ++ acc) in
    if n / 10 == 0 then digit (n % 10) ++ acc else more

unfoldable pub show_ℕ : ℕ → String
unfolding show_digits
show_ℕ n = show_digits (suc n) n ""

-- The number of digits of `n`, with the same fuel.
count_digits : ℕ → ℕ → ℕ
count_digits zero n = 0
count_digits (suc f) n = let more = count_digits f (n / 10) in if n / 10 == 0 then 1 else suc more

zeros : ℕ → String → String
zeros zero text = text
zeros (suc n) text = "0" ++ zeros n text

-- `{:0width}`
unfoldable pub show_padded : ℕ → ℕ → String
unfolding show_ℕ count_digits zeros
show_padded width n = zeros (width - count_digits (suc n) n) (show_ℕ n)

-- `char::is_whitespace`, on the code point.
unfoldable pub is_whitespace : ℕ → Bool
is_whitespace c =
    leb 9 c && leb c 13
    || c == 32
    || c == 133
    || c == 160
    || c == 5760
    || leb 8192 c && leb c 8202
    || c == 8232
    || c == 8233
    || c == 8239
    || c == 8287
    || c == 12288

-- `trim().is_empty()`
unfoldable pub is_blank : String → Bool
unfolding is_whitespace
is_blank String.[] = true
is_blank (String.◌∷◌ c s) = is_whitespace (code c) && is_blank s

unfoldable pub show_ℤ : ℤ → String
show_ℤ (pos n) = show_ℕ n
show_ℤ (negsuc n) = "-" ++ show_ℕ (suc n)

-- `rsplit_once(sep)`, on the code point of the separator: the texts before and after the last one.
abbrev pub put : Char → Option (String × String) → Bool → String → Option (String × String)
put c (some (before, after)) here s = some (String.◌∷◌ c before, after)
put c none true s = some ("", s)
put c none false s = none

unfoldable pub rsplit_once : ℕ → String → Option (String × String)
rsplit_once sep String.[] = none
rsplit_once sep (String.◌∷◌ c s) = put c (rsplit_once sep s) (code c == sep) s

-- The digits of a text after the value of those before.
unfoldable pub parse_from : ℕ → String → Option ℕ
parse_from value String.[] = some value
parse_from value (String.◌∷◌ c s) =
    let more = parse_from (value * 10 + (code c - 48)) s in
    if leb 48 (code c) && leb (code c) 57 then more else none

abbrev parse_nonempty : String → Option ℕ
parse_nonempty String.[] = none
parse_nonempty (String.◌∷◌ c s) = parse_from 0 (String.◌∷◌ c s)

-- The digits, after a `+` if there is one.
abbrev unsigned : String → Option ℕ
unsigned String.[] = none
unsigned (String.◌∷◌ c s) = if code c == 43 then parse_nonempty s else parse_from 0 (String.◌∷◌ c s)

abbrev fitting : ℕ → Option ℕ → Option ℕ
fitting width none = none
fitting width (some value) = if ltb value (2 ^ width) then some value else none

-- `str::parse` into an unsigned integer of `width` bits.
unfoldable pub parse_uint : ℕ → String → Option ℕ
unfolding parse_from
parse_uint width s = fitting width (unsigned s)
