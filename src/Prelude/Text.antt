-- ===== src/Prelude/Text.antt =====
-- Rust's `str` and `String` as lists of code points, with the methods that the gateway calls.
use Prim.Native.Char.{code}
use Prim.Native.Nat.{ℕ, zero, suc, ◌+◌, ◌-◌, ◌*◌, ◌/◌, ◌%◌, ◌^◌}
use Prim.Native.String.{String}
use mathlib.Core.Bool.{Bool, true, false, ◌&&◌, ◌||◌}
use mathlib.Core.List.{List, [], ◌∷◌, map, reverse}
use mathlib.Core.Logic.{◌↔◌}
use mathlib.Core.Option.{Option, none, some}
use mathlib.Core.Path.{◌≡◌, refl}
use native.Mathlib.Omega.{arith}
use stateform.Prelude.Tests.{ltb, leb, ◌==◌, if◌then◌else◌}

abbrev pub Str : Type 0
Str = List ℕ

-- A literal of the source.
abbrev pub codes : String → Str
codes String.[] = []
codes (String.◌∷◌ c s) = code c ∷ codes s

unfoldable pub str_eq : Str → Str → Bool
str_eq [] [] = true
str_eq [] (y ∷ ys) = false
str_eq (x ∷ xs) [] = false
str_eq (x ∷ xs) (y ∷ ys) = x == y && str_eq xs ys

pub str_eq_iff : (s t : Str) → (str_eq s t ≡ true) ↔ (s ≡ t)
unfolding str_eq
str_eq_iff [] [] = ground arith
str_eq_iff [] (y ∷ ys) = ground arith
str_eq_iff (x ∷ xs) [] = ground arith
str_eq_iff (x ∷ xs) (y ∷ ys) = ground (arith, str_eq_iff xs ys)

pub str_eq_self : (s : Str) → str_eq s s ≡ true
str_eq_self s = (str_eq_iff s s).1 refl

-- `s < t` in `str`'s order: bytes of UTF-8 and code points order texts alike.
unfoldable pub str_ltb : Str → Str → Bool
str_ltb [] [] = false
str_ltb [] (y ∷ ys) = true
str_ltb (x ∷ xs) [] = false
str_ltb (x ∷ xs) (y ∷ ys) = ltb x y || x == y && str_ltb xs ys

abbrev pub is_upper : ℕ → Bool
is_upper c = leb b'A' c && leb c b'Z'

abbrev pub is_lower : ℕ → Bool
is_lower c = leb b'a' c && leb c b'z'

abbrev pub ascii_lower : ℕ → ℕ
ascii_lower c = if is_upper c then c + 32 else c

abbrev pub ascii_upper : ℕ → ℕ
ascii_upper c = if is_lower c then c - 32 else c

abbrev pub to_ascii_lowercase : Str → Str
to_ascii_lowercase = map ascii_lower

abbrev pub to_ascii_uppercase : Str → Str
to_ascii_uppercase = map ascii_upper

abbrev pub eq_ignore_ascii_case : Str → Str → Bool
eq_ignore_ascii_case s t = str_eq (to_ascii_lowercase s) (to_ascii_lowercase t)

-- `char::is_whitespace`
abbrev pub is_whitespace : ℕ → Bool
is_whitespace c =
    leb 9 c && leb c 13
    || c == 32
    || c == 0x85
    || c == 0xa0
    || c == 0x1680
    || leb 0x2000 c && leb c 0x200a
    || c == 0x2028
    || c == 0x2029
    || c == 0x202f
    || c == 0x205f
    || c == 0x3000

unfoldable pub trim_start_matches : (ℕ → Bool) → Str → Str
trim_start_matches p [] = []
trim_start_matches p (c ∷ s) = if p c then trim_start_matches p s else c ∷ s

unfoldable pub trim : Str → Str
unfolding trim_start_matches
trim s = reverse (trim_start_matches is_whitespace (reverse (trim_start_matches is_whitespace s)))

abbrev pub is_empty : Str → Bool
is_empty [] = true
is_empty (c ∷ s) = false

-- `s.split(sep)`: the part before the first separator, and the parts after it.
abbrev pub add_to_first : ℕ → List Str → List Str
add_to_first c [] = (c ∷ []) ∷ []
add_to_first c (p ∷ ps) = (c ∷ p) ∷ ps

unfoldable pub split : ℕ → Str → List Str
split sep [] = [] ∷ []
split sep (c ∷ s) = if c == sep then [] ∷ split sep s else add_to_first c (split sep s)

abbrev pub add_word : Str → List Str → List Str
add_word [] words = words
add_word (c ∷ s) words = (c ∷ s) ∷ words

-- The words of a text, with the reversed part of the word that is being read.
unfoldable pub words_from : Str → Str → List Str
words_from word [] = add_word (reverse word) []
words_from word (c ∷ s) =
    let here = words_from [] s in
    let longer = words_from (c ∷ word) s in
    if is_whitespace c then add_word (reverse word) here else longer

-- `s.split_whitespace()`
unfoldable pub split_whitespace : Str → List Str
unfolding words_from
split_whitespace s = words_from [] s

unfoldable pub strip_prefix : Str → Str → Option Str
strip_prefix [] s = some s
strip_prefix (p ∷ ps) [] = none
strip_prefix (p ∷ ps) (c ∷ s) = if p == c then strip_prefix ps s else none

abbrev pub is_some {ℓ} : {A : Type ℓ} → Option A → Bool
is_some none = false
is_some (some a) = true

-- `s.contains(pattern)`
unfoldable pub contains : Str → Str → Bool
unfolding strip_prefix
contains [] pattern = is_some (strip_prefix pattern [])
contains (c ∷ s) pattern = is_some (strip_prefix pattern (c ∷ s)) || contains s pattern

abbrev pub is_digit : ℕ → Bool
is_digit c = leb b'0' c && leb c b'9'

-- The digits read so far come to `acc`; `none` on another character or above `u64::MAX`.
unfoldable pub parse_digits : ℕ → Str → Option ℕ
parse_digits acc [] = some acc
parse_digits acc (c ∷ s) =
    let next = acc * 10 + (c - b'0') in
    let rest = parse_digits next s in if is_digit c && ltb next (2 ^ 64) then rest else none

abbrev pub parse_unsigned : Str → Option ℕ
parse_unsigned [] = none
parse_unsigned (c ∷ s) = parse_digits 0 (c ∷ s)

-- `s.parse::<u64>().ok()`: one leading `+` is allowed, and there is at least one digit.
unfoldable pub parse_u64 : Str → Option ℕ
unfolding parse_digits
parse_u64 [] = none
parse_u64 (c ∷ s) = if c == b'+' then parse_unsigned s else parse_digits 0 (c ∷ s)

-- The decimal digits before `after`, at most `width` of them; `to_string` of a `u64` has 20 at most.
unfoldable pub digits_before : ℕ → ℕ → Str → Str
digits_before zero n after = after
digits_before (suc width) n after =
    let rest = digits_before width (n / 10) ((b'0' + n % 10) ∷ after) in
    if ltb n 10 then (b'0' + n) ∷ after else rest

unfoldable pub show_nat : ℕ → Str
unfolding digits_before
show_nat n = digits_before 20 n []
