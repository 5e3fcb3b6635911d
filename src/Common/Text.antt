-- ===== src/Common/Text.antt =====
-- What the program uses of JavaScript's strings: `trim`, and the test for a blank text.
use Prim.Native.Nat.{zero, suc, ◌+◌, ◌/◌, ◌%◌}
use Prim.Native.String.{◌++◌ as str_append}
use mathlib.Core.List.{List, [], ◌∷◌}
use Prim.Native.Char.{Char, code}
use Prim.Native.String.{String}
use digital_employee.Common.Tests.{leb, ◌==◌, if◌then◌else◌}
use Prim.Native.Nat.{ℕ}
use mathlib.Core.Bool.{Bool, true, false, ◌&&◌, ◌||◌}
use digital_employee.Common.{suc, ltb}

-- ECMAScript's white space and line terminators.
is_space : ℕ → Bool
is_space c =
    (leb 9 c && leb c 13)
    || c == 32
    || c == 160
    || c == 0x1680
    || (leb 0x2000 c && leb c 0x200a)
    || c == 0x2028
    || c == 0x2029
    || c == 0x202f
    || c == 0x205f
    || c == 0x3000
    || c == 0xfeff

-- `s.trim().length === 0`
unfoldable pub is_blank : String → Bool
unfolding is_space
is_blank String.[] = true
is_blank (String.◌∷◌ c s) = is_space (code c) && is_blank s

abbrev pub is_empty : String → Bool
is_empty String.[] = true
is_empty (String.◌∷◌ c s) = false

unfoldable pub trim_start : String → String
unfolding is_space
trim_start String.[] = String.[]
trim_start (String.◌∷◌ c s) =
    let rest = trim_start s in if is_space (code c) then rest else String.◌∷◌ c s

unfoldable pub trim_end : String → String
unfolding is_space
trim_end String.[] = String.[]
trim_end (String.◌∷◌ c s) =
    let rest = trim_end s in
    if is_space (code c) && is_empty rest then String.[] else String.◌∷◌ c rest

-- `s.trim()`
unfoldable pub trim : String → String
unfolding trim_start trim_end
trim s = trim_end (trim_start s)

-- `s.length`: a code point beyond the basic plane is two units.
unfoldable pub utf16_length : String → ℕ
utf16_length String.[] = 0
utf16_length (String.◌∷◌ c s) =
    let rest = utf16_length s in if ltb 0xffff (code c) then suc (suc rest) else suc rest

-- Every character is in the class.
unfoldable pub every_char : (ℕ → Bool) → String → Bool
every_char p String.[] = true
every_char p (String.◌∷◌ c s) = p (code c) && every_char p s

-- `[A-Za-z0-9]`
abbrev pub is_alphanumeric : ℕ → Bool
is_alphanumeric c = (leb 65 c && leb c 90) || (leb 97 c && leb c 122) || (leb 48 c && leb c 57)

digit : ℕ → String
digit n =
    if n == 0
    then "0"
    else if n == 1
    then "1"
    else if n == 2
    then "2"
    else if n == 3
    then "3"
    else if n == 4
    then "4"
    else if n == 5
    then "5"
    else if n == 6
    then "6"
    else if n == 7
    then "7"
    else if n == 8
    then "8"
    else "9"

decimal_of : ℕ → ℕ → String
decimal_of zero n = digit (n % 10)
decimal_of (suc fuel) n =
    let rest = decimal_of fuel (n / 10) in
    if ltb n 10 then digit n else str_append rest (digit (n % 10))

-- The decimal text of a number: `n` rounds are enough for its digits.
unfoldable pub decimal : ℕ → String
unfolding decimal_of digit
decimal n = decimal_of n n

-- A template string: its parts, one after the other.
unfoldable pub concat : List String → String
concat [] = String.[]
concat (s ∷ parts) = str_append s (concat parts)

-- `s.startsWith(p)`
unfoldable pub starts_with : String → String → Bool
starts_with s String.[] = true
starts_with String.[] (String.◌∷◌ d p) = false
starts_with (String.◌∷◌ c s) (String.◌∷◌ d p) = code c == code d && starts_with s p

-- `s.endsWith("c")`
unfoldable pub ends_with_char : ℕ → String → Bool
ends_with_char x String.[] = false
ends_with_char x (String.◌∷◌ c s) =
    let rest = ends_with_char x s in if is_empty s then code c == x else rest

-- The text without its last character.
unfoldable pub drop_last : String → String
drop_last String.[] = String.[]
drop_last (String.◌∷◌ c s) =
    let rest = drop_last s in if is_empty s then String.[] else String.◌∷◌ c rest

-- `s.slice(n)`
unfoldable pub drop : ℕ → String → String
drop zero s = s
drop (suc n) String.[] = String.[]
drop (suc n) (String.◌∷◌ c s) = drop n s

unfoldable pub includes_char : ℕ → String → Bool
includes_char x String.[] = false
includes_char x (String.◌∷◌ c s) = code c == x || includes_char x s

-- A character in front of the first of the parts.
abbrev pub extend : Char → List String → List String
extend c [] = String.◌∷◌ c String.[] ∷ []
extend c (part ∷ parts) = String.◌∷◌ c part ∷ parts

-- `s.split("c")`
unfoldable pub split_on : ℕ → String → List String
split_on x String.[] = String.[] ∷ []
split_on x (String.◌∷◌ c s) =
    let rest = split_on x s in if code c == x then String.[] ∷ rest else extend c rest

-- `parts.join(separator)`
unfoldable pub join : String → List String → String
join separator [] = String.[]
join separator (part ∷ []) = part
join separator (part ∷ rest ∷ parts) =
    str_append part (str_append separator (join separator (rest ∷ parts)))

-- `Buffer.byteLength(s, "utf8")`
unfoldable pub utf8_length : String → ℕ
utf8_length String.[] = 0
utf8_length (String.◌∷◌ c s) =
    let rest = utf8_length s in
    if ltb (code c) 0x80
    then suc rest
    else if ltb (code c) 0x800
    then suc (suc rest)
    else if ltb (code c) 0x10000
    then suc (suc (suc rest))
    else suc (suc (suc (suc rest)))

-- Texts are ordered by their UTF-16 units: the surrogates stand before the rest of the basic plane.
abbrev unit_rank : ℕ → ℕ
unit_rank c = if leb 0xe000 c && leb c 0xffff then c + 0x110000 else c

-- `s <= t`
unfoldable pub string_le : String → String → Bool
string_le String.[] t = true
string_le (String.◌∷◌ c s) String.[] = false
string_le (String.◌∷◌ c s) (String.◌∷◌ d t) =
    let rest = string_le s t in
    if ltb (unit_rank (code c)) (unit_rank (code d))
    then true
    else if unit_rank (code c) == unit_rank (code d)
    then rest
    else false

abbrev pub is_figure : ℕ → Bool
is_figure c = leb 48 c && leb c 57

-- The text begins with a pattern, which is read one letter after the other: 0 stands for a figure.
unfoldable pub fits : List ℕ → String → Bool
fits [] s = true
fits (p ∷ letters) String.[] = false
fits (p ∷ letters) (String.◌∷◌ c s) =
    (if p == 0 then is_figure (code c) else code c == p) && fits letters s
