-- ===== src/Common/Text.antt =====
-- Texts as the program takes them apart: trimming, and the bytes of UTF-8.
use Prim.Native.Char.{Char, code}
use Prim.Native.Nat.{ℕ, ◌+◌, ◌-◌, ◌*◌, ◌/◌, ◌%◌}
use Prim.Native.String.{String, [], ◌∷◌, ◌++◌}
use text.Mathlib.Text
use text.Mathlib.Text.{find?}
use mathlib.Core.Bool.{Bool, true, false, ◌&&◌, ◌||◌}
use mathlib.Core.Option.{Option, none, some}
use mathlib.Core.List.{List}
use linuxpracticelab.Common.Tests.{ltb, leb, ◌==◌, if◌then◌else◌}

-- `char::is_whitespace`.
abbrev pub is_whitespace : ℕ → Bool
is_whitespace c =
    leb 9 c && leb c 13
    || c == 32
    || c == 133
    || c == 160
    || c == 5760
    || leb 8192 c && leb c 8202
    || c == 8232
    || c == 8233
    || c == 8239
    || c == 8287
    || c == 12288

abbrev pub is_blank : String → Bool
is_blank [] = true
is_blank (c ∷ s) = false

unfoldable pub trim_front : String → String
trim_front [] = []
trim_front (c ∷ s) = let rest = trim_front s in if is_whitespace (code c) then rest else c ∷ s

unfoldable pub trim_back : String → String
trim_back [] = []
trim_back (c ∷ s) =
    let rest = trim_back s in if is_blank rest && is_whitespace (code c) then [] else c ∷ rest

abbrev pub trim : String → String
trim s = trim_back (trim_front s)

abbrev encode : ℕ → List ℕ → List ℕ
encode c rest =
    if ltb c 128
    then List.◌∷◌ c rest
    else (if ltb c 2048
        then List.◌∷◌ (192 + c / 64) (List.◌∷◌ (128 + c % 64) rest)
        else (if ltb c 65536
            then List.◌∷◌ (224 + c / 4096)
                (List.◌∷◌ (128 + c / 64 % 64) (List.◌∷◌ (128 + c % 64) rest))
            else List.◌∷◌ (240 + c / 262144) (
                List.◌∷◌ (128 + c / 4096 % 64)
                  (List.◌∷◌ (128 + c / 64 % 64) (List.◌∷◌ (128 + c % 64) rest)))))

-- `str::as_bytes`.
unfoldable pub as_bytes : String → List ℕ
as_bytes [] = List.[]
as_bytes (c ∷ s) = encode (code c) (as_bytes s)

-- `contains`, by the position of the first occurrence.
abbrev is_found : Option ℕ → Bool
is_found none = false
is_found (some i) = true

abbrev pub contains : String → String → Bool
contains s t = is_found (find? s t)

unfoldable pub starts_with : String → String → Bool
starts_with s [] = true
starts_with [] (d ∷ t) = false
starts_with (c ∷ s) (d ∷ t) = code c == code d && starts_with s t

-- `strip_prefix`
unfoldable pub strip_prefix : String → String → Option String
strip_prefix s [] = some s
strip_prefix [] (d ∷ t) = none
strip_prefix (c ∷ s) (d ∷ t) =
    let rest = strip_prefix s t in if code c == code d then rest else none

abbrev extend : Char → List String → List String
extend c List.[] = List.◌∷◌ (c ∷ []) List.[]
extend c (List.◌∷◌ s ss) = List.◌∷◌ (c ∷ s) ss

-- `split` at a character, given by its code.
unfoldable pub split : ℕ → String → List String
split sep [] = List.◌∷◌ [] List.[]
split sep (c ∷ s) =
    let rest = split sep s in if code c == sep then List.◌∷◌ [] rest else extend c rest

abbrev before_too : Char → Option (String × String) → Option (String × String)
before_too c none = none
before_too c (some (before, after)) = some (c ∷ before, after)

-- `split_once` at a character.
unfoldable pub split_once : ℕ → String → Option (String × String)
split_once sep [] = none
split_once sep (c ∷ s) =
    let rest = before_too c (split_once sep s) in if code c == sep then some ([], s) else rest

abbrev pub is_same : String → String → Bool
is_same s t = text.Mathlib.Text.◌==◌ s t

unfoldable pub ends_with : String → String → Bool
ends_with [] t = is_same [] t
ends_with (c ∷ s) t = is_same (c ∷ s) t || ends_with s t

-- `lines`: a line ends at a newline, which takes a carriage return before it along.
unfoldable pub lines : String → List String
lines [] = List.[]
lines (c ∷ s) =
    let rest = lines s in
    if code c == 10
    then List.◌∷◌ [] rest
    else (if code c == 13 && starts_with s "\n" then rest else extend c rest)

abbrev ends_word : String → Bool
ends_word [] = true
ends_word (c ∷ s) = is_whitespace (code c)

unfoldable pub split_whitespace : String → List String
split_whitespace [] = List.[]
split_whitespace (c ∷ s) =
    let rest = split_whitespace s in
    if is_whitespace (code c)
    then rest
    else (if ends_word s then List.◌∷◌ (c ∷ []) rest else extend c rest)

unfoldable pub join : String → List String → String
join sep List.[] = []
join sep (List.◌∷◌ s List.[]) = s
join sep (List.◌∷◌ s (List.◌∷◌ t ts)) = s ++ (sep ++ join sep (List.◌∷◌ t ts))

abbrev lower : ℕ → ℕ
lower c = if leb 65 c && leb c 90 then c + 32 else c

unfoldable pub eq_ignore_ascii_case : String → String → Bool
eq_ignore_ascii_case [] [] = true
eq_ignore_ascii_case [] (d ∷ t) = false
eq_ignore_ascii_case (c ∷ s) [] = false
eq_ignore_ascii_case (c ∷ s) (d ∷ t) = lower (code c) == lower (code d) && eq_ignore_ascii_case s t

-- The digits of a number below a limit, from the value so far; `none` for another character or an
-- overflow.
unfoldable pub digits_from : ℕ → ℕ → ℕ → String → Option ℕ
digits_from base limit value [] = some value
digits_from base limit value (c ∷ s) =
    let next = value * base + (code c - 48) in
    let rest = digits_from base limit next s in
    if leb 48 (code c) && ltb (code c) (48 + base) && ltb next limit then rest else none

-- `parse` of an unsigned type and `from_str_radix` for a base up to ten: a `+` may stand before the
-- digits, and there is a digit.
unfoldable pub parse_digits : ℕ → ℕ → String → Option ℕ
parse_digits base limit [] = none
parse_digits base limit (c ∷ []) = digits_from base limit 0 (c ∷ [])
parse_digits base limit (c ∷ d ∷ s) =
    if code c == 43 then digits_from base limit 0 (d ∷ s) else digits_from base limit 0 (c ∷ d ∷ s)
