-- ===== src/SharedTypes/Registry/Values.antt =====
-- crates/shared-types/src/registry.rs, check_value: what the types of parameters admit, where the
-- value holds no validators itself.
use Prim.Native.Char.{code}
use Prim.Native.String.{String, [], ◌∷◌, len}
use linuxpracticelab.Common.{
  ℕ, ◌+◌, ◌-◌, ◌*◌, ◌^◌, Bool, true, false, ◌&&◌, ◌||◌, Option, none, some, ltb, leb, ◌==◌,
  if◌then◌else◌,
}
use linuxpracticelab.SharedTypes.Json.{Json, Number, Items}

-- `as_i64` of a number: `serde_json` keeps an `i64` below zero and a `u64` above.
abbrev pub is_i64 : Number → Bool
is_i64 (Number.pos_int n) = ltb n (2 ^ 63)
is_i64 (Number.neg_int n) = ltb n (2 ^ 63)
is_i64 (Number.float text) = false

abbrev pub is_integer : Json → Bool
is_integer (Json.number n) = is_i64 n
is_integer _ = false

-- `(1..=65535).contains(&n)`
abbrev pub is_port : Json → Bool
is_port (Json.number (Number.pos_int n)) = leb 1 n && leb n 65535
is_port _ = false

abbrev pub is_bool : Json → Bool
is_bool (Json.bool b) = true
is_bool _ = false

abbrev pub is_string : Json → Bool
is_string (Json.string s) = true
is_string _ = false

abbrev pub all_strings : Items → Bool
all_strings Items.nil = true
all_strings (Items.cons v vs) = is_string v && all_strings vs

abbrev pub is_string_list : Json → Bool
is_string_list (Json.array vs) = all_strings vs
is_string_list _ = false

abbrev pub is_octal : ℕ → Bool
is_octal c = leb 48 c && leb c 55

abbrev pub is_some : Option ℕ → Bool
is_some none = false
is_some (some n) = true

-- The digits of a `u32`, from the value so far; `none` for another character or an overflow.
unfoldable pub octal_from : ℕ → String → Option ℕ
octal_from value [] = some value
octal_from value (c ∷ s) =
    let next = value * 8 + (code c - 48) in
    let rest = octal_from next s in if is_octal (code c) && ltb next (2 ^ 32) then rest else none

-- `trim_start_matches("0o")`
unfoldable pub trim_0o : String → String
trim_0o [] = []
trim_0o (c ∷ []) = c ∷ []
trim_0o (c ∷ d ∷ s) =
    let rest = trim_0o s in if code c == 48 && code d == 111 then rest else c ∷ d ∷ s

-- `u32::from_str_radix(s, 8)` is `Ok`: a `+` may stand before the digits, and there is a digit.
unfoldable pub reads_octal : String → Bool
reads_octal [] = false
reads_octal (c ∷ []) = is_octal (code c)
reads_octal (c ∷ d ∷ s) =
    is_some (if code c == 43 then octal_from 0 (d ∷ s) else octal_from 0 (c ∷ d ∷ s))

abbrev pub is_mode : Json → Bool
is_mode (Json.string s) = reads_octal (trim_0o s)
is_mode (Json.number n) = true
is_mode _ = false

abbrev pub is_hex : ℕ → Bool
is_hex c = leb 48 c && leb c 57 || leb 65 c && leb c 70 || leb 97 c && leb c 102

unfoldable pub all_hex : String → Bool
all_hex [] = true
all_hex (c ∷ s) = is_hex (code c) && all_hex s

abbrev pub is_sha256 : Json → Bool
is_sha256 (Json.string s) = len s == 64 && all_hex s
is_sha256 _ = false

abbrev pub is_path : Json → Bool
is_path (Json.string []) = false
is_path (Json.string (c ∷ s)) = true
is_path _ = false
