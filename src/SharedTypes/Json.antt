-- ===== src/SharedTypes/Json.antt =====
-- The JSON data model, as `serde_json::Value` exposes it to crates/shared-types: integers outside
-- the range of `u64` and `i64` are floats, whose text is kept and never read.
use Prim.Native.String.{String}
use text.Mathlib.Text.{◌==◌}
use linuxpracticelab.Common.{
  ℕ, ◌^◌, Bool, true, false, Option, none, some, List, [], ◌∷◌, ltb, if◌then◌else◌,
}
use linuxpracticelab.Common.Int.{ℤ, pos, negsuc}

-- `neg_int n` is -(n + 1).
pub data Number : Type 0 where
  pos_int : ℕ → Number
  neg_int : ℕ → Number
  float : String → Number

mutual
  pub data Json : Type 0 where
    null : Json
    bool : Bool → Json
    number : Number → Json
    string : String → Json
    array : Items → Json
    object : Members → Json

  pub data Items : Type 0 where
    nil : Items
    cons : Json → Items → Items

  pub data Members : Type 0 where
    end : Members
    member : String → Json → Members → Members

-- `BTreeMap::get`, `contains_key` and `keys`; members are listed in the order of their keys.
unfoldable pub get : String → Members → Option Json
get k end = none
get k (member j v ms) = if j == k then some v else get k ms

unfoldable pub contains_key : String → Members → Bool
contains_key k end = false
contains_key k (member j v ms) = if j == k then true else contains_key k ms

unfoldable pub keys : Members → List String
keys end = []
keys (member j v ms) = j ∷ keys ms

abbrev pub as_str : Json → Option String
as_str (Json.string s) = some s
as_str _ = none

abbrev pub as_bool : Json → Option Bool
as_bool (Json.bool b) = some b
as_bool _ = none

abbrev pub number_i64 : Number → Option ℤ
number_i64 (Number.pos_int n) = if ltb n (2 ^ 63) then some (pos n) else none
number_i64 (Number.neg_int n) = if ltb n (2 ^ 63) then some (negsuc n) else none
number_i64 (Number.float text) = none

abbrev pub as_i64 : Json → Option ℤ
as_i64 (Json.number n) = number_i64 n
as_i64 _ = none

abbrev pub as_array : Json → Option Items
as_array (Json.array vs) = some vs
as_array _ = none
