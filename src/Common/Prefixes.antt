-- ===== src/Common/Prefixes.antt =====
-- What a text that starts with another is made of.
use Prim.Native.Char.{code}
use Prim.Native.String.{String, [], ◌∷◌, ◌++◌}
use Prim.Native.String.append.{nil, cons}
use text.Mathlib.TextEquality.{Char-path}
use mathlib.Core.Path.{◌≡◌, refl, sym, ap, ◌∙◌}
use mathlib.Core.Bool.{Bool, true, false, ◌&&◌}
use linuxpracticelab.Common.Tests.{◌==◌, ==_iff}
use linuxpracticelab.Common.Text.{starts_with}

first_true : (a b : Bool) → (a && b) ≡ true → (a ≡ true) × (b ≡ true)
first_true true b h = (refl, h)
first_true false b h = cc

pub starts_with-append : (s t : String) → starts_with s t ≡ true → (rest : String) × (s ≡ t ++ rest)
unfolding starts_with
starts_with-append s [] h = (s, sym (nil s))
starts_with-append [] (d ∷ t) h = cc
starts_with-append (c ∷ s) (d ∷ t) h =
    let (first, more) = first_true (code c == code d) (starts_with s t) h in
    let (rest, e) = starts_with-append s t more in
    let same_char : c ≡ d = Char-path c d ((==_iff (code c) (code d)).0 first) in
    (rest, ap (λ (r : String). c ∷ r) e ∙ rw same_char (sym (cons d t rest)))
