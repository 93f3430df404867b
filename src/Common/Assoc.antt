-- ===== src/Common/Assoc.antt =====
-- Maps with text keys as association lists: `HashMap` and `BTreeMap` where the order of iteration
-- plays no part.
use Prim.Native.String.{String}
use text.Mathlib.Text.{◌==◌}
use mathlib.Core.List.{List, [], ◌∷◌}
use mathlib.Core.Option.{Option, none, some}
use linuxpracticelab.Common.Tests.{if◌then◌else◌}

abbrev pub Assoc : Type 0 → Type 0
Assoc V = List (String × V)

-- The first entry under the key is the one that counts.
unfoldable pub lookup : {V : Type 0} → String → Assoc V → Option V
lookup key [] = none
lookup key ((name, value) ∷ rest) =
    let later = lookup key rest in if key == name then some value else later
