-- ===== src/VmManager/Tests.antt =====
-- Names that try to leave the directory of the overlays.
use linuxpracticelab.Common.{ℕ, ◌≡◌, List, [], ◌∷◌, refl}
use linuxpracticelab.VmManager.Overlay.{
  unnamed, is_plain, safe, clean, trim_start, trim_end, all_dots, or_unnamed, sanitise_id,
}
use linuxpracticelab.VmManager.Overlay.Names.{IsSafeName, sanitise_id_lem}

-- `../a`
abbrev parent_escape : List ℕ
parent_escape = 46 ∷ 46 ∷ 47 ∷ 97 ∷ []

-- `.a..b.`
abbrev dotted : List ℕ
dotted = 46 ∷ 97 ∷ 46 ∷ 46 ∷ 98 ∷ 46 ∷ []

sanitise_id_run :
    (sanitise_id parent_escape ≡ 95 ∷ 95 ∷ 97 ∷ [])
    × (sanitise_id dotted ≡ 97 ∷ 46 ∷ 95 ∷ 98 ∷ [])
    × (sanitise_id (46 ∷ 46 ∷ []) ≡ unnamed)
unfolding is_plain safe clean trim_start trim_end all_dots or_unnamed sanitise_id
sanitise_id_run = (refl, refl, refl)

sanitise_id_lem_example :
    IsSafeName (sanitise_id parent_escape)
    × (IsSafeName parent_escape → sanitise_id parent_escape ≡ parent_escape)
    × (sanitise_id (sanitise_id parent_escape) ≡ sanitise_id parent_escape)
sanitise_id_lem_example = sanitise_id_lem parent_escape
