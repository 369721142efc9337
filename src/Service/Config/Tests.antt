-- ===== src/Service/Config/Tests.antt =====
-- A configuration file, and the theorems at concrete inputs.
use musi_tui.Base.{◌≡◌, refl, some, arith}
use musi_tui.Base.Int.{pos}
use musi_tui.Base.Text.{codes}
use musi_tui.Base.Decimal.{to_string, to_string_ℕ}
use musi_tui.Service.Config.{
  File, get_value, set_value, get_theme, set_theme, get_visual, set_visual, get_root_path,
  set_root_path, config_file, theme_key, visual_key,
}
use musi_tui.Service.Config.Settings.{settings_persist}

-- Edited by hand: a theme that stands twice, and a line that is no entry.
abbrev by_hand : File
by_hand = some (codes "theme=1\nnonsense\ntheme=2\nvisual=3")

stored : set_theme (pos 4) by_hand ≡ some (codes "theme=4\nvisual=3\n")
unfolding set_theme to_string to_string_ℕ
stored = refl

-- The first of two lines is read, but the last of them is kept.
twice :
    (get_value theme_key by_hand ≡ codes "1")
    × (get_value theme_key (set_value visual_key (codes "3") by_hand) ≡ codes "2")
unfolding get_value set_value
twice = (refl, refl)

place : config_file (some (codes "/home/ann")) ≡ codes "/home/ann/.config/minimalmp3/config.txt"
unfolding config_file
place = refl

settings_persist_example :
    let after = set_visual (pos 2) (set_theme (pos 5) (set_root_path (codes "/music") by_hand)) in
    (get_root_path after ≡ codes "/music") × (get_theme after ≡ pos 5) × (get_visual after ≡ pos 2)
settings_persist_example =
    settings_persist (codes "/music") (pos 5) (pos 2) by_hand refl (omega arith) (omega arith)
