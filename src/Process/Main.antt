-- ===== src/Process/Main.antt =====
-- src/main.cpp: what the arguments ask for.
use musi_tui.Base.{◌||◌, List, [], ◌∷◌, if◌then◌else◌}
use musi_tui.Base.Text.{Text, codes, text_eq}

pub data Mode : Type 0 where
  terminal : Mode
  control : List Text → Mode
  daemon : Mode
  version : Mode
  usage : Mode
  unknown : Text → Mode

unfoldable pub main_mode : List Text → Mode
main_mode [] = terminal
main_mode (first ∷ rest) =
    if text_eq first (codes "ctl")
    then control rest
    else if text_eq first (codes "--daemon")
    then daemon
    else if text_eq first (codes "--version") || text_eq first (codes "-v")
    then version
    else if text_eq first (codes "--help") || text_eq first (codes "-h")
    then usage
    else unknown first
