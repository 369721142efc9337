-- ===== src/Library/Sorting.antt =====
-- The songs of a loaded album are those of the directory, in the order of their names.
use mathlib.Core.List.Permᴰ
use mathlib.Core.List.{Permᴰ}
use musi_tui.Base.{◌≡◌, false, List, [], ◌∷◌, All}
use musi_tui.Base.Text.{Text, text_lt}
use musi_tui.Library.Song.{Song}
use musi_tui.Library.Album.{Album, name_of}

-- No name stands behind a later one.
pub IsInOrder : List Song → Type 0
IsInOrder [] = Unit
IsInOrder (s ∷ songs) = All (λ t. text_lt (name_of t) (name_of s) ≡ false) songs × IsInOrder songs

abbrev AfterName : Text → Song → Type 0
AfterName n t = text_lt (name_of t) n ≡ false
