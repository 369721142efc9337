-- ===== src/Base/Path.antt =====
-- `std::filesystem::path` on bytes: joining, and the parts of a name.
use mathlib.Core.Bool.{Bool, false, ◌||◌}
use mathlib.Core.List.{[], ◌∷◌, ◌++◌}
use musi_tui.Base.Tests.{◌==◌, if◌then◌else◌}
use musi_tui.Base.Lists.{is_empty, any}
use musi_tui.Base.Text.{Text, codes, text_eq}

abbrev ends_with_slash : Text → Bool
ends_with_slash [] = false
ends_with_slash (c ∷ []) = c == b'/'
ends_with_slash (c ∷ d ∷ s) = ends_with_slash (d ∷ s)

-- `base / name` for a relative name
unfoldable pub join_path : Text → Text → Text
join_path base name =
    if is_empty base || ends_with_slash base then base ++ name else base ++ b'/' ∷ name

-- What follows the last slash: `path.filename()`.
abbrev pub filename : Text → Text
filename [] = []
filename (c ∷ s) = let rest = filename s in if any (λ d. d == b'/') (c ∷ s) then rest else c ∷ s

-- The name up to its last dot, and from there on; a dot in front belongs to the name.
abbrev pub from_last_dot : Text → Text
from_last_dot [] = []
from_last_dot (c ∷ s) =
    let rest = from_last_dot s in
    if any (λ d. d == b'.') s then rest else if c == b'.' then c ∷ s else []

abbrev pub to_last_dot : Text → Text
to_last_dot [] = []
to_last_dot (c ∷ s) =
    let rest = to_last_dot s in
    if any (λ d. d == b'.') s then c ∷ rest else if c == b'.' then [] else c ∷ s

abbrev special : Text → Bool
special name = text_eq name (codes ".") || text_eq name (codes "..")

abbrev extension_of : Text → Text
extension_of [] = []
extension_of (c ∷ s) = if special (c ∷ s) then [] else from_last_dot s

abbrev stem_of : Text → Text
stem_of [] = []
stem_of (c ∷ s) = if special (c ∷ s) then c ∷ s else c ∷ to_last_dot s

-- `path.extension()` and `path.stem()`
abbrev pub extension : Text → Text
extension path = extension_of (filename path)

abbrev pub stem : Text → Text
stem path = stem_of (filename path)
