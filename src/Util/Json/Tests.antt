-- ===== src/Util/Json/Tests.antt =====
-- Runs of the JSON helpers.
use musi_tui.Base.{◌≡◌, refl, ◌∷◌, []}
use musi_tui.Base.Text.{codes}
use musi_tui.Util.Json.{quote, find_string, found, missing, throws, read_value, stoi_hex}

escapes : quote (codes "a\"b\\") ≡ codes "\"a\\\"b\\\\\""
unfolding quote
escapes = refl

control_byte : quote (1 ∷ []) ≡ codes "\"\\u0001\""
unfolding quote
control_byte = refl

reads_value :
    find_string (codes "{\"a\":\"x\",\"b\":\"y\\n\"}") (codes "b") ≡ found (b'y' ∷ 10 ∷ [])
unfolding find_string quote read_value
reads_value = refl

no_key : find_string (codes "{}") (codes "b") ≡ missing
unfolding find_string quote read_value
no_key = refl

bad_escape : find_string (codes "\"b\":\"\\uzzzz\"") (codes "b") ≡ throws
unfolding find_string quote read_value stoi_hex
bad_escape = refl
