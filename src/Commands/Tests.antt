-- ===== src/Commands/Tests.antt =====
-- Runs of the command language, and its theorems at concrete inputs.
use musi_tui.Base.{◌≡◌, refl, true, false, [], ◌∷◌, arith}
use musi_tui.Base.Text.{codes}
use musi_tui.Util.Json.{find_string, found}
use musi_tui.Commands.Result.{CommandResult, success_with, to_json}
use musi_tui.Commands.Result.Wire.{find_string-to_json}
use musi_tui.Commands.Quoting.{tokenize, quote_arg, build_request, trim}
use musi_tui.Commands.Quoting.RoundTrip.{tokenize-build_request, without_json}

tokens :
    tokenize (codes "play \"My \\\"Album\" 3") ≡ codes "play" ∷ codes "My \"Album" ∷ codes "3" ∷ []
unfolding tokenize
tokens = refl

trims : trim (codes "  a b\t") ≡ codes "a b"
unfolding trim
trims = refl

request :
    (build_request [] false (codes "--json" ∷ codes "play" ∷ codes "My Album" ∷ []))
    ≡ (codes "play \"My Album\"", true)
unfolding build_request quote_arg
request = refl

abbrev reply : CommandResult
reply = success_with (codes "say \"hi\"\n") (codes "{}")

wire : to_json reply ≡ codes "{\"ok\":true,\"message\":\"say \\\"hi\\\"\\n\",\"data\":{}}"
unfolding to_json
wire = refl

find_string-to_json_example :
    find_string (to_json reply) (codes "message") ≡ found (codes "say \"hi\"\n")
find_string-to_json_example = find_string-to_json reply (omega arith)

tokenize-build_request_example :
    tokenize (build_request [] false (codes "play" ∷ codes "My \"Album" ∷ [])).0
    ≡ codes "play" ∷ codes "My \"Album" ∷ []
unfolding without_json
tokenize-build_request_example =
    tokenize-build_request (codes "play" ∷ codes "My \"Album" ∷ []) false
