-- ===== src/Commands/Result.antt =====
-- `CommandResult` of src/commands/CommandDispatcher.h and its wire form.
pub mod Wire
use musi_tui.Base.{Bool, true, false, List, [], ◌∷◌, ◌++◌, if◌then◌else◌, is_empty}
use musi_tui.Base.Text.{Text, codes}
use musi_tui.Util.Json.{append_string}

pub record CommandResult : Type 0 where
  pub ok : Bool
  pub read_only : Bool
  pub message : Text
  pub data_text : Text

abbrev pub success_with : Text → Text → CommandResult
success_with message extra = record {
  ok = true;
  read_only = false;
  message = message;
  data_text = extra;
}

abbrev pub success : Text → CommandResult
success message = success_with message []

abbrev pub query : Text → Text → CommandResult
query message extra = record { ok = true; read_only = true; message = message; data_text = extra }

abbrev pub failure : Text → CommandResult
failure message = record { ok = false; read_only = false; message = message; data_text = [] }

abbrev opening : Bool → Text
opening true = codes "{\"ok\":true,\"message\":"
opening false = codes "{\"ok\":false,\"message\":"

abbrev data_part : Text → Text
data_part extra = if is_empty extra then [] else codes ",\"data\":" ++ extra

unfoldable pub to_json : CommandResult → Text
unfolding append_string
to_json r = (append_string (opening r.ok) r.message ++ data_part r.data_text) ++ b'}' ∷ []
