-- ===== src/Commands/Quoting.antt =====
-- The lexical part of src/commands/CommandDispatcher.cpp (`trim`, `iequals`, `tokenize`, `quoteArg`,
-- `singleArg`), and the request that src/ipc/ControlClient.cpp builds of its arguments.
pub mod RoundTrip
use musi_tui.Base.{
  ℕ, Bool, true, false, not, ◌&&◌, ◌||◌, List, [], ◌∷◌, ◌++◌, ◌==◌, if◌then◌else◌, is_empty, any,
}
use musi_tui.Base.Text.{Text, codes, is_space, to_lower, text_eq, drop_while, drop_while_back}

abbrev pub quote_mark : ℕ
quote_mark = b'"'

abbrev pub backslash : ℕ
backslash = b'\\'

unfoldable pub trim : Text → Text
trim s = drop_while_back is_space (drop_while is_space s)

unfoldable pub iequals : Text → Text → Bool
iequals [] [] = true
iequals [] (b ∷ bs) = false
iequals (a ∷ as') [] = false
iequals (a ∷ as') (b ∷ bs) = to_lower a == to_lower b && iequals as' bs

-- Whether the loop of `tokenize` stands outside quotes, inside, or behind a backslash inside.
pub data Mode : Type 0 where
  bare : Mode
  quoted : Mode
  escaped : Mode

pub record Lexer : Type 0 where
  pub mode : Mode
  pub in_token : Bool
  pub current : Text
  pub tokens : List Text

-- One round for the byte `c`; `last` says that no byte follows.
step_in : Mode → Lexer → ℕ → Bool → Lexer
step_in escaped l c last = record l { mode = quoted; current = l.current ++ c ∷ [] }
step_in quoted l c last =
    if c == backslash && not last
    then record l { mode = escaped }
    else if c == quote_mark
    then record l { mode = bare }
    else record l { current = l.current ++ c ∷ [] }
step_in bare l c last =
    if c == quote_mark
    then record l { mode = quoted; in_token = true }
    else if is_space c
    then record l {
      tokens = if l.in_token then l.tokens ++ l.current ∷ [] else l.tokens;
      current = [];
      in_token = false;
    }
    else record l { current = l.current ++ c ∷ []; in_token = true }

abbrev step : Lexer → ℕ → Bool → Lexer
step l = step_in l.mode l

scan : Lexer → Text → List Text
unfolding step_in
scan l [] = if l.in_token then l.tokens ++ l.current ∷ [] else l.tokens
scan l (c ∷ s) = scan (step l c (is_empty s)) s

abbrev fresh : List Text → Lexer
fresh tokens = record { mode = bare; in_token = false; current = []; tokens = tokens }

unfoldable pub tokenize : Text → List Text
unfolding scan
tokenize s = scan (fresh []) s

abbrev pub needs_quotes : Text → Bool
needs_quotes s = is_empty s || any (λ c. c == quote_mark || c == backslash || is_space c) s

escape_from : Text → Text → Text
escape_from out [] = out
escape_from out (c ∷ s) =
    escape_from
      ((if c == quote_mark || c == backslash then out ++ backslash ∷ [] else out) ++ c ∷ []) s

unfoldable pub quote_arg : Text → Text
unfolding escape_from
quote_arg s = if needs_quotes s then escape_from (quote_mark ∷ []) s ++ quote_mark ∷ [] else s

-- A leading quote mark switches to the tokens; other text is taken as it stands.
first_token : List Text → Text
first_token [] = []
first_token (t ∷ ts) = t

abbrev pub starts_quoted : Text → Bool
starts_quoted [] = false
starts_quoted (c ∷ s) = c == quote_mark

unfoldable pub single_arg : Text → Text
unfolding first_token trim tokenize
single_arg args =
    if starts_quoted (trim args) then first_token (tokenize (trim args)) else trim args

-- `runControlClient`: the request so far and whether `--json` was seen, over the arguments.
unfoldable pub build_request : Text → Bool → List Text → Text × Bool
build_request request raw_json [] = (request, raw_json)
build_request request raw_json (arg ∷ args) =
    let skip = text_eq arg (codes "--json") in
    build_request
      (if skip
        then request
        else (if is_empty request then request else request ++ b' ' ∷ []) ++ quote_arg arg)
      (raw_json || skip) args
