-- ===== src/Commands/Result/Wire.antt =====
-- The wire form gives the message back, and stays on one line.
use musi_tui.Base.{
  ◌≡◌, refl, ◌∙◌, Bool, true, false, [], ◌∷◌, ◌++◌, append_assoc, All, some, any, is_empty, ◌==◌,
  arith,
}
use musi_tui.Base.Text.{Text, codes, after_first, starts_with}
use musi_tui.Util.Json.{quote, found, plain, read_value, find_string}
use musi_tui.Util.Json.RoundTrip.{
  IsByte, IsPrintable, quote-IsPrintable, append_string-append, read_value-quote,
}
use musi_tui.Commands.Result.{CommandResult, to_json, opening, data_part}

-- The key is found behind the opening part, and nowhere before it.
after_opening :
    (b : Bool) (t : Text) → after_first (codes "\"message\":\"") (opening b ++ b'"' ∷ t) ≡ some t
after_opening true t = refl
after_opening false t = refl

to_json-append :
    (r : CommandResult)
    → to_json r ≡ opening r.ok ++ (quote r.message ++ (data_part r.data_text ++ b'}' ∷ []))
unfolding to_json
to_json-append r = simp (append_string-append, append_assoc)

needle : quote (codes "message") ++ codes ":\"" ≡ codes "\"message\":\""
unfolding quote
needle = refl

find_message :
    (r : CommandResult) (t : Text)
    → quote r.message ++ (data_part r.data_text ++ b'}' ∷ []) ≡ b'"' ∷ t
    → find_string (to_json r) (codes "message") ≡ read_value plain t []
unfolding find_string
find_message r t e =
    let found_at : after_first (quote (codes "message") ++ codes ":\"") (to_json r) ≡ some t =
      rw (needle, to_json-append, e) (after_opening r.ok t) in
    rw (found_at, find_string)

-- `findString` reads the message of every reply back from its wire form.
pub find_string-to_json :
    (r : CommandResult)
    → All IsByte r.message
    → find_string (to_json r) (codes "message") ≡ found r.message
find_string-to_json r h =
    let (t, e, value) = read_value-quote r.message (data_part r.data_text ++ b'}' ∷ []) h in
    find_message r t e ∙ value

-- The reply begins with what the client looks for exactly if the command succeeded.
pub starts_with-to_json :
    (r : CommandResult) → starts_with (to_json r) (codes "{\"ok\":true") ≡ r.ok
starts_with-to_json r =
    rw to_json-append (by_flag r.ok (quote r.message ++ (data_part r.data_text ++ b'}' ∷ [])))
  where
    by_flag : (b : Bool) (t : Text) → starts_with (opening b ++ t) (codes "{\"ok\":true") ≡ b
    by_flag true [] = refl
    by_flag true (c ∷ t) = refl
    by_flag false t = refl

printable_one_line :
    (s t : Text) → All IsPrintable s → any (λ c. c == 10) (s ++ t) ≡ any (λ c. c == 10) t
printable_one_line [] t h = refl
printable_one_line (c ∷ s) t (hc, hs) = ground (arith, printable_one_line s t hs)

-- A reply is one line, if the data that it carries is.
pub to_json-one_line :
    (r : CommandResult)
    → any (λ c. c == 10) r.data_text ≡ false
    → any (λ c. c == 10) (to_json r) ≡ false
to_json-one_line r h = rw to_json-append (
    behind_opening r.ok (quote r.message ++ (data_part r.data_text ++ b'}' ∷ []))
    ∙ printable_one_line (quote r.message) (data_part r.data_text ++ b'}' ∷ [])
        (quote-IsPrintable r.message)
    ∙ in_data r.data_text h)
  where
    behind_opening :
        (b : Bool) (t : Text) → any (λ c. c == 10) (opening b ++ t) ≡ any (λ c. c == 10) t
    behind_opening true t = refl
    behind_opening false t = refl

    before_end :
        (d : Text) → any (λ c. c == 10) d ≡ false → any (λ c. c == 10) (d ++ b'}' ∷ []) ≡ false
    before_end [] e = refl
    before_end (c ∷ d) e = ground (arith, before_end d)

    in_data :
        (d : Text)
        → any (λ c. c == 10) d ≡ false
        → any (λ c. c == 10) (data_part d ++ b'}' ∷ []) ≡ false
    in_data [] e = refl
    in_data (c ∷ d) e = before_end (c ∷ d) e

pub is_empty-to_json : (r : CommandResult) → is_empty (to_json r) ≡ false
is_empty-to_json r =
    rw to_json-append (by_flag r.ok (quote r.message ++ (data_part r.data_text ++ b'}' ∷ [])))
  where
    by_flag : (b : Bool) (t : Text) → is_empty (opening b ++ t) ≡ false
    by_flag true t = refl
    by_flag false t = refl
