-- ===== src/Commands/Quoting/RoundTrip.antt =====
-- `tokenize` undoes `quoteArg`, argument by argument.
use musi_tui.Base.{
  ℕ, ◌≡◌, refl, ◌∙◌, sym, ap, Bool, true, false, ◌||◌, List, [], ◌∷◌, ◌++◌, append-nil,
  append_assoc, arith, ◌==◌, if◌then◌else◌, is_empty, any, Bool-cases, inl, inr,
}
use musi_tui.Base.Text.{Text, codes, is_space, text_eq}
use musi_tui.Commands.Quoting.{
  quote_mark, backslash, bare, quoted, Lexer, scan, fresh, tokenize, needs_quotes, escape_from,
  quote_arg, build_request,
}

-- The lexer behind the token `t`.
abbrev behind : Text → List Text → Lexer
behind t tokens = record { mode = bare; in_token = true; current = t; tokens = tokens }

abbrev inside : Text → List Text → Lexer
inside t tokens = record { mode = quoted; in_token = true; current = t; tokens = tokens }

abbrev special : ℕ → Bool
special c = c == quote_mark || c == backslash || is_space c

scan-bare :
    (s rest t : Text) (b : Bool) (tokens : List Text)
    → any special s ≡ false
    → is_empty s ≡ false
    → scan (record { mode = bare; in_token = b; current = t; tokens = tokens }) (s ++ rest)
      ≡ scan (behind (t ++ s) tokens) rest
unfolding scan
scan-bare [] rest t b tokens plain full = cc
scan-bare (c ∷ []) rest t b tokens plain full = ground arith
scan-bare (c ∷ d ∷ s) rest t b tokens plain full =
    ground
      (arith, scan-bare (d ∷ s) rest (t ++ c ∷ []) true tokens, append_assoc t (c ∷ []) (d ∷ s))

escape_one : ℕ → Text
escape_one c = if c == quote_mark || c == backslash then backslash ∷ c ∷ [] else c ∷ []

escape_all : Text → Text
escape_all [] = []
escape_all (c ∷ s) = escape_one c ++ escape_all s

escape_from-append : (out s : Text) → escape_from out s ≡ out ++ escape_all s
unfolding escape_from escape_all escape_one
escape_from-append out [] = sym (append-nil out)
escape_from-append out (c ∷ s) = ground (
  arith,
  escape_from-append
      ((if c == quote_mark || c == backslash then out ++ backslash ∷ [] else out) ++ c ∷ []) s,
  append_assoc out (backslash ∷ []) (c ∷ []),
  append_assoc out (backslash ∷ c ∷ []) (escape_all s),
  append_assoc out (c ∷ []) (escape_all s),
)

scan-escape_one :
    (c d : ℕ) (rest t : Text) (tokens : List Text)
    → scan (inside t tokens) (escape_one c ++ d ∷ rest)
      ≡ scan (inside (t ++ c ∷ []) tokens) (d ∷ rest)
unfolding scan escape_one
scan-escape_one c d rest t tokens = ground arith

escape_all-cons :
    (s rest : Text) → (d : ℕ) × (r : Text) × (escape_all s ++ quote_mark ∷ rest ≡ d ∷ r)
unfolding escape_all escape_one
escape_all-cons [] rest = (quote_mark, rest, refl)
escape_all-cons (c ∷ s) rest = elim (Bool-cases (c == quote_mark || c == backslash)) [
  | inl yes_special ↦ (backslash, c ∷ (escape_all s ++ quote_mark ∷ rest), rw yes_special)
  | inr plain ↦ (c, escape_all s ++ quote_mark ∷ rest, rw plain)
]

scan-escape_all :
    (s rest t : Text) (tokens : List Text)
    → scan (inside t tokens) (escape_all s ++ quote_mark ∷ rest)
      ≡ scan (behind (t ++ s) tokens) rest
unfolding escape_all
scan-escape_all [] rest t tokens =
    unfold scan in ap (λ u. scan (behind u tokens) rest) (sym (append-nil t))
scan-escape_all (c ∷ s) rest t tokens =
    let (d, r, e) = escape_all-cons s rest in
    ap (λ u. scan (inside t tokens) u)
      (append_assoc (escape_one c) (escape_all s) (quote_mark ∷ rest))
    ∙ ap (λ u. scan (inside t tokens) (escape_one c ++ u)) e
    ∙ scan-escape_one c d r t tokens
    ∙ ap (λ u. scan (inside (t ++ c ∷ []) tokens) u) (sym e)
    ∙ scan-escape_all s rest (t ++ c ∷ []) tokens
    ∙ ap (λ u. scan (behind u tokens) rest) (append_assoc t (c ∷ []) s)

any-special : (s : Text) → needs_quotes s ≡ false → (any special s ≡ false) × (is_empty s ≡ false)
any-special [] h = cc
any-special (c ∷ s) h = (h, refl)

-- The two forms of an argument.
pub quote_arg_plain : (s : Text) → needs_quotes s ≡ false → quote_arg s ≡ s
unfolding quote_arg
quote_arg_plain s plain = rw (plain, quote_arg) refl

pub quote_arg_quoted :
    (s : Text) → needs_quotes s ≡ true → (r : Text) × (quote_arg s ≡ quote_mark ∷ r)
unfolding quote_arg
quote_arg_quoted s quotes = (
  escape_all s ++ quote_mark ∷ [],
  rw (quotes, quote_arg) (ap (λ u. u ++ quote_mark ∷ []) (escape_from-append (quote_mark ∷ []) s)),
)

-- A quoted argument leaves the lexer behind exactly that argument.
scan-quote_arg :
    (s rest : Text) (tokens : List Text)
    → scan (fresh tokens) (quote_arg s ++ rest) ≡ scan (behind s tokens) rest
unfolding quote_arg
scan-quote_arg s rest tokens = elim (Bool-cases (needs_quotes s)) [
  | inl quotes ↦
      rw (quotes, quote_arg)
        (ap (λ u. scan (fresh tokens) u)
            (ap (λ u. (u ++ quote_mark ∷ []) ++ rest) (escape_from-append (quote_mark ∷ []) s)
              ∙ ap (λ u. quote_mark ∷ u) (append_assoc (escape_all s) (quote_mark ∷ []) rest))
          ∙ unfold scan in scan-escape_all s rest [] tokens)
  | inr plain ↦
      let (clean, full) = any-special s plain in
      rw (plain, quote_arg) (scan-bare s rest [] false tokens clean full)
]

-- The request separates what its tokens were by blanks: `t` is the last of them.
abbrev Spells : Text → List Text → Text → Type 0
Spells request tokens t =
    (rest : Text) → scan (fresh []) (request ++ rest) ≡ scan (behind t tokens) rest

is_empty-append : (s t : Text) → is_empty s ≡ false → is_empty (s ++ t) ≡ false
is_empty-append [] t h = cc
is_empty-append (c ∷ s) t h = refl

is_empty-quote_arg : (s : Text) → is_empty (quote_arg s) ≡ false
unfolding quote_arg
is_empty-quote_arg s = elim (Bool-cases (needs_quotes s)) [
  | inl quotes ↦
      rw (quotes, quote_arg)
        (ap (λ u. is_empty (u ++ quote_mark ∷ [])) (escape_from-append (quote_mark ∷ []) s))
  | inr plain ↦ rw (plain, quote_arg) ((any-special s plain).1)
]

Spells-snoc :
    (request : Text) (tokens : List Text) (t arg : Text)
    → Spells request tokens t
    → Spells ((request ++ b' ' ∷ []) ++ quote_arg arg) (tokens ++ t ∷ []) arg
Spells-snoc request tokens t arg h rest =
    ap (scan (fresh [])) (
      append_assoc (request ++ b' ' ∷ []) (quote_arg arg) rest
      ∙ append_assoc request (b' ' ∷ []) (quote_arg arg ++ rest))
    ∙ h (b' ' ∷ (quote_arg arg ++ rest))
    ∙ unfold scan in scan-quote_arg arg rest (tokens ++ t ∷ [])

-- What the client sends of its arguments: all but `--json`.
unfoldable pub without_json : List Text → List Text
without_json [] = []
without_json (arg ∷ args) =
    if text_eq arg (codes "--json") then without_json args else arg ∷ without_json args

tokenize-build_request_from :
    (args : List Text) (raw : Bool) (request : Text) (tokens : List Text) (t : Text)
    → is_empty request ≡ false
    → Spells request tokens t
    → tokenize (build_request request raw args).0 ≡ tokens ++ t ∷ without_json args
unfolding build_request without_json
tokenize-build_request_from [] raw request tokens t full h =
    unfold tokenize in (ap (scan (fresh [])) (sym (append-nil request)) ∙ h [])
tokenize-build_request_from (arg ∷ args) raw request tokens t full h =
    elim (Bool-cases (text_eq arg (codes "--json"))) [
      | inl skip ↦
          rw (skip, build_request, without_json)
            (tokenize-build_request_from args (raw || true) request tokens t full h)
      | inr keep ↦
          rw (keep, full, build_request, without_json)
            (tokenize-build_request_from args (raw || false)
                ((request ++ b' ' ∷ []) ++ quote_arg arg) (tokens ++ t ∷ []) arg
                (is_empty-append (request ++ b' ' ∷ []) (quote_arg arg)
                  (is_empty-append request (b' ' ∷ []) full))
                (Spells-snoc request tokens t arg h)
              ∙ append_assoc tokens (t ∷ []) (arg ∷ without_json args))
    ]

-- The player's tokens of a request are the client's arguments, all but `--json`, whatever bytes
-- they hold.
pub tokenize-build_request :
    (args : List Text) (raw : Bool) → tokenize (build_request [] raw args).0 ≡ without_json args
unfolding build_request without_json
tokenize-build_request [] raw = unfold tokenize in refl
tokenize-build_request (arg ∷ args) raw = elim (Bool-cases (text_eq arg (codes "--json"))) [
  | inl skip ↦ rw (skip, build_request, without_json) (tokenize-build_request args (raw || true))
  | inr keep ↦
      rw (keep, build_request, without_json)
        (tokenize-build_request_from args (raw || false) (quote_arg arg) [] arg
          (is_empty-quote_arg arg) (λ rest. scan-quote_arg arg rest []))
]
