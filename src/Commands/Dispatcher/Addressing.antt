-- ===== src/Commands/Dispatcher/Addressing.antt =====
-- `musiTui ctl play <album> <track>`: from the client's arguments to the song that is played.
use musi_tui.Base.{
  ℕ, suc, ◌<◌, ◌^◌, ◌≡◌, refl, ◌∙◌, sym, ap, Bool, true, false, ◌||◌, [], ◌∷◌, ◌++◌, arith, inl,
  inr, length, get_or, is_empty, Bool-cases, List-cases, some,
}
use musi_tui.Base.Int.{pos, ◌-ℤ◌, ltb_ℤ}
use musi_tui.Base.Text.{Text, codes, text_eq, text_eq→eq, is_space, drop_while_back}
use musi_tui.Base.Decimal.{to_string, from_chars-to_string, all_digits, to_string-all_digits}
use musi_tui.Commands.Result.{success}
use musi_tui.Commands.Quoting.{quote_mark, quote_arg, tokenize, build_request, needs_quotes, trim}
use musi_tui.Commands.Quoting.RoundTrip.{
  tokenize-build_request, without_json, quote_arg_plain, quote_arg_quoted,
}
use musi_tui.Commands.Dispatcher.{Service, Config, World, on_service}
use musi_tui.Commands.Dispatcher.Names.{resolve_album}
use musi_tui.Commands.Dispatcher.Playing.{
  play, play_request, request_of, request_of_tokens, track_of,
}
use musi_tui.Commands.Dispatcher.Execute.{execute, run_verb, verb_of}

drop_while_back-append :
    (p : ℕ → Bool) (s t : Text)
    → is_empty t ≡ false
    → drop_while_back p t ≡ t
    → drop_while_back p (s ++ t) ≡ s ++ t
drop_while_back-append p [] t full kept = kept
drop_while_back-append p (c ∷ []) (d ∷ t) full kept = rw kept refl
drop_while_back-append p (c ∷ b ∷ s) (d ∷ t) full kept =
    rw (drop_while_back-append p (b ∷ s) (d ∷ t) full kept) refl
drop_while_back-append p (c ∷ s) [] full kept = cc

drop_while_back-all_digits : (s : Text) → all_digits s ≡ true → drop_while_back is_space s ≡ s
drop_while_back-all_digits [] h = refl
drop_while_back-all_digits (c ∷ []) h = ground arith
drop_while_back-all_digits (c ∷ d ∷ s) h =
    rw (drop_while_back-all_digits (d ∷ s) (ground arith)) refl

needs_quotes-all_digits :
    (s : Text) → all_digits s ≡ true → is_empty s ≡ false → needs_quotes s ≡ false
needs_quotes-all_digits [] h full = cc
needs_quotes-all_digits (c ∷ []) h full = ground arith
needs_quotes-all_digits (c ∷ d ∷ s) h full = ground (arith, needs_quotes-all_digits (d ∷ s))

abbrev json_flag : Text
json_flag = codes "--json"

bool_clash : false ≡ true → ⊥
bool_clash e = cc

not_json-quotes : (s : Text) → needs_quotes s ≡ true → text_eq s json_flag ≡ false
not_json-quotes s quotes = elim (Bool-cases (text_eq s json_flag)) [
  | inl e ↦ absurd (bool_clash (rw (text_eq→eq s json_flag e) at quotes))
  | inr e ↦ e
]

not_json-all_digits : (s : Text) → all_digits s ≡ true → text_eq s json_flag ≡ false
not_json-all_digits s digits = elim (Bool-cases (text_eq s json_flag)) [
  | inl e ↦ absurd (bool_clash (rw (text_eq→eq s json_flag e) at digits))
  | inr e ↦ e
]

-- The requests of two arguments, and with `play` before them.
module _ (album number r : Text) (shape : quote_arg album ≡ quote_mark ∷ r)
    (plain : quote_arg number ≡ number)
    (not_json : (text_eq album json_flag ≡ false) × (text_eq number json_flag ≡ false)) where
  request_of_two :
      (build_request [] false (album ∷ number ∷ [])).0 ≡ quote_mark ∷ ((r ++ b' ' ∷ []) ++ number)
  unfolding build_request
  request_of_two = rw (not_json.0, not_json.1, shape, plain, build_request) refl

  request_of_play :
      (build_request [] false (codes "play" ∷ album ∷ number ∷ [])).0
      ≡ codes "play " ++ quote_mark ∷ ((r ++ b' ' ∷ []) ++ number)
  unfolding build_request
  request_of_play =
      rw (not_json.0, not_json.1, shape, plain, quote_arg_plain (codes "play") refl, build_request)
        refl

  tokens_of_two : tokenize (quote_mark ∷ ((r ++ b' ' ∷ []) ++ number)) ≡ album ∷ number ∷ []
  unfolding without_json
  tokens_of_two =
      ap tokenize (sym request_of_two)
      ∙ tokenize-build_request (album ∷ number ∷ []) false
      ∙ rw (not_json.0, not_json.1, without_json) refl

module _ {S C : Type 0} (service : Service S) (config : Config C) where
  -- What follows `play ` is taken apart by `tokenize` if it begins with a quote mark.
  execute-play_quoted :
      (s : Text) (w : World S C)
      → drop_while_back is_space (quote_mark ∷ s) ≡ quote_mark ∷ s
      → execute service config (codes "play " ++ quote_mark ∷ s) w
        ≡ some (
            play_request service
              (request_of_tokens (service.get_album_names w.service) (tokenize (quote_mark ∷ s)))
              w)
  unfolding execute run_verb verb_of play request_of trim
  execute-play_quoted s w kept = rw kept (ap (λ args. some (play service args w)) kept)

  play_request-track :
      (found : Text) (i : ℕ) (w : World S C)
      → let song_names = service.get_song_names w.service found in
        i < length song_names
        → play_request service (track_of found (some (pos (suc i)))) w ≡ (
          on_service (service.play_song found (pos i)) w,
          success (codes "Playing " ++ get_or song_names i [] ++ codes " (" ++ found ++ codes ")"),
        )
  unfolding play_request
  play_request-track found i w low = rw (full, inside, back, play_request) refl
    where
      full : is_empty (service.get_song_names w.service found) ≡ false
      full = elim (List-cases (service.get_song_names w.service found)) [
        | inl e ↦ absurd (omega (arith, rw e at low))
        | inr (x, xs, e) ↦ rw e refl
      ]

      inside :
          (ltb_ℤ (pos (suc i)) (pos 1)
            || ltb_ℤ (pos (length (service.get_song_names w.service found))) (pos (suc i)))
          ≡ false
      inside = ground arith

      back : pos (suc i) -ℤ pos 1 ≡ pos i
      back = ground arith

  -- `musiTui ctl play <album> <number>`, with an album name that the client has to quote, plays that
  -- song of the album that the name resolves to, if the number is one of its songs.
  pub execute-build_request :
      (album : Text) (i : ℕ) (w : World S C)
      → let found = resolve_album (service.get_album_names w.service) album in
        let song_names = service.get_song_names w.service found in
        let number = to_string (pos (suc i)) in
        needs_quotes album ≡ true
        → is_empty found ≡ false
        → i < length song_names
        → suc i < 2 ^ 31
        → execute service config (build_request [] false (codes "play" ∷ album ∷ number ∷ [])).0 w
          ≡ some (
            on_service (service.play_song found (pos i)) w,
            success
                (codes "Playing " ++ get_or song_names i [] ++ codes " (" ++ found ++ codes ")"),
          )
  unfolding build_request play_request request_of_tokens
  execute-build_request album i w quotes known low small =
      let number = to_string (pos (suc i)) in
      let found = resolve_album (service.get_album_names w.service) album in
      let (digits, full) = to_string-all_digits (suc i) in
      let (r, shape) = quote_arg_quoted album quotes in
      let plain = quote_arg_plain number (needs_quotes-all_digits number digits full) in
      let not_json : (text_eq album json_flag ≡ false) × (text_eq number json_flag ≡ false) =
        (not_json-quotes album quotes, not_json-all_digits number digits) in
      rw (request_of_play album number r shape plain not_json) (
        execute-play_quoted ((r ++ b' ' ∷ []) ++ number) w (
          drop_while_back-append is_space (quote_mark ∷ (r ++ b' ' ∷ [])) number full
            (drop_while_back-all_digits number digits))
        ∙ rw
            (
              tokens_of_two album number r shape plain not_json,
              from_chars-to_string (pos (suc i)) (omega arith),
              known,
            )
            (ap some (play_request-track found i w low)))
