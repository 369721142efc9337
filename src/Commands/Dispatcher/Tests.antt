-- ===== src/Commands/Dispatcher/Tests.antt =====
-- The dispatcher over a small service.
use musi_tui.Base.{
  ◌≡◌, refl, false, not, ◌&&◌, ◌||◌, [], ◌∷◌, Option, none, some, is_some, any, if◌then◌else◌,
  arith,
}
use musi_tui.Base.Int.{ℤ, pos}
use musi_tui.Base.Text.{Text, codes, text_eq}
use musi_tui.Base.Decimal.{to_string, from_chars}
use musi_tui.Commands.Result.{success, failure}
use musi_tui.Commands.Quoting.{build_request, iequals, trim}
use musi_tui.Commands.Dispatcher.{World, Outcome, on_service}
use musi_tui.Commands.Dispatcher.Names.{resolve_album}
use musi_tui.Commands.Dispatcher.Names.Resolution.{matching, the_only, resolve_album_lem}
use musi_tui.Commands.Dispatcher.Playing.{
  play, volume, starts_with_plus, starts_with_minus, after_plus,
}
use musi_tui.Commands.Dispatcher.Execute.{execute, verb_of, run_verb}
use musi_tui.Commands.Dispatcher.Effects.{execute_unacted}
use musi_tui.Commands.Dispatcher.Ranges.{IsPlayEffect, exceeds, play-effect, volume-overflow}
use musi_tui.Commands.Dispatcher.Addressing.{execute-build_request}
use musi_tui.Commands.Dispatcher.Example.{Player, fixture, settings, world}

case_ignored : resolve_album (codes "Abbey Road" ∷ codes "Low" ∷ []) (codes "LOW") ≡ codes "Low"
unfolding resolve_album iequals
case_ignored = refl

ambiguous : resolve_album (codes "Low" ∷ codes "low" ∷ []) (codes "LOW") ≡ []
unfolding resolve_album iequals
ambiguous = refl

resolve_album_lem_example : resolve_album (codes "Low" ∷ codes "low" ∷ []) (codes "LOW") ≡ (
    if any (λ n. text_eq n (codes "LOW")) (codes "Low" ∷ codes "low" ∷ [])
    then codes "LOW"
    else the_only (matching (codes "LOW") (codes "Low" ∷ codes "low" ∷ [])))
resolve_album_lem_example = resolve_album_lem (codes "Low" ∷ codes "low" ∷ []) (codes "LOW")

play-effect_example : IsPlayEffect fixture world (play fixture (codes "\"abbey road\" 2") world).0
play-effect_example = play-effect fixture (codes "\"abbey road\" 2") world

volume-overflow_example :
    is_some (volume fixture (codes "+2147483647") world)
    ≡ not (
        (starts_with_plus (codes "+2147483647") || starts_with_minus (codes "+2147483647"))
        && exceeds (from_chars (after_plus (codes "+2147483647"))) 40)
volume-overflow_example = volume-overflow fixture (codes "+2147483647") world 40 refl (omega arith)

abbrev left : Option (Outcome Player (ℤ × ℤ)) → World Player (ℤ × ℤ)
left none = world
left (some o) = o.0

abbrev mistyped : Text
mistyped = codes " volume loud "

execute_unacted_example : left (execute fixture settings mistyped world) ≡ world
unfolding execute verb_of run_verb trim volume from_chars
execute_unacted_example =
    execute_unacted fixture settings mistyped {r = failure (codes "Usage: volume [N|+N|-N]")}
      (λ p s e. refl) refl refl

execute-build_request_example :
    execute fixture settings
      (build_request [] false (codes "play" ∷ codes "Abbey Road" ∷ to_string (pos 2) ∷ [])).0
      world
    ≡ some (
      on_service (fixture.play_song (codes "Abbey Road") (pos 1)) world,
      success (codes "Playing two (Abbey Road)"),
    )
unfolding resolve_album
execute-build_request_example =
    execute-build_request fixture settings (codes "Abbey Road") 1 world refl refl (omega arith)
      (omega arith)
