-- ===== src/Player/Controller/Steps.antt =====
-- What the controller keeps in step: the file that plays, the current song, the album, the monitor
-- of the end of a song, and the last event.
pub mod Songs
use musi_tui.Base.{
  ◌≡◌, refl, sym, subst, ap, ◌∙◌, inl, inr, Bool, true, false, not, List, [], ◌∷◌, ◌++◌, Option,
  none, some, Bool-cases, is_empty, All,
}
use musi_tui.Base.Int.{ℤ}
use musi_tui.Base.Text.{Text, codes}
use musi_tui.Player.Engine.{
  State, playing, stopped, paused, World, Engine, stop_playback, say, is_in_playing,
  pause as pause_engine, set_volume as set_engine_volume,
}
use musi_tui.Player.Engine.Load.{load}
use musi_tui.Player.Engine.Device.{set_output_device as set_engine_device}
use musi_tui.Player.Engine.Invariant.{is_in_stopped}
use musi_tui.Player.Engine.File.{play-file, load-Loaded, set_output_device-Same}
use musi_tui.Player.SongQueue.{
  SongQueue, clear, load_playlist, get_current_song_path, skip_to, next as next_in_queue,
  previous as previous_in_queue,
}
use musi_tui.Player.SongQueue.Cursor.{IsSong, IsValid}
use musi_tui.Player.SongQueue.Found.{
  Finds, next-Finds, previous-Finds, skip_to-Finds, previous_stays, skip_to_stays,
}
use musi_tui.Player.Controller.{
  Controller, bare, PlaybackEvent, PlaybackEventType, song_paused, song_stopped, album_finished,
  song_started, song_resumed, song_finished, track_changed, load_failed, stop, finish_album, pause,
  set_volume, load_album, load_and_play_song, play, next, previous, play_song_at_index,
  handle_auto_advance, set_output_device, is_in_paused,
}

abbrev pub last_event : List PlaybackEvent → Option PlaybackEventType
last_event [] = none
last_event (e ∷ []) = some e.kind
last_event (e ∷ f ∷ es) = last_event (f ∷ es)

pub last_event-append :
    (es : List PlaybackEvent) (e : PlaybackEvent) → last_event (es ++ e ∷ []) ≡ some e.kind
last_event-append [] e = refl
last_event-append (d ∷ []) e = refl
last_event-append (d ∷ f ∷ es) e = last_event-append (f ∷ es) e

-- What holds after an event, until the next one: after `SongStopped` and `AlbumFinished` nothing
-- plays and there is no playlist; after `SongPaused` nothing plays.
abbrev pub Announced : Option PlaybackEventType → State → List Text → Type 0
Announced none s paths = Unit
Announced (some song_stopped) s paths = (is_in_stopped s ≡ true) × (is_empty paths ≡ true)
Announced (some album_finished) s paths = (is_in_stopped s ≡ true) × (is_empty paths ≡ true)
Announced (some song_paused) s paths = is_in_playing s ≡ false
Announced (some song_started) s paths = Unit
Announced (some song_resumed) s paths = Unit
Announced (some song_finished) s paths = Unit
Announced (some track_changed) s paths = Unit
Announced (some load_failed) s paths = Unit

pub record IsInStep (c : Controller) : Type 0 where
  pub songs : All IsSong c.queue.playlist
  pub plays :
      is_in_stopped c.engine.state ≡ false
      → (is_empty c.queue.playlist ≡ false)
        × (c.engine.current_file ≡ get_current_song_path c.queue)
  pub same_album : is_empty c.queue.playlist ≡ false → c.queue.playlist ≡ c.current_album
  pub monitored : c.monitoring ≡ not (is_empty c.current_album)
  pub announced : Announced (last_event c.events) c.engine.state c.queue.playlist

-- After an event.
pub announce :
    (es : List PlaybackEvent) (e : PlaybackEvent) (s : State) (paths : List Text)
    → Announced (some e.kind) s paths
    → Announced (last_event (es ++ e ∷ [])) s paths
announce es e s paths h = subst (λ k. Announced k s paths) (sym (last_event-append es e)) h

pub never_both : {b : Bool} → b ≡ true → b ≡ false → ⊥
never_both t f = cc

pub stop-IsInStep : (c : Controller) → IsInStep (stop c)
unfolding stop stop_playback clear
stop-IsInStep c = record {
  songs = tt;
  plays = λ h. absurd (never_both refl h);
  same_album = λ h. absurd (never_both refl h);
  monitored = refl;
  announced = announce c.events _ stopped [] (refl, refl);
}

-- A call that leaves the cursor, the file and the state as they were, and publishes nothing.
pub quiet-IsInStep :
    (c : Controller) (e : Engine) (q : SongQueue)
    → q ≡ c.queue
    → (e.current_file ≡ c.engine.current_file) × (e.state ≡ c.engine.state)
    → IsInStep c
    → IsInStep (record c { engine = e; queue = q })
quiet-IsInStep c e q stays (same_file, same_state) v = record {
  songs = subst (λ p. All IsSong p.playlist) (sym stays) v.songs;
  plays = λ h.
      let (some_songs, at) = v.plays (ap is_in_stopped (sym same_state) ∙ h) in
      (
        ap (λ p. is_empty p.playlist) stays ∙ some_songs,
        same_file ∙ at ∙ ap get_current_song_path (sym stays),
      );
  same_album = λ h.
      ap (λ p. p.playlist) stays ∙ v.same_album (ap (λ p. is_empty p.playlist) (sym stays) ∙ h);
  monitored = v.monitored;
  announced =
      subst (λ s. Announced (last_event c.events) s q.playlist) (sym same_state)
        (subst (λ p. Announced (last_event c.events) c.engine.state p.playlist) (sym stays)
          v.announced);
}

pub finish_album-IsInStep :
    (c : Controller) → c.monitoring ≡ not (is_empty c.current_album) → IsInStep (finish_album c)
unfolding finish_album stop_playback clear
finish_album-IsInStep c monitored = record {
  songs = tt;
  plays = λ h. absurd (never_both refl h);
  same_album = λ h. absurd (never_both refl h);
  monitored = monitored;
  announced = announce c.events _ stopped [] (refl, refl);
}

pub load_album-IsInStep :
    (paths : List Text) (c : Controller) → All IsSong paths → IsInStep (load_album paths c)
unfolding load_album stop stop_playback load_playlist
load_album-IsInStep [] c songs = record {
  songs = tt;
  plays = λ h. absurd (never_both refl h);
  same_album = λ h. refl;
  monitored = refl;
  announced = announce c.events _ stopped [] (refl, refl);
}
load_album-IsInStep (p ∷ ps) c songs = record {
  songs = songs;
  plays = λ h. absurd (never_both refl h);
  same_album = λ h. refl;
  monitored = refl;
  announced = announce (stop c).events (bare track_changed) stopped (p ∷ ps) tt;
}

pause-Effect :
    (s : State) (e : Engine)
    → let d = pause_engine (record e { state = s }) in
      (is_in_playing d.state ≡ false)
      × (d.current_file ≡ e.current_file)
      × (is_in_stopped d.state ≡ is_in_stopped s)
unfolding pause_engine
pause-Effect playing e = (refl, refl, refl)
pause-Effect stopped e = (refl, refl, refl)
pause-Effect paused e = (refl, refl, refl)

pub pause-IsInStep : {c : Controller} → IsInStep c → IsInStep (pause c)
unfolding pause
pause-IsInStep {c} v =
    let (silent, same_file, same_stop) = pause-Effect c.engine.state c.engine in
    record {
      songs = v.songs;
      plays =
          λ h. let (some_songs, at) = v.plays (sym same_stop ∙ h) in (some_songs, same_file ∙ at);
      same_album = v.same_album;
      monitored = v.monitored;
      announced = announce c.events _ (pause_engine c.engine).state c.queue.playlist silent;
    }

pub set_volume-IsInStep :
    (percent : ℤ) {c : Controller} → IsInStep c → IsInStep (set_volume percent c)
unfolding set_volume set_engine_volume
set_volume-IsInStep percent {c} v =
    quiet-IsInStep c (set_engine_volume percent c.engine) c.queue refl (refl, refl) v

-- The queue stands on a song that is to be loaded.
pub record IsMoved (q : SongQueue) (path : Text) (album : List Text) (monitoring : Bool)
    : Type 0 where
  pub songs : All IsSong q.playlist
  pub some_songs : is_empty q.playlist ≡ false
  pub at : get_current_song_path q ≡ path
  pub same_album : q.playlist ≡ album
  pub monitored : monitoring ≡ not (is_empty album)

pub Finds-IsMoved :
    (c : Controller) (r : SongQueue × Text)
    → IsInStep c
    → Finds c.queue r
    → IsMoved r.0 r.1 c.current_album c.monitoring
Finds-IsMoved c r v (same, some_songs, at) = record {
  songs = subst (All IsSong) (sym same) v.songs;
  some_songs = ap is_empty same ∙ some_songs;
  at = at;
  same_album = same ∙ v.same_album some_songs;
  monitored = v.monitored;
}

pub held_not_stopped : (s : State) → is_in_paused s ≡ true → is_in_stopped s ≡ false
held_not_stopped paused h = refl
held_not_stopped playing h = refl
held_not_stopped stopped h = cc

-- An event about something else than the end of playback.
pub relabelled :
    (c : Controller) (e : PlaybackEvent)
    → IsInStep c
    → ((s : State) (paths : List Text) → Announced (some e.kind) s paths)
    → IsInStep (record c { events = c.events ++ e ∷ [] })
relabelled c e v harmless = record {
  songs = v.songs;
  plays = v.plays;
  same_album = v.same_album;
  monitored = v.monitored;
  announced =
      announce c.events e c.engine.state c.queue.playlist
        (harmless c.engine.state c.queue.playlist);
}
