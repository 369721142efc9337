-- ===== src/Player/Controller/Invariant.antt =====
-- The controller's calls keep the engine and the queue well formed.
use musi_tui.Base.{List, [], ◌∷◌, inl, inr, Bool-cases, is_empty}
use musi_tui.Base.Int.{ℤ}
use musi_tui.Base.Text.{Text, codes}
use musi_tui.Player.Engine.{World, stop_playback, say}
use musi_tui.Player.Engine.Load.{load}
use musi_tui.Player.Engine.Invariant.{IsValid as IsValidEngine, stop_playback-IsValid}
use musi_tui.Player.Engine.Effects.{play-IsValid, told}
use musi_tui.Player.Engine.Loading.{load-IsValid}
use musi_tui.Player.SongQueue.{
  get_current_song_path, skip_to, next as next_in_queue, previous as previous_in_queue,
}
use musi_tui.Player.SongQueue.Cursor.{
  IsValid as IsValidQueue, load_playlist-IsValid, clear-IsValid, next-IsValid, previous-IsValid,
  skip_to-IsValid,
}
use musi_tui.Player.Controller.{
  Controller, stop, finish_album, load_album, load_and_play_song, play, next, previous,
  play_song_at_index, handle_auto_advance, is_in_paused,
}

pub record IsWellFormed (c : Controller) : Type 0 where
  pub engine : IsValidEngine c.engine
  pub queue : IsValidQueue c.queue

load_and_play_song-IsWellFormed :
    (world : World) (path : Text) {c : Controller}
    → IsWellFormed c
    → IsWellFormed (load_and_play_song world path c)
unfolding load_and_play_song
load_and_play_song-IsWellFormed world path {c} v =
    let loaded = load-IsValid world path (stop_playback-IsValid v.engine) in
    elim (Bool-cases (load world path (stop_playback c.engine)).1) [
      | inl ok ↦
          rw (ok, load_and_play_song)
            (record { engine = play-IsValid world (told loaded); queue = v.queue })
      | inr failed ↦
          rw (failed, load_and_play_song) (record { engine = told loaded; queue = v.queue })
    ]

pub stop-IsWellFormed : {c : Controller} → IsWellFormed c → IsWellFormed (stop c)
unfolding stop
stop-IsWellFormed {c} v = record {
  engine = stop_playback-IsValid v.engine;
  queue = clear-IsValid c.queue;
}

finish_album-IsWellFormed : {c : Controller} → IsWellFormed c → IsWellFormed (finish_album c)
unfolding finish_album
finish_album-IsWellFormed {c} v = record {
  engine = stop_playback-IsValid (told v.engine);
  queue = clear-IsValid c.queue;
}

pub load_album-IsWellFormed :
    (paths : List Text) {c : Controller} → IsWellFormed c → IsWellFormed (load_album paths c)
unfolding load_album
load_album-IsWellFormed [] {c} v = record {
  engine = (stop-IsWellFormed v).engine;
  queue = load_playlist-IsValid [] _;
}
load_album-IsWellFormed (p ∷ ps) {c} v = record {
  engine = told (stop-IsWellFormed v).engine;
  queue = load_playlist-IsValid (p ∷ ps) _;
}

module _ (world : World) where
  pub next-IsWellFormed : {c : Controller} → IsWellFormed c → IsWellFormed (next world c)
  unfolding next
  next-IsWellFormed {c} v =
      let moved : IsWellFormed (record c { queue = (next_in_queue c.queue).0 }) = record {
        engine = v.engine;
        queue = next-IsValid v.queue;
      } in
      elim (Bool-cases (is_empty (next_in_queue c.queue).1)) [
        | inl over ↦ rw (over, next) (finish_album-IsWellFormed moved)
        | inr more ↦
            rw (more, next)
              (let played = load_and_play_song-IsWellFormed world (next_in_queue c.queue).1 moved in
                record { engine = played.engine; queue = played.queue })
      ]

  pub previous-IsWellFormed : {c : Controller} → IsWellFormed c → IsWellFormed (previous world c)
  unfolding previous
  previous-IsWellFormed {c} v =
      let moved : IsWellFormed (record c { queue = (previous_in_queue c.queue).0 }) = record {
        engine = v.engine;
        queue = previous-IsValid v.queue;
      } in
      elim (Bool-cases (is_empty (previous_in_queue c.queue).1)) [
        | inl first ↦
            rw (first, previous) (record { engine = told moved.engine; queue = moved.queue })
        | inr more ↦
            rw (more, previous)
              (let played =
                  load_and_play_song-IsWellFormed world (previous_in_queue c.queue).1 moved in
                record { engine = played.engine; queue = played.queue })
      ]

  pub play_song_at_index-IsWellFormed :
      (index : ℤ) {c : Controller}
      → IsWellFormed c
      → IsWellFormed (play_song_at_index world index c)
  unfolding play_song_at_index
  play_song_at_index-IsWellFormed index {c} v =
      let moved : IsWellFormed (record c { queue = (skip_to index c.queue).0 }) = record {
        engine = v.engine;
        queue = skip_to-IsValid index v.queue;
      } in
      elim (Bool-cases (is_empty c.queue.playlist)) [
        | inl nothing ↦
            rw (nothing, play_song_at_index) (record { engine = told v.engine; queue = v.queue })
        | inr songs ↦ elim (Bool-cases (is_empty (skip_to index c.queue).1)) [
          | inl outside ↦
              rw (songs, outside, play_song_at_index)
                (record { engine = told moved.engine; queue = moved.queue })
          | inr there ↦
              rw (songs, there, play_song_at_index)
                (load_and_play_song-IsWellFormed world (skip_to index c.queue).1 moved)
        ]
      ]

  pub handle_auto_advance-IsWellFormed :
      {c : Controller} → IsWellFormed c → IsWellFormed (handle_auto_advance world c)
  unfolding handle_auto_advance
  handle_auto_advance-IsWellFormed {c} v =
      let moved : IsWellFormed (record c {
        queue = (next_in_queue c.queue).0;
        engine = say (codes "Auto-advancing...") c.engine;
      }) =
        record { engine = told v.engine; queue = next-IsValid v.queue } in
      elim (Bool-cases (is_empty (next_in_queue c.queue).1)) [
        | inl over ↦ rw (over, handle_auto_advance) (finish_album-IsWellFormed moved)
        | inr more ↦
            rw (more, handle_auto_advance)
              (let played = load_and_play_song-IsWellFormed world (next_in_queue c.queue).1 moved in
                record { engine = played.engine; queue = played.queue })
      ]

  pub play-IsWellFormed : {c : Controller} → IsWellFormed c → IsWellFormed (play world c)
  unfolding play
  play-IsWellFormed {c} v = elim (Bool-cases (is_empty c.queue.playlist)) [
    | inl nothing ↦ rw (nothing, play) (record { engine = told v.engine; queue = v.queue })
    | inr songs ↦ elim (Bool-cases (is_in_paused c.engine.state)) [
      | inl held ↦
          rw (songs, held, play) (record { engine = play-IsValid world v.engine; queue = v.queue })
      | inr free ↦ elim (Bool-cases (is_empty (get_current_song_path c.queue))) [
        | inl nowhere ↦
            rw (songs, free, nowhere, play) (record { engine = told v.engine; queue = v.queue })
        | inr there ↦
            rw (songs, free, there, play)
              (load_and_play_song-IsWellFormed world (get_current_song_path c.queue) v)
      ]
    ]
  ]
