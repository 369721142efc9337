-- ===== src/Player/Controller/Steps/Songs.antt =====
-- The calls that load songs, and those that open devices.
use musi_tui.Base.{refl, sym, ◌∙◌, inl, inr, ◌++◌, Bool-cases, is_empty}
use musi_tui.Base.Int.{ℤ}
use musi_tui.Base.Text.{Text, codes}
use musi_tui.Player.Engine.{World, stop_playback, say}
use musi_tui.Player.Engine.Load.{load}
use musi_tui.Player.Engine.Device.{set_output_device as set_engine_device}
use musi_tui.Player.Engine.File.{play-file, load-Loaded, set_output_device-Same}
use musi_tui.Player.SongQueue.{
  get_current_song_path, skip_to, next as next_in_queue, previous as previous_in_queue,
}
use musi_tui.Player.SongQueue.Cursor.{IsValid}
use musi_tui.Player.SongQueue.Found.{
  next-Finds, previous-Finds, skip_to-Finds, previous_stays, skip_to_stays,
}
use musi_tui.Player.Controller.{
  Controller, load_and_play_song, play, next, previous, play_song_at_index, handle_auto_advance,
  set_output_device, is_in_paused,
}
use musi_tui.Player.Controller.Steps.{
  IsInStep, IsMoved, announce, never_both, quiet-IsInStep, finish_album-IsInStep, Finds-IsMoved,
  held_not_stopped, relabelled,
}

module _ (world : World) where
  load_and_play_song-IsInStep :
      (path : Text) (c : Controller)
      → IsMoved c.queue path c.current_album c.monitoring
      → IsInStep (load_and_play_song world path c)
  unfolding load_and_play_song
  load_and_play_song-IsInStep path c m =
      let result = load world path (stop_playback c.engine) in
      let loaded = load-Loaded world path (stop_playback c.engine) in
      elim (Bool-cases result.1) [
        | inl ok ↦
            rw (ok, load_and_play_song)
              (record {
                songs = m.songs;
                plays = λ h. (
                  m.some_songs,
                  play-file world (say (codes "Now playing: " ++ world.filename path) result.0)
                      ∙ loaded.0 ok
                      ∙ sym m.at,
                );
                same_album = λ h. m.same_album;
                monitored = m.monitored;
                announced = announce c.events _ _ c.queue.playlist tt;
              })
        | inr bad ↦
            rw (bad, load_and_play_song)
              (record {
                songs = m.songs;
                plays = λ h. absurd (never_both (loaded.1 bad) h);
                same_album = λ h. m.same_album;
                monitored = m.monitored;
                announced = announce c.events _ _ c.queue.playlist tt;
              })
      ]

  pub next-IsInStep : {c : Controller} → IsValid c.queue → IsInStep c → IsInStep (next world c)
  unfolding next
  next-IsInStep {c} q v =
      let r = next_in_queue c.queue in
      elim (Bool-cases (is_empty r.1)) [
        | inl over ↦ rw (over, next) (finish_album-IsInStep (record c { queue = r.0 }) v.monitored)
        | inr more ↦
            rw (more, next)
              (relabelled (load_and_play_song world r.1 (record c { queue = r.0 })) _
                (load_and_play_song-IsInStep r.1 (record c { queue = r.0 })
                  (Finds-IsMoved c r v (next-Finds q more)))
                (λ s paths. tt))
      ]

  pub handle_auto_advance-IsInStep :
      {c : Controller} → IsValid c.queue → IsInStep c → IsInStep (handle_auto_advance world c)
  unfolding handle_auto_advance
  handle_auto_advance-IsInStep {c} q v =
      let r = next_in_queue c.queue in
      let moved = record c { queue = r.0; engine = say (codes "Auto-advancing...") c.engine } in
      elim (Bool-cases (is_empty r.1)) [
        | inl over ↦ rw (over, handle_auto_advance) (finish_album-IsInStep moved v.monitored)
        | inr more ↦
            rw (more, handle_auto_advance)
              (relabelled (load_and_play_song world r.1 moved) _
                (load_and_play_song-IsInStep r.1 moved (Finds-IsMoved c r v (next-Finds q more)))
                (λ s paths. tt))
      ]

  pub previous-IsInStep :
      {c : Controller} → IsValid c.queue → IsInStep c → IsInStep (previous world c)
  unfolding previous
  previous-IsInStep {c} q v =
      let r = previous_in_queue c.queue in
      elim (Bool-cases (is_empty r.1)) [
        | inl first ↦
            rw (first, previous)
              (quiet-IsInStep c (say (codes "Already at first song") c.engine) r.0
                (previous_stays q v.songs first) (refl, refl) v)
        | inr more ↦
            rw (more, previous)
              (relabelled (load_and_play_song world r.1 (record c { queue = r.0 })) _
                (load_and_play_song-IsInStep r.1 (record c { queue = r.0 })
                  (Finds-IsMoved c r v (previous-Finds q more)))
                (λ s paths. tt))
      ]

  pub play_song_at_index-IsInStep :
      (index : ℤ) {c : Controller} → IsInStep c → IsInStep (play_song_at_index world index c)
  unfolding play_song_at_index
  play_song_at_index-IsInStep index {c} v =
      let r = skip_to index c.queue in
      elim (Bool-cases (is_empty c.queue.playlist)) [
        | inl nothing ↦
            rw (nothing, play_song_at_index) (quiet-IsInStep c _ c.queue refl (refl, refl) v)
        | inr songs ↦ elim (Bool-cases (is_empty r.1)) [
          | inl outside ↦
              rw (songs, outside, play_song_at_index)
                (quiet-IsInStep c _ r.0 (skip_to_stays c.queue index v.songs outside) (refl, refl)
                  v)
          | inr there ↦
              rw (songs, there, play_song_at_index)
                (load_and_play_song-IsInStep r.1 (record c { queue = r.0 })
                  (Finds-IsMoved c r v (skip_to-Finds c.queue index songs there)))
        ]
      ]

  pub play-IsInStep : {c : Controller} → IsInStep c → IsInStep (play world c)
  unfolding play
  play-IsInStep {c} v = elim (Bool-cases (is_empty c.queue.playlist)) [
    | inl nothing ↦ rw (nothing, play) (quiet-IsInStep c _ c.queue refl (refl, refl) v)
    | inr songs ↦ elim (Bool-cases (is_in_paused c.engine.state)) [
      | inl held ↦
          rw (songs, held, play)
            (record {
              songs = v.songs;
              plays = λ h.
                  let (some_songs, at) = v.plays (held_not_stopped c.engine.state held) in
                  (some_songs, play-file world c.engine ∙ at);
              same_album = v.same_album;
              monitored = v.monitored;
              announced = announce c.events _ _ c.queue.playlist tt;
            })
      | inr free ↦ elim (Bool-cases (is_empty (get_current_song_path c.queue))) [
        | inl nowhere ↦
            rw (songs, free, nowhere, play) (quiet-IsInStep c _ c.queue refl (refl, refl) v)
        | inr there ↦
            rw (songs, free, there, play)
              (load_and_play_song-IsInStep (get_current_song_path c.queue) c
                (Finds-IsMoved c (c.queue, get_current_song_path c.queue) v (refl, songs, refl)))
      ]
    ]
  ]

  pub set_output_device-IsInStep :
      (name : Text) {c : Controller} → IsInStep c → IsInStep (set_output_device world name c).0
  unfolding set_output_device
  set_output_device-IsInStep name {c} v =
      quiet-IsInStep c (set_engine_device world name c.engine).0 c.queue refl
        (set_output_device-Same world name c.engine) v
