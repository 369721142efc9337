-- ===== src/Player/Controller/Driven.antt =====
-- The controllers that calls lead to.
use musi_tui.Base.{List, All}
use musi_tui.Base.Int.{ℤ}
use musi_tui.Base.Text.{Text}
use musi_tui.Player.Engine.{World}
use musi_tui.Player.Engine.Invariant.{pause-IsValid, set_volume-IsValid}
use musi_tui.Player.Engine.Effects.{set_output_device-IsValid}
use musi_tui.Player.SongQueue.Cursor.{IsSong}
use musi_tui.Player.Controller.{
  Controller, stop, pause, set_volume, load_album, play, next, previous, play_song_at_index,
  handle_auto_advance, set_output_device,
}
use musi_tui.Player.Controller.Invariant.{
  IsWellFormed, stop-IsWellFormed, load_album-IsWellFormed, next-IsWellFormed,
  previous-IsWellFormed, play_song_at_index-IsWellFormed, handle_auto_advance-IsWellFormed,
  play-IsWellFormed,
}
use musi_tui.Player.Controller.Steps.{
  IsInStep, stop-IsInStep, load_album-IsInStep, pause-IsInStep, set_volume-IsInStep,
}
use musi_tui.Player.Controller.Steps.Songs.{
  next-IsInStep, previous-IsInStep, play_song_at_index-IsInStep, handle_auto_advance-IsInStep,
  play-IsInStep, set_output_device-IsInStep,
}

-- The controllers that calls lead to; the world may change from one call to the next.
pub data Driven (c : Controller) : Controller → Type 0 where
  untouched : Driven c c
  album :
      {d : Controller} (paths : List Text)
      → All IsSong paths
      → Driven c d
      → Driven c (load_album paths d)
  resumed : {d : Controller} (w : World) → Driven c d → Driven c (play w d)
  paused_once : {d : Controller} → Driven c d → Driven c (pause d)
  halted : {d : Controller} → Driven c d → Driven c (stop d)
  forth : {d : Controller} (w : World) → Driven c d → Driven c (next w d)
  back : {d : Controller} (w : World) → Driven c d → Driven c (previous w d)
  picked :
      {d : Controller} (w : World) (index : ℤ)
      → Driven c d
      → Driven c (play_song_at_index w index d)
  advanced : {d : Controller} (w : World) → Driven c d → Driven c (handle_auto_advance w d)
  louder : {d : Controller} (percent : ℤ) → Driven c d → Driven c (set_volume percent d)
  switched :
      {d : Controller} (w : World) (name : Text)
      → Driven c d
      → Driven c (set_output_device w name d).0

-- The engine and the queue are well formed, and the controller keeps them in step.
pub record IsSound (c : Controller) : Type 0 where
  pub formed : IsWellFormed c
  pub in_step : IsInStep c

-- Whatever the calls on a controller, auto-advance among them, on albums of paths that are not empty,
-- and whatever files and devices open in each: if all this holds at first, it does so at the end.
-- The engine and the queue keep their own invariants. Unless the engine is stopped, there is a
-- playlist, and the file that is loaded is its current song. A playlist that is not empty is the
-- current album, and the end of songs is monitored exactly while there is an album. After
-- `SongStopped` and `AlbumFinished` the engine stays stopped and without a playlist until the next
-- event, and after `SongPaused` it does not play.
pub Driven-IsSound : {c d : Controller} → IsSound c → Driven c d → IsSound d
unfolding pause set_volume set_output_device
Driven-IsSound v untouched = v
Driven-IsSound v (album {d} paths songs r) = record {
  formed = load_album-IsWellFormed paths (Driven-IsSound v r).formed;
  in_step = load_album-IsInStep paths d songs;
}
Driven-IsSound v (resumed w r) =
    let b = Driven-IsSound v r in
    record { formed = play-IsWellFormed w b.formed; in_step = play-IsInStep w b.in_step }
Driven-IsSound v (paused_once r) =
    let b = Driven-IsSound v r in
    record {
      formed = record { engine = pause-IsValid b.formed.engine; queue = b.formed.queue };
      in_step = pause-IsInStep b.in_step;
    }
Driven-IsSound v (halted {d} r) = record {
  formed = stop-IsWellFormed (Driven-IsSound v r).formed;
  in_step = stop-IsInStep d;
}
Driven-IsSound v (forth w r) =
    let b = Driven-IsSound v r in
    record {
      formed = next-IsWellFormed w b.formed;
      in_step = next-IsInStep w b.formed.queue b.in_step;
    }
Driven-IsSound v (back w r) =
    let b = Driven-IsSound v r in
    record {
      formed = previous-IsWellFormed w b.formed;
      in_step = previous-IsInStep w b.formed.queue b.in_step;
    }
Driven-IsSound v (picked w index r) =
    let b = Driven-IsSound v r in
    record {
      formed = play_song_at_index-IsWellFormed w index b.formed;
      in_step = play_song_at_index-IsInStep w index b.in_step;
    }
Driven-IsSound v (advanced w r) =
    let b = Driven-IsSound v r in
    record {
      formed = handle_auto_advance-IsWellFormed w b.formed;
      in_step = handle_auto_advance-IsInStep w b.formed.queue b.in_step;
    }
Driven-IsSound v (louder percent r) =
    let b = Driven-IsSound v r in
    record {
      formed = record {
        engine = set_volume-IsValid percent b.formed.engine;
        queue = b.formed.queue;
      };
      in_step = set_volume-IsInStep percent b.in_step;
    }
Driven-IsSound v (switched w name r) =
    let b = Driven-IsSound v r in
    record {
      formed = record {
        engine = set_output_device-IsValid w name b.formed.engine;
        queue = b.formed.queue;
      };
      in_step = set_output_device-IsInStep w name b.in_step;
    }
