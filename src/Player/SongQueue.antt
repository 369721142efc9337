-- ===== src/Player/SongQueue.antt =====
-- src/player/SongQueue.cpp. A path is its text, and `{}` the empty one. The mutex makes each call
-- one step; the pre-warm thread is joined before the playlist changes, so a pass of its loop sees
-- one playlist. An index that the code does not test is read by `path_at`, which is empty outside.
pub mod Cursor
pub mod Found
pub mod PreWarm
pub mod Reachable
mod Tests
use musi_tui.Base.{
  ℕ, zero, suc, ◌+◌, Bool, true, false, ◌&&◌, ◌||◌, List, [], ◌∷◌, if◌then◌else◌, length, get_or,
  is_empty,
}
use musi_tui.Base.Int.{ℤ, pos, negsuc, ◌+ℤ◌, ltb_ℤ, leb_ℤ}
use musi_tui.Base.Text.{Text}

pub record SongQueue : Type 0 where
  pub playlist : List Text
  pub current_index : ℤ
  pub pre_warmed_up_to : ℤ
  pub warming : Bool

abbrev pub minus_one : ℤ
minus_one = negsuc 0

abbrev pub size : SongQueue → ℤ
size q = pos (length q.playlist)

abbrev pub path_at : List Text → ℤ → Text
path_at paths (pos n) = get_or paths n []
path_at paths (negsuc n) = []

unfoldable pub init : SongQueue
init = record {
  playlist = [];
  current_index = minus_one;
  pre_warmed_up_to = minus_one;
  warming = false;
}

-- The old thread has been stopped and joined; a new one runs over a playlist that has songs.
unfoldable pub load_playlist : List Text → SongQueue → SongQueue
load_playlist paths q = record {
  playlist = paths;
  current_index = if is_empty paths then minus_one else pos 0;
  pre_warmed_up_to = minus_one;
  warming = if is_empty paths then false else true;
}

unfoldable pub get_current_song_path : SongQueue → Text
get_current_song_path q =
    if ltb_ℤ q.current_index (pos 0) || leb_ℤ (size q) q.current_index
    then []
    else path_at q.playlist q.current_index

unfoldable pub next : SongQueue → SongQueue × Text
next q =
    let index = q.current_index +ℤ pos 1 in
    if ltb_ℤ q.current_index (pos 0) || is_empty q.playlist
    then (q, [])
    else if leb_ℤ (size q) index
    then (record q { current_index = size q +ℤ minus_one }, [])
    else (record q { current_index = index }, path_at q.playlist index)

unfoldable pub previous : SongQueue → SongQueue × Text
previous q =
    let index = q.current_index +ℤ minus_one in
    if leb_ℤ q.current_index (pos 0) || is_empty q.playlist
    then (q, [])
    else (record q { current_index = index }, path_at q.playlist index)

unfoldable pub skip_to : ℤ → SongQueue → SongQueue × Text
skip_to index q =
    if ltb_ℤ index (pos 0) || leb_ℤ (size q) index
    then (q, [])
    else (record q { current_index = index }, path_at q.playlist index)

unfoldable pub get_next_song_path : SongQueue → Text
get_next_song_path q =
    let index = q.current_index +ℤ pos 1 in
    if ltb_ℤ index (pos 0) || leb_ℤ (size q) index then [] else path_at q.playlist index

unfoldable pub is_next_song_ready : SongQueue → Bool
is_next_song_ready q = leb_ℤ (q.current_index +ℤ pos 1) q.pre_warmed_up_to

unfoldable pub clear : SongQueue → SongQueue
clear q = record {
  playlist = [];
  current_index = minus_one;
  pre_warmed_up_to = minus_one;
  warming = false;
}

abbrev pub pre_warm_ahead_count : ℤ
pre_warm_ahead_count = pos 3

-- `preWarmSong` on a path, as far as the queue sees it.
module _ (pre_warm_song : Text → Bool) where
  -- The `for` loop of a pass from index `i` on; a stop is requested after `rounds` of it.
  pub warm_from : ℕ → ℤ → ℤ → SongQueue → SongQueue
  warm_from zero i target q = q
  warm_from (suc rounds) i target q =
      let song = path_at q.playlist i in
      let later =
        warm_from rounds (i +ℤ pos 1) target
          (if pre_warm_song song then record q { pre_warmed_up_to = i } else q) in
      if leb_ℤ i target && ltb_ℤ i (size q) then later else q

  -- One pass of `preWarmLoop`.
  unfoldable pub pre_warm_pass : ℕ → SongQueue → SongQueue
  unfolding warm_from
  pre_warm_pass rounds q =
      warm_from rounds (q.pre_warmed_up_to +ℤ pos 1) (q.current_index +ℤ pre_warm_ahead_count) q
