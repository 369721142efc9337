-- ===== src/Tui/FileManager/Selection.antt =====
-- The selections stay inside the menus.
use musi_tui.Base.{
  ℕ, zero, suc, ◌<◌, ◌≡◌, refl, Bool, true, false, not, ◌&&◌, List, [], ◌∷◌, Option, none, some,
  arith, inl, inr, Bool-cases, ltb, leb, ◌==◌, if◌then◌else◌, length, is_empty, get_elem?,
}
use musi_tui.Base.Text.{Text}
use musi_tui.Tui.FileManager.{
  Snapshot, FileManager, Asked, reload, wheel_up, wheel_down, album_return, song_return,
  song_backspace, refresh, before_frame, shown, first_songs, clamp_selection,
}

-- A selection is an entry of its menu, unless the menu is empty.
abbrev Inside : ℕ → ℕ → Type 0
Inside selected size = (leb size selected && ltb 0 size) ≡ false

-- The menus agree: a list of songs for each album, and both selections inside.
pub record IsConsistent (f : FileManager) : Type 0 where
  pub paired : length f.songs_per_album ≡ length f.albums
  pub album_inside : Inside f.selected_album (length f.albums)
  pub song_inside : Inside f.selected_song (length f.current_songs)

-- The queries agree with each other if nothing changes the library between them.
abbrev pub Agrees : Snapshot → Type 0
Agrees q = length q.song_names ≡ length q.album_names

-- An event at one of the menus, or the start of a frame. The menus of FTXUI move the selection within
-- their entries.
pub data Event : Type 0 where
  album_chosen : ℕ → Event
  song_chosen : ℕ → Event
  album_wheel_up : Event
  album_wheel_down : Event
  song_wheel_up : Event
  song_wheel_down : Event
  album_entered : Event
  song_entered : Event
  backspaced : Event
  framed : Bool → Snapshot → Event

abbrev keep_state : Option (FileManager × Asked) → Option FileManager
keep_state none = none
keep_state (some r) = some r.0

unfoldable pub handle : Event → FileManager → Option FileManager
handle (album_chosen n) f =
    some (if ltb n (length f.albums) then record f { selected_album = n } else f)
handle (song_chosen n) f =
    some (if ltb n (length f.current_songs) then record f { selected_song = n } else f)
handle album_wheel_up f = some (record f { selected_album = wheel_up f.selected_album })
handle album_wheel_down f =
    some (record f { selected_album = wheel_down f.selected_album (length f.albums) })
handle song_wheel_up f = some (record f { selected_song = wheel_up f.selected_song })
handle song_wheel_down f =
    some (record f { selected_song = wheel_down f.selected_song (length f.current_songs) })
handle album_entered f = keep_state (album_return f)
handle song_entered f = keep_state (song_return f)
handle backspaced f = some (song_backspace f)
handle (framed flag q) f = before_frame flag q f

-- What a frame reads agrees, and a song is entered only while there are albums.
abbrev Fair : Event → FileManager → Type 0
Fair (framed flag q) f = Agrees q
Fair song_entered f = is_empty f.albums ≡ false
Fair _ f = Unit

-- The result exists, and the menus still agree.
unfoldable pub Settles : Option FileManager → Type 0
Settles none = ⊥
Settles (some f) = IsConsistent f

get-inside :
    {A : Type 0} (xs : List A) (n : ℕ) → n < length xs → (x : A) × (get_elem? xs n ≡ some x)
get-inside [] n h = absurd (omega arith)
get-inside (x ∷ xs) zero h = (x, refl)
get-inside (x ∷ xs) (suc n) h = get-inside xs n (omega arith)

Inside-lt : (n size : ℕ) → Inside n size → 0 < size → n < size
Inside-lt n size h k = ground arith

has : (xs : List Text) → is_empty xs ≡ false → 0 < length xs
has [] h = cc
has (x ∷ xs) h = omega arith

reload-Settles : (q : Snapshot) → Agrees q → Settles (reload q)
unfolding reload Settles
reload-Settles q agrees = by_albums q.album_names agrees
  where
    by_albums :
        (names : List Text)
        → length q.song_names ≡ length names
        → Settles (shown (record q { album_names = names }) (first_songs names q.song_names))
    by_albums [] e = record { paired = e; album_inside = refl; song_inside = refl }
    by_albums (a ∷ names) e =
        let (songs, first) = get-inside q.song_names 0 (omega arith) in
        rw first (record { paired = e; album_inside = ground arith; song_inside = ground arith })

refresh-Settles :
    (q : Snapshot) (f : FileManager) → Agrees q → IsConsistent f → Settles (refresh q f)
unfolding refresh Settles
refresh-Settles q f agrees v = elim (Bool-cases (f.viewing_songs && not (is_empty q.album_names))) [
  | inl viewing ↦
      let (songs, read) =
        get-inside q.song_names (clamp_selection f.selected_album (length q.album_names))
          (some_album q.album_names agrees viewing) in
      rw (viewing, read, refresh)
        (record { paired = agrees; album_inside = ground arith; song_inside = ground arith })
  | inr elsewhere ↦
      rw (elsewhere, refresh)
        (record { paired = agrees; album_inside = ground arith; song_inside = v.song_inside })
]
  where
    some_album :
        (names : List Text)
        → length q.song_names ≡ length names
        → f.viewing_songs && not (is_empty names) ≡ true
        → clamp_selection f.selected_album (length names) < length q.song_names
    some_album [] e h = ground arith
    some_album (a ∷ names) e h = ground (arith, e)

album_return-Settles : (f : FileManager) → IsConsistent f → Settles (keep_state (album_return f))
unfolding album_return Settles
album_return-Settles f v = elim (Bool-cases (is_empty f.albums)) [
  | inl none_there ↦ rw (none_there, album_return) v
  | inr there ↦
      let inside =
        Inside-lt f.selected_album (length f.albums) v.album_inside (has f.albums there) in
      let (album, named) = get-inside f.albums f.selected_album inside in
      let (songs, listed) =
        get-inside f.songs_per_album f.selected_album (omega (arith, v.paired)) in
      rw (there, named, listed, album_return)
        (record { paired = v.paired; album_inside = v.album_inside; song_inside = ground arith })
]

song_return-Settles :
    (f : FileManager)
    → IsConsistent f
    → is_empty f.albums ≡ false
    → Settles (keep_state (song_return f))
unfolding song_return Settles
song_return-Settles f v there = elim (Bool-cases (is_empty f.current_songs)) [
  | inl none_there ↦ rw (none_there, song_return) v
  | inr songs_there ↦
      let inside =
        Inside-lt f.selected_album (length f.albums) v.album_inside (has f.albums there) in
      let (album, named) = get-inside f.albums f.selected_album inside in
      rw (songs_there, named, song_return) v
]

before_frame-Settles :
    (flag : Bool) (q : Snapshot) (f : FileManager)
    → Agrees q
    → IsConsistent f
    → Settles (before_frame flag q f)
unfolding before_frame Settles
before_frame-Settles true q f agrees v = reload-Settles q agrees
before_frame-Settles false q f agrees v = elim (Bool-cases (q.version == f.last_version)) [
  | inl same ↦ rw (same, before_frame) v
  | inr newer ↦ rw (newer, before_frame) (refresh-Settles q f agrees v)
]

-- While the queries of a frame agree with each other and no song is entered in a list without albums:
-- from menus that agree, every event gives menus that agree, with both selections inside, and no
-- access outside a vector.
pub handle-Settles :
    (e : Event) (f : FileManager) → IsConsistent f → Fair e f → Settles (handle e f)
unfolding handle Settles wheel_up wheel_down song_backspace
handle-Settles (album_chosen n) f v fair = elim (Bool-cases (ltb n (length f.albums))) [
  | inl inside ↦
      rw inside
        (record { paired = v.paired; album_inside = ground arith; song_inside = v.song_inside })
  | inr outside ↦ rw outside v
]
handle-Settles (song_chosen n) f v fair = elim (Bool-cases (ltb n (length f.current_songs))) [
  | inl inside ↦
      rw inside
        (record { paired = v.paired; album_inside = v.album_inside; song_inside = ground arith })
  | inr outside ↦ rw outside v
]
handle-Settles album_wheel_up f v fair = record {
  paired = v.paired;
  album_inside = ground (arith, v.album_inside);
  song_inside = v.song_inside;
}
handle-Settles album_wheel_down f v fair = record {
  paired = v.paired;
  album_inside = ground (arith, v.album_inside);
  song_inside = v.song_inside;
}
handle-Settles song_wheel_up f v fair = record {
  paired = v.paired;
  album_inside = v.album_inside;
  song_inside = ground (arith, v.song_inside);
}
handle-Settles song_wheel_down f v fair = record {
  paired = v.paired;
  album_inside = v.album_inside;
  song_inside = ground (arith, v.song_inside);
}
handle-Settles album_entered f v fair = album_return-Settles f v
handle-Settles song_entered f v fair = song_return-Settles f v fair
handle-Settles backspaced f v fair = record {
  paired = v.paired;
  album_inside = v.album_inside;
  song_inside = v.song_inside;
}
handle-Settles (framed flag q) f v fair = before_frame-Settles flag q f fair v
