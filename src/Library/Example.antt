-- ===== src/Library/Example.antt =====
-- A small disk for the tests: a root with one album, a playlist and a hidden directory.
use musi_tui.Base.{true, false, List, [], ◌∷◌, Option, none, some, if◌then◌else◌}
use musi_tui.Base.Text.{Text, codes, text_eq}
use musi_tui.Library.{Entry, Disk}

abbrev file : Text → Entry
file path = record { path = path; is_directory = false; is_regular_file = true }

abbrev directory : Text → Entry
directory path = record { path = path; is_directory = true; is_regular_file = false }

abbrev pub root_entries : List Entry
root_entries =
    directory (codes "/m/Low") ∷ directory (codes "/m/.old") ∷ directory (codes "/m/Mix") ∷ []

abbrev pub low_entries : List Entry
low_entries =
    file (codes "/m/Low/b.mp3") ∷ file (codes "/m/Low/cover.jpg") ∷ file (codes "/m/Low/a.MP3") ∷ []

abbrev read_directory : Text → Option (List Entry)
read_directory path =
    if text_eq path (codes "/m")
    then some root_entries
    else if text_eq path (codes "/m/Low")
    then some low_entries
    else if text_eq path (codes "/m/Mix")
    then some (file (codes "/m/Mix/x.wav") ∷ [])
    else none

abbrev pub disk : Disk
disk = record {
  exists = λ p. true;
  is_directory = λ p. true;
  entries = read_directory;
  file_size = λ p. some 4800000;
  decoded = λ p.
      some (record { sample_rate = 44100; channels = 2; total_samples = 0; frames = 1152 ∷ [] });
}
