-- ===== src/Process/Watcher.antt =====
-- src/util/DirectoryWatcher.cpp. What the file system answers is a parameter of each look at it.
pub mod Changes
pub mod Reports
use musi_tui.Base.{
  ℕ, Bool, true, false, not, ◌&&◌, List, [], ◌∷◌, Option, none, some, if◌then◌else◌, is_empty,
}
use musi_tui.Base.Text.{Text, text_eq, text_lt}
use musi_tui.Base.Path.{filename}
use musi_tui.Library.{Entry}

-- A `std::set` of names, in order.
unfoldable pub insert : Text → List Text → List Text
insert name [] = name ∷ []
insert name (n ∷ names) =
    if text_lt name n
    then name ∷ n ∷ names
    else if text_eq name n
    then n ∷ names
    else n ∷ insert name names

abbrev pub same_names : List Text → List Text → Bool
same_names [] [] = true
same_names [] (b ∷ bs) = false
same_names (a ∷ as') [] = false
same_names (a ∷ as') (b ∷ bs) = text_eq a b && same_names as' bs

unfoldable pub directories : List Entry → List Text → List Text
unfolding insert
directories [] names = names
directories (e ∷ es) names =
    directories es (if e.is_directory then insert (filename e.path) names else names)

-- The entries of a directory, none where it cannot be walked.
abbrev pub Listing : Type 0
Listing = Text → List Entry

unfoldable pub snapshot : Listing → Text → List Text
unfolding directories
snapshot listing root = if is_empty root then [] else directories (listing root) []

-- A look, two seconds after the last one: the root that is configured, and the file system.
pub record Look : Type 0 where
  pub root : Text
  pub listing : Listing

-- The roots that the callback is called with, from the last snapshot on.
unfoldable pub watch : List Text → List Look → List Text
watch last [] = []
watch last (look ∷ looks) =
    let current = snapshot look.listing look.root in
    let seen = watch current looks in
    let missed = watch last looks in
    if is_empty look.root
    then missed
    else if same_names current last
    then missed
    else look.root ∷ seen

-- `run`, until it is stopped.
unfoldable pub run : Look → List Look → List Text
unfolding watch
run start looks = watch (snapshot start.listing start.root) looks
