-- ===== src/Service/Library/Loading.antt =====
-- Albums are loaded in the background, in any order, while the library keeps its shape.
use musi_tui.Base.{
  ℕ, zero, suc, ◌≡◌, refl, ◌∙◌, sym, ap₂, subst, ltb, ◌&&◌, List, [], ◌∷◌, Option, none, some, inl,
  inr, Bool-cases, Option-cases, map, length, get_or, set,
}
use musi_tui.Base.Text.{Text}
use musi_tui.Base.Path.{filename}
use musi_tui.Library.{Disk}
use musi_tui.Library.Album.{Album, skeleton, new_album, load, load_songs_from_directory}
use musi_tui.Library.Collection.{replace_album}
use musi_tui.Service.Library.{LibraryService, Load, claim, deliver, get_album_names}

-- An album as its directory makes it, loaded or not.
abbrev Titled : Text → Album → Type 0
Titled path a = (a.dir_path ≡ path) × (a.title ≡ filename path)

-- The albums are those of the paths, in their order.
unfoldable pub Matches : List Text → List Album → Type 0
Matches [] [] = Unit
Matches [] (a ∷ albums) = ⊥
Matches (p ∷ paths) [] = ⊥
Matches (p ∷ paths) (a ∷ albums) = Titled p a × Matches paths albums

-- What holds of a result, if there is one.
abbrev Whenever : {A : Type 0} → (A → Type 0) → Option A → Type 0
Whenever P none = Unit
Whenever P (some a) = P a

new_album-Titled : (disk : Disk) (path : Text) → Whenever (Titled path) (new_album disk path)
unfolding new_album load skeleton
new_album-Titled disk path =
    elim (Option-cases (load_songs_from_directory disk path (filename path) [])) [
      | inl threw ↦ rw (new_album, load, threw) tt
      | inr (songs, read) ↦ rw (new_album, load, read) (refl, refl)
    ]

set-Matches :
    (paths : List Text) (albums : List Album) (i : ℕ) (a : Album)
    → Titled (get_or paths i []) a
    → Matches paths albums
    → Matches paths (set albums i a)
unfolding Matches
set-Matches [] [] i a h m = tt
set-Matches [] (b ∷ albums) i a h m = absurd m
set-Matches (p ∷ paths) [] i a h m = absurd m
set-Matches (p ∷ paths) (b ∷ albums) zero a h (hb, m) = (h, m)
set-Matches (p ∷ paths) (b ∷ albums) (suc i) a h (hb, m) = (hb, set-Matches paths albums i a h m)

Matches-names :
    (paths : List Text) (albums : List Album)
    → Matches paths albums
    → map (λ a. a.title) albums ≡ map filename paths
unfolding Matches
Matches-names [] [] m = refl
Matches-names [] (a ∷ albums) m = absurd m
Matches-names (p ∷ paths) [] m = absurd m
Matches-names (p ∷ paths) (a ∷ albums) ((hp, ht), m) =
    ap₂ (λ t ts. t ∷ ts) ht (Matches-names paths albums m)

-- What the loaders can do to the service: one takes the next index, or one puts in the album of an
-- index, in any order. That it has taken this index before plays no part.
pub data Loads (disk : Disk) (l : Load) : LibraryService → LibraryService → Type 0 where
  idle : {s : LibraryService} → Loads disk l s s
  claimed : {s s' : LibraryService} → Loads disk l s s' → Loads disk l s (claim s')
  delivered :
      {s s' s'' : LibraryService} (i : ℕ)
      → Loads disk l s s'
      → deliver disk l i s' ≡ some s''
      → Loads disk l s s''

claim-library : (s : LibraryService) → (claim s).library ≡ s.library
unfolding claim
claim-library s = elim (Option-cases s.load) [
  | inl none_runs ↦ rw (claim, none_runs) refl
  | inr (l, runs) ↦
      elim (Bool-cases (ltb (length l.at_work) l.workers && ltb l.next_album (length l.paths))) [
        | inl left ↦ rw (claim, runs, left) refl
        | inr over ↦ rw (claim, runs, over) refl
      ]
]

deliver-Matches :
    (disk : Disk) (l : Load) (i : ℕ) (s : LibraryService)
    → Matches l.paths s.library.albums
    → Whenever (λ t. Matches l.paths t.library.albums) (deliver disk l i s)
unfolding deliver replace_album
deliver-Matches disk l i s m = elim (Option-cases (new_album disk (get_or l.paths i []))) [
  | inl threw ↦ rw (deliver, threw) tt
  | inr (a, made) ↦
      rw (deliver, made)
        (set-Matches l.paths s.library.albums i a
          (rw made at (new_album-Titled disk (get_or l.paths i []))) m)
]

Loads-Matches :
    {disk : Disk} {l : Load} {s s' : LibraryService}
    → Loads disk l s s'
    → Matches l.paths s.library.albums
    → Matches l.paths s'.library.albums
Loads-Matches idle m = m
Loads-Matches {l = l} (claimed {s' = s'} run) m =
    subst (λ t. Matches l.paths t.albums) (sym (claim-library s')) (Loads-Matches run m)
Loads-Matches {disk} {l} (delivered {s' = s'} i run done) m =
    subst (Whenever (λ t. Matches l.paths t.library.albums)) done
      (deliver-Matches disk l i s' (Loads-Matches run m))

-- However the loaders interleave: the names of the albums stay what they were, in their order.
pub get_album_names-Loads :
    {disk : Disk} {l : Load} {s s' : LibraryService}
    → Matches l.paths s.library.albums
    → Loads disk l s s'
    → get_album_names s' ≡ get_album_names s
unfolding get_album_names
get_album_names-Loads {l = l} {s} {s'} m run =
    Matches-names l.paths s'.library.albums (Loads-Matches run m)
    ∙ sym (Matches-names l.paths s.library.albums m)
