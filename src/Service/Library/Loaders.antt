-- ===== src/Service/Library/Loaders.antt =====
-- The moves of the loaders, and what a background load keeps to.
use musi_tui.Base.{
  ℕ, zero, suc, ◌+◌, ◌-◌, ◌*◌, ◌≤◌, ◌<◌, ◌≡◌, refl, sym, subst, ap, ◌&&◌, ◌∙◌, ◌⊎◌, inl, inr, Bool,
  true, false, ◌==◌, ltb, if◌then◌else◌, List, [], ◌∷◌, Option, none, some, map, length, get_or,
  set, arith, any, length-set, get_or-set_self, get_or-set_ne, ℕ_discrete,
}
use musi_tui.Base.Int.{pos}
use musi_tui.Base.Text.{Text}
use musi_tui.Library.{Disk}
use musi_tui.Library.Album.{Album, new_album}
use musi_tui.Library.Collection.{replace_album}
use musi_tui.Service.Library.{
  LibraryService, Load, claim, deliver, without, work_done, next_version,
}

-- A loader takes the next index, or finishes the album that it is at work on.
pub data Move : Type 0 where
  claims : Move
  delivers : ℕ → Move

abbrev pub is_at_work : ℕ → Load → Bool
is_at_work i l = any (λ j. i == j) l.at_work

-- A loader is not at work, and an index is left for it.
abbrev pub is_left : Load → Bool
is_left l = ltb (length l.at_work) l.workers && ltb l.next_album (length l.paths)

pub length-without :
    (i : ℕ) (js : List ℕ) → any (λ j. i == j) js ≡ true → length js ≡ suc (length (without i js))
length-without i [] h = cc
length-without i (j ∷ js) h = ground (arith, length-without i js)

any-without :
    (i k : ℕ) (js : List ℕ) → any (λ j. k == j) (without i js) ≡ true → any (λ j. k == j) js ≡ true
any-without i k [] h = cc
any-without i k (j ∷ js) h = ground (arith, any-without i k js)

without-other :
    (i k : ℕ) (js : List ℕ)
    → (i == k) ≡ false
    → any (λ j. k == j) js ≡ true
    → any (λ j. k == j) (without i js) ≡ true
without-other i k [] ne h = cc
without-other i k (j ∷ js) ne h = ground (arith, without-other i k js)

pub nobody_at_work : (i : ℕ) (js : List ℕ) → any (λ j. i == j) js ≡ true → 0 < length js
nobody_at_work i [] h = cc
nobody_at_work i (j ∷ js) h = omega arith

pub length-map : {A : Type 0} {B : Type 0} (f : A → B) (xs : List A) → length (map f xs) ≡ length xs
length-map f [] = refl
length-map f (x ∷ xs) = ap suc (length-map f xs)

pub get_or-map :
    {A : Type 0} {B : Type 0} (f : A → B) (xs : List A) (i : ℕ) (d : A)
    → get_or (map f xs) i (f d) ≡ f (get_or xs i d)
get_or-map f [] i d = refl
get_or-map f (x ∷ xs) zero d = refl
get_or-map f (x ∷ xs) (suc i) d = get_or-map f xs i d

module _ (disk : Disk) where
  -- A move that a loader can make now.
  abbrev pub move_in : Move → Load → LibraryService → Option LibraryService
  move_in claims l s = if is_left l then some (claim s) else none
  move_in (delivers i) l s = if is_at_work i l then deliver disk l i s else none

  abbrev pub move_with : Move → Option Load → LibraryService → Option LibraryService
  move_with c none s = none
  move_with c (some l) s = move_in c l s

  abbrev pub move : Move → LibraryService → Option LibraryService
  move c s = move_with c s.load s

  unfoldable pub moves : List Move → LibraryService → Option LibraryService
  moves [] s = some s
  moves (c ∷ cs) s = elim (move c s) [ none ↦ none | some t ↦ moves cs t ]

  module _ (paths : List Text) (read : Text → Album) where
    abbrev pub album_at : ℕ → LibraryService → Album
    album_at i s = get_or s.library.albums i (read [])

    -- Each index that was taken is being worked on, or its album is there.
    pub record IsLoading (l : Load) (s : LibraryService) : Type 0 where
      pub running : s.load ≡ some l
      pub staffed : 0 < l.workers
      pub over : l.paths ≡ paths
      pub taken : l.next_album ≤ length paths
      pub kept : length s.library.albums ≡ length paths
      pub at_work_taken : (i : ℕ) → is_at_work i l ≡ true → i < l.next_album
      pub covered :
          (i : ℕ)
          → i < l.next_album
          → (is_at_work i l ≡ true) ⊎ (album_at i s ≡ read (get_or paths i []))

    -- The moves that are left.
    abbrev pub moves_left : Load → ℕ
    moves_left l = 2 * (length paths - l.next_album) + length l.at_work

    abbrev pub claimed : Load → Load
    claimed l = record l { next_album = suc l.next_album; at_work = l.next_album ∷ l.at_work }

    pub claim_lem :
        (l : Load) (s : LibraryService)
        → s.load ≡ some l
        → is_left l ≡ true
        → claim s ≡ record s { load = some (claimed l) }
    unfolding claim
    claim_lem l s runs left = rw (claim, runs, left) refl

    pub claim-IsLoading :
        (l : Load) (s : LibraryService)
        → IsLoading l s
        → is_left l ≡ true
        → IsLoading (claimed l) (record s { load = some (claimed l) })
    claim-IsLoading l s v left = record {
      running = refl;
      staffed = v.staffed;
      over = v.over;
      taken = ground (arith, ap length v.over);
      kept = v.kept;
      at_work_taken = λ i h. taken_before i h;
      covered = λ i h. covered_after i h;
    }
      where
        taken_before : (i : ℕ) → is_at_work i (claimed l) ≡ true → i < suc l.next_album
        taken_before i h = ground (arith, v.at_work_taken i)

        covered_after :
            (i : ℕ)
            → i < suc l.next_album
            → (is_at_work i (claimed l) ≡ true) ⊎ (album_at i s ≡ read (get_or paths i []))
        covered_after i h = elim (ℕ_discrete i l.next_album) [
          | yes now ↦ inl (ground arith)
          | no before ↦ elim (v.covered i (omega arith)) [
            | inl working ↦ inl (ground arith)
            | inr done ↦ inr done
          ]
        ]

    -- Every album of the list can be read.
    module _
        (reads : (i : ℕ)
          → i < length paths
          → new_album disk (get_or paths i []) ≡ some (read (get_or paths i []))) where
      abbrev pub delivered : ℕ → Load → Load
      delivered i l = record l { at_work = without i l.at_work }

      pub deliver_lem :
          (i : ℕ) (l : Load) (s : LibraryService)
          → s.load ≡ some l
          → l.paths ≡ paths
          → i < length paths
          → (t : LibraryService) × (deliver disk l i s ≡ some t)
            × (t.load ≡ some (delivered i l))
            × (t.library.albums ≡ set s.library.albums i (read (get_or l.paths i [])))
      unfolding deliver replace_album
      deliver_lem i l s runs over inside = (
        record s {
          library = replace_album (pos i) (read (get_or l.paths i [])) s.library;
          data_version = next_version s.data_version;
          load = work_done i s.load;
        },
        rw (deliver, readable) refl,
        rw (runs, work_done) refl,
        refl,
      )
        where
          readable : new_album disk (get_or l.paths i []) ≡ some (read (get_or l.paths i []))
          readable =
              subst (λ ps. new_album disk (get_or ps i []) ≡ some (read (get_or ps i [])))
                (sym over) (reads i inside)

      pub deliver-IsLoading :
          (i : ℕ) (l : Load) (s t : LibraryService)
          → IsLoading l s
          → is_at_work i l ≡ true
          → t.load ≡ some (delivered i l)
          → t.library.albums ≡ set s.library.albums i (read (get_or paths i []))
          → IsLoading (delivered i l) t
      deliver-IsLoading i l s t v working loads albums = record {
        running = loads;
        staffed = v.staffed;
        over = v.over;
        taken = v.taken;
        kept = ap length albums ∙ length-set s.library.albums i (read (get_or paths i [])) ∙ v.kept;
        at_work_taken = λ k h. v.at_work_taken k (any-without i k l.at_work h);
        covered = covered_after;
      }
        where
          covered_after :
              (k : ℕ)
              → k < l.next_album
              → (is_at_work k (delivered i l) ≡ true) ⊎ (album_at k t ≡ read (get_or paths k []))
          covered_after k h = elim (ℕ_discrete i k) [
            | yes here ↦ inr (
                subst (λ j. album_at j t ≡ read (get_or paths j [])) here
                  (ap (λ found. get_or found i (read [])) albums
                    ∙ get_or-set_self s.library.albums i (read (get_or paths i [])) (read [])
                        (omega (arith, v.at_work_taken i working, v.taken, v.kept))))
            | no there ↦ elim (v.covered k h) [
              | inl busy ↦ inl (without-other i k l.at_work (ground arith) busy)
              | inr done ↦ inr (
                  ap (λ found. get_or found k (read [])) albums
                  ∙ get_or-set_ne s.library.albums (read (get_or paths i [])) (read []) there
                  ∙ done)
            ]
          ]
