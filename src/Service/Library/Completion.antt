-- ===== src/Service/Library/Completion.antt =====
-- The background load comes to an end, and then every album is loaded.
use musi_tui.Base.{
  ℕ, zero, suc, All, ◌+◌, ◌*◌, ◌<◌, ◌≡◌, refl, sym, subst, ap, ◌∙◌, ◌⊎◌, inl, inr, true, false,
  ◌==◌, List, [], ◌∷◌, Option, none, some, is_empty, map, length, get_or, set, arith, any, list_ext,
  Bool-cases, Option-cases, ℕ_discrete, ==_refl, List-cases,
}
use musi_tui.Base.Text.{Text}
use musi_tui.Library.{Disk}
use musi_tui.Library.Album.{Album, new_album}
use musi_tui.Library.Collection.{get_album_paths}
use musi_tui.Service.Library.{
  LibraryService, Load, claim, deliver, start_background_load, worker_count,
}
use musi_tui.Service.Library.Loaders.{
  is_at_work, is_left, Move, claims, delivers, moves, move, move_in, move_with, IsLoading,
  moves_left, claimed, claim_lem, claim-IsLoading, delivered, deliver_lem, deliver-IsLoading,
  length-without, nobody_at_work, length-map, get_or-map,
}

module _ (disk : Disk) (paths : List Text) (read : Text → Album) where
  module _
      (reads : (i : ℕ)
        → i < length paths
        → new_album disk (get_or paths i []) ≡ some (read (get_or paths i []))) where
    -- A move takes one from the moves that are left.
    claims-left :
        (l : Load) (s t : LibraryService)
        → IsLoading disk paths read l s
        → is_left l ≡ true
        → claim s ≡ t
        → (l' : Load) × IsLoading disk paths read l' t
          × (moves_left disk paths read l ≡ suc (moves_left disk paths read l'))
    claims-left l s t v left e = (
      claimed disk paths read l,
      subst (IsLoading disk paths read (claimed disk paths read l))
          (sym (claim_lem disk paths read l s v.running left) ∙ e)
          (claim-IsLoading disk paths read l s v left),
      ground (arith, left, ap length v.over),
    )

    delivers-left :
        (i : ℕ) (l : Load) (s t : LibraryService)
        → IsLoading disk paths read l s
        → is_at_work i l ≡ true
        → deliver disk l i s ≡ some t
        → (l' : Load) × IsLoading disk paths read l' t
          × (moves_left disk paths read l ≡ suc (moves_left disk paths read l'))
    delivers-left i l s t v working e =
        let inside : i < length paths = omega (arith, v.at_work_taken i working, v.taken) in
        let (u, made, loads, albums) =
          deliver_lem disk paths read reads i l s v.running v.over inside in
        (
          delivered disk paths read reads i l,
          subst (IsLoading disk paths read (delivered disk paths read reads i l)) (cc) (
              deliver-IsLoading disk paths read reads i l s u v working loads
                (albums ∙ ap (λ p. set s.library.albums i (read (get_or p i []))) v.over)),
          omega (arith, length-without i l.at_work working),
        )

    move-left :
        (c : Move) (l : Load) (s t : LibraryService)
        → IsLoading disk paths read l s
        → move_in disk c l s ≡ some t
        → (l' : Load) × IsLoading disk paths read l' t
          × (moves_left disk paths read l ≡ suc (moves_left disk paths read l'))
    move-left claims l s t v moved = elim (Bool-cases (is_left l)) [
      | inl left ↦
          let step : some (claim s) ≡ some t = rw left at moved in claims-left l s t v left (cc)
      | inr none_left ↦
          let stuck : ◌≡◌ {A = Option LibraryService} none (some t) = rw none_left at moved in cc
    ]
    move-left (delivers i) l s t v moved = elim (Bool-cases (is_at_work i l)) [
      | inl working ↦ delivers-left i l s t v working (rw working at moved)
      | inr idle ↦
          let stuck : ◌≡◌ {A = Option LibraryService} none (some t) = rw idle at moved in cc
    ]

    -- While moves are left, one can be made.
    can_move :
        (l : Load) (s : LibraryService)
        → IsLoading disk paths read l s
        → 0 < moves_left disk paths read l
        → (c : Move) × (t : LibraryService) × (move_in disk c l s ≡ some t)
    can_move l s v more = elim (Bool-cases (is_left l)) [
      | inl left ↦ (claims, claim s, rw left refl)
      | inr none_left ↦ elim (List-cases l.at_work) [
        | inl nobody ↦ absurd (ground (arith, ap length nobody, ap length v.over, v.staffed))
        | inr (j, js, e) ↦
            let busy : is_at_work j l ≡ true = ap (any (λ k. j == k)) e ∙ rw ==_refl refl in
            let inside : j < length paths = omega (arith, v.at_work_taken j busy, v.taken) in
            let (t, made, loads, albums) =
              deliver_lem disk paths read reads j l s v.running v.over inside in
            (delivers j, t, rw busy made)
      ]
    ]

    -- With no moves left, every album is loaded.
    all_loaded :
        (l : Load) (s : LibraryService)
        → IsLoading disk paths read l s
        → moves_left disk paths read l ≡ 0
        → s.library.albums ≡ map read paths
    all_loaded l s v finished =
        list_ext s.library.albums (map read paths) (read []) (v.kept ∙ sym (length-map read paths))
          λ i h. elim (v.covered i (omega (arith, v.kept, v.taken))) [
            | inl working ↦ absurd (ground (arith, nobody_at_work i l.at_work working))
            | inr done ↦ done ∙ sym (get_or-map read paths i [])
          ]

    moves-IsLoading :
        (cs : List Move) (l : Load) (s t : LibraryService)
        → IsLoading disk paths read l s
        → moves disk cs s ≡ some t
        → (l' : Load) × IsLoading disk paths read l' t
          × (moves_left disk paths read l ≡ length cs + moves_left disk paths read l')
    unfolding moves
    moves-IsLoading [] l s t v ran = (l, subst (IsLoading disk paths read l) (cc) v, omega arith)
    moves-IsLoading (c ∷ cs) l s t v ran = elim (Option-cases (move_in disk c l s)) [
      | inl stuck ↦
          let none_made : move disk c s ≡ none = ap (λ o. move_with disk c o s) v.running ∙ stuck in
          let never : ◌≡◌ {A = Option LibraryService} none (some t) =
            rw (moves, none_made) at ran in
          cc
      | inr (u, stepped) ↦
          let made : move disk c s ≡ some u = ap (λ o. move_with disk c o s) v.running ∙ stepped in
          let rest : moves disk cs u ≡ some t = rw (moves, made) at ran in
          let (m, w, one) = move-left c l s u v stepped in
          let (n, last, more) = moves-IsLoading cs m u t w rest in
          (n, last, omega (arith, one, more))
    ]

All-get_or :
    (P : Text → Type 0) (xs : List Text) (i : ℕ) → All P xs → i < length xs → P (get_or xs i [])
All-get_or P [] i each inside = absurd (omega (arith, inside))
All-get_or P (x ∷ xs) zero (h, each) inside = h
All-get_or P (x ∷ xs) (suc i) (h, each) inside = All-get_or P xs i each (omega (arith, inside))

module _ (disk : Disk) (read : Text → Album) where
  start-IsLoading :
      (hw : ℕ) (s : LibraryService)
      → is_empty (get_album_paths s.library) ≡ false
      → (l : Load) × IsLoading disk (get_album_paths s.library) read l (start_background_load hw s)
        × (length l.at_work + l.next_album ≡ 0)
  unfolding start_background_load get_album_paths
  start-IsLoading hw s some_albums = (
    record {
      paths = get_album_paths s.library;
      workers = worker_count hw (length (get_album_paths s.library));
      next_album = 0;
      at_work = [];
    },
    rw (start_background_load, some_albums)
        (record {
          running = refl;
          staffed = some_work (get_album_paths s.library) some_albums;
          over = refl;
          taken = omega arith;
          kept = sym (length-map (λ a. a.dir_path) s.library.albums);
          at_work_taken = λ i h. cc;
          covered = λ i h. absurd (omega arith);
        }),
    refl,
  )
    where
      some_work : (paths : List Text) → is_empty paths ≡ false → 0 < worker_count hw (length paths)
      some_work [] e = cc
      some_work (p ∷ paths) e = ground arith

  -- A background load of a library that has albums, all of which can be read, with the threads that
  -- `hardware_concurrency` and the number of albums give it, whatever the order of their moves.
  -- Before they have made two moves for each album, one of them can make another; after that many,
  -- and never later, every album of the library is the one read from its directory.
  pub background_load_ends :
      (hw : ℕ) (s t : LibraryService) (cs : List Move)
      → All (λ p. new_album disk p ≡ some (read p)) (get_album_paths s.library)
      → is_empty (get_album_paths s.library) ≡ false
      → moves disk cs (start_background_load hw s) ≡ some t
      → ((length cs < 2 * length s.library.albums)
          × ((c : Move) × (u : LibraryService) × (move disk c t ≡ some u)))
        ⊎ ((length cs ≡ 2 * length s.library.albums)
            × (t.library.albums ≡ map read (get_album_paths s.library)))
  unfolding get_album_paths
  background_load_ends hw s t cs readable some_albums ran =
      let paths = get_album_paths s.library in
      let reads : (i : ℕ)
          → i < length paths
          → new_album disk (get_or paths i []) ≡ some (read (get_or paths i [])) =
        λ i h. All-get_or (λ p. new_album disk p ≡ some (read p)) paths i readable h in
      let (l, v, fresh) = start-IsLoading hw s some_albums in
      let (m, w, left) =
        moves-IsLoading disk paths read reads cs l (start_background_load hw s) t v ran in
      let size : length paths ≡ length s.library.albums =
        length-map (λ a. a.dir_path) s.library.albums in
      elim (ℕ_discrete (moves_left disk paths read m) 0) [
        | yes none_left ↦ inr (
          omega (arith, left, fresh, size, none_left),
          all_loaded disk paths read reads m t w none_left,
        )
        | no more ↦
            let (c, u, moved) = can_move disk paths read reads m t w (omega (arith, more)) in
            inl (
              omega (arith, left, fresh, size, more),
              (c, u, ap (λ o. move_with disk c o t) w.running ∙ moved),
            )
      ]
