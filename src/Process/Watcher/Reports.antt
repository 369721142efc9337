-- ===== src/Process/Watcher/Reports.antt =====
-- What the watcher reports.
use mathlib.Core.List.{Perm}
use musi_tui.Base.{
  ◌≡◌, refl, sym, ap, ap₂, ◌∙◌, inl, inr, Bool, true, false, not, ◌&&◌, ◌||◌, List, [], ◌∷◌, ◌++◌,
  arith, Bool-cases, is_empty, All, any,
}
use musi_tui.Base.Text.{Text, text_eq, text_eq_refl, text_eq→eq, text_lt}
use musi_tui.Base.Path.{filename}
use musi_tui.Library.{Entry}
use musi_tui.Process.Watcher.{insert, directories, snapshot, same_names, Look, watch, run}
use musi_tui.Process.Watcher.Changes.{snapshot-perm}

same_names_refl : (names : List Text) → same_names names names ≡ true
same_names_refl [] = refl
same_names_refl (n ∷ names) = rw (text_eq_refl, same_names_refl names) refl

-- A look that finds the root and its entries as at first, but for their order.
abbrev pub Unchanged : Look → Look → Type 0
Unchanged start look =
    (look.root ≡ start.root) × Perm (start.listing start.root) (look.listing start.root)

watch-Unchanged :
    (start : Look) (looks more : List Look)
    → All (Unchanged start) looks
    → watch (snapshot start.listing start.root) (looks ++ more)
      ≡ watch (snapshot start.listing start.root) more
unfolding watch
watch-Unchanged start [] more same = refl
watch-Unchanged start (look ∷ looks) more ((at_root, reordered), same) =
    let seen : snapshot look.listing look.root ≡ snapshot start.listing start.root =
      ap (snapshot look.listing) at_root
      ∙ sym (snapshot-perm start.listing look.listing start.root reordered) in
    elim (Bool-cases (is_empty look.root)) [
      | inl nothing ↦ rw (watch, nothing) (watch-Unchanged start looks more same)
      | inr something ↦
          rw (watch, something, seen, same_names_refl) (watch-Unchanged start looks more same)
    ]

abbrev has : Text → List Text → Bool
has name names = any (text_eq name) names

-- A directory of that name is among the entries.
abbrev pub has_directory : Text → List Entry → Bool
has_directory name es = any (λ e. e.is_directory && text_eq name (filename e.path)) es

-- The look finds a directory of that name.
abbrev pub shows : Text → Look → Bool
shows name look = not (is_empty look.root) && has_directory name (look.listing look.root)

has-insert :
    (name m : Text) (names : List Text)
    → has name (insert m names) ≡ (text_eq name m || has name names)
unfolding insert
has-insert name m [] = refl
has-insert name m (n ∷ names) = elim (Bool-cases (text_lt m n)) [
  | inl before ↦ rw (before) refl
  | inr not_before ↦ elim (Bool-cases (text_eq m n)) [
    | inl same ↦
        let e : text_eq name m ≡ text_eq name n = ap (text_eq name) (text_eq→eq m n same) in
        rw (not_before, same) (ground (arith, e))
    | inr other ↦ rw (not_before, other) (ground (arith, has-insert name m names))
  ]
]

has-directories :
    (name : Text) (es : List Entry) (names : List Text)
    → has name (directories es names) ≡ (has_directory name es || has name names)
unfolding directories
has-directories name [] names = refl
has-directories name (e ∷ es) names = elim (Bool-cases e.is_directory) [
  | inl directory ↦ rw (directory) (
      has-directories name es (insert (filename e.path) names)
      ∙ ground (arith, has-insert name (filename e.path) names))
  | inr other ↦ rw (other) (has-directories name es names)
]

has-snapshot :
    (name : Text) (look : Look) → has name (snapshot look.listing look.root) ≡ shows name look
unfolding snapshot
has-snapshot name look = elim (Bool-cases (is_empty look.root)) [
  | inl nothing ↦ rw (nothing) refl
  | inr something ↦ rw (something) (has-directories name (look.listing look.root) [] ∙ ground arith)
]

same_names-has :
    (name : Text) (as' bs : List Text) → same_names as' bs ≡ true → has name as' ≡ has name bs
same_names-has name [] [] same = refl
same_names-has name [] (b ∷ bs) same = cc
same_names-has name (a ∷ as') [] same = cc
same_names-has name (a ∷ as') (b ∷ bs) same = elim (Bool-cases (text_eq a b)) [
  | inl first ↦
      let rest : same_names as' bs ≡ true = rw (first) at same in
      ap₂ (λ t u. text_eq name t || u) (text_eq→eq a b first) (same_names-has name as' bs rest)
  | inr other ↦ ground arith
]

-- While each look finds the root and its entries as they were at the start, in whatever order the
-- file system lists them, nothing is reported; the first look that finds a directory which was not
-- there, or misses one that was, is reported with its root; and from then on changes are those
-- against that look.
pub run_reports :
    (start : Look) (looks : List Look) (look : Look) (rest : List Look) (name : Text)
    → All (Unchanged start) looks
    → is_empty look.root ≡ false
    → shows name look ≡ not (shows name start)
    → run start (looks ++ look ∷ rest) ≡ look.root ∷ run look rest
unfolding run watch
run_reports start looks look rest name same set_to changed =
    let now = snapshot look.listing look.root in
    let then' = snapshot start.listing start.root in
    watch-Unchanged start looks (look ∷ rest) same ∙ elim (Bool-cases (same_names now then')) [
      | inl still ↦ absurd (
          ground (
            arith,
            same_names-has name now then' still,
            has-snapshot name look,
            has-snapshot name start,
            changed,
          ))
      | inr seen ↦ rw (watch, set_to, seen) refl
    ]
