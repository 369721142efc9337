-- ===== src/Process/Watcher/Changes.antt =====
-- What the watcher takes for a change.
use mathlib.Core.List.{foldr, Perm}
use mathlib.Core.List.Perm
use musi_tui.Base.{
  ◌≡◌, refl, sym, subst, ap, ap₂, ◌∙◌, inl, inr, List, [], ◌∷◌, if◌then◌else◌, arith, Bool-cases,
  is_empty,
}
use musi_tui.Base.Text.{Text, text_eq_refl}
use musi_tui.Base.TextOrder.{
  Before, text_order, text_lt_irrefl, text_lt_asym, text_lt_not_eq, text_lt_trans,
}
use musi_tui.Base.Path.{filename}
use musi_tui.Library.{Entry}
use musi_tui.Process.Watcher.{insert, directories, snapshot}

insert-Before : (a n : Text) (s : List Text) → Before a n → insert a (n ∷ s) ≡ a ∷ n ∷ s
unfolding insert
insert-Before a n s h = rw (h) refl

insert_same : (n : Text) (s : List Text) → insert n (n ∷ s) ≡ n ∷ s
unfolding insert
insert_same n s = rw (text_lt_irrefl, text_eq_refl) refl

insert_after : (a n : Text) (s : List Text) → Before n a → insert a (n ∷ s) ≡ n ∷ insert a s
unfolding insert
insert_after a n s h = rw (text_lt_asym n a h, text_lt_not_eq n a h) refl

insert_one : (a : Text) → insert a [] ≡ a ∷ []
unfolding insert
insert_one a = refl

-- Insertions commute, whatever is there already.
comm_nil : (a b : Text) → Before a b → insert a (insert b []) ≡ insert b (insert a [])
comm_nil a b h =
    ap (insert a) (insert_one b)
    ∙ insert-Before a b [] h
    ∙ sym (ap (insert b) (insert_one a) ∙ insert_after b a [] h ∙ ap (λ t. a ∷ t) (insert_one b))

comm_cons :
    (a b n : Text) (s : List Text)
    → Before a b
    → insert a (insert b s) ≡ insert b (insert a s)
    → insert a (insert b (n ∷ s)) ≡ insert b (insert a (n ∷ s))
comm_cons a b n s h later = elim (text_order a n) [
  | inl front ↦
      let second = ap (insert b) (insert-Before a n s front) ∙ insert_after b a (n ∷ s) h in
      elim (text_order b n) [
        | inl between ↦
            ap (insert a) (insert-Before b n s between)
            ∙ insert-Before a b (n ∷ s) h
            ∙ sym (second ∙ ap (λ t. a ∷ t) (insert-Before b n s between))
        | inr (inl same) ↦
            let there : insert b (n ∷ s) ≡ n ∷ s =
              ap (λ t. insert t (n ∷ s)) same ∙ insert_same n s in
            ap (insert a) there ∙ insert-Before a n s front ∙ sym (second ∙ ap (λ t. a ∷ t) there)
        | inr (inr behind) ↦
            ap (insert a) (insert_after b n s behind)
            ∙ insert-Before a n (insert b s) front
            ∙ sym (second ∙ ap (λ t. a ∷ t) (insert_after b n s behind))
      ]
  | inr (inl same) ↦
      let behind : Before n b = subst (λ t. Before t b) same h in
      let there : (t : List Text) → insert a (n ∷ t) ≡ n ∷ t =
        λ t. ap (λ u. insert u (n ∷ t)) same ∙ insert_same n t in
      ap (insert a) (insert_after b n s behind)
      ∙ there (insert b s)
      ∙ sym (ap (insert b) (there s) ∙ insert_after b n s behind)
  | inr (inr behind) ↦
      let far = text_lt_trans n a b behind h in
      ap (insert a) (insert_after b n s far)
      ∙ insert_after a n (insert b s) behind
      ∙ ap (λ t. n ∷ t) later
      ∙ sym (ap (insert b) (insert_after a n s behind) ∙ insert_after b n (insert a s) far)
]

insert_comm : (a b : Text) (s : List Text) → insert a (insert b s) ≡ insert b (insert a s)
insert_comm a b [] = elim (text_order a b) [
  | inl before ↦ comm_nil a b before
  | inr (inl same) ↦ ap₂ (λ t u. insert t (insert u [])) same (sym same)
  | inr (inr after) ↦ sym (comm_nil b a after)
]
insert_comm a b (n ∷ s) = elim (text_order a b) [
  | inl before ↦ comm_cons a b n s before (insert_comm a b s)
  | inr (inl same) ↦ ap₂ (λ t u. insert t (insert u (n ∷ s))) same (sym same)
  | inr (inr after) ↦ sym (comm_cons b a n s after (insert_comm b a s))
]

abbrev add_entry : Entry → List Text → List Text
add_entry e names = if e.is_directory then insert (filename e.path) names else names

add_entry_comm :
    (e f : Entry) (names : List Text)
    → add_entry e (add_entry f names) ≡ add_entry f (add_entry e names)
add_entry_comm e f names = ground (arith, insert_comm (filename e.path) (filename f.path) names)

foldr-add_entry :
    (e : Entry) (es : List Entry) (names : List Text)
    → foldr add_entry (add_entry e names) es ≡ add_entry e (foldr add_entry names es)
foldr-add_entry e [] names = refl
foldr-add_entry e (f ∷ es) names =
    ap (add_entry f) (foldr-add_entry e es names) ∙ add_entry_comm f e (foldr add_entry names es)

directories-foldr :
    (es : List Entry) (names : List Text) → directories es names ≡ foldr add_entry names es
unfolding directories
directories-foldr [] names = refl
directories-foldr (e ∷ es) names =
    directories-foldr es (add_entry e names) ∙ foldr-add_entry e es names

-- The order in which a directory lists its entries is no change: the snapshots are the same.
pub snapshot-perm :
    (before after : Text → List Entry) (root : Text)
    → Perm (before root) (after root)
    → snapshot before root ≡ snapshot after root
unfolding snapshot
snapshot-perm before after root reordered = elim (Bool-cases (is_empty root)) [
  | inl none_set ↦ rw (snapshot, none_set) refl
  | inr set_to ↦
      rw (snapshot, set_to)
        (directories-foldr (before root) []
          ∙ Perm.foldr-eq (hlevel) add_entry add_entry_comm reordered []
          ∙ sym (directories-foldr (after root) []))
]
