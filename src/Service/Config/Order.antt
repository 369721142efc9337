-- ===== src/Service/Config/Order.antt =====
-- The order of the keys, and sorted entries.
use musi_tui.Base.{◌≡◌, refl, true, [], ◌∷◌, ◌++◌, subst, sym, All, inl, inr, Bool-cases}
use musi_tui.Base.Text.{Text, text_lt, text_eq, text_eq→eq}
use musi_tui.Base.TextOrder.{text_lt_trans, text_lt_asym, text_lt_not_eq, text_lt_total}
use musi_tui.Service.Config.{Entries, insert}

abbrev pub Behind : Text → Text × Text → Type 0
Behind key e = text_lt key e.0 ≡ true

pub IsSorted : Entries → Type 0
IsSorted [] = Unit
IsSorted ((k, v) ∷ m) = All (Behind k) m × IsSorted m

pub IsSorted-nil : IsSorted []
unfolding IsSorted
IsSorted-nil = tt

All-Behind_trans :
    (k l : Text) (m : Entries) → text_lt k l ≡ true → All (Behind l) m → All (Behind k) m
All-Behind_trans k l [] h b = tt
All-Behind_trans k l (e ∷ m) h (be, bm) = (text_lt_trans k l e.0 h be, All-Behind_trans k l m h bm)

insert-Behind :
    (k key value : Text) (m : Entries)
    → text_lt k key ≡ true
    → All (Behind k) m
    → All (Behind k) (insert key value m)
unfolding insert
insert-Behind k key value [] h b = (h, tt)
insert-Behind k key value ((l, v) ∷ m) h (bl, bm) = elim (Bool-cases (text_eq key l)) [
  | inl same ↦ rw same (h, bm)
  | inr other ↦ elim (Bool-cases (text_lt key l)) [
    | inl before ↦ rw (other, before) (h, (bl, bm))
    | inr after ↦ rw (other, after) (bl, insert-Behind k key value m h bm)
  ]
]

pub insert-IsSorted : (key value : Text) (m : Entries) → IsSorted m → IsSorted (insert key value m)
unfolding insert IsSorted
insert-IsSorted key value [] sorted = (tt, tt)
insert-IsSorted key value ((l, v) ∷ m) (behind, sorted) = elim (Bool-cases (text_eq key l)) [
  | inl same ↦ rw same (subst (λ t. All (Behind t) m) (sym (text_eq→eq key l same)) behind, sorted)
  | inr other ↦ elim (Bool-cases (text_lt key l)) [
    | inl before ↦
        rw (other, before) ((before, All-Behind_trans key l m before behind), (behind, sorted))
    | inr after ↦
        rw (other, after)
          (
            insert-Behind l key value m (text_lt_total key l other after) behind,
            insert-IsSorted key value m sorted,
          )
  ]
]

-- A key behind all the others goes to the end.
pub insert-last :
    (key value : Text) (m rest : Entries)
    → IsSorted (m ++ (key, value) ∷ rest)
    → insert key value m ≡ m ++ (key, value) ∷ []
unfolding insert IsSorted
insert-last key value [] rest sorted = refl
insert-last key value ((l, v) ∷ m) rest (behind, sorted) =
    let before = behind_middle m behind in
    rw (text_lt_not_eq l key before, text_lt_asym l key before, insert-last key value m rest sorted)
      refl
  where
    behind_middle : (n : Entries) → All (Behind l) (n ++ (key, value) ∷ rest) → text_lt l key ≡ true
    behind_middle [] (h, b) = h
    behind_middle (e ∷ n) (h, b) = behind_middle n b
