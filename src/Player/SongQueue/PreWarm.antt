-- ===== src/Player/SongQueue/PreWarm.antt =====
-- The pre-warm thread: how far a pass gets, and what "ready" then says.
use musi_tui.Base.{
  ℕ, zero, suc, ◌≤◌, ◌≡◌, refl, ◌∙◌, Bool, true, false, [], ◌∷◌, arith, inl, inr, length,
  Bool-cases, ◌&&◌, if◌then◌else◌,
}
use musi_tui.Base.Int.{ℤ, pos, ◌+ℤ◌, ◌≤ℤ◌, leb_ℤ, ltb_ℤ}
use musi_tui.Base.Text.{Text}
use musi_tui.Player.SongQueue.{
  SongQueue, minus_one, size, load_playlist, get_next_song_path, is_next_song_ready, warm_from,
  pre_warm_pass, pre_warm_ahead_count,
}
use musi_tui.Player.SongQueue.Cursor.{IsValid}

-- The last index that a pass reaches, from the current one.
abbrev pub reach : SongQueue → ℤ
reach q =
    let target = q.current_index +ℤ pre_warm_ahead_count in
    if ltb_ℤ target (size q) then target else size q +ℤ minus_one

module _ (w : Text → Bool) (good : (p : Text) → w p ≡ true) where
  warm_from_all :
      (rounds : ℕ) (i target : ℤ) (q : SongQueue)
      → pos 0 ≤ℤ i
      → q.pre_warmed_up_to +ℤ pos 1 ≡ i
      → size q ≤ℤ i +ℤ pos rounds
      → warm_from w rounds i target q ≡ record q {
        pre_warmed_up_to =
            (if ltb_ℤ target i
              then q.pre_warmed_up_to
              else if leb_ℤ (size q) i
              then q.pre_warmed_up_to
              else if ltb_ℤ target (size q)
              then target
              else size q +ℤ minus_one);
      }
  unfolding warm_from
  warm_from_all zero i target q low e fuel = ground arith
  warm_from_all (suc rounds) i target q low e fuel =
      elim (Bool-cases (leb_ℤ i target && ltb_ℤ i (size q))) [
        | inl more ↦
            rw (more, good)
              (warm_from_all rounds (i +ℤ pos 1) target (record q { pre_warmed_up_to = i })
                  (ground arith) refl (ground arith)
                ∙ ground arith)
        | inr done ↦ rw done (ground arith)
      ]

  -- If every song validates, a pass that is not stopped, from wherever earlier passes have got to,
  -- leaves the next song ready exactly when there is a next song.
  pub ready_after_pass :
      {q : SongQueue} (rounds : ℕ)
      → IsValid q
      → length q.playlist ≤ rounds
      → is_next_song_ready (pre_warm_pass w rounds q) ≡ ltb_ℤ (q.current_index +ℤ pos 1) (size q)
  unfolding is_next_song_ready pre_warm_pass
  ready_after_pass {q} rounds v enough =
      rw
        (warm_from_all rounds (q.pre_warmed_up_to +ℤ pos 1)
          (q.current_index +ℤ pre_warm_ahead_count) q (ground arith) refl (ground arith))
        (ground arith)

-- One pass over a freshly loaded playlist whose second song fails to open and whose third opens
-- reports the second one as ready.
pub ready_despite_failure :
    (w : Text → Bool) (first bad good : Text) (q : SongQueue) (rounds : ℕ)
    → w bad ≡ false
    → w good ≡ true
    → let loaded = load_playlist (first ∷ bad ∷ good ∷ []) q in
      let passed = pre_warm_pass w (suc (suc (suc (suc rounds)))) loaded in
      (get_next_song_path passed ≡ bad) × (is_next_song_ready passed ≡ true)
unfolding load_playlist pre_warm_pass warm_from is_next_song_ready get_next_song_path
ready_despite_failure w first bad good q rounds fails opens = elim (Bool-cases (w first)) [
  | inl e ↦ rw (e, fails, opens) (refl, refl)
  | inr e ↦ rw (e, fails, opens) (refl, refl)
]
