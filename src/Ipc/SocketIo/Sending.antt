-- ===== src/Ipc/SocketIo/Sending.antt =====
-- `sendAll` sends all, or a beginning, and comes to an end.
use musi_tui.Base.{
  ℕ, zero, suc, ◌≤◌, ◌≡◌, refl, ◌∙◌, ap, subst, Bool, true, false, ◌&&◌, ltb, List, [], ◌∷◌, ◌++◌,
  Option, some, none, arith, inl, inr, length, length-drop, take, drop, is_empty, take-append-drop,
  append_assoc, Option-cases,
}
use musi_tui.Base.Text.{Text}
use musi_tui.Ipc.SocketIo.{Send, taken, send_interrupted, send_failed, send_all}

-- What has gone out begins the data, and is all of it exactly if the result says so.
Sent : Text → Option (Bool × Text) → Type 0
Sent s none = Unit
Sent s (some r) = (rest : Text) × (r.1 ++ rest ≡ s) × (is_empty rest ≡ r.0)

send_all-Sent : (s : Text) (script : List Send) → Sent s (send_all s script)
unfolding send_all Sent
send_all-Sent [] script = ([], refl, refl)
send_all-Sent (c ∷ s) [] = tt
send_all-Sent (c ∷ s) (send_interrupted ∷ script) = send_all-Sent (c ∷ s) script
send_all-Sent (c ∷ s) (send_failed ∷ script) = (c ∷ s, refl, refl)
send_all-Sent (c ∷ s) (taken n ∷ script) = elim (Option-cases (send_all (drop n (c ∷ s)) script)) [
  | inl stuck ↦ rw (stuck, send_all) tt
  | inr (r, sent) ↦
      let (rest, whole, flag) = rw sent at (send_all-Sent (drop n (c ∷ s)) script) in
      rw (sent, send_all)
        (
          rest,
          append_assoc (take n (c ∷ s)) r.1 rest
              ∙ ap (λ t. take n (c ∷ s) ++ t) whole
              ∙ take-append-drop n (c ∷ s),
          flag,
        )
]

-- When `sendAll` returns, what has gone out is a beginning of the data, in order, and all of it
-- exactly if success is reported.
pub send_all_prefix :
    (s : Text) (script : List Send) {ok : Bool} {wire : Text}
    → send_all s script ≡ some (ok, wire)
    → (rest : Text) × (wire ++ rest ≡ s) × (is_empty rest ≡ ok)
unfolding Sent
send_all_prefix s script returned = subst (Sent s) returned (send_all-Sent s script)

-- Every call takes a byte at least, or is interrupted.
unfoldable pub progresses : List Send → Bool
progresses [] = true
progresses (taken n ∷ script) = ltb 0 n && progresses script
progresses (send_interrupted ∷ script) = progresses script
progresses (send_failed ∷ script) = false

unfoldable pub takes : List Send → ℕ
takes [] = 0
takes (taken n ∷ script) = suc (takes script)
takes (send_interrupted ∷ script) = takes script
takes (send_failed ∷ script) = 0

-- If every call takes at least a byte or is interrupted, and there are as many that take as the
-- data has bytes, all of it is sent.
pub send_all_finishes :
    (s : Text) (script : List Send)
    → progresses script ≡ true
    → length s ≤ takes script
    → send_all s script ≡ some (true, s)
unfolding send_all progresses takes
send_all_finishes [] script healthy enough = refl
send_all_finishes (c ∷ s) [] healthy enough = absurd (omega arith)
send_all_finishes (c ∷ s) (send_interrupted ∷ script) healthy enough =
    send_all_finishes (c ∷ s) script healthy enough
send_all_finishes (c ∷ s) (send_failed ∷ script) healthy enough = cc
send_all_finishes (c ∷ s) (taken zero ∷ script) healthy enough = cc
send_all_finishes (c ∷ s) (taken (suc n) ∷ script) healthy enough =
    rw
      (
        send_all_finishes (drop n s) script (ground arith) (omega (arith, length-drop n s)),
        send_all,
      )
      (ap (λ w. some (true, c ∷ w)) (take-append-drop n s))
