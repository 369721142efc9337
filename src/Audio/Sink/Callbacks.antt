-- ===== src/Audio/Sink/Callbacks.antt =====
-- Callbacks one after the other, and what becomes of the bytes of the provider.
use musi_tui.Base.{
  ℕ, suc, ◌+◌, ◌-◌, ◌≤◌, ◌≡◌, refl, sym, subst, ap, ap₂, map, ◌∙◌, ◌⊎◌, inl, inr, true, List, [],
  ◌∷◌, ◌++◌, append_assoc, append-nil, none, some, leb, length, arith, Bool-cases, Option-cases,
  length-append,
}
use musi_tui.Base.Int.{ℤ}
use musi_tui.Base.Tabulate.{length-tabulate}
use musi_tui.Audio.Sink.{Sink}
use musi_tui.Audio.Sink.Fill.{AudioStream, pad, silence, pull, scale, sdl_volume, fill, callbacks}

abbrev pub concat : List (List ℕ) → List ℕ
concat [] = []
concat (c ∷ cs) = c ++ concat cs

-- What is relied on: a put that is taken stands behind what was put before; a get gives no more than
-- it is asked for and changes nothing of what has been put; mixing keeps the length.
pub record StreamKeeps (sdl : AudioStream) : Type 0 where
  pub fed : sdl.State → List ℕ
  pub takes :
      (s : sdl.State) (c : List ℕ) (t : sdl.State) → sdl.put s c ≡ some t → fed t ≡ fed s ++ c
  pub gets : (s : sdl.State) (n : ℕ) → fed (sdl.get s n).0 ≡ fed s
  pub at_most : (s : sdl.State) (n : ℕ) → length (sdl.get s n).1 ≤ n
  pub mixes : (volume : ℕ) (out : List ℕ) → length (sdl.mix volume out) ≡ length out

-- From these calls of the provider these were kept, in order, these are to come, and so many were
-- lost.
pub data Taken : List (List ℕ) → List (List ℕ) → List (List ℕ) → ℕ → Type 0 where
  untouched : {cs : List (List ℕ)} → Taken cs [] cs 0
  kept :
      {cs ks rs : List (List ℕ)} {n : ℕ} (c : List ℕ)
      → Taken cs ks rs n
      → Taken (c ∷ cs) (c ∷ ks) rs n
  lost :
      {cs ks rs : List (List ℕ)} {n : ℕ} (c : List ℕ)
      → Taken cs ks rs n
      → Taken (c ∷ cs) ks rs (suc n)

Taken-append :
    {cs ks rs ls qs : List (List ℕ)} {n m : ℕ}
    → Taken cs ks rs n
    → Taken rs ls qs m
    → Taken cs (ks ++ ls) qs (n + m)
Taken-append {ls = ls} {qs} {m = m} (untouched {cs = cs}) b = subst (Taken cs ls qs) (omega arith) b
Taken-append (kept c a) b = kept c (Taken-append a b)
Taken-append {ls = ls} {qs} {m = m} (lost {cs = cs} {ks} {n = n} c a) b =
    subst (Taken (c ∷ cs) (ks ++ ls) qs) (omega arith) (lost c (Taken-append a b))

concat-append : (as' bs : List (List ℕ)) → concat (as' ++ bs) ≡ concat as' ++ concat bs
concat-append [] bs = refl
concat-append (a ∷ as') bs =
    ap (λ w. a ++ w) (concat-append as' bs) ∙ sym (append_assoc a (concat as') (concat bs))

-- The converter refuses something.
abbrev pub Refuses : AudioStream → Type 0
Refuses sdl = (u : sdl.State) × (c : List ℕ) × (sdl.put u c ≡ none)

module _ (sdl : AudioStream) (keeps : StreamKeeps sdl) where
  -- What became of the calls: what was kept stands in the converter, at most `most` were lost, and
  -- none if the converter refuses nothing.
  abbrev pub Accounted : List (List ℕ) → sdl.State → List (List ℕ) → sdl.State → ℕ → Type 0
  Accounted calls s rest t most =
      (ks : List (List ℕ)) × (n : ℕ) × Taken calls ks rest n
      × (keeps.fed t ≡ keeps.fed s ++ concat ks)
      × (n ≤ most)
      × ((n ≡ 0) ⊎ Refuses sdl)

  nothing_taken : (calls : List (List ℕ)) (s : sdl.State) → Accounted calls s calls s 1
  nothing_taken calls s = ([], 0, untouched, sym (append-nil (keeps.fed s)), omega arith, inl refl)

  pull-Accounted :
      (len : ℕ) (calls : List (List ℕ)) (s : sdl.State)
      → Accounted calls s (pull sdl len calls s).1 (pull sdl len calls s).0 1
  unfolding pull
  pull-Accounted len [] s = nothing_taken [] s
  pull-Accounted len ([] ∷ cs) s = elim (Bool-cases (leb len (sdl.available s))) [
    | inl enough ↦ rw (pull, enough) (nothing_taken ([] ∷ cs) s)
    | inr starved ↦
        rw (pull, starved)
          ([] ∷ [], 0, kept [] untouched, sym (append-nil (keeps.fed s)), omega arith, inl refl)
  ]
  pull-Accounted len ((b ∷ c) ∷ cs) s = elim (Bool-cases (leb len (sdl.available s))) [
    | inl enough ↦ rw (pull, enough) (nothing_taken ((b ∷ c) ∷ cs) s)
    | inr more ↦ elim (Option-cases (sdl.put s (b ∷ c))) [
      | inl refused ↦
          rw (pull, more, refused)
            (
              [],
              1,
              lost (b ∷ c) untouched,
              sym (append-nil (keeps.fed s)),
              omega arith,
              inr (s, b ∷ c, refused),
            )
      | inr (t, took) ↦
          let (ks, n, taken, fed, few, none_lost) = pull-Accounted len cs t in
          rw (pull, more, took)
            (
              (b ∷ c) ∷ ks,
              n,
              kept (b ∷ c) taken,
              fed
                  ∙ ap (λ w. w ++ concat ks) (keeps.takes s (b ∷ c) t took)
                  ∙ append_assoc (keeps.fed s) (b ∷ c) (concat ks),
              few,
              none_lost,
            )
    ]
  ]

  scale-length : (volume : ℤ) (out : List ℕ) → length (scale sdl volume out) ≡ length out
  unfolding scale
  scale-length volume out = ground (arith, keeps.mixes (sdl_volume sdl volume) out)

  pad-length : (len : ℕ) (out : List ℕ) → length out ≤ len → length (pad len out) ≡ len
  pad-length len out fits = omega (
    arith,
    length-append out (silence (len - length out)),
    length-tabulate {A = ℕ} (len - length out) (λ i. 0),
  )

  fill-Accounted :
      (sink : Sink) (len : ℕ) (calls : List (List ℕ)) (s : sdl.State)
      → sink.converter ≡ true
      → (length (fill sdl sink len calls s).0 ≡ len)
        × Accounted calls s (fill sdl sink len calls s).2 (fill sdl sink len calls s).1 1
  unfolding fill
  fill-Accounted sink len calls s converts =
      let (t, rest) = pull sdl len calls s in
      let got = (sdl.get t len).1 in
      let (ks, n, taken, fed, few, none_lost) = pull-Accounted len calls s in
      rw (fill, converts)
        (
          scale-length sink.volume (pad len got) ∙ pad-length len got (keeps.at_most t len),
          (ks, n, taken, keeps.gets t len ∙ fed, few, none_lost),
        )

  -- Callbacks one after the other, while the source is converted: each plays a whole buffer. What the
  -- provider gave has been put into the converter, in order, or is still to come, except for at most
  -- one call of the provider in each callback; and where the converter refuses nothing, none is lost.
  pub callbacks_keep :
      (sink : Sink) (lens : List ℕ) (calls : List (List ℕ)) (s : sdl.State)
      → sink.converter ≡ true
      → (map length (callbacks sdl sink lens calls s).0 ≡ lens)
        × Accounted calls s
            (callbacks sdl sink lens calls s).2
            (callbacks sdl sink lens calls s).1
            (length lens)
  unfolding callbacks
  callbacks_keep sink [] calls s converts =
      (refl, ([], 0, untouched, sym (append-nil (keeps.fed s)), omega arith, inl refl))
  callbacks_keep sink (len ∷ lens) calls s converts =
      let (out, t, rest) = fill sdl sink len calls s in
      let (whole, (ks, n, taken, fed, few, none_lost)) = fill-Accounted sink len calls s converts in
      let (wholes, (ls, m, taken', fed', few', none_lost')) =
        callbacks_keep sink lens rest t converts in
      (
        ap₂ ◌∷◌ whole wholes,
        (
          ks ++ ls,
          n + m,
          Taken-append taken taken',
          fed'
              ∙ ap (λ w. w ++ concat ls) fed
              ∙ append_assoc (keeps.fed s) (concat ks) (concat ls)
              ∙ ap (λ w. keeps.fed s ++ w) (sym (concat-append ks ls)),
          omega (arith, few, few'),
          elim none_lost [
            | inr refuses ↦ inr refuses
            | inl none_here ↦ elim none_lost' [
              | inr refuses ↦ inr refuses
              | inl none_later ↦ inl (omega (arith, none_here, none_later))
            ]
          ],
        ),
      )
