-- ===== src/Decode/PreWarm.antt =====
-- `preWarmSong` of src/player/SongQueue.cpp: a song is opened and decoded ahead of being played.
use native.Mathlib.Nat.{le_refl}
use musi_tui.Base.{
  ℕ, zero, suc, ◌*◌, ◌≤◌, ◌<◌, ◌≡◌, refl, ap, Bool, true, false, not, List, [], ◌∷◌, ◌++◌, Option,
  none, some, ◌==◌, if◌then◌else◌, ◌⊎◌, inl, inr, Option-cases, Bool-cases, All, length, arith,
}
use musi_tui.Base.Int.{pos_part}
use musi_tui.Base.Text.{Text, codes}
use musi_tui.Base.Path.{filename}
use musi_tui.Events.Bus.{Bus, push, error}
use musi_tui.Decode.{AudioDecoder, IsSound, Decodes}
use musi_tui.Decode.Factory.{Vendors, VendorsRead, create, Sound, create-Sound}

abbrev pub decode_chunk_frames : ℕ
decode_chunk_frames = 1152

abbrev pub pre_warm_validation_frames : ℕ
pre_warm_validation_frames = 10

-- What a call leaves: the bus, its result, the number of frames that each call of `decodeFrames` gave,
-- and how many files the vendored decoders have opened and closed for it.
pub record Warmed : Type 0 where
  pub bus : Bus
  pub warm : Bool
  pub decoded : List ℕ
  pub acquired : ℕ
  pub released : ℕ

abbrev pub failed_to_warm : Text → Bus → Bus
failed_to_warm path bus = push (codes "Pre-warm failed: " ++ filename path) error bus

module _ (a : AudioDecoder) where
  abbrev also : ℕ → Option (a.State × List ℕ) → Option (a.State × List ℕ)
  also frames none = none
  also frames (some (t, log)) = some (t, frames ∷ log)

  -- The loop, with `size` samples of room, and the frames of each call; `none` if an assertion of the
  -- decoder fails.
  unfoldable pub validate : ℕ → ℕ → a.State → Option (a.State × List ℕ)
  validate zero size s = some (s, [])
  validate (suc rounds) size s = elim (a.decode_frames size decode_chunk_frames s) [
    | none ↦ none
    | some (t, frames, samples) ↦
        let more = validate rounds size t in
        if frames == 0 then some (t, frames ∷ []) else also frames more
  ]

  -- With the destructor, at the end of the scope.
  abbrev left : Bus → Bool → List ℕ → a.State → Warmed
  left bus warm decoded s = record {
    bus = bus;
    warm = warm;
    decoded = decoded;
    acquired = a.acquired (a.destroy s);
    released = a.released (a.destroy s);
  }

  abbrev warmed : Bus → Option (a.State × List ℕ) → Option Warmed
  warmed bus none = none
  warmed bus (some (s, log)) = some (left bus true log (a.close s))

  unfoldable pub warm_with : Text → Bus → Option Warmed
  unfolding validate
  warm_with path bus =
      let (s, ok) = a.open_file path a.init in
      if not ok
      then some (left (failed_to_warm path bus) false [] s)
      else warmed bus
          (validate pre_warm_validation_frames (decode_chunk_frames * pos_part (a.channels s)) s)

-- With what `AudioDecoderFactory::create` gives.
abbrev warm_made : Text → Bus → Option AudioDecoder → Option Warmed
warm_made path bus none = some (record {
  bus = failed_to_warm path bus;
  warm = false;
  decoded = [];
  acquired = 0;
  released = 0;
})
warm_made path bus (some a) = warm_with a path bus

unfoldable pub pre_warm_song : Vendors → Text → Bus → Option Warmed
pre_warm_song v path bus = warm_made path bus (create v path)

-- Whether a decoder is made for a path and opens it.
abbrev opened_by : Text → Option AudioDecoder → Bool
opened_by path none = false
opened_by path (some a) = (a.open_file path a.init).1

abbrev pub file_opens : Vendors → Text → Bool
file_opens v path = opened_by path (create v path)

-- Chunks of 1 to 1152 frames: as many as there are rounds, or fewer and then a call that gave none.
abbrev pub IsChunks : ℕ → List ℕ → Type 0
IsChunks rounds log =
    (chunks : List ℕ) × (ends : List ℕ) × (log ≡ chunks ++ ends)
    × All (λ n. (0 < n) × (n ≤ decode_chunk_frames)) chunks
    × (((length chunks ≡ rounds) × (ends ≡ [])) ⊎ ((length chunks < rounds) × (ends ≡ 0 ∷ [])))

-- What is promised of a song that opens, or does not.
abbrev pub IsWarmed : Text → Bus → Bool → Warmed → Type 0
IsWarmed path bus opens w =
    (w.warm ≡ opens)
    × (w.bus ≡ (if opens then bus else failed_to_warm path bus))
    × IsChunks (if opens then pre_warm_validation_frames else 0) w.decoded
    × (w.acquired ≡ w.released)

IsChunks-none : IsChunks 0 []
IsChunks-none = ([], [], refl, tt, inl (refl, refl))

IsChunks-also :
    (frames rounds : ℕ) (log : List ℕ)
    → 0 < frames
    → frames ≤ decode_chunk_frames
    → IsChunks rounds log
    → IsChunks (suc rounds) (frames ∷ log)
IsChunks-also frames rounds log low high (chunks, ends, e, each, inl (all, none_after)) = (
  frames ∷ chunks,
  ends,
  ap (λ l. frames ∷ l) e,
  ((low, high), each),
  inl (ap suc all, none_after),
)
IsChunks-also frames rounds log low high (chunks, ends, e, each, inr (some_only, over)) = (
  frames ∷ chunks,
  ends,
  ap (λ l. frames ∷ l) e,
  ((low, high), each),
  inr (omega (arith, some_only), over),
)

module _ (a : AudioDecoder) (sound : IsSound a) where
  validate_total :
      (rounds size : ℕ) (s : a.State)
      → sound.Holds s
      → decode_chunk_frames * pos_part (a.channels s) ≤ size
      → (t : a.State) × (log : List ℕ) × (validate a rounds size s ≡ some (t, log))
        × sound.Holds t
        × IsChunks rounds log
  unfolding validate
  validate_total zero size s holds fits = (s, [], refl, holds, IsChunks-none)
  validate_total (suc rounds) size s holds fits =
      elim (Option-cases (a.decode_frames size decode_chunk_frames s)) [
        | inl stops ↦
            absurd (rw stops at (sound.decodes size decode_chunk_frames s holds (λ o. fits)))
        | inr ((t, frames, samples), e) ↦
            let well : Decodes a sound.Holds size decode_chunk_frames s
                (some (t, frames, samples)) =
              rw e at (sound.decodes size decode_chunk_frames s holds (λ o. fits)) in
            elim (Bool-cases (frames == 0)) [
              | inl over ↦ (
                t,
                frames ∷ [],
                rw (validate, e, over) refl,
                well.0,
                ([], frames ∷ [], refl, tt, inr (omega arith, ap (λ n. n ∷ []) (ground arith))),
              )
              | inr more ↦
                  let (u, log, ran, held, chunks) =
                    validate_total rounds size t well.0
                      (rw (ap (λ c. decode_chunk_frames * pos_part c) well.4) fits) in
                  (
                    u,
                    frames ∷ log,
                    rw (validate, e, more) (ap (also a frames) ran),
                    held,
                    IsChunks-also frames rounds log (ground arith) well.1 chunks,
                  )
            ]
      ]

  warm_with-IsWarmed :
      (path : Text) (bus : Bus)
      → (w : Warmed) × (warm_with a path bus ≡ some w)
        × IsWarmed path bus (a.open_file path a.init).1 w
  unfolding warm_with
  warm_with-IsWarmed path bus =
      let s = (a.open_file path a.init).0 in
      let opened = sound.opens path a.init sound.starts in
      elim (Bool-cases (a.open_file path a.init).1) [
        | inl ok ↦
            let size = decode_chunk_frames * pos_part (a.channels s) in
            let (t, log, ran, held, chunks) =
              validate_total pre_warm_validation_frames size s opened (le_refl size) in
            (
              left a bus true log (a.close t),
              rw ok (ap (warmed a bus) ran),
              (rw ok refl, rw ok refl, rw ok chunks, sound.frees (a.close t) (sound.closes t held)),
            )
        | inr bad ↦ (
          left a (failed_to_warm path bus) false [] s,
          rw bad refl,
          (rw bad refl, rw bad refl, rw bad IsChunks-none, sound.frees s opened),
        )
      ]

warm_made-IsWarmed :
    (path : Text) (bus : Bus) (made : Option AudioDecoder)
    → Sound made
    → (w : Warmed) × (warm_made path bus made ≡ some w) × IsWarmed path bus (opened_by path made) w
warm_made-IsWarmed path bus none sound =
    let nothing : Warmed = record {
      bus = failed_to_warm path bus;
      warm = false;
      decoded = [];
      acquired = 0;
      released = 0;
    } in
    (nothing, refl, (refl, refl, IsChunks-none, refl))
warm_made-IsWarmed path bus (some a) sound = warm_with-IsWarmed a sound path bus

-- Whatever the file: no assertion fails; the answer is whether a decoder opens the file, and if not
-- the user is told so, else nothing. A file that opens is decoded in ten chunks of at most 1152
-- frames, or in fewer and then a call that gives none; another is not decoded. Every file that was
-- opened has been closed.
pub pre_warm_song_lem :
    (v : Vendors) (path : Text) (bus : Bus)
    → VendorsRead v
    → (w : Warmed) × (pre_warm_song v path bus ≡ some w) × IsWarmed path bus (file_opens v path) w
unfolding pre_warm_song
pre_warm_song_lem v path bus reads =
    warm_made-IsWarmed path bus (create v path) (create-Sound v path reads)
