-- ===== src/Audio/Devices.antt =====
-- `listOutputDevices` of src/audio/SdlAudioSink.cpp. What SDL reports is a parameter.
use musi_tui.Base.{
  ◌≡◌, refl, Bool, true, false, ◌||◌, List, [], ◌∷◌, ◌++◌, Option, none, some, arith, inl, inr,
  Bool-cases, if◌then◌else◌,
}
use musi_tui.Base.Text.{Text, text_eq, text_eq_refl}

abbrev is_listed : Text → List Text → Bool
is_listed name [] = false
is_listed name (d ∷ devices) = text_eq d name || is_listed name devices

-- The names that SDL gives, by index; some devices may have none. A name that is there is passed over.
collect : List Text → List (Option Text) → List Text
collect devices [] = devices
collect devices (none ∷ names) = collect devices names
collect devices (some name ∷ names) =
    collect (if is_listed name devices then devices else devices ++ name ∷ []) names

unfoldable pub list_output_devices : Bool → List (Option Text) → List Text
unfolding collect
list_output_devices audio_ok names = if audio_ok then collect [] names else []

pub IsDistinct : List Text → Type 0
IsDistinct [] = Unit
IsDistinct (d ∷ devices) = (is_listed d devices ≡ false) × IsDistinct devices

text_eq_comm : (s t : Text) → text_eq s t ≡ text_eq t s
text_eq_comm [] [] = refl
text_eq_comm [] (b ∷ t) = refl
text_eq_comm (a ∷ s) [] = refl
text_eq_comm (a ∷ s) (b ∷ t) = ground (arith, text_eq_comm s t)

is_listed-append :
    (name : Text) (devices : List Text) (d : Text)
    → is_listed name (devices ++ d ∷ []) ≡ (is_listed name devices || text_eq d name)
is_listed-append name [] d = ground arith
is_listed-append name (e ∷ devices) d = ground (arith, is_listed-append name devices d)

append-IsDistinct :
    (devices : List Text) (name : Text)
    → is_listed name devices ≡ false
    → IsDistinct devices
    → IsDistinct (devices ++ name ∷ [])
unfolding IsDistinct
append-IsDistinct [] name h v = (refl, tt)
append-IsDistinct (d ∷ devices) name h (fresh, v) = (
  ground (arith, is_listed-append d devices name, text_eq_comm d name),
  append-IsDistinct devices name (ground arith) v,
)

collect-IsDistinct :
    (names : List (Option Text)) (devices : List Text)
    → IsDistinct devices
    → IsDistinct (collect devices names)
unfolding collect
collect-IsDistinct [] devices v = v
collect-IsDistinct (none ∷ names) devices v = collect-IsDistinct names devices v
collect-IsDistinct (some name ∷ names) devices v = elim (Bool-cases (is_listed name devices)) [
  | inl there ↦ rw there (collect-IsDistinct names devices v)
  | inr new ↦
      rw new
        (collect-IsDistinct names (devices ++ name ∷ []) (append-IsDistinct devices name new v))
]

-- Every reported name, and whether it is among the devices.
pub AllListed : List Text → List (Option Text) → Type 0
AllListed devices [] = Unit
AllListed devices (none ∷ names) = AllListed devices names
AllListed devices (some name ∷ names) = (is_listed name devices ≡ true) × AllListed devices names

collect_keeps :
    (name : Text) (names : List (Option Text)) (devices : List Text)
    → is_listed name devices ≡ true
    → is_listed name (collect devices names) ≡ true
unfolding collect
collect_keeps name [] devices h = h
collect_keeps name (none ∷ names) devices h = collect_keeps name names devices h
collect_keeps name (some n ∷ names) devices h = elim (Bool-cases (is_listed n devices)) [
  | inl there ↦ rw there (collect_keeps name names devices h)
  | inr new ↦ rw new (
      collect_keeps name names (devices ++ n ∷ [])
        (ground (arith, is_listed-append name devices n)))
]

collect-AllListed :
    (names : List (Option Text)) (devices : List Text) → AllListed (collect devices names) names
unfolding collect AllListed
collect-AllListed [] devices = tt
collect-AllListed (none ∷ names) devices = collect-AllListed names devices
collect-AllListed (some name ∷ names) devices =
    taken (collect-AllListed names) (is_listed name devices) refl
  where
    at_end : (ds : List Text) → is_listed name (ds ++ name ∷ []) ≡ true
    at_end ds = ground (arith, is_listed-append name ds name, text_eq_refl name)

    taken :
        ((ds : List Text) → AllListed (collect ds names) names)
        → (b : Bool) → is_listed name devices ≡ b
        → let after = if b then devices else devices ++ name ∷ [] in
          (is_listed name (collect after names) ≡ true) × AllListed (collect after names) names
    taken rest true there = (collect_keeps name names devices there, rest devices)
    taken rest false new = (
      collect_keeps name names (devices ++ name ∷ []) (at_end devices),
      rest (devices ++ name ∷ []),
    )

-- While audio works, the list has every name that SDL reports, and each only once.
pub list_output_devices-IsDistinct :
    (names : List (Option Text))
    → IsDistinct (list_output_devices true names) × AllListed (list_output_devices true names) names
unfolding list_output_devices IsDistinct
list_output_devices-IsDistinct names = (collect-IsDistinct names [] tt, collect-AllListed names [])
