-- ===== src/Tui/UserInputs/Prompts.antt =====
-- `truncateDeviceName` and `buildDeviceListPrompt` of src/tui/UserInputs.cpp.
use musi_tui.Base.{
  ℕ, suc, ◌+◌, ◌-◌, ◌≤◌, ◌≡◌, Bool, true, ◌&&◌, List, [], ◌∷◌, ◌++◌, Option, none, some, ltb, leb,
  arith, inl, inr, Bool-cases, if◌then◌else◌, length, length-take, is_empty, take, drop, get_or,
}
use musi_tui.Base.Text.{Text, codes, text_eq, is_space, push_byte, after_first}
use musi_tui.Base.Decimal.{to_string_ℕ}

abbrev max_chars : ℕ
max_chars = 20

-- `work` without a last ` Output`
abbrev without_suffix : Text → Text
without_suffix work =
    let kept = length work - 7 in
    if ltb 7 (length work) && text_eq (drop kept work) (codes " Output")
    then take kept work
    else work

abbrev starts_blank : Text → Bool
starts_blank [] = true
starts_blank (c ∷ s) = is_space c

-- What `iss >> w` reads, one word after the other.
unfoldable pub words : Text → List Text
words [] = []
words (c ∷ s) =
    let rest = words s in
    if is_space c then rest else if starts_blank s then (c ∷ []) ∷ rest else push_byte c rest

abbrev last_two : List Text → Text
last_two ws = get_or ws (length ws - 2) [] ++ b' ' ∷ get_or ws (length ws - 1) []

abbrev last_words : Text → List Text → Text
last_words work ws =
    if leb (length ws) 2
    then take max_chars work
    else if leb (length (last_two ws)) max_chars
    then last_two ws
    else take max_chars (last_two ws)

abbrev by_words : Text → Text
by_words work = last_words work (words work)

abbrev shorten : Text → Option Text → Text
shorten work none = by_words work
shorten work (some tail) =
    let hdmi = codes "HDMI/DP" ++ tail in
    if leb (length hdmi) max_chars then hdmi else by_words hdmi

unfoldable pub truncate_device_name : Text → Text
unfolding words
truncate_device_name name =
    if is_empty name
    then name
    else if leb (length name) max_chars
    then name
    else shorten (without_suffix name)
        (after_first (codes "HDMI / DisplayPort") (without_suffix name))

abbrev prompt_from : ℕ → List Text → Text → Text
prompt_from i [] result = result
prompt_from i (d ∷ ds) result = prompt_from (suc i) ds (
    (result ++ (b'[' ∷ to_string_ℕ (i + 1) ++ codes "]." ++ truncate_device_name d))
    ++ (if is_empty ds then [] else b' ' ∷ []))

unfoldable pub build_device_list_prompt : List Text → Text
unfolding truncate_device_name
build_device_list_prompt devices =
    if is_empty devices
    then codes "No output devices found."
    else prompt_from 0 devices (codes "Select output: ")

length-take_le : (n : ℕ) (s : Text) → length (take n s) ≤ n
length-take_le n s = omega (arith, length-take n s)

at_most : (n : ℕ) → leb n max_chars ≡ true → n ≤ max_chars
at_most n h = ground arith

length-last_words : (work : Text) (ws : List Text) → length (last_words work ws) ≤ max_chars
length-last_words work ws =
    ground (arith, length-take_le max_chars work, length-take_le max_chars (last_two ws))

length-shorten : (work : Text) (o : Option Text) → length (shorten work o) ≤ max_chars
length-shorten work none = length-last_words work (words work)
length-shorten work (some tail) =
    ground (arith, length-last_words (codes "HDMI/DP" ++ tail) (words (codes "HDMI/DP" ++ tail)))

-- A device's name is cut to at most 20 bytes.
pub length-truncate_device_name : (name : Text) → length (truncate_device_name name) ≤ max_chars
unfolding truncate_device_name
length-truncate_device_name name =
    let work = without_suffix name in
    let short = length-shorten work (after_first (codes "HDMI / DisplayPort") work) in
    elim (Bool-cases (is_empty name)) [
      | inl empty ↦ rw empty (nothing name empty)
      | inr some_name ↦ elim (Bool-cases (leb (length name) max_chars)) [
        | inl fits ↦ rw (some_name, fits) (at_most (length name) fits)
        | inr long ↦ rw (some_name, long) short
      ]
    ]
  where
    nothing : (s : Text) → is_empty s ≡ true → length s ≤ max_chars
    nothing [] h = omega arith
    nothing (c ∷ s) h = cc
