-- ===== src/Util/PathValidator/Tests.antt =====
-- The validator on concrete texts.
use musi_tui.Base.{◌≡◌, refl, true, false, some, [], ◌∷◌}
use musi_tui.Base.Text.{Text, codes}
use musi_tui.Util.PathValidator.{FileSystem, Options, is_valid_utf8, sequence_after}

abbrev disk : FileSystem
disk = record { is_relative = λ p. false; exists = λ p. true; status = λ p. some true }

abbrev options : Options
options = record {
  max_path_length = 4096;
  strict_mode = true;
  allow_relative_paths = false;
  require_exists = true;
  require_directory = true;
}

abbrev typed : Text
typed = codes "  /home/m/Music/ "

-- An encoded surrogate passes.
surrogate : is_valid_utf8 (0xED ∷ 0xA0 ∷ 0x80 ∷ []) ≡ true
unfolding is_valid_utf8 sequence_after
surrogate = refl

overlong : is_valid_utf8 (0xC0 ∷ 0xAE ∷ []) ≡ false
unfolding is_valid_utf8 sequence_after
overlong = refl
