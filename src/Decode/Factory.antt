-- ===== src/Decode/Factory.antt =====
-- `create` of src/decode/AudioDecoderFactory.cpp: the decoder that an extension asks for.
use musi_tui.Base.{
  ◌≡◌, subst, List, [], ◌∷◌, Option, none, some, is_some, if◌then◌else◌, arith, Bool-cases, inl,
  inr,
}
use musi_tui.Base.Text.{Text, codes, text_eq}
use musi_tui.Library.{lower_extension, is_supported}
use musi_tui.Decode.{DrLib, DrLibReads, Minimp3, Minimp3Reads, AudioDecoder, IsSound}
use musi_tui.Decode.Wav.{wav_decoder, wav_decoder-IsSound}
use musi_tui.Decode.Flac.{flac_decoder, flac_decoder-IsSound}
use musi_tui.Decode.Mp3.{mp3_decoder, mp3_decoder-IsSound}

-- The vendored decoders, and what they keep to.
pub record Vendors : Type 1 where
  pub minimp3 : Minimp3
  pub dr_flac : DrLib
  pub dr_wav : DrLib

pub record VendorsRead (v : Vendors) : Type 0 where
  pub mp3_reads : Minimp3Reads v.minimp3
  pub flac_reads : DrLibReads v.dr_flac
  pub wav_reads : DrLibReads v.dr_wav

pub record Entry : Type 1 where
  pub extension : Text
  pub make : AudioDecoder

-- `kRegistry`
abbrev pub registry : Vendors → List Entry
registry v =
    record { extension = codes ".mp3"; make = mp3_decoder v.minimp3 }
    ∷ record { extension = codes ".flac"; make = flac_decoder v.dr_flac }
    ∷ record { extension = codes ".wav"; make = wav_decoder v.dr_wav }
    ∷ []

unfoldable pub find_entry : Text → List Entry → Option AudioDecoder
find_entry ext [] = none
find_entry ext (e ∷ entries) =
    if text_eq e.extension ext then some e.make else find_entry ext entries

unfoldable pub create : Vendors → Text → Option AudioDecoder
unfolding find_entry lower_extension
create v path = find_entry (lower_extension path) (registry v)

-- What holds of a decoder, if there is one.
abbrev pub Sound : Option AudioDecoder → Type 1
Sound none = Unit
Sound (some a) = IsSound a

pub create-Sound : (v : Vendors) (path : Text) → VendorsRead v → Sound (create v path)
unfolding create
create-Sound v path reads = by_extension (lower_extension path)
  where
    by_extension : (ext : Text) → Sound (find_entry ext (registry v))
    by_extension ext = elim (Bool-cases (text_eq (codes ".mp3") ext)) [
      | inl mp3 ↦ rw mp3 (mp3_decoder-IsSound v.minimp3 reads.mp3_reads)
      | inr other ↦ rw other (elim (Bool-cases (text_eq (codes ".flac") ext)) [
        | inl flac ↦ rw flac (flac_decoder-IsSound v.dr_flac reads.flac_reads)
        | inr other ↦ rw other (elim (Bool-cases (text_eq (codes ".wav") ext)) [
          | inl wav ↦ rw wav (wav_decoder-IsSound v.dr_wav reads.wav_reads)
          | inr other ↦ rw other tt
        ])
      ])
    ]

-- Every decoder that the factory makes keeps to the interface.
pub create-IsSound :
    (v : Vendors) (path : Text) {a : AudioDecoder}
    → VendorsRead v
    → create v path ≡ some a
    → IsSound a
create-IsSound v path reads made = subst Sound made (create-Sound v path reads)

-- The files that are listed as supported are those that a decoder is made for.
pub is_supported-create : (v : Vendors) (path : Text) → is_supported path ≡ is_some (create v path)
unfolding is_supported create
is_supported-create v path = ground arith
