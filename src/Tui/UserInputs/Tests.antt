-- ===== src/Tui/UserInputs/Tests.antt =====
-- The command line over a service with one album.
use musi_tui.Base.{◌≡◌, refl, true, [], ◌∷◌, none, some}
use musi_tui.Base.Text.{codes}
use musi_tui.Commands.Dispatcher.{World}
use musi_tui.Service.Config.{File, config_service}
use musi_tui.Service.Library.{LibraryService, library_service}
use musi_tui.Service.Library.Example.{around, service}
use musi_tui.Tui.UserInputs.{
  UserInputs, init, keep_newest, add_msg, enter_line, act_on, word_of, handle, return_key,
  theme_config, user, system,
}
use musi_tui.Tui.UserInputs.Prompts.{truncate_device_name, words}

abbrev world : World LibraryService File
world = record { service = service; config = none; ui = [] }

abbrev prompted : UserInputs LibraryService File
prompted = record {
  content = [];
  mode = theme_config;
  chat_log =
      record { text = codes "Type 'help' for commands"; kind = system; timestamp = 0 }
      ∷ record { text = codes "themes"; kind = user; timestamp = 50 }
      ∷ record {
        text = codes "[1]-Fire [2]-BW [3]-PurpleRain [4]-Forest (Esc to cancel)";
        kind = system;
        timestamp = 50;
      }
      ∷ [];
  world = world;
}

prompt :
    handle
      (library_service around [])
      config_service
      50
      return_key
      (record (init 0 world) { content = codes "themes" })
    ≡ some (prompted, true)
unfolding handle init enter_line act_on word_of add_msg keep_newest
prompt = refl

cut : truncate_device_name (codes "Radeon HDMI / DisplayPort 3 Output") ≡ codes "HDMI/DP 3"
unfolding truncate_device_name words
cut = refl
