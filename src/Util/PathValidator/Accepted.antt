-- ===== src/Util/PathValidator/Accepted.antt =====
-- What an accepted path is known to be.
use musi_tui.Base.Text.{Text}
