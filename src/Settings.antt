-- ===== src/Settings.antt =====
-- was/app/security.py: the table `app_config`, a function of its keys.
pub mod Login
use soltrace.Base.{Option, none, some, if◌then◌else◌}
use soltrace.Auth.Text.{Text, text_eq}

abbrev pub Store : Type 0
Store = Text → Option Text

unfoldable pub get_config : Text → Store → Option Text
get_config key db = db key

-- INSERT … ON CONFLICT (key) DO UPDATE
unfoldable pub set_config : Text → Text → Store → Store
set_config key value db = λ k. if text_eq k key then some value else db k
