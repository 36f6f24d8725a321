-- ===== src/Settings/Login/Tests.antt =====
-- was/app/login_config.py: a page that is saved, with a logo.
use soltrace.Base.{◌≡◌, refl, none, List, [], ◌∷◌, inl, arith}
use soltrace.Auth.Text.{codes}
use soltrace.Settings.{Store}
use soltrace.Settings.Login.{load, b64encode}
use soltrace.Settings.Login.Sound.{
  Op, saves_text, uploads, deletes, serve, IsSound, IsShowable, load-IsShowable,
}

abbrev new_store : Store
new_store = λ k. none

abbrev ops : List Op
ops =
    saves_text (record {
      title = codes " FTP ";
      subtitle = [];
      warning = codes "private";
      bg_color = codes "#0D1B2A";
    })
    ∷ uploads (codes "logo") (255 ∷ 216 ∷ 255 ∷ 1 ∷ [])
    ∷ uploads (codes "icon") (1 ∷ [])
    ∷ deletes (codes "bg")
    ∷ []

new_store-IsSound : IsSound new_store
new_store-IsSound = record {
  title = omega arith;
  subtitle = omega arith;
  warning = omega arith;
  bg_color = inl refl;
  images = λ kind. inl refl;
}

-- the end of a group is filled up
b64encode_test : b64encode (codes "Ma") ≡ codes "TWE="
unfolding b64encode
b64encode_test = refl

load-IsShowable_example : IsShowable (load (serve ops new_store))
load-IsShowable_example = load-IsShowable ops new_store new_store-IsSound
