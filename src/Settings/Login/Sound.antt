-- ===== src/Settings/Login/Sound.antt =====
-- was/app/login_config.py: what the login page shows, whatever was saved.
use soltrace.Base.{
  ℕ, ◌+◌, ◌≤◌, ◌≡◌, refl, ltb, ltb→le, false, not, ◌&&◌, Bool-cases, inl, inr, Option, none, some,
  List, [], ◌∷◌, length, take, if◌then◌else◌, arith,
}
use soltrace.Auth.Text.{Text, is_empty}
use soltrace.Auth.Accounts.{text_or_empty}
use soltrace.Daemon.Extended.{starts}
use soltrace.Settings.{Store, get_config, set_config}
use soltrace.Settings.Login.{
  title_key, subtitle_key, warning_key, bg_color_key, default_title, default_subtitle, max_title,
  max_subtitle, max_warning, Kind, bg, logo, kind_of, image_key, max_bytes, Outcome, fails, gives,
  validate_kind, validate_image, is_hex_color, Texts, check_texts, normalize_text, Page, load,
  store_texts, save_text, store_image, save_of, save_image, clear_kind, clear_image, upload_kind,
  upload_login_image,
}
use soltrace.Settings.Login.Forms.{
  uri_prefix, IsEmptyOr, Holds, stored_color, IsImageUri, validate_kind-IsImageUri,
}

-- What a page shows.
pub record IsShowable (p : Page) : Type 0 where
  pub title : (is_empty p.texts.title ≡ false) × (length p.texts.title ≤ max_title)
  pub subtitle : (is_empty p.texts.subtitle ≡ false) × (length p.texts.subtitle ≤ max_subtitle)
  pub warning : length p.texts.warning ≤ max_warning
  pub bg_color : IsEmptyOr is_hex_color p.texts.bg_color
  pub bg_image : IsEmptyOr (starts uri_prefix) p.bg_image
  pub logo_image : IsEmptyOr (starts uri_prefix) p.logo_image

-- What is stored under each key.
pub record IsSound (db : Store) : Type 0 where
  pub title : length (text_or_empty (db title_key)) ≤ max_title
  pub subtitle : length (text_or_empty (db subtitle_key)) ≤ max_subtitle
  pub warning : length (text_or_empty (db warning_key)) ≤ max_warning
  pub bg_color : IsEmptyOr is_hex_color (text_or_empty (db bg_color_key))
  pub images : (kind : Kind) → IsEmptyOr (starts uri_prefix) (text_or_empty (db (image_key kind)))

each : (P : Kind → Type 0) → P bg → P logo → (k : Kind) → P k
each P b l bg = b
each P b l logo = l

-- what `normalize_text` returns
pub record IsNormal (t : Texts) : Type 0 where
  pub title : length t.title ≤ max_title
  pub subtitle : length t.subtitle ≤ max_subtitle
  pub warning : length t.warning ≤ max_warning
  pub bg_color : IsEmptyOr is_hex_color t.bg_color

check_texts-IsNormal : (t : Texts) → Holds IsNormal (check_texts t)
unfolding check_texts
check_texts-IsNormal t = elim (Bool-cases (ltb max_title (length t.title))) [
  | inl e ↦ rw e tt
  | inr a ↦ elim (Bool-cases (ltb max_subtitle (length t.subtitle))) [
    | inl e ↦ rw (a, e) tt
    | inr b ↦ elim (Bool-cases (ltb max_warning (length t.warning))) [
      | inl e ↦ rw (a, b, e) tt
      | inr c ↦ elim (Bool-cases (not (is_empty t.bg_color) && not (is_hex_color t.bg_color))) [
        | inl e ↦ rw (a, b, c, e) tt
        | inr d ↦
            rw (a, b, c, d)
              (record {
                title = ltb→le _ _ a;
                subtitle = ltb→le _ _ b;
                warning = ltb→le _ _ c;
                bg_color = stored_color t.bg_color d;
              })
      ]
    ]
  ]
]

store_texts-IsSound :
    (m : Outcome Texts) (db : Store)
    → Holds IsNormal m
    → IsSound db
    → Holds IsSound (store_texts m db)
unfolding set_config
store_texts-IsSound (fails e) db n h = tt
store_texts-IsSound (gives v) db n h = record {
  title = n.title;
  subtitle = n.subtitle;
  warning = n.warning;
  bg_color = n.bg_color;
  images = each _ (h.images bg) (h.images logo);
}

set_image-IsSound :
    (k : Kind) (uri : Text) (db : Store)
    → IsImageUri uri
    → IsSound db
    → IsSound (set_config (image_key k) uri db)
unfolding set_config
set_image-IsSound bg uri db u h = record {
  title = h.title;
  subtitle = h.subtitle;
  warning = h.warning;
  bg_color = h.bg_color;
  images = each _ u (h.images logo);
}
set_image-IsSound logo uri db u h = record {
  title = h.title;
  subtitle = h.subtitle;
  warning = h.warning;
  bg_color = h.bg_color;
  images = each _ (h.images bg) u;
}

store_image-IsSound :
    (k : Kind) (m : Outcome Text) (db : Store)
    → Holds IsImageUri m
    → IsSound db
    → Holds IsSound (store_image k m db)
store_image-IsSound k (fails e) db u h = tt
store_image-IsSound k (gives uri) db u h = set_image-IsSound k uri db u h

-- The three changes that the handlers make.
pub data Op : Type 0 where
  saves_text : Texts → Op
  uploads : Text → List ℕ → Op
  deletes : Text → Op

abbrev pub or_same : Outcome Store → Store → Store
or_same (fails e) db = db
or_same (gives after) db = after

abbrev pub handle : Op → Store → Outcome Store
handle (saves_text t) db = save_text t db
handle (uploads kind file) db = upload_login_image kind file db
handle (deletes kind) db = clear_image kind db

abbrev pub serve : List Op → Store → Store
serve [] db = db
serve (op ∷ rest) db = serve rest (or_same (handle op db) db)

saved :
    (k k' : Option Kind) (file : List ℕ) (db : Store)
    → IsSound db
    → Holds IsSound (save_of k (validate_kind k' file) db)
saved none k' file db h = tt
saved (some k) k' file db h =
    store_image-IsSound k (validate_kind k' file) db (validate_kind-IsImageUri k' file) h

upload_kind-IsSound :
    (k : Option Kind) (kind : Text) (file : List ℕ) (db : Store)
    → IsSound db
    → Holds IsSound (upload_kind k kind file db)
unfolding save_image validate_image
upload_kind-IsSound none kind file db h = tt
upload_kind-IsSound (some k) kind file db h =
    saved (kind_of kind) (kind_of kind) (take (max_bytes k + 1) file) db h

clear_kind-IsSound : (k : Option Kind) (db : Store) → IsSound db → Holds IsSound (clear_kind k db)
clear_kind-IsSound none db h = tt
clear_kind-IsSound (some k) db h = set_image-IsSound k [] db (inl refl) h

handle-IsSound : (op : Op) (db : Store) → IsSound db → Holds IsSound (handle op db)
unfolding save_text normalize_text upload_login_image clear_image
handle-IsSound (saves_text t) db h =
    store_texts-IsSound (normalize_text t) db (check_texts-IsNormal _) h
handle-IsSound (uploads kind file) db h = upload_kind-IsSound (kind_of kind) kind file db h
handle-IsSound (deletes kind) db h = clear_kind-IsSound (kind_of kind) db h

or_same-IsSound :
    (m : Outcome Store) (db : Store) → IsSound db → Holds IsSound m → IsSound (or_same m db)
or_same-IsSound (fails e) db h k = h
or_same-IsSound (gives after) db h k = k

serve-IsSound : (ops : List Op) (db : Store) → IsSound db → IsSound (serve ops db)
serve-IsSound [] db h = h
serve-IsSound (op ∷ rest) db h =
    serve-IsSound rest (or_same (handle op db) db)
      (or_same-IsSound (handle op db) db h (handle-IsSound op db h))

default_fits :
    (n : ℕ) (v d : Text)
    → is_empty d ≡ false
    → length d ≤ n
    → length v ≤ n
    → let shown = (if is_empty v then d else v) in (is_empty shown ≡ false) × (length shown ≤ n)
default_fits n [] d e l h = (e, l)
default_fits n (c ∷ cs) d e l h = (refl, h)

empty_default : (P : Text → Type 0) (v : Text) → P v → P (if is_empty v then [] else v)
empty_default P [] h = h
empty_default P (c ∷ cs) h = h

-- From a table that is sound, any sequence of saved texts, uploads and removals of images, with
-- the refused ones changing nothing, leaves a login page with a title of 1 to 40 characters, a
-- subtitle of 1 to 120, a warning of at most 2000, a color that is empty or that _HEX_COLOR
-- matches, and images that are empty or data URIs of an image.
pub load-IsShowable : (ops : List Op) (db : Store) → IsSound db → IsShowable (load (serve ops db))
unfolding load get_config
load-IsShowable ops db h =
    let k = serve-IsSound ops db h in
    record {
      title = default_fits max_title _ default_title refl (omega arith) k.title;
      subtitle = default_fits max_subtitle _ default_subtitle refl (omega arith) k.subtitle;
      warning = empty_default (λ t. length t ≤ max_warning) _ k.warning;
      bg_color = empty_default (IsEmptyOr is_hex_color) _ k.bg_color;
      bg_image = empty_default (IsEmptyOr (starts uri_prefix)) _ (k.images bg);
      logo_image = empty_default (IsEmptyOr (starts uri_prefix)) _ (k.images logo);
    }
