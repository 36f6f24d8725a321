-- ===== src/Settings/Login.antt =====
-- was/app/login_config.py: the texts and images of the login page, as `app_config` keeps them. A file is
-- its bytes; the texts of the errors are left out.
pub mod Forms
pub mod Sound
pub mod Tests
use soltrace.Base.{
  ◌-◌, ℕ, zero, suc, ◌+◌, ◌*◌, ◌/◌, ◌%◌, ltb, leb, ◌==◌, Bool, true, false, not, ◌&&◌, ◌||◌, Option,
  none, some, List, [], ◌∷◌, ◌++◌, map, length, take, drop, if◌then◌else◌,
}
use soltrace.Auth.Text.{Text, text_eq, is_empty, codes, is_between}
use soltrace.Auth.Accounts.{text_or_empty}
use soltrace.Auth.Addresses.{strip_input}
use soltrace.Daemon.Extended.{starts}
use soltrace.Settings.{Store, get_config, set_config}

abbrev pub title_key : Text
title_key = codes "login_title"

abbrev pub subtitle_key : Text
subtitle_key = codes "login_subtitle"

abbrev pub warning_key : Text
warning_key = codes "login_warning"

abbrev pub bg_color_key : Text
bg_color_key = codes "login_bg_color"

abbrev pub default_title : Text
default_title = codes "SolTrace"

abbrev pub default_subtitle : Text
default_subtitle = codes "FTP Log Analyzer에 로그인하세요."

abbrev pub max_title : ℕ
max_title = 40

abbrev pub max_subtitle : ℕ
max_subtitle = 120

abbrev pub max_warning : ℕ
max_warning = 2000

-- `IMAGE_KINDS`
pub data Kind : Type 0 where
  bg logo : Kind

abbrev pub kind_of : Text → Option Kind
kind_of kind =
    if text_eq kind (codes "bg")
    then some bg
    else if text_eq kind (codes "logo")
    then some logo
    else none

abbrev pub image_key : Kind → Text
image_key bg = codes "login_bg_image"
image_key logo = codes "login_logo_image"

abbrev pub max_bytes : Kind → ℕ
max_bytes bg = 2 * 1024 * 1024
max_bytes logo = 512 * 1024

-- the ValueErrors, and the KeyError
pub data Problem : Type 0 where
  unknown_kind no_such_key empty_file too_large unknown_format : Problem
  long_title long_subtitle long_warning bad_color : Problem

pub data Outcome (A : Type 0) : Type 0 where
  fails : Problem → Outcome A
  gives : A → Outcome A

abbrev pub png : Text
png = 137 ∷ 80 ∷ 78 ∷ 71 ∷ 13 ∷ 10 ∷ 26 ∷ 10 ∷ []

-- the MIME type, or none for the ValueError
unfoldable pub sniff_image : List ℕ → Option Text
sniff_image data_bytes =
    if starts (255 ∷ 216 ∷ 255 ∷ []) data_bytes
    then some (codes "image/jpeg")
    else if starts png data_bytes
    then some (codes "image/png")
    else if starts (codes "GIF87a") data_bytes || starts (codes "GIF89a") data_bytes
    then some (codes "image/gif")
    else if text_eq (take 4 data_bytes) (codes "RIFF")
        && text_eq (take 4 (drop 8 data_bytes)) (codes "WEBP")
    then some (codes "image/webp")
    else none

-- `base64.b64encode`
abbrev pub digit64 : ℕ → ℕ
digit64 n =
    if ltb n 26
    then n + 65
    else if ltb n 52
    then n + 71
    else if ltb n 62
    then n - 4
    else if n == 62
    then 43
    else 47

unfoldable pub b64encode : List ℕ → Text
b64encode [] = []
b64encode (a ∷ []) = digit64 (a / 4) ∷ digit64 (a % 4 * 16) ∷ 61 ∷ 61 ∷ []
b64encode (a ∷ b ∷ []) =
    digit64 (a / 4) ∷ digit64 (a % 4 * 16 + b / 16) ∷ digit64 (b % 16 * 4) ∷ 61 ∷ []
b64encode (a ∷ b ∷ c ∷ rest) =
    digit64 (a / 4)
    ∷ digit64 (a % 4 * 16 + b / 16)
    ∷ digit64 (b % 16 * 4 + c / 64)
    ∷ digit64 (c % 64)
    ∷ b64encode rest

abbrev pub data_uri : Option Text → List ℕ → Outcome Text
data_uri none data_bytes = fails unknown_format
data_uri (some mime) data_bytes =
    gives (codes "data:" ++ mime ++ codes ";base64," ++ b64encode data_bytes)

unfoldable pub to_data_uri : List ℕ → Outcome Text
to_data_uri data_bytes = data_uri (sniff_image data_bytes) data_bytes

abbrev pub validate_kind : Option Kind → List ℕ → Outcome Text
validate_kind none data_bytes = fails unknown_kind
validate_kind (some kind) data_bytes =
    if is_empty data_bytes
    then fails empty_file
    else if ltb (max_bytes kind) (length data_bytes)
    then fails too_large
    else to_data_uri data_bytes

unfoldable pub validate_image : Text → List ℕ → Outcome Text
validate_image kind data_bytes = validate_kind (kind_of kind) data_bytes

unfoldable pub is_hex : ℕ → Bool
is_hex c = is_between 48 57 c || is_between 65 70 c || is_between 97 102 c

-- `_HEX_COLOR`: a dollar sign also matches before a newline at the end
unfoldable pub hex_run : ℕ → Text → Bool
hex_run zero cs = is_empty cs || text_eq cs (10 ∷ [])
hex_run (suc n) [] = false
hex_run (suc n) (c ∷ cs) = is_hex c && hex_run n cs

unfoldable pub is_hex_color : Text → Bool
is_hex_color [] = false
is_hex_color (c ∷ cs) = c == 35 && hex_run 6 cs

-- `lower`, on what the expression matches
unfoldable pub lower_code : ℕ → ℕ
lower_code c = if is_between 65 90 c then c + 32 else c

pub record Texts : Type 0 where
  pub title : Text
  pub subtitle : Text
  pub warning : Text
  pub bg_color : Text

unfoldable pub check_texts : Texts → Outcome Texts
check_texts t =
    if ltb max_title (length t.title)
    then fails long_title
    else if ltb max_subtitle (length t.subtitle)
    then fails long_subtitle
    else if ltb max_warning (length t.warning)
    then fails long_warning
    else if not (is_empty t.bg_color) && not (is_hex_color t.bg_color)
    then fails bad_color
    else gives (record t { bg_color = map lower_code t.bg_color })

unfoldable pub normalize_text : Texts → Outcome Texts
normalize_text t = check_texts (record {
  title = strip_input t.title;
  subtitle = strip_input t.subtitle;
  warning = strip_input t.warning;
  bg_color = strip_input t.bg_color;
})

pub record Page : Type 0 where
  pub texts : Texts
  pub bg_image : Text
  pub logo_image : Text

abbrev pub or_default : Option Text → Text → Text
or_default value default = let v = text_or_empty value in if is_empty v then default else v

unfoldable pub load : Store → Page
load db = record {
  texts = record {
    title = or_default (get_config title_key db) default_title;
    subtitle = or_default (get_config subtitle_key db) default_subtitle;
    warning = or_default (get_config warning_key db) [];
    bg_color = or_default (get_config bg_color_key db) [];
  };
  bg_image = or_default (get_config (image_key bg) db) [];
  logo_image = or_default (get_config (image_key logo) db) [];
}

abbrev pub store_texts : Outcome Texts → Store → Outcome Store
store_texts (fails e) db = fails e
store_texts (gives v) db = gives (
    set_config bg_color_key v.bg_color (
      set_config warning_key v.warning
        (set_config subtitle_key v.subtitle (set_config title_key v.title db))))

unfoldable pub save_text : Texts → Store → Outcome Store
save_text t db = store_texts (normalize_text t) db

abbrev pub store_image : Kind → Outcome Text → Store → Outcome Store
store_image kind (fails e) db = fails e
store_image kind (gives uri) db = gives (set_config (image_key kind) uri db)

-- the key is looked up before the image is validated
abbrev pub save_of : Option Kind → Outcome Text → Store → Outcome Store
save_of none m db = fails no_such_key
save_of (some k) m db = store_image k m db

unfoldable pub save_image : Text → List ℕ → Store → Outcome Store
save_image kind data_bytes db = save_of (kind_of kind) (validate_image kind data_bytes) db

abbrev pub clear_kind : Option Kind → Store → Outcome Store
clear_kind none db = fails unknown_kind
clear_kind (some k) db = gives (set_config (image_key k) [] db)

unfoldable pub clear_image : Text → Store → Outcome Store
clear_image kind db = clear_kind (kind_of kind) db

-- was/app/routers/settings.py: the handlers; of an upload one byte more than the limit is read.
abbrev pub upload_kind : Option Kind → Text → List ℕ → Store → Outcome Store
upload_kind none kind file db = fails unknown_kind
upload_kind (some k) kind file db = save_image kind (take (max_bytes k + 1) file) db

unfoldable pub upload_login_image : Text → List ℕ → Store → Outcome Store
upload_login_image kind file db = upload_kind (kind_of kind) kind file db
