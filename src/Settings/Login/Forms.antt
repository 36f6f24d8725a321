-- ===== src/Settings/Login/Forms.antt =====
-- was/app/login_config.py: the color and the images that are stored.
use soltrace.Base.{
  drop, ℕ, zero, suc, ◌≡◌, refl, ltb, Bool, true, false, not, ◌&&◌, ◌||◌, ◌⊎◌, inl, inr, Option,
  none, some, List, [], ◌∷◌, map, length, take, if◌then◌else◌, arith,
}
use soltrace.Auth.Text.{Text, text_eq, is_empty, codes, is_between}
use soltrace.Daemon.Extended.{starts}
use soltrace.Settings.Login.{
  Kind, png, max_bytes, Outcome, fails, gives, sniff_image, data_uri, to_data_uri, validate_kind,
  is_hex, hex_run, is_hex_color, lower_code,
}

abbrev pub uri_prefix : Text
uri_prefix = codes "data:image/"

-- empty, or of a form
abbrev pub IsEmptyOr : (Text → Bool) → Text → Type 0
IsEmptyOr form t = (is_empty t ≡ true) ⊎ (form t ≡ true)

abbrev pub Holds : {A : Type 0} → (A → Type 0) → Outcome A → Type 0
Holds P (fails e) = Unit
Holds P (gives a) = P a

pub either {κ} :
    {A : Type 0} (P : A → Type κ) (b : Bool) (x y : A) → P x → P y → P (if b then x else y)
either P true x y h k = h
either P false x y h k = k

lower_code-is_hex : (c : ℕ) → is_hex c ≡ true → is_hex (lower_code c) ≡ true
unfolding is_hex lower_code is_between
lower_code-is_hex c h = ground arith

text_eq-lower :
    (cs : Text) → text_eq cs (10 ∷ []) ≡ true → text_eq (map lower_code cs) (10 ∷ []) ≡ true
unfolding lower_code is_between
text_eq-lower [] h = cc h
text_eq-lower (c ∷ d ∷ cs) h = ground arith
text_eq-lower (c ∷ []) h = ground arith

hex_run-lower : (n : ℕ) (cs : Text) → hex_run n cs ≡ true → hex_run n (map lower_code cs) ≡ true
unfolding hex_run
hex_run-lower zero [] h = refl
hex_run-lower zero (c ∷ cs) h = text_eq-lower (c ∷ cs) h
hex_run-lower (suc n) [] h = cc h
hex_run-lower (suc n) (c ∷ cs) h = ground (arith, lower_code-is_hex c, hex_run-lower n cs)

is_hex_color-lower : (cs : Text) → is_hex_color cs ≡ true → is_hex_color (map lower_code cs) ≡ true
unfolding is_hex_color lower_code is_between
is_hex_color-lower [] h = cc h
is_hex_color-lower (c ∷ cs) h = ground (arith, hex_run-lower 6 cs)

-- a color that passes the test, as it is stored
pub stored_color :
    (t : Text)
    → (not (is_empty t) && not (is_hex_color t)) ≡ false
    → IsEmptyOr is_hex_color (map lower_code t)
stored_color [] h = inl refl
stored_color (c ∷ cs) h = inr (is_hex_color-lower (c ∷ cs) (ground arith))

abbrev pub IsImageUri : Text → Type 0
IsImageUri uri = IsEmptyOr (starts uri_prefix) uri

pub data_uri-IsImageUri : (data_bytes : List ℕ) → Holds IsImageUri (to_data_uri data_bytes)
unfolding to_data_uri sniff_image starts
data_uri-IsImageUri data_bytes =
    let P : Option Text → Type 0 = λ m. Holds IsImageUri (data_uri m data_bytes) in
    let riff =
      text_eq (take 4 data_bytes) (codes "RIFF")
      && text_eq (take 4 (drop 8 data_bytes)) (codes "WEBP") in
    let webp : P (if riff then some (codes "image/webp") else none) =
      either P riff (some (codes "image/webp")) none (inr refl) tt in
    let is_gif = starts (codes "GIF87a") data_bytes || starts (codes "GIF89a") data_bytes in
    either P (starts (255 ∷ 216 ∷ 255 ∷ []) data_bytes) (some (codes "image/jpeg")) _ (inr refl) (
      either P (starts png data_bytes) (some (codes "image/png")) _ (inr refl)
        (either P is_gif (some (codes "image/gif")) _ (inr refl) webp))

pub validate_kind-IsImageUri :
    (k : Option Kind) (data_bytes : List ℕ) → Holds IsImageUri (validate_kind k data_bytes)
validate_kind-IsImageUri none data_bytes = tt
validate_kind-IsImageUri (some k) data_bytes =
    either (Holds IsImageUri) (is_empty data_bytes) _ _ tt (
      either (Holds IsImageUri) (ltb (max_bytes k) (length data_bytes)) _ _ tt
        (data_uri-IsImageUri data_bytes))
