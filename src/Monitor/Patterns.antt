-- ===== src/Monitor/Patterns.antt =====
-- was/app/service_monitor.py: `_like_patterns`, which turns the patterns of the settings into
-- patterns of SQL's LIKE.
pub mod Like
pub mod Tests
use soltrace.Base.{
  ℕ, ◌==◌, ==_iff, ◌≡◌, ◌≢◌, refl, ◌∙◌, sym, ap, Bool, true, false, not, ◌&&◌, ◌||◌, Bool-cases,
  inl, inr, Option, none, some, List, [], ◌∷◌, ◌++◌, map, if◌then◌else◌, arith,
}
use soltrace.Auth.Text.{Text, is_empty, strip, is_break, split_at}
use soltrace.Auth.Accounts.{text_or_empty}

-- `pat.replace(c, text)`
unfoldable pub replace_with : ℕ → Text → Text → Text
replace_with c text [] = []
replace_with c text (x ∷ xs) =
    let rest = replace_with c text xs in if x == c then text ++ rest else x ∷ rest

-- a pattern, with the characters of LIKE escaped and the star as a percent sign
unfoldable pub like_of : Text → Text
like_of pat =
    let escaped = replace_with 37 (92 ∷ 37 ∷ []) (replace_with 92 (92 ∷ 92 ∷ []) pat) in
    replace_with 42 (37 ∷ []) (replace_with 95 (92 ∷ 95 ∷ []) escaped)

-- the loop over the lines
unfoldable pub like_lines : List Text → List Text
like_lines [] = []
like_lines (line ∷ rest) =
    let pat = strip line in
    let out = like_lines rest in if is_empty pat then out else like_of pat ∷ out

-- `splitlines`, but for empty lines
abbrev pub lines_of : Option Text → List Text
lines_of raw = split_at is_break (text_or_empty raw)

unfoldable pub like_patterns : Option Text → List Text
like_patterns raw = like_lines (lines_of raw)
