-- ===== src/Auth/Text.antt =====
-- was/app/security.py: the methods of Python's `str` that it uses, on code points.
pub mod Split
use Prim.Native.Char.{code}
use Prim.Native.String.{String}
use soltrace.Base.{
  select, not, arith, ℕ, ◌==◌, leb, Bool, true, false, ◌&&◌, ◌||◌, ◌≡◌, refl, List, [], ◌∷◌, map,
  if◌then◌else◌,
}

abbrev pub Text : Type 0
Text = List ℕ

-- a literal
abbrev pub codes : String → Text
codes String.[] = []
codes (String.◌∷◌ c s) = code c ∷ codes s

abbrev pub text_eq : Text → Text → Bool
text_eq [] [] = true
text_eq [] (d ∷ ds) = false
text_eq (c ∷ cs) [] = false
text_eq (c ∷ cs) (d ∷ ds) = c == d && text_eq cs ds

abbrev pub is_empty : Text → Bool
is_empty [] = true
is_empty (c ∷ cs) = false

abbrev pub is_between : ℕ → ℕ → ℕ → Bool
is_between a b c = leb a c && leb c b

-- what `strip` removes and what `splitlines` splits at
unfoldable pub is_space : ℕ → Bool
is_space c =
    is_between 9 13 c
    || is_between 28 32 c
    || c == 133
    || c == 160
    || c == 5760
    || is_between 8192 8202 c
    || c == 8232
    || c == 8233
    || c == 8239
    || c == 8287
    || c == 12288

unfoldable pub is_break : ℕ → Bool
is_break c = is_between 10 13 c || is_between 28 30 c || c == 133 || c == 8232 || c == 8233

abbrev pub push : ℕ → List Text → List Text
push c [] = (c ∷ []) ∷ []
push c (part ∷ parts) = (c ∷ part) ∷ parts

-- `split` at a separator: as many parts as separators, and one more
unfoldable pub split_at : (ℕ → Bool) → Text → List Text
split_at p [] = [] ∷ []
split_at p (c ∷ cs) = if p c then [] ∷ split_at p cs else push c (split_at p cs)

-- `split` at white space: the words
unfoldable pub words : Text → List Text
words s = select (λ part. not (is_empty part)) (split_at is_space s)

unfoldable pub lstrip : Text → Text
lstrip [] = []
lstrip (c ∷ cs) = if is_space c then lstrip cs else c ∷ cs

-- from the end: what is left of the rest decides whether a space stays
abbrev keep_inner : ℕ → Text → Text
keep_inner c [] = if is_space c then [] else c ∷ []
keep_inner c (d ∷ ds) = c ∷ d ∷ ds

unfoldable pub rstrip : Text → Text
rstrip [] = []
rstrip (c ∷ cs) = keep_inner c (rstrip cs)

unfoldable pub strip : Text → Text
strip s = rstrip (lstrip s)

unfoldable pub replace : ℕ → ℕ → Text → Text
replace a b s = map (λ c. if c == a then b else c) s

pub text_eq_refl : (s : Text) → text_eq s s ≡ true
text_eq_refl [] = refl
text_eq_refl (c ∷ cs) = ground (arith, text_eq_refl cs)

pub text_eq_sound : (a b : Text) → text_eq a b ≡ true → a ≡ b
text_eq_sound [] [] h = refl
text_eq_sound [] (d ∷ ds) h = ground arith
text_eq_sound (c ∷ cs) [] h = ground arith
text_eq_sound (c ∷ cs) (d ∷ ds) h = ground (arith, text_eq_sound cs ds)
