-- ===== src/Monitor/Patterns/Like.antt =====
-- was/app/service_monitor.py: LIKE with the patterns of `_like_patterns` finds what the user's patterns
-- mean. LIKE is a parameter.
use soltrace.Base.{
  ℕ, ◌==◌, ==_iff, ◌≡◌, refl, ◌∙◌, sym, ap, Bool, true, false, not, ◌&&◌, ◌||◌, Bool-cases, inl,
  inr, Option, List, [], ◌∷◌, map, select, if◌then◌else◌,
}
use soltrace.Auth.Text.{Text, is_empty, strip}
use soltrace.Monitor.Patterns.{replace_with, like_of, like_lines, lines_of, like_patterns}

-- A text that begins with a character, and goes on as `k` says; and one that ends so.
unfoldable pub begins : ℕ → (Text → Bool) → Text → Bool
begins c k [] = false
begins c k (x ∷ xs) = x == c && k xs

unfoldable pub ends : (Text → Bool) → Text → Bool
ends k [] = k []
ends k (x ∷ xs) = k (x ∷ xs) || ends k xs

-- What the user means: a star stands for any text, every other character for itself.
unfoldable pub glob : Text → Text → Bool
glob [] s = is_empty s
glob (c ∷ pat) s = if c == 42 then ends (glob pat) s else begins c (glob pat) s

-- LIKE, as PostgreSQL documents it for patterns without an underscore that is not escaped.
pub record Like : Type 0 where
  pub matches : Text → Text → Bool
  pub matches_end : (s : Text) → matches [] s ≡ is_empty s
  pub matches_percent : (p s : Text) → matches (37 ∷ p) s ≡ ends (matches p) s
  pub matches_escape : (c : ℕ) (p s : Text) → matches (92 ∷ c ∷ p) s ≡ begins c (matches p) s
  pub matches_plain :
      (c : ℕ) (p s : Text)
      → (c == 92) ≡ false
      → (c == 37) ≡ false
      → (c == 95) ≡ false
      → matches (c ∷ p) s ≡ begins c (matches p) s

begins_cong :
    (c : ℕ) (k k' : Text → Bool) (s : Text)
    → ((t : Text) → k t ≡ k' t)
    → begins c k s ≡ begins c k' s
unfolding begins
begins_cong c k k' [] h = refl
begins_cong c k k' (x ∷ xs) h = ap (λ b. x == c && b) (h xs)

ends_cong : (k k' : Text → Bool) (s : Text) → ((t : Text) → k t ≡ k' t) → ends k s ≡ ends k' s
unfolding ends
ends_cong k k' [] h = h []
ends_cong k k' (x ∷ xs) h =
    ap (λ b. b || ends k xs) (h (x ∷ xs)) ∙ ap (λ b. k' (x ∷ xs) || b) (ends_cong k k' xs h)

-- how each character is written
like_of_backslash : (cs : Text) → like_of (92 ∷ cs) ≡ 92 ∷ 92 ∷ like_of cs
unfolding like_of replace_with
like_of_backslash cs = refl

like_of_percent : (cs : Text) → like_of (37 ∷ cs) ≡ 92 ∷ 37 ∷ like_of cs
unfolding like_of replace_with
like_of_percent cs = refl

like_of_underscore : (cs : Text) → like_of (95 ∷ cs) ≡ 92 ∷ 95 ∷ like_of cs
unfolding like_of replace_with
like_of_underscore cs = refl

like_of_star : (cs : Text) → like_of (42 ∷ cs) ≡ 37 ∷ like_of cs
unfolding like_of replace_with
like_of_star cs = refl

like_of_plain :
    (c : ℕ) (cs : Text)
    → (c == 92) ≡ false
    → (c == 37) ≡ false
    → (c == 95) ≡ false
    → (c == 42) ≡ false
    → like_of (c ∷ cs) ≡ c ∷ like_of cs
unfolding like_of replace_with
like_of_plain c cs a b d e = rw (a, b, d, e) refl

-- A character other than the star, read by LIKE as it is written.
escaped :
    (like : Like) (c : ℕ) (cs s : Text)
    → (c == 42) ≡ false
    → like.matches (like_of (c ∷ cs)) s ≡ begins c (like.matches (like_of cs)) s
escaped like c cs s no_star =
    let written : (d : ℕ)
        → (c == d) ≡ true
        → like_of (d ∷ cs) ≡ 92 ∷ d ∷ like_of cs
        → like.matches (like_of (c ∷ cs)) s ≡ begins c (like.matches (like_of cs)) s =
      λ d e w.
        ap (λ x. like.matches (like_of (x ∷ cs)) s) ((==_iff c d).0 e)
        ∙ ap (λ p. like.matches p s) w
        ∙ like.matches_escape d (like_of cs) s
        ∙ ap (λ x. begins x (like.matches (like_of cs)) s) (sym ((==_iff c d).0 e)) in
    elim (Bool-cases (c == 92)) [
      | inl e ↦ written 92 e (like_of_backslash cs)
      | inr a ↦ elim (Bool-cases (c == 37)) [
        | inl e ↦ written 37 e (like_of_percent cs)
        | inr b ↦ elim (Bool-cases (c == 95)) [
          | inl e ↦ written 95 e (like_of_underscore cs)
          | inr d ↦
              ap (λ p. like.matches p s) (like_of_plain c cs a b d no_star)
              ∙ like.matches_plain c (like_of cs) s a b d
        ]
      ]
    ]

like_of-glob : (like : Like) (pat s : Text) → like.matches (like_of pat) s ≡ glob pat s
unfolding glob
like_of-glob like [] s = (unfold like_of replace_with in like.matches_end s)
like_of-glob like (c ∷ cs) s =
    let rest : (t : Text) → like.matches (like_of cs) t ≡ glob cs t = λ t. like_of-glob like cs t in
    let literal : begins c (like.matches (like_of cs)) s ≡ begins c (glob cs) s =
      begins_cong c (like.matches (like_of cs)) (glob cs) s rest in
    elim (Bool-cases (c == 42)) [
      | inl e ↦ rw e (
          ap (λ x. like.matches (like_of (x ∷ cs)) s) ((==_iff c 42).0 e)
          ∙ ap (λ p. like.matches p s) (like_of_star cs)
          ∙ like.matches_percent (like_of cs) s
          ∙ ends_cong (like.matches (like_of cs)) (glob cs) s rest)
      | inr no_star ↦ rw no_star (escaped like c cs s no_star ∙ literal)
    ]

-- The texts that LIKE ANY finds with the stored patterns are those that a pattern means.
abbrev pub any_of : (Text → Text → Bool) → List Text → Text → Bool
any_of matches [] s = false
any_of matches (p ∷ ps) s = matches p s || any_of matches ps s

abbrev pub patterns_of : Option Text → List Text
patterns_of raw = select (λ p. not (is_empty p)) (map strip (lines_of raw))

like_lines-glob :
    (like : Like) (lines : List Text) (s : Text)
    → any_of like.matches (like_lines lines) s
      ≡ any_of glob (select (λ p. not (is_empty p)) (map strip lines)) s
unfolding like_lines
like_lines-glob like [] s = refl
like_lines-glob like (line ∷ rest) s = elim (Bool-cases (is_empty (strip line))) [
  | inl e ↦ rw e (like_lines-glob like rest s)
  | inr e ↦ rw e (
      ap (λ b. b || any_of like.matches (like_lines rest) s) (like_of-glob like (strip line) s)
      ∙ ap (λ b. glob (strip line) s || b) (like_lines-glob like rest s))
]

-- A text is found by LIKE with one of the patterns of _like_patterns exactly where it is what a
-- line of the settings means, in which a star stands for any text and every other character for
-- itself, if LIKE reads a percent sign, a backslash and a plain character as documented.
pub like_patterns-glob :
    (like : Like) (raw : Option Text) (s : Text)
    → any_of like.matches (like_patterns raw) s ≡ any_of glob (patterns_of raw) s
unfolding like_patterns
like_patterns-glob like raw s = like_lines-glob like (lines_of raw) s
