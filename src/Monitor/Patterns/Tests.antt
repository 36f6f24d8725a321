-- ===== src/Monitor/Patterns/Tests.antt =====
-- was/app/service_monitor.py: LIKE by recursion on the pattern, and patterns of the settings.
use soltrace.Base.{ℕ, ◌==◌, ◌≡◌, refl, Bool, true, false, Option, some, [], ◌∷◌, if◌then◌else◌}
use soltrace.Auth.Text.{Text, is_empty, codes}
use soltrace.Monitor.Patterns.{like_of, like_patterns}
use soltrace.Monitor.Patterns.Like.{
  Like, begins, ends, glob, any_of, patterns_of, like_patterns-glob,
}

abbrev any_char : (Text → Bool) → Text → Bool
any_char k [] = false
any_char k (x ∷ xs) = k xs

-- the flag is that a backslash came before
unfoldable like : Bool → Text → Text → Bool
like true [] s = false
like false [] s = is_empty s
like true (c ∷ p) s = begins c (like false p) s
like false (c ∷ p) s =
    if c == 92
    then like true p s
    else if c == 37
    then ends (like false p) s
    else if c == 95
    then any_char (like false p) s
    else begins c (like false p) s

like_plain :
    (c : ℕ) (p s : Text)
    → (c == 92) ≡ false
    → (c == 37) ≡ false
    → (c == 95) ≡ false
    → like false (c ∷ p) s ≡ begins c (like false p) s
unfolding like
like_plain c p s a b d = rw (a, b, d) refl

abbrev like_by_recursion : Like
unfolding like
like_by_recursion = record {
  matches = like false;
  matches_end = λ s. refl;
  matches_percent = λ p s. refl;
  matches_escape = λ c p s. refl;
  matches_plain = like_plain;
}

abbrev ignored : Option Text
ignored = some (codes "/tmp/*\n a_b%")

-- a star becomes a percent sign, the others are escaped
like_of_test : like_of (codes "a_b*") ≡ codes "a\\_b%"
unfolding like_of soltrace.Monitor.Patterns.replace_with
like_of_test = refl

like_patterns-glob_example :
    any_of like_by_recursion.matches (like_patterns ignored) (codes "/tmp/x")
    ≡ any_of glob (patterns_of ignored) (codes "/tmp/x")
like_patterns-glob_example = like_patterns-glob like_by_recursion ignored (codes "/tmp/x")
