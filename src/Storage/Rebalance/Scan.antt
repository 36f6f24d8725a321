-- ===== src/Storage/Rebalance/Scan.antt =====
-- was/app/rebalance.py: `_statements`. The index of the loop is the text that is left; a turn of the
-- loop takes at least one character, so the length of the text is fuel enough.
use soltrace.Base.{
  ℕ, zero, suc, ◌==◌, leb, Bool, true, false, not, ◌&&◌, ◌||◌, Option, none, some, List, [], ◌∷◌,
  ◌++◌, length, drop, select, map, if◌then◌else◌,
}
use soltrace.Auth.Text.{Text, is_empty, strip}
use soltrace.Daemon.Extended.{starts}

-- `sql[i:j]` and what follows, for the `j` of a comment: the next newline or the end
unfoldable pub to_newline : Text → Text × Text
to_newline [] = ([], [])
to_newline (c ∷ cs) =
    let (taken, rest) = to_newline cs in if c == 10 then ([], c ∷ cs) else (c ∷ taken, rest)

-- A string after its quote, up to a quote that is not doubled; the flag is that the last character
-- was a quote that may be the last.
unfoldable pub to_quote : Bool → Text → Text × Text
to_quote closing [] = ([], [])
to_quote closing (c ∷ cs) =
    let (taken, rest) = to_quote (not closing && c == 39) cs in
    if closing && not (c == 39) then ([], c ∷ cs) else (c ∷ taken, rest)

abbrev pub is_tag_letter : ℕ → Bool
is_tag_letter c = leb 65 c && leb c 90 || leb 97 c && leb c 122 || c == 95

abbrev pub and_letter : ℕ → Option Text → Option Text
and_letter c none = none
and_letter c (some tag) = some (c ∷ tag)

-- the match of `[A-Za-z_]*\$`
unfoldable pub tag_end : Text → Option Text
tag_end [] = none
tag_end (c ∷ cs) =
    let more = tag_end cs in
    if c == 36 then some (36 ∷ []) else if is_tag_letter c then and_letter c more else none

-- up to the end of the next `tag`, or of the text
unfoldable pub to_tag : Text → Text → Text × Text
to_tag tag [] = ([], [])
to_tag tag (c ∷ cs) =
    let (taken, rest) = to_tag tag cs in
    if starts tag (c ∷ cs) then (tag, drop (length tag) (c ∷ cs)) else (c ∷ taken, rest)

abbrev pub prepend : Text → Text × Text → Bool × Text × Text
prepend head (taken, rest) = (false, head ++ taken, rest)

-- a dollar sign that begins no tag is a character like another
abbrev pub dollar : ℕ → Text → Option Text → Bool × Text × Text
dollar c cs none = (false, c ∷ [], cs)
dollar c cs (some tag) = prepend (c ∷ tag) (to_tag (c ∷ tag) (drop (length tag) cs))

-- One turn of the loop: whether it is a cut, what goes to `buf`, and what is left.
unfoldable pub next_token : ℕ → Text → Bool × Text × Text
next_token c cs =
    if starts (45 ∷ 45 ∷ []) (c ∷ cs)
    then prepend [] (to_newline (c ∷ cs))
    else if c == 39
    then prepend (c ∷ []) (to_quote false cs)
    else if c == 36
    then dollar c cs (tag_end cs)
    else if c == 59
    then (true, [], cs)
    else (false, c ∷ [], cs)

unfoldable pub scan : ℕ → Text → Text → List Text
scan n [] buf = buf ∷ []
scan zero (c ∷ cs) buf = buf ∷ []
scan (suc n) (c ∷ cs) buf =
    let (cut, taken, rest) = next_token c cs in
    let more = scan n rest (if cut then [] else buf ++ taken) in if cut then buf ∷ more else more

-- `out` after the loop
unfoldable pub pieces : Text → List Text
pieces sql = scan (length sql) sql []

-- `re.sub(r"--[^\n]*", "", t)`; the flag is that a comment is open
unfoldable pub uncomment : Bool → Text → Text
uncomment open_now [] = []
uncomment open_now (c ∷ cs) =
    let inside = if open_now then not (c == 10) else starts (45 ∷ 45 ∷ []) (c ∷ cs) in
    let rest = uncomment inside cs in if inside then rest else c ∷ rest

unfoldable pub statements : Text → List Text
statements sql = select (λ t. not (is_empty (strip (uncomment false t)))) (map strip (pieces sql))
