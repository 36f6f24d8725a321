-- ===== src/Storage/Rebalance/Grammar.antt =====
-- was/app/rebalance.py: the scan of a script against the grammar of what it scans, where only a
-- semicolon between tokens ends a statement.
use soltrace.Base.{
  ◌<◌, subst, ==_iff, ℕ, zero, suc, ◌≤◌, ◌==◌, ◌≡◌, refl, ◌∙◌, sym, ap, Bool, true, false,
  Bool-cases, some, inl, inr, List, [], ◌∷◌, ◌++◌, length, drop, drop-length, append-nil,
  append_assoc, length-append, All, if◌then◌else◌, arith,
}
use soltrace.Auth.Text.{Text}
use soltrace.Daemon.Extended.{starts}
use soltrace.Storage.Rebalance.Scan.{
  to_newline, to_quote, tag_end, to_tag, prepend, dollar, is_tag_letter, next_token, scan, pieces,
}

-- A character outside everything else, a comment, a string whose quotes are doubled, a text between
-- two equal tags, and the end of a statement.
pub data Token : Type 0 where
  plain : ℕ → Token
  comment quoted : Text → Token
  tagged : (name body : Text) → Token
  semicolon : Token

abbrev pub doubled : Text → Text
doubled [] = []
doubled (c ∷ cs) = if c == 39 then 39 ∷ 39 ∷ doubled cs else c ∷ doubled cs

abbrev pub tag_of : Text → Text
tag_of name = 36 ∷ (name ++ 36 ∷ [])

abbrev pub print : Token → Text
print (plain c) = c ∷ []
print (comment body) = 45 ∷ 45 ∷ body
print (quoted body) = 39 ∷ (doubled body ++ 39 ∷ [])
print (tagged name body) = tag_of name ++ (body ++ tag_of name)
print semicolon = 59 ∷ []

abbrev pub print_all : List Token → Text
print_all [] = []
print_all (t ∷ ts) = print t ++ print_all ts

abbrev pub begins_with : ℕ → Text → Bool
begins_with x [] = false
begins_with x (c ∷ cs) = c == x

abbrev pub is_end : Text → Bool
is_end [] = true
is_end (c ∷ cs) = c == 10

-- that a token is one where `rest` follows
abbrev pub Fits : Token → Text → Type 0
Fits (plain c) rest =
    ((c == 39) ≡ false)
    × ((c == 36) ≡ false)
    × ((c == 59) ≡ false)
    × (starts (45 ∷ 45 ∷ []) (c ∷ rest) ≡ false)
Fits (comment body) rest = All (λ c. (c == 10) ≡ false) body × (is_end rest ≡ true)
Fits (quoted body) rest = begins_with 39 rest ≡ false
Fits (tagged name body) rest =
    All (λ c. is_tag_letter c ≡ true) name × All (λ c. (c == 36) ≡ false) body
Fits semicolon rest = Unit

abbrev pub IsScript : List Token → Type 0
IsScript [] = Unit
IsScript (t ∷ ts) = Fits t (print_all ts) × IsScript ts

abbrev pub put_before : Text → List Text → List Text
put_before s [] = s ∷ []
put_before s (p ∷ ps) = (s ++ p) ∷ ps

-- the text between the semicolons of a script
abbrev pub cut : List Token → List Text
cut [] = [] ∷ []
cut (semicolon ∷ ts) = [] ∷ cut ts
cut (plain c ∷ ts) = put_before (print (plain c)) (cut ts)
cut (comment body ∷ ts) = put_before (print (comment body)) (cut ts)
cut (quoted body ∷ ts) = put_before (print (quoted body)) (cut ts)
cut (tagged name body ∷ ts) = put_before (print (tagged name body)) (cut ts)

to_newline-end : (rest : Text) → is_end rest ≡ true → to_newline rest ≡ ([], rest)
unfolding to_newline
to_newline-end [] h = refl
to_newline-end (c ∷ cs) h = rw h refl

to_newline-body :
    (body rest : Text)
    → All (λ c. (c == 10) ≡ false) body
    → is_end rest ≡ true
    → to_newline (body ++ rest) ≡ (body, rest)
unfolding to_newline
to_newline-body [] rest h e = to_newline-end rest e
to_newline-body (c ∷ cs) rest h e = rw (h.0, to_newline-body cs rest h.1 e) refl

to_quote-end : (rest : Text) → begins_with 39 rest ≡ false → to_quote true rest ≡ ([], rest)
unfolding to_quote
to_quote-end [] h = refl
to_quote-end (c ∷ cs) h = rw h refl

to_quote_other :
    (c : ℕ) (s : Text)
    → (c == 39) ≡ false
    → to_quote false (c ∷ s) ≡ (c ∷ (to_quote false s).0, (to_quote false s).1)
unfolding to_quote
to_quote_other c s h = rw h refl

doubled_quote : (c : ℕ) (cs : Text) → (c == 39) ≡ true → doubled (c ∷ cs) ≡ 39 ∷ 39 ∷ doubled cs
doubled_quote c cs h = rw h refl

doubled_other : (c : ℕ) (cs : Text) → (c == 39) ≡ false → doubled (c ∷ cs) ≡ c ∷ doubled cs
doubled_other c cs h = rw h refl

to_quote-body :
    (body rest : Text)
    → begins_with 39 rest ≡ false
    → to_quote false (doubled body ++ 39 ∷ rest) ≡ (doubled body ++ 39 ∷ [], rest)
unfolding to_quote
to_quote-body [] rest h = rw (to_quote-end rest h) refl
to_quote-body (c ∷ cs) rest h = elim (Bool-cases (c == 39)) [
  | inl e ↦
      subst (λ d. to_quote false (d ++ 39 ∷ rest) ≡ (d ++ 39 ∷ [], rest))
        (sym (doubled_quote c cs e)) (ap (λ r. (39 ∷ 39 ∷ r.0, r.1)) (to_quote-body cs rest h))
  | inr e ↦
      subst (λ d. to_quote false (d ++ 39 ∷ rest) ≡ (d ++ 39 ∷ [], rest))
        (sym (doubled_other c cs e))
        (to_quote_other c (doubled cs ++ 39 ∷ rest) e
          ∙ ap (λ r. (c ∷ r.0, r.1)) (to_quote-body cs rest h))
]

letter_no_dollar : (c : ℕ) → is_tag_letter c ≡ true → (c == 36) ≡ false
letter_no_dollar c h = ground arith

tag_end-name :
    (name rest : Text)
    → All (λ c. is_tag_letter c ≡ true) name
    → tag_end (name ++ 36 ∷ rest) ≡ some (name ++ 36 ∷ [])
unfolding tag_end
tag_end-name [] rest h = refl
tag_end-name (c ∷ cs) rest h = rw (letter_no_dollar c h.0, h.0, tag_end-name cs rest h.1) refl

starts-append : (p s : Text) → starts p (p ++ s) ≡ true
unfolding starts
starts-append [] s = refl
starts-append (c ∷ cs) s = rw ((==_iff c c).1 refl) (starts-append cs s)

to_tag-found : (tag s : Text) (c : ℕ) → to_tag (c ∷ tag) (c ∷ tag ++ s) ≡ (c ∷ tag, s)
unfolding to_tag
to_tag-found tag s c = rw (starts-append (c ∷ tag) s) (ap (λ r. (c ∷ tag, r)) (drop-length tag s))

flip_36 : (c : ℕ) → (c == 36) ≡ false → (36 == c) ≡ false
flip_36 c h = ground arith

to_tag-body :
    (tag body s : Text)
    → All (λ c. (c == 36) ≡ false) body
    → to_tag (36 ∷ tag) (body ++ (36 ∷ tag) ++ s) ≡ (body ++ 36 ∷ tag, s)
unfolding to_tag starts
to_tag-body tag [] s h = to_tag-found tag s 36
to_tag-body tag (c ∷ cs) s h =
    rw (flip_36 c h.0) (ap (λ r. (c ∷ r.0, r.1)) (to_tag-body tag cs s h.1))

-- One turn of the loop takes one token.
plain-taken :
    (c : ℕ) (rest : Text) → Fits (plain c) rest → next_token c rest ≡ (false, c ∷ [], rest)
unfolding next_token
plain-taken c rest (q, d, k, m) = rw (m, q, d, k) refl

comment-taken :
    (body rest : Text)
    → Fits (comment body) rest
    → next_token 45 (45 ∷ (body ++ rest)) ≡ (false, print (comment body), rest)
unfolding next_token starts to_newline
comment-taken body rest (h, e) =
    ap (λ r. (false, 45 ∷ 45 ∷ r.0, r.1)) (to_newline-body body rest h e)

quoted-taken :
    (body rest : Text)
    → Fits (quoted body) rest
    → next_token 39 (doubled body ++ 39 ∷ rest) ≡ (false, print (quoted body), rest)
unfolding next_token starts
quoted-taken body rest h = ap (λ r. (false, 39 ∷ r.0, r.1)) (to_quote-body body rest h)

tagged-taken :
    (name body rest : Text)
    → Fits (tagged name body) rest
    → next_token 36 (name ++ 36 ∷ (body ++ tag_of name ++ rest))
      ≡ (false, print (tagged name body), rest)
unfolding next_token starts
tagged-taken name body rest (h, b) =
    let more = body ++ tag_of name ++ rest in
    let shut = name ++ 36 ∷ [] in
    ap (λ o. dollar 36 (name ++ 36 ∷ more) o) (tag_end-name name more h)
    ∙ ap (λ l. prepend (36 ∷ shut) (to_tag (36 ∷ shut) l))
        (ap (λ l. drop (length shut) l) (sym (append_assoc name (36 ∷ []) more))
          ∙ drop-length shut more)
    ∙ ap (prepend (36 ∷ shut)) (to_tag-body shut body rest b)

put_before-append :
    (s t : Text) (ps : List Text) → put_before (s ++ t) ps ≡ put_before s (put_before t ps)
put_before-append s t [] = refl
put_before-append s t (p ∷ ps) = ap (λ l. l ∷ ps) (append_assoc s t p)

-- a turn that takes `taken`
scan_taken :
    (n c : ℕ) (cs taken rest buf : Text)
    → next_token c cs ≡ (false, taken, rest)
    → scan (suc n) (c ∷ cs) buf ≡ scan n rest (buf ++ taken)
unfolding scan
scan_taken n c cs taken rest buf h = rw h refl

-- where the turn takes a token and the rest is as it should be
scan_token :
    (n c : ℕ) (cs taken rest s buf : Text) (ps : List Text)
    → s ≡ c ∷ cs
    → next_token c cs ≡ (false, taken, rest)
    → taken ++ rest ≡ s
    → length s ≤ n
    → 0 < length taken
    → ((m : ℕ) → length rest ≤ m → scan m rest (buf ++ taken) ≡ put_before (buf ++ taken) ps)
    → scan n s buf ≡ put_before buf (put_before taken ps)
scan_token zero c cs taken rest s buf ps e t w l p go = absurd (ground (arith, ap length e))
scan_token (suc n) c cs taken rest s buf ps e t w l p go =
    ap (λ x. scan (suc n) x buf) e
    ∙ scan_taken n c cs taken rest buf t
    ∙ go n (omega (arith, ap length w, length-append taken rest))
    ∙ put_before-append buf taken ps

put_before-empty : (ps : List Text) → 0 < length ps → put_before [] ps ≡ ps
put_before-empty [] h = absurd (ground arith)
put_before-empty (p ∷ ps) h = refl

length-put_before : (s : Text) (ps : List Text) → 0 < length (put_before s ps)
length-put_before s [] = omega arith
length-put_before s (p ∷ ps) = omega arith

cut_some : (ts : List Token) → 0 < length (cut ts)
cut_some [] = omega arith
cut_some (semicolon ∷ ts) = omega arith
cut_some (plain c ∷ ts) = length-put_before _ (cut ts)
cut_some (comment body ∷ ts) = length-put_before _ (cut ts)
cut_some (quoted body ∷ ts) = length-put_before _ (cut ts)
cut_some (tagged name body ∷ ts) = length-put_before _ (cut ts)

scan-semicolon :
    (n : ℕ) (rest buf : Text) (ps : List Text)
    → suc (length rest) ≤ n
    → ((m : ℕ) → length rest ≤ m → scan m rest [] ≡ ps)
    → scan n (59 ∷ rest) buf ≡ buf ∷ ps
unfolding scan next_token starts
scan-semicolon zero rest buf ps l go = absurd (ground arith)
scan-semicolon (suc n) rest buf ps l go = ap (λ qs. buf ∷ qs) (go n (omega arith))

-- the scan of a script, with what `buf` holds before it
scan-print_all :
    (ts : List Token) (n : ℕ) (buf : Text)
    → IsScript ts
    → length (print_all ts) ≤ n
    → scan n (print_all ts) buf ≡ put_before buf (cut ts)
unfolding scan
scan-print_all [] n buf h l = ap (λ x. x ∷ []) (sym (append-nil buf))
scan-print_all (plain c ∷ ts) n buf h l =
    scan_token n c (print_all ts) (c ∷ []) (print_all ts) _ buf (cut ts) refl
      (plain-taken c (print_all ts) h.0) refl l (omega arith) (λ m k. scan-print_all ts m _ h.1 k)
scan-print_all (comment body ∷ ts) n buf h l =
    scan_token n 45 _ (print (comment body)) (print_all ts) _ buf (cut ts) refl
      (comment-taken body (print_all ts) h.0) refl l (omega arith)
      (λ m k. scan-print_all ts m _ h.1 k)
scan-print_all (quoted body ∷ ts) n buf h l =
    scan_token n 39 _ (print (quoted body)) (print_all ts) _ buf (cut ts)
      (ap (λ x. 39 ∷ x) (append_assoc (doubled body) (39 ∷ []) (print_all ts)))
      (quoted-taken body (print_all ts) h.0) refl l (omega arith)
      (λ m k. scan-print_all ts m _ h.1 k)
scan-print_all (tagged name body ∷ ts) n buf h l =
    let rest = print_all ts in
    scan_token n 36 _ (print (tagged name body)) rest _ buf (cut ts)
      (ap (λ x. 36 ∷ x)
        (append_assoc (name ++ 36 ∷ []) (body ++ tag_of name) rest
          ∙ append_assoc name (36 ∷ []) (body ++ tag_of name ++ rest)))
      (tagged-taken name body rest h.0) refl l (omega arith) (λ m k. scan-print_all ts m _ h.1 k)
scan-print_all (semicolon ∷ ts) n buf h l =
    scan-semicolon n (print_all ts) buf (cut ts) l
      (λ m k. scan-print_all ts m [] h.1 k ∙ put_before-empty (cut ts) (cut_some ts))
    ∙ ap (λ x. x ∷ cut ts) (sym (append-nil buf))

-- The pieces that the scan makes of a script are the texts between its semicolons, where a
-- semicolon in a comment, in a string with doubled quotes, or between two equal dollar tags is
-- none; each token is one where the next follows, a tag has letters only, and what it quotes has
-- no dollar sign.
pub pieces-print_all : (ts : List Token) → IsScript ts → pieces (print_all ts) ≡ cut ts
unfolding pieces
pieces-print_all ts h =
    scan-print_all ts (length (print_all ts)) [] h (omega arith)
    ∙ put_before-empty (cut ts) (cut_some ts)
