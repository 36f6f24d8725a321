-- ===== src/Storage/Rebalance/Script.antt =====
-- was/app/rebalance.py: the pieces that the scan of a script makes.
use mathlib.Core.Path.{ap₂}
use soltrace.Base.{
  some-injective, ==_iff, subst, ℕ, zero, suc, ◌+◌, ◌≤◌, ◌<◌, ◌==◌, ◌≡◌, refl, ◌∙◌, sym, ap, Bool,
  true, false, not, ◌&&◌, Bool-cases, Option, none, some, inl, inr, List, [], ◌∷◌, ◌++◌, length,
  drop, append-nil, append_assoc, length-append, arith,
}
use soltrace.Auth.Text.{Text}
use soltrace.Auth.Text.Split.{join}
use soltrace.Daemon.Extended.{starts}
use soltrace.Storage.Rebalance.Scan.{
  to_newline, to_quote, tag_end, to_tag, prepend, dollar, is_tag_letter, and_letter, next_token,
  scan, pieces,
}

-- A pair of texts that make up `s`.
abbrev Halves : Text → Text × Text → Type 0
Halves s r = r.0 ++ r.1 ≡ s

to_newline-Halves : (s : Text) → Halves s (to_newline s)
unfolding to_newline
to_newline-Halves [] = refl
to_newline-Halves (c ∷ cs) = elim (Bool-cases (c == 10)) [
  | inl e ↦ rw e refl
  | inr e ↦ rw e (ap (λ l. c ∷ l) (to_newline-Halves cs))
]

to_quote-Halves : (closing : Bool) (s : Text) → Halves s (to_quote closing s)
unfolding to_quote
to_quote-Halves closing [] = refl
to_quote-Halves closing (c ∷ cs) = elim (Bool-cases (closing && not (c == 39))) [
  | inl e ↦ rw e refl
  | inr e ↦ rw e (ap (λ l. c ∷ l) (to_quote-Halves (not closing && c == 39) cs))
]

starts-drop : (p s : Text) → starts p s ≡ true → p ++ drop (length p) s ≡ s
unfolding starts
starts-drop [] s h = refl
starts-drop (x ∷ xs) [] h = cc h
starts-drop (x ∷ xs) (c ∷ cs) h = elim (Bool-cases (x == c)) [
  | inl e ↦ ap₂ ◌∷◌ ((==_iff x c).0 e) (starts-drop xs cs (rw e at h))
  | inr e ↦ cc (rw e at h)
]

to_tag-Halves : (tag s : Text) → Halves s (to_tag tag s)
unfolding to_tag
to_tag-Halves tag [] = refl
to_tag-Halves tag (c ∷ cs) = elim (Bool-cases (starts tag (c ∷ cs))) [
  | inl e ↦ rw e (starts-drop tag (c ∷ cs) e)
  | inr e ↦ rw e (ap (λ l. c ∷ l) (to_tag-Halves tag cs))
]

-- The text begins with `tag`.
abbrev Begins : Text → Text → Type 0
Begins s tag = tag ++ drop (length tag) s ≡ s

and_letter-Begins :
    (c : ℕ) (cs : Text) (o : Option Text) (tag : Text)
    → ((t : Text) → o ≡ some t → Begins cs t)
    → and_letter c o ≡ some tag
    → Begins (c ∷ cs) tag
and_letter-Begins c cs none tag f h = cc h
and_letter-Begins c cs (some t) tag f h =
    subst (Begins (c ∷ cs)) (some-injective (c ∷ t) tag h) (ap (λ l. c ∷ l) (f t refl))

tag_end-Begins : (s tag : Text) → tag_end s ≡ some tag → Begins s tag
unfolding tag_end
tag_end-Begins [] tag h = cc h
tag_end-Begins (c ∷ cs) tag h = elim (Bool-cases (c == 36)) [
  | inl e ↦
      subst (Begins (c ∷ cs)) (some-injective (36 ∷ []) tag (rw e at h))
        (ap (λ x. x ∷ cs) (sym ((==_iff c 36).0 e)))
  | inr e ↦ elim (Bool-cases (is_tag_letter c)) [
    | inl l ↦ and_letter-Begins c cs (tag_end cs) tag (tag_end-Begins cs) (rw (e, l) at h)
    | inr l ↦ cc (rw (e, l) at h)
  ]
]

-- What a turn takes and leaves is what there was; it leaves less; a cut takes a semicolon.
pub record IsTurn (c : ℕ) (cs : Text) (t : Bool × Text × Text) : Type 0 where
  pub whole : t.0 ≡ false → t.1 ++ t.2 ≡ c ∷ cs
  pub shorter : length t.2 ≤ length cs
  pub at_semicolon : t.0 ≡ true → (c ≡ 59) × (t.2 ≡ cs)

length-Halves : (s : Text) (r : Text × Text) → Halves s r → length r.1 ≤ length s
length-Halves s r h = omega (arith, length-append r.0 r.1, ap length h)

prepend-IsTurn :
    (c : ℕ) (cs head s : Text) (r : Text × Text)
    → head ++ s ≡ c ∷ cs
    → Halves s r
    → 0 < length head + length r.0
    → IsTurn c cs (prepend head r)
prepend-IsTurn c cs head s (taken, rest) e h n = record {
  whole = λ _. append_assoc head taken rest ∙ ap (λ l. head ++ l) h ∙ e;
  shorter = omega (arith, length-append head s, length-append taken rest, ap length h, ap length e);
  at_semicolon = λ k. cc k;
}

not_newline : (c : ℕ) (cs : Text) → (c == 10) ≡ false → 0 < length (to_newline (c ∷ cs)).0
unfolding to_newline
not_newline c cs h = rw h (omega arith)

dashes : (c : ℕ) (cs : Text) → starts (45 ∷ 45 ∷ []) (c ∷ cs) ≡ true → (c == 10) ≡ false
unfolding starts
dashes c cs h = elim (Bool-cases (45 == c)) [ inl e ↦ ground arith | inr e ↦ cc (rw e at h) ]

one-IsTurn : (c : ℕ) (cs : Text) → IsTurn c cs (false, c ∷ [], cs)
one-IsTurn c cs = record { whole = λ _. refl; shorter = omega arith; at_semicolon = λ k. cc k }

dollar-IsTurn :
    (c : ℕ) (cs : Text) (o : Option Text)
    → ((tag : Text) → o ≡ some tag → Begins cs tag)
    → IsTurn c cs (dollar c cs o)
dollar-IsTurn c cs none b = one-IsTurn c cs
dollar-IsTurn c cs (some tag) b =
    prepend-IsTurn c cs (c ∷ tag) (drop (length tag) cs) (to_tag (c ∷ tag) (drop (length tag) cs))
      (ap (λ l. c ∷ l) (b tag refl)) (to_tag-Halves (c ∷ tag) (drop (length tag) cs)) (omega arith)

next_token-IsTurn : (c : ℕ) (cs : Text) → IsTurn c cs (next_token c cs)
unfolding next_token
next_token-IsTurn c cs = elim (Bool-cases (starts (45 ∷ 45 ∷ []) (c ∷ cs))) [
  | inl e ↦ rw e (
      prepend-IsTurn c cs [] (c ∷ cs) (to_newline (c ∷ cs)) refl (to_newline-Halves (c ∷ cs))
        (let p = not_newline c cs (dashes c cs e) in omega arith))
  | inr e ↦ elim (Bool-cases (c == 39)) [
    | inl q ↦
        rw (e, q)
          (prepend-IsTurn c cs (c ∷ []) cs (to_quote false cs) refl (to_quote-Halves false cs)
            (omega arith))
    | inr q ↦ elim (Bool-cases (c == 36)) [
      | inl d ↦ rw (e, q, d) (dollar-IsTurn c cs (tag_end cs) (tag_end-Begins cs))
      | inr d ↦ elim (Bool-cases (c == 59)) [
        | inl k ↦
            rw (e, q, d, k)
              (record {
                whole = λ f. cc f;
                shorter = omega arith;
                at_semicolon = λ _. ((==_iff c 59).0 k, refl);
              })
        | inr k ↦ rw (e, q, d, k) (one-IsTurn c cs)
      ]
    ]
  ]
]

join_cons : (p : Text) (ps : List Text) → 0 < length ps → join 59 (p ∷ ps) ≡ p ++ 59 ∷ join 59 ps
join_cons p [] h = absurd (ground arith)
join_cons p (q ∷ qs) h = refl

scan_some : (n : ℕ) (s buf : Text) → 0 < length (scan n s buf)
unfolding scan
scan_some n [] buf = omega arith
scan_some zero (c ∷ cs) buf = omega arith
scan_some (suc n) (c ∷ cs) buf = elim (Bool-cases (next_token c cs).0) [
  | inl e ↦ rw e (omega arith)
  | inr e ↦ rw e (scan_some n (next_token c cs).2 (buf ++ (next_token c cs).1))
]

scan-join : (n : ℕ) (s buf : Text) → length s ≤ n → join 59 (scan n s buf) ≡ buf ++ s
unfolding scan
scan-join n [] buf h = sym (append-nil buf)
scan-join zero (c ∷ cs) buf h = absurd (ground arith)
scan-join (suc n) (c ∷ cs) buf h =
    let t = next_token-IsTurn c cs in
    elim (Bool-cases (next_token c cs).0) [
      | inl e ↦
          let (k, r) = t.at_semicolon e in
          rw e (
            join_cons buf (scan n (next_token c cs).2 []) (scan_some n _ [])
            ∙ ap (λ l. buf ++ 59 ∷ l)
                (scan-join n (next_token c cs).2 [] (omega (arith, t.shorter)) ∙ r)
            ∙ ap (λ x. buf ++ x ∷ cs) (sym k))
      | inr e ↦ rw e (
          scan-join n (next_token c cs).2 (buf ++ (next_token c cs).1) (omega (arith, t.shorter))
          ∙ append_assoc buf (next_token c cs).1 (next_token c cs).2
          ∙ ap (λ l. buf ++ l) (t.whole e))
    ]

-- The pieces with a semicolon between them are the script again.
pub pieces-join : (sql : Text) → join 59 (pieces sql) ≡ sql
unfolding pieces
pieces-join sql = scan-join (length sql) sql [] (omega arith)
