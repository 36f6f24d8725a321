-- ===== src/Auth/Text/Split.antt =====
-- was/app/security.py: parts of a text that are joined and split again.
use soltrace.Base.{
  ◌&&◌, Bool-cases, inl, inr, arith, All-map, ℕ, ◌≡◌, refl, Bool, true, false, not, List, [], ◌∷◌,
  ◌++◌, All, select, ap, ◌∙◌,
}
use soltrace.Auth.Text.{lstrip, rstrip, strip, Text, split_at, is_space, is_empty, words}

-- Splitting takes off a part without the separator.
pub split_at-part :
    (p : ℕ → Bool) (part rest : Text) (c : ℕ)
    → All (λ x. p x ≡ false) part
    → p c ≡ true
    → split_at p (part ++ c ∷ rest) ≡ part ∷ split_at p rest
unfolding split_at
split_at-part p [] rest c h e = rw e refl
split_at-part p (x ∷ part) rest c h e = rw (h.0, split_at-part p part rest c h.1 e) refl

pub split_at-last :
    (p : ℕ → Bool) (part : Text) → All (λ x. p x ≡ false) part → split_at p part ≡ part ∷ []
unfolding split_at
split_at-last p [] h = refl
split_at-last p (x ∷ part) h = rw (h.0, split_at-last p part h.1) refl

-- parts with a separator between them
abbrev pub join : ℕ → List Text → Text
join c [] = []
join c (part ∷ []) = part
join c (part ∷ next ∷ rest) = part ++ c ∷ join c (next ∷ rest)

abbrev pub IsWithout : (ℕ → Bool) → Text → Type 0
IsWithout p part = All (λ x. p x ≡ false) part

pub split_at-join :
    (p : ℕ → Bool) (c : ℕ) (part : Text) (parts : List Text)
    → p c ≡ true
    → All (IsWithout p) (part ∷ parts)
    → split_at p (join c (part ∷ parts)) ≡ part ∷ parts
split_at-join p c part [] e h = split_at-last p part h.0
split_at-join p c part (next ∷ rest) e h =
    split_at-part p part (join c (next ∷ rest)) c h.0 e
    ∙ ap (λ l. part ∷ l) (split_at-join p c next rest e h.1)

abbrev pub IsWord : Text → Type 0
IsWord s = (is_empty s ≡ false) × IsWithout is_space s

pub select_all :
    (parts : List Text)
    → All (λ s. is_empty s ≡ false) parts
    → select (λ s. not (is_empty s)) parts ≡ parts
select_all [] h = refl
select_all (x ∷ xs) h = rw (h.0, select_all xs h.1) refl

rstrip_cons : (c : ℕ) (s : Text) → is_empty s ≡ false → rstrip s ≡ s → rstrip (c ∷ s) ≡ c ∷ s
unfolding rstrip
rstrip_cons c [] n h = cc n
rstrip_cons c (d ∷ ds) n h = rw h refl

rstrip-word : (s : Text) → IsWithout is_space s → rstrip s ≡ s
unfolding rstrip
rstrip-word [] h = refl
rstrip-word (c ∷ []) h = rw h.0 refl
rstrip-word (c ∷ d ∷ ds) h = rstrip_cons c (d ∷ ds) refl (rstrip-word (d ∷ ds) h.1)

is_empty-append : (s t : Text) (c : ℕ) → is_empty (s ++ c ∷ t) ≡ false
is_empty-append [] t c = refl
is_empty-append (x ∷ xs) t c = refl

rstrip-append :
    (s t : Text) → is_empty t ≡ false → rstrip t ≡ t → rstrip (s ++ 32 ∷ t) ≡ s ++ 32 ∷ t
rstrip-append [] t n h = rstrip_cons 32 t n h
rstrip-append (c ∷ cs) t n h =
    rstrip_cons c (cs ++ 32 ∷ t) (is_empty-append cs t 32) (rstrip-append cs t n h)

pub is_empty-join :
    (part : Text) (parts : List Text) → IsWord part → is_empty (join 32 (part ∷ parts)) ≡ false
is_empty-join part [] h = h.0
is_empty-join part (next ∷ rest) h = is_empty-append part (join 32 (next ∷ rest)) 32

rstrip-join :
    (part : Text) (parts : List Text)
    → All IsWord (part ∷ parts)
    → rstrip (join 32 (part ∷ parts)) ≡ join 32 (part ∷ parts)
rstrip-join part [] h = rstrip-word part h.0.1
rstrip-join part (next ∷ rest) h =
    rstrip-append part (join 32 (next ∷ rest)) (is_empty-join next rest h.1.0)
      (rstrip-join next rest h.1)

lstrip-join :
    (part : Text) (parts : List Text)
    → IsWord part
    → lstrip (join 32 (part ∷ parts)) ≡ join 32 (part ∷ parts)
unfolding lstrip
lstrip-join [] parts h = cc h.0
lstrip-join (c ∷ cs) [] h = rw h.1.0 refl
lstrip-join (c ∷ cs) (next ∷ rest) h = rw h.1.0 refl

pub strip-join :
    (part : Text) (parts : List Text)
    → All IsWord (part ∷ parts)
    → strip (join 32 (part ∷ parts)) ≡ join 32 (part ∷ parts)
unfolding strip
strip-join part parts h = rw (lstrip-join part parts h.0) (rstrip-join part parts h)

-- Words that are joined by a space are the words of the text.
pub words-join :
    (part : Text) (parts : List Text)
    → All IsWord (part ∷ parts)
    → words (join 32 (part ∷ parts)) ≡ part ∷ parts
unfolding words is_space
words-join part parts h =
    rw (split_at-join is_space 32 part parts refl (All-map IsWord _ (part ∷ parts) (λ s w. w.1) h))
      (select_all (part ∷ parts) (All-map IsWord _ (part ∷ parts) (λ s w. w.0) h))

-- The same as a test.
abbrev pub is_without : (ℕ → Bool) → Text → Bool
is_without p [] = true
is_without p (c ∷ cs) = not (p c) && is_without p cs

abbrev pub are_words : List Text → Bool
are_words [] = true
are_words (s ∷ ss) = not (is_empty s) && is_without is_space s && are_words ss

pub is_without_sound : (p : ℕ → Bool) (s : Text) → is_without p s ≡ true → IsWithout p s
is_without_sound p [] h = tt
is_without_sound p (c ∷ cs) h = elim (Bool-cases (p c)) [
  | inl e ↦ cc (rw e at h)
  | inr e ↦ (e, is_without_sound p cs (rw e at h))
]

pub are_words_sound : (ss : List Text) → are_words ss ≡ true → All IsWord ss
are_words_sound [] h = tt
are_words_sound ([] ∷ ss) h = cc h
are_words_sound ((c ∷ cs) ∷ ss) h = elim (Bool-cases (is_without is_space (c ∷ cs))) [
  | inl e ↦ ((refl, is_without_sound is_space (c ∷ cs) e), are_words_sound ss (ground arith))
  | inr e ↦ cc (rw e at h)
]
