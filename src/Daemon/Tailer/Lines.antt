-- ===== src/Daemon/Tailer/Lines.antt =====
-- ftp-daemon/soltrace_daemon.py: what a reading of `FileTailer.poll` yields of a log that grows.
use soltrace.Base.{
  select-append, select, Bool, ◌≢◌, false, true, ◌⊎◌, ◌==◌, ◌++◌, if◌then◌else◌, refl, sym,
  Bool-cases, Option-cases, inl, inr, ◌+◌, zero, suc, ℕ, Option, some, none, List, [], ◌∷◌, ◌≡◌,
  length, length-append, append_assoc, arith, ap, ◌∙◌,
}
use soltrace.Daemon.Tailer.{Parser, split_line, keep, read_lines}

-- A line is a newline, or a byte before a line.
split_line-step :
    (c : ℕ) (cs l r : List ℕ)
    → split_line (c ∷ cs) ≡ some (l, r)
    → ((c == 10 ≡ true) × (l ≡ c ∷ []) × (r ≡ cs))
      ⊎ ((k : List ℕ) × (c == 10 ≡ false) × (split_line cs ≡ some (k, r)) × (l ≡ c ∷ k))
unfolding split_line
split_line-step c cs l r h = elim (Bool-cases (c == 10)) [
  | inl e ↦ inl (ground arith)
  | inr e ↦ elim (Option-cases (split_line cs)) [
    | inl n ↦ ground arith
    | inr (x, s) ↦ inr (x.0, e, ground arith, ground arith)
  ]
]

split_line-empty : (l r : List ℕ) → split_line [] ≢ some (l, r)
unfolding split_line
split_line-empty l r h = ground arith

-- The bytes of a line and of what follows it are those of the log.
split_line-bytes : (bytes l r : List ℕ) → split_line bytes ≡ some (l, r) → bytes ≡ l ++ r
split_line-bytes [] l r h = absurd (split_line-empty l r h)
split_line-bytes (c ∷ cs) l r h = elim (split_line-step c cs l r h) [
  | inl (e, hl, hr) ↦ rw (hl, hr)
  | inr (k, e, s, hl) ↦ rw (hl, split_line-bytes cs k r s)
]

module _ {ℓ} {E : Type ℓ} {S : Type 0} (parser : Parser E S) where
  -- The entries of the lines of a log that are complete, in one scan; `line` is the line so far.
  unfoldable pub scan : S → List ℕ → List ℕ → List E
  scan st line [] = []
  scan st line (c ∷ cs) =
      if c == 10
      then (let (entry, st') = parser st (line ++ c ∷ []) in keep parser entry (scan st' [] cs))
      else scan st (line ++ c ∷ []) cs

  split_line-scan :
      (st : S) (bytes more line : List ℕ) (l r : List ℕ)
      → split_line bytes ≡ some (l, r)
      → scan st line (bytes ++ more)
        ≡ keep parser (parser st (line ++ l)).0 (scan (parser st (line ++ l)).1 [] (r ++ more))
  unfolding scan
  split_line-scan st [] more line l r h = absurd (split_line-empty l r h)
  split_line-scan st (c ∷ cs) more line l r h = elim (split_line-step c cs l r h) [
    | inl (e, hl, hr) ↦ rw (e, hl, hr)
    | inr (k, e, s, hl) ↦
        rw (e, hl, split_line-scan st cs more (line ++ c ∷ []) k r s, append_assoc line (c ∷ []) k)
  ]

  -- What is read of a log up to a position is what a scan of any later state of the log has before
  -- what it has from there, with what the parser remembers there.
  abbrev pub IsRead : ℕ → List ℕ → List ℕ → S → List E × ℕ × S → Type ℓ
  IsRead pos rest more st (es, q, end) =
      (seen : List ℕ) × (left : List ℕ) × (rest ≡ seen ++ left)
      × (q ≡ pos + length seen)
      × (scan st [] (rest ++ more) ≡ es ++ scan end [] (left ++ more))

  keep-append : (o : Option E) (es fs : List E) → keep parser o es ++ fs ≡ keep parser o (es ++ fs)
  keep-append none es fs = refl
  keep-append (some e) es fs = refl

  pub read_lines-IsRead :
      (n pos : ℕ) (rest more : List ℕ) (st : S)
      → IsRead pos rest more st (read_lines parser n pos rest st)
  unfolding read_lines
  read_lines-IsRead zero pos rest more st = ([], rest, refl, omega arith, refl)
  read_lines-IsRead (suc n) pos rest more st = elim (Option-cases (split_line rest)) [
    | inl e ↦ rw (e, read_lines) ([], rest, refl, omega arith, refl)
    | inr ((l, r), e) ↦
        let (entry, st') = parser st l in
        let (es, q, end) = read_lines parser n (pos + length l) r st' in
        let (seen, left, hr, hq, hs) = read_lines-IsRead n (pos + length l) r more st' in
        rw (e, read_lines)
          (
            l ++ seen,
            left,
            (split_line-bytes rest l r e ∙ ap (λ x. l ++ x) hr ∙ sym (append_assoc l seen left)),
            omega (arith, hq, length-append l seen),
            rw (
              split_line-scan st rest more [] l r e,
              hs,
              keep-append entry es (scan end [] (left ++ more)),
            ),
          )
  ]

-- the parser without a memory
abbrev pub plain {ℓ} : {E : Type ℓ} → (List ℕ → Option E) → Parser E (Unit {0})
plain reads st line = (reads line, st)

-- the entries of a line
abbrev pub one_of {ℓ} : {E : Type ℓ} → Option E → List E
one_of none = []
one_of (some e) = e ∷ []

-- A parser that gives a line the same entry, of those that pass the test, whatever it remembers.
abbrev pub Agrees {ℓ} :
    {E : Type ℓ} {S : Type 0} → (E → Bool) → Parser E S → (List ℕ → Option E) → Type ℓ
Agrees p parser reads =
    (st : _) (line : List ℕ) → select p (one_of (parser st line).0) ≡ select p (one_of (reads line))

pub keep-select {ℓ} :
    {E : Type ℓ} {S : Type 0} (p : E → Bool) (parser : Parser E S) (o : Option E) (es : List E)
    → select p (keep parser o es) ≡ select p (one_of o) ++ select p es
keep-select p parser none es = refl
keep-select p parser (some e) es = select-append p (e ∷ []) es

pub scan-plain {ℓ} :
    {E : Type ℓ} {S : Type 0} (p : E → Bool) (parser : Parser E S) (reads : List ℕ → Option E)
    → Agrees p parser reads
    → (st : S) (line bytes : List ℕ)
    → select p (scan parser st line bytes) ≡ select p (scan (plain reads) tt line bytes)
unfolding scan
scan-plain p parser reads h st line [] = refl
scan-plain p parser reads h st line (c ∷ cs) = elim (Bool-cases (c == 10)) [
  | inl e ↦
      let whole = line ++ c ∷ [] in
      let rest = scan-plain p parser reads h (parser st whole).1 [] cs in
      rw e (
        keep-select p parser (parser st whole).0 (scan parser (parser st whole).1 [] cs)
        ∙ ap (λ l. l ++ select p (scan parser (parser st whole).1 [] cs)) (h st whole)
        ∙ ap (λ l. select p (one_of (reads whole)) ++ l) rest
        ∙ sym (keep-select p (plain reads) (reads whole) (scan (plain reads) tt [] cs)))
  | inr e ↦ rw e (scan-plain p parser reads h st (line ++ c ∷ []) cs)
]
