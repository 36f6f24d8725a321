-- ===== src/Daemon/Sender/Tallies.antt =====
-- ftp-daemon/soltrace_daemon.py: counts of what the logs behind a list of tailers have unsent.
use soltrace.Base.{
  drop, ℕ, ◌+◌, ◌≡◌, refl, ap, sym, ◌∙◌, Bool, true, false, not, ◌&&◌, String, Option, none, some,
  List, [], ◌∷◌, ◌++◌, map, select, select-append, count, count-append, All, Bool-cases, inl, inr,
  arith,
}
use soltrace.Daemon.Tailer.{
  Parser, Tailer, FileView, poll, commit, advance, rollback, settle, is_rotated,
}
use soltrace.Daemon.Tailer.Lines.{Agrees, plain, scan-plain}
use soltrace.Daemon.Tailer.Follow.{unread, next_of, next_pos, IsIdle, poll-unread}
use soltrace.Daemon.Sender.{Daemon, SenderConfig, poll_all, keep_wanted}

select_all {ℓ} : {E : Type ℓ} (es : List E) → select (λ e. true) es ≡ es
select_all [] = refl
select_all (e ∷ es) = ap (λ x. e ∷ x) (select_all es)

select_yes {ℓ} :
    {E : Type ℓ} (p : E → Bool) (e : E) (es : List E)
    → p e ≡ true
    → select p (e ∷ es) ≡ e ∷ select p es
select_yes p e es h = rw h refl

select_no {ℓ} :
    {E : Type ℓ} (p : E → Bool) (e : E) (es : List E)
    → p e ≡ false
    → select p (e ∷ es) ≡ select p es
select_no p e es h = rw h refl

select-select {ℓ} :
    {E : Type ℓ} (q p : E → Bool) (es : List E)
    → select q (select p es) ≡ select (λ e. q e && p e) es
select-select q p [] = refl
select-select q p (e ∷ es) = elim (Bool-cases (p e)) [
  | inl h ↦ elim (Bool-cases (q e)) [
    | inl k ↦ rw (h, k) (ap (λ l. e ∷ l) (select-select q p es))
    | inr k ↦ rw (h, k) (select-select q p es)
  ]
  | inr h ↦ elim (Bool-cases (q e)) [
    | inl k ↦ rw (h, k) (select-select q p es)
    | inr k ↦ rw (h, k) (select-select q p es)
  ]
]

select_swap {ℓ} :
    {E : Type ℓ} (q p : E → Bool) (es : List E) → select p (select q es) ≡ select q (select p es)
select_swap q p [] = refl
select_swap q p (e ∷ es) = elim (Bool-cases (p e)) [
  | inl h ↦ elim (Bool-cases (q e)) [
    | inl k ↦
        ap (select p) (select_yes q e es k)
        ∙ select_yes p e (select q es) h
        ∙ ap (λ l. e ∷ l) (select_swap q p es)
        ∙ sym (ap (select q) (select_yes p e es h) ∙ select_yes q e (select p es) k)
    | inr k ↦
        ap (select p) (select_no q e es k)
        ∙ select_swap q p es
        ∙ sym (ap (select q) (select_yes p e es h) ∙ select_no q e (select p es) k)
  ]
  | inr h ↦ elim (Bool-cases (q e)) [
    | inl k ↦
        ap (select p) (select_yes q e es k)
        ∙ select_no p e (select q es) h
        ∙ select_swap q p es
        ∙ sym (ap (select q) (select_no p e es h))
    | inr k ↦
        ap (select p) (select_no q e es k)
        ∙ select_swap q p es
        ∙ sym (ap (select q) (select_no p e es h))
  ]
]

pub count-select {ℓ} :
    {E : Type ℓ} (p : E → Bool) (es : List E) → count p (select p es) ≡ count p es
unfolding count
count-select p [] = refl
count-select p (e ∷ es) = elim (Bool-cases (p e)) [
  | inl h ↦ ap (count p) (select_yes p e es h) ∙ omega (arith, count-select p es)
  | inr h ↦ ap (count p) (select_no p e es h) ∙ rw h (omega (arith, count-select p es))
]

module _ {ℓ} {E : Type ℓ} (is_session : E → Bool) (cfg : SenderConfig) (p : E → Bool) where
  abbrev unskipped : E → Bool
  unskipped e = not (cfg.skip_login_logout && is_session e)

  -- the entries that the server is to have, of those that pass the test
  abbrev pub wanted : E → Bool
  wanted e = unskipped e && p e

  keep_unskipped : (es : List E) → keep_wanted is_session cfg es ≡ select unskipped es
  unfolding keep_wanted
  keep_unskipped es = elim (Bool-cases cfg.skip_login_logout) [
    | inl e ↦ rw e refl
    | inr e ↦ rw e (sym (select_all es))
  ]

  pub keep_wanted_lem : (es : List E) → select p (keep_wanted is_session cfg es) ≡ select wanted es
  keep_wanted_lem es =
      ap (λ l. select p l) (keep_unskipped es)
      ∙ select_swap unskipped p es
      ∙ select-select unskipped p es

  module _ (reads : String → List ℕ → Option E) (log : String → List ℕ) where
    -- What a log has for the server from a position.
    abbrev pub rest_of : String → ℕ → List E
    rest_of path pos = select wanted (unread (plain (reads path)) tt (log path) pos)

    -- What a tailer's log has from its position, and from the one that a commit saves.
    abbrev pub left : Tailer → List E
    left t = rest_of t.path t.pos

    abbrev pub ahead : Tailer → List E
    ahead t = rest_of t.path (next_pos t)

    -- The file found at the tailer's path is a part of its log, and not a rotated one.
    abbrev pub IsGrown : Option FileView → Tailer → Type 0
    IsGrown none t = Unit
    IsGrown (some v) t =
        (is_rotated t v ≡ false) × ((more : List ℕ) × (log t.path ≡ v.content ++ more))

    -- With any memory, a parser finds in a log what it finds without one, of what is wanted.
    rest_of_lem :
        {S : Type 0} (parser : Parser E S) (path : String) (whole : List ℕ)
        → Agrees p parser (reads path)
        → log path ≡ whole
        → (st : S) (pos : ℕ) → rest_of path pos ≡ select wanted (unread parser st whole pos)
    rest_of_lem parser path whole h e st pos =
        ap (λ l. select wanted (unread (plain (reads path)) tt l pos)) e
        ∙ sym (select-select unskipped p (unread (plain (reads path)) tt whole pos))
        ∙ ap (λ es. select unskipped es)
            (sym (scan-plain p parser (reads path) h st [] (drop pos whole)))
        ∙ select-select unskipped p (unread parser st whole pos)

    pub poll-left :
        {S : Type 0} (parser : Parser E S) (file : Option FileView) (t : Tailer) (st : S)
        → Agrees p parser (reads t.path)
        → IsGrown file t
        → left t ≡ ahead t
        → let (t', es, end) = poll parser t file st in
          (left t' ≡ left t) × (left t ≡ select wanted es ++ ahead t')
    unfolding poll
    poll-left parser none t st h g idle = (refl, idle)
    poll-left parser (some v) t st h (same, (more, e)) idle =
        let whole = v.content ++ more in
        let found = rest_of_lem parser t.path whole h e in
        let idle' : IsIdle parser wanted st whole t =
          sym (found st t.pos) ∙ idle ∙ found st (next_pos t) in
        let (moved, path, i, u) = poll-unread parser wanted t v more st same idle' in
        let (t', es, end) = poll parser t (some v) st in
        (
          ap (λ x. rest_of x t'.pos) path ∙ ap (λ x. rest_of t.path x) moved,
          found st t.pos
              ∙ u
              ∙ ap (λ l. select wanted es ++ l) (sym (found end (next_pos t')))
              ∙ ap (λ x. select wanted es ++ rest_of x (next_pos t')) (sym path),
        )

    abbrev pub tally : (Tailer → List E) → (E → Bool) → List Tailer → ℕ
    tally f q [] = 0
    tally f q (t ∷ ts) = count q (f t) + tally f q ts

    -- Polling yields what the logs have before what a commit leaves, and moves no position.
    pub poll_all-tally :
        {S : Type 0} (parsers : String → Parser E S)
        → ((path : String) → Agrees p (parsers path) (reads path))
        → (q : E → Bool) (files : String → Option FileView) (ts : List Tailer) (st : S)
        → All (λ t. IsGrown (files t.path) t × (left t ≡ ahead t)) ts
        → let (ts', es, end) = poll_all parsers files ts st in
          (tally left q ts' ≡ tally left q ts)
          × (tally left q ts ≡ count q (select wanted es) + tally ahead q ts')
    unfolding poll_all count
    poll_all-tally parsers r q files [] st h = (refl, refl)
    poll_all-tally parsers r q files (t ∷ ts) st h =
        let (t', es, st') = poll (parsers t.path) t (files t.path) st in
        let (ts', more, end) = poll_all parsers files ts st' in
        let (keeps, splits) =
          poll-left (parsers t.path) (files t.path) t st (r t.path) h.0.0 h.0.1 in
        let (keep_all, split_all) = poll_all-tally parsers r q files ts st' h.1 in
        let one : count q (left t) ≡ count q (select wanted es) + count q (ahead t') =
          ap (count q) splits ∙ count-append q (select wanted es) (ahead t') in
        let two : count q (select wanted (es ++ more))
            ≡ count q (select wanted es) + count q (select wanted more) =
          ap (count q) (select-append wanted es more)
          ∙ count-append q (select wanted es) (select wanted more) in
        let same : count q (left t') ≡ count q (left t) = ap (count q) keeps in
        (omega (arith, same, keep_all), omega (arith, one, two, split_all))

    settle-left : (t : Tailer) (q : Option ℕ) → left (settle t q) ≡ rest_of t.path (next_of t.pos q)
    settle-left t none = refl
    settle-left t (some q) = refl

    pub commit-tally :
        (q : E → Bool) (ts : List Tailer) → tally left q (map commit ts) ≡ tally ahead q ts
    unfolding commit
    commit-tally q [] = refl
    commit-tally q (t ∷ ts) =
        let one = ap (count q) (settle-left t t.pending) in omega (arith, one, commit-tally q ts)

    pub advance-tally :
        (q : E → Bool) (ts : List Tailer) → tally left q (map advance ts) ≡ tally ahead q ts
    unfolding advance
    advance-tally q [] = refl
    advance-tally q (t ∷ ts) =
        let one = ap (count q) (settle-left t t.pending) in omega (arith, one, advance-tally q ts)

    pub rollback-tally :
        (q : E → Bool) (ts : List Tailer) → tally left q (map rollback ts) ≡ tally left q ts
    unfolding rollback
    rollback-tally q [] = refl
    rollback-tally q (t ∷ ts) = omega (arith, rollback-tally q ts)

    -- the logs as the files are now, of which the tailers have nothing pending that is wanted
    abbrev pub IsFollowed : (String → Option FileView) → Tailer → Type ℓ
    IsFollowed files t = IsGrown (files t.path) t × (left t ≡ ahead t)

    -- The entries that the test counts: in the buffer, in the logs from the positions of the
    -- tailers, and taken by the server; and those that the buffer has dropped.
    abbrev pub ledger : {S : Type 0} → (E → Bool) → Daemon E S → ℕ
    ledger q d =
        count q d.buffer.entries + tally left q d.tailers + count q d.net.acked + d.buffer.dropped
