-- ===== src/Daemon/Tailer/Saved.antt =====
-- ftp-daemon/soltrace_daemon.py: `FileTailer` polled again before a commit.
use soltrace.Base.{
  ◌++◌, select, Bool, Option-cases, zero, suc, ◌+◌, sym, drop, [], ℕ, ◌≡◌, refl, Bool-cases, inl,
  inr, not, ◌||◌, leb, true, false, Option, none, some, List, length, arith, ap, ◌∙◌,
}
use soltrace.Daemon.Tailer.{
  split_line, Parser, max_lines_per_poll, read_lines, Tailer, FileView, poll, read_new, is_rotated,
  save_state,
}
use soltrace.Daemon.Tailer.Follow.{poll-same, poll-anew, read_new-keeps}
use soltrace.Daemon.Tailer.Lines.{Agrees, keep-select, one_of}

module _ {ℓ} {E : Type ℓ} {S : Type 0} (parser : Parser E S) (wanted : E → Bool)
    (reads : List ℕ → Option E) (h : Agrees wanted parser reads) where
  -- What is read and wanted does not depend on what the parser remembers, nor does the position.
  read_lines-same :
      (n pos : ℕ) (rest : List ℕ) (st st' : S)
      → (select wanted (read_lines parser n pos rest st).0
          ≡ select wanted (read_lines parser n pos rest st').0)
        × ((read_lines parser n pos rest st).1 ≡ (read_lines parser n pos rest st').1)
  unfolding read_lines
  read_lines-same zero pos rest st st' = (refl, refl)
  read_lines-same (suc n) pos rest st st' = elim (Option-cases (split_line rest)) [
    | inl e ↦ rw (e, read_lines) (refl, refl)
    | inr ((l, r), e) ↦
        let (same, ends) = read_lines-same n (pos + length l) r (parser st l).1 (parser st' l).1 in
        let first = (read_lines parser n (pos + length l) r (parser st l).1).0 in
        let second = (read_lines parser n (pos + length l) r (parser st' l).1).0 in
        rw (e, read_lines)
          (
            keep-select wanted parser (parser st l).0 first
                ∙ ap (λ x. x ++ select wanted first) (h st l ∙ sym (h st' l))
                ∙ ap (λ x. select wanted (one_of (parser st' l).0) ++ x) same
                ∙ sym (keep-select wanted parser (parser st' l).0 second),
            ends,
          )
  ]

  abbrev pub Again : Tailer × List E × S → Tailer × List E × S → Type ℓ
  Again r r' = (r'.0 ≡ r.0) × (select wanted r'.1 ≡ select wanted r.1)

  read_new-skip :
      (t : Tailer) (v : FileView) (st : S)
      → leb (length v.content) t.pos || not v.readable ≡ true
      → read_new parser t v st ≡ (t, [], st)
  unfolding read_new
  read_new-skip t v st e = rw e refl

  read_new-go :
      (t : Tailer) (v : FileView) (st : S)
      → leb (length v.content) t.pos || not v.readable ≡ false
      → let (es, q, end) = read_lines parser max_lines_per_poll t.pos (drop t.pos v.content) st in
        read_new parser t v st ≡ (record t { pending = some q }, es, end)
  unfolding read_new
  read_new-go t v st e = rw e refl

  read_new-repeats :
      (t : Tailer) (v : FileView) (st st' : S)
      → Again (read_new parser t v st) (read_new parser (read_new parser t v st).0 v st')
  read_new-repeats t v st st' = elim (Bool-cases (leb (length v.content) t.pos || not v.readable)) [
    | inl skip ↦
        let a = read_new-skip t v st skip in
        let b = ap (λ x. read_new parser x.0 v st') a ∙ read_new-skip t v st' skip in
        (
          ap (λ x. x.0) b ∙ sym (ap (λ x. x.0) a),
          ap (λ x. select wanted x.1) b ∙ sym (ap (λ x. select wanted x.1) a),
        )
    | inr go ↦
        let a = read_new-go t v st go in
        let rest = drop t.pos v.content in
        let (same, ends) = read_lines-same max_lines_per_poll t.pos rest st' st in
        let q = (read_lines parser max_lines_per_poll t.pos rest st).1 in
        let b =
          ap (λ x. read_new parser x.0 v st') a
          ∙ read_new-go (record t { pending = some q }) v st' go in
        (
          ap (λ x. x.0) b ∙ ap (λ p. record t { pending = some p }) ends ∙ sym (ap (λ x. x.0) a),
          ap (λ x. select wanted x.1) b ∙ same ∙ sym (ap (λ x. select wanted x.1) a),
        )
  ]

  same-repeats :
      (t : Tailer) (v : FileView) (st st' : S)
      → is_rotated t v ≡ false
      → Again (read_new parser t v st) (poll parser (read_new parser t v st).0 (some v) st')
  same-repeats t v st st' e =
      let (p, path, i, s) = read_new-keeps parser t v st in
      let e' : is_rotated (read_new parser t v st).0 v ≡ false = rw (p, i) e in
      rw (poll-same parser (read_new parser t v st).0 v st' e') (read_new-repeats t v st st')

  -- Until its position is committed, a poll of the same file changes nothing more of the tailer
  -- and yields again, of the entries that pass a test, the same ones, where the parser gives a
  -- line the same of these whatever it remembers.
  pub poll-repeats :
      (t : Tailer) (file : Option FileView) (st st' : S)
      → Again (poll parser t file st) (poll parser (poll parser t file st).0 file st')
  unfolding poll
  poll-repeats t none st st' = (refl, refl)
  poll-repeats t (some v) st st' = elim (Bool-cases (is_rotated t v)) [
    | inl new ↦
        let anew = save_state (record t { pos = 0; inode = some v.inode }) in
        rw (poll-anew parser t v st new) (same-repeats anew v st st' (ground arith))
    | inr same ↦ rw (poll-same parser t v st same) (same-repeats t v st st' same)
  ]
