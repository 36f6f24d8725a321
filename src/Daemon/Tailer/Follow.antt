-- ===== src/Daemon/Tailer/Follow.antt =====
-- ftp-daemon/soltrace_daemon.py: `FileTailer` between a `poll` and its `commit`.
use soltrace.Base.{
  Bool, select, select-append, Bool-cases, inl, inr, leb, not, ◌||◌, false, sym, arith, [], some,
  none, Option, ◌≤◌, ◌<◌, ◌+◌, ◌≡◌, ◌∙◌, ap, refl, ℕ, List, ◌++◌, length, drop, drop_add,
  drop-append, drop-length, append_assoc, true,
}
use soltrace.Daemon.Tailer.{
  Parser, save_state, is_rotated, follow_rotation, read_lines, Tailer, FileView, poll, read_new,
  max_lines_per_poll,
}
use soltrace.Daemon.Tailer.Lines.{scan, read_lines-IsRead}

-- the position that a commit would save
abbrev pub next_of : ℕ → Option ℕ → ℕ
next_of pos none = pos
next_of pos (some q) = q

abbrev pub next_pos : Tailer → ℕ
next_pos t = next_of t.pos t.pending

module _ {ℓ} {E : Type ℓ} {S : Type 0} (parser : Parser E S) where
  -- what a log has from a position, for a parser with that memory
  abbrev pub unread : S → List ℕ → ℕ → List E
  unread st log pos = scan parser st [] (drop pos log)

  unread_lem :
      (content more seen left : List ℕ) (pos : ℕ)
      → pos ≤ length content
      → drop pos content ≡ seen ++ left
      → drop (pos + length seen) (content ++ more) ≡ left ++ more
  unread_lem content more seen left pos h e =
      drop_add pos (length seen) (content ++ more)
      ∙ ap (λ x. drop (length seen) x) (drop-append pos content more h)
      ∙ ap (λ x. drop (length seen) (x ++ more)) e
      ∙ ap (λ x. drop (length seen) x) (append_assoc seen left more)
      ∙ drop-length seen (left ++ more)

  -- A poll that reads yields what the log has before what a commit leaves unread, however the log
  -- grows afterwards.
  pub read_new-unread :
      (t : Tailer) (v : FileView) (more : List ℕ) (st : S)
      → t.pos < length v.content
      → v.readable ≡ true
      → let (t', es, end) = read_new parser t v st in
        (t'.pos ≡ t.pos)
        × (unread st (v.content ++ more) t.pos ≡ es ++ unread end (v.content ++ more) (next_pos t'))
  unfolding read_new
  read_new-unread t v more st h r =
      let (seen, left, e, q, s) =
        read_lines-IsRead parser max_lines_per_poll t.pos (drop t.pos v.content) more st in
      let log = v.content ++ more in
      let (es, p, end) = read_lines parser max_lines_per_poll t.pos (drop t.pos v.content) st in
      let guard : leb (length v.content) t.pos || not v.readable ≡ false = ground arith in
      let rest : unread end log p ≡ scan parser end [] (left ++ more) =
        ap (λ x. unread end log x) q
        ∙ ap (λ x. scan parser end [] x)
            (unread_lem v.content more seen left t.pos (omega arith) e) in
      rw (guard, read_new)
        (
          refl,
          ap (λ x. scan parser st [] x) (drop-append t.pos v.content more (omega arith))
              ∙ s
              ∙ ap (λ x. es ++ x) (sym rest),
        )

  -- What a tailer would skip with its pending position holds nothing that is wanted.
  abbrev pub IsIdle : (E → Bool) → S → List ℕ → Tailer → Type ℓ
  IsIdle wanted st log t =
      select wanted (unread st log t.pos) ≡ select wanted (unread st log (next_pos t))

  pub read_new-keeps :
      (t : Tailer) (v : FileView) (st : S)
      → let t' = (read_new parser t v st).0 in
        (t'.pos ≡ t.pos) × (t'.path ≡ t.path) × (t'.inode ≡ t.inode) × (t'.saved ≡ t.saved)
  unfolding read_new
  read_new-keeps t v st = elim (Bool-cases (leb (length v.content) t.pos || not v.readable)) [
    | inl skip ↦ rw (skip, read_new) (refl, refl, refl, refl)
    | inr go ↦ rw (go, read_new) (refl, refl, refl, refl)
  ]

  read_new-wanted :
      (wanted : E → Bool) (t : Tailer) (v : FileView) (more : List ℕ) (st : S)
      → IsIdle wanted st (v.content ++ more) t
      → let (t', es, end) = read_new parser t v st in
        select wanted (unread st (v.content ++ more) t.pos)
        ≡ select wanted es ++ select wanted (unread end (v.content ++ more) (next_pos t'))
  unfolding read_new
  read_new-wanted wanted t v more st idle =
      elim (Bool-cases (leb (length v.content) t.pos || not v.readable)) [
        | inl skip ↦ rw (skip, read_new) idle
        | inr go ↦
            let (p, u) = read_new-unread t v more st (ground arith) (ground arith) in
            let (t', es, end) = read_new parser t v st in
            ap (λ x. select wanted x) u
            ∙ select-append wanted es (unread end (v.content ++ more) (next_pos t'))
      ]

  pub poll-same :
      (t : Tailer) (v : FileView) (st : S)
      → is_rotated t v ≡ false
      → poll parser t (some v) st ≡ read_new parser t v st
  unfolding poll follow_rotation
  poll-same t v st h = rw h refl

  pub poll-anew :
      (t : Tailer) (v : FileView) (st : S)
      → is_rotated t v ≡ true
      → poll parser t (some v) st
        ≡ read_new parser (save_state (record t { pos = 0; inode = some v.inode })) v st
  unfolding poll follow_rotation
  poll-anew t v st h = rw h refl

  -- Of a file that is not rotated, a poll by a tailer with nothing pending that is wanted yields
  -- the entries that its parser, going on from what it remembers, finds in the log before what a
  -- commit leaves unread, and leaves the parser with the memory that the rest is read from,
  -- however the log grows afterwards; it moves neither the position, the path nor the inode.
  pub poll-unread :
      (wanted : E → Bool) (t : Tailer) (v : FileView) (more : List ℕ) (st : S)
      → is_rotated t v ≡ false
      → IsIdle wanted st (v.content ++ more) t
      → let (t', es, end) = poll parser t (some v) st in
        (t'.pos ≡ t.pos)
        × (t'.path ≡ t.path)
        × (t'.inode ≡ t.inode)
        × (select wanted (unread st (v.content ++ more) t.pos)
            ≡ select wanted es ++ select wanted (unread end (v.content ++ more) (next_pos t')))
  poll-unread wanted t v more st same idle =
      let (p, path, i, s) = read_new-keeps t v st in
      rw (poll-same t v st same) (p, path, i, read_new-wanted wanted t v more st idle)

  -- A rotated file that can be read and has content is read from its start, and this position
  -- and its inode are saved at once, if the state file can be written.
  pub poll-rotated :
      (t : Tailer) (v : FileView) (more : List ℕ) (st : S)
      → is_rotated t v ≡ true
      → 0 < length v.content
      → v.readable ≡ true
      → t.writable ≡ true
      → let (t', es, end) = poll parser t (some v) st in
        (t'.saved ≡ some (0, some v.inode))
        × (unread st (v.content ++ more) 0 ≡ es ++ unread end (v.content ++ more) (next_pos t'))
  poll-rotated t v more st new h r w =
      let anew = save_state (record t { pos = 0; inode = some v.inode }) in
      rw (poll-anew t v st new)
        ((read_new-keeps anew v st).3 ∙ (rw w refl), (read_new-unread anew v more st h r).1)
