-- ===== src/Daemon/Buffer.antt =====
-- ftp-daemon/soltrace_daemon.py: `DiskBuffer`, as the entries of its file. `dropped` counts what the
-- warnings of `write` say was dropped; a `max_lines` of 0 stands for any that is not positive.
use soltrace.Base.{
  inr, sym, ap, inl, Bool-cases, length-append, ◌⊎◌, ◌≡◌, count-drop, length-drop, count-append,
  arith, ◌≤◌, ◌<◌, count, ℕ, ◌+◌, ◌-◌, ◌==◌, ltb, Bool, not, ◌&&◌, List, [], ◌++◌, length, drop,
  if◌then◌else◌,
}

pub record Buffer {ℓ} (E : Type ℓ) : Type ℓ where
  pub max_lines : ℕ
  pub entries : List E
  pub dropped : ℕ

module _ {ℓ} {E : Type ℓ} where
  unfoldable pub write : List E → Buffer E → Buffer E
  write new b =
      let combined = b.entries ++ new in
      if ltb 0 b.max_lines && ltb b.max_lines (length combined)
      then (let over = length combined - b.max_lines in
          record b { entries = drop over combined; dropped = b.dropped + over })
      else record b { entries = combined }

  unfoldable pub read_and_clear : Buffer E → List E × Buffer E
  read_and_clear b = (b.entries, record b { entries = [] })

  unfoldable pub exists : Buffer E → Bool
  exists b = not (length b.entries == 0)

  -- What a write keeps, with what it says it dropped, is all that was there.
  pub count-write :
      (p : E → Bool) (new : List E) (b : Buffer E)
      → let b' = write new b in
        (count p b.entries + count p new ≤ count p b'.entries + (b'.dropped - b.dropped))
        × (b.dropped ≤ b'.dropped)
  unfolding write
  count-write p new b = ground (
    arith,
    count-append p b.entries new,
    count-drop p (length (b.entries ++ new) - b.max_lines) (b.entries ++ new),
  )

  pub write-bounded :
      (new : List E) (b : Buffer E) → 0 < b.max_lines → length (write new b).entries ≤ b.max_lines
  unfolding write
  write-bounded new b h =
      let all = b.entries ++ new in ground (arith, length-drop (length all - b.max_lines) all)

  -- A write to the disk buffer keeps the latest of the old and the new entries, counts the
  -- others as dropped, and holds at most `max_lines` entries unless there is no limit.
  pub write-latest :
      (new : List E) (b : Buffer E)
      → let b' = write new b in
        (b'.entries ≡ drop (b'.dropped - b.dropped) (b.entries ++ new))
        × (length b'.entries + b'.dropped ≡ length b.entries + length new + b.dropped)
        × ((length b'.entries ≤ b'.max_lines) ⊎ ((b'.max_lines ≡ 0) × (b'.dropped ≡ b.dropped)))
  unfolding write
  write-latest new b =
      let all = b.entries ++ new in
      let len = length-append b.entries new in
      let len' = length-drop (length all - b.max_lines) all in
      elim (Bool-cases (ltb 0 b.max_lines && ltb b.max_lines (length all))) [
        | inl e ↦
            let back : b.dropped + (length all - b.max_lines) - b.dropped
                ≡ length all - b.max_lines =
              omega arith in
            rw (e, write) (ap (λ k. drop k all) (sym back), ground arith, ground arith)
        | inr e ↦
            let none_dropped : b.dropped - b.dropped ≡ 0 = omega arith in
            rw (e, write) (ap (λ k. drop k all) (sym none_dropped), ground arith, ground arith)
      ]
