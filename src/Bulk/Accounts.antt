-- ===== src/Bulk/Accounts.antt =====
-- ftp-daemon/soltrace_bulk.py: what becomes of the entries that the loader reads.
use soltrace.Base.{
  subst, ◌⊎◌, ℕ, suc, ◌+◌, ◌≤◌, ◌<◌, ◌≡◌, refl, ◌∙◌, sym, ap, leb, Bool, true, false, ◌||◌, List,
  [], ◌∷◌, ◌++◌, length, length-append, append-nil, append_assoc, All, All-append, Bool-cases, inl,
  inr, if◌then◌else◌, arith,
}
use soltrace.Auth.Text.{is_empty}
use soltrace.Bulk.{
  book_sent, book_failed, take_back, post, Args, Run, bounded_size, close, flush_batch, flush_full,
  flush_entries, load, first_run, load_unless, run_bulk,
}

zero_length : (n : ℕ) → 0 < n → n ≡ 0 → ⊥
zero_length n h e = ground arith

-- whether one of the posts was answered well
abbrev pub was_taken : List Bool → Bool
was_taken [] = false
was_taken (a ∷ rest) = a || was_taken rest

-- The posts of a batch: none in a dry run, or else one, and a second where the first fails.
abbrev pub IsPosted : Bool → List Bool → Type 0
IsPosted dry replies =
    ((dry ≡ true) × (replies ≡ []))
    ⊎ ((dry ≡ false)
        × ((replies ≡ true ∷ []) ⊎ ((second : Bool) × (replies ≡ false ∷ second ∷ []))))

module _ {E : Type 0} where
  -- the entries of the batches, in order
  abbrev pub entries_of : List (List E × List Bool) → List E
  entries_of [] = []
  entries_of (b ∷ bs) = b.0 ++ entries_of bs

  -- how many entries the batches had that the server took; in a dry run, that all had
  abbrev pub booked : Bool → List (List E × List Bool) → ℕ
  booked dry [] = 0
  booked dry (b ∷ bs) = (if dry || was_taken b.1 then length b.0 else 0) + booked dry bs

  -- how many entries the other batches had
  abbrev pub lost : Bool → List (List E × List Bool) → ℕ
  lost dry [] = 0
  lost dry (b ∷ bs) = (if dry || was_taken b.1 then 0 else length b.0) + lost dry bs

  entries_of-append :
      (bs : List (List E × List Bool)) (b : List E × List Bool)
      → entries_of (bs ++ b ∷ []) ≡ entries_of bs ++ b.0
  entries_of-append [] b = append-nil b.0
  entries_of-append (x ∷ xs) b =
      ap (λ l. x.0 ++ l) (entries_of-append xs b) ∙ sym (append_assoc x.0 (entries_of xs) b.0)

  booked-append :
      (dry : Bool) (bs : List (List E × List Bool)) (b : List E × List Bool)
      → booked dry (bs ++ b ∷ []) ≡ booked dry bs + (if dry || was_taken b.1 then length b.0 else 0)
  booked-append dry [] b = omega arith
  booked-append dry (x ∷ xs) b = omega (arith, booked-append dry xs b)

  lost-append :
      (dry : Bool) (bs : List (List E × List Bool)) (b : List E × List Bool)
      → lost dry (bs ++ b ∷ []) ≡ lost dry bs + (if dry || was_taken b.1 then 0 else length b.0)
  lost-append dry [] b = omega arith
  lost-append dry (x ∷ xs) b = omega (arith, lost-append dry xs b)

  -- a batch that is flushed: neither empty nor too large
  abbrev pub IsFit : Bool → ℕ → List E × List Bool → Type 0
  IsFit dry size b = (0 < length b.0) × (length b.0 ≤ size) × IsPosted dry b.1

  -- What holds after the entries `seen` were taken.
  pub record IsExact (dry : Bool) (size : ℕ) (seen : List E) (r : Run E) : Type 0 where
    pub in_order : entries_of r.flushed ++ r.batch ≡ seen
    pub are_fit : All (IsFit dry size) r.flushed
    pub sent : r.total_sent ≡ booked dry r.flushed
    pub failed : r.total_failed ≡ lost dry r.flushed
    pub no_reply : r.replies ≡ []

  close-IsExact :
      (dry : Bool) (size : ℕ) (seen : List E) (r s : Run E) (e : E) (es : List E)
      (replies : List Bool)
      → IsExact dry size seen r
      → r.batch ≡ e ∷ es
      → length (e ∷ es) ≤ size
      → s.flushed ≡ r.flushed
      → s.replies ≡ replies
      → IsPosted dry replies
      → s.total_sent ≡ r.total_sent + (if dry || was_taken replies then length (e ∷ es) else 0)
      → s.total_failed ≡ r.total_failed + (if dry || was_taken replies then 0 else length (e ∷ es))
      → IsExact dry size seen (close (e ∷ es) s)
  close-IsExact dry size seen r s e es replies x b n f q posted ts tf = record {
    in_order =
        append-nil _
        ∙ ap (λ l. entries_of (l ++ (e ∷ es, s.replies) ∷ [])) f
        ∙ entries_of-append r.flushed (e ∷ es, s.replies)
        ∙ ap (λ l. entries_of r.flushed ++ l) (sym b)
        ∙ x.in_order;
    are_fit =
        rw (f, q)
          (All-append (IsFit dry size) r.flushed _ x.are_fit ((omega arith, n, posted), tt));
    sent = rw (f, q) (omega (arith, ts, x.sent, booked-append dry r.flushed (e ∷ es, replies)));
    failed = rw (f, q) (omega (arith, tf, x.failed, lost-append dry r.flushed (e ∷ es, replies)));
    no_reply = refl;
  }

  module _ (answers : ℕ → Bool) (dry_run : Bool) (size : ℕ) where
    -- what is done with a batch that is not empty, by the answers
    close_batch-IsExact :
        (dry first second : Bool) (seen : List E) (e : E) (es : List E) (r : Run E)
        → dry_run ≡ dry
        → answers r.turn ≡ first
        → answers (suc r.turn) ≡ second
        → IsExact dry_run size seen r
        → r.batch ≡ e ∷ es
        → length (e ∷ es) ≤ size
        → IsExact dry_run size seen (flush_entries answers dry_run size (e ∷ es) r)
          × ((flush_entries answers dry_run size (e ∷ es) r).batch ≡ [])
    close_batch-IsExact true first second seen e es r d a c x b n =
        let batch : List E = e ∷ es in
        let closed : Run E = close batch (book_sent batch r) in
        let step : flush_entries answers dry_run size batch r ≡ closed = rw d refl in
        subst (λ q. IsExact dry_run size seen q × (q.batch ≡ [])) (sym step)
          (
            close-IsExact dry_run size seen r (book_sent batch r) e es ([]) x b n refl (x.no_reply)
                (inl (d, refl)) (rw d refl) (rw d (omega arith)),
            refl,
          )
    close_batch-IsExact false true second seen e es r d a c x b n =
        let batch : List E = e ∷ es in
        let closed : Run E = close batch (book_sent batch (post answers dry_run size r)) in
        let step : flush_entries answers dry_run size batch r ≡ closed = rw (d, a) refl in
        subst (λ q. IsExact dry_run size seen q × (q.batch ≡ [])) (sym step)
          (
            close-IsExact dry_run size seen r (book_sent batch (post answers dry_run size r)) e es
                (true ∷ []) x b n refl (rw (x.no_reply, a) refl) (inr (d, inl refl)) (rw d refl)
                (rw d (omega arith)),
            refl,
          )
    close_batch-IsExact false false true seen e es r d a c x b n =
        let batch : List E = e ∷ es in
        let closed : Run E = close batch (
          take_back batch (
            book_sent batch
              (post answers dry_run size (book_failed batch (post answers dry_run size r))))) in
        let step : flush_entries answers dry_run size batch r ≡ closed = rw (d, a, c) refl in
        subst (λ q. IsExact dry_run size seen q × (q.batch ≡ [])) (sym step)
          (
            close-IsExact dry_run size seen r
                (take_back batch (
                  book_sent batch
                    (post answers dry_run size (book_failed batch (post answers dry_run size r)))))
                e es (false ∷ true ∷ []) x b n refl (rw (x.no_reply, a, c) refl)
                (inr (d, inr (true, refl))) (rw d refl) (rw d (omega arith)),
            refl,
          )
    close_batch-IsExact false false false seen e es r d a c x b n =
        let batch : List E = e ∷ es in
        let closed : Run E =
          close batch
            (post answers dry_run size (book_failed batch (post answers dry_run size r))) in
        let step : flush_entries answers dry_run size batch r ≡ closed = rw (d, a, c) refl in
        subst (λ q. IsExact dry_run size seen q × (q.batch ≡ [])) (sym step)
          (
            close-IsExact dry_run size seen r
                (post answers dry_run size (book_failed batch (post answers dry_run size r))) e es
                (false ∷ false ∷ []) x b n refl (rw (x.no_reply, a, c) refl)
                (inr (d, inr (false, refl))) (rw d (omega arith)) (rw d refl),
            refl,
          )

    flush_entries-IsExact :
        (seen batch : List E) (r : Run E)
        → IsExact dry_run size seen r
        → r.batch ≡ batch
        → length batch ≤ size
        → IsExact dry_run size seen (flush_entries answers dry_run size batch r)
          × ((flush_entries answers dry_run size batch r).batch ≡ [])
    flush_entries-IsExact seen [] r x b n = (x, b)
    flush_entries-IsExact seen (e ∷ es) r x b n =
        close_batch-IsExact dry_run (answers r.turn) (answers (suc r.turn)) seen e es r refl refl
          refl x b n

    flush_batch-IsExact :
        (seen : List E) (r : Run E)
        → IsExact dry_run size seen r
        → length r.batch ≤ size
        → IsExact dry_run size seen (flush_batch answers dry_run size r)
          × ((flush_batch answers dry_run size r).batch ≡ [])
    unfolding flush_batch
    flush_batch-IsExact seen r x n = flush_entries-IsExact seen r.batch r x refl n

    put_entry-IsExact :
        (seen : List E) (e : E) (r : Run E)
        → IsExact dry_run size seen r
        → IsExact dry_run size (seen ++ e ∷ []) (record r { batch = r.batch ++ e ∷ [] })
    put_entry-IsExact seen e r x = record {
      in_order =
          sym (append_assoc (entries_of r.flushed) r.batch (e ∷ []))
          ∙ ap (λ l. l ++ e ∷ []) x.in_order;
      are_fit = x.are_fit;
      sent = x.sent;
      failed = x.failed;
      no_reply = x.no_reply;
    }

    -- After an entry was put, the open batch is not full.
    flush_full-IsExact :
        (seen : List E) (r : Run E)
        → 0 < size
        → IsExact dry_run size seen r
        → length r.batch ≤ size
        → IsExact dry_run size seen (flush_full answers dry_run size r)
          × (length (flush_full answers dry_run size r).batch < size)
    flush_full-IsExact seen r p x n = elim (Bool-cases (leb size (length r.batch))) [
      | inl full ↦ let (y, c) = flush_batch-IsExact seen r x n in rw full (y, rw c p)
      | inr room ↦ rw room (x, ground arith)
    ]

    load-IsExact :
        (es seen : List E) (r : Run E)
        → 0 < size
        → IsExact dry_run size seen r
        → length r.batch < size
        → IsExact dry_run size (seen ++ es) (load answers dry_run size es r)
          × ((load answers dry_run size es r).batch ≡ [])
    unfolding load
    load-IsExact [] seen r p x n = rw (append-nil seen) (flush_batch-IsExact seen r x (omega arith))
    load-IsExact (e ∷ es) seen r p x n =
        let (y, room) =
          flush_full-IsExact (seen ++ e ∷ []) (record r { batch = r.batch ++ e ∷ [] }) p
            (put_entry-IsExact seen e r x) (omega (arith, length-append r.batch (e ∷ []))) in
        rw (← append_assoc seen (e ∷ []) es) (load-IsExact es (seen ++ e ∷ []) _ p y room)

  none_lost :
      (size : ℕ) (bs : List (List E × List Bool))
      → All (IsFit false size) bs
      → lost false bs ≡ 0
      → All (λ b. was_taken b.1 ≡ true) bs
  none_lost size [] h z = tt
  none_lost size (b ∷ bs) h z = elim (Bool-cases (was_taken b.1)) [
    | inl e ↦ (e, none_lost size bs h.1 (omega (arith, z)))
    | inr e ↦
        let all_lost : length b.0 + lost false bs ≡ 0 =
          rw (sym (ap (λ x. (if x then 0 else length b.0) + lost false bs) e)) z in
        absurd (zero_length (length b.0) h.0.0 (omega (arith, all_lost)))
  ]

  none_lost_wet :
      (dry : Bool) (size : ℕ) (bs : List (List E × List Bool))
      → dry ≡ false
      → All (IsFit dry size) bs
      → lost dry bs ≡ 0
      → All (λ b. was_taken b.1 ≡ true) bs
  none_lost_wet true size bs d h z = cc d
  none_lost_wet false size bs d h z = none_lost size bs h z

module _ {E : Type 0} where
  -- the entries of a log that is not skipped
  abbrev pub taken : Bool → List E → List E
  taken true entries = []
  taken false entries = entries

module _ {E : Type 0} (args : Args) where
  abbrev pub wanted : List E → List E → List E
  wanted transfer extended =
      taken (args.no_transfer || is_empty args.transfer_log) transfer
      ++ taken (args.no_extended || is_empty args.extended_log) extended

module _ {E : Type 0} (answers : ℕ → Bool) (args : Args) where
  load_unless-IsExact :
      (skip : Bool) (es seen : List E) (r : Run E)
      → IsExact args.dry_run (bounded_size args.batch_size) seen r
      → r.batch ≡ []
      → IsExact args.dry_run
          (bounded_size args.batch_size)
          (seen ++ taken skip es)
          (load_unless answers args skip es r)
        × ((load_unless answers args skip es r).batch ≡ [])
  unfolding bounded_size
  load_unless-IsExact true es seen r x b = rw (append-nil seen) (x, b)
  load_unless-IsExact false es seen r x b =
      load-IsExact answers args.dry_run (bounded_size args.batch_size) es seen r (omega arith) x
        (rw b (omega arith))

  -- The loader takes every entry of the logs that are not skipped once and in order, in batches
  -- that are neither empty nor above the bounded size. A batch is posted once, and a second time
  -- if the first post is not answered well; a dry run posts none. Its counters are the entries
  -- of the batches that one of their posts was answered well for, or of all in a dry run, and of
  -- the others; no entry is left in the open batch, and it reports success, where it is no dry
  -- run, only if every batch was answered well.
  pub run_bulk-IsExact :
      (transfer extended : List E)
      → (let (succeeded, r) = run_bulk answers args transfer extended in
          IsExact args.dry_run (bounded_size args.batch_size) (wanted args transfer extended) r
          × (r.batch ≡ [])
          × (succeeded ≡ true → args.dry_run ≡ false → All (λ b. was_taken b.1 ≡ true) r.flushed))
  unfolding run_bulk
  run_bulk-IsExact transfer extended =
      let (x, b) =
        load_unless-IsExact (args.no_transfer || is_empty args.transfer_log) transfer []
          (first_run answers args)
          (record { in_order = refl; are_fit = tt; sent = refl; failed = refl; no_reply = refl })
          refl in
      let (y, c) =
        load_unless-IsExact (args.no_extended || is_empty args.extended_log) extended _ _ x b in
      (y, c, λ ok wet. none_lost_wet args.dry_run _ _ wet y.are_fit (sym y.failed ∙ ground arith))
