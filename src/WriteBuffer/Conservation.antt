-- ===== src/WriteBuffer/Conservation.antt =====
-- was/app/write_buffer.py: no row vanishes. What was handed in is written, waits in `_queue` or in
-- `_retry`, or is counted in `_dropped`.
use soltrace.Base.{
  ℕ, Bool-cases, inl, subst, ◌+◌, ◌-◌, ◌≤◌, ◌≡◌, inr, refl, ap, Bool, true, false, not, List, [],
  ◌∷◌, ◌++◌, map, arith, length, length-append, length-map, count, count-append, count-le-length,
  select, if◌then◌else◌,
}
use soltrace.WriteBuffer.{
  Env, Batch, State, batch_rows, evict, push_retry, drop_overflow, count_dropped, defer, requeue,
  insert, Mapping, is_skipped, to_mapping, new_batch, to_mappings, write, add, extend, take_due,
  is_due, retry_batches, retry_due, take_queue, flush, stop,
}
use soltrace.WriteBuffer.Counters.{batch_rows-append, batch_rows-select}
use mathlib.Core.List.{map-append}

module _ (e : Env) where
  -- the row that an object becomes, by the columns of its own model
  abbrev pub row_of : e.Object → Mapping e
  row_of o = to_mapping e (select (λ key. not (is_skipped key)) (e.columns (e.model_of o))) o

  abbrev pub SingleModel : Type 0
  SingleModel = (a b : e.Object) → e.model_of a ≡ e.model_of b

  -- how many rows of the batches pass a test
  unfoldable pub batch_count : (Mapping e → Bool) → List (Batch e) → ℕ
  batch_count p [] = 0
  batch_count p (b ∷ bs) = count p b.mappings + batch_count p bs

  -- how many of the rows that are written or wait pass a test, and how many there are
  unfoldable pub held : (Mapping e → Bool) → State e → ℕ
  held p s = count p s.written + count p (map row_of s.queue) + batch_count p s.retry

  unfoldable pub held_rows : State e → ℕ
  held_rows s = length s.written + length s.queue + batch_rows e s.retry

  -- From `s` to `s'` the rows were handed in: of those that pass the test, no more are gone than
  -- the count of dropped rows has grown by, and of all rows exactly as many.
  pub record Settles (p : Mapping e → Bool) (rows : List (Mapping e)) (s s' : State e)
      : Type 0 where
    pub kept : held p s + count p rows + s.dropped ≤ held p s' + s'.dropped
    pub exact : held_rows s + length rows + s.dropped ≡ held_rows s' + s'.dropped

  to_mappings-rows :
      SingleModel
      → (first : e.Object) (rest : List e.Object)
      → (to_mappings e first rest).1 ≡ map row_of (first ∷ rest)
  unfolding to_mappings
  to_mappings-rows same first rest = ap (λ l. row_of first ∷ l) (go rest)
    where
      go :
          (os : List e.Object)
          → map
              (to_mapping e (select (λ key. not (is_skipped key)) (e.columns (e.model_of first))))
              os
            ≡ map row_of os
      go [] = refl
      go (o ∷ os) = cc (same first o, go os)

  module _ (p : Mapping e → Bool) where
    batch_count-append :
        (bs cs : List (Batch e)) → batch_count p (bs ++ cs) ≡ batch_count p bs + batch_count p cs
    unfolding batch_count
    batch_count-append [] cs = omega arith
    batch_count-append (b ∷ bs) cs = omega (arith, batch_count-append bs cs)

    batch_count-select :
        (q : Batch e → Bool) (bs : List (Batch e))
        → batch_count p (select q bs) + batch_count p (select (λ b. not (q b)) bs)
          ≡ batch_count p bs
    unfolding batch_count
    batch_count-select q [] = omega arith
    batch_count-select q (b ∷ bs) = ground (arith, batch_count-select q bs)

    batch_count-le-rows : (bs : List (Batch e)) → batch_count p bs ≤ batch_rows e bs
    unfolding batch_count batch_rows
    batch_count-le-rows [] = omega arith
    batch_count-le-rows (b ∷ bs) =
        omega (arith, batch_count-le-rows bs, count-le-length p b.mappings)

    pub evict_splits :
        (limit : ℕ) (bs : List (Batch e)) (rows : ℕ)
        → let (kept, left, overflow) = evict e limit bs rows in
          (batch_count p kept + batch_count p overflow ≡ batch_count p bs)
          × (batch_rows e kept + batch_rows e overflow ≡ batch_rows e bs)
    unfolding evict batch_count batch_rows
    evict_splits limit [] rows = (refl, refl)
    evict_splits limit (b ∷ []) rows = (omega arith, omega arith)
    evict_splits limit (b ∷ c ∷ bs) rows =
        ground (arith, evict_splits limit (c ∷ bs) (rows - length b.mappings))

    requeue-Settles : (b : Batch e) (s : State e) → Settles p b.mappings s (requeue e b s)
    unfolding requeue defer push_retry drop_overflow count_dropped batch_rows batch_count held
        held_rows
    requeue-Settles b s =
        let tried = (defer e b s).1 in
        let all = s.retry ++ tried ∷ [] in
        let rows = s.retry_rows + length b.mappings in
        let overflow = (evict e s.max_pending all rows).2 in
        ground (
          arith,
          evict_splits s.max_pending all rows,
          batch_count-append s.retry (tried ∷ []),
          batch_rows-append e s.retry (tried ∷ []),
          batch_count-le-rows overflow,
          count-le-length p b.mappings,
        )

    insert_commits :
        (rows : List (Mapping e)) (s : State e)
        → (insert e rows s).0 ≡ true
        → Settles p rows s (insert e rows s).1
    unfolding insert held held_rows
    insert_commits rows s h =
        ground (arith, count-append p s.written rows, length-append s.written rows)

    insert_fails :
        (rows : List (Mapping e)) (s : State e)
        → (insert e rows s).0 ≡ false
        → Settles p [] s (insert e rows s).1
    unfolding insert held held_rows count
    insert_fails rows s h = ground arith

    pub Settles-trans :
        (rows more : List (Mapping e)) (s t u : State e)
        → Settles p rows s t
        → Settles p more t u
        → Settles p (rows ++ more) s u
    Settles-trans rows more s t u h k =
        omega (
          arith,
          count-append p rows more,
          length-append rows more,
          h.kept,
          k.kept,
          h.exact,
          k.exact,
        )

    write_batch-Settles :
        (b : Batch e) (s : State e)
        → Settles p b.mappings s
            (let (done, s') = insert e b.mappings s in if done then s' else requeue e b s')
    write_batch-Settles b s =
        let (done, s') = insert e b.mappings s in
        elim (Bool-cases done) [
          | inl c ↦ rw c (insert_commits b.mappings s c)
          | inr f ↦ rw f (
              Settles-trans [] b.mappings s s' _ (insert_fails b.mappings s f)
                (requeue-Settles b s'))
        ]

    write-Settles :
        SingleModel
        → (objs : List e.Object) (s : State e) → Settles p (map row_of objs) s (write e objs s)
    unfolding write held held_rows count
    write-Settles same [] s = ground arith
    write-Settles same (first ∷ rest) s =
        let b : Batch e = new_batch e (to_mappings e first rest).0 (to_mappings e first rest).1 in
        subst (λ rows. Settles p rows s (write e (first ∷ rest) s))
          (to_mappings-rows same first rest) (write_batch-Settles b s)

    retry_batches-Settles :
        (bs : List (Batch e)) (s : State e)
        → (held p s + batch_count p bs + s.dropped
            ≤ held p (retry_batches e bs s) + (retry_batches e bs s).dropped)
          × (held_rows s + batch_rows e bs + s.dropped
              ≡ held_rows (retry_batches e bs s) + (retry_batches e bs s).dropped)
    unfolding retry_batches batch_count batch_rows
    retry_batches-Settles [] s = (omega arith, omega arith)
    retry_batches-Settles (b ∷ bs) s =
        let (done, s') = insert e b.mappings s in
        let next = if done then s' else requeue e b s' in
        let w = write_batch-Settles b s in
        let r = retry_batches-Settles bs next in
        (omega (arith, w.kept, r.0), omega (arith, w.exact, r.1))

    pub retry_due-Settles : (force : Bool) (s : State e) → Settles p [] s (retry_due e force s)
    unfolding retry_due take_due held held_rows count
    retry_due-Settles force s =
        let now = e.monotonic s.readings in
        let s' : State e = record s { readings = s.readings + 1 } in
        let (due, s'') = take_due e force now s' in
        let q = is_due e force now in
        ground (
          arith,
          retry_batches-Settles due s'',
          batch_count-select q s.retry,
          batch_rows-select e q s.retry,
        )

    -- Rows handed to `add` are written, wait, or are counted as dropped.
    pub add-Settles :
        SingleModel
        → (objs : List e.Object) (s : State e) → Settles p (map row_of objs) s (add e objs s)
    unfolding add extend held held_rows count
    add-Settles same objs s =
        let (flush_now, s') = extend e objs s in
        ground (
          arith,
          write-Settles same flush_now s',
          map-append row_of s.queue objs,
          length-append s.queue objs,
          count-append p (map row_of s.queue) (map row_of objs),
          length-map row_of objs,
          length-map row_of (s.queue ++ objs),
        )

    pub flush-Settles : SingleModel → (s : State e) → Settles p [] s (flush e s)
    unfolding flush take_queue held held_rows count
    flush-Settles same s =
        let r = retry_due e false s in
        let (batch, s') = take_queue e r in
        ground
          (arith, retry_due-Settles false s, write-Settles same batch s', length-map row_of batch)

    pub stop-Settles : SingleModel → (s : State e) → Settles p [] s (stop e s).0
    unfolding stop held held_rows
    stop-Settles same s =
        let s' : State e = record s { running = false } in
        ground (arith, flush-Settles same s', retry_due-Settles true (flush e s'))
