-- ===== src/WriteBuffer/Counters.antt =====
-- was/app/write_buffer.py: the row counter of the retry queue, and the limit on it.
use soltrace.Base.{
  false, true, ℕ, ◌+◌, ◌-◌, ◌≤◌, ◌≡◌, ◌⊎◌, inr, Bool, not, List, [], ◌∷◌, ◌++◌, arith, length,
  length-select, select, if◌then◌else◌,
}
use soltrace.WriteBuffer.{
  Env, Batch, State, batch_rows, evict, push_retry, drop_overflow, count_dropped, defer, requeue,
  insert, Mapping, new_batch, to_mappings, write, add, extend, take_due, is_due, retry_batches,
  retry_due, flush, take_queue, stop,
}

-- `_retry_rows` is the number of rows in `_retry`, so no subtraction from it goes below zero.
abbrev pub IsCounted : (e : Env) → State e → Type 0
IsCounted e s = s.retry_rows ≡ batch_rows e s.retry

-- `_retry` holds at most `_max_pending` rows, or one batch alone.
abbrev pub IsBounded : (e : Env) → State e → Type 0
IsBounded e s = (s.retry_rows ≤ s.max_pending) ⊎ (length s.retry ≤ 1)

pub record IsValid (e : Env) (s : State e) : Type 0 where
  pub counted : IsCounted e s
  pub bounded : IsBounded e s

module _ (e : Env) where
  pub batch_rows-append :
      (bs cs : List (Batch e)) → batch_rows e (bs ++ cs) ≡ batch_rows e bs + batch_rows e cs
  unfolding batch_rows
  batch_rows-append [] cs = omega arith
  batch_rows-append (b ∷ bs) cs = omega (arith, batch_rows-append bs cs)

  pub batch_rows-select :
      (p : Batch e → Bool) (bs : List (Batch e))
      → batch_rows e (select p bs) + batch_rows e (select (λ b. not (p b)) bs) ≡ batch_rows e bs
  unfolding batch_rows
  batch_rows-select p [] = omega arith
  batch_rows-select p (b ∷ bs) = ground (arith, batch_rows-select p bs)

  evict-IsValid :
      (limit : ℕ) (bs : List (Batch e)) (rows : ℕ)
      → rows ≡ batch_rows e bs
      → ((evict e limit bs rows).1 ≡ batch_rows e (evict e limit bs rows).0)
        × (((evict e limit bs rows).1 ≤ limit) ⊎ (length (evict e limit bs rows).0 ≤ 1))
  unfolding evict batch_rows
  evict-IsValid limit [] rows h = (h, inr (omega arith))
  evict-IsValid limit (b ∷ []) rows h = (h, inr (omega arith))
  evict-IsValid limit (b ∷ c ∷ bs) rows h =
      ground (arith, evict-IsValid limit (c ∷ bs) (rows - length b.mappings))

  pub push_retry-IsValid :
      (b : Batch e) (s : State e) → IsValid e s → IsValid e (push_retry e b s).1
  unfolding push_retry batch_rows
  push_retry-IsValid b s h = ground (
    arith,
    evict-IsValid s.max_pending (s.retry ++ b ∷ []) (s.retry_rows + length b.mappings),
    batch_rows-append s.retry (b ∷ []),
  )

  pub defer-IsValid : (b : Batch e) (s : State e) → IsValid e s → IsValid e (defer e b s).2
  unfolding defer
  defer-IsValid b s h = ground arith

  requeue-IsValid : (b : Batch e) (s : State e) → IsValid e s → IsValid e (requeue e b s)
  unfolding requeue drop_overflow count_dropped
  requeue-IsValid b s h =
      let (again, b', s') = defer e b s in
      ground (arith, defer-IsValid b s h, push_retry-IsValid b' s')

  pub insert-IsValid :
      (rows : List (Mapping e)) (s : State e) → IsValid e s → IsValid e (insert e rows s).1
  unfolding insert
  insert-IsValid rows s h = ground arith

  write-IsValid : (objs : List e.Object) (s : State e) → IsValid e s → IsValid e (write e objs s)
  unfolding write
  write-IsValid [] s h = h
  write-IsValid (first ∷ rest) s h =
      let (model, rows) = to_mappings e first rest in
      ground (
        arith,
        insert-IsValid rows s h,
        requeue-IsValid (new_batch e model rows) (insert e rows s).1,
      )

  -- Adding rows keeps the retry counter exact and the retry queue within its limit.
  pub add-IsValid : (objs : List e.Object) (s : State e) → IsValid e s → IsValid e (add e objs s)
  unfolding add extend
  add-IsValid objs s h =
      let (flush_now, s') = extend e objs s in ground (arith, write-IsValid flush_now s')

  retry_batches-IsValid :
      (bs : List (Batch e)) (s : State e) → IsValid e s → IsValid e (retry_batches e bs s)
  unfolding retry_batches
  retry_batches-IsValid [] s h = h
  retry_batches-IsValid (b ∷ bs) s h =
      let (done, s') = insert e b.mappings s in
      let v = insert-IsValid b.mappings s h in
      retry_batches-IsValid bs (if done then s' else requeue e b s')
        (ground (arith, v, requeue-IsValid b s' v))

  pub take_due-IsValid :
      (force : Bool) (now : ℕ) (s : State e) → IsValid e s → IsValid e (take_due e force now s).1
  unfolding take_due
  take_due-IsValid force now s h =
      let due = is_due e force now in
      ground (arith, batch_rows-select due s.retry, length-select (λ b. not (due b)) s.retry)

  pub retry_due-IsValid :
      (force : Bool) (s : State e) → IsValid e s → IsValid e (retry_due e force s)
  unfolding retry_due
  retry_due-IsValid force s h =
      let now = e.monotonic s.readings in
      let s' : State e = record s { readings = s.readings + 1 } in
      let (due, s'') = take_due e force now s' in
      retry_batches-IsValid due s''
        (take_due-IsValid force now s' (record { counted = h.counted; bounded = h.bounded }))

  pub flush-IsValid : (s : State e) → IsValid e s → IsValid e (flush e s)
  unfolding flush take_queue
  flush-IsValid s h =
      let (batch, s') = take_queue e (retry_due e false s) in
      ground (arith, retry_due-IsValid false s h, write-IsValid batch s')

  pub stop-IsValid : (s : State e) → IsValid e s → IsValid e (stop e s).0
  unfolding stop
  stop-IsValid s h =
      let s' : State e = record s { running = false } in
      ground (arith, flush-IsValid s', retry_due-IsValid true (flush e s'))
