-- ===== src/WriteBuffer/Threads.antt =====
-- was/app/write_buffer.py under several threads: request threads in `add`, the flush thread, and
-- `stop`. A step is one locked section, or one insert with what follows it outside the lock, so
-- every interleaving of the methods is a sequence of steps.
use soltrace.Base.{
  ℕ, ◌+◌, ◌≡◌, refl, Bool, true, false, not, List, [], ◌∷◌, ◌++◌, arith, length, length-append,
  length-map, select, if◌then◌else◌,
}
use soltrace.WriteBuffer.{
  Env, Batch, State, batch_rows, push_retry, count_dropped, defer, insert, Mapping, new_batch,
  to_mappings, extend, take_due, is_due, take_queue, is_skipped, to_mapping,
}
use soltrace.WriteBuffer.Counters.{
  IsValid, batch_rows-append, batch_rows-select, take_due-IsValid, defer-IsValid, insert-IsValid,
  push_retry-IsValid,
}
use soltrace.WriteBuffer.Conservation.{held_rows, evict_splits}

module _ (e : Env) where
  -- `moving` are the batches that some thread has taken out and not yet written or put back, and
  -- `doomed` those pushed out of the queue and not yet counted by `_drop`.
  pub record Threads : Type 0 where
    pub shared : State e
    pub moving : List (Batch e)
    pub doomed : List (Batch e)

  -- what `_write` makes of the objects that it is given
  unfoldable pub as_batches : List e.Object → List (Batch e)
  as_batches [] = []
  as_batches (first ∷ rest) =
      let (model, rows) = to_mappings e first rest in new_batch e model rows ∷ []

  -- One step, in which `handed` objects enter through `add`.
  pub data Step (t u : Threads) : ℕ → Type 0 where
    -- the locked section of `add`
    adds :
        (objs : List e.Object) (handed : ℕ)
        → handed ≡ length objs
        → u ≡ record t {
          shared = (extend e objs t.shared).1;
          moving = t.moving ++ as_batches (extend e objs t.shared).0;
        }
        → Step t u handed
    -- the locked section of `_flush`
    flushes :
        (handed : ℕ)
        → handed ≡ 0
        → u ≡ record t {
          shared = (take_queue e t.shared).1;
          moving = t.moving ++ as_batches (take_queue e t.shared).0;
        }
        → Step t u handed
    -- the locked section of `_retry_due`, at a time read before
    takes_due :
        (force : Bool) (now handed : ℕ)
        → handed ≡ 0
        → u ≡ record t {
          shared = (take_due e force now t.shared).1;
          moving = t.moving ++ (take_due e force now t.shared).0;
        }
        → Step t u handed
    -- `_insert` of a batch that commits
    commits :
        (before after : List (Batch e)) (b : Batch e) (handed : ℕ)
        → handed ≡ 0
        → t.moving ≡ before ++ b ∷ after
        → (insert e b.mappings t.shared).0 ≡ true
        → u ≡ record t { shared = (insert e b.mappings t.shared).1; moving = before ++ after }
        → Step t u handed
    -- `_insert` fails and the batch has no try left
    gives_up :
        (before after : List (Batch e)) (b : Batch e) (handed : ℕ)
        → handed ≡ 0
        → t.moving ≡ before ++ b ∷ after
        → (insert e b.mappings t.shared).0 ≡ false
        → (defer e b (insert e b.mappings t.shared).1).0 ≡ false
        → u ≡ record {
          shared = (insert e b.mappings t.shared).1;
          moving = before ++ after;
          doomed = (defer e b (insert e b.mappings t.shared).1).1 ∷ t.doomed;
        }
        → Step t u handed
    -- `_insert` fails and `_requeue` puts the batch back
    puts_back :
        (before after : List (Batch e)) (b : Batch e) (handed : ℕ)
        → handed ≡ 0
        → t.moving ≡ before ++ b ∷ after
        → (insert e b.mappings t.shared).0 ≡ false
        → (defer e b (insert e b.mappings t.shared).1).0 ≡ true
        → u ≡ (
            let (again, b', s) = defer e b (insert e b.mappings t.shared).1 in
            let (overflow, s') = push_retry e b' s in
            record { shared = s'; moving = before ++ after; doomed = overflow ++ t.doomed })
        → Step t u handed
    -- the locked section of `_drop`
    counts :
        (handed : ℕ)
        → handed ≡ 0
        → u ≡ record t { shared = count_dropped e t.doomed t.shared; doomed = [] }
        → Step t u handed

  -- Any interleaving, and the number of objects that entered in it.
  pub data Run (t : Threads) : Threads → ℕ → Type 0 where
    here : Run t t 0
    next : {u v : Threads} {n m k : ℕ} → Run t u n → Step u v m → k ≡ n + m → Run t v k

  -- all rows, wherever they are
  pub accounted : Threads → ℕ
  accounted t =
      held_rows e t.shared + batch_rows e t.moving + batch_rows e t.doomed + t.shared.dropped

  length-as_batches : (objs : List e.Object) → batch_rows e (as_batches objs) ≡ length objs
  unfolding as_batches batch_rows to_mappings
  length-as_batches [] = refl
  length-as_batches (first ∷ rest) =
      let cols = select (λ key. not (is_skipped key)) (e.columns (e.model_of first)) in
      omega (arith, length-map (to_mapping e cols) rest)

  extend-accounted :
      (objs : List e.Object) (s : State e)
      → held_rows e (extend e objs s).1 + length (extend e objs s).0 + (extend e objs s).1.dropped
        ≡ held_rows e s + length objs + s.dropped
  unfolding extend held_rows
  extend-accounted objs s = ground (arith, length-append s.queue objs)

  take_due-accounted :
      (force : Bool) (now : ℕ) (s : State e)
      → held_rows e (take_due e force now s).1
          + batch_rows e (take_due e force now s).0
          + (take_due e force now s).1.dropped
        ≡ held_rows e s + s.dropped
  unfolding take_due held_rows
  take_due-accounted force now s = ground (arith, batch_rows-select e (is_due e force now) s.retry)

  insert-accounted :
      (rows : List (Mapping e)) (s : State e)
      → held_rows e (insert e rows s).1 + (insert e rows s).1.dropped
        ≡ held_rows e s + s.dropped + (if (insert e rows s).0 then length rows else 0)
  unfolding insert held_rows
  insert-accounted rows s = ground (arith, length-append s.written rows)

  defer-accounted :
      (b : Batch e) (s : State e)
      → (held_rows e (defer e b s).2 + (defer e b s).2.dropped ≡ held_rows e s + s.dropped)
        × ((defer e b s).1.mappings ≡ b.mappings)
  unfolding defer held_rows
  defer-accounted b s = ground arith

  push_retry-accounted :
      (b : Batch e) (s : State e)
      → held_rows e (push_retry e b s).1
          + batch_rows e (push_retry e b s).0
          + (push_retry e b s).1.dropped
        ≡ held_rows e s + length b.mappings + s.dropped
  unfolding push_retry held_rows batch_rows
  push_retry-accounted b s = ground (
    arith,
    batch_rows-append e s.retry (b ∷ []),
    (evict_splits e (λ m. true) s.max_pending (s.retry ++ b ∷ [])
        (s.retry_rows + length b.mappings)).1,
  )

  take_queue-accounted :
      (s : State e)
      → held_rows e (take_queue e s).1 + length (take_queue e s).0 + (take_queue e s).1.dropped
        ≡ held_rows e s + s.dropped
  unfolding take_queue held_rows
  take_queue-accounted s = ground arith

  count_dropped-accounted :
      (bs : List (Batch e)) (s : State e)
      → held_rows e (count_dropped e bs s) + (count_dropped e bs s).dropped
        ≡ held_rows e s + batch_rows e bs + s.dropped
  unfolding count_dropped held_rows
  count_dropped-accounted bs s = ground arith

  moved :
      (before after : List (Batch e)) (b : Batch e)
      → batch_rows e (before ++ b ∷ after) ≡ batch_rows e (before ++ after) + length b.mappings
  moved before after b =
      unfold batch_rows in
      omega (arith, batch_rows-append e before (b ∷ after), batch_rows-append e before after)

  Step-accounted : {t u : Threads} {n : ℕ} → Step t u n → accounted u ≡ accounted t + n
  unfolding accounted batch_rows
  Step-accounted {t} (adds objs handed h hu) =
      let (out, s) = extend e objs t.shared in
      rw hu (
        omega (
          arith,
          batch_rows-append e t.moving (as_batches out),
          length-as_batches out,
          extend-accounted objs t.shared,
        ))
  Step-accounted {t} (flushes handed h hu) =
      let (out, s) = take_queue e t.shared in
      rw hu (
        omega (
          arith,
          batch_rows-append e t.moving (as_batches out),
          length-as_batches out,
          take_queue-accounted t.shared,
        ))
  Step-accounted {t} (takes_due force now handed h hu) = rw hu (
      omega (
        arith,
        batch_rows-append e t.moving (take_due e force now t.shared).0,
        take_due-accounted force now t.shared,
      ))
  Step-accounted {t} (commits before after b handed h hm c hu) =
      rw hu (ground (arith, moved before after b, insert-accounted b.mappings t.shared))
  Step-accounted {t} (gives_up before after b handed h hm c g hu) =
      let s = (insert e b.mappings t.shared).1 in
      rw hu (
        ground
          (arith, moved before after b, insert-accounted b.mappings t.shared, defer-accounted b s))
  Step-accounted {t} (puts_back before after b handed h hm c g hu) =
      let s = (insert e b.mappings t.shared).1 in
      let (again, b', s') = defer e b s in
      rw hu (
        ground (
          arith,
          moved before after b,
          insert-accounted b.mappings t.shared,
          defer-accounted b s,
          push_retry-accounted b' s',
          batch_rows-append e (push_retry e b' s').0 t.doomed,
        ))
  Step-accounted {t} (counts handed h hu) =
      rw hu (ground (arith, count_dropped-accounted t.doomed t.shared))

  Step-IsValid : {t u : Threads} {n : ℕ} → Step t u n → IsValid e t.shared → IsValid e u.shared
  unfolding extend take_queue count_dropped
  Step-IsValid {t} (adds objs handed h hu) v = rw hu (ground arith)
  Step-IsValid {t} (flushes handed h hu) v = rw hu (ground arith)
  Step-IsValid {t} (takes_due force now handed h hu) v =
      rw hu (take_due-IsValid e force now t.shared v)
  Step-IsValid {t} (commits before after b handed h hm c hu) v =
      rw hu (insert-IsValid e b.mappings t.shared v)
  Step-IsValid {t} (gives_up before after b handed h hm c g hu) v =
      rw hu (insert-IsValid e b.mappings t.shared v)
  Step-IsValid {t} (puts_back before after b handed h hm c g hu) v =
      let s = (insert e b.mappings t.shared).1 in
      let (again, b', s') = defer e b s in
      rw hu
        (push_retry-IsValid e b' s' (defer-IsValid e b s (insert-IsValid e b.mappings t.shared v)))
  Step-IsValid {t} (counts handed h hu) v = rw hu (ground arith)

  -- In every interleaving of the locked sections and inserts of the threads, started with a
  -- valid retry counter, the rows that are written, wait, are in the hands of a thread, or are
  -- dropped and counted add up to those at the start and those handed in; and the retry counter
  -- stays exact and within its limit.
  pub Run-accounted :
      {t u : Threads} {n : ℕ}
      → Run t u n
      → IsValid e t.shared
      → (accounted u ≡ accounted t + n) × IsValid e u.shared
  Run-accounted here v = (omega arith, v)
  Run-accounted (next r st hk) v =
      let (same, valid) = Run-accounted r v in
      (omega (arith, Step-accounted st), Step-IsValid st valid)
