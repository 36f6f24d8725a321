-- ===== src/WriteBuffer/Calls.antt =====
-- was/app/write_buffer.py: any sequence of calls of the buffer's methods by one thread.
use soltrace.Base.{refl, ◌≡◌, Bool, List, [], ◌∷◌, ◌++◌, map, arith, append-nil, count}
use soltrace.WriteBuffer.{Env, State, Mapping, add, flush, retry_due, stop}
use soltrace.WriteBuffer.Counters.{
  IsValid, add-IsValid, retry_due-IsValid, flush-IsValid, stop-IsValid,
}
use soltrace.WriteBuffer.Conservation.{
  SingleModel, Settles, Settles-trans, row_of, add-Settles, flush-Settles, retry_due-Settles,
  stop-Settles,
}

module _ (e : Env) where
  pub data Call : Type 0 where
    adds : List e.Object → Call
    flushes : Call
    retries : Bool → Call
    stops : Call

  unfoldable pub call : Call → State e → State e
  call (adds objs) s = add e objs s
  call flushes s = flush e s
  call (retries force) s = retry_due e force s
  call stops s = (stop e s).0

  unfoldable pub run : List Call → State e → State e
  run [] s = s
  run (c ∷ cs) s = run cs (call c s)

  -- the rows that the calls hand in
  unfoldable pub entered : List Call → List (Mapping e)
  entered [] = []
  entered (adds objs ∷ cs) = map (row_of e) objs ++ entered cs
  entered (_ ∷ cs) = entered cs

  call-Settles :
      SingleModel e
      → (p : Mapping e → Bool) (c : Call) (s : State e)
      → Settles e p (entered (c ∷ [])) s (call c s)
  unfolding call entered
  call-Settles same p (adds objs) s = rw append-nil (add-Settles e p same objs s)
  call-Settles same p flushes s = flush-Settles e p same s
  call-Settles same p (retries force) s = retry_due-Settles e p force s
  call-Settles same p stops s = stop-Settles e p same s

  entered-cons : (c : Call) (cs : List Call) → entered (c ∷ cs) ≡ entered (c ∷ []) ++ entered cs
  unfolding entered
  entered-cons (adds objs) cs = rw append-nil
  entered-cons _ cs = refl

  call-IsValid : (c : Call) (s : State e) → IsValid e s → IsValid e (call c s)
  unfolding call
  call-IsValid (adds objs) s v = add-IsValid e objs s v
  call-IsValid flushes s v = flush-IsValid e s v
  call-IsValid (retries force) s v = retry_due-IsValid e force s v
  call-IsValid stops s v = stop-IsValid e s v

  -- When all rows are of one model, whatever methods are called in whatever order on a database
  -- that may refuse any insert: of the rows that pass a test, no more are missing from the
  -- written and the waiting ones than the count of dropped rows has grown by, and the total of
  -- all rows is exact.
  pub run-Settles :
      SingleModel e
      → (p : Mapping e → Bool) (cs : List Call) (s : State e)
      → Settles e p (entered cs) s (run cs s)
  unfolding run
  run-Settles same p [] s = unfold entered count in ground arith
  run-Settles same p (c ∷ cs) s = rw (entered-cons c cs) (
      Settles-trans e p (entered (c ∷ [])) (entered cs) s (call c s) (run cs (call c s))
        (call-Settles same p c s) (run-Settles same p cs (call c s)))

  -- After any calls the counter of the retry queue is exact, and the queue holds at most
  -- `max_pending` rows or a single batch, if this holds at the start.
  pub run-IsValid : (cs : List Call) (s : State e) → IsValid e s → IsValid e (run cs s)
  unfolding run
  run-IsValid [] s v = v
  run-IsValid (c ∷ cs) s v = run-IsValid cs (call c s) (call-IsValid c s v)
