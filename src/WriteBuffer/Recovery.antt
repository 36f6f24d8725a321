-- ===== src/WriteBuffer/Recovery.antt =====
-- was/app/write_buffer.py: once the database commits again, `stop` writes all that waits.
use soltrace.Base.{
  ℕ, ◌+◌, ◌≤◌, ◌≡◌, refl, ◌∙◌, Bool, true, false, not, List, [], ◌∷◌, ◌++◌, arith, length, select,
  count,
}
use soltrace.WriteBuffer.{
  Env, Batch, State, Mapping, batch_rows, insert, write, to_mappings, take_queue, flush,
  pending_rows, take_due, is_due, retry_batches, retry_due, stop,
}
use soltrace.WriteBuffer.Counters.{IsCounted, batch_rows-select}
use soltrace.WriteBuffer.Conservation.{SingleModel, held, held_rows, batch_count, stop-Settles}

module _ (e : Env) where
  -- every insert from the n-th on commits
  abbrev pub IsUp : ℕ → Type 0
  IsUp n = (k : ℕ) → n ≤ k → e.commits k ≡ true

  -- the state after an insert that commits
  abbrev committed : List (Mapping e) → State e → State e
  committed rows s = record s { inserts = s.inserts + 1; written = s.written ++ rows }

  insert_up :
      (rows : List (Mapping e)) (s : State e)
      → IsUp s.inserts
      → insert e rows s ≡ (true, committed rows s)
  unfolding insert
  insert_up rows s up = let c = up s.inserts (omega arith) in rw c

  IsUp-later : (m n : ℕ) → m ≤ n → IsUp m → IsUp n
  IsUp-later m n h up k le = up k (omega arith)

  retry_batches_up :
      (bs : List (Batch e)) (s : State e)
      → IsUp s.inserts
      → let s' = retry_batches e bs s in
        (s'.dropped ≡ s.dropped)
        × (s.inserts ≤ s'.inserts)
        × (s'.retry ≡ s.retry)
        × (s'.retry_rows ≡ s.retry_rows)
        × (s'.queue ≡ s.queue)
  unfolding retry_batches
  retry_batches_up [] s up = ground arith
  retry_batches_up (b ∷ bs) s up =
      rw (insert_up b.mappings s up, retry_batches)
        (ground (
          arith,
          retry_batches_up bs (committed b.mappings s)
              (IsUp-later s.inserts (s.inserts + 1) (omega arith) up),
        ))

  write_up :
      (objs : List e.Object) (s : State e)
      → IsUp s.inserts
      → let s' = write e objs s in
        (s'.dropped ≡ s.dropped)
        × (s.inserts ≤ s'.inserts)
        × (s'.retry ≡ s.retry)
        × (s'.retry_rows ≡ s.retry_rows)
        × (s'.queue ≡ s.queue)
  unfolding write
  write_up [] s up = ground arith
  write_up (first ∷ rest) s up =
      rw (insert_up (to_mappings e first rest).1 s up, write) (ground arith)

  retry_due_up :
      (force : Bool) (s : State e)
      → IsUp s.inserts
      → IsCounted e s
      → let s' = retry_due e force s in
        (s'.dropped ≡ s.dropped) × (s.inserts ≤ s'.inserts) × IsCounted e s' × (s'.queue ≡ s.queue)
  unfolding retry_due take_due
  retry_due_up force s up c =
      let now = e.monotonic s.readings in
      let s' : State e = record s { readings = s.readings + 1 } in
      let due = is_due e force now in
      ground (
        arith,
        batch_rows-select e due s.retry,
        retry_batches_up (take_due e force now s').0 (take_due e force now s').1 up,
      )

  select_forced : (now : ℕ) (bs : List (Batch e)) → select (λ b. not (is_due e true now b)) bs ≡ []
  unfolding is_due
  select_forced now [] = refl
  select_forced now (b ∷ bs) = select_forced now bs

  forced_empties : (s : State e) → IsUp s.inserts → (retry_due e true s).retry ≡ []
  unfolding retry_due take_due
  forced_empties s up =
      let now = e.monotonic s.readings in
      let s' : State e = record s { readings = s.readings + 1 } in
      ground (
        arith,
        select_forced now s.retry,
        retry_batches_up (take_due e true now s').0 (take_due e true now s').1 up,
      )

  flush_up :
      (s : State e)
      → IsUp s.inserts
      → IsCounted e s
      → let s' = flush e s in
        (s'.dropped ≡ s.dropped) × (s.inserts ≤ s'.inserts) × IsCounted e s' × (s'.queue ≡ [])
  unfolding flush take_queue
  flush_up s up c =
      let r = retry_due e false s in
      let d = retry_due_up false s up c in
      ground (
        arith,
        d,
        write_up (take_queue e r).0 (take_queue e r).1 (IsUp-later s.inserts r.inserts d.1 up),
      )

  drained_holds :
      (p : Mapping e → Bool) (s : State e)
      → s.queue ≡ []
      → s.retry ≡ []
      → (held e p s ≡ count p s.written) × (held_rows e s ≡ length s.written)
  unfolding held held_rows batch_count batch_rows count
  drained_holds p s hq hr = (ground arith, ground arith)

  drained_pending :
      (s : State e) → IsCounted e s → s.queue ≡ [] → s.retry ≡ [] → pending_rows e s ≡ 0
  unfolding pending_rows batch_rows
  drained_pending s c hq hr = ground arith

  -- If the rows are of one model, the counter is exact and every insert commits from now on,
  -- `stop` leaves no row waiting and drops none, and every row that was written or waited is
  -- written then.
  pub stop_writes_all :
      SingleModel e
      → (s : State e) → IsCounted e s
      → IsUp s.inserts
      → (p : Mapping e → Bool)
      → let (s', lost) = stop e s in
        (lost ≡ 0)
        × (s'.dropped ≡ s.dropped)
        × (held e p s ≤ count p s'.written)
        × (held_rows e s ≡ length s'.written)
  unfolding stop pending_rows
  stop_writes_all same s c up p =
      let s₁ : State e = record s { running = false } in
      let f = flush_up s₁ up c in
      let s₂ = flush e s₁ in
      let up₂ = IsUp-later s.inserts s₂.inserts f.1 up in
      let r = retry_due_up true s₂ up₂ f.2 in
      let gone = forced_empties s₂ up₂ in
      let kept = stop-Settles e p same s in
      let s₃ = retry_due e true s₂ in
      let drained = drained_holds p s₃ (r.3 ∙ f.3) gone in
      (
        drained_pending s₃ r.2 (r.3 ∙ f.3) gone,
        r.0 ∙ f.0,
        omega (arith, kept.kept, drained.0, r.0, f.0),
        omega (arith, kept.exact, drained.1, r.0, f.0),
      )
