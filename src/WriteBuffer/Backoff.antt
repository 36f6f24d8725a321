-- ===== src/WriteBuffer/Backoff.antt =====
-- was/app/write_buffer.py: when a failed batch is tried again, and when it is given up.
use native.Mathlib.Nat.{pow-le-pow_right, one-le-pow}
use soltrace.Base.{
  le→ltb, ℕ, ◌+◌, ◌-◌, ◌<◌, ◌≤◌, ◌≡◌, refl, false, not, List, [], ◌∷◌, ◌++◌, All, arith, length,
  select,
}
use soltrace.WriteBuffer.{
  Env, Batch, State, retry_base, retry_max, max_attempts, delay, batch_rows, evict, push_retry,
  drop_overflow, defer, requeue, take_due, is_due, retry_batches, retry_due,
}

-- The wait after the n-th failure is between the base and the maximum, and does not shrink with
-- n.
pub delay_bounds :
    (m n : ℕ) → m ≤ n → (retry_base ≤ delay m) × (delay m ≤ delay n) × (delay n ≤ retry_max)
unfolding delay
delay_bounds m n h = omega (
  arith,
  one-le-pow (m - 1) 2 (omega arith),
  pow-le-pow_right {n = 2} (omega arith) {i = m - 1} {j = n - 1} (omega arith),
)

module _ (e : Env) where
  evict_fits :
      (limit : ℕ) (bs : List (Batch e)) (rows : ℕ)
      → rows ≤ limit
      → evict e limit bs rows ≡ (bs, rows, [])
  unfolding evict
  evict_fits limit [] rows h = refl
  evict_fits limit (b ∷ []) rows h = refl
  evict_fits limit (b ∷ c ∷ bs) rows h = rw (le→ltb limit rows h)

  select_none :
      (now : ℕ) (bs : List (Batch e))
      → All (λ (b : Batch e). now < b.next_at) bs
      → (select (is_due e false now) bs ≡ []) × (select (λ b. not (is_due e false now b)) bs ≡ bs)
  unfolding is_due
  select_none now [] h = (refl, refl)
  select_none now (b ∷ bs) h = ground (arith, select_none now bs h.1)

  -- A failed batch that has tries left and fits waits at the end of the retry queue, with its
  -- wait counted from the reading of the clock, and nothing is dropped.
  pub requeue_keeps :
      (b : Batch e) (s : State e)
      → b.attempts + 1 < max_attempts
      → s.retry_rows + length b.mappings ≤ s.max_pending
      → let s' = requeue e b s in
        (s'.dropped ≡ s.dropped)
        × (s'.retry
            ≡ s.retry
              ++ record b {
                attempts = b.attempts + 1;
                next_at = e.monotonic s.readings + delay (b.attempts + 1);
              }
                ∷ [])
  unfolding requeue defer push_retry drop_overflow
  requeue_keeps b s tries fits =
      let tried : Batch e = record b {
        attempts = b.attempts + 1;
        next_at = e.monotonic s.readings + delay (b.attempts + 1);
      } in
      ground (
        arith,
        evict_fits s.max_pending (s.retry ++ tried ∷ []) (s.retry_rows + length b.mappings) fits,
      )

  -- `_retry_due` makes no insert while every wait is running, and changes no queue.
  pub retry_due_waits :
      (s : State e)
      → All (λ (b : Batch e). e.monotonic s.readings < b.next_at) s.retry
      → retry_due e false s ≡ record s { readings = s.readings + 1 }
  unfolding retry_due take_due retry_batches batch_rows
  retry_due_waits s h =
      let quiet = select_none (e.monotonic s.readings) s.retry h in
      rw (quiet.0) (rw (quiet.1) (ground arith))
