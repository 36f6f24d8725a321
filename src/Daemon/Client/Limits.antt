-- ===== src/Daemon/Client/Limits.antt =====
-- ftp-daemon/soltrace_daemon.py: the sizes of the requests of `WasClient.send_logs`, and its end.
use soltrace.Base.{
  ℕ, zero, suc, true, All, ◌++◌, ◌≡◌, ◌≤◌, List, [], ◌∷◌, length, take, drop, refl, arith, sym,
  subst, All-append, length-take, length-drop,
}
use soltrace.Daemon.Client.{
  Net, Reply, answer, broken, takes, ℤ, pos, negsuc, no_counts, served, send_batches, ClientConfig,
  Counts, Outcome, sent, gave_up, disabled, removed, Verdict, accept, stop_disabled, stop_removed,
  try_again, post_from, obey, judge, post_logs, post, go_on, add_counts, send_chunks, send_logs,
  max_batch, chunk_size,
}

chunk_size-bounds :
    (n : ℕ) → (size : ℕ) × (chunk_size (pos n) ≡ pos size) × (1 ≤ size) × (size ≤ max_batch)
unfolding chunk_size
chunk_size-bounds n = (_, refl, ground arith, ground arith)

-- what the server takes in one request
abbrev pub IsSendable {ℓ} : {E : Type ℓ} → List E → Type 0
IsSendable logs = (1 ≤ length logs) × (length logs ≤ max_batch)

judge-accept : (r : Reply) → takes r ≡ true → (c : Counts) × (judge r ≡ accept c)
unfolding judge
judge-accept broken h = cc h
judge-accept (answer status a r) h = (record { accepted = a; rejected = r }, ground arith)

module _ {ℓ} {E : Type ℓ} (replies : ℕ → Reply) (cfg : ClientConfig) where
  obey-posted :
      (v : Verdict) (net : Net E) (again : Outcome × Net E) (posted : List (List E))
      → net.posted ≡ posted
      → again.1.posted ≡ posted
      → (obey replies cfg v net again).1.posted ≡ posted
  obey-posted (accept c) net again posted e h = e
  obey-posted stop_disabled net again posted e h = e
  obey-posted stop_removed net again posted e h = e
  obey-posted try_again net again posted e h = h

  post_from-posted :
      (n : ℕ) (logs : List E) (net : Net E)
      → (post_from replies cfg n logs net).1.posted ≡ net.posted
  unfolding post_from
  post_from-posted zero logs net = refl
  post_from-posted (suc n) logs net =
      obey-posted (judge (replies net.turn)) (served replies cfg logs net) _ net.posted refl
        (post_from-posted n logs _)

  go_on-posted :
      (r : Outcome × Net E) (next : Counts → Net E → Outcome × Net E)
      → All IsSendable r.1.posted
      → ((c : Counts) (n : Net E) → All IsSendable n.posted → All IsSendable (next c n).1.posted)
      → All IsSendable (go_on r next).1.posted
  go_on-posted (sent c, n) next h k = k c n h
  go_on-posted (gave_up, n) next h k = h
  go_on-posted (disabled, n) next h k = h
  go_on-posted (removed, n) next h k = h

  send_chunks-posted :
      (n size : ℕ) (entries : List E) (totals : Counts) (net : Net E)
      → 1 ≤ size
      → size ≤ max_batch
      → All IsSendable net.posted
      → All IsSendable (send_chunks replies cfg n size entries totals net).1.posted
  unfolding send_chunks post
  send_chunks-posted n size [] totals net lo hi h = h
  send_chunks-posted zero size (e ∷ es) totals net lo hi h = h
  send_chunks-posted (suc n) size (e ∷ es) totals net lo hi h =
      let logs = take size (e ∷ es) in
      let len = length-take size (e ∷ es) in
      let now = record net { posted = net.posted ++ logs ∷ [] } in
      let all : All IsSendable now.posted =
        All-append IsSendable net.posted (logs ∷ []) h
          ((omega (arith, len), omega (arith, len)), tt) in
      go_on-posted (post_logs replies cfg logs net)
        (λ c m. send_chunks replies cfg n size (drop size (e ∷ es)) (add_counts totals c) m)
        (subst (All IsSendable) (sym (post_from-posted cfg.retry_max logs now)) all)
        (λ c m. send_chunks-posted n size (drop size (e ∷ es)) (add_counts totals c) m lo hi)

  send_batches-IsSendable :
      (size : ℤ) (entries : List E) (net : Net E)
      → ((n : ℕ) → size ≡ pos n → (1 ≤ n) × (n ≤ max_batch))
      → All IsSendable net.posted
      → All IsSendable (send_batches replies cfg size entries net).1.posted
  send_batches-IsSendable (pos n) entries net b h =
      send_chunks-posted (length entries) n entries _ net (b n refl).0 (b n refl).1 h
  send_batches-IsSendable (negsuc n) entries net b h = h

  -- Every request of `send_logs` carries at least one entry and at most the 500 that the server
  -- takes, whatever integer is configured as the batch size, if this holds of the requests
  -- before.
  pub send_logs-IsSendable :
      (entries : List E) (batch_size : ℤ) (net : Net E)
      → All IsSendable net.posted
      → All IsSendable (send_logs replies cfg entries batch_size net).1.posted
  unfolding send_logs chunk_size
  send_logs-IsSendable entries (pos k) net h =
      let (size, e, lo, hi) = chunk_size-bounds k in
      send_batches-IsSendable (chunk_size (pos k)) entries net (λ n q. ground arith) h
  send_logs-IsSendable entries (negsuc k) net h = h

  -- where no request meets an error, each is accepted at once
  module _ (all_taken : (n : ℕ) → takes (replies n) ≡ true) (tries : 1 ≤ cfg.retry_max) where
    post_from_accepts :
        (n : ℕ) (logs : List E) (net : Net E)
        → 1 ≤ n
        → (c : Counts) × (post_from replies cfg n logs net ≡ (sent c, served replies cfg logs net))
    unfolding post_from
    post_from_accepts zero logs net h = ground arith
    post_from_accepts (suc n) logs net h =
        let (c, e) = judge-accept (replies net.turn) (all_taken net.turn) in (c, rw e refl)

    send_chunks_sends :
        (n size : ℕ) (entries : List E) (totals : Counts) (net : Net E)
        → 1 ≤ size
        → length entries ≤ n
        → (c : Counts) × ((send_chunks replies cfg n size entries totals net).0 ≡ sent c)
    unfolding send_chunks post
    send_chunks_sends n size [] totals net lo h = (totals, refl)
    send_chunks_sends zero size (e ∷ es) totals net lo h = ground arith
    send_chunks_sends (suc n) size (e ∷ es) totals net lo h =
        let logs = take size (e ∷ es) in
        let now = record net { posted = net.posted ++ logs ∷ [] } in
        let (c, p) = post_from_accepts cfg.retry_max logs now tries in
        let len = length-drop size (e ∷ es) in
        let (c', q) =
          send_chunks_sends n size (drop size (e ∷ es)) (add_counts totals c)
            (served replies cfg logs now) lo (omega (arith, len)) in
        (c', rw p q)

    -- If the server answers every request without an error status and the client tries at least
    -- once, `send_logs` with a batch size that is not negative returns a result, for any
    -- entries.
    pub send_logs_sends :
        (entries : List E) (batch_size : ℕ) (net : Net E)
        → (c : Counts) × ((send_logs replies cfg entries (pos batch_size) net).0 ≡ sent c)
    unfolding send_logs chunk_size
    send_logs_sends entries batch_size net =
        let b = chunk_size-bounds batch_size in
        send_chunks_sends (length entries) _ entries no_counts net (ground arith) (omega arith)
