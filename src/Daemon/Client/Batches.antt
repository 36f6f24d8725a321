-- ===== src/Daemon/Client/Batches.antt =====
-- ftp-daemon/soltrace_daemon.py: what `WasClient.send_logs` has delivered when it returns or raises.
use soltrace.Base.{
  ℕ, zero, suc, ◌==◌, ◌||◌, Bool-cases, inl, inr, true, false, subst, if◌then◌else◌, arith, ◌++◌,
  ◌≡◌, ◌+◌, List, [], ◌∷◌, length, take, drop, refl, sym, ◌∙◌, ap, append-nil, append_assoc,
  take_add, take-append-drop,
}
use soltrace.Daemon.Client.{
  Net, Reply, answer, broken, is_error, takes, ℤ, pos, served, wait_retry, ClientConfig, Counts,
  Outcome, sent, gave_up, disabled, removed, post_from, obey, judge, post_logs, post, go_on,
  add_counts, send_chunks, send_logs, chunk_size,
}

-- A request that returns a result was taken by the server, after what it took before; another not.
abbrev pub HasPosted {ℓ} : {E : Type ℓ} (logs before : List E) → Outcome × Net E → Type ℓ
HasPosted logs before (sent c, net') = net'.acked ≡ before ++ logs
HasPosted logs before (_, net') = net'.acked ≡ before

-- Of a call that returns a result the server took all entries, in order; of another a prefix.
abbrev pub Delivers {ℓ} : {E : Type ℓ} (entries before : List E) → Outcome × Net E → Type ℓ
Delivers entries before (sent c, net') = net'.acked ≡ before ++ entries
Delivers entries before (_, net') = (k : ℕ) × (net'.acked ≡ before ++ take k entries)

module _ {ℓ} {E : Type ℓ} (replies : ℕ → Reply) (cfg : ClientConfig) where
  -- What the client makes of an answer agrees with what the server has taken.
  obey-HasPosted :
      (r : Reply) (logs before : List E) (after : Net E) (again : Outcome × Net E)
      → after.acked ≡ before ++ (if takes r then logs else [])
      → (takes r ≡ false → HasPosted logs before again)
      → HasPosted logs before (obey replies cfg (judge r) after again)
  unfolding judge
  obey-HasPosted broken logs before after again e h = h refl
  obey-HasPosted (answer status a r) logs before after again e h =
      let none_taken : is_error status ≡ true → after.acked ≡ before =
        λ error. e ∙ (rw error (append-nil before)) in
      elim (Bool-cases (status == 403)) [
        | inl k ↦ rw k (none_taken (ground arith))
        | inr not_disabled ↦ elim (Bool-cases (status == 401 || status == 404)) [
          | inl k ↦ rw (not_disabled, k) (none_taken (ground arith))
          | inr not_removed ↦ elim (Bool-cases (is_error status)) [
            | inl k ↦ rw (not_disabled, not_removed, k) (h (rw k refl))
            | inr k ↦ rw (not_disabled, not_removed, k) (e ∙ (rw k refl))
          ]
        ]
      ]

  pub post_from-HasPosted :
      (n : ℕ) (logs : List E) (net : Net E)
      → HasPosted logs net.acked (post_from replies cfg n logs net)
  unfolding post_from
  post_from-HasPosted zero logs net = refl
  post_from-HasPosted (suc n) logs net =
      let again =
        post_from replies cfg n logs (wait_retry replies cfg n (served replies cfg logs net)) in
      let rest =
        post_from-HasPosted n logs (wait_retry replies cfg n (served replies cfg logs net)) in
      obey-HasPosted (replies net.turn) logs net.acked (served replies cfg logs net) again refl
        (λ refused. subst (λ l. HasPosted logs l again) ((rw refused (append-nil net.acked))) rest)

  more_of :
      (size k : ℕ) (entries before mid after : List E)
      → mid ≡ before ++ take size entries
      → after ≡ mid ++ take k (drop size entries)
      → after ≡ before ++ take (size + k) entries
  more_of size k entries before mid after h d =
      d
      ∙ ap (λ x. x ++ take k (drop size entries)) h
      ∙ append_assoc before (take size entries) (take k (drop size entries))
      ∙ ap (λ x. before ++ x) (sym (take_add size k entries))

  after_batch :
      (size : ℕ) (entries before mid : List E) (r : Outcome × Net E)
      → mid ≡ before ++ take size entries
      → Delivers (drop size entries) mid r
      → Delivers entries before r
  after_batch size entries before mid (sent c, m) h d =
      d
      ∙ ap (λ x. x ++ drop size entries) h
      ∙ append_assoc before (take size entries) (drop size entries)
      ∙ ap (λ x. before ++ x) (take-append-drop size entries)
  after_batch size entries before mid (gave_up, m) h (k, d) =
      (size + k, more_of size k entries before mid _ h d)
  after_batch size entries before mid (disabled, m) h (k, d) =
      (size + k, more_of size k entries before mid _ h d)
  after_batch size entries before mid (removed, m) h (k, d) =
      (size + k, more_of size k entries before mid _ h d)

  go_on-Delivers :
      (size : ℕ) (entries before : List E) (next : Counts → Net E → Outcome × Net E)
      (r : Outcome × Net E)
      → HasPosted (take size entries) before r
      → ((c : Counts) (n : Net E) → Delivers (drop size entries) n.acked (next c n))
      → Delivers entries before (go_on r next)
  go_on-Delivers size entries before next (sent c, n) h k =
      after_batch size entries before n.acked (next c n) h (k c n)
  go_on-Delivers size entries before next (gave_up, n) h k = (0, h ∙ sym (append-nil before))
  go_on-Delivers size entries before next (disabled, n) h k = (0, h ∙ sym (append-nil before))
  go_on-Delivers size entries before next (removed, n) h k = (0, h ∙ sym (append-nil before))

  send_chunks-Delivers :
      (n size : ℕ) (entries : List E) (totals : Counts) (net : Net E)
      → Delivers entries net.acked (send_chunks replies cfg n size entries totals net)
  unfolding send_chunks post
  send_chunks-Delivers n size [] totals net = sym (append-nil net.acked)
  send_chunks-Delivers zero size (e ∷ es) totals net = (0, sym (append-nil net.acked))
  send_chunks-Delivers (suc n) size (e ∷ es) totals net =
      let logs = take size (e ∷ es) in
      go_on-Delivers size (e ∷ es) net.acked
        (λ c m. send_chunks replies cfg n size (drop size (e ∷ es)) (add_counts totals c) m)
        (post_logs replies cfg logs net)
        (post_from-HasPosted cfg.retry_max logs (record net { posted = net.posted ++ logs ∷ [] }))
        (λ c m. send_chunks-Delivers n size (drop size (e ∷ es)) (add_counts totals c) m)

  -- With a batch size that is not negative: when `send_logs` returns a result, the requests that
  -- the server took, which it answered without an error status, carry all entries in their order
  -- after those before; when it returns none or raises, a prefix of them.
  pub send_logs-Delivers :
      (entries : List E) (batch_size : ℕ) (net : Net E)
      → Delivers entries net.acked (send_logs replies cfg entries (pos batch_size) net)
  unfolding send_logs chunk_size
  send_logs-Delivers entries batch_size net = send_chunks-Delivers (length entries) _ entries _ net

  pub send_logs_of-Delivers :
      (entries : List E) (size : ℤ) (n : ℕ) (net : Net E)
      → size ≡ pos n
      → Delivers entries net.acked (send_logs replies cfg entries size net)
  send_logs_of-Delivers entries size n net e =
      subst (λ b. Delivers entries net.acked (send_logs replies cfg entries b net)) (sym e)
        (send_logs-Delivers entries n net)
