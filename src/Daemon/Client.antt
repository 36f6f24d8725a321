-- ===== src/Daemon/Client.antt =====
-- ftp-daemon/soltrace_daemon.py: `WasClient`, with the answers of the server as a parameter: the
-- one to the n-th request. The server takes the logs of a request that it answers without an error.
pub mod Batches
pub mod Limits
use soltrace.Base.{
  ℕ, zero, suc, ◌+◌, ◌==◌, leb, ltb, Bool, true, false, not, ◌||◌, ◌&&◌, Option, none, some, List,
  [], ◌∷◌, ◌++◌, length, take, drop, if◌then◌else◌, min, max,
}

-- A status with the counts of the body, or an exception of requests: no connection, a timeout, or
-- a body that is not JSON.
pub data Reply : Type 0 where
  answer : ℕ → (accepted rejected : ℕ) → Reply
  broken : Reply

-- a status from 400 to 599
abbrev pub is_error : ℕ → Bool
is_error status = leb 400 status && ltb status 600

-- whether the server has taken the logs of a request, whatever the client makes of its answer
abbrev pub takes : Reply → Bool
takes broken = false
takes (answer status a r) = not (is_error status)

-- Python's `int`
pub data ℤ : Type 0 where
  pos : ℕ → ℤ
  negsuc : ℕ → ℤ

pub record Counts : Type 0 where
  pub accepted : ℕ
  pub rejected : ℕ

-- what a call returns, or the exception that it raises
pub data Outcome : Type 0 where
  sent : Counts → Outcome
  gave_up : Outcome
  disabled : Outcome
  removed : Outcome

pub record ClientConfig : Type 0 where
  pub retry_max : ℕ
  pub retry_delay : ℕ

-- `__init__`
unfoldable pub new_client : ℕ → ℕ → ClientConfig
new_client retry_max retry_delay = record {
  retry_max = max 1 retry_max;
  retry_delay = max 0 retry_delay;
}

-- `MAX_BATCH`
abbrev pub max_batch : ℕ
max_batch = 500

-- The requests made so far, the bodies posted to /ingest/logs, the entries that the server has taken,
-- and the seconds slept.
pub record Net {ℓ} (E : Type ℓ) : Type ℓ where
  pub turn : ℕ
  pub posted : List (List E)
  pub acked : List E
  pub slept : ℕ

pub data Verdict : Type 0 where
  accept : Counts → Verdict
  stop_disabled : Verdict
  stop_removed : Verdict
  try_again : Verdict

-- the tests of `_post` on the answer; `raise_for_status` raises from 400 to 599
unfoldable pub judge : Reply → Verdict
judge broken = try_again
judge (answer status a r) =
    if status == 403
    then stop_disabled
    else if status == 401 || status == 404
    then stop_removed
    else if leb 400 status && ltb status 600
    then try_again
    else accept (record { accepted = a; rejected = r })

-- `min(batch_size or self.MAX_BATCH, self.MAX_BATCH)`
unfoldable pub chunk_size : ℤ → ℤ
chunk_size (pos n) = pos (min (if n == 0 then max_batch else n) max_batch)
chunk_size (negsuc n) = negsuc n

abbrev pub no_counts : Counts
no_counts = record { accepted = 0; rejected = 0 }

abbrev pub add_counts : Counts → Counts → Counts
add_counts a b = record { accepted = a.accepted + b.accepted; rejected = a.rejected + b.rejected }

-- the pause before another attempt, which the last one has not
abbrev pub pause_before : ClientConfig → ℕ → ℕ
pause_before cfg zero = 0
pause_before cfg (suc n) = cfg.retry_delay

-- the loop of `send_logs` goes on after an answer, and returns or raises after anything else
abbrev pub go_on {ℓ} :
    {E : Type ℓ} → Outcome × Net E → (Counts → Net E → Outcome × Net E) → Outcome × Net E
go_on (sent counts, net) next = next counts net
go_on (gave_up, net) next = (gave_up, net)
go_on (disabled, net) next = (disabled, net)
go_on (removed, net) next = (removed, net)

module _ {ℓ} {E : Type ℓ} (replies : ℕ → Reply) (cfg : ClientConfig) where
  -- a request with its logs, as the server sees it
  abbrev pub served : List E → Net E → Net E
  served logs net = record net {
    turn = suc net.turn;
    acked = net.acked ++ (if takes (replies net.turn) then logs else []);
  }

  abbrev pub wait_retry : ℕ → Net E → Net E
  wait_retry n net = record net { slept = net.slept + pause_before cfg n }

  -- the branches of `_post` after an answer; `again` is the attempts that are left
  abbrev pub obey : Verdict → Net E → Outcome × Net E → Outcome × Net E
  obey (accept counts) net again = (sent counts, net)
  obey stop_disabled net again = (disabled, net)
  obey stop_removed net again = (removed, net)
  obey try_again net again = again

  -- `_post` with that many attempts left
  unfoldable pub post_from : ℕ → List E → Net E → Outcome × Net E
  post_from zero logs net = (gave_up, net)
  post_from (suc n) logs net =
      obey (judge (replies net.turn)) (served logs net)
        (post_from n logs (wait_retry n (served logs net)))

  unfoldable pub post : List E → Net E → Outcome × Net E
  post logs net = post_from cfg.retry_max logs net

  abbrev pub post_logs : List E → Net E → Outcome × Net E
  post_logs logs net = post logs (record net { posted = net.posted ++ logs ∷ [] })

  -- that loop, with fuel for the batches that are left
  unfoldable pub send_chunks : ℕ → ℕ → List E → Counts → Net E → Outcome × Net E
  send_chunks n size [] totals net = (sent totals, net)
  send_chunks zero size (e ∷ es) totals net = (gave_up, net)
  send_chunks (suc n) size (e ∷ es) totals net =
      go_on (post_logs (take size (e ∷ es)) net)
        (λ counts net'. send_chunks n size (drop size (e ∷ es)) (add_counts totals counts) net')

  -- the range over the batches, which is empty for a negative size
  abbrev pub send_batches : ℤ → List E → Net E → Outcome × Net E
  send_batches (pos size) entries net = send_chunks (length entries) size entries no_counts net
  send_batches (negsuc n) entries net = (sent no_counts, net)

  unfoldable pub send_logs : List E → ℤ → Net E → Outcome × Net E
  send_logs entries batch_size net = send_batches (chunk_size batch_size) entries net

  -- `register` and `heartbeat`, which carry no logs
  unfoldable pub post_status : Net E → Outcome × Net E
  post_status net = post [] net
