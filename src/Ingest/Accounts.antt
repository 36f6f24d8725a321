-- ===== src/Ingest/Accounts.antt =====
-- was/app/routers/ingest.py: what `ingest_logs` answers and hands to the write buffer.
use soltrace.Base.{
  ℕ, ◌+◌, ◌≡◌, refl, Bool, false, Option, none, some, List, [], ◌∷◌, All, length, map, select,
  Bool-cases, inl, inr, ap, arith,
}
use soltrace.Auth.Text.{Text}
use soltrace.Ingest.{
  LogEntry, FtpLog, Device, DeviceTable, LogBatch, Ingested, ingested, is_taken, take_logs,
  is_disabled, ingest_found, ingest_logs, find_device,
}

-- The accepted entries are those that pass the tests, in their order, as rows of the device; the
-- others are counted as rejected.
abbrev pub IsSplit : ℕ → List LogEntry → ℕ × ℕ × List FtpLog → Type 0
IsSplit device logs (accepted, rejected, rows) =
    (map (λ (r : FtpLog). r.entry) rows ≡ select is_taken logs)
    × All (λ (r : FtpLog). r.device_id ≡ device) rows
    × (accepted ≡ length rows)
    × (accepted + rejected ≡ length logs)

-- A refusal hands over no row.
abbrev pub Answers : DeviceTable → LogBatch → Ingested × List FtpLog → Type 0
Answers table batch (ingested accepted rejected, rows) =
    (d : Device) × (find_device batch.device_key table.devices ≡ some d)
    × (is_disabled d.status ≡ false)
    × IsSplit d.id batch.logs (accepted, rejected, rows)
Answers table batch (_, rows) = rows ≡ []

module _ (row_hash : ℕ → LogEntry → Text) where
  take_logs-IsSplit :
      (device : ℕ) (logs : List LogEntry) → IsSplit device logs (take_logs row_hash device logs)
  unfolding take_logs
  take_logs-IsSplit device [] = (refl, tt, refl, omega arith)
  take_logs-IsSplit device (e ∷ es) =
      let (same, own, n, total) = take_logs-IsSplit device es in
      elim (Bool-cases (is_taken e)) [
        | inl y ↦
            rw (y, take_logs)
              (ap (λ l. e ∷ l) same, (refl, own), omega (arith, n), omega (arith, total))
        | inr bad ↦ rw (bad, take_logs) (same, own, n, omega (arith, total))
      ]

  found-Answers :
      (saturated : Bool) (batch : LogBatch) (table : DeviceTable) (found : Option Device)
      → find_device batch.device_key table.devices ≡ found
      → Answers table batch (ingest_found row_hash saturated batch found)
  found-Answers saturated batch table none e = refl
  found-Answers saturated batch table (some d) e = elim (Bool-cases (is_disabled d.status)) [
    | inl y ↦ rw y refl
    | inr bad ↦ elim (Bool-cases saturated) [
      | inl s ↦ rw (bad, s) refl
      | inr s ↦ rw (bad, s) (d, e, bad, take_logs-IsSplit d.id batch.logs)
    ]
  ]

  -- `ingest_logs` takes logs only of a device that is known and not disabled: it hands over, as
  -- rows of the device, those that pass the tests, in their order, counts them as accepted and
  -- all others as rejected; when it refuses it hands over nothing.
  pub ingest_logs-Answers :
      (saturated : Bool) (batch : LogBatch) (table : DeviceTable)
      → Answers table batch (ingest_logs row_hash saturated batch table)
  unfolding ingest_logs
  ingest_logs-Answers saturated batch table =
      found-Answers saturated batch table (find_device batch.device_key table.devices) refl
