-- ===== src/Monitor/Eval.antt =====
-- was/app/service_monitor.py: `_eval_bucket` and `_mk`, in one function for each of the metrics.
pub mod Sound
use Prim.Native.String.{◌++◌ as str_append}
use soltrace.Base.{
  ℕ, zero, suc, ◌*◌, leb, Bool, true, false, not, ◌&&◌, ◌||◌, String, Option, none, some, List, [],
  ◌∷◌, ◌++◌, map, select, length, if◌then◌else◌,
}
use soltrace.Monitor.Alert.{
  Metric, fail_rate, throughput, login_fail_rate, cwd_fail_spike, Severity, warning, critical,
  Alert,
}
use soltrace.Monitor.Float.{Float, max_of, min_of, is_nonzero}
use soltrace.Monitor.Stats.{median, percentile, mad}

-- a row of `service_metrics`
pub record Metrics (f : Float) : Type 0 where
  pub device_id : ℕ
  pub bucket : ℕ
  pub transfers : ℕ
  pub transfer_fails : ℕ
  pub bytes : ℕ
  pub transfer_secs : f.R
  pub xfers_big : ℕ
  pub bytes_big : ℕ
  pub secs_big : f.R
  pub login_attempts : ℕ
  pub login_fails : ℕ
  pub cwd_fails : ℕ

-- the settings that the judgement reads
pub record Thresholds (f : Float) : Type 0 where
  pub mad_k : f.R
  pub fail_rate_floor : f.R
  pub login_fail_rate_floor : f.R
  pub throughput_drop : f.R
  pub throughput_slow_pct : f.R
  pub cwd_fail_floor : ℕ
  pub min_samples : ℕ
  pub min_login_samples : ℕ
  pub min_cwd_samples : ℕ
  pub min_large_samples : ℕ

-- `_SLOW_PCT_MIN_BUCKETS`
abbrev pub slow_pct_min_buckets : ℕ
slow_pct_min_buckets = 20

infixr 65 ◌<>◌
abbrev ◌<>◌ : String → String → String
a <> b = str_append a b

module _ (f : Float) where
  open f use {R, of_ℕ, ratio, sub, mul, div, add, lt, percent, megabytes, whole, trunc, show_ℕ}

  -- `_SIZE_MIX_TOLERANCE`, `_CRITICAL_RATIO`
  abbrev pub size_mix_tolerance : R
  size_mix_tolerance = of_ℕ 4

  abbrev pub critical_ratio : R
  critical_ratio = ratio 1 2

  abbrev pub div_ℕ : ℕ → ℕ → R
  div_ℕ a b = div (of_ℕ a) (of_ℕ b)

  unfoldable pub mk : Metrics f → Metric → Severity → R → Option R → R → ℕ → String → Alert R
  mk cand metric sev value baseline threshold n msg = record {
    device_id = cand.device_id;
    bucket = cand.bucket;
    metric = metric;
    severity = sev;
    value = value;
    baseline = baseline;
    threshold = some threshold;
    sample_count = n;
    message = msg;
  }

  -- the threshold of a metric where high is bad
  unfoldable pub high_threshold : R → List R → R → R
  high_threshold k base floor = elim (median f base) [
    | none ↦ floor
    | some med ↦ max_of f (add med (mul k (mad f base med))) floor
  ]

  abbrev pub severity_if : Bool → Severity
  severity_if bad = if bad then critical else warning

  unfoldable pub eval_fail_rate : Metrics f → List (Metrics f) → Thresholds f → List (Alert R)
  eval_fail_rate cand baseline cfg =
      if leb cfg.min_samples cand.transfers
      then (let value = div_ℕ cand.transfer_fails cand.transfers in
          let base =
            map (λ (r : Metrics f). div_ℕ r.transfer_fails r.transfers)
              (select (λ (r : Metrics f). leb cfg.min_samples r.transfers) baseline) in
          let thr = high_threshold cfg.mad_k base cfg.fail_rate_floor in
          if lt thr value && lt (of_ℕ 0) value
          then mk cand fail_rate
              (severity_if (not (lt value (max_of f (mul (of_ℕ 2) thr) (ratio 1 2))))) value
              (median f base) thr cand.transfers
              ("전송 실패율 " <> percent value <> "% (임계 " <> percent thr <> "%)")
            ∷ []
          else [])
      else []

  -- whether the mean size of the large files differs too much from the usual
  unfoldable pub is_mixed : Option R → R → Bool
  is_mixed none avg = false
  is_mixed (some base_avg) avg =
      is_nonzero f base_avg
      && not (
          not (lt avg (div base_avg size_mix_tolerance))
          && not (lt (mul base_avg size_mix_tolerance) avg))

  abbrev pub or_else : Option R → R → R
  or_else none d = d
  or_else (some x) d = x

  unfoldable pub low_threshold : Thresholds f → List R → R → R
  low_threshold cfg speeds med =
      let low =
        min_of f (sub med (mul cfg.mad_k (mad f speeds med)))
          (mul med (sub (of_ℕ 1) cfg.throughput_drop)) in
      if leb slow_pct_min_buckets (length speeds)
      then min_of f low (or_else (percentile f speeds cfg.throughput_slow_pct) low)
      else low

  -- the judgement of the speed, given the usual one
  abbrev pub judge_speed : Metrics f → Thresholds f → R → List R → Bool → Option R → List (Alert R)
  judge_speed cand cfg value speeds mixed none = []
  judge_speed cand cfg value speeds mixed (some med) =
      if is_nonzero f med && lt (of_ℕ 0) med && not mixed
      then (let low = low_threshold cfg speeds med in
          if lt value low
          then mk cand throughput (severity_if (lt value (mul low critical_ratio))) value (some med)
              low cand.xfers_big
              ("전송 속도 " <> megabytes value <> "MB/s (평소 " <> megabytes med <> "MB/s)")
            ∷ []
          else [])
      else []

  unfoldable pub eval_throughput : Metrics f → List (Metrics f) → Thresholds f → List (Alert R)
  eval_throughput cand baseline cfg =
      if leb cfg.min_large_samples cand.xfers_big && lt (of_ℕ 0) cand.secs_big
      then (let value = div (of_ℕ cand.bytes_big) cand.secs_big in
          let base_rows =
            select
              (λ (r : Metrics f). leb cfg.min_large_samples r.xfers_big && lt (of_ℕ 0) r.secs_big)
              baseline in
          let speeds = map (λ (r : Metrics f). div (of_ℕ r.bytes_big) r.secs_big) base_rows in
          let base_avg =
            median f (map (λ (r : Metrics f). div_ℕ r.bytes_big r.xfers_big) base_rows) in
          let mixed = is_mixed base_avg (div_ℕ cand.bytes_big cand.xfers_big) in
          judge_speed cand cfg value speeds mixed (median f speeds))
      else []

  unfoldable pub eval_login : Metrics f → List (Metrics f) → Thresholds f → List (Alert R)
  eval_login cand baseline cfg =
      if leb cfg.min_login_samples cand.login_attempts
      then (let value = div_ℕ cand.login_fails cand.login_attempts in
          let base =
            map (λ (r : Metrics f). div_ℕ r.login_fails r.login_attempts)
              (select (λ (r : Metrics f). leb cfg.min_login_samples r.login_attempts) baseline) in
          let thr = high_threshold cfg.mad_k base cfg.login_fail_rate_floor in
          if lt thr value && lt (of_ℕ 0) value
          then mk cand login_fail_rate
              (severity_if (not (lt value (max_of f (mul (of_ℕ 2) thr) (ratio 7 10))))) value
              (median f base) thr cand.login_attempts
              ("로그인 실패율 " <> percent value <> "% (임계 " <> percent thr <> "%)")
            ∷ []
          else [])
      else []

  unfoldable pub eval_cwd : Metrics f → List (Metrics f) → Thresholds f → List (Alert R)
  eval_cwd cand baseline cfg =
      if leb cfg.min_cwd_samples cand.cwd_fails
      then (let value = of_ℕ cand.cwd_fails in
          let base =
            map (λ (r : Metrics f). of_ℕ r.cwd_fails)
              (select (λ (r : Metrics f). leb cfg.min_cwd_samples r.cwd_fails) baseline) in
          let thr = high_threshold cfg.mad_k base (of_ℕ cfg.cwd_fail_floor) in
          if lt thr value
          then mk cand cwd_fail_spike (severity_if (not (lt value (mul (of_ℕ 2) thr)))) value
              (median f base) thr (trunc value)
              ("CWD 실패 " <> show_ℕ (trunc value) <> "건 급증 (임계 " <> whole thr <> "건)")
            ∷ []
          else [])
      else []

  unfoldable pub eval_bucket : Metrics f → List (Metrics f) → Thresholds f → List (Alert R)
  eval_bucket cand baseline cfg =
      eval_fail_rate cand baseline cfg
      ++ (eval_throughput cand baseline cfg
          ++ (eval_login cand baseline cfg ++ eval_cwd cand baseline cfg))
