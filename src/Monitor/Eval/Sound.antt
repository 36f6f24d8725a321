-- ===== src/Monitor/Eval/Sound.antt =====
-- was/app/service_monitor.py: what an alert of `_eval_bucket` says of the bucket.
use soltrace.Base.{
  leb→le, refl, ◌≤◌, ◌≡◌, leb, Bool, true, false, not, ◌&&◌, Option, none, some, List, [], ◌∷◌, All,
  All-append, arith, inl, inr, Option-cases, if◌then◌else◌,
}
use soltrace.Monitor.Alert.{Metric, fail_rate, throughput, login_fail_rate, cwd_fail_spike, Alert}
use soltrace.Monitor.Float.{is_nonzero, Float, min_of, lt-max_of, lt-min_of}
use soltrace.Monitor.Stats.{median, percentile, mad}
use soltrace.Monitor.Eval.{
  judge_speed, Metrics, Thresholds, mk, high_threshold, low_threshold, div_ℕ, eval_fail_rate,
  eval_throughput, eval_login, eval_cwd, eval_bucket,
}

module _ (f : Float) where
  open f use {R, of_ℕ, sub, mul, div, lt}

  -- What an alert of a metric rests on: enough samples, a value beyond the floor of the settings,
  -- and for the speed a usual speed that it falls short of by the given share.
  abbrev pub Rests : Metrics f → Thresholds f → Metric → Alert R → Type 0
  Rests cand cfg fail_rate a =
      (cfg.min_samples ≤ cand.transfers)
      × (a.value ≡ div_ℕ f cand.transfer_fails cand.transfers)
      × (lt cfg.fail_rate_floor a.value ≡ true)
      × (lt (of_ℕ 0) a.value ≡ true)
  Rests cand cfg throughput a =
      (cfg.min_large_samples ≤ cand.xfers_big)
      × (a.value ≡ div (of_ℕ cand.bytes_big) cand.secs_big)
      × ((usual : R) × (a.baseline ≡ some usual)
          × (lt (of_ℕ 0) usual ≡ true)
          × (lt a.value (mul usual (sub (of_ℕ 1) cfg.throughput_drop)) ≡ true))
  Rests cand cfg login_fail_rate a =
      (cfg.min_login_samples ≤ cand.login_attempts)
      × (a.value ≡ div_ℕ f cand.login_fails cand.login_attempts)
      × (lt cfg.login_fail_rate_floor a.value ≡ true)
      × (lt (of_ℕ 0) a.value ≡ true)
  Rests cand cfg cwd_fail_spike a =
      (cfg.min_cwd_samples ≤ cand.cwd_fails)
      × (a.value ≡ of_ℕ cand.cwd_fails)
      × (lt (of_ℕ cfg.cwd_fail_floor) a.value ≡ true)

  pub record IsFounded (cand : Metrics f) (cfg : Thresholds f) (a : Alert R) : Type 0 where
    pub device : a.device_id ≡ cand.device_id
    pub bucket : a.bucket ≡ cand.bucket
    pub rests : Rests cand cfg a.metric a

  high_threshold-floor :
      (k : R) (base : List R) (floor v : R)
      → lt (high_threshold f k base floor) v ≡ true
      → lt floor v ≡ true
  unfolding high_threshold
  high_threshold-floor k base floor v h = elim (Option-cases (median f base)) [
    | inl no_base ↦ ground arith
    | inr (med, e) ↦ ground (arith, lt-max_of f (f.add med (mul k (mad f base med))) floor v)
  ]

  low_threshold-drop :
      (cfg : Thresholds f) (speeds : List R) (med v : R)
      → lt v (low_threshold f cfg speeds med) ≡ true
      → lt v (mul med (sub (of_ℕ 1) cfg.throughput_drop)) ≡ true
  unfolding low_threshold
  low_threshold-drop cfg speeds med v h =
      let slow = sub med (mul cfg.mad_k (mad f speeds med)) in
      let drop = mul med (sub (of_ℕ 1) cfg.throughput_drop) in
      elim (Option-cases (percentile f speeds cfg.throughput_slow_pct)) [
        | inl no_slow ↦ ground (
          arith,
          lt-min_of f slow drop v,
          lt-min_of f (min_of f slow drop) (min_of f slow drop) v,
        )
        | inr (p, e) ↦ ground (arith, lt-min_of f slow drop v, lt-min_of f (min_of f slow drop) p v)
      ]

  -- An alert under a guard is judged under the guard.
  All-guard :
      (P : Alert R → Type 0) (b : Bool) (xs : List (Alert R))
      → ((b ≡ true) → All P xs)
      → All P (if b then xs else [])
  All-guard P true xs h = h refl
  All-guard P false xs h = tt

  All-alert :
      (P : Alert R → Type 0) (b : Bool) (a : Alert R)
      → ((b ≡ true) → P a)
      → All P (if b then a ∷ [] else [])
  All-alert P true a h = (h refl, tt)
  All-alert P false a h = tt

  both : (a b : Bool) → (a && b ≡ true) → (a ≡ true) × (b ≡ true)
  both a b h = ground arith

  eval_fail_rate-IsFounded :
      (cand : Metrics f) (baseline : List (Metrics f)) (cfg : Thresholds f)
      → All (IsFounded cand cfg) (eval_fail_rate f cand baseline cfg)
  unfolding eval_fail_rate mk
  eval_fail_rate-IsFounded cand baseline cfg =
      All-guard (IsFounded cand cfg) (leb cfg.min_samples cand.transfers) _ (λ enough.
        All-alert (IsFounded cand cfg) _ _ (λ bad. record {
          device = refl;
          bucket = refl;
          rests =
              (ground arith, refl, high_threshold-floor _ _ _ _ (both _ _ bad).0, (both _ _ bad).1);
        }))

  eval_login-IsFounded :
      (cand : Metrics f) (baseline : List (Metrics f)) (cfg : Thresholds f)
      → All (IsFounded cand cfg) (eval_login f cand baseline cfg)
  unfolding eval_login mk
  eval_login-IsFounded cand baseline cfg =
      All-guard (IsFounded cand cfg) (leb cfg.min_login_samples cand.login_attempts) _ (λ enough.
        All-alert (IsFounded cand cfg) _ _ (λ bad. record {
          device = refl;
          bucket = refl;
          rests =
              (ground arith, refl, high_threshold-floor _ _ _ _ (both _ _ bad).0, (both _ _ bad).1);
        }))

  eval_cwd-IsFounded :
      (cand : Metrics f) (baseline : List (Metrics f)) (cfg : Thresholds f)
      → All (IsFounded cand cfg) (eval_cwd f cand baseline cfg)
  unfolding eval_cwd mk
  eval_cwd-IsFounded cand baseline cfg =
      All-guard (IsFounded cand cfg) (leb cfg.min_cwd_samples cand.cwd_fails) _ (λ enough.
        All-alert (IsFounded cand cfg) _ _ (λ bad. record {
          device = refl;
          bucket = refl;
          rests = (ground arith, refl, high_threshold-floor _ _ _ _ bad);
        }))

  judge_speed-IsFounded :
      (cand : Metrics f) (cfg : Thresholds f) (speeds : List R) (mixed : Bool) (usual : Option R)
      → (cfg.min_large_samples ≤ cand.xfers_big)
      → All
          (IsFounded cand cfg)
          (judge_speed f cand cfg (div (of_ℕ cand.bytes_big) cand.secs_big) speeds mixed usual)
  unfolding mk
  judge_speed-IsFounded cand cfg speeds mixed none enough = tt
  judge_speed-IsFounded cand cfg speeds mixed (some med) enough =
      let value = div (of_ℕ cand.bytes_big) cand.secs_big in
      let low = low_threshold f cfg speeds med in
      All-guard (IsFounded cand cfg) (is_nonzero f med && lt (of_ℕ 0) med && not mixed) _ (λ fit.
        All-alert (IsFounded cand cfg) (lt value low) _ (λ slow.
          let usual =
            both (is_nonzero f med) (lt (of_ℕ 0) med)
              (both (is_nonzero f med && lt (of_ℕ 0) med) (not mixed) fit).0 in
          record {
            device = refl;
            bucket = refl;
            rests =
                (enough, refl, (med, refl, usual.1, low_threshold-drop cfg speeds med value slow));
          }))

  eval_throughput-IsFounded :
      (cand : Metrics f) (baseline : List (Metrics f)) (cfg : Thresholds f)
      → All (IsFounded cand cfg) (eval_throughput f cand baseline cfg)
  unfolding eval_throughput
  eval_throughput-IsFounded cand baseline cfg =
      All-guard (IsFounded cand cfg)
        (leb cfg.min_large_samples cand.xfers_big && lt (of_ℕ 0) cand.secs_big) _
        (λ enough. judge_speed-IsFounded cand cfg _ _ _ (leb→le _ _ (both _ _ enough).0))

  -- Every alert about a bucket names the bucket's device and time, has the samples that its
  -- metric asks for and the bucket's value, exceeds the floor of the settings, and for the speed
  -- falls short of a positive usual speed by more than the share of the settings.
  pub eval_bucket-IsFounded :
      (cand : Metrics f) (baseline : List (Metrics f)) (cfg : Thresholds f)
      → All (IsFounded cand cfg) (eval_bucket f cand baseline cfg)
  unfolding eval_bucket
  eval_bucket-IsFounded cand baseline cfg =
      All-append _ _ _ (eval_fail_rate-IsFounded cand baseline cfg) (
        All-append _ _ _ (eval_throughput-IsFounded cand baseline cfg) (
          All-append _ _ _ (eval_login-IsFounded cand baseline cfg)
            (eval_cwd-IsFounded cand baseline cfg)))
