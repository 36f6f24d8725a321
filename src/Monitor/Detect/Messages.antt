-- ===== src/Monitor/Detect/Messages.antt =====
-- was/app/service_monitor.py: the annotations and the sorting of the alerts that `_detect` found.
use soltrace.Base.{
  ℕ, ◌≡◌, refl, ◌∙◌, sym, ap, subst, Bool-cases, inl, inr, Option, none, some, String, List, [],
  ◌∷◌, All,
}
use soltrace.Monitor.Alert.{
  Metric, fail_rate, throughput, login_fail_rate, cwd_fail_spike, metric_eq, Alert,
}
use soltrace.Monitor.Float.{Float}
use soltrace.Monitor.Eval.{Metrics, Thresholds}
use soltrace.Monitor.Eval.Sound.{IsFounded, Rests}
use soltrace.Monitor.Detect.{
  LoginRow, Logs, given_path, is_before, insert_alert, sort_alerts, with_path, annotate_cwd,
  with_accounts, annotate_login, annotate,
}

module _ {V : Type 0} (P : Alert V → Type 0) where
  pub All-insert : (a : Alert V) (xs : List (Alert V)) → P a → All P xs → All P (insert_alert a xs)
  unfolding insert_alert
  All-insert a [] p h = (p, tt)
  All-insert a (x ∷ xs) p h = elim (Bool-cases (is_before x a)) [
    | inl e ↦ rw e (h.0, All-insert a xs p h.1)
    | inr e ↦ rw e (p, h)
  ]

  pub All-inserted :
      (a : Alert V) (xs : List (Alert V)) → All P (insert_alert a xs) → P a × All P xs
  unfolding insert_alert
  All-inserted a [] h = h
  All-inserted a (x ∷ xs) h = elim (Bool-cases (is_before x a)) [
    | inl e ↦ let k = rw e at h in let r = All-inserted a xs k.1 in (r.0, (k.0, r.1))
    | inr e ↦ rw e at h
  ]

  pub All-sort : (xs : List (Alert V)) → All P xs → All P (sort_alerts xs)
  unfolding sort_alerts
  All-sort [] h = tt
  All-sort (a ∷ xs) h = All-insert a (sort_alerts xs) h.0 (All-sort xs h.1)

  pub All-sorted : (xs : List (Alert V)) → All P (sort_alerts xs) → All P xs
  unfolding sort_alerts
  All-sorted [] h = tt
  All-sorted (a ∷ xs) h = let r = All-inserted a (sort_alerts xs) h in (r.0, All-sorted xs r.1)

-- another message
abbrev pub set_message : {R : Type 0} → String → Alert R → Alert R
set_message text a = record a { message = text }

module _ (f : Float) where
  open f use {R}

  set_message-Rests :
      (cand : Metrics f) (cfg : Thresholds f) (text : String) (a : Alert R) (m : Metric)
      → Rests f cand cfg m a
      → Rests f cand cfg m (set_message text a)
  set_message-Rests cand cfg text a fail_rate h = h
  set_message-Rests cand cfg text a throughput h = h
  set_message-Rests cand cfg text a login_fail_rate h = h
  set_message-Rests cand cfg text a cwd_fail_spike h = h

  pub set_message-IsFounded :
      (cand : Metrics f) (cfg : Thresholds f) (text : String) (a : Alert R)
      → IsFounded f cand cfg a
      → IsFounded f cand cfg (set_message text a)
  set_message-IsFounded cand cfg text a h = record {
    device = h.device;
    bucket = h.bucket;
    rests = set_message-Rests cand cfg text a a.metric h.rests;
  }

  -- An annotation changes the message alone.
  abbrev Annotates : Alert R → Alert R → Type 0
  Annotates a b = (text : String) × (b ≡ set_message text a)

  with_path-Annotates : (o : Option (String × ℕ)) (a : Alert R) → Annotates a (with_path f o a)
  with_path-Annotates none a = (a.message, refl)
  with_path-Annotates (some (path, n)) a = (_, refl)

  with_accounts-Annotates :
      (rows : List LoginRow) (a : Alert R) → Annotates a (with_accounts f rows a)
  with_accounts-Annotates [] a = (a.message, refl)
  with_accounts-Annotates (r ∷ rest) a = (_, refl)

  annotate_cwd-Annotates : (logs : Logs) (a : Alert R) → Annotates a (annotate_cwd f logs a)
  unfolding annotate_cwd
  annotate_cwd-Annotates logs a = elim (Bool-cases (metric_eq a.metric cwd_fail_spike)) [
    | inl e ↦ rw e (with_path-Annotates (given_path (logs.cwd_top a.device_id a.bucket)) a)
    | inr e ↦ rw e (a.message, refl)
  ]

  annotate_login-Annotates : (logs : Logs) (a : Alert R) → Annotates a (annotate_login f logs a)
  unfolding annotate_login
  annotate_login-Annotates logs a = elim (Bool-cases (metric_eq a.metric login_fail_rate)) [
    | inl e ↦ rw e (with_accounts-Annotates (logs.login_top a.device_id a.bucket) a)
    | inr e ↦ rw e (a.message, refl)
  ]

  annotated :
      (logs : Logs) (a : Alert R) → Annotates a (annotate_login f logs (annotate_cwd f logs a))
  annotated logs a =
      let b = annotate_cwd f logs a in
      let (t, e) = annotate_cwd-Annotates logs a in
      let (t', e') = annotate_login-Annotates logs b in (t', e' ∙ ap (set_message t') e)

  module _ (P : Alert R → Type 0) (logs : Logs) where
    pub annotate-All :
        ((text : String) (a : Alert R) → P a → P (set_message text a))
        → (alerts : List (Alert R)) → All P alerts
        → All P (annotate f logs alerts)
    annotate-All ignores [] h = tt
    annotate-All ignores (a ∷ rest) h =
        let (t, e) = annotated logs a in
        (subst P (sym e) (ignores t a h.0), annotate-All ignores rest h.1)

    pub All-annotated :
        ((text : String) (a : Alert R) → P (set_message text a) → P a)
        → (alerts : List (Alert R)) → All P (annotate f logs alerts)
        → All P alerts
    All-annotated ignores [] h = tt
    All-annotated ignores (a ∷ rest) h =
        let (t, e) = annotated logs a in
        (ignores t a (subst P e h.0), All-annotated ignores rest h.1)
