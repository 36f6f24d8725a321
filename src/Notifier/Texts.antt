-- ===== src/Notifier/Texts.antt =====
-- was/app/notifier.py: what the messages say. Formatted times and numbers are parameters, as is the
-- escape of HTML; a field of an alert that is missing is none, as one that is None is.
use soltrace.Base.{
  ℕ, ◌==◌, ◌||◌, ◌&&◌, Bool, true, false, Option, none, some, List, [], ◌∷◌, ◌++◌, map, length,
  count, if◌then◌else◌,
}
use soltrace.Auth.Text.{Text, is_empty, codes}
use soltrace.Auth.Accounts.{text_or_empty}
use soltrace.Monitor.Alert.{
  Metric, Severity, warning, critical, fail_rate, throughput, login_fail_rate, cwd_fail_spike,
  is_critical,
}
use soltrace.Monitor.Float.{Float}

-- `group_name` is none where the key is missing.
pub record Notice (R : Type 0) : Type 0 where
  pub device_id : Option ℕ
  pub device_hostname : Text
  pub metric : Metric
  pub severity : Severity
  pub value : R
  pub baseline : Option R
  pub detail : Option Text
  pub bucket : ℕ
  pub recovered : Bool
  pub duration_min : Option ℕ
  pub alert_count : Option ℕ
  pub test : Bool
  pub group_name : Option (Option Text)
  pub telco : Option Text

abbrev pub severity_label : Severity → Text
severity_label warning = codes "주의"
severity_label critical = codes "심각"

abbrev pub metric_label : Metric → Text
metric_label fail_rate = codes "전송 실패율"
metric_label throughput = codes "전송 속도"
metric_label login_fail_rate = codes "로그인 실패율"
metric_label cwd_fail_spike = codes "CWD 실패 급증"

-- What is posted: Slack's blocks, Slack's plain text, the dictionaries of other webhooks, or the
-- envelope of the mail gateway.
pub record Item (R : Type 0) : Type 0 where
  pub notice : Notice R
  pub bucket : Text
  pub summary : Text

pub data Payload (R : Type 0) : Type 0 where
  slack : (text mrkdwn : Text) → Payload R
  slack_text : Text → Payload R
  generic : (recovery test : Bool) → (count : ℕ) → List (Item R) → Payload R
  plain_notice : (subject message : Text) → Payload R
  hms : (telco subject body : Text) → Payload R

-- `a.get("group_name") or ""`
abbrev pub group_of : Option (Option Text) → Text
group_of none = []
group_of (some name) = text_or_empty name

module _ {R : Type 0} where
  abbrev pub any : (Notice R → Bool) → List (Notice R) → Bool
  any p [] = false
  any p (a ∷ rest) = p a || any p rest

  abbrev pub all : (Notice R → Bool) → List (Notice R) → Bool
  all p [] = true
  all p (a ∷ rest) = p a && all p rest

  abbrev pub is_recovery : List (Notice R) → Bool
  is_recovery [] = false
  is_recovery (a ∷ rest) = all (λ x. x.recovered) (a ∷ rest)

  abbrev pub is_test : List (Notice R) → Bool
  is_test notices = any (λ x. x.test) notices

  abbrev pub criticals : List (Notice R) → ℕ
  criticals notices = count (λ x. is_critical x.severity) notices

  unfoldable pub alert_label : Notice R → Text
  alert_label a =
      let telco = text_or_empty a.telco in
      let group = group_of a.group_name in
      if is_empty group
      then a.device_hostname
      else if is_empty telco
      then group
      else codes "[" ++ telco ++ codes "]" ++ group

  unfoldable pub detail_suffix : Notice R → Text
  detail_suffix a =
      let detail = text_or_empty a.detail in if is_empty detail then [] else codes " · " ++ detail

abbrev pub or_zero : Option ℕ → ℕ
or_zero none = 0
or_zero (some n) = n

abbrev pub join_lines : List Text → Text
join_lines [] = []
join_lines (l ∷ []) = l
join_lines (l ∷ m ∷ ms) = l ++ 10 ∷ join_lines (m ∷ ms)

abbrev pub cell : Text → Text
cell inner = codes "<td style='padding:4px 8px'>" ++ inner ++ codes "</td>"

abbrev pub flatten : List Text → Text
flatten [] = []
flatten (t ∷ ts) = t ++ flatten ts

module _ (f : Float) (kst kst_short iso : ℕ → Text) (escape : Text → Text) where
  open f use {R}

  abbrev pub show : ℕ → Text
  show n = codes (f.show_ℕ n)

  abbrev pub fmt_metric : Metric → R → Text
  fmt_metric throughput value = codes (f.megabytes value) ++ codes " MB/s"
  fmt_metric cwd_fail_spike value = show (f.trunc value) ++ codes "건"
  fmt_metric _ value = codes (f.percent value) ++ codes "%"

  abbrev pub fmt_span : Notice R → Text
  fmt_span a =
      show (or_zero a.duration_min) ++ codes "분·" ++ show (or_zero a.alert_count) ++ codes "건"

  abbrev pub fmt_base : Metric → Option R → Text
  fmt_base metric none = []
  fmt_base metric (some base) = codes " (평소 " ++ fmt_metric metric base ++ codes ")"

  unfoldable pub build_summary : Notice R → Text
  build_summary a =
      if a.recovered
      then codes "[복구] "
        ++ alert_label a
        ++ codes " — "
        ++ metric_label a.metric
        ++ codes " 정상 회복 (이상 "
        ++ fmt_span a
        ++ codes ") @ "
        ++ kst a.bucket
        ++ codes " KST 마지막"
      else codes "["
        ++ severity_label a.severity
        ++ codes "] "
        ++ alert_label a
        ++ codes " — "
        ++ metric_label a.metric
        ++ codes " "
        ++ fmt_metric a.metric a.value
        ++ fmt_base a.metric a.baseline
        ++ codes " @ "
        ++ kst a.bucket
        ++ codes " KST"
        ++ detail_suffix a

  -- the line of an alert in Slack's message
  abbrev pub slack_line : Bool → Notice R → Text
  slack_line true a =
      codes ":white_check_mark: [복구] *"
      ++ alert_label a
      ++ codes "* — "
      ++ metric_label a.metric
      ++ codes " 정상 회복 (이상 "
      ++ fmt_span a
      ++ codes ") · "
      ++ kst_short a.bucket
      ++ codes " KST 마지막"
  slack_line false a =
      (if is_critical a.severity then codes ":rotating_light:" else codes ":warning:")
      ++ codes " ["
      ++ severity_label a.severity
      ++ codes "] *"
      ++ alert_label a
      ++ codes "* — "
      ++ metric_label a.metric
      ++ codes " "
      ++ fmt_metric a.metric a.value
      ++ fmt_base a.metric a.baseline
      ++ codes " · "
      ++ kst_short a.bucket
      ++ codes " KST"
      ++ detail_suffix a

  abbrev pub title : Bool → Text
  title recovered = if recovered then codes "서비스 복구" else codes "서비스 영향 감지"

  unfoldable pub slack_payload : List (Notice R) → Payload R
  slack_payload notices =
      let recovered = is_recovery notices in
      let crit = criticals notices in
      let crit_tag =
        if crit == 0 || recovered
        then []
        else codes "  :rotating_light: 심각 " ++ show crit ++ codes "건" in
      let header =
        (if recovered then codes ":white_check_mark:" else codes ":bell:")
        ++ codes " *SolTrace "
        ++ title recovered
        ++ codes " "
        ++ show (length notices)
        ++ codes "건*"
        ++ crit_tag
        ++ (if is_test notices then codes " _[테스트]_" else []) in
      slack
        (codes "[SolTrace] " ++ title recovered ++ codes " " ++ show (length notices) ++ codes "건")
        (header ++ 10 ∷ join_lines (map (slack_line recovered) notices))

  unfoldable pub generic_payload : List (Notice R) → Payload R
  generic_payload notices =
      generic (is_recovery notices) (is_test notices) (length notices)
        (map (λ a. record { notice = a; bucket = iso a.bucket; summary = build_summary a }) notices)

  -- the value and the detail of a row of the mail
  abbrev pub hms_value : Bool → Notice R → Text
  hms_value true a = escape (codes "정상 회복 (이상 " ++ fmt_span a ++ codes ")")
  hms_value false a =
      let detail = text_or_empty a.detail in
      escape (fmt_metric a.metric a.value)
      ++ (if is_empty detail then [] else codes "<br>" ++ escape detail)

  abbrev pub hms_row : Bool → Notice R → Text
  hms_row recovered a =
      codes "<tr>"
      ++ cell (escape a.device_hostname)
      ++ cell (escape (metric_label a.metric))
      ++ cell (escape (severity_label a.severity))
      ++ cell (hms_value recovered a)
      ++ cell (kst a.bucket ++ codes " KST")
      ++ codes "</tr>"

  unfoldable pub build_hms_body : List (Notice R) → Text
  build_hms_body notices =
      let recovered = is_recovery notices in
      codes "<html><body style='font-family:sans-serif;font-size:13px'>"
      ++ (if recovered
          then codes "<p>앞서 알린 FTP 서버 서비스 이상이 정상으로 회복되었습니다."
            ++ codes " (등급은 이상 기간 중 최고 등급, 시각은 마지막 이상 시각)</p>"
          else codes "<p>FTP 서버 서비스 이상이 감지되었습니다.</p>")
      ++ codes "<table border='1' cellspacing='0' cellpadding='0' style='border-collapse:collapse'>"
      ++ codes "<thead><tr style='background:#f0f0f0'>"
      ++ codes "<th style='padding:4px 8px'>장비</th><th style='padding:4px 8px'>지표</th>"
      ++ codes "<th style='padding:4px 8px'>등급</th><th style='padding:4px 8px'>값</th>"
      ++ codes "<th style='padding:4px 8px'>시각</th></tr></thead>"
      ++ codes "<tbody>"
      ++ flatten (map (hms_row recovered) notices)
      ++ codes "</tbody></table>"
      ++ codes "<p style='color:#888;font-size:11px'>이 메일은 SolTrace에서 자동 발송되었습니다.</p>"
      ++ codes "</body></html>"

  unfoldable pub hms_payload : Text → List (Notice R) → Payload R
  hms_payload telco notices =
      let crit = criticals notices in
      let prefix = if is_test notices then codes "[테스트] " else [] in
      let subject =
        if is_recovery notices
        then prefix ++ codes "[SolTrace] 서비스 복구 " ++ show (length notices) ++ codes "건"
        else prefix
          ++ codes "[SolTrace] 서비스 영향 감지 "
          ++ show (length notices)
          ++ codes "건"
          ++ (if crit == 0 then [] else codes " (심각 " ++ show crit ++ codes ")") in
      hms telco subject (build_hms_body notices)
