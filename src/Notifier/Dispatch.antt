-- ===== src/Notifier/Dispatch.antt =====
-- was/app/notifier.py: the channels, the grouping for the mail gateway, and `dispatch`. The n-th post
-- is answered or raises; the query of the groups of devices is a function of the device.
pub mod Delivery
pub mod Gateway
pub mod Tests
use soltrace.Base.{
  ℕ, suc, ◌≡◌, Bool, true, false, not, ◌||◌, ◌&&◌, Option, none, some, List, [], ◌∷◌, ◌++◌, map,
  if◌then◌else◌,
}
use soltrace.Base.Groups.{group_by}
use soltrace.Auth.Text.{Text, is_empty, codes, text_eq}
use soltrace.Auth.Accounts.{text_or_empty}
use soltrace.Daemon.Extended.{contains, starts}
use soltrace.Monitor.Float.{Float}
use soltrace.Notifier.Texts.{
  Notice, Payload, slack_text, plain_notice, hms, is_test, slack_payload, generic_payload,
  hms_payload,
}

-- the stored settings, and the defaults of the environment
pub record Settings : Type 0 where
  pub webhook_url : Option Text
  pub hms_url : Option Text
  pub muted : Option Text
  pub default_webhook_url : Text
  pub default_hms_url : Text

pub record Urls : Type 0 where
  pub webhook_url : Text
  pub hms_url : Text

abbrev pub or_default : Option Text → Text → Text
or_default value default = let v = text_or_empty value in if is_empty v then default else v

unfoldable pub load_cfg : Settings → Urls
load_cfg s = record {
  webhook_url = or_default s.webhook_url s.default_webhook_url;
  hms_url = or_default s.hms_url s.default_hms_url;
}

unfoldable pub is_muted : (Text → Text) → Settings → Bool
is_muted lower s = text_eq (lower (or_default s.muted (codes "false"))) (codes "true")

unfoldable pub channels_configured : Settings → Bool
channels_configured s =
    let cfg = load_cfg s in not (is_empty cfg.webhook_url) || not (is_empty cfg.hms_url)

-- true where there is no ValueError
unfoldable pub validate_webhook_url : (Text → Text) → Text → Bool
validate_webhook_url lower url =
    is_empty url || starts (codes "http://") (lower url) || starts (codes "https://") (lower url)

abbrev pub is_slack : Text → Bool
is_slack url = contains (codes "hooks.slack.com") url

-- The posts that were made, in order, with whether they were answered.
pub record Post (R : Type 0) : Type 0 where
  pub url : Text
  pub payload : Payload R
  pub answered : Bool

pub record Outbox (R : Type 0) : Type 0 where
  pub turn : ℕ
  pub posts : List (Post R)

-- What a channel returns; none is an exception.
abbrev pub Sent : Type 0 → Type 0
Sent R = Option Bool × Outbox R

abbrev pub telco_key : {R : Type 0} → Notice R → Text
telco_key a = or_default a.telco (codes "SolTrace")

abbrev pub or_nothing : Option (Option Text × Option Text) → Option Text × Option Text
or_nothing none = (none, none)
or_nothing (some row) = row

abbrev pub row_of : (ℕ → Option (Option Text × Option Text)) → Option ℕ → Option Text × Option Text
row_of info none = (none, none)
row_of info (some id) = or_nothing (info id)

module _ {R : Type 0} where
  abbrev pub has_id : Notice R → Bool
  has_id a = elim a.device_id [ none ↦ false | some id ↦ true ]

  abbrev pub any_id : List (Notice R) → Bool
  any_id [] = false
  any_id (a ∷ rest) = has_id a || any_id rest

  abbrev pub with_group : Option (Option Text) → Option Text × Option Text → Notice R → Notice R
  with_group none row a = record a { group_name = some row.0; telco = row.1 }
  with_group (some name) row a = a

  unfoldable pub enrich :
      (ℕ → Option (Option Text × Option Text)) → List (Notice R) → List (Notice R)
  enrich info notices =
      if any_id notices
      then map (λ a. with_group a.group_name (row_of info a.device_id) a) notices
      else notices

-- `sent or r`, where an exception is logged
abbrev pub or_sent : Bool → Option Bool → Bool
or_sent sent none = sent
or_sent sent (some r) = sent || r

pub data Channel : Type 0 where
  all_channels webhook hms_only other : Channel

module _ (f : Float) (kst kst_short iso : ℕ → Text) (escape lower : Text → Text)
    (answers : ℕ → Bool) where
  open f use {R}

  abbrev pub post_json : Text → Payload R → Outbox R → Bool × Outbox R
  post_json url payload out =
      let ok = answers out.turn in
      (
        ok,
        record {
          turn = suc out.turn;
          posts = out.posts ++ record { url = url; payload = payload; answered = ok } ∷ [];
        },
      )

  abbrev pub webhook_payload : Text → List (Notice R) → Payload R
  webhook_payload url notices =
      if is_slack url
      then slack_payload f kst kst_short iso escape notices
      else generic_payload f kst kst_short iso escape notices

  unfoldable pub send_webhook : Urls → List (Notice R) → Outbox R → Sent R
  send_webhook cfg notices out =
      let (ok, out') = post_json cfg.webhook_url (webhook_payload cfg.webhook_url notices) out in
      if is_empty cfg.webhook_url
      then (some false, out)
      else if ok
      then (some true, out')
      else (none, out')

  -- the loop over the groups, which an exception ends
  unfoldable pub post_groups : Text → Bool → List (Text × List (Notice R)) → Outbox R → Sent R
  post_groups url sent [] out = (some sent, out)
  post_groups url sent ((telco, group) ∷ rest) out =
      let (ok, out') = post_json url (hms_payload f kst kst_short iso escape telco group) out in
      let more = post_groups url true rest out' in if ok then more else (none, out')

  unfoldable pub send_hms : Urls → List (Notice R) → Outbox R → Sent R
  send_hms cfg notices out =
      if is_empty cfg.hms_url
      then (some false, out)
      else post_groups cfg.hms_url false (group_by text_eq telco_key notices []) out

  abbrev pub send_both : Urls → List (Notice R) → Outbox R → Bool × Outbox R
  send_both cfg notices out =
      let (a, out') = send_webhook cfg notices out in
      let (b, out'') = send_hms cfg notices out' in (or_sent (or_sent false a) b, out'')

  abbrev pub send_on : Channel → Urls → List (Notice R) → Outbox R → Bool × Outbox R
  send_on all_channels cfg notices out = send_both cfg notices out
  send_on webhook cfg notices out =
      let (a, out') = send_webhook cfg notices out in (or_sent false a, out')
  send_on hms_only cfg notices out =
      let (a, out') = send_hms cfg notices out in (or_sent false a, out')
  send_on other cfg notices out = (false, out)

  unfoldable pub dispatch :
      Settings
      → (ℕ → Option (Option Text × Option Text))
      → Channel
      → List (Notice R)
      → Outbox R
      → Bool × Outbox R
  dispatch s info channel [] out = (false, out)
  dispatch s info channel (a ∷ rest) out =
      if not (is_test (a ∷ rest)) && is_muted lower s
      then (false, out)
      else send_on channel (load_cfg s) (enrich info (a ∷ rest)) out

  abbrev pub hms_text : Text → Text → Payload R
  hms_text subject body = hms (codes "SolTrace") subject (
      codes "<html><body style='font-family:sans-serif;font-size:13px'>"
      ++ codes "<p>"
      ++ escape body
      ++ codes "</p></body></html>")

  abbrev pub text_payload : Text → Text → Text → Payload R
  text_payload url subject body =
      if is_slack url then slack_text (subject ++ 10 ∷ body) else plain_notice subject body

  abbrev pub post_unless : Text → Payload R → Bool × Outbox R → Bool × Outbox R
  post_unless url payload (sent, out) =
      let (ok, out') = post_json url payload out in
      if is_empty url then (sent, out) else (sent || ok, out')

  unfoldable pub send_text : Settings → Text → Text → Outbox R → Bool × Outbox R
  send_text s subject body out =
      let cfg = load_cfg s in
      if is_muted lower s
      then (false, out)
      else post_unless cfg.hms_url (hms_text subject body)
          (post_unless cfg.webhook_url (text_payload cfg.webhook_url subject body) (false, out))
