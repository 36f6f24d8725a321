-- ===== src/Notifier/Dispatch/Tests.antt =====
-- was/app/notifier.py: a dispatch to both channels, of which the first is down.
use soltrace.Base.{
  ℕ, zero, suc, ◌<◌, ◌≡◌, refl, Bool, true, false, Option, none, some, [], ◌∷◌, List, map,
}
use soltrace.Auth.Text.{Text, codes}
use soltrace.Monitor.Alert.{throughput, warning}
use soltrace.Monitor.Whole.{whole_numbers}
use soltrace.Notifier.Texts.{Notice}
use soltrace.Notifier.Dispatch.{Urls, send_hms, Settings, Outbox, all_channels, dispatch, telco_key}
use soltrace.Base.Groups.{group_by, group_at, size_of, group_by_exact}
use soltrace.Notifier.Dispatch.Gateway.{IsGrouped, group_post, send_hms-posts}
use soltrace.Notifier.Dispatch.Delivery.{delivered, dispatch-true}

abbrev notice : ℕ → Notice ℕ
notice n = record {
  device_id = some n;
  device_hostname = codes "ftp1";
  metric = throughput;
  severity = warning;
  value = 5;
  baseline = none;
  detail = none;
  bucket = 0;
  recovered = false;
  duration_min = none;
  alert_count = none;
  test = false;
  group_name = none;
  telco = none;
}

abbrev settings : Settings
settings = record {
  webhook_url = some (codes "https://a");
  hms_url = some (codes "https://b");
  muted = none;
  default_webhook_url = [];
  default_hms_url = [];
}

abbrev second_answers : ℕ → Bool
second_answers zero = false
second_answers (suc n) = true

abbrev same : Text → Text
same s = s

abbrev no_text : ℕ → Text
no_text n = []

abbrev telcos : ℕ → Option (Option Text × Option Text)
telcos zero = none
telcos (suc n) = some (some (codes "g"), some (codes "KT"))

abbrev box : Outbox ℕ
box = record { turn = 0; posts = [] }

sends :
    (dispatch whole_numbers no_text no_text no_text same same second_answers settings telcos
      all_channels
      (notice 0 ∷ notice 1 ∷ [])
      box).0
    ≡ true
unfolding dispatch soltrace.Notifier.Dispatch.is_muted soltrace.Notifier.Dispatch.load_cfg
    soltrace.Notifier.Dispatch.enrich soltrace.Notifier.Dispatch.send_webhook
    soltrace.Notifier.Dispatch.send_hms soltrace.Notifier.Dispatch.post_groups
    soltrace.Base.Groups.group_by soltrace.Base.Groups.add_item
sends = refl

dispatch-true_example :
    delivered box
    < delivered
        (dispatch whole_numbers no_text no_text no_text same same second_answers settings telcos
          all_channels
          (notice 0 ∷ notice 1 ∷ [])
          box).1
dispatch-true_example =
    dispatch-true whole_numbers no_text no_text no_text same same second_answers settings telcos
      all_channels (notice 0 ∷ notice 1 ∷ []) box sends

abbrev urls : Urls
urls = record { webhook_url = []; hms_url = codes "https://b" }

abbrev two_notices : List (Notice ℕ)
two_notices = notice 0 ∷ notice 1 ∷ []

abbrev always : ℕ → Bool
always n = true

mails :
    (send_hms whole_numbers no_text no_text no_text same same always urls two_notices box).0
    ≡ some true
unfolding soltrace.Notifier.Dispatch.send_hms soltrace.Notifier.Dispatch.post_groups
    soltrace.Base.Groups.group_by soltrace.Base.Groups.add_item
mails = refl

send_hms-posts_example :
    (groups : List (Text × List (Notice ℕ))) × IsGrouped whole_numbers no_text no_text no_text same
      same always two_notices groups
    × ((send_hms whole_numbers no_text no_text no_text same same always urls two_notices
          box).1.posts
        ≡ map
            (group_post whole_numbers no_text no_text no_text same same always urls.hms_url)
            groups)
send_hms-posts_example =
    send_hms-posts whole_numbers no_text no_text no_text same same always urls two_notices box true
      refl mails
