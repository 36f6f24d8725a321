-- ===== src/Notifier/Dispatch/Delivery.antt =====
-- was/app/notifier.py: a dispatch that says that it sent has delivered something.
use soltrace.Base.{
  ◌&&◌, ◌&&◌, some-injective, ◌⊎◌, ℕ, suc, ◌+◌, ◌≤◌, ◌<◌, ◌≡◌, refl, Bool, true, false, not,
  Bool-cases, inl, inr, Option, none, some, List, [], ◌∷◌, ◌++◌, count, count-append, if◌then◌else◌,
  arith,
}
use soltrace.Base.Groups.{group_by}
use soltrace.Auth.Text.{text_eq, Text, is_empty}
use soltrace.Monitor.Float.{Float}
use soltrace.Notifier.Texts.{hms_payload, is_test, Payload, Notice}
use soltrace.Notifier.Dispatch.{
  or_sent, Channel, webhook, hms_only, all_channels, other, Settings, is_muted, load_cfg, enrich,
  webhook_payload, Urls, Urls, Outbox, Post, send_webhook, send_hms, post_groups, send_on, dispatch,
  group_by, telco_key,
}

-- the posts that were answered
abbrev pub delivered : {R : Type 0} → Outbox R → ℕ
delivered out = count (λ p. p.answered) out.posts

-- What a channel leaves: at least what was delivered before, and more if it says that it sent.
abbrev pub Truthful : {R : Type 0} → Outbox R → Option Bool × Outbox R → Type 0
Truthful out r = (delivered out ≤ delivered r.1) × (r.0 ≡ some true → delivered out < delivered r.1)

module _ (f : Float) (kst kst_short iso : ℕ → Text) (escape lower : Text → Text)
    (answers : ℕ → Bool) where
  open f use {R}

  count-post :
      (url : Text) (payload : Payload R) (b : Bool) (posts : List (Post R))
      → count
          (λ p. p.answered)
          (posts ++ record { url = url; payload = payload; answered = b } ∷ [])
        ≡ count (λ p. p.answered) posts + (if b then 1 else 0)
  unfolding count
  count-post url payload b posts = omega (arith, count-append (λ p. p.answered) posts _)

  send_webhook-Truthful :
      (cfg : Urls) (notices : List (Notice R)) (out : Outbox R)
      → Truthful out (send_webhook f kst kst_short iso escape lower answers cfg notices out)
  unfolding send_webhook
  send_webhook-Truthful cfg notices out =
      let url = cfg.webhook_url in
      let payload = webhook_payload f kst kst_short iso escape lower answers url notices in
      elim (Bool-cases (is_empty url)) [
        | inl e ↦ rw e (omega arith, λ h. cc h)
        | inr e ↦ elim (Bool-cases (answers out.turn)) [
          | inl a ↦
              let c = count-post url payload true out.posts in
              rw (e, a) (omega (arith, c), λ h. omega (arith, c))
          | inr a ↦
              let c = count-post url payload false out.posts in
              rw (e, a) (omega (arith, c), λ h. cc h)
        ]
      ]

  post_groups-Truthful :
      (url : Text) (sent : Bool) (groups : List (Text × List (Notice R))) (out : Outbox R)
      → (let r = post_groups f kst kst_short iso escape lower answers url sent groups out in
          (delivered out ≤ delivered r.1)
          × (r.0 ≡ some true → (sent ≡ true) ⊎ (delivered out < delivered r.1)))
  unfolding post_groups
  post_groups-Truthful url sent [] out = (omega arith, λ h. inl (some-injective sent true h))
  post_groups-Truthful url sent ((telco, group) ∷ rest) out =
      let payload = hms_payload f kst kst_short iso escape telco group in
      elim (Bool-cases (answers out.turn)) [
        | inl a ↦
            let c = count-post url payload true out.posts in
            let m = post_groups-Truthful url true rest (record {
              turn = suc out.turn;
              posts = out.posts ++ record { url = url; payload = payload; answered = true } ∷ [];
            }) in
            rw a (omega (arith, c, m.0), λ h. inr (omega (arith, c, m.0)))
        | inr a ↦
            let c = count-post url payload false out.posts in rw a (omega (arith, c), λ h. cc h)
      ]

  send_hms-Truthful :
      (cfg : Urls) (notices : List (Notice R)) (out : Outbox R)
      → Truthful out (send_hms f kst kst_short iso escape lower answers cfg notices out)
  unfolding send_hms
  send_hms-Truthful cfg notices out = elim (Bool-cases (is_empty cfg.hms_url)) [
    | inl e ↦ rw e (omega arith, λ h. cc h)
    | inr e ↦
        let (m, s) =
          post_groups-Truthful cfg.hms_url false (group_by text_eq telco_key notices []) out in
        rw e (m, λ h. elim (s h) [ inl k ↦ cc k | inr k ↦ k ])
  ]

  or_sent-true :
      (a b : Option Bool) → or_sent (or_sent false a) b ≡ true → (a ≡ some true) ⊎ (b ≡ some true)
  or_sent-true (some true) b h = inl refl
  or_sent-true (some false) (some true) h = inr refl
  or_sent-true (some false) (some false) h = cc h
  or_sent-true (some false) none h = cc h
  or_sent-true none (some true) h = inr refl
  or_sent-true none (some false) h = cc h
  or_sent-true none none h = cc h

  one_sent_true : (a : Option Bool) → or_sent false a ≡ true → a ≡ some true
  one_sent_true (some true) h = refl
  one_sent_true (some false) h = cc h
  one_sent_true none h = cc h

  send_on-true :
      (channel : Channel) (cfg : Urls) (notices : List (Notice R)) (out : Outbox R)
      → (send_on f kst kst_short iso escape lower answers channel cfg notices out).0 ≡ true
      → delivered out
        < delivered (send_on f kst kst_short iso escape lower answers channel cfg notices out).1
  send_on-true other cfg notices out h = cc h
  send_on-true webhook cfg notices out h =
      (send_webhook-Truthful cfg notices out).1 (one_sent_true _ h)
  send_on-true hms_only cfg notices out h =
      (send_hms-Truthful cfg notices out).1 (one_sent_true _ h)
  send_on-true all_channels cfg notices out h =
      let first = send_webhook f kst kst_short iso escape lower answers cfg notices out in
      let w = send_webhook-Truthful cfg notices out in
      let g = send_hms-Truthful cfg notices first.1 in
      elim (or_sent-true first.0
        (send_hms f kst kst_short iso escape lower answers cfg notices first.1).0 h) [
          | inl a ↦ omega (arith, w.1 a, g.0)
          | inr b ↦ omega (arith, w.0, g.1 b)
        ]

  -- Where dispatch returns true, at least one post more was answered than before it, on
  -- whichever channel and with whatever settings.
  pub dispatch-true :
      (s : Settings) (info : ℕ → Option (Option Text × Option Text)) (channel : Channel)
      (notices : List (Notice R)) (out : Outbox R)
      → (dispatch f kst kst_short iso escape lower answers s info channel notices out).0 ≡ true
      → delivered out
        < delivered (dispatch f kst kst_short iso escape lower answers s info channel notices out).1
  unfolding dispatch
  dispatch-true s info channel [] out h = cc h
  dispatch-true s info channel (a ∷ rest) out h =
      elim (Bool-cases (not (is_test (a ∷ rest)) && is_muted lower s)) [
        | inl m ↦ cc (rw m at h)
        | inr m ↦ rw m (send_on-true channel (load_cfg s) (enrich info (a ∷ rest)) out (rw m at h))
      ]
