-- ===== src/Notifier/Dispatch/Gateway.antt =====
-- was/app/notifier.py: what `send_hms` posts to the mail gateway.
use soltrace.Base.{
  ℕ, ◌<◌, ◌≡◌, ◌∙◌, sym, Bool, true, false, Bool-cases, inl, inr, some, List, [], ◌∷◌, ◌++◌, map,
  length, length-append, append-nil, append_assoc, select, All, arith,
}
use soltrace.Base.Groups.{group_by, add_item, group_at, size_of, group_by_exact}
use soltrace.Auth.Text.{Text, text_eq, text_eq_refl, text_eq_sound, is_empty}
use soltrace.Monitor.Float.{Float}
use soltrace.Notifier.Texts.{Notice, hms_payload}
use soltrace.Notifier.Dispatch.{Urls, Outbox, Post, send_hms, post_groups, telco_key}

module _ {A : Type 0} (same : Text → Text → Bool) where
  add_item-positive :
      (key : Text) (a : A) (groups : List (Text × List A))
      → All (λ g. 0 < length g.1) groups
      → All (λ g. 0 < length g.1) (add_item same key a groups)
  unfolding add_item
  add_item-positive key a [] h = (omega arith, tt)
  add_item-positive key a ((k, group) ∷ rest) h = elim (Bool-cases (same k key)) [
    | inl e ↦ rw e (omega (arith, length-append group (a ∷ [])), h.1)
    | inr e ↦ rw e (h.0, add_item-positive key a rest h.1)
  ]

  group_by-positive :
      (key : A → Text) (items : List A) (groups : List (Text × List A))
      → All (λ g. 0 < length g.1) groups
      → All (λ g. 0 < length g.1) (group_by same key items groups)
  unfolding group_by
  group_by-positive key [] groups h = h
  group_by-positive key (a ∷ rest) groups h =
      group_by-positive key rest (add_item same (key a) a groups)
        (add_item-positive (key a) a groups h)

module _ (f : Float) (kst kst_short iso : ℕ → Text) (escape lower : Text → Text)
    (answers : ℕ → Bool) where
  open f use {R}

  -- the answered post of a group
  abbrev pub group_post : Text → Text × List (Notice R) → Post R
  group_post url (telco, group) = record {
    url = url;
    payload = hms_payload f kst kst_short iso escape telco group;
    answered = true;
  }

  post_groups-posts :
      (url : Text) (sent said : Bool) (groups : List (Text × List (Notice R))) (out : Outbox R)
      → (post_groups f kst kst_short iso escape lower answers url sent groups out).0 ≡ some said
      → (post_groups f kst kst_short iso escape lower answers url sent groups out).1.posts
        ≡ out.posts ++ map (group_post url) groups
  unfolding post_groups
  post_groups-posts url sent said [] out h = sym (append-nil out.posts)
  post_groups-posts url sent said (g ∷ rest) out h = elim (Bool-cases (answers out.turn)) [
    | inr a ↦ cc (rw a at h)
    | inl a ↦ rw a (
        post_groups-posts url true said rest _ (rw a at h)
        ∙ append_assoc out.posts (group_post url g ∷ []) (map (group_post url) rest))
  ]

  -- The telcos with their notices.
  pub record IsGrouped (notices : List (Notice R)) (groups : List (Text × List (Notice R)))
      : Type 0 where
    pub each :
        (t : Text) → group_at text_eq t groups ≡ select (λ a. text_eq (telco_key a) t) notices
    pub all : size_of groups ≡ length notices
    pub positive : All (λ g. 0 < length g.1) groups

  -- Where the address of the gateway is set and no post of it raises, _send_hms adds to the
  -- posts exactly one post to that address for each of some groups, with the payload made of the
  -- telco and its notices; the groups are not empty, the group of any telco is the notices of
  -- that telco in their order, and they hold as many notices in all as there are.
  pub send_hms-posts :
      (cfg : Urls) (notices : List (Notice R)) (out : Outbox R) (said : Bool)
      → is_empty cfg.hms_url ≡ false
      → (send_hms f kst kst_short iso escape lower answers cfg notices out).0 ≡ some said
      → (groups : List (Text × List (Notice R))) × IsGrouped notices groups
        × ((send_hms f kst kst_short iso escape lower answers cfg notices out).1.posts
            ≡ out.posts ++ map (group_post cfg.hms_url) groups)
  unfolding send_hms
  send_hms-posts cfg notices out said u h =
      let (each, all) = group_by_exact text_eq text_eq_refl text_eq_sound telco_key notices in
      let groups = group_by text_eq telco_key notices [] in
      (
        groups,
        record {
          each = each;
          all = all;
          positive = group_by-positive text_eq telco_key notices [] tt;
        },
        rw u (post_groups-posts cfg.hms_url false said groups out (rw u at h)),
      )
