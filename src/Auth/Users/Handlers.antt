-- ===== src/Auth/Users/Handlers.antt =====
-- was/app/routers/users.py: each handler leaves an active administrator.
use soltrace.Base.{
  ◌⊎◌, ltb, length, ℕ, ◌≡◌, refl, ◌∙◌, sym, ap, subst, Bool, true, false, not, ◌&&◌, Bool-cases,
  Option, none, some, inl, inr, List, [],
}
use soltrace.Auth.Text.{is_empty, text_eq, Text}
use soltrace.Auth.Accounts.{text_or_empty, unlock_user}
use soltrace.Auth.Login.{get_admin_username, is_admin}
use soltrace.Auth.Keys.{Principal}
use soltrace.Auth.Addresses.{strip_input, Entered}
use soltrace.Auth.Users.{
  no_username, no_customer, username_taken, admin_username_taken, has_username, new_row,
  parse_ip_list, Problem, own_account, last_admin, refuse_then, any_then, not_a_customer,
  too_many_ftp_accounts, max_ftp_accounts, Holds, bind-Holds, collect_pairs, refuse, Row, Site,
  FtpMap, find_row, get, or_not_found, put_row, is_active_admin, has_other_admin,
  assert_can_disable, save_ftp_map, UserCreate, UserUpdate, create_user, update_user, unlock,
  delete_user, set_password, set_customer, set_allowed_ips, set_note, set_active, save_if_given,
  save_if_customer,
}
use soltrace.Auth.Users.Rows.{
  has_admin, put_row-other, drop_row-other, put_row-found, has_admin-append, find_row_id,
  drop_row-none,
}

abbrev pub Any : Site → Type 0
Any s = has_admin s.rows ≡ true

save_ftp_map-Any :
    (r : Row) (entries : List FtpMap) (site : Site)
    → Any site
    → Holds Any (save_ftp_map r entries site)
unfolding save_ftp_map
save_ftp_map-Any r entries site h = refuse_then Any (is_admin r.user.role) not_a_customer _ (λ _.
    any_then Any (collect_pairs site.groups r.user.customer entries []) _ (λ pairs.
      refuse_then Any (ltb max_ftp_accounts (length pairs)) too_many_ftp_accounts _ (λ _. h)))

-- what an update keeps of the row that it found
abbrev Same : Row → Row → Type 0
Same found r =
    (r.id ≡ found.id)
    × (r.user.role ≡ found.user.role)
    × (is_active_admin r ≡ is_active_admin found)

-- a row that may be put in the place of the one found
abbrev MayReplace : List Row → Row → Row → Type 0
MayReplace rows found r =
    (r.id ≡ found.id)
    × ((is_active_admin found ≡ true → is_active_admin r ≡ true)
        ⊎ (has_other_admin found.id rows ≡ true))

put_row-Any :
    (site : Site) (found r : Row)
    → find_row r.id site.rows ≡ some found
    → MayReplace site.rows found r
    → Any site
    → has_admin (put_row r site.rows) ≡ true
put_row-Any site found r f (i, inl k) h = put_row-found r found site.rows f k h
put_row-Any site found r f (i, inr o) h =
    put_row-other r site.rows (subst (λ n. has_other_admin n site.rows ≡ true) (sym i) o)

admin_of_active : (r : Row) → is_active_admin r ≡ true → is_admin r.user.role ≡ true
admin_of_active r h = elim (Bool-cases (is_admin r.user.role)) [
  | inl e ↦ e
  | inr e ↦ cc (rw e at h)
]

need_other : (a o : Bool) → (a && not o) ≡ false → a ≡ true → o ≡ true
need_other true true h e = refl
need_other true false h e = cc h
need_other false o h e = cc e

-- Who can be disabled is no administrator, or one beside another.
disabled-MayReplace :
    (rows : List Row) (found r : Row)
    → Same found r
    → (is_admin r.user.role && not (has_other_admin r.id rows)) ≡ false
    → (c : Row) → c.id ≡ r.id
    → MayReplace rows found c
disabled-MayReplace rows found r (i, o, a) h c e = elim (Bool-cases (is_active_admin found)) [
  | inr n ↦ (e ∙ i, inl (λ p. cc (sym n ∙ p)))
  | inl p ↦ (
    e ∙ i,
    inr (
        subst (λ n. has_other_admin n rows ≡ true) i
          (need_other (is_admin r.user.role) (has_other_admin r.id rows) h
            (admin_of_active r (a ∙ p)))),
  )
]

active_true : (r : Row) → is_active_admin r ≡ true → (is_admin r.user.role && true) ≡ true
active_true r h = rw (admin_of_active r h) refl

refused : (b : Bool) (e : Problem) → Holds (λ _. b ≡ false) (refuse b e)
refused true e = tt
refused false e = refl

abbrev not_last : Site → Row → Bool
not_last site r = is_admin r.user.role && not (has_other_admin r.id site.rows)

assert_can_disable-Holds :
    (site : Site) (r : Row) (me : Principal)
    → Holds (λ _. not_last site r ≡ false) (assert_can_disable site r me)
unfolding assert_can_disable
assert_can_disable-Holds site r me =
    refuse_then (λ _. not_last site r ≡ false) (text_eq r.user.username me.username) own_account _
      (λ _. refused (not_last site r) last_admin)

set_active-MayReplace :
    (site : Site) (me : Principal) (active : Option Bool) (found r : Row)
    → Same found r
    → Holds (MayReplace site.rows found) (set_active site me active r)
unfolding assert_can_disable
set_active-MayReplace site me none found r (i, o, a) = (i, inl (λ p. a ∙ p))
set_active-MayReplace site me (some true) found r (i, o, a) = (i, inl (λ p. active_true r (a ∙ p)))
set_active-MayReplace site me (some false) found r same =
    bind-Holds (λ _. not_last site r ≡ false) (MayReplace site.rows found)
      (assert_can_disable site r me) _ (assert_can_disable-Holds site r me)
      (λ _ h.
        disabled-MayReplace site.rows found r same h
          (record r { user = record r.user { is_active = false } }) refl)

set_password-Same :
    (hash : Text → Text) (found : Row) (p : Option Text) → Same found (set_password hash p found)
set_password-Same hash found none = (refl, refl, refl)
set_password-Same hash found (some p) = (refl, refl, refl)

set_customer-Same :
    (found r : Row) (c : Option Text) → Same found r → Holds (Same found) (set_customer c r)
set_customer-Same found r none h = h
set_customer-Same found r (some c) h =
    elim (Bool-cases (not (is_admin r.user.role) && is_empty (strip_input c))) [
      | inl e ↦ rw e tt
      | inr e ↦ rw e h
    ]

set_allowed_ips-Same :
    (is_network : Text → Bool) (found r : Row) (ips : Option (List Entered))
    → Same found r
    → Holds (Same found) (set_allowed_ips is_network ips r)
set_allowed_ips-Same is_network found r none h = h
set_allowed_ips-Same is_network found r (some entries) h =
    any_then (Same found) (parse_ip_list is_network entries) _ (λ ips. h)

set_note-Same : (found r : Row) (note : Option Text) → Same found r → Same found (set_note note r)
set_note-Same found r none h = h
set_note-Same found r (some note) h = h

save_if_given-Any :
    (entries : Option (List FtpMap)) (r : Row) (site : Site)
    → Any site
    → Holds Any (save_if_given entries r site)
save_if_given-Any none r site h = h
save_if_given-Any (some entries) r site h = save_ftp_map-Any r entries site h

save_if_customer-Any :
    (r : Row) (entries : List FtpMap) (site : Site)
    → Any site
    → Holds Any (save_if_customer r entries site)
save_if_customer-Any r entries site h = elim (Bool-cases (is_admin r.user.role)) [
  | inl e ↦ rw e h
  | inr e ↦ rw e (save_ftp_map-Any r entries site h)
]

or_not_found-Holds :
    (n : ℕ) (rows : List Row) (o : Option Row)
    → find_row n rows ≡ o
    → Holds (λ r. (r.id ≡ n) × (find_row n rows ≡ some r)) (or_not_found o)
or_not_found-Holds n rows none h = tt
or_not_found-Holds n rows (some r) h = (find_row_id n rows r h, h)

get-Holds :
    (n : ℕ) (site : Site) → Holds (λ r. (r.id ≡ n) × (find_row n site.rows ≡ some r)) (get n site)
unfolding get
get-Holds n site = or_not_found-Holds n site.rows (find_row n site.rows) refl

module _ (is_network : Text → Bool) (hash : Text → Text) where
  pub update_user-Any :
      (me : Principal) (n : ℕ) (body : UserUpdate) (site : Site)
      → Any site
      → Holds Any (update_user is_network hash me n body site)
  unfolding update_user
  update_user-Any me n body site h =
      bind-Holds (λ r. (r.id ≡ n) × (find_row n site.rows ≡ some r)) Any (get n site) _
        (get-Holds n site)
        (λ found f.
          bind-Holds (Same found) Any
            (set_customer body.customer (set_password hash body.password found)) _
            (set_customer-Same found _ body.customer (set_password-Same hash found body.password))
            (λ r s.
              bind-Holds (Same found) Any (set_allowed_ips is_network body.allowed_ips r) _
                (set_allowed_ips-Same is_network found r body.allowed_ips s)
                (λ with_ips t.
                  bind-Holds (MayReplace site.rows found) Any
                    (set_active site me body.is_active (set_note body.note with_ips)) _
                    (set_active-MayReplace site me body.is_active found _
                      (set_note-Same found with_ips body.note t))
                    (λ changed m. save_if_given-Any body.ftp_accounts changed _ (
                      put_row-Any site found changed
                        (ap (λ k. find_row k site.rows) (m.0 ∙ f.0) ∙ f.1) m h)))))

  pub create_user-Any :
      (me : Principal) (body : UserCreate) (site : Site)
      → Any site
      → Holds Any (create_user is_network hash me body site)
  unfolding create_user
  create_user-Any me body site h =
      let username = strip_input body.username in
      let customer = strip_input (text_or_empty body.customer) in
      refuse_then Any (is_empty username) no_username _ (λ _.
        refuse_then Any (not (is_admin body.role) && is_empty customer) no_customer _ (λ _.
          refuse_then Any (has_username username site.rows) username_taken _ (λ _.
            refuse_then Any
              (not (is_admin body.role) && text_eq username (get_admin_username site.config))
              admin_username_taken _
              (λ _. any_then Any (parse_ip_list is_network body.allowed_ips) _ (λ ips.
                let r = new_row hash me username customer ips body site.next_id in
                save_if_customer-Any r body.ftp_accounts _ (has_admin-append site.rows r h))))))

pub unlock-Any : (n : ℕ) (site : Site) → Any site → Holds Any (unlock n site)
unfolding unlock unlock_user
unlock-Any n site h =
    bind-Holds (λ r. (r.id ≡ n) × (find_row n site.rows ≡ some r)) Any (get n site) _
      (get-Holds n site)
      (λ r f.
        put_row-Any site r (record r { user = unlock_user r.user })
          (ap (λ k. find_row k site.rows) f.0 ∙ f.1) (refl, inl (λ p. p)) h)

pub delete_user-Any :
    (me : Principal) (n : ℕ) (site : Site) → Any site → Holds Any (delete_user me n site)
unfolding delete_user
delete_user-Any me n site h =
    bind-Holds (λ r. (r.id ≡ n) × (find_row n site.rows ≡ some r)) Any (get n site) _
      (get-Holds n site)
      (λ r f.
        bind-Holds (λ _. not_last site r ≡ false) Any (assert_can_disable site r me) _
          (assert_can_disable-Holds site r me)
          (λ _ l. elim (Bool-cases (is_active_admin r)) [
            | inl a ↦ drop_row-other r.id site.rows (
                need_other (is_admin r.user.role) (has_other_admin r.id site.rows) l
                  (admin_of_active r a))
            | inr a ↦ drop_row-none r.id site.rows r (ap (λ k. find_row k site.rows) f.0 ∙ f.1) a h
          ]))
