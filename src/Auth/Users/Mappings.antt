-- ===== src/Auth/Users/Mappings.antt =====
-- was/app/routers/users.py: the FTP accounts that `_save_ftp_map` leaves to an account.
use soltrace.Base.{
  ℕ, ◌==◌, ◌≤◌, ◌≡◌, refl, ◌∙◌, sym, ap, subst, ltb, ltb→le, Bool, true, false, not, Bool-cases,
  Option, none, some, some-injective, inl, inr, List, [], ◌∷◌, length, All, All-append, ==_iff,
}
use soltrace.Auth.Text.{Text, text_eq, is_empty}
use soltrace.Auth.Accounts.{text_or_empty}
use soltrace.Auth.Login.{is_admin}
use soltrace.Auth.Addresses.{strip_input}
use soltrace.Auth.Users.{
  Holds, bind-Holds, refuse_then, Row, Group, FtpAccount, Site, FtpMap, Pair, find_group,
  or_no_group, has_pair, add_pair, add_names, collect_pairs, others_of, as_accounts, save_ftp_map,
  foreign_group, not_a_customer, too_many_ftp_accounts, max_ftp_accounts,
}

module _ (groups : List Group) (customer : Option Text) where
  -- a group of this customer
  abbrev pub IsOwnGroup : ℕ → Type 0
  IsOwnGroup gid =
      (g : Group) × (find_group gid groups ≡ some g)
      × (text_eq (text_or_empty g.customer) (text_or_empty customer) ≡ true)

  -- a name that is given, and can be stored, of such a group
  abbrev pub IsOwnPair : Pair → Type 0
  IsOwnPair p = IsOwnGroup p.0 × (is_empty p.1 ≡ false) × (length p.1 ≤ 255)

  add_pair-IsOwnPair :
      (gid : ℕ) (name : Text) (pairs : List Pair)
      → IsOwnGroup gid
      → length name ≤ 255
      → All IsOwnPair pairs
      → All IsOwnPair (add_pair gid name pairs)
  add_pair-IsOwnPair gid name pairs g l h = elim (Bool-cases (is_empty name)) [
    | inl e ↦ rw e h
    | inr e ↦ elim (Bool-cases (has_pair gid name pairs)) [
      | inl p ↦ rw (e, p) h
      | inr p ↦ rw (e, p) (All-append IsOwnPair pairs ((gid, name) ∷ []) h ((g, e, l), tt))
    ]
  ]

  add_names-IsOwnPair :
      (gid : ℕ) (names : List Text) (pairs : List Pair)
      → IsOwnGroup gid
      → All IsOwnPair pairs
      → Holds (All IsOwnPair) (add_names gid names pairs)
  unfolding add_names
  add_names-IsOwnPair gid [] pairs g h = h
  add_names-IsOwnPair gid (raw ∷ rest) pairs g h =
      elim (Bool-cases (ltb 255 (length (strip_input raw)))) [
        | inl e ↦ rw e tt
        | inr e ↦ rw e (
            add_names-IsOwnPair gid rest (add_pair gid (strip_input raw) pairs) g
              (add_pair-IsOwnPair gid (strip_input raw) pairs g (ltb→le 255 _ e) h))
      ]

  find_group_id : (n : ℕ) (gs : List Group) (g : Group) → find_group n gs ≡ some g → g.id ≡ n
  unfolding find_group
  find_group_id n [] g h = cc h
  find_group_id n (x ∷ rest) g h = elim (Bool-cases (x.id == n)) [
    | inl e ↦ ap (λ y. y.id) (sym (some-injective x g (rw e at h))) ∙ (==_iff x.id n).0 e
    | inr e ↦ find_group_id n rest g (rw e at h)
  ]

  or_no_group-Holds :
      (n : ℕ) (o : Option Group)
      → find_group n groups ≡ o
      → Holds (λ g. find_group g.id groups ≡ some g) (or_no_group o)
  or_no_group-Holds n none h = tt
  or_no_group-Holds n (some g) h =
      subst (λ k. find_group k groups ≡ some g) (sym (find_group_id n groups g h)) h

  same_customer : (b : Bool) → not b ≡ false → b ≡ true
  same_customer true h = refl
  same_customer false h = cc h

  collect_pairs-IsOwnPair :
      (entries : List FtpMap) (pairs : List Pair)
      → All IsOwnPair pairs
      → Holds (All IsOwnPair) (collect_pairs groups customer entries pairs)
  unfolding collect_pairs
  collect_pairs-IsOwnPair [] pairs h = h
  collect_pairs-IsOwnPair (e ∷ rest) pairs h =
      bind-Holds (λ g. find_group g.id groups ≡ some g) (All IsOwnPair)
        (or_no_group (find_group e.group_id groups)) _
        (or_no_group-Holds e.group_id (find_group e.group_id groups) refl)
        (λ g f.
          refuse_then (All IsOwnPair)
            (not (text_eq (text_or_empty g.customer) (text_or_empty customer))) foreign_group _
            (λ c.
              bind-Holds (All IsOwnPair) (All IsOwnPair) (add_names g.id e.usernames pairs) _
                (add_names-IsOwnPair g.id e.usernames pairs (g, f, same_customer _ c) h)
                (λ more k. collect_pairs-IsOwnPair rest more k)))

-- A mapping of this account is to a group of its customer.
abbrev pub IsOwned : List Group → Row → FtpAccount → Type 0
IsOwned groups r a =
    (a.user_id == r.id) ≡ true → IsOwnPair groups r.user.customer (a.group_id, a.ftp_username)

others_of-IsOwned :
    (groups : List Group) (r : Row) (accounts : List FtpAccount)
    → All (IsOwned groups r) (others_of r.id accounts)
unfolding others_of
others_of-IsOwned groups r [] = tt
others_of-IsOwned groups r (a ∷ rest) = elim (Bool-cases (a.user_id == r.id)) [
  | inl e ↦ rw e (others_of-IsOwned groups r rest)
  | inr e ↦ rw e ((λ p. cc (sym e ∙ p)), others_of-IsOwned groups r rest)
]

as_accounts-IsOwned :
    (groups : List Group) (r : Row) (pairs : List Pair)
    → All (IsOwnPair groups r.user.customer) pairs
    → All (IsOwned groups r) (as_accounts r.id pairs)
unfolding as_accounts
as_accounts-IsOwned groups r [] h = tt
as_accounts-IsOwned groups r ((gid, name) ∷ rest) h =
    ((λ p. h.0), as_accounts-IsOwned groups r rest h.1)

-- Where _save_ftp_map is not refused, every FTP account that is stored for the account
-- afterwards is of a group of its own customer, and has a name that is not empty and has at most
-- 255 characters.
pub save_ftp_map-IsOwned :
    (r : Row) (entries : List FtpMap) (site : Site)
    → Holds (λ after. All (IsOwned site.groups r) after.ftp_accounts) (save_ftp_map r entries site)
unfolding save_ftp_map
save_ftp_map-IsOwned r entries site =
    let P : Site → Type 0 = λ after. All (IsOwned site.groups r) after.ftp_accounts in
    refuse_then P (is_admin r.user.role) not_a_customer _ (λ _.
      bind-Holds (All (IsOwnPair site.groups r.user.customer)) P
        (collect_pairs site.groups r.user.customer entries []) _
        (collect_pairs-IsOwnPair site.groups r.user.customer entries [] tt)
        (λ pairs h.
          refuse_then P (ltb max_ftp_accounts (length pairs)) too_many_ftp_accounts _ (λ _.
            All-append (IsOwned site.groups r) (others_of r.id site.ftp_accounts) _
              (others_of-IsOwned site.groups r site.ftp_accounts)
              (as_accounts-IsOwned site.groups r pairs h))))
