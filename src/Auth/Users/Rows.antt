-- ===== src/Auth/Users/Rows.antt =====
-- was/app/routers/users.py: which rows leave an active administrator.
use soltrace.Base.{
  some-injective, ℕ, ◌==◌, ◌≡◌, refl, ◌∙◌, sym, ap, Bool, true, false, not, ◌&&◌, ◌||◌, Bool-cases,
  some, inl, inr, List, [], ◌∷◌, ◌++◌, ==_iff,
}
use soltrace.Auth.Users.{Row, find_row, put_row, drop_row, is_active_admin, has_other_admin}

-- whether there is an active administrator
abbrev pub has_admin : List Row → Bool
has_admin [] = false
has_admin (r ∷ rest) = is_active_admin r || has_admin rest

pub or_left : (a b : Bool) → a ≡ true → (a || b) ≡ true
or_left a b h = rw h refl

pub or_right : (a b : Bool) → b ≡ true → (a || b) ≡ true
or_right true b h = refl
or_right false b h = h

pub has_admin_cons :
    (r : Row) (rest : List Row) → has_admin rest ≡ true → has_admin (r ∷ rest) ≡ true
has_admin_cons r rest h = or_right (is_active_admin r) (has_admin rest) h

pub has_admin_tail :
    (r : Row) (rest : List Row)
    → is_active_admin r ≡ false
    → has_admin (r ∷ rest) ≡ true
    → has_admin rest ≡ true
has_admin_tail r rest e h = rw e at h

pub has_other_admin-has_admin :
    (n : ℕ) (rows : List Row) → has_other_admin n rows ≡ true → has_admin rows ≡ true
unfolding has_other_admin
has_other_admin-has_admin n [] h = cc h
has_other_admin-has_admin n (r ∷ rest) h = elim (Bool-cases (is_active_admin r)) [
  | inl a ↦ or_left (is_active_admin r) (has_admin rest) a
  | inr a ↦ has_admin_cons r rest (has_other_admin-has_admin n rest (rw a at h))
]

pub not_self : (a c b : Bool) → c ≡ true → ((a && not c) || b) ≡ true → b ≡ true
not_self a false b e h = cc e
not_self true true b e h = h
not_self false true b e h = h

-- what counts of a row with another id, and of a row with this one
pub other_miss :
    (n : ℕ) (r : Row) (rest : List Row)
    → (r.id == n) ≡ true
    → has_other_admin n (r ∷ rest) ≡ true
    → has_other_admin n rest ≡ true
unfolding has_other_admin
other_miss n r rest e h = not_self (is_active_admin r) (r.id == n) (has_other_admin n rest) e h

pub put_row_hit :
    (r x : Row) (rest : List Row) → (x.id == r.id) ≡ true → put_row r (x ∷ rest) ≡ r ∷ rest
unfolding put_row
put_row_hit r x rest e = rw e refl

pub put_row_miss :
    (r x : Row) (rest : List Row)
    → (x.id == r.id) ≡ false
    → put_row r (x ∷ rest) ≡ x ∷ put_row r rest
unfolding put_row
put_row_miss r x rest e = rw e refl

pub put_row-other :
    (r : Row) (rows : List Row)
    → has_other_admin r.id rows ≡ true
    → has_admin (put_row r rows) ≡ true
unfolding has_other_admin put_row
put_row-other r [] h = cc h
put_row-other r (x ∷ rest) h = elim (Bool-cases (x.id == r.id)) [
  | inl e ↦
      rw (put_row_hit r x rest e)
        (has_admin_cons r rest (has_other_admin-has_admin r.id rest (other_miss r.id x rest e h)))
  | inr e ↦ rw (put_row_miss r x rest e) (elim (Bool-cases (is_active_admin x)) [
    | inl a ↦ or_left (is_active_admin x) (has_admin (put_row r rest)) a
    | inr a ↦ has_admin_cons x (put_row r rest) (put_row-other r rest (rw a at h))
  ])
]

pub drop_row-other :
    (n : ℕ) (rows : List Row) → has_other_admin n rows ≡ true → has_admin (drop_row n rows) ≡ true
unfolding has_other_admin drop_row
drop_row-other n [] h = cc h
drop_row-other n (x ∷ rest) h = elim (Bool-cases (x.id == n)) [
  | inl e ↦ rw e (has_other_admin-has_admin n rest (other_miss n x rest e h))
  | inr e ↦ rw e (elim (Bool-cases (is_active_admin x)) [
    | inl a ↦ or_left (is_active_admin x) (has_admin (drop_row n rest)) a
    | inr a ↦ has_admin_cons x (drop_row n rest) (drop_row-other n rest (rw a at h))
  ])
]

pub find_hit :
    (n : ℕ) (x : Row) (rest : List Row) → (x.id == n) ≡ true → find_row n (x ∷ rest) ≡ some x
unfolding find_row
find_hit n x rest e = rw e refl

pub find_miss :
    (n : ℕ) (x : Row) (rest : List Row)
    → (x.id == n) ≡ false
    → find_row n (x ∷ rest) ≡ find_row n rest
unfolding find_row
find_miss n x rest e = rw e refl

-- A row that is put in the place of one counts at least as much.
pub put_row-found :
    (r found : Row) (rows : List Row)
    → find_row r.id rows ≡ some found
    → (is_active_admin found ≡ true → is_active_admin r ≡ true)
    → has_admin rows ≡ true
    → has_admin (put_row r rows) ≡ true
unfolding find_row put_row
put_row-found r found [] f k h = cc f
put_row-found r found (x ∷ rest) f k h = elim (Bool-cases (x.id == r.id)) [
  | inl e ↦
      let same : x ≡ found = some-injective x found (sym (find_hit r.id x rest e) ∙ f) in
      rw (put_row_hit r x rest e) (elim (Bool-cases (is_active_admin x)) [
        | inl a ↦
            or_left (is_active_admin r) (has_admin rest) (k (ap is_active_admin (sym same) ∙ a))
        | inr a ↦ has_admin_cons r rest (has_admin_tail x rest a h)
      ])
  | inr e ↦ rw (put_row_miss r x rest e) (elim (Bool-cases (is_active_admin x)) [
    | inl a ↦ or_left (is_active_admin x) (has_admin (put_row r rest)) a
    | inr a ↦ has_admin_cons x (put_row r rest) (
        put_row-found r found rest (sym (find_miss r.id x rest e) ∙ f) k
          (has_admin_tail x rest a h))
  ])
]

pub has_admin-append :
    (rows : List Row) (r : Row) → has_admin rows ≡ true → has_admin (rows ++ r ∷ []) ≡ true
has_admin-append [] r h = cc h
has_admin-append (x ∷ rest) r h = elim (Bool-cases (is_active_admin x)) [
  | inl a ↦ or_left (is_active_admin x) (has_admin (rest ++ r ∷ [])) a
  | inr a ↦ has_admin_cons x (rest ++ r ∷ []) (has_admin-append rest r (has_admin_tail x rest a h))
]

pub find_row_id : (n : ℕ) (rows : List Row) (r : Row) → find_row n rows ≡ some r → r.id ≡ n
unfolding find_row
find_row_id n [] r h = cc h
find_row_id n (x ∷ rest) r h = elim (Bool-cases (x.id == n)) [
  | inl e ↦ ap (λ y. y.id) (sym (some-injective x r (rw e at h))) ∙ (==_iff x.id n).0 e
  | inr e ↦ find_row_id n rest r (rw e at h)
]

pub drop_row-none :
    (n : ℕ) (rows : List Row) (r : Row)
    → find_row n rows ≡ some r
    → is_active_admin r ≡ false
    → has_admin rows ≡ true
    → has_admin (drop_row n rows) ≡ true
unfolding drop_row
drop_row-none n [] r f a h = cc h
drop_row-none n (x ∷ rest) r f a h = elim (Bool-cases (x.id == n)) [
  | inl e ↦
      let same : x ≡ r = some-injective x r (sym (find_hit n x rest e) ∙ f) in
      rw e (has_admin_tail x rest (ap is_active_admin same ∙ a) h)
  | inr e ↦ rw e (elim (Bool-cases (is_active_admin x)) [
    | inl k ↦ or_left (is_active_admin x) (has_admin (drop_row n rest)) k
    | inr k ↦
        has_admin_cons x (drop_row n rest)
          (drop_row-none n rest r (sym (find_miss n x rest e) ∙ f) a (has_admin_tail x rest k h))
  ])
]
