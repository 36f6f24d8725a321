-- ===== src/Daemon/Sessions.antt =====
-- ftp-daemon/soltrace_daemon.py: what the parser remembers of a session between two lines. A store is
-- its entries in the order of insertion, as a dict keeps them; times are whole seconds.
use soltrace.Base.{
  ap, ◌∙◌, ◌++◌, ◌⊎◌, All, length-append, length-drop, ℕ, zero, suc, ◌+◌, ◌-◌, ◌/◌, ◌≤◌, ◌≡◌, refl,
  ltb, false, not, Option, none, some, List, [], ◌∷◌, length, drop, select, Bool-cases, inl, inr,
  if◌then◌else◌, arith,
}
use soltrace.Auth.Text.{Text, text_eq, text_eq_refl}

pub record Session : Type 0 where
  pub pid : Text
  pub value : Option Text
  pub at : ℕ

-- `_SESSION_TTL`, `_MAX_SESSIONS`
abbrev pub session_ttl : ℕ
session_ttl = 300

abbrev pub max_sessions : ℕ
max_sessions = 20000

-- `store[pid] = …`, which keeps the place of a key that is there
unfoldable pub store_set : Session → List Session → List Session
store_set s [] = s ∷ []
store_set s (x ∷ xs) = if text_eq x.pid s.pid then s ∷ xs else x ∷ store_set s xs

unfoldable pub store_get : Text → List Session → Option Session
store_get pid [] = none
store_get pid (x ∷ xs) = if text_eq x.pid pid then some x else store_get pid xs

-- `pop(pid, None)`: the entry is looked up, and gone
unfoldable pub store_pop : Text → List Session → List Session
store_pop pid [] = []
store_pop pid (x ∷ xs) = if text_eq x.pid pid then xs else x ∷ store_pop pid xs

-- `_remember`, at the time that the clock gives
unfoldable pub remember : ℕ → Text → Option Text → List Session → List Session
remember now pid value store =
    let all = store_set (record { pid = pid; value = value; at = now }) store in
    if ltb max_sessions (length all) then drop (length all - max_sessions / 2) all else all

-- `_flush_stale_sessions`, on one of the stores
unfoldable pub flush_stale : ℕ → List Session → List Session
flush_stale now store = select (λ (s : Session). not (ltb (s.at + session_ttl) now)) store

pub store_set-length : (s : Session) (xs : List Session) → length (store_set s xs) ≤ length xs + 1
unfolding store_set
store_set-length s [] = omega arith
store_set-length s (x ∷ xs) = ground (arith, store_set-length s xs)

-- The store is within the limit afterwards if it was before.
pub remember-bounded :
    (now : ℕ) (pid : Text) (value : Option Text) (store : List Session)
    → length store ≤ max_sessions
    → length (remember now pid value store) ≤ max_sessions
unfolding remember
remember-bounded now pid value store h =
    let all = store_set (record { pid = pid; value = value; at = now }) store in
    ground (arith, length-drop (length all - max_sessions / 2) all)

get_set : (s : Session) (xs : List Session) → store_get s.pid (store_set s xs) ≡ some s
unfolding store_set store_get
get_set s [] = rw (text_eq_refl s.pid) refl
get_set s (x ∷ xs) = elim (Bool-cases (text_eq x.pid s.pid)) [
  | inl e ↦ rw e (rw (text_eq_refl s.pid) refl)
  | inr e ↦ rw e (rw e (get_set s xs))
]

abbrev IsOther : Session → Session → Type 0
IsOther s x = text_eq x.pid s.pid ≡ false

-- A key that is there keeps the length, and a new one comes last.
set_new :
    (s : Session) (xs : List Session)
    → (length (store_set s xs) ≡ length xs) ⊎ ((store_set s xs ≡ xs ++ s ∷ []) × All (IsOther s) xs)
unfolding store_set
set_new s [] = inr (refl, tt)
set_new s (x ∷ xs) = elim (Bool-cases (text_eq x.pid s.pid)) [
  | inl e ↦ inl (rw e refl)
  | inr e ↦ elim (set_new s xs) [
    | inl same ↦ inl (rw e (ap suc same))
    | inr (last, others) ↦ inr (rw e (ap (λ l. x ∷ l) last), (e, others))
  ]
]

get_last :
    (s : Session) (n : ℕ) (xs : List Session)
    → n ≤ length xs
    → All (IsOther s) xs
    → store_get s.pid (drop n (xs ++ s ∷ [])) ≡ some s
unfolding store_get
get_last s zero [] h o = rw (text_eq_refl s.pid) refl
get_last s (suc n) [] h o = ground arith
get_last s zero (x ∷ xs) h o = rw (o.0) (get_last s zero xs (omega arith) o.1)
get_last s (suc n) (x ∷ xs) h o = get_last s n xs (omega arith) o.1

-- What was remembered of a session is found, also when older sessions had to go, if the store
-- was within the limit.
pub remember-found :
    (now : ℕ) (pid : Text) (value : Option Text) (store : List Session)
    → length store ≤ max_sessions
    → store_get pid (remember now pid value store)
      ≡ some (record { pid = pid; value = value; at = now })
unfolding remember
remember-found now pid value store h =
    let s : Session = record { pid = pid; value = value; at = now } in
    let all = store_set s store in
    elim (Bool-cases (ltb max_sessions (length all))) [
      | inr few ↦ rw (few, remember) (get_set s store)
      | inl many ↦ elim (set_new s store) [
        | inl same ↦ ground (arith, same)
        | inr (last, others) ↦
            let n = length all - max_sessions / 2 in
            let size = length-append store (s ∷ []) in
            let total : length all ≡ length (store ++ s ∷ []) = ap length last in
            rw (many, remember)
              (ap (λ l. store_get pid (drop n l)) last
                ∙ get_last s n store (ground (arith, total, size)) others)
      ]
    ]
