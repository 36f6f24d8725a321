-- ===== src/Daemon/Status/Shown.antt =====
-- ftp-daemon/soltrace_daemon.py: what the server holds after the reports of `_collect_status`.
use soltrace.Base.{
  if◌then◌else◌, not, ◌&&◌, ◌++◌, sym, ap, arith, Bool, true, false, Option, none, some, List, [],
  ◌∷◌, ◌≡◌, refl, ◌⊎◌, inl, inr, Bool-cases,
}
use soltrace.Monitor.Float.{Float}
use soltrace.Daemon.Status.{
  is_far, Text, changed_at, Key, Value, absent, word, number, Dict, value_at, is_present, set_value,
  store_report, update, threshold, clears_on_zero, is_zero, is_changed, dirty_of, collect_status,
}
use soltrace.Auth.Text.{text_eq_sound}

abbrev pub nothing_sent : {R : Type 0} → Dict R
nothing_sent key = none

module _ (f : Float) where
  open f use {R, sub, abs, lt}

  -- less than the field's threshold apart, and both zero or neither where that is told apart
  abbrev pub Near : Key → R → R → Type 0
  Near key v w =
      (limit : R) × (threshold f key ≡ some limit)
      × (lt (abs (sub v w)) limit ≡ true)
      × (clears_on_zero key ≡ true → is_zero f v ≡ is_zero f w)

  -- what the server holds for a value: the text itself, and a number or one near it
  abbrev pub Shown : Key → Value R → Value R → Type 0
  Shown key absent held = Unit
  Shown key (word s) held = held ≡ word s
  Shown key (number v) held = (w : R) × (held ≡ number w) × ((w ≡ v) ⊎ Near key v w)

  pub record Report : Type 0 where
    pub force : Bool
    pub current : Key → Value R

  -- the reports of a run, each delivered: what the daemon remembers, and what the server holds
  unfoldable pub run_reports : List Report → Dict R → Dict R → Dict R × Dict R
  run_reports [] prev held = (prev, held)
  run_reports (r ∷ rs) prev held =
      let (sent, prev') = collect_status f r.force r.current prev in
      run_reports rs prev' (store_report sent held)

  -- The server holds every value that the daemon remembers to have reported.
  abbrev pub Agrees : Dict R → Dict R → Type 0
  Agrees prev held =
      (key : Key)
      → is_present (value_at (prev key)) ≡ true
      → value_at (held key) ≡ value_at (prev key)

  set_value-present :
      (v : Value R) (old : Option (Value R)) → is_present v ≡ true → value_at (set_value v old) ≡ v
  set_value-present absent old h = cc h
  set_value-present (word s) old h = refl
  set_value-present (number x) old h = refl

  collect_status-Agrees :
      (r : Report) (prev held : Dict R)
      → Agrees prev held
      → Agrees
          (collect_status f r.force r.current prev).1
          (store_report (collect_status f r.force r.current prev).0 held)
  unfolding collect_status store_report update dirty_of
  collect_status-Agrees r prev held agrees key = elim (Bool-cases r.force) [
    | inl e ↦ rw e (set_value-present (r.current key) (held key))
    | inr e ↦ elim (Bool-cases (is_changed f key (r.current key) (value_at (prev key)))) [
      | inl c ↦ rw (e, c) (set_value-present (r.current key) (held key))
      | inr c ↦ rw (e, c) (agrees key)
    ]
  ]

  same_zero : (c a b : Bool) → (c && (if a then not b else b)) ≡ false → c ≡ true → a ≡ b
  same_zero c true b h e = ground arith
  same_zero c false b h e = ground arith

  Near-at :
      (key : Key) (v w : R) (l : Option R)
      → threshold f key ≡ l
      → changed_at f key l (number v) (number w) ≡ false
      → Near key v w
  Near-at key v w none t h = cc h
  Near-at key v w (some limit) t h = elim (Bool-cases (is_far f limit v w)) [
    | inl e ↦ cc (rw e at h)
    | inr e ↦ (
      limit,
      t,
      ground arith,
      same_zero (clears_on_zero key) (is_zero f v) (is_zero f w) (rw e at h),
    )
  ]

  same_word :
      (key : Key) (s : Text) (prev : Value R) (l : Option R)
      → changed_at f key l (word s) prev ≡ false
      → (is_present prev ≡ true) × (prev ≡ word s)
  same_word key s prev (some limit) h = cc h
  same_word key s absent none h = cc h
  same_word key s (number x) none h = cc h
  same_word key s (word t) none h = (refl, ap word (sym (text_eq_sound s t (ground arith))))

  new_number :
      (key : Key) (v : R) (prev : Value R) (l : Option R)
      → changed_at f key l (number v) prev ≡ false
      → (w : R) × (prev ≡ number w)
  new_number key v (number w) l h = (w, refl)
  new_number key v absent none h = cc h
  new_number key v absent (some limit) h = cc h
  new_number key v (word s) none h = cc h
  new_number key v (word s) (some limit) h = cc h

  -- A value that is not reported is shown by the one before it.
  unchanged-Shown :
      (key : Key) (v prev : Value R)
      → is_changed f key v prev ≡ false
      → is_present v ≡ true
      → (is_present prev ≡ true) × Shown key v prev
  unfolding is_changed
  unchanged-Shown key absent prev h p = cc p
  unchanged-Shown key (word s) prev h p = same_word key s prev (threshold f key) h
  unchanged-Shown key (number v) prev h p =
      let (w, e) = new_number key v prev (threshold f key) h in
      (rw e refl, (w, e, inr (Near-at key v w (threshold f key) refl (rw e at h))))

  Shown-self : (key : Key) (v : Value R) → Shown key v v
  Shown-self key absent = tt
  Shown-self key (word s) = refl
  Shown-self key (number x) = (x, refl, inl refl)

  Shown-absent : (key : Key) (v held : Value R) → is_present v ≡ false → Shown key v held
  Shown-absent key absent held h = tt
  Shown-absent key (word s) held h = cc h
  Shown-absent key (number x) held h = cc h

  Shown-set_value :
      (key : Key) (v : Value R) (old : Option (Value R)) → Shown key v (value_at (set_value v old))
  Shown-set_value key v old = elim (Bool-cases (is_present v)) [
    | inl p ↦ rw (set_value-present v old p) (Shown-self key v)
    | inr p ↦ Shown-absent key v _ p
  ]

  report-Shown :
      (force : Bool) (current : Key → Value R) (prev held : Dict R)
      → Agrees prev held
      → (key : Key)
      → Shown key
          (current key)
          (value_at (store_report (collect_status f force current prev).0 held key))
  unfolding collect_status store_report dirty_of
  report-Shown force current prev held agrees key = elim (Bool-cases force) [
    | inl e ↦ rw e (Shown-set_value key (current key) (held key))
    | inr e ↦ elim (Bool-cases (is_changed f key (current key) (value_at (prev key)))) [
      | inl c ↦ rw (e, c) (Shown-set_value key (current key) (held key))
      | inr c ↦ elim (Bool-cases (is_present (current key))) [
        | inr p ↦ Shown-absent key (current key) _ p
        | inl p ↦
            let (q, s) = unchanged-Shown key (current key) (value_at (prev key)) c p in
            rw (e, c, agrees key q) s
      ]
    ]
  ]

  run-Shown :
      (rs : List Report) (r : Report) (prev held : Dict R)
      → Agrees prev held
      → (key : Key)
      → Shown key (r.current key) (value_at ((run_reports (rs ++ r ∷ []) prev held).1 key))
  unfolding run_reports
  run-Shown [] r prev held agrees key = report-Shown r.force r.current prev held agrees key
  run-Shown (x ∷ rs) r prev held agrees key =
      run-Shown rs r _ _ (collect_status-Agrees x prev held agrees) key

  -- The server shows the daemon as it is: after any run of reports that all arrive, whatever it
  -- held before, each field of the last status whose value is not None is what the server holds
  -- for it, or, for a number with a threshold, lies less than the threshold from it, with both
  -- zero or neither for a counter that is cleared on zero.
  pub run_reports-Shown :
      (rs : List Report) (r : Report) (held : Dict R) (key : Key)
      → Shown key (r.current key) (value_at ((run_reports (rs ++ r ∷ []) nothing_sent held).1 key))
  run_reports-Shown rs r held key = run-Shown rs r nothing_sent held (λ k p. cc p) key
