-- ===== src/Monitor/Detect/Found.antt =====
-- was/app/service_monitor.py: what `_detect` finds: alerts about the candidates, and all of them.
use soltrace.Base.{
  ℕ, ◌≡◌, subst, ◌==◌, ==_iff, true, Bool-cases, inl, inr, List, [], ◌∷◌, select, All, All-append,
  All-map, All-both, All-select, All-selected, All-each, ==_refl,
}
use soltrace.Base.Groups.{All-group_by, group_by, group_at, group_by_exact}
use soltrace.Monitor.Alert.{Alert}
use soltrace.Monitor.Float.{Float}
use soltrace.Monitor.Eval.{Metrics, Thresholds, eval_bucket}
use soltrace.Monitor.Eval.Sound.{IsFounded, eval_bucket-IsFounded}
use soltrace.Monitor.Detect.{
  Schedule, is_baseline, is_candidate, is_read, comes_first, insert_row, order_rows, read_rows,
  eval_each, eval_device, eval_devices, found,
}

module _ (f : Float) where
  open f use {R}

  insert_row-All :
      (P : Metrics f → Type 0) (r : Metrics f) (rows : List (Metrics f))
      → P r
      → All P rows
      → All P (insert_row f r rows)
  unfolding insert_row
  insert_row-All P r [] p h = (p, tt)
  insert_row-All P r (x ∷ xs) p h = elim (Bool-cases (comes_first f r x)) [
    | inl e ↦ rw e (p, h)
    | inr e ↦ rw e (h.0, insert_row-All P r xs p h.1)
  ]

  order_rows-All :
      (P : Metrics f → Type 0) (rows : List (Metrics f)) → All P rows → All P (order_rows f rows)
  unfolding order_rows
  order_rows-All P [] h = tt
  order_rows-All P (r ∷ rows) h =
      insert_row-All P r (order_rows f rows) h.0 (order_rows-All P rows h.1)

  All-inserted_row :
      (P : Metrics f → Type 0) (r : Metrics f) (rows : List (Metrics f))
      → All P (insert_row f r rows)
      → P r × All P rows
  unfolding insert_row
  All-inserted_row P r [] h = h
  All-inserted_row P r (x ∷ xs) h = elim (Bool-cases (comes_first f r x)) [
    | inl e ↦ rw e at h
    | inr e ↦ let k = rw e at h in let q = All-inserted_row P r xs k.1 in (q.0, (k.0, q.1))
  ]

  All-ordered :
      (P : Metrics f → Type 0) (rows : List (Metrics f)) → All P (order_rows f rows) → All P rows
  unfolding order_rows
  All-ordered P [] h = tt
  All-ordered P (r ∷ rows) h =
      let q = All-inserted_row P r (order_rows f rows) h in (q.0, All-ordered P rows q.1)

  module _ (cfg : Thresholds f) (s : Schedule) (now : ℕ) where
    -- What is founded on a candidate that P holds of.
    abbrev pub FromCandidate : (Metrics f → Type 0) → Alert R → Type 0
    FromCandidate P a =
        (cand : Metrics f) × P cand × (is_candidate f s now cand ≡ true) × IsFounded f cand cfg a

    eval_each-From :
        (P : Metrics f → Type 0) (base drows : List (Metrics f))
        → All P drows
        → All (FromCandidate P) (eval_each f cfg base (select (is_candidate f s now) drows))
    unfolding eval_each
    eval_each-From P base [] h = tt
    eval_each-From P base (cand ∷ rest) h = elim (Bool-cases (is_candidate f s now cand)) [
      | inl e ↦ rw e (
          All-append (FromCandidate P) (eval_bucket f cand base cfg) _
            (All-map (IsFounded f cand cfg) (FromCandidate P) (eval_bucket f cand base cfg)
              (λ a k. (cand, h.0, e, k)) (eval_bucket-IsFounded f cand base cfg))
            (eval_each-From P base rest h.1))
      | inr e ↦ rw e (eval_each-From P base rest h.1)
    ]

    eval_devices-From :
        (P : Metrics f → Type 0) (groups : List (ℕ × List (Metrics f)))
        → All (λ g. All P g.1) groups
        → All (FromCandidate P) (eval_devices f cfg s now groups)
    unfolding eval_devices
    eval_devices-From P [] h = tt
    eval_devices-From P ((d, drows) ∷ rest) h =
        All-append (FromCandidate P) (eval_device f cfg s now drows) _
          (eval_each-From P (select (is_baseline f s now) drows) drows h.0)
          (eval_devices-From P rest h.1)

    pub found-From :
        (P : Metrics f → Type 0) (rows : List (Metrics f))
        → All P rows
        → All (FromCandidate P) (found f cfg s now rows)
    unfolding found read_rows
    found-From P rows h = eval_devices-From P _ (
        All-group_by P (λ a b. a == b) (λ r. r.device_id) (read_rows f s now rows) []
          (order_rows-All P (select (is_read f s now) rows) (All-select P (is_read f s now) rows h))
          tt)

    eval_each-parts :
        (P : Alert R → Type 0) (base cands : List (Metrics f))
        → All P (eval_each f cfg base cands)
        → All (λ cand. All P (eval_bucket f cand base cfg)) cands
    unfolding eval_each
    eval_each-parts P base [] h = tt
    eval_each-parts P base (cand ∷ rest) h =
        let r = All-both P (eval_bucket f cand base cfg) (eval_each f cfg base rest) h in
        (r.0, eval_each-parts P base rest r.1)

    eval_devices-at :
        (P : Alert R → Type 0) (groups : List (ℕ × List (Metrics f))) (t : ℕ)
        → All P (eval_devices f cfg s now groups)
        → All P (eval_device f cfg s now (group_at (λ a b. a == b) t groups))
    unfolding eval_devices eval_each
    eval_devices-at P [] t h = tt
    eval_devices-at P ((d, drows) ∷ rest) t h =
        let r = All-both P (eval_device f cfg s now drows) (eval_devices f cfg s now rest) h in
        elim (Bool-cases (d == t)) [
          | inl e ↦ rw e r.0
          | inr e ↦ rw e (eval_devices-at P rest t r.1)
        ]

    -- the rows that a candidate is compared with
    abbrev pub usual_rows : List (Metrics f) → Metrics f → List (Metrics f)
    usual_rows rows cand =
        select (is_baseline f s now)
          (select (λ r. r.device_id == cand.device_id) (read_rows f s now rows))

    -- Every alert about this candidate is P.
    abbrev pub Judged : (Alert R → Type 0) → List (Metrics f) → Metrics f → Type 0
    Judged P rows cand =
        is_read f s now cand ≡ true
        → is_candidate f s now cand ≡ true
        → All P (eval_bucket f cand (usual_rows rows cand) cfg)

    pub found-Judged :
        (P : Alert R → Type 0) (rows : List (Metrics f))
        → All P (found f cfg s now rows)
        → All (Judged P rows) rows
    unfolding found read_rows
    found-Judged P rows h =
        let read = read_rows f s now rows in
        let groups = group_by (λ a b. a == b) (λ r. r.device_id) read [] in
        let base : ℕ → List (Metrics f) =
          λ t. select (is_baseline f s now) (select (λ r. r.device_id == t) read) in
        let Good : ℕ → Metrics f → Type 0 = λ t cand.
          is_read f s now cand ≡ true
          → (cand.device_id == t) ≡ true
          → is_candidate f s now cand ≡ true
          → All P (eval_bucket f cand (base t) cfg) in
        All-map (λ cand. (t : ℕ) → Good t cand) (Judged P rows) rows
          (λ cand k read_it is_cand. k cand.device_id read_it (==_refl cand.device_id) is_cand)
          (All-each Good rows (λ t. All-selected _ (is_read f s now) rows (
            All-ordered _ (select (is_read f s now) rows) (
              All-selected _ (λ r. r.device_id == t) read
                (All-selected _ (is_candidate f s now) (select (λ r. r.device_id == t) read) (
                  eval_each-parts P (base t) _ (
                    subst (λ drows. All P (eval_device f cfg s now drows))
                      ((group_by_exact (λ a b. a == b) ==_refl (λ a b. (==_iff a b).0)
                          (λ r. r.device_id) read).0
                        t)
                      (eval_devices-at P groups t h))))))))
