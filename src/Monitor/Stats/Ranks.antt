-- ===== src/Monitor/Stats/Ranks.antt =====
-- was/app/service_monitor.py: where the statistics stand among the observations.
use soltrace.Base.{
  subst, some-injective, count-le-length, ◌≢◌, ℕ, zero, suc, ◌+◌, ◌*◌, ◌-◌, ◌/◌, ◌%◌, ◌≤◌, ◌<◌, ◌≡◌,
  ◌==◌, refl, min, some, List, [], ◌∷◌, length, count, All, Bool, true, false, arith, inl, inr,
  Bool-cases,
}
use soltrace.Base.Index.{get_elem?, get_elem?-lt}
use soltrace.Monitor.Float.{Float}
use soltrace.Monitor.Stats.{insert_sorted, sorted, median, percentile}

module _ (f : Float) where
  open f use {R, of_ℕ, add, div, lt, part}

  -- Each value is followed by none that is smaller.
  abbrev IsSorted : List R → Type 0
  IsSorted [] = Unit
  IsSorted (x ∷ xs) = All (λ y. lt y x ≡ false) xs × IsSorted xs

  count-insert_sorted :
      (p : R → Bool) (x : R) (xs : List R) → count p (insert_sorted f x xs) ≡ count p (x ∷ xs)
  unfolding insert_sorted count
  count-insert_sorted p x [] = refl
  count-insert_sorted p x (y ∷ ys) = ground (arith, count-insert_sorted p x ys)

  count-sorted : (p : R → Bool) (xs : List R) → count p (sorted f xs) ≡ count p xs
  unfolding sorted count
  count-sorted p [] = refl
  count-sorted p (x ∷ xs) = ground (arith, count-insert_sorted p x (sorted f xs), count-sorted p xs)

  length-insert_sorted : (x : R) (xs : List R) → length (insert_sorted f x xs) ≡ suc (length xs)
  unfolding insert_sorted
  length-insert_sorted x [] = refl
  length-insert_sorted x (y ∷ ys) = ground (arith, length-insert_sorted x ys)

  length-sorted : (xs : List R) → length (sorted f xs) ≡ length xs
  unfolding sorted
  length-sorted [] = refl
  length-sorted (x ∷ xs) = omega (arith, length-insert_sorted x (sorted f xs), length-sorted xs)

  insert_sorted-All :
      (lo x : R) (xs : List R)
      → lt x lo ≡ false
      → All (λ y. lt y lo ≡ false) xs
      → All (λ y. lt y lo ≡ false) (insert_sorted f x xs)
  unfolding insert_sorted
  insert_sorted-All lo x [] h hs = (h, tt)
  insert_sorted-All lo x (y ∷ ys) h hs = elim (Bool-cases (lt y x)) [
    | inl below ↦ rw below (hs.0, insert_sorted-All lo x ys h hs.1)
    | inr above ↦ rw above (h, hs)
  ]

  All-lower :
      (lo hi : R) (xs : List R)
      → lt hi lo ≡ false
      → All (λ y. lt y hi ≡ false) xs
      → All (λ y. lt y lo ≡ false) xs
  All-lower lo hi [] h hs = tt
  All-lower lo hi (x ∷ xs) h hs = (f.ge_trans x hi lo hs.0 h, All-lower lo hi xs h hs.1)

  not_below : (x y : R) → lt y x ≡ true → lt x y ≡ false
  not_below x y h = ground (arith, f.lt_trans x y x, f.lt_irrefl x)

  insert_sorted-IsSorted : (x : R) (xs : List R) → IsSorted xs → IsSorted (insert_sorted f x xs)
  unfolding insert_sorted
  insert_sorted-IsSorted x [] s = (tt, tt)
  insert_sorted-IsSorted x (y ∷ ys) s = elim (Bool-cases (lt y x)) [
    | inl below ↦
        rw below
          (insert_sorted-All y x ys (not_below x y below) s.0, insert_sorted-IsSorted x ys s.1)
    | inr above ↦ rw above ((above, All-lower x y ys above s.0), s)
  ]

  sorted-IsSorted : (xs : List R) → IsSorted (sorted f xs)
  unfolding sorted
  sorted-IsSorted [] = tt
  sorted-IsSorted (x ∷ xs) = insert_sorted-IsSorted x (sorted f xs) (sorted-IsSorted xs)

  All-get_elem? :
      (P : R → Bool) (xs : List R) (i : ℕ) (v : R)
      → All (λ y. P y ≡ false) xs
      → get_elem? xs i ≡ some v
      → P v ≡ false
  All-get_elem? P [] i v h e = cc
  All-get_elem? P (x ∷ xs) zero v h e = ground arith
  All-get_elem? P (x ∷ xs) (suc i) v h e = All-get_elem? P xs i v h.1 e

  count_none : (p : R → Bool) (xs : List R) → All (λ y. p y ≡ false) xs → count p xs ≡ 0
  unfolding count
  count_none p [] h = refl
  count_none p (x ∷ xs) h = ground (arith, count_none p xs h.1)

  ranks_head :
      (x : R) (xs : List R)
      → All (λ y. lt y x ≡ false) xs
      → (count (λ y. lt y x) (x ∷ xs) ≤ 0)
        × (count (λ y. lt x y) (x ∷ xs) + 0 + 1 ≤ length (x ∷ xs))
  unfolding count
  ranks_head x xs h =
      let self = f.lt_irrefl x in
      let none_below = count_none (λ y. lt y x) xs h in
      let most = count-le-length (λ y. lt x y) xs in
      rw (self) (omega (arith, none_below), omega (arith, most))

  -- The value at index `i` of a sorted list has at most `i` values below it, and at most those
  -- behind it above it.
  ranks :
      (s : List R) (i : ℕ) (v : R)
      → IsSorted s
      → get_elem? s i ≡ some v
      → (count (λ x. lt x v) s ≤ i) × (count (λ x. lt v x) s + i + 1 ≤ length s)
  unfolding count
  ranks [] i v h e = cc
  ranks (x ∷ xs) zero v h e =
      subst
        (λ w.
          (count (λ y. lt y w) (x ∷ xs) ≤ 0)
          × (count (λ y. lt w y) (x ∷ xs) + 0 + 1 ≤ length (x ∷ xs)))
        (some-injective x v e) (ranks_head x xs h.0)
  ranks (x ∷ xs) (suc i) v h e =
      ground (arith, ranks xs i v h.1 e, All-get_elem? (λ y. lt y x) xs i v h.0 e)

  count_mono :
      (p q : R → Bool) (xs : List R) → ((x : R) → p x ≡ true → q x ≡ true) → count p xs ≤ count q xs
  unfolding count
  count_mono p q [] h = omega arith
  count_mono p q (x ∷ xs) h = ground (arith, h x, count_mono p q xs h)

  adjacent :
      (s : List R) (i : ℕ) (a b : R)
      → IsSorted s
      → get_elem? s i ≡ some a
      → get_elem? s (suc i) ≡ some b
      → lt b a ≡ false
  adjacent [] i a b h e e' = cc
  adjacent (x ∷ xs) zero a b h e e' =
      rw (← some-injective x a e) (All-get_elem? (λ y. lt y x) xs zero b h.0 e')
  adjacent (x ∷ xs) (suc i) a b h e e' = adjacent xs i a b h.1 e e'

  -- A value has at most half of the observations below it and at most half above it.
  abbrev pub IsMiddle : List R → R → Type 0
  IsMiddle xs v =
      (2 * count (λ x. lt x v) xs ≤ length xs) × (2 * count (λ x. lt v x) xs ≤ length xs)

  IsMiddle-odd :
      (s : List R) (v : R)
      → IsSorted s
      → length s % 2 ≢ 0
      → get_elem? s (length s / 2) ≡ some v
      → IsMiddle s v
  IsMiddle-odd s v h odd e =
      let r = ranks s (length s / 2) v h e in (omega (arith, r.0), omega (arith, r.1))

  IsMiddle-even :
      (s : List R) (a b : R)
      → IsSorted s
      → 0 < length s
      → length s % 2 ≡ 0
      → get_elem? s (length s / 2 - 1) ≡ some a
      → get_elem? s (length s / 2) ≡ some b
      → IsMiddle s (div (add a b) (of_ℕ 2))
  IsMiddle-even s a b h pos even ea eb =
      let mid = div (add a b) (of_ℕ 2) in
      let m = length s / 2 in
      let next : suc (m - 1) ≡ m = omega arith in
      let le = adjacent s (m - 1) a b h ea (rw next eb) in
      let below =
        count_mono (λ x. lt x mid) (λ x. lt x b) s
          (λ x l. ground (arith, f.ge_trans x b mid, f.mean_le a b)) in
      let above =
        count_mono (λ x. lt mid x) (λ x. lt a x) s
          (λ x l. ground (arith, f.ge_trans mid a x, f.mean_ge a b)) in
      let ra = ranks s (m - 1) a h ea in
      let rb = ranks s m b h eb in (omega (arith, below, rb.0), omega (arith, above, ra.1))

  IsMiddle-sorted : (xs : List R) (v : R) → IsMiddle (sorted f xs) v → IsMiddle xs v
  IsMiddle-sorted xs v h =
      rw (← length-sorted xs, ← count-sorted (λ x. lt x v) xs, ← count-sorted (λ x. lt v x) xs) h

  -- Observations that are not empty have a median, and at most half of them are below it and at
  -- most half above it.
  pub median-IsMiddle :
      (xs : List R) → 0 < length xs → (v : R) × (median f xs ≡ some v) × IsMiddle xs v
  unfolding median
  median-IsMiddle xs h =
      let s = sorted f xs in
      let m = length s / 2 in
      let same = length-sorted xs in
      let order = sorted-IsSorted xs in
      elim (Bool-cases (length s % 2 == 0)) [
        | inl even ↦
            let (a, ea) = get_elem?-lt s (m - 1) (omega arith) in
            let (b, eb) = get_elem?-lt s m (omega arith) in
            (
              div (add a b) (of_ℕ 2),
              ground (arith, ea, eb, same),
              IsMiddle-sorted xs _ (IsMiddle-even s a b order (omega arith) (ground arith) ea eb),
            )
        | inr odd ↦
            let (v, e) = get_elem?-lt s m (omega arith) in
            (
              v,
              ground (arith, e, same),
              IsMiddle-sorted xs v (IsMiddle-odd s v order (ground arith) e),
            )
      ]

  count_found :
      (q : R → Bool) (s : List R) (i : ℕ) (v : R)
      → get_elem? s i ≡ some v
      → q v ≡ true
      → 1 ≤ count q s
  unfolding count
  count_found q [] i v e h = cc
  count_found q (x ∷ xs) zero v e h =
      let hx : q x ≡ true = rw (some-injective x v e) h in rw hx (omega arith)
  count_found q (x ∷ xs) (suc i) v e h = omega (arith, count_found q xs i v e h)

  -- A percentile of observations that are not empty is one of them: whatever test it passes, one
  -- of them passes.
  pub percentile-observed :
      (xs : List R) (p : R)
      → 0 < length xs
      → (v : R) × (percentile f xs p ≡ some v) × ((q : R → Bool) → q v ≡ true → 1 ≤ count q xs)
  unfolding percentile
  percentile-observed xs p h =
      let s = sorted f xs in
      let same = length-sorted xs in
      let k = min (part (length s) p) (length s - 1) in
      let (v, e) = get_elem?-lt s k (omega arith) in
      (
        v,
        ground (arith, e, same),
        λ q hq. omega (arith, count_found q s k v e hq, count-sorted q xs),
      )
