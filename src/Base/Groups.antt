-- ===== src/Base/Groups.antt =====
-- Items grouped by a key, as `groups.setdefault(key, []).append(item)` does it: in was/app/notifier.py
-- for the mail gateway, in was/app/service_monitor.py for the rows of each device.
use soltrace.Base.{
  ℕ, suc, ◌+◌, ◌≡◌, refl, ◌∙◌, sym, ap, Bool, true, false, Bool-cases, inl, inr, List, [], ◌∷◌,
  ◌++◌, length, length-append, select, All, All-append, append-nil, append_assoc, if◌then◌else◌,
  arith,
}

module _ {ℓ κ} {K : Type κ} {A : Type ℓ} (same : K → K → Bool) where
  unfoldable pub add_item : K → A → List (K × List A) → List (K × List A)
  add_item key a [] = (key, a ∷ []) ∷ []
  add_item key a ((k, group) ∷ rest) =
      if same k key then (k, group ++ a ∷ []) ∷ rest else (k, group) ∷ add_item key a rest

  unfoldable pub group_by : (A → K) → List A → List (K × List A) → List (K × List A)
  group_by key [] groups = groups
  group_by key (a ∷ rest) groups = group_by key rest (add_item (key a) a groups)

  -- the group of a key, empty where there is none
  abbrev pub group_at : K → List (K × List A) → List A
  group_at t [] = []
  group_at t ((k, group) ∷ rest) = if same k t then group else group_at t rest

-- the items of all groups
abbrev pub size_of {ℓ κ} : {K : Type κ} {A : Type ℓ} → List (K × List A) → ℕ
size_of [] = 0
size_of ((k, group) ∷ rest) = length group + size_of rest

abbrev pub one_if {ℓ} : {A : Type ℓ} → Bool → A → List A
one_if true a = a ∷ []
one_if false a = []

one_if-select {ℓ} :
    {A : Type ℓ} (p : A → Bool) (a : A) (rest : List A)
    → one_if (p a) a ++ select p rest ≡ select p (a ∷ rest)
one_if-select p a rest = elim (Bool-cases (p a)) [ inl e ↦ rw e refl | inr e ↦ rw e refl ]

All-add_item {ℓ κ μ} :
    {K : Type μ} {A : Type ℓ} (P : A → Type κ) (same : K → K → Bool) (key : K) (a : A)
    (groups : List (K × List A))
    → P a
    → All (λ g. All P g.1) groups
    → All (λ g. All P g.1) (add_item same key a groups)
unfolding add_item
All-add_item P same key a [] p h = ((p, tt), tt)
All-add_item P same key a ((k, group) ∷ rest) p h = elim (Bool-cases (same k key)) [
  | inl e ↦ rw e (All-append P group (a ∷ []) h.0 (p, tt), h.1)
  | inr e ↦ rw e (h.0, All-add_item P same key a rest p h.1)
]

pub All-group_by {ℓ κ μ} :
    {K : Type μ} {A : Type ℓ} (P : A → Type κ) (same : K → K → Bool) (key : A → K) (items : List A)
    (groups : List (K × List A))
    → All P items
    → All (λ g. All P g.1) groups
    → All (λ g. All P g.1) (group_by same key items groups)
unfolding group_by
All-group_by P same key [] groups p h = h
All-group_by P same key (a ∷ rest) groups p h =
    All-group_by P same key rest (add_item same (key a) a groups) p.1
      (All-add_item P same (key a) a groups p.0 h)

module _ {κ} {K : Type κ} (same : K → K → Bool) (same_refl : (k : K) → same k k ≡ true)
    (same_sound : (k t : K) → same k t ≡ true → k ≡ t) where
  same_key : (k key t : K) → same k key ≡ true → same key t ≡ same k t
  same_key k key t h = ap (λ x. same x t) (sym (same_sound k key h))

  other_key : (k key t : K) → same k key ≡ false → same k t ≡ true → same key t ≡ false
  other_key k key t h c = elim (Bool-cases (same key t)) [
    | inr q ↦ q
    | inl q ↦
        let e : k ≡ key = same_sound k t c ∙ sym (same_sound key t q) in
        cc (sym h ∙ ap (λ x. same x key) e ∙ same_refl key)
  ]

  module _ {ℓ} {A : Type ℓ} where
    add_item_lem :
        (key : K) (a : A) (groups : List (K × List A)) (t : K)
        → group_at same t (add_item same key a groups)
          ≡ group_at same t groups ++ one_if (same key t) a
    unfolding add_item
    add_item_lem key a [] t = elim (Bool-cases (same key t)) [
      | inl e ↦ rw e refl
      | inr e ↦ rw e refl
    ]
    add_item_lem key a ((k, group) ∷ rest) t = elim (Bool-cases (same k key)) [
      | inl e ↦ elim (Bool-cases (same k t)) [
        | inl c ↦ rw (e, c, same_key k key t e ∙ c) refl
        | inr c ↦ rw (e, c, same_key k key t e ∙ c) (sym (append-nil (group_at same t rest)))
      ]
      | inr e ↦ elim (Bool-cases (same k t)) [
        | inl c ↦ rw (e, c, other_key k key t e c) (sym (append-nil group))
        | inr c ↦ rw (e, c) (add_item_lem key a rest t)
      ]
    ]

    add_item_size :
        (key : K) (a : A) (groups : List (K × List A))
        → size_of (add_item same key a groups) ≡ suc (size_of groups)
    unfolding add_item
    add_item_size key a [] = refl
    add_item_size key a ((k, group) ∷ rest) = elim (Bool-cases (same k key)) [
      | inl e ↦ rw e (omega (arith, length-append group (a ∷ [])))
      | inr e ↦ rw e (omega (arith, add_item_size key a rest))
    ]

    group_by-select :
        (key : A → K) (items : List A) (groups : List (K × List A)) (t : K)
        → group_at same t (group_by same key items groups)
          ≡ group_at same t groups ++ select (λ a. same (key a) t) items
    unfolding group_by
    group_by-select key [] groups t = sym (append-nil (group_at same t groups))
    group_by-select key (a ∷ rest) groups t =
        group_by-select key rest (add_item same (key a) a groups) t
        ∙ ap (λ l. l ++ select (λ x. same (key x) t) rest) (add_item_lem (key a) a groups t)
        ∙ append_assoc (group_at same t groups) (one_if (same (key a) t) a) _
        ∙ ap (λ l. group_at same t groups ++ l) (one_if-select (λ x. same (key x) t) a rest)

    group_by-size :
        (key : A → K) (items : List A) (groups : List (K × List A))
        → size_of (group_by same key items groups) ≡ size_of groups + length items
    unfolding group_by
    group_by-size key [] groups = omega arith
    group_by-size key (a ∷ rest) groups = omega (
      arith,
      group_by-size key rest (add_item same (key a) a groups),
      add_item_size (key a) a groups,
    )

    -- The groups hold, under each key, the items with that key, in their order, and as many in all.
    pub group_by_exact :
        (key : A → K) (items : List A)
        → ((t : K)
            → group_at same t (group_by same key items []) ≡ select (λ a. same (key a) t) items)
          × (size_of (group_by same key items []) ≡ length items)
    group_by_exact key items =
        (group_by-select key items [], omega (arith, group_by-size key items []))
