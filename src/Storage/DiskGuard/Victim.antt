-- ===== src/Storage/DiskGuard/Victim.antt =====
-- was/app/disk_guard.py: which partition `enforce` gives up.
use soltrace.Base.{
  ◌*◌, ℕ, ◌≤◌, ◌<◌, ◌≡◌, refl, sym, ap, ◌∙◌, subst, leb, ltb, Bool, true, false, not, ◌&&◌, ◌||◌,
  Option, none, some, List, [], ◌∷◌, All, select, length, Bool-cases, inl, inr, arith,
}
use soltrace.Auth.Text.{Text}
use soltrace.Storage.DiskGuard.{
  nothing_left, dropped, Partition, Db, Message, is_older, has_rows, sort_months, insert_month,
  purgeable_partitions, purge, purge_above, enforce, drop_table, is_enabled, get_threshold,
  get_path, notify,
}

-- a partition that may be dropped: of a month before this one, with rows
abbrev pub is_purgeable : ℕ → Partition → Bool
is_purgeable current p = is_older current p && has_rows p

-- not purgeable, or not before the month
abbrev pub is_spared : (current month : ℕ) → Partition → Bool
is_spared current month p = not (is_purgeable current p) || leb month p.month

abbrev IsAscending : List Partition → Type 0
IsAscending [] = Unit
IsAscending (p ∷ ps) = All (λ (q : Partition). p.month ≤ q.month) ps × IsAscending ps

select-select :
    (current : ℕ) (ps : List Partition)
    → select has_rows (select (is_older current) ps) ≡ select (is_purgeable current) ps
select-select current [] = refl
select-select current (p ∷ ps) = elim (Bool-cases (is_older current p)) [
  | inr e ↦ rw e (select-select current ps)
  | inl e ↦ elim (Bool-cases (has_rows p)) [
    | inl r ↦ rw (e, r) (ap (λ l. p ∷ l) (select-select current ps))
    | inr r ↦ rw (e, r) (select-select current ps)
  ]
]

All-insert_month :
    (P : Partition → Type 0) (p : Partition) (ps : List Partition)
    → P p
    → All P ps
    → All P (insert_month p ps)
unfolding insert_month
All-insert_month P p [] h hs = (h, tt)
All-insert_month P p (q ∷ qs) h hs = elim (Bool-cases (leb p.month q.month)) [
  | inl e ↦ rw e (h, hs)
  | inr e ↦ rw e (hs.0, All-insert_month P p qs h hs.1)
]

insert_here :
    (p q : Partition) (qs : List Partition)
    → leb p.month q.month ≡ true
    → insert_month p (q ∷ qs) ≡ p ∷ q ∷ qs
unfolding insert_month
insert_here p q qs h = rw h refl

insert_later :
    (p q : Partition) (qs : List Partition)
    → leb p.month q.month ≡ false
    → insert_month p (q ∷ qs) ≡ q ∷ insert_month p qs
unfolding insert_month
insert_later p q qs h = rw h refl

All_uninsert :
    (P : Partition → Type 0) (p : Partition) (ps : List Partition)
    → All P (insert_month p ps)
    → P p × All P ps
unfolding insert_month
All_uninsert P p [] h = h
All_uninsert P p (q ∷ qs) h = elim (Bool-cases (leb p.month q.month)) [
  | inl e ↦ let h' : All P (p ∷ q ∷ qs) = subst (All P) (insert_here p q qs e) h in h'
  | inr e ↦
      let h' : All P (q ∷ insert_month p qs) = subst (All P) (insert_later p q qs e) h in
      let (one, rest) = All_uninsert P p qs h'.1 in (one, (h'.0, rest))
]

All_unsort : (P : Partition → Type 0) (ps : List Partition) → All P (sort_months ps) → All P ps
unfolding sort_months
All_unsort P [] h = tt
All_unsort P (p ∷ ps) h =
    let (one, rest) = All_uninsert P p (sort_months ps) h in (one, All_unsort P ps rest)

All_le :
    (a b : ℕ) (ps : List Partition)
    → a ≤ b
    → All (λ (q : Partition). b ≤ q.month) ps
    → All (λ (q : Partition). a ≤ q.month) ps
All_le a b [] h hs = tt
All_le a b (p ∷ ps) h hs = (omega (arith, hs.0), All_le a b ps h hs.1)

insert_month-IsAscending :
    (p : Partition) (ps : List Partition) → IsAscending ps → IsAscending (insert_month p ps)
insert_month-IsAscending p [] h = unfold insert_month in (tt, tt)
insert_month-IsAscending p (q ∷ qs) h = elim (Bool-cases (leb p.month q.month)) [
  | inl e ↦
      rw (insert_here p q qs e) ((ground arith, All_le p.month q.month qs (ground arith) h.0), h)
  | inr e ↦ rw (insert_later p q qs e) (
    All-insert_month (λ (r : Partition). q.month ≤ r.month) p qs (ground arith) h.0,
    insert_month-IsAscending p qs h.1,
  )
]

sort_months-IsAscending : (ps : List Partition) → IsAscending (sort_months ps)
unfolding sort_months
sort_months-IsAscending [] = tt
sort_months-IsAscending (p ∷ ps) =
    insert_month-IsAscending p (sort_months ps) (sort_months-IsAscending ps)

spared_after :
    (current month : ℕ) (ps : List Partition)
    → All (λ (q : Partition). month ≤ q.month) ps
    → All (λ (q : Partition). is_spared current month q ≡ true) ps
spared_after current month [] h = tt
spared_after current month (p ∷ ps) h = (ground (arith, h.0), spared_after current month ps h.1)

select_keep :
    (f : Partition → Bool) (p : Partition) (ps : List Partition)
    → f p ≡ true
    → select f (p ∷ ps) ≡ p ∷ select f ps
select_keep f p ps h = rw h refl

select_skip :
    (f : Partition → Bool) (p : Partition) (ps : List Partition)
    → f p ≡ false
    → select f (p ∷ ps) ≡ select f ps
select_skip f p ps h = rw h refl

abbrev first_or : Partition → List Partition → Partition
first_or d [] = d
first_or d (p ∷ ps) = p

-- The first of the purgeable partitions in order has none before it.
first_spares :
    (current : ℕ) (ps : List Partition) (p : Partition) (rest : List Partition)
    → IsAscending ps
    → select (is_purgeable current) ps ≡ p ∷ rest
    → (is_purgeable current p ≡ true)
      × All (λ (q : Partition). is_spared current p.month q ≡ true) ps
first_spares current [] p rest h e = ground arith
first_spares current (s ∷ ps) p rest h e = elim (Bool-cases (is_purgeable current s)) [
  | inl y ↦
      let same : s ≡ p = ap (first_or s) (sym (select_keep (is_purgeable current) s ps y) ∙ e) in
      subst
        (λ (x : Partition).
          (is_purgeable current x ≡ true)
          × All (λ (q : Partition). is_spared current x.month q ≡ true) (s ∷ ps))
        same (y, (ground arith, spared_after current s.month ps h.0))
  | inr n ↦
      let r =
        first_spares current ps p rest h.1 (sym (select_skip (is_purgeable current) s ps n) ∙ e) in
      (r.0, (ground arith, r.1))
]

-- A partition that is dropped is purgeable and has no purgeable one before it, another one is left,
-- and it alone goes; when none is dropped all stay.
abbrev pub Gives : ℕ → Db → Option ℕ × Db → Type 0
Gives current db (none, db') = db'.partitions ≡ db.partitions
Gives current db (some month, db') =
    (month < current)
    × All (λ (q : Partition). is_spared current month q ≡ true) db.partitions
    × (2 ≤ length (purgeable_partitions current db))
    × (db'.partitions ≡ drop_table month db.partitions)

kept_lem :
    (configured : Bool) (m : Message) (db : Db)
    → (notify configured m db).partitions ≡ db.partitions
kept_lem true m db = refl
kept_lem false m db = refl

purge-Gives :
    (configured : Bool) (current : ℕ) (db : Db) (found : List Partition)
    → purgeable_partitions current db ≡ found
    → Gives current db (purge configured found db)
purge-Gives configured current db [] e = kept_lem configured nothing_left db
purge-Gives configured current db (p ∷ []) e = kept_lem configured nothing_left db
purge-Gives configured current db (p ∷ q ∷ ps) e =
    let sorted = sort_months db.partitions in
    let first =
      first_spares current sorted p (q ∷ ps) (sort_months-IsAscending db.partitions)
        (sym (select-select current sorted) ∙ unfold purgeable_partitions in e) in
    (
      ground (arith, first.0),
      All_unsort (λ (r : Partition). is_spared current p.month r ≡ true) db.partitions first.1,
      rw e (omega arith),
      kept_lem configured (dropped p.month)
          (record db { partitions = drop_table p.month db.partitions }),
    )

purge_above-Gives :
    (threshold : ℕ) (configured : Bool) (current : ℕ) (db : Db) (read : Option ℕ)
    → Gives current db (purge_above threshold configured current db read)
purge_above-Gives threshold configured current db none = refl
purge_above-Gives threshold configured current db (some tenths) =
    elim (Bool-cases (ltb tenths (threshold * 10))) [
      | inl e ↦ rw e refl
      | inr e ↦ rw e (purge-Gives configured current db (purgeable_partitions current db) refl)
    ]

-- `enforce` drops at most one partition: the first with rows among those before the current
-- month, and only when another such is left; it leaves all others, and all of them when it drops
-- none.
pub enforce-Gives :
    (lower : Text → Text) (int_of : Text → Option ℕ) (usage : Text → Option ℕ) (configured : Bool)
    (current : ℕ) (db : Db)
    → Gives current db (enforce lower int_of usage configured current db)
unfolding enforce
enforce-Gives lower int_of usage configured current db = elim (Bool-cases (is_enabled lower db)) [
  | inl e ↦
      rw (e, enforce)
        (purge_above-Gives (get_threshold int_of db) configured current db (usage (get_path db)))
  | inr e ↦ rw (e, enforce) refl
]
