-- ===== src/Storage/DiskGuard.antt =====
-- was/app/disk_guard.py. A month partition is the number of its month, whose order is that of the
-- padded names; the catalogue has them in any order. The use of the disk at a path, in tenths of a
-- percent as `usage` rounds it, and what the notifier answers are inputs.
pub mod Victim
use soltrace.Base.{
  ℕ, zero, suc, ◌*◌, ◌==◌, leb, ltb, Bool, true, false, not, ◌&&◌, Option, none, some, List, [],
  ◌∷◌, ◌++◌, select, map, if◌then◌else◌,
}
use soltrace.Auth.Text.{Text, text_eq, is_empty, strip}
use soltrace.Auth.Accounts.{text_or_empty}
use soltrace.Storage.Retention.{is_in_range, parse}

abbrev pub default_threshold : ℕ
default_threshold = 90

abbrev pub min_threshold : ℕ
min_threshold = 50

abbrev pub max_threshold : ℕ
max_threshold = 99

-- `/`
abbrev pub default_path : Text
default_path = 47 ∷ []

-- `false`
abbrev pub word_false : Text
word_false = 102 ∷ 97 ∷ 108 ∷ 115 ∷ 101 ∷ []

-- `true`
abbrev pub word_true : Text
word_true = 116 ∷ 114 ∷ 117 ∷ 101 ∷ []

pub record Partition : Type 0 where
  pub month : ℕ
  pub rows : ℕ

pub data Message : Type 0 where
  nothing_left : Message
  dropped : (month : ℕ) → Message

pub record Db : Type 0 where
  pub enabled : Option Text
  pub path : Option Text
  pub threshold : Option Text
  pub partitions : List Partition
  pub messages : List Message

abbrev pub is_absolute : Text → Bool
is_absolute [] = false
is_absolute (c ∷ cs) = c == 47

-- an empty setting counts as none, which is `true`
unfoldable pub is_enabled : (lower : Text → Text) → Db → Bool
is_enabled lower db = not (text_eq (lower (text_or_empty db.enabled)) word_false)

unfoldable pub get_path : Db → Text
get_path db =
    let raw = strip (text_or_empty db.path) in
    if is_empty raw then default_path else if not (is_absolute raw) then default_path else raw

abbrev pub threshold_or_default : Option ℕ → ℕ
threshold_or_default none = default_threshold
threshold_or_default (some pct) =
    if is_in_range min_threshold max_threshold pct then pct else default_threshold

unfoldable pub get_threshold : (int_of : Text → Option ℕ) → Db → ℕ
get_threshold int_of db = threshold_or_default (parse int_of db.threshold)

-- ORDER BY the name
unfoldable pub insert_month : Partition → List Partition → List Partition
insert_month p [] = p ∷ []
insert_month p (q ∷ qs) = if leb p.month q.month then p ∷ q ∷ qs else q ∷ insert_month p qs

unfoldable pub sort_months : List Partition → List Partition
sort_months [] = []
sort_months (p ∷ ps) = insert_month p (sort_months ps)

abbrev pub is_older : ℕ → Partition → Bool
is_older current p = ltb p.month current

abbrev pub has_rows : Partition → Bool
has_rows p = ltb 0 p.rows

unfoldable pub purgeable_partitions : (current : ℕ) → Db → List Partition
purgeable_partitions current db =
    select has_rows (select (is_older current) (sort_months db.partitions))

-- DROP TABLE
unfoldable pub drop_table : ℕ → List Partition → List Partition
drop_table month ps = select (λ (p : Partition). not (p.month == month)) ps

-- `_notify`, whose errors are caught; `configured` is whether there is a channel
abbrev pub notify : Bool → Message → Db → Db
notify configured m db = if configured then record db { messages = db.messages ++ m ∷ [] } else db

-- what `enforce` does with the partitions that it may drop
abbrev pub purge : Bool → List Partition → Db → Option ℕ × Db
purge configured [] db = (none, notify configured nothing_left db)
purge configured (p ∷ []) db = (none, notify configured nothing_left db)
purge configured (p ∷ q ∷ ps) db = (
  some p.month,
  notify configured (dropped p.month) (record db { partitions = drop_table p.month db.partitions }),
)

-- the reading of the disk: none when it cannot be read, or has no size
abbrev pub purge_above : ℕ → Bool → ℕ → Db → Option ℕ → Option ℕ × Db
purge_above threshold configured current db none = (none, db)
purge_above threshold configured current db (some tenths) =
    if ltb tenths (threshold * 10)
    then (none, db)
    else purge configured (purgeable_partitions current db) db

unfoldable pub enforce :
    (lower : Text → Text) (int_of : Text → Option ℕ) (usage : Text → Option ℕ)
    → (configured : Bool) → (current : ℕ) → Db
    → Option ℕ × Db
enforce lower int_of usage configured current db =
    if not (is_enabled lower db)
    then (none, db)
    else purge_above (get_threshold int_of db) configured current db (usage (get_path db))

-- the settings that are stored, or none for the ValueError
unfoldable pub save_settings : (show : ℕ → Text) → Bool → ℕ → Db → Option Db
save_settings show enabled threshold db =
    if not (is_in_range min_threshold max_threshold threshold)
    then none
    else some (record db {
      enabled = some (if enabled then word_true else word_false);
      threshold = some (show threshold);
    })
