-- ===== src/Daemon/Transfer.antt =====
-- ftp-daemon/soltrace_daemon.py: `parse_transfer_log`. `strptime` with the shift to UTC, `float` and
-- `int` are parameters, none for a ValueError; the same none stands for an index out of range.
pub mod Tests
use soltrace.Base.{
  ℕ, ◌==◌, ◌≡◌, refl, ltb, leb, Bool, true, false, not, Option, none, some, ◌>>=◌, List, [], ◌∷◌,
  ◌++◌, length, if◌then◌else◌, All, arith,
}
use soltrace.Base.Index.{get_elem?}
use soltrace.Auth.Text.{Text, text_eq, is_empty, strip, words, codes}
use soltrace.Auth.Text.Split.{is_empty-join, join, IsWord, strip-join, words-join}
use soltrace.Daemon.Extended.{norm_path, lstrip_quotes, rstrip_quotes}

pub data Action : Type 0 where
  upload download delete : Action

pub record Entry (F Z : Type 0) : Type 0 where
  pub log_time : ℕ
  pub client_ip : Text
  pub username : Text
  pub action : Action
  pub file_path : Text
  pub file_size : Z
  pub transfer_time : F
  pub is_ascii : Bool
  pub is_success : Bool

-- `{"i": ..., "o": ..., "d": ...}.get(direction)`
abbrev pub action_of : Text → Option Action
action_of direction =
    if text_eq direction (codes "i")
    then some upload
    else if text_eq direction (codes "o")
    then some download
    else if text_eq direction (codes "d")
    then some delete
    else none

-- `parts[17] if len(parts) > 17 else "c"`
abbrev pub or_complete : Option Text → Text
or_complete none = codes "c"
or_complete (some completion) = completion

-- the fields of a line of the log, in their order
pub record Fields : Type 0 where
  pub weekday : Text
  pub month : Text
  pub day : Text
  pub clock : Text
  pub year : Text
  pub transfer_time : Text
  pub remote_host : Text
  pub file_size : Text
  pub filename : Text
  pub transfer_type : Text
  pub special_action : Text
  pub direction : Text
  pub access_mode : Text
  pub username : Text
  pub service : Text
  pub auth_method : Text
  pub auth_user : Text
  pub completion : Text

abbrev pub fields_of : Fields → List Text
fields_of x =
    x.month ∷ x.day ∷ x.clock ∷ x.year ∷ x.transfer_time ∷ x.remote_host ∷ x.file_size ∷ x.filename
    ∷ x.transfer_type ∷ x.special_action ∷ x.direction ∷ x.access_mode ∷ x.username ∷ x.service
    ∷ x.auth_method ∷ x.auth_user ∷ x.completion ∷ []

module _ {F Z : Type 0} (strptime : Text → Option ℕ) (float_of : Text → Option F)
    (int_of : Text → Option Z) where
  -- the body of the `try`
  unfoldable pub parse_fields : List Text → Option (Entry F Z)
  parse_fields parts = do
    month ← get_elem? parts 1
    day ← get_elem? parts 2
    clock ← get_elem? parts 3
    year ← get_elem? parts 4
    log_time ← strptime (join 32 (month ∷ day ∷ clock ∷ year ∷ []))
    transfer_time ← get_elem? parts 5 >>= float_of
    client_ip ← get_elem? parts 6
    file_size ← get_elem? parts 7 >>= int_of
    name ← get_elem? parts 8
    code ← get_elem? parts 9
    direction ← get_elem? parts 11
    username ← get_elem? parts 13
    action ← action_of direction
    some (record {
      log_time = log_time;
      client_ip = client_ip;
      username = username;
      action = action;
      file_path = norm_path (rstrip_quotes (lstrip_quotes name));
      file_size = file_size;
      transfer_time = transfer_time;
      is_ascii = text_eq code (codes "a");
      is_success = text_eq (or_complete (get_elem? parts 17)) (codes "c");
    })

  unfoldable pub parse_transfer_log : Text → Option (Entry F Z)
  parse_transfer_log line =
      let stripped = strip line in
      if is_empty stripped
      then none
      else (let parts = words stripped in
          if ltb (length parts) 14 then none else parse_fields parts)

  -- A line of the transfer log, written as its eighteen words with a space between them, is
  -- parsed to the entry of these words, if they are not empty and without white space, its time
  -- and numbers can be read, and its direction is one of the three.
  pub parse_transfer_log-join :
      (x : Fields) (time : ℕ) (secs : F) (size : Z) (action : Action)
      → All IsWord (x.weekday ∷ fields_of x)
      → strptime (join 32 (x.month ∷ x.day ∷ x.clock ∷ x.year ∷ [])) ≡ some time
      → float_of x.transfer_time ≡ some secs
      → int_of x.file_size ≡ some size
      → action_of x.direction ≡ some action
      → parse_transfer_log (join 32 (x.weekday ∷ fields_of x))
        ≡ some (record {
          log_time = time;
          client_ip = x.remote_host;
          username = x.username;
          action = action;
          file_path = norm_path (rstrip_quotes (lstrip_quotes x.filename));
          file_size = size;
          transfer_time = secs;
          is_ascii = text_eq x.transfer_type (codes "a");
          is_success = text_eq x.completion (codes "c");
        })
  unfolding parse_transfer_log parse_fields
  parse_transfer_log-join x time secs size action h ht hs hz ha =
      rw
        (
          strip-join x.weekday (fields_of x) h,
          is_empty-join x.weekday (fields_of x) h.0,
          words-join x.weekday (fields_of x) h,
          ht,
          hs,
          hz,
          ha,
        )
        refl
