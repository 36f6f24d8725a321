-- ===== src/Daemon/Tailer.antt =====
-- ftp-daemon/soltrace_daemon.py: `FileTailer`. A file is its bytes, a position is a byte offset,
-- and the parser is the function that the constructor takes: of a line, and of what it remembers
-- between lines (the sessions of the module, and the readings of the clock that are to come).
pub mod Lines
pub mod Follow
pub mod Saved
use soltrace.Base.{
  ℕ, zero, suc, ◌+◌, ◌==◌, leb, ltb, Bool, true, false, not, ◌||◌, String, Option, none, some, List,
  [], ◌∷◌, ◌++◌, length, drop, if◌then◌else◌,
}

-- what `os.stat` and `open` find at a path; `readable` is false where `open` raises
pub record FileView : Type 0 where
  pub inode : ℕ
  pub content : List ℕ
  pub readable : Bool

-- The saved state is what the state file gives back when it is read, and `writable` whether a write of
-- it succeeds now.
pub record Tailer : Type 0 where
  pub path : String
  pub pos : ℕ
  pub inode : Option ℕ
  pub pending : Option ℕ
  pub saved : Option (ℕ × Option ℕ)
  pub writable : Bool

abbrev pub max_lines_per_poll : ℕ
max_lines_per_poll = 5000

abbrev newline : ℕ
newline = 10

abbrev pub extend : ℕ → Option (List ℕ × List ℕ) → Option (List ℕ × List ℕ)
extend c none = none
extend c (some (line, rest)) = some (c ∷ line, rest)

-- the next line with its end, and what follows it; none when no line ends
unfoldable pub split_line : List ℕ → Option (List ℕ × List ℕ)
split_line [] = none
split_line (c ∷ cs) = if c == newline then some (c ∷ [], cs) else extend c (split_line cs)

abbrev pub is_inode : Option ℕ → ℕ → Bool
is_inode none n = false
is_inode (some m) n = m == n

-- `_load_state`: the saved position, or the end of the file when there is none
unfoldable pub load_state : Bool → String → Option (ℕ × Option ℕ) → Option FileView → Tailer
load_state writable path (some (pos, inode)) file = record {
  path = path;
  pos = pos;
  inode = inode;
  pending = none;
  saved = some (pos, inode);
  writable = writable;
}
load_state writable path none (some v) = record {
  path = path;
  pos = length v.content;
  inode = some v.inode;
  pending = none;
  saved = none;
  writable = writable;
}
load_state writable path none none = record {
  path = path;
  pos = 0;
  inode = none;
  pending = none;
  saved = none;
  writable = writable;
}

-- a write that fails is only logged
abbrev pub save_state : Tailer → Tailer
save_state t = record t { saved = if t.writable then some (t.pos, t.inode) else t.saved }

-- whether the file is another one than before, or shorter
abbrev pub is_rotated : Tailer → FileView → Bool
is_rotated t v = not (is_inode t.inode v.inode) || ltb (length v.content) t.pos

unfoldable pub follow_rotation : Tailer → FileView → Tailer
follow_rotation t v =
    if is_rotated t v then save_state (record t { pos = 0; inode = some v.inode }) else t

-- `commit`, and `advance`, which has the same body
abbrev pub settle : Tailer → Option ℕ → Tailer
settle t none = t
settle t (some q) = save_state (record t { pos = q; pending = none })

unfoldable pub commit : Tailer → Tailer
commit t = settle t t.pending

unfoldable pub advance : Tailer → Tailer
advance t = settle t t.pending

unfoldable pub rollback : Tailer → Tailer
rollback t = record t { pending = none }

-- what a parser returns, and what it remembers afterwards
abbrev pub Parser {ℓ} : Type ℓ → Type 0 → Type ℓ
Parser E S = S → List ℕ → Option E × S

module _ {ℓ} {E : Type ℓ} {S : Type 0} (parser : Parser E S) where
  abbrev pub keep : Option E → List E → List E
  keep none es = es
  keep (some e) es = e ∷ es

  -- the reading loop of `poll`: the entries of at most that many lines, and where they end
  unfoldable pub read_lines : ℕ → ℕ → List ℕ → S → List E × ℕ × S
  read_lines zero pos rest st = ([], pos, st)
  read_lines (suc n) pos rest st = elim (split_line rest) [
    | none ↦ ([], pos, st)
    | some (line, rest') ↦
        let (entry, st') = parser st line in
        let (es, q, end) = read_lines n (pos + length line) rest' st' in (keep entry es, q, end)
  ]

  -- `poll` on a file that is not rotated, or whose rotation has been followed
  unfoldable pub read_new : Tailer → FileView → S → Tailer × List E × S
  read_new t v st =
      if leb (length v.content) t.pos || not v.readable
      then (t, [], st)
      else (let (es, q, end) = read_lines max_lines_per_poll t.pos (drop t.pos v.content) st in
          (record t { pending = some q }, es, end))

  unfoldable pub poll : Tailer → Option FileView → S → Tailer × List E × S
  poll t none st = (t, [], st)
  poll t (some v) st = read_new (follow_rotation t v) v st
