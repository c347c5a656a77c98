-- ===== src/Bootstrap/Logger.antt =====
-- src/bootstrap/logger.rs: the removal of old log files.
--
-- A directory is the list of its entries, each with what the calls on it answer; a listing that
-- fails is none. Times are seconds; `now` is read once for each cleanup.
use rust_api_boilerplate.Prelude.{
  ℕ, ◌+◌, ◌*◌, Bool, false, ◌&&◌, not, Option, none, some, List, [], ◌∷◌, ◌++◌, String,
  if◌then◌else◌, ltb,
}
use rust_api_boilerplate.Text.{starts_with}

-- `name` is the text of the file name, if it is one; `modified` the time of its last change, if
-- the metadata can be read; `removable` whether `remove_file` succeeds.
pub record Entry : Type 0 where
  pub name : Option String
  pub is_file : Bool
  pub modified : Option ℕ
  pub removable : Bool

-- `unwrap_or("")`
abbrev pub file_name : Option String → String
file_name none = ""
file_name (some name) = name

-- `modified < cutoff`, with the days on the other side.
abbrev pub is_old : ℕ → ℕ → Option ℕ → Bool
is_old now retention_days none = false
is_old now retention_days (some modified) = ltb (modified + retention_days * (24 * 3600)) now

-- Whether the loop comes to its call of `remove_file`.
unfoldable pub is_stale : String → ℕ → ℕ → Entry → Bool
is_stale prefix now retention_days e =
    if not e.is_file
    then false
    else if not (starts_with prefix (file_name e.name))
    then false
    else is_old now retention_days e.modified

-- The loop over the entries: those that are left.
unfoldable pub remove_stale : String → ℕ → ℕ → List Entry → List Entry
remove_stale prefix now retention_days [] = []
remove_stale prefix now retention_days (e ∷ es) =
    let rest = remove_stale prefix now retention_days es in
    if is_stale prefix now retention_days e && e.removable then rest else e ∷ rest

unfoldable pub cleanup_old_logs : String → ℕ → ℕ → Bool → List Entry → List Entry
cleanup_old_logs prefix now retention_days readable entries =
    if readable then remove_stale prefix now retention_days entries else entries

-- A tick of the interval: the clock, whether the directory can be listed, and the entries that came
-- since the cleanup before.
pub record Tick : Type 0 where
  pub now : ℕ
  pub readable : Bool
  pub arrived : List Entry

-- The cleanup at the start and those at the ticks after it.
unfoldable pub run_cleanup_loop : String → ℕ → List Tick → List Entry → List Entry
run_cleanup_loop prefix retention_days [] entries = entries
run_cleanup_loop prefix retention_days (t ∷ ticks) entries =
    run_cleanup_loop prefix retention_days ticks
      (cleanup_old_logs prefix t.now retention_days t.readable (entries ++ t.arrived))
