-- ===== src/Bootstrap/Cleanup.antt =====
-- What the cleanups of src/bootstrap/logger.rs remove.
use mathlib.Core.List.{append-nil, append_assoc}
use rust_api_boilerplate.Prelude.{
  ℕ, ◌≡◌, Bool, true, false, ◌&&◌, List, [], ◌∷◌, ◌++◌, String, if◌then◌else◌, arith, refl, sym, ap,
  ◌∙◌, inl, inr, Bool-cases,
}
use rust_api_boilerplate.Text.{starts_with}
use rust_api_boilerplate.Bootstrap.Logger.{
  Entry, Tick, file_name, is_old, is_stale, remove_stale, cleanup_old_logs, run_cleanup_loop,
}

-- A file of the process that is older than the retention.
abbrev pub IsOwnOld : String → ℕ → ℕ → Entry → Type 0
IsOwnOld prefix now retention_days e =
    (e.is_file ≡ true)
    × (starts_with prefix (file_name e.name) ≡ true)
    × (is_old now retention_days e.modified ≡ true)

-- The list before a cleanup and after it: what is gone is an own old file, and an own old file that
-- is left cannot be removed.
pub data Cleaned (prefix : String) (now retention_days : ℕ) : List Entry → List Entry → Type 0 where
  none_left : Cleaned prefix now retention_days [] []
  left :
      (e : Entry) (es rest : List Entry)
      → ¬ (IsOwnOld prefix now retention_days e × (e.removable ≡ true))
      → Cleaned prefix now retention_days es rest
      → Cleaned prefix now retention_days (e ∷ es) (e ∷ rest)
  gone :
      (e : Entry) (es rest : List Entry)
      → IsOwnOld prefix now retention_days e
      → Cleaned prefix now retention_days es rest
      → Cleaned prefix now retention_days (e ∷ es) rest

is_stale-IsOwnOld :
    (prefix : String) (now retention_days : ℕ) (e : Entry)
    → is_stale prefix now retention_days e ≡ true
    → IsOwnOld prefix now retention_days e
unfolding is_stale
is_stale-IsOwnOld prefix now days e h = ground (arith, h)

IsOwnOld-is_stale :
    (prefix : String) (now retention_days : ℕ) (e : Entry)
    → IsOwnOld prefix now retention_days e
    → is_stale prefix now retention_days e ≡ true
unfolding is_stale
IsOwnOld-is_stale prefix now days e h = rw (h.0, h.1, h.2)

remove_stale-Cleaned :
    (prefix : String) (now retention_days : ℕ) (entries : List Entry)
    → Cleaned prefix now retention_days entries (remove_stale prefix now retention_days entries)
unfolding remove_stale
remove_stale-Cleaned prefix now days [] = none_left
remove_stale-Cleaned prefix now days (e ∷ es) =
    let rest = remove_stale prefix now days es in
    let cleaned = remove_stale-Cleaned prefix now days es in
    elim (Bool-cases (is_stale prefix now days e && e.removable)) [
      | inl h ↦
          rw (h) (gone e es rest (is_stale-IsOwnOld prefix now days e (ground (arith, h))) cleaned)
      | inr h ↦ rw (h) (
          left e es rest
            (λ own. ground (arith, IsOwnOld-is_stale prefix now days e own.0, own.1, h)) cleaned)
    ]

-- What a cleanup leaves, by whether the directory can be listed.
abbrev pub Outcome : Bool → String → ℕ → ℕ → List Entry → List Entry → Type 0
Outcome true prefix now days es rest = Cleaned prefix now days es rest
Outcome false prefix now days es rest = rest ≡ es

-- A cleanup of a directory that can be listed leaves its entries in their order, but for files whose
-- name starts with the prefix and which are older than the retention, each of which is gone if it
-- can be removed; where the directory cannot be listed, nothing changes.
pub cleanup_old_logs-Outcome :
    (prefix : String) (now retention_days : ℕ) (readable : Bool) (entries : List Entry)
    → Outcome readable prefix now retention_days entries
        (cleanup_old_logs prefix now retention_days readable entries)
unfolding cleanup_old_logs
cleanup_old_logs-Outcome prefix now days true entries = remove_stale-Cleaned prefix now days entries
cleanup_old_logs-Outcome prefix now days false entries = refl

-- The entries that are not files of the process.
abbrev pub foreign : String → List Entry → List Entry
foreign prefix [] = []
foreign prefix (e ∷ es) =
    let rest = foreign prefix es in
    if e.is_file && starts_with prefix (file_name e.name) then rest else e ∷ rest

foreign-append :
    (prefix : String) (es fs : List Entry)
    → foreign prefix (es ++ fs) ≡ foreign prefix es ++ foreign prefix fs
foreign-append prefix [] fs = refl
foreign-append prefix (e ∷ es) fs =
    elim (Bool-cases (e.is_file && starts_with prefix (file_name e.name))) [
      | inl h ↦ rw (h) (foreign-append prefix es fs)
      | inr h ↦ rw (h) (ap (λ x. e ∷ x) (foreign-append prefix es fs))
    ]

foreign-remove_stale :
    (prefix : String) (now days : ℕ) (es : List Entry)
    → foreign prefix (remove_stale prefix now days es) ≡ foreign prefix es
unfolding remove_stale is_stale
foreign-remove_stale prefix now days [] = refl
foreign-remove_stale prefix now days (e ∷ es) =
    ground (arith, foreign-remove_stale prefix now days es)

foreign-cleanup :
    (prefix : String) (now days : ℕ) (readable : Bool) (es : List Entry)
    → foreign prefix (cleanup_old_logs prefix now days readable es) ≡ foreign prefix es
unfolding cleanup_old_logs
foreign-cleanup prefix now days true es = foreign-remove_stale prefix now days es
foreign-cleanup prefix now days false es = refl

abbrev pub arrivals : List Tick → List Entry
arrivals [] = []
arrivals (t ∷ ticks) = t.arrived ++ arrivals ticks

-- Whatever the ticks are, the directories and the files without the prefix that are there after the
-- cleanups are those that were there and those that came, in their order.
pub run_cleanup_loop-foreign :
    (prefix : String) (retention_days : ℕ) (ticks : List Tick) (entries : List Entry)
    → foreign prefix (run_cleanup_loop prefix retention_days ticks entries)
      ≡ foreign prefix entries ++ foreign prefix (arrivals ticks)
unfolding run_cleanup_loop
run_cleanup_loop-foreign prefix days [] entries = sym (append-nil (foreign prefix entries))
run_cleanup_loop-foreign prefix days (t ∷ ticks) entries =
    let seen = entries ++ t.arrived in
    run_cleanup_loop-foreign prefix days ticks (cleanup_old_logs prefix t.now days t.readable seen)
    ∙ ap (λ x. x ++ foreign prefix (arrivals ticks))
        (foreign-cleanup prefix t.now days t.readable seen
          ∙ foreign-append prefix entries t.arrived)
    ∙ append_assoc (foreign prefix entries) (foreign prefix t.arrived)
        (foreign prefix (arrivals ticks))
    ∙ ap (λ x. foreign prefix entries ++ x) (sym (foreign-append prefix t.arrived (arrivals ticks)))
