-- ===== src/Bootstrap/Examples.antt =====
-- The theorems on the cleanup of the logs, on a directory of two processes.
use rust_api_boilerplate.Prelude.{ℕ, ◌*◌, ◌≡◌, true, false, some, List, [], ◌∷◌, ◌++◌, String, refl}
use rust_api_boilerplate.Text.{strip_prefix, starts_with}
use rust_api_boilerplate.Bootstrap.Logger.{
  Entry, Tick, is_stale, remove_stale, cleanup_old_logs, run_cleanup_loop,
}
use rust_api_boilerplate.Bootstrap.Cleanup.{
  Outcome, cleanup_old_logs-Outcome, foreign, arrivals, run_cleanup_loop-foreign,
}

abbrev day : ℕ
day = 24 * 3600

abbrev log : String → ℕ → Entry
log name modified = record {
  name = some name;
  is_file = true;
  modified = some modified;
  removable = true;
}

abbrev logs : List Entry
logs =
    log "api.2026-05-01.log" day
    ∷ log "worker.2026-05-01.log" day
    ∷ log "api.2026-05-09.log" (9 * day)
    ∷ []

abbrev ticks : List Tick
ticks =
    record { now = 10 * day; readable = true; arrived = log "api.2026-05-10.log" (10 * day) ∷ [] }
    ∷ record {
      now = 11 * day;
      readable = false;
      arrived = log "worker.2026-05-11.log" (11 * day) ∷ [];
    }
    ∷ []

old_log_removed :
    cleanup_old_logs "api" (10 * day) 7 true logs
    ≡ log "worker.2026-05-01.log" day ∷ log "api.2026-05-09.log" (9 * day) ∷ []
unfolding cleanup_old_logs remove_stale is_stale starts_with strip_prefix
old_log_removed = refl

cleanup_old_logs-Outcome_example :
    Outcome true "api" (10 * day) 7 logs (cleanup_old_logs "api" (10 * day) 7 true logs)
cleanup_old_logs-Outcome_example = cleanup_old_logs-Outcome "api" (10 * day) 7 true logs

run_cleanup_loop-foreign_example :
    foreign "api" (run_cleanup_loop "api" 7 ticks logs)
    ≡ foreign "api" logs ++ foreign "api" (arrivals ticks)
run_cleanup_loop-foreign_example = run_cleanup_loop-foreign "api" 7 ticks logs
