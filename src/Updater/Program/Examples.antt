-- ===== src/Updater/Program/Examples.antt =====
-- The theorems on the updater process, where the move of the new binary and the change of its mode
-- fail.
use rust_api_boilerplate.Prelude.{
  ℕ, ◌+◌, ◌*◌, ◌≡◌, ◌≤◌, Bool, true, false, none, some, zero, suc, List, [], ◌∷◌, refl, inl,
}
use rust_api_boilerplate.Map
use rust_api_boilerplate.Map.{Map}
use rust_api_boilerplate.Updater.Program.{FilePath, File, Faults, Fs, backup_path, path_eq}
use rust_api_boilerplate.Updater.Program.Wait.{
  Answers, wait_for_pid_exit, wait_for_pid_exit-Answers,
}
use rust_api_boilerplate.Updater.Program.Main.{Entry, main, out_path}
use rust_api_boilerplate.Updater.Program.Ends.{Ended, main-Ended}

abbrev api : FilePath
api = record { parent = "/usr/local/bin"; stem = "api"; extension = none }

abbrev api_new : FilePath
api_new = record { parent = "/usr/local/bin"; stem = "new"; extension = none }

abbrev zip : FilePath
zip = record { parent = "/tmp"; stem = "update"; extension = some "zip" }

abbrev binary : ℕ → File ℕ
binary n = record { bytes = n; executable = true }

abbrev disk : Fs ℕ
disk = (api, binary 1) ∷ []

abbrev faults : Faults ℕ
faults = record {
  remove_stale = true;
  back_up = true;
  move_in = false;
  copy_in = none;
  remove_new = true;
  chmod = false;
  remove_backup = true;
  restore = true;
}

abbrev archive : List (Entry ℕ)
archive = record { name = some "release/api"; content = some 2 } ∷ []

main-Ended_example :
    Ended faults true true true archive zip api "api"
      (binary 1)
      (main faults true true true (some archive) zip api "api" "supervisor" disk)
unfolding out_path backup_path Map.get
main-Ended_example =
    main-Ended faults true true true archive zip api "api" (binary 1) "supervisor" disk (λ h. cc)
      (λ h. cc) (λ h. cc) refl (inl refl) refl

abbrev gone_after : ℕ → ℕ → Bool
gone_after end now = elim end [ zero ↦ false | suc n ↦ true ]

wait_for_pid_exit-Answers_example :
    (r : Bool × ℕ) × (wait_for_pid_exit (gone_after 1) (λ t. 7) 61 30 0 ≡ some r)
    × Answers (gone_after 1) (λ t. 7) (0 + 30 * 1000) r
    × (0 ≤ r.1)
wait_for_pid_exit-Answers_example = wait_for_pid_exit-Answers (gone_after 1) (λ t. 7) 30 0
