-- ===== src/Updater/Examples.antt =====
-- The theorems on the updater, with versions and archives that are numbers and texts.
use rust_api_boilerplate.Prelude.{
  ℕ, ◌≡◌, true, false, not, ◌||◌, none, some, String, ok, ltb, [], if◌then◌else◌, length, is_ok,
}
use rust_api_boilerplate.Config.{UpdaterConfig}
use rust_api_boilerplate.Updater.{
  VersionManifest, UpdateStatus, Outside, new, trigger_apply, apply_update, check_endpoint,
}
use rust_api_boilerplate.Updater.Verified.{Applied, trigger_apply-Applied}
use rust_api_boilerplate.Updater.Status.{
  Reach, begins, steps, checks, may_apply, listed, apply_update-exact,
}

abbrev release : VersionManifest
release = record {
  version = "1.2.0";
  release_notes = none;
  published_at = none;
  download_url = "https://cdn.example.com/api.zip";
  checksum_sha256 = "e3b0";
  binary_name = "api";
}

abbrev major : String → ℕ
major String.[] = 0
major (String.◌∷◌ c s) = 1

abbrev world : Outside ℕ ℕ
world = record {
  fetch_manifest = λ url. ok release;
  parse_version = λ v. ok (major v);
  newer = λ r c. ltb c r;
  download = λ url. ok 9;
  hex_digest = λ b. "e3b0";
  to_lowercase = λ t. t;
  path_of = λ v. v;
  write_file = λ p b. ok tt;
  start_process = λ p m. ok tt;
}

abbrev config : UpdaterConfig
config = record {
  enabled = true;
  check_url = "https://cdn.example.com/version.json";
  auto_update = false;
  check_interval_seconds = 3600;
  current_version = "";
}

trigger_apply-Applied_example :
    Applied world release (new "") (trigger_apply world release (new ""))
trigger_apply-Applied_example = trigger_apply-Applied world release (new "")

abbrev found : UpdateStatus
found = (check_endpoint config true 60 (ok (some release)) (new "")).0

found_reached : Reach world config found
found_reached = steps begins (checks true 60 (ok (some release)))

apply_update-exact_example :
    ((apply_update config true found).2
      ≡ (if may_apply config true found then listed found.pending_manifest else []))
    × (length (apply_update config true found).2 ≡ (if may_apply config true found then 1 else 0))
    × ((apply_update config true found).0
        ≡ record found { in_progress = may_apply config true found || found.in_progress })
    × (is_ok (apply_update config true found).1 ≡ (not config.enabled || true))
apply_update-exact_example = apply_update-exact world config true found_reached
