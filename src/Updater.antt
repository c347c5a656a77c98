-- ===== src/Updater.antt =====
-- src/infra/updater/mod.rs, src/bootstrap/updater.rs and src/app/http/handlers/updater.rs: the
-- check for a new version, the verified download, and the status that the endpoints share.
--
-- The HTTP client, the crates semver and sha2, the file system and the start of a process are the
-- record `Outside`; a moment is a number.
pub mod Verified
pub mod Status
pub mod Program
mod Examples
use rust_api_boilerplate.Prelude.{
  ℕ, Bool, true, false, not, Option, none, some, String, Result, ok, err, ◌>>=◌, if◌then◌else◌,
  ◌==◌, text_eq, List, [], ◌∷◌, ◌++◌,
}
use Prim.Native.String.{◌++◌ as str_append}
use rust_api_boilerplate.Text.{is_empty}
use rust_api_boilerplate.Config.{UpdaterConfig}
use rust_api_boilerplate.Errors.{AppError, internal}

pub record VersionManifest : Type 0 where
  pub version : String
  pub release_notes : Option String
  pub published_at : Option ℕ
  pub download_url : String
  pub checksum_sha256 : String
  pub binary_name : String

pub record UpdateStatus : Type 0 where
  pub current_version : String
  pub latest_version : Option String
  pub update_available : Bool
  pub last_checked_at : Option ℕ
  pub release_notes : Option String
  pub in_progress : Bool
  pub pending_manifest : Option VersionManifest

unfoldable pub new : String → UpdateStatus
new current_version = record {
  current_version = current_version;
  latest_version = none;
  update_available = false;
  last_checked_at = none;
  release_notes = none;
  in_progress = false;
  pending_manifest = none;
}

-- `hex_digest` is the lower case hex text of SHA-256, `path_of` the name of the temporary file,
-- `newer r c` is `r > c`. Each answer that may fail has the text of its error.
pub record Outside (Bytes Version : Type 0) : Type 0 where
  pub fetch_manifest : String → Result String VersionManifest
  pub parse_version : String → Result String Version
  pub newer : Version → Version → Bool
  pub download : String → Result String Bytes
  pub hex_digest : Bytes → String
  pub to_lowercase : String → String
  pub path_of : String → String
  pub write_file : String → Bytes → Result String Unit
  pub start_process : String → VersionManifest → Result String Unit

-- `map_err(|e| AppError::Internal(format!("..: {}", e)))`
abbrev pub map_err : {A : Type 0} → String → Result String A → Result AppError A
map_err prefix (ok a) = ok a
map_err prefix (err e) = err (internal (str_append prefix e))

module _ {Bytes Version : Type 0} (o : Outside Bytes Version) where
  unfoldable pub check_for_update : UpdaterConfig → Result AppError (Option VersionManifest)
  check_for_update config =
      if is_empty config.check_url
      then err (internal "updater.check_url is not configured")
      else (do
        manifest ← map_err "Failed to fetch update manifest: " (o.fetch_manifest config.check_url)
        current ←
            map_err "Invalid current_version in config: " (o.parse_version config.current_version)
        remote ← map_err "Invalid version in remote manifest: " (o.parse_version manifest.version)
        ok (if o.newer remote current then some manifest else none))

  -- The comparison before anything is written.
  abbrev pub verify : VersionManifest → Bytes → Result AppError Bytes
  verify manifest bytes =
      if o.hex_digest bytes == o.to_lowercase manifest.checksum_sha256
      then ok bytes
      else err (
          internal (
            str_append "Checksum mismatch for update zip: expected "
              (str_append manifest.checksum_sha256 (str_append ", got " (o.hex_digest bytes)))))

  -- The path of the archive, and the bytes that are written there.
  unfoldable pub download_and_verify : VersionManifest → Result AppError (String × Bytes)
  download_and_verify manifest = do
    bytes ← map_err "Update download failed: " (o.download manifest.download_url)
    checked ← verify manifest bytes
    written ←
        map_err "Failed to write update archive to disk: "
          (o.write_file (o.path_of manifest.version) checked)
    ok (o.path_of manifest.version, checked)

  -- `start_process` finds the updater beside the running executable and starts it.
  unfoldable pub spawn_updater : String → VersionManifest → Result AppError Unit
  spawn_updater path manifest =
      map_err "Failed to spawn updater process: " (o.start_process path manifest)

  -- The background task of `trigger_apply`: the status, and the archive on which the updater
  -- process was started.
  unfoldable pub trigger_apply :
      VersionManifest → UpdateStatus → UpdateStatus × Option (String × Bytes)
  trigger_apply manifest status =
      elim (do
        (path, bytes) ← download_and_verify manifest
        started ← spawn_updater path manifest
        ok (path, bytes)) [
          | ok archive ↦ (status, some archive)
          | err e ↦ (record status { in_progress = false }, none)
        ]

-- The five writes of a check that found a version.
unfoldable pub record_found : ℕ → VersionManifest → UpdateStatus → UpdateStatus
record_found now manifest s = record s {
  latest_version = some manifest.version;
  update_available = true;
  last_checked_at = some now;
  release_notes = manifest.release_notes;
  pending_manifest = some manifest;
}

unfoldable pub record_checked : ℕ → UpdateStatus → UpdateStatus
record_checked now s = record s { last_checked_at = some now }

unfoldable pub mark_in_progress : UpdateStatus → UpdateStatus
mark_in_progress s = record s { in_progress = true }

-- What an endpoint answers.
pub data Response : Type 0 where
  not_enabled : Response
  status : UpdateStatus → Response
  conflict : Response
  no_update : Response
  accepted : String → Response

-- The endpoint `check_for_update`, with the answer of the service.
unfoldable pub check_endpoint :
    UpdaterConfig
    → Bool
    → ℕ
    → Result AppError (Option VersionManifest)
    → UpdateStatus
    → UpdateStatus × Result AppError Response
check_endpoint config has_service now found s =
    if not config.enabled
    then (s, ok not_enabled)
    else if not has_service
    then (s, err (internal "Updater service unavailable"))
    else elim found [
      | err e ↦ (s, err e)
      | ok none ↦ (record_checked now s, ok (status (record_checked now s)))
      | ok (some m) ↦ (record_found now m s, ok (status (record_found now m s)))
    ]

-- The block of `apply_update` under the read lock: the manifest to apply, or the answer.
unfoldable pub read_check :
    UpdaterConfig → Bool → UpdateStatus → Result (Result AppError Response) VersionManifest
read_check config has_service s =
    if not config.enabled
    then err (ok not_enabled)
    else if not has_service
    then err (err (internal "Updater service unavailable"))
    else if s.in_progress
    then err (ok conflict)
    else if not s.update_available
    then err (ok no_update)
    else elim s.pending_manifest [
      | none ↦ err (err (internal "Pending manifest missing from status"))
      | some m ↦ ok m
    ]

-- The rest of `apply_update`, under the write lock: the manifests that are triggered.
unfoldable pub apply_write :
    Result (Result AppError Response) VersionManifest
    → UpdateStatus
    → UpdateStatus × Result AppError Response × List VersionManifest
apply_write (err answer) s = (s, answer, [])
apply_write (ok m) s = (mark_in_progress s, ok (accepted m.version), m ∷ [])

unfoldable pub apply_update :
    UpdaterConfig
    → Bool
    → UpdateStatus
    → UpdateStatus × Result AppError Response × List VersionManifest
unfolding read_check apply_write
apply_update config has_service s = apply_write (read_check config has_service s) s

-- One round of the loop of `start_update_checker`: the manifest that is triggered, if any.
unfoldable pub scheduled_check :
    UpdaterConfig
    → ℕ
    → Result AppError (Option VersionManifest)
    → UpdateStatus
    → UpdateStatus × List VersionManifest
scheduled_check config now (err e) s = (s, [])
scheduled_check config now (ok none) s = (record_checked now s, [])
scheduled_check config now (ok (some m)) s =
    let s' = record_found now m s in
    if not config.auto_update
    then (s', [])
    else if s'.in_progress
    then (s', [])
    else (mark_in_progress s', m ∷ [])

-- Two requests that both read the status before either writes it.
unfoldable pub apply_twice :
    UpdaterConfig → Bool → UpdateStatus → UpdateStatus × List VersionManifest
unfolding read_check apply_write
apply_twice config has_service s =
    let seen = read_check config has_service s in
    let (s', r, first) = apply_write seen s in
    let (s'', q, second) = apply_write seen s' in (s'', first ++ second)
