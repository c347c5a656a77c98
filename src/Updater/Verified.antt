-- ===== src/Updater/Verified.antt =====
-- What the updater process is started on, and which manifest counts as an update.
use rust_api_boilerplate.Prelude.{
  ◌≡◌, Bool, true, false, Option, none, some, String, Result, ok, if◌then◌else◌, ◌==◌, text_eq,
  eq_of_==, Bool-cases, Result-cases, inl, inr, is_ok, refl, sym, ◌∙◌, subst,
}
use rust_api_boilerplate.Text.{is_empty}
use rust_api_boilerplate.Config.{UpdaterConfig}
use rust_api_boilerplate.Errors.{AppError}
use rust_api_boilerplate.Updater.{
  VersionManifest, UpdateStatus, Outside, check_for_update, download_and_verify, spawn_updater,
  trigger_apply,
}

abbrev said : VersionManifest → Bool → Result AppError (Option VersionManifest)
said n b = ok (if b then some n else none)

reported : (b : Bool) (n m : VersionManifest) → said n b ≡ ok (some m) → (b ≡ true) × (n ≡ m)
reported true n m h = (refl, cc)
reported false n m h = absurd (cc)

module _ {Bytes Version : Type 0} (o : Outside Bytes Version) where
  -- The archive that the manifest promises, as it is on disk under the path.
  pub record IsVerified (m : VersionManifest) (path : String) (bytes : Bytes) : Type 0 where
    pub came_from : o.download m.download_url ≡ ok bytes
    pub digest : o.hex_digest bytes ≡ o.to_lowercase m.checksum_sha256
    pub named : path ≡ o.path_of m.version
    pub written : o.write_file path bytes ≡ ok tt
    pub spawned : o.start_process path m ≡ ok tt

  abbrev pub Applied :
      VersionManifest → UpdateStatus → UpdateStatus × Option (String × Bytes) → Type 0
  Applied m s (t, none) = t ≡ record s { in_progress = false }
  Applied m s (t, some (path, bytes)) = (t ≡ s) × IsVerified m path bytes

  pub trigger_apply-Applied :
      (m : VersionManifest) (s : UpdateStatus) → Applied m s (trigger_apply o m s)
  unfolding trigger_apply download_and_verify spawn_updater
  trigger_apply-Applied m s = elim (Result-cases (o.download m.download_url)) [
    | inr (e, h) ↦ rw (h, trigger_apply) refl
    | inl (b, h) ↦
        rw (h, trigger_apply)
          (elim (Bool-cases (o.hex_digest b == o.to_lowercase m.checksum_sha256)) [
            | inr w ↦ rw (w, trigger_apply) refl
            | inl d ↦
                rw (d, trigger_apply)
                  (elim (Result-cases (o.write_file (o.path_of m.version) b)) [
                    | inr (e, k) ↦ rw (k, trigger_apply) refl
                    | inl (u, k) ↦
                        rw (k, trigger_apply)
                          (elim (Result-cases (o.start_process (o.path_of m.version) m)) [
                            | inr (e, l) ↦ rw (l, trigger_apply) refl
                            | inl (v, l) ↦
                                rw (l, trigger_apply)
                                  (
                                    refl,
                                    record {
                                      came_from = h;
                                      digest =
                                          eq_of_== (o.hex_digest b)
                                            (o.to_lowercase m.checksum_sha256) d;
                                      named = refl;
                                      written = k;
                                      spawned = l;
                                    },
                                  )
                          ])
                  ])
          ])
  ]

  -- What a check reports of a manifest that was fetched.
  abbrev pub IsNewer : UpdaterConfig → VersionManifest → Type 0
  IsNewer config m =
      (o.fetch_manifest config.check_url ≡ ok m)
      × ((current : Version) × (remote : Version) × (o.parse_version config.current_version
            ≡ ok current)
          × (o.parse_version m.version ≡ ok remote)
          × (o.newer remote current ≡ true))

  no_answer :
      (config : UpdaterConfig) (m : VersionManifest)
      → check_for_update o config ≡ ok (some m)
      → is_ok (check_for_update o config) ≡ false
      → IsNewer config m
  no_answer config m h k = absurd (cc)

  -- A check reports a manifest only if it is the one at the configured URL, and both its version
  -- and the configured one can be read and the manifest's is the greater.
  pub check_for_update-IsNewer :
      (config : UpdaterConfig) (m : VersionManifest)
      → check_for_update o config ≡ ok (some m)
      → IsNewer config m
  unfolding check_for_update
  check_for_update-IsNewer config m h = elim (Bool-cases (is_empty config.check_url)) [
    | inl z ↦ no_answer config m h (rw z refl)
    | inr z ↦ elim (Result-cases (o.fetch_manifest config.check_url)) [
      | inr (x, e) ↦ no_answer config m h (rw (z, e) refl)
      | inl (n, e) ↦ elim (Result-cases (o.parse_version config.current_version)) [
        | inr (x, p) ↦ no_answer config m h (rw (z, e, p) refl)
        | inl (current, p) ↦ elim (Result-cases (o.parse_version n.version)) [
          | inr (x, q) ↦ no_answer config m h (rw (z, e, p, q) refl)
          | inl (remote, q) ↦
              let r : check_for_update o config ≡ said n (o.newer remote current) =
                rw (z, e, p, q) refl in
              let k : (o.newer remote current ≡ true) × (n ≡ m) =
                reported (o.newer remote current) n m (sym r ∙ h) in
              subst (IsNewer config) k.1 (e, (current, remote, p, q, k.0))
        ]
      ]
    ]
  ]
