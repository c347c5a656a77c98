-- ===== src/Updater/Status.antt =====
-- The status that the endpoints and the background task share.
use rust_api_boilerplate.Prelude.{
  ℕ, ◌≡◌, Bool, true, false, not, Option, none, some, String, Result, ok, err, if◌then◌else◌, List,
  [], ◌∷◌, refl, is_some, Bool-cases, inl, inr, length, ◌&&◌, ap, subst, sym, Option-cases, ◌||◌,
  ◌∙◌, is_ok,
}
use rust_api_boilerplate.Config.{UpdaterConfig}
use rust_api_boilerplate.Errors.{AppError}
use rust_api_boilerplate.Updater.{
  VersionManifest, UpdateStatus, Outside, new, record_found, record_checked, mark_in_progress,
  Response, check_endpoint, read_check, apply_write, apply_update, apply_twice, scheduled_check,
  trigger_apply,
}
use rust_api_boilerplate.Updater.Verified.{Applied, trigger_apply-Applied}

abbrev pub listed : Option VersionManifest → List VersionManifest
listed none = []
listed (some m) = m ∷ []

abbrev pub version_of : Option VersionManifest → Option String
version_of none = none
version_of (some m) = some m.version

-- An update is available exactly if its manifest is there, and it is the latest version.
pub record IsConsistent (s : UpdateStatus) : Type 0 where
  pub pending : s.update_available ≡ is_some s.pending_manifest
  pub latest : s.latest_version ≡ version_of s.pending_manifest

-- One step of the program on the shared status.
pub data Step {Bytes Version : Type 0} (o : Outside Bytes Version) (config : UpdaterConfig)
    (s : UpdateStatus) : UpdateStatus → Type 0 where
  checks :
      (service : Bool) (now : ℕ) (found : Result AppError (Option VersionManifest))
      → Step o config s (check_endpoint config service now found s).0
  applies : (service : Bool) → Step o config s (apply_update config service s).0
  scheduled :
      (now : ℕ) (found : Result AppError (Option VersionManifest))
      → Step o config s (scheduled_check config now found s).0
  triggered : (m : VersionManifest) → Step o config s (trigger_apply o m s).0

pub data Reach {Bytes Version : Type 0} (o : Outside Bytes Version) (config : UpdaterConfig)
    : UpdateStatus → Type 0 where
  begins : Reach o config (new config.current_version)
  steps : {s t : UpdateStatus} → Reach o config s → Step o config s t → Reach o config t

keeps : {A : Type 0} (P : A → Type 0) (b : Bool) (x y : A) → P x → P y → P (if b then x else y)
keeps P true x y p q = p
keeps P false x y p q = q

-- The fields that the invariant reads are not those that these two write.
checked-IsConsistent :
    (now : ℕ) (s : UpdateStatus) → IsConsistent s → IsConsistent (record_checked now s)
unfolding record_checked
checked-IsConsistent now s v = record { pending = v.pending; latest = v.latest }

progress-IsConsistent :
    (b : Bool) (s : UpdateStatus) → IsConsistent s → IsConsistent (record s { in_progress = b })
progress-IsConsistent b s v = record { pending = v.pending; latest = v.latest }

found-IsConsistent :
    (now : ℕ) (m : VersionManifest) (s : UpdateStatus) → IsConsistent (record_found now m s)
unfolding record_found
found-IsConsistent now m s = record { pending = refl; latest = refl }

write-IsConsistent :
    (r : Result (Result AppError Response) VersionManifest) (s : UpdateStatus)
    → IsConsistent s
    → IsConsistent (apply_write r s).0
unfolding apply_write mark_in_progress
write-IsConsistent (ok m) s v = progress-IsConsistent true s v
write-IsConsistent (err x) s v = v

-- Whether a request to apply is to be accepted.
abbrev pub may_apply : UpdaterConfig → Bool → UpdateStatus → Bool
may_apply config service s =
    config.enabled && (service && (not s.in_progress && s.update_available))

module _ {Bytes Version : Type 0} (o : Outside Bytes Version) (config : UpdaterConfig) where
  outcome-IsConsistent :
      (m : VersionManifest) (s : UpdateStatus) (r : UpdateStatus × Option (String × Bytes))
      → Applied o m s r
      → IsConsistent s
      → IsConsistent r.0
  outcome-IsConsistent m s (t, none) a v =
      subst IsConsistent (sym a) (progress-IsConsistent false s v)
  outcome-IsConsistent m s (t, some p) a v = subst IsConsistent (sym a.0) v

  endpoint-IsConsistent :
      (service : Bool) (now : ℕ) (found : Result AppError (Option VersionManifest))
      (s : UpdateStatus)
      → IsConsistent s
      → IsConsistent (check_endpoint config service now found s).0
  unfolding check_endpoint
  endpoint-IsConsistent service now (err e) s v =
      keeps (λ (r : UpdateStatus × Result AppError Response). IsConsistent r.0) (not config.enabled)
        _ _ v
        (keeps (λ (r : UpdateStatus × Result AppError Response). IsConsistent r.0) (not service) _ _
          v v)
  endpoint-IsConsistent service now (ok none) s v =
      keeps (λ (r : UpdateStatus × Result AppError Response). IsConsistent r.0) (not config.enabled)
        _ _ v
        (keeps (λ (r : UpdateStatus × Result AppError Response). IsConsistent r.0) (not service) _ _
          v (checked-IsConsistent now s v))
  endpoint-IsConsistent service now (ok (some m)) s v =
      keeps (λ (r : UpdateStatus × Result AppError Response). IsConsistent r.0) (not config.enabled)
        _ _ v
        (keeps (λ (r : UpdateStatus × Result AppError Response). IsConsistent r.0) (not service) _ _
          v (found-IsConsistent now m s))

  scheduled-IsConsistent :
      (now : ℕ) (found : Result AppError (Option VersionManifest)) (s : UpdateStatus)
      → IsConsistent s
      → IsConsistent (scheduled_check config now found s).0
  unfolding scheduled_check mark_in_progress
  scheduled-IsConsistent now (err e) s v = v
  scheduled-IsConsistent now (ok none) s v = checked-IsConsistent now s v
  scheduled-IsConsistent now (ok (some m)) s v =
      let k = found-IsConsistent now m s in
      let s' = record_found now m s in
      keeps (λ (r : UpdateStatus × List VersionManifest). IsConsistent r.0) (not config.auto_update)
        _ _ k
        (keeps (λ (r : UpdateStatus × List VersionManifest). IsConsistent r.0) s'.in_progress _ _ k
          (progress-IsConsistent true s' k))

  Step-IsConsistent : {s t : UpdateStatus} → Step o config s t → IsConsistent s → IsConsistent t
  unfolding apply_update
  Step-IsConsistent {s} (checks service now found) v = endpoint-IsConsistent service now found s v
  Step-IsConsistent {s} (applies service) v = write-IsConsistent (read_check config service s) s v
  Step-IsConsistent {s} (scheduled now found) v = scheduled-IsConsistent now found s v
  Step-IsConsistent {s} (triggered m) v =
      outcome-IsConsistent m s (trigger_apply o m s) (trigger_apply-Applied o m s) v

  -- After any checks, scheduled checks, requests to apply and background tasks, in any order and
  -- with any outcome, an update is available exactly if its manifest is pending, and the latest
  -- version is that of the pending manifest.
  pub Reach-IsConsistent : {s : UpdateStatus} → Reach o config s → IsConsistent s
  unfolding new
  Reach-IsConsistent begins = record { pending = refl; latest = refl }
  Reach-IsConsistent (steps r x) = Step-IsConsistent x (Reach-IsConsistent r)

  -- In every state that the program reaches, a request to apply triggers exactly one manifest, the
  -- pending one, if the updater is enabled and its service is there, no update is in progress and
  -- one is available, and none otherwise; the status is then in progress, or what it was, and nothing
  -- else of it changes; and the only error is a missing service, never a missing manifest.
  pub apply_update-exact :
      {s : UpdateStatus} (service : Bool)
      → Reach o config s
      → ((apply_update config service s).2
          ≡ (if may_apply config service s then listed s.pending_manifest else []))
        × (length (apply_update config service s).2 ≡ (if may_apply config service s then 1 else 0))
        × ((apply_update config service s).0
            ≡ record s { in_progress = may_apply config service s || s.in_progress })
        × (is_ok (apply_update config service s).1 ≡ (not config.enabled || service))
  unfolding apply_update apply_write read_check mark_in_progress
  apply_update-exact {s} service r =
      let v = Reach-IsConsistent r in
      elim (Bool-cases config.enabled) [
        | inr e ↦ rw e (refl, refl, refl, refl)
        | inl e ↦ elim (Bool-cases service) [
          | inr p ↦ rw (e, p) (refl, refl, refl, refl)
          | inl p ↦ elim (Bool-cases s.in_progress) [
            | inl q ↦ rw (e, p, q) (refl, refl, refl, refl)
            | inr q ↦ elim (Option-cases s.pending_manifest) [
              | inl n ↦
                  let a : s.update_available ≡ false = v.pending ∙ ap is_some n in
                  rw (e, p, q, a) (refl, refl, refl, refl)
              | inr (m, n) ↦
                  let a : s.update_available ≡ true = v.pending ∙ ap is_some n in
                  rw (e, p, q, a, n) (refl, refl, refl, refl)
            ]
          ]
        ]
      ]

module _ (config : UpdaterConfig) where
  -- Two requests that both read the status before either writes it, where an update is available
  -- and none is in progress, are both accepted: the pending manifest is triggered twice.
  pub apply_twice_doubles :
      (s : UpdateStatus) (m : VersionManifest)
      → config.enabled ≡ true
      → s.in_progress ≡ false
      → s.update_available ≡ true
      → s.pending_manifest ≡ some m
      → (apply_twice config true s).1 ≡ m ∷ m ∷ []
  unfolding apply_twice read_check apply_write
  apply_twice_doubles s m e p a n = rw (e, p, a, n) refl
