-- ===== src/Updater/Program/Steps.antt =====
-- What each call of `replace_binary` leaves of the two binaries and of the backup.
use rust_api_boilerplate.Prelude.{
  ◌≡◌, ◌≢◌, ◌⊎◌, Bool, true, false, Option, none, some, String, Result, ok, err, is_some, arith,
  refl, inl, inr, Bool-cases, Option-cases, if◌then◌else◌, subst, sym, ◌∙◌,
}
use rust_api_boilerplate.Map
use rust_api_boilerplate.Map.{
  get-insert, get-insert_same, get-insert_other, get-remove_same, get-remove_other,
}
use rust_api_boilerplate.Updater.Program.{
  FilePath, File, Faults, Fs, Io, ◌>>◌, when, ignore, or_else, remove_file, rename, copy,
  add_executable, backup_path, clear_stale, back_up, move_in, clear_backup, replace_binary, path_eq,
}

module _ {Bytes : Type 0} where
  -- From what a call leaves to what the rest leaves.
  step :
      (P Q : Result String Unit × Fs Bytes → Type 0) (m k : Io Bytes Unit) (fs : Fs Bytes)
      → P (m fs)
      → ((g : Fs Bytes) → P (ok tt, g) → Q (k g))
      → ((e : String) (g : Fs Bytes) → P (err e, g) → Q (err e, g))
      → Q ((m >> k) fs)
  step P Q m k fs p done failed = go (m fs) p
    where
      go :
          (r : Result String Unit × Fs Bytes)
          → P r
          → Q (elim r.0 [ ok a ↦ k r.1 | err e ↦ (err e, r.1) ])
      go (ok u, g) q = done g q
      go (err e, g) q = failed e g q

  pub renamed :
      (works : Bool) (a b : FilePath) (f : File Bytes) (fs : Fs Bytes)
      → Map.get a fs ≡ some f
      → rename works a b fs
        ≡ (if works then (ok tt, Map.insert b f (Map.remove a fs)) else (err "rename", fs))
  unfolding rename
  renamed works a b f fs n = rw (n, rename) refl

  abbrev pub after : Io Bytes Unit → Result String Unit × Fs Bytes → Result String Unit × Fs Bytes
  after k r = elim r.0 [ ok a ↦ k r.1 | err e ↦ (err e, r.1) ]

  abbrev failing : Io Bytes Unit → Result String Unit × Fs Bytes → Result String Unit × Fs Bytes
  failing k r = elim r.0 [ ok u ↦ (ok u, r.1) | err e ↦ k r.1 ]

  -- A known first call under a predicate on what the rest leaves.
  pub then_known :
      (P : Result String Unit × Fs Bytes → Type 0) (m k : Io Bytes Unit) (fs : Fs Bytes)
      (r : Result String Unit × Fs Bytes)
      → m fs ≡ r
      → P (after k r)
      → P ((m >> k) fs)
  then_known P m k fs r e p = subst (λ q. P (after k q)) (sym e) p

  else_known :
      (P : Result String Unit × Fs Bytes → Type 0) (m k : Io Bytes Unit) (fs : Fs Bytes)
      (r : Result String Unit × Fs Bytes)
      → m fs ≡ r
      → P (failing k r)
      → P (or_else m k fs)
  else_known P m k fs r e p = subst (λ q. P (failing k q)) (sym e) p

  module _ (new_bin target : FilePath) (old new : File Bytes) where
    -- Before the backup is made: both binaries are in place and no backup is.
    abbrev Ready : Result String Unit × Fs Bytes → Type 0
    Ready (ok u, fs) =
        (Map.get target fs ≡ some old)
        × (Map.get new_bin fs ≡ some new)
        × (Map.get (backup_path target) fs ≡ none)
    Ready (err e, fs) = ⊥

    abbrev Saved : Result String Unit × Fs Bytes → Type 0
    Saved (ok u, fs) =
        (Map.get (backup_path target) fs ≡ some old) × (Map.get new_bin fs ≡ some new)
    Saved (err e, fs) = (Map.get target fs ≡ some old) × (Map.get (backup_path target) fs ≡ none)

    abbrev Moved : Result String Unit × Fs Bytes → Type 0
    Moved (ok u, fs) = (Map.get (backup_path target) fs ≡ some old) × (Map.get target fs ≡ some new)
    Moved (err e, fs) =
        (Map.get (backup_path target) fs ≡ some old)
        ⊎ ((Map.get target fs ≡ some old) × (Map.get (backup_path target) fs ≡ none))

    -- After a success the new file is in place, executable; after an error the old one is there, or
    -- in the backup.
    abbrev pub Replaced : Result String Unit × Fs Bytes → Type 0
    Replaced (ok u, fs) = Map.get target fs ≡ some (record new { executable = true })
    Replaced (err e, fs) =
        (Map.get (backup_path target) fs ≡ some old)
        ⊎ ((Map.get target fs ≡ some old) × (Map.get (backup_path target) fs ≡ none))

    module _ (apart : backup_path target ≢ target) (from_target : new_bin ≢ target)
        (from_backup : new_bin ≢ backup_path target) where
      remove-Ready :
          (works : Bool) (fs : Fs Bytes)
          → Map.get target fs ≡ some old
          → Map.get new_bin fs ≡ some new
          → (Map.get (backup_path target) fs ≡ none) ⊎ (works ≡ true)
          → Ready (
              when
                (is_some (Map.get (backup_path target) fs))
                (remove_file works (backup_path target))
                fs)
      unfolding remove_file
      remove-Ready works fs t n (inl z) = rw z (t, n, z)
      remove-Ready works fs t n (inr w) = elim (Option-cases (Map.get (backup_path target) fs)) [
        | inl z ↦ rw z (t, n, z)
        | inr (f, z) ↦
            rw (z, w)
              (
                get-remove_other (backup_path target) target fs apart ∙ t,
                get-remove_other (backup_path target) new_bin fs (λ h. from_backup (sym h)) ∙ n,
                get-remove_same (backup_path target) fs,
              )
      ]

      rename-Saved :
          (works : Bool) (fs : Fs Bytes)
          → Ready (ok tt, fs)
          → Saved (rename works target (backup_path target) fs)
      unfolding rename
      rename-Saved true fs r =
          rw (r.0, rename)
            (
              get-insert_same (backup_path target) old (Map.remove target fs),
              get-insert_other (backup_path target) new_bin old (Map.remove target fs)
                    (λ h. from_backup (sym h))
                  ∙ get-remove_other target new_bin fs (λ h. from_target (sym h))
                  ∙ r.1,
            )
      rename-Saved false fs r = rw (r.0, rename) (r.0, r.2)

      copy_partial :
          (rest : Bytes) (fs : Fs Bytes)
          → Map.get new_bin fs ≡ some new
          → copy (some rest) new_bin target fs
            ≡ (err "copy", Map.insert target (record new { bytes = rest }) fs)
      unfolding copy
      copy_partial rest fs n = rw (n, copy) refl

      copy_whole :
          (fs : Fs Bytes)
          → Map.get new_bin fs ≡ some new
          → copy none new_bin target fs ≡ (ok tt, Map.insert target new fs)
      unfolding copy
      copy_whole fs n = rw (n, copy) refl

      copied-Moved :
          (partial : Option Bytes) (works : Bool) (fs : Fs Bytes)
          → Saved (ok tt, fs)
          → Moved ((copy partial new_bin target >> remove_file works new_bin) fs)
      unfolding remove_file
      copied-Moved (some rest) works fs r =
          let part : File Bytes = record new { bytes = rest } in
          then_known Moved (copy (some rest) new_bin target) (remove_file works new_bin) fs _
            (copy_partial rest fs r.1)
            (inl (get-insert_other target (backup_path target) part fs (λ h. apart (sym h)) ∙ r.0))
      copied-Moved none false fs r =
          then_known Moved (copy none new_bin target) (remove_file false new_bin) fs _
            (copy_whole fs r.1)
            (inl (get-insert_other target (backup_path target) new fs (λ h. apart (sym h)) ∙ r.0))
      copied-Moved none true fs r =
          let there : Map.get new_bin (Map.insert target new fs) ≡ some new =
            ground (arith, r.1, get-insert target new_bin new fs) in
          then_known Moved (copy none new_bin target) (remove_file true new_bin) fs _
            (copy_whole fs r.1)
            (rw there (
              get-remove_other new_bin (backup_path target) (Map.insert target new fs) from_backup
                  ∙ get-insert_other target (backup_path target) new fs (λ h. apart (sym h))
                  ∙ r.0,
              get-remove_other new_bin target (Map.insert target new fs) from_target
                  ∙ get-insert_same target new fs,
            ))

      move_in-Moved :
          (faults : Faults Bytes) (works : Bool) (fs : Fs Bytes)
          → Saved (ok tt, fs)
          → Moved (
              or_else
                (rename works new_bin target)
                (copy faults.copy_in new_bin target >> remove_file faults.remove_new new_bin)
                fs)
      move_in-Moved faults false fs r =
          else_known Moved (rename false new_bin target)
            (copy faults.copy_in new_bin target >> remove_file faults.remove_new new_bin) fs _
            (renamed false new_bin target new fs r.1)
            (copied-Moved faults.copy_in faults.remove_new fs r)
      move_in-Moved faults true fs r =
          else_known Moved (rename true new_bin target)
            (copy faults.copy_in new_bin target >> remove_file faults.remove_new new_bin) fs _
            (renamed true new_bin target new fs r.1)
            (
              get-insert_other target (backup_path target) new (Map.remove new_bin fs)
                    (λ h. apart (sym h))
                  ∙ get-remove_other new_bin (backup_path target) fs from_backup
                  ∙ r.0,
              get-insert_same target new (Map.remove new_bin fs),
            )

      -- The new file is in place and executable, or the old one is in the backup.
      abbrev Enabled : Result String Unit × Fs Bytes → Type 0
      Enabled (ok u, fs) = Map.get target fs ≡ some (record new { executable = true })
      Enabled (err e, fs) = Map.get (backup_path target) fs ≡ some old

      chmod-Enabled :
          (works : Bool) (fs : Fs Bytes)
          → Moved (ok tt, fs)
          → Enabled (add_executable works target fs)
      unfolding add_executable
      chmod-Enabled false fs r = rw (r.1, add_executable) r.0
      chmod-Enabled true fs r =
          rw (r.1, add_executable) (get-insert_same target (record new { executable = true }) fs)

      clear-Replaced :
          (works : Bool) (fs : Fs Bytes)
          → Enabled (ok tt, fs)
          → Replaced (
              when
                (is_some (Map.get (backup_path target) fs))
                (ignore (remove_file works (backup_path target)))
                fs)
      unfolding remove_file
      clear-Replaced works fs r = elim (Option-cases (Map.get (backup_path target) fs)) [
        | inl z ↦ rw z r
        | inr (f, z) ↦ rw z (elim (Bool-cases works) [
          | inr w ↦ rw w r
          | inl w ↦ rw w (get-remove_other (backup_path target) target fs apart ∙ r)
        ])
      ]

      -- The five calls of `replace_binary` in a row.
      pub replace_binary-Replaced :
          (faults : Faults Bytes) (fs : Fs Bytes)
          → Map.get target fs ≡ some old
          → Map.get new_bin fs ≡ some new
          → (Map.get (backup_path target) fs ≡ none) ⊎ (faults.remove_stale ≡ true)
          → Replaced (replace_binary faults new_bin target fs)
      unfolding replace_binary clear_stale back_up move_in clear_backup
      replace_binary-Replaced faults fs t n stale =
          step Ready Replaced (clear_stale faults target) _ fs
            (remove-Ready faults.remove_stale fs t n stale)
            (λ g r.
              step Saved Replaced (back_up faults target) _ g
                (rw r.0 (rename-Saved faults.back_up g r))
                (λ h s.
                  step Moved Replaced (move_in faults new_bin target) _ h
                    (move_in-Moved faults faults.move_in h s)
                    (λ k m.
                      step Enabled Replaced (add_executable faults.chmod target) _ k
                        (chmod-Enabled faults.chmod k m)
                        (λ l e. clear-Replaced faults.remove_backup l e) (λ x l e. inl e))
                    (λ x k m. m))
                (λ x h s. inr s))
            (λ x g r. absurd r)
