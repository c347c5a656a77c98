-- ===== src/Updater/Program/Install.antt =====
-- What stands at the path of the service's binary after `install`.
use Prim.Native.String.{◌++◌ as str_append, count}
use text.Mathlib.TextLemmas.{length-append as text_length-append}
use rust_api_boilerplate.Prelude.{
  ◌≡◌, ◌≢◌, ◌⊎◌, Bool, true, false, Option, none, some, String, Result, ok, err, is_some, arith,
  refl, inl, inr, ap, subst, sym,
}
use rust_api_boilerplate.Map
use rust_api_boilerplate.Map.{get-insert, get-remove}
use rust_api_boilerplate.Updater.Program.{
  FilePath, File, Faults, Fs, ◌>>◌, when, ignore, remove_file, rename, add_executable, backup_path,
  clear_stale, back_up, move_in, clear_backup, replace_binary, install, path_eq, same_path_iff,
}
use rust_api_boilerplate.Updater.Program.Steps.{
  Replaced, renamed, then_known, replace_binary-Replaced,
}

backup_path-ne : (p : FilePath) → backup_path p ≢ p
unfolding backup_path
backup_path-ne p h = extension_ne p.extension (ap (λ q. q.extension) h)
  where
    extension_ne :
        (e : Option String) → some (elim e [ none ↦ "bak" | some x ↦ str_append x ".bak" ]) ≢ e
    extension_ne none h = cc
    extension_ne (some x) h =
        let same : str_append x ".bak" ≡ x = cc in
        absurd (omega (arith, text_length-append x ".bak", ap count same))

module _ {Bytes : Type 0} where
  module _ (faults : Faults Bytes) (new_bin target : FilePath) (old new : File Bytes) where
    -- The new file, executable, where the program goes on, and the old one where it gives up.
    abbrev pub Installed : Bool × Fs Bytes → Type 0
    Installed (true, fs) = Map.get target fs ≡ some (record new { executable = true })
    Installed (false, fs) = Map.get target fs ≡ some old

    abbrev concluded : Result String Unit × Fs Bytes → Bool × Fs Bytes
    concluded r = elim r.0 [
      | ok u ↦ (true, r.1)
      | err e ↦ (
        false,
        (when (is_some (Map.get (backup_path target) r.1))
            (ignore (rename faults.restore (backup_path target) target)) r.1).1,
      )
    ]

    put_back :
        (f : File Bytes) (fs : Fs Bytes)
        → Map.get (backup_path target) fs ≡ some f
        → faults.restore ≡ true
        → Map.get target
            (when
              (is_some (Map.get (backup_path target) fs))
              (ignore (rename faults.restore (backup_path target) target))
              fs).1
          ≡ some f
    put_back f fs b w =
        rw (b, renamed faults.restore (backup_path target) target f fs b, w)
          (ground (
            arith,
            same_path_iff target target,
            get-insert target target f (Map.remove (backup_path target) fs),
          ))

    given_up :
        (r : Result String Unit × Fs Bytes)
        → Replaced new_bin target old new r
        → faults.restore ≡ true
        → Installed (concluded r)
    given_up (ok u, fs) p w = p
    given_up (err e, fs) (inl b) w = put_back old fs b w
    given_up (err e, fs) (inr p) w = rw p.1 p.0

    -- Whichever calls of the file system fail, and whatever a failed copy leaves, the path of the
    -- service's binary has the new file, executable, if the program goes on, and the old one if it
    -- gives up, provided that a stale backup can be removed and the backup can be moved back, and
    -- that the new file is neither the binary nor its backup.
    pub install-Installed :
        (fs : Fs Bytes)
        → new_bin ≢ target
        → new_bin ≢ backup_path target
        → Map.get target fs ≡ some old
        → Map.get new_bin fs ≡ some new
        → (Map.get (backup_path target) fs ≡ none) ⊎ (faults.remove_stale ≡ true)
        → faults.restore ≡ true
        → Installed (install faults new_bin target fs)
    unfolding install
    install-Installed fs a b t n stale w =
        given_up (replace_binary faults new_bin target fs)
          (replace_binary-Replaced new_bin target old new (backup_path-ne target) a b faults fs t n
            stale)
          w

    -- If a stale backup cannot be removed but can be moved, the program gives up and puts the stale
    -- backup in the place of the current binary.
    pub stale_restored :
        (fs : Fs Bytes) (stale : File Bytes)
        → Map.get (backup_path target) fs ≡ some stale
        → faults.remove_stale ≡ false
        → faults.restore ≡ true
        → ((install faults new_bin target fs).0 ≡ false)
          × (Map.get target (install faults new_bin target fs).1 ≡ some stale)
    unfolding install replace_binary clear_stale remove_file
    stale_restored fs stale b x w =
        let first : clear_stale faults target fs ≡ (err "remove_file", fs) =
          rw (b, clear_stale, x) refl in
        let e : replace_binary faults new_bin target fs ≡ (err "remove_file", fs) =
          then_known (λ r. r ≡ (err "remove_file", fs)) (clear_stale faults target)
            (back_up faults target
              >> (move_in faults new_bin target
                  >> (add_executable faults.chmod target >> clear_backup faults target)))
            fs _ first refl in
        subst (λ r. ((concluded r).0 ≡ false) × (Map.get target (concluded r).1 ≡ some stale))
          (sym e) (refl, put_back stale fs b w)
