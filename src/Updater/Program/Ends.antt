-- ===== src/Updater/Program/Ends.antt =====
-- What stands at the path of the service's binary when the program ends.
use rust_api_boilerplate.Prelude.{
  zero, suc, ◌≡◌, ◌≢◌, ◌⊎◌, Bool, true, false, none, some, List, [], ◌∷◌, String, Result, ok, err,
  if◌then◌else◌, ◌==◌, text_eq, Bool-cases, Option-cases, inl, inr, refl, arith, subst, sym,
}
use rust_api_boilerplate.Map
use rust_api_boilerplate.Map.{get-insert, get-remove}
use rust_api_boilerplate.Updater.Program.{
  FilePath, File, Faults, Fs, install, path_eq, backup_path, same_path_iff,
}
use rust_api_boilerplate.Updater.Program.Install.{Installed, install-Installed}
use rust_api_boilerplate.Updater.Program.Main.{
  Entry, End, exited, executed, is_named, find_entry, out_path, extract_binary, restart, main,
}

module _ {Bytes : Type 0} where
  -- The content of an entry that has the name, in the archive.
  abbrev pub IsContent : String → List (Entry Bytes) → Bytes → Type 0
  IsContent binary_name [] bytes = ⊥
  IsContent binary_name (e ∷ es) bytes =
      ((name : String) × (e.name ≡ some name)
        × (is_named binary_name name ≡ true)
        × (e.content ≡ some bytes))
      ⊎ IsContent binary_name es bytes

  find-IsContent :
      (binary_name : String) (es : List (Entry Bytes)) (e : Entry Bytes) (bytes : Bytes)
      → find_entry binary_name es ≡ some e
      → e.content ≡ some bytes
      → IsContent binary_name es bytes
  unfolding find_entry
  find-IsContent binary_name [] e bytes f c = cc
  find-IsContent binary_name (x ∷ es) e bytes f c = elim (Option-cases x.name) [
    | inl n ↦ inr (find-IsContent binary_name es e bytes (ground (arith, f, n)) c)
    | inr (name, n) ↦ elim (Bool-cases (is_named binary_name name)) [
      | inl m ↦ inl (name, n, m, (ground (arith, f, n, m, c)))
      | inr m ↦ inr (find-IsContent binary_name es e bytes (ground (arith, f, n, m)) c)
    ]
  ]

  module _ (faults : Faults Bytes) (writes execs removes : Bool) (entries : List (Entry Bytes))
      (zip_path target : FilePath) (binary_name : String) (old : File Bytes) where
    -- The new binary, which is the content of an entry of the archive with the name.
    abbrev pub IsUpdated : Fs Bytes → Type 0
    IsUpdated fs =
        (bytes : Bytes) × IsContent binary_name entries bytes
        × (Map.get target fs ≡ some (record { bytes = bytes; executable = true }))

    abbrev pub Ended : End × Fs Bytes → Type 0
    Ended (executed, fs) = IsUpdated fs
    Ended (exited zero, fs) = IsUpdated fs
    Ended (exited (suc n), fs) = (Map.get target fs ≡ some old) ⊎ IsUpdated fs

    restart-Ended :
        (mode : String) (fs : Fs Bytes)
        → zip_path ≢ target
        → IsUpdated fs
        → Ended (restart execs removes mode zip_path fs)
    unfolding restart
    restart-Ended mode fs apart u = elim (Bool-cases (mode == "spawn")) [
      | inl s ↦ rw s (elim (Bool-cases execs) [ inl x ↦ rw x u | inr x ↦ rw x (inr u) ])
      | inr s ↦ rw s (elim (Bool-cases removes) [
        | inr x ↦ rw x u
        | inl x ↦ rw x (
          u.0,
          u.1,
          ground (arith, u.2, apart, same_path_iff zip_path target, get-remove zip_path target fs),
        )
      ])
    ]

    Installed-Ended :
        (new : Bytes) (mode : String) (r : Bool × Fs Bytes)
        → zip_path ≢ target
        → IsContent binary_name entries new
        → Installed faults
            (out_path zip_path binary_name)
            target
            old
            (record { bytes = new; executable = false })
            r
        → Ended (if r.0 then restart execs removes mode zip_path r.1 else (exited 1, r.1))
    Installed-Ended new mode (true, fs) apart c p = restart-Ended mode fs apart (new, c, p)
    Installed-Ended new mode (false, fs) apart c p = inl p

    extract-cases :
        (fs : Fs Bytes)
        → ((m : String) × (extract_binary writes (some entries) zip_path binary_name fs
              ≡ (err m, fs)))
          ⊎ ((bytes : Bytes) × IsContent binary_name entries bytes
              × (extract_binary writes (some entries) zip_path binary_name fs ≡ (
                ok (out_path zip_path binary_name),
                Map.insert
                    (out_path zip_path binary_name)
                    (record { bytes = bytes; executable = false })
                    fs,
              )))
    unfolding extract_binary
    extract-cases fs = elim (Option-cases (find_entry binary_name entries)) [
      | inl n ↦ inl ("not found inside zip archive", rw (n, extract_binary) refl)
      | inr (e, n) ↦ elim (Option-cases e.content) [
        | inl c ↦ inl ("invalid entry", rw (n, extract_binary, c) refl)
        | inr (bytes, c) ↦ elim (Bool-cases writes) [
          | inr x ↦ inl ("write", rw (n, extract_binary, c, x) refl)
          | inl x ↦ inr (
            bytes,
            find-IsContent binary_name entries e bytes n c,
            rw (n, extract_binary, c, x) refl,
          )
        ]
      ]
    ]

    stale_after :
        (out : FilePath) (new : File Bytes) (fs : Fs Bytes)
        → out ≢ backup_path target
        → (Map.get (backup_path target) fs ≡ none) ⊎ (faults.remove_stale ≡ true)
        → (Map.get (backup_path target) (Map.insert out new fs) ≡ none)
          ⊎ (faults.remove_stale ≡ true)
    stale_after out new fs b (inr x) = inr x
    stale_after out new fs b (inl n) = inl (
        ground (
          arith,
          n,
          b,
          same_path_iff out (backup_path target),
          get-insert out (backup_path target) new fs,
        ))

    abbrev main_on : String → Result String FilePath × Fs Bytes → End × Fs Bytes
    main_on mode r = elim r.0 [
      | err e ↦ (exited 1, r.1)
      | ok extracted ↦
          let (done, fs'') = install faults extracted target r.1 in
          if done then restart execs removes mode zip_path fs'' else (exited 1, fs'')
    ]

    -- Whatever fails, when the program ends with an error the path of the service's binary has the
    -- old file or the new one, and otherwise the new one, which is executable and the content of an
    -- entry of the archive with the name that was asked for; provided that a stale backup can be
    -- removed, that the backup can be moved back, and that the archive and what is extracted from
    -- it are neither the binary nor, for the latter, its backup.
    pub main-Ended :
        (mode : String) (fs : Fs Bytes)
        → zip_path ≢ target
        → out_path zip_path binary_name ≢ target
        → out_path zip_path binary_name ≢ backup_path target
        → Map.get target fs ≡ some old
        → (Map.get (backup_path target) fs ≡ none) ⊎ (faults.remove_stale ≡ true)
        → faults.restore ≡ true
        → Ended
            (main faults writes execs removes (some entries) zip_path target binary_name mode fs)
    unfolding main
    main-Ended mode fs apart a b t stale w = elim (extract-cases fs) [
      | inl (m, e) ↦ subst (λ r. Ended (main_on mode r)) (sym e) (inl t)
      | inr (bytes, c, e) ↦
          let out = out_path zip_path binary_name in
          let new : File Bytes = record { bytes = bytes; executable = false } in
          subst (λ r. Ended (main_on mode r)) (sym e)
            (Installed-Ended bytes mode (install faults out target (Map.insert out new fs)) apart c
              (install-Installed faults out target old new (Map.insert out new fs) a b
                (ground (arith, t, a, same_path_iff out target, get-insert out target new fs))
                (ground (arith, same_path_iff out out, get-insert out out new fs))
                (stale_after out new fs b stale) w))
    ]
