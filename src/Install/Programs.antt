-- ===== src/Install/Programs.antt =====
-- src/bin/installer.rs, run twice: `installer install` and then `installer uninstall`.
use rust_api_boilerplate.Prelude.{
  ℕ, ◌≡◌, ◌≢◌, ap, ◌∙◌, true, false, not, ◌&&◌, ◌||◌, none, List, ◌∷◌, Result, ok, if◌then◌else◌,
  unwrap_or, ◌==◌,
}
use rust_api_boilerplate.Map
use rust_api_boilerplate.Install.System.{PathBuf, System, Machine, is_under, components_eq}
use rust_api_boilerplate.Install.Options.{Flags, no_flags, gather, is_interactive, uninstall_dir}
use rust_api_boilerplate.Install.Program.{unit_path, main, cmd_install, cmd_uninstall}
use rust_api_boilerplate.Install.Arguments.{Setting, args_of, settle, main_install, main_uninstall}
use rust_api_boilerplate.Install.Roundtrip.{repaired, cmd_uninstall-cmd_install}

abbrev pub flags_of : {Bytes : Type 0} → Machine Bytes → List Setting → Flags
flags_of m settings = settle m.path_of settings no_flags

-- For a user with root who goes on, with the same command line of any settings for both runs, where
-- the install directory can be made, is no file before, and is the one that `uninstall` takes, and
-- the unit file's path is not that directory: after `installer install`, which may have failed at any
-- later call, and `installer uninstall` where the calls work, the second ends well, there is no file
-- in the install directory and no unit file, and every other path has the file that it had.
pub main-main :
    {Bytes : Type 0} (m : Machine Bytes) (settings : List Setting) (s : System Bytes) (p : PathBuf)
    → m.is_root ≡ true
    → (is_interactive m (flags_of m settings) && not (unwrap_or m.answers.proceed false)) ≡ false
    → m.faults.create_dir (gather m (flags_of m settings)).install_dir ≡ none
    → uninstall_dir m (flags_of m settings) ≡ (gather m (flags_of m settings)).install_dir
    → Map.get (gather m (flags_of m settings)).install_dir s.files ≡ none
    → unit_path m (gather m (flags_of m settings)).service_name
      ≢ (gather m (flags_of m settings)).install_dir
    → ((main
          (repaired m)
          ("uninstall" ∷ args_of settings)
          (main m ("install" ∷ args_of settings) s).1).0
        ≡ ok tt)
      × (Map.get p
            (main
              (repaired m)
              ("uninstall" ∷ args_of settings)
              (main m ("install" ∷ args_of settings) s).1).1.files
          ≡ (if is_under (gather m (flags_of m settings)).install_dir p
                || unit_path m (gather m (flags_of m settings)).service_name == p
              then none
              else Map.get p s.files))
main-main m settings s p root agreed f d file n =
    let flags = flags_of m settings in
    let first = main_install m settings s in
    let t = (main m ("install" ∷ args_of settings) s).1 in
    let t' = (cmd_install m flags s).1 in
    let both =
      main_uninstall (repaired m) settings t
      ∙ ap (λ (r : Result ℕ Unit × System _). cmd_uninstall (repaired m) flags r.1) first in
    let after = cmd_uninstall-cmd_install m flags s p root agreed f d file n in
    (
      ap (λ (r : Result ℕ Unit × System _). r.0) both ∙ after.0,
      ap (λ (r : Result ℕ Unit × System _). Map.get p r.1.files) both ∙ after.1,
    )
